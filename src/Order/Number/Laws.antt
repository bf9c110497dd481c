-- ===== src/Order/Number/Laws.antt =====
-- The shape of an order number.
use event_portal.Base.{Text, codes, ◌++◌, ◌∷◌, length, ◌≡◌, refl}
use event_portal.Store.{Time}
use event_portal.Effect.{Env, World, ok}
use event_portal.Effect.Laws.{Ends, Ends-ok, >>=-Ends, pure-Ends, map_error-Ends}
use event_portal.Randcode.Shape.{Code, new_code-Code}
use event_portal.Order.Number.{format_date, generate_order_number, order_number_suffix_length}

-- `ORD-`, eight digits of the date, a dash and six symbols of the code alphabet.
abbrev pub IsOrderNumber : Time → Text → Type 0
IsOrderNumber at n =
    (suffix : Text) × (Code order_number_suffix_length suffix
      × (n ≡ codes "ORD-" ++ (format_date at ++ (b'-' ∷ suffix))))

generate_order_number-Ends :
    (e : Env) (at : Time) (w : World)
    → Ends (λ n _. IsOrderNumber at n) (λ _. Unit) (generate_order_number e at) w
unfolding generate_order_number
generate_order_number-Ends e at w =
    >>=-Ends (λ s _. Code order_number_suffix_length s)
      (map_error-Ends _ (new_code-Code e order_number_suffix_length w))
      (λ s _ h. pure-Ends _ (s, (h, refl)))

length-number :
    (at : Time) (s : Text)
    → length s ≡ order_number_suffix_length
    → length (codes "ORD-" ++ (format_date at ++ (b'-' ∷ s))) ≡ 19
unfolding format_date
length-number at s h = rw h refl

-- An order number has nineteen characters: `ORD-`, the date of the order, a dash and six symbols
-- of the code alphabet.
pub generate_order_number_shape :
    (e : Env) (at : Time) (w w' : World) (n : Text)
    → generate_order_number e at w ≡ (ok n, w')
    → IsOrderNumber at n × (length n ≡ 19)
generate_order_number_shape e at w w' n drawn =
    let shape = Ends-ok (generate_order_number-Ends e at w) n w' drawn in
    (shape, rw shape.1.1 (length-number at shape.0 shape.1.0.0))
