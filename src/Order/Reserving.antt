-- ===== src/Order/Reserving.antt =====
-- TX1 of checkout: what it takes off sale, the order's items hold.
use event_portal.Base.{
  add_assoc, sub_add_cancel, sub_zero, add_zero, zero_add, ℕ, zero, suc, ℤ, pos, ◌+ℤ◌, ◌-ℤ◌, ◌*ℤ◌,
  int_laws, Text, ltb, ◌||◌, if◌then◌else◌, Bool, true, false, List, [], ◌∷◌, ◌++◌, ◌≡◌, sym, ◌∙◌,
  inl, inr, Bool-cases, subst,
}
use event_portal.Errors.{Error, Code, bad_request, Sentinel, errors_is}
use event_portal.Store.{Db, Uuid, Time, Order, OrderItem}
use event_portal.Effect.{Env, World, pure, throw}
use event_portal.Effect.Laws.{
  Ends, >>=-Ends, >>-Ends, handle-Ends, pure-Ends, throw-Ends, map_error-Ends, in_tx-Ends, now-Ends,
}
use event_portal.Seats.{share, IsSound, Sound}
use event_portal.Order.Provider.{EventProvider}
use event_portal.Order.Request.{CheckoutItem, CheckoutAttendee, CheckoutRequest}
use event_portal.Order.Checkout.{
  ReservedLine, Reservation, line_of, reserve_items, create_items, create_attendees, reserve_tx,
  reserve_once, reserve_attempts,
}
use event_portal.Order.Seats.{Bought, Open, Any}
use event_portal.Order.Writes.{create_order-Sound, create_order_item-Sound, create_attendee-Sound}
use event_portal.Randcode.Laws.{new_code-Ends}
use event_portal.Order.Number.{generate_order_number}
use event_portal.Order.Contract.{SeatContract}

-- The seats of a ticket type in the reserved lines.
unfoldable pub seats : Uuid → List ReservedLine → ℤ
seats t [] = pos 0
seats t (l ∷ ls) = share l.ticket_type_id l.quantity t +ℤ seats t ls

take_one : (c s v s' : ℤ) → s' ≡ s +ℤ v → c -ℤ s -ℤ v ≡ c -ℤ s'
take_one c s v s' e = rw e (omega int_laws)

seats-snoc :
    (t : Uuid) (ls : List ReservedLine) (l : ReservedLine)
    → seats t (ls ++ (l ∷ [])) ≡ seats t ls +ℤ share l.ticket_type_id l.quantity t
unfolding seats
seats-snoc t [] l = omega int_laws
seats-snoc t (k ∷ ls) l =
    rw (seats-snoc t ls l) (sym (add_assoc (share k.ticket_type_id k.quantity t) (seats t ls) _))

generate_order_number-Ends :
    {P : Db → Type 0} (e : Env) (at : Time) (w : World)
    → P w.db
    → Ends (λ _. P) P (generate_order_number e at) w
unfolding generate_order_number
generate_order_number-Ends {P} e at w h =
    >>=-Ends (λ _. P) (map_error-Ends _ (new_code-Ends e 6 w h)) (λ _ _ k. pure-Ends _ k)

-- The state between TX1 and the payment: the seats are held by the order's items.
unfoldable pub Reserved : Uuid → ℤ → Reservation → Db → Type 0
Reserved t c r = Sound t c (Bought t r.created.id (seats t r.lines))

module _ (t : Uuid) (e : Env) (events : EventProvider) (contract : SeatContract events) where
  -- The reserved lines are what has been taken off sale.
  reserve_items-Sound :
      (c : ℤ) (total : ℤ) (reserved : List ReservedLine) (items : List CheckoutItem) (w : World)
      → Sound t (c -ℤ seats t reserved) Any w.db
      → Ends
          (λ r. Sound t (c -ℤ seats t r.1) Any)
          (λ _. Unit)
          (reserve_items e events total reserved items)
          w
  unfolding reserve_items
  reserve_items-Sound c total reserved [] w s = pure-Ends _ s
  reserve_items-Sound c total reserved (i ∷ is) w s =
      >>=-Ends (λ _. Sound t (c -ℤ seats t reserved) Any)
        (contract.reads t (c -ℤ seats t reserved) Any i.ticket_type_id w s)
        λ info w₁ s₁.
          >>=-Ends (λ _. Sound t (c -ℤ seats t reserved) Any) (now-Ends e (λ _. s₁))
            λ at w₂ s₂.
              >>-Ends (λ _. Sound t (c -ℤ seats t reserved) Any)
                (on_sale (ltb at info.sales_start || ltb info.sales_end at) w₂ s₂)
                λ _ w₃ s₃.
                  >>-Ends (λ _. Sound t (c -ℤ seats t (reserved ++ (line_of i info ∷ []))) Any)
                    (map_error-Ends _ (
                      subst
                        (λ k.
                          Ends (λ _. Sound t k Any) (λ _. Unit)
                            (events.check_and_deduct_quota i.ticket_type_id i.quantity) w₃)
                        (take_one c (seats t reserved) (share i.ticket_type_id i.quantity t) _
                          (seats-snoc t reserved (line_of i info)))
                        (contract.deducts t _ Any i.ticket_type_id i.quantity (λ _. Unit) w₃ tt
                          s₃)))
                    (λ _ w₄ s₄.
                      reserve_items-Sound c (total +ℤ info.price *ℤ i.quantity)
                        (reserved ++ (line_of i info ∷ [])) is w₄ s₄)
    where
      on_sale :
          (b : Bool) (w' : World)
          → Sound t (c -ℤ seats t reserved) Any w'.db
          → Ends
              (λ _. Sound t (c -ℤ seats t reserved) Any)
              (λ _. Unit)
              (if b then throw (bad_request Code.ticket_type_not_on_sale) else pure tt)
              w'
      on_sale true w' h = throw-Ends _ tt
      on_sale false w' h = pure-Ends _ h

  -- The items written are the reserved lines.
  create_items-Sound :
      (c s : ℤ) (o : Uuid) (ls : List ReservedLine) (w : World)
      → Sound t c (Open t o s) w.db
      → Ends
          (λ _. Sound t (c +ℤ seats t ls) (Open t o (s +ℤ seats t ls)))
          (λ _. Unit)
          (create_items e events o ls)
          w
  unfolding create_items seats
  create_items-Sound c s o [] w h = pure-Ends _ (rw (add_zero c, add_zero s) h)
  create_items-Sound c s o (l ∷ ls) w h =
      let v = share l.ticket_type_id l.quantity t in
      >>-Ends (λ _. Sound t (c +ℤ v) (Open t o (s +ℤ v)))
        (create_order_item-Sound t c e w o l.ticket_type_id l.quantity l.unit_price s h)
        λ _ w₁ h₁.
          subst
            (λ k.
              Ends (λ _. Sound t k (Open t o (s +ℤ (v +ℤ seats t ls)))) (λ _. Unit)
                (create_items e events o ls) w₁)
            (add_assoc c v (seats t ls))
            (subst
              (λ k.
                Ends (λ _. Sound t (c +ℤ v +ℤ seats t ls) (Open t o k)) (λ _. Unit)
                  (create_items e events o ls) w₁)
              (add_assoc s v (seats t ls)) (create_items-Sound (c +ℤ v) (s +ℤ v) o ls w₁ h₁))

  create_attendees-Sound :
      (c : ℤ) (F : List Order → List OrderItem → Type 0) (o : Uuid) (as' : List CheckoutAttendee)
      (w : World)
      → Sound t c F w.db
      → Ends (λ _. Sound t c F) (λ _. Unit) (create_attendees e events o as') w
  unfolding create_attendees
  create_attendees-Sound c F o [] w h = pure-Ends _ h
  create_attendees-Sound c F o (a ∷ as') w h =
      >>-Ends (λ _. Sound t c F)
        (create_attendee-Sound t c e w F o a.ticket_type_id a.name a.email h)
        (λ _ w₁ h₁. create_attendees-Sound c F o as' w₁ h₁)

  reserve_tx-Sound :
      (c : ℤ) (req : CheckoutRequest) (number : Text) (w : World)
      → IsSound t c w.db
      → Ends (Reserved t c) (λ _. Unit) (reserve_tx e events req number) w
  unfolding reserve_tx Reserved
  reserve_tx-Sound c req number w s =
      >>=-Ends (λ r. Sound t (c -ℤ seats t r.1) Any)
        (reserve_items-Sound c (pos 0) [] req.items w (none_reserved, tt))
        λ r w₁ s₁.
          >>=-Ends (λ x. Sound t (c -ℤ seats t r.1) (Open t x.id (pos 0)))
            (create_order-Sound t (c -ℤ seats t r.1) e w₁ _ s₁.0)
            λ created w₂ s₂.
              let done =
                Sound t (c -ℤ seats t r.1 +ℤ seats t r.1)
                  (Open t created.id (pos 0 +ℤ seats t r.1)) in
              >>-Ends (λ _. done)
                (create_items-Sound (c -ℤ seats t r.1) (pos 0) created.id r.1 w₂ s₂)
                λ _ w₃ s₃.
                  >>-Ends (λ _. done) (create_attendees-Sound _ _ created.id req.attendees w₃ s₃)
                    λ _ w₄ s₄. pure-Ends _ (
                      rw (sub_add_cancel c (seats t r.1)) at s₄.0,
                      (s₄.1.1.0, s₄.1.1.1 ∙ zero_add (seats t r.1)),
                    )
    where
      none_reserved : IsSound t (c -ℤ seats t []) w.db
      none_reserved = unfold seats in rw (sub_zero c) s

  reserve_once-Sound :
      (c : ℤ) (req : CheckoutRequest) (w : World)
      → IsSound t c w.db
      → Ends (Reserved t c) (IsSound t c) (reserve_once e events req) w
  unfolding reserve_once
  reserve_once-Sound c req w s =
      >>=-Ends (λ _. IsSound t c) (now-Ends e (λ _. s))
        λ at w₁ s₁.
          >>=-Ends (λ _. IsSound t c) (generate_order_number-Ends e at w₁ s₁)
            λ number w₂ s₂.
              in_tx-Ends e s₂ (λ r d (k : Reserved t c r d). unfold Reserved in k.0)
                (λ w₃ same. reserve_tx-Sound c req number w₃ (rw same s₂))

  pub reserve_attempts-Sound :
      (c : ℤ) (n : ℕ) (last : Error) (req : CheckoutRequest) (w : World)
      → IsSound t c w.db
      → Ends (Reserved t c) (IsSound t c) (reserve_attempts e events n last req) w
  unfolding reserve_attempts
  reserve_attempts-Sound c zero last req w s = throw-Ends _ s
  reserve_attempts-Sound c (suc n) last req w s =
      handle-Ends (Reserved t c) (IsSound t c) (reserve_once-Sound c req w s)
        (λ _ _ h. pure-Ends _ h)
        λ x w₁ h. elim (Bool-cases (errors_is x Sentinel.order_number_taken)) [
          | inl taken ↦ rw taken (reserve_attempts-Sound c n x req w₁ h)
          | inr other ↦ rw other (throw-Ends _ h)
        ]
