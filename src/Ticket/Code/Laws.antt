-- ===== src/Ticket/Code/Laws.antt =====
-- A code that the service draws is one that a lookup finds.
use event_portal.Base.{ℕ, Text, length, ◌≡◌}
use event_portal.Effect.{Env, World, ok}
use event_portal.Effect.Laws.{Ends, Ends-ok, Ends-weaken, map_error-Ends}
use event_portal.Randcode.Shape.{new_code-Code, trim_space-plain, to_upper-plain}
use event_portal.Ticket.Code.{normalize_code, generate_code, code_length}

normalize_code-plain_code :
    (f : ℕ → ℕ) (e : Env) (w : World)
    → Ends
        (λ c _. (normalize_code f c ≡ c) × (length c ≡ code_length))
        (λ _. Unit)
        (generate_code e)
        w
unfolding generate_code normalize_code
normalize_code-plain_code f e w =
    Ends-weaken (map_error-Ends _ (new_code-Code e code_length w))
      (λ c _ h. (rw (trim_space-plain c h.1) (to_upper-plain f c h.1), h.0)) (λ _ _. tt)

-- A code that the service draws has ten symbols, and normalising it, as every lookup does, gives
-- the code itself.
pub normalize_code-generate_code :
    (f : ℕ → ℕ) (e : Env) (w w' : World) (c : Text)
    → generate_code e w ≡ (ok c, w')
    → (normalize_code f c ≡ c) × (length c ≡ code_length)
normalize_code-generate_code f e w w' c drawn = Ends-ok (normalize_code-plain_code f e w) c w' drawn
