-- ===== src/Randcode/Laws.antt =====
-- Drawing a code touches no table.
use event_portal.Base.{ℕ, zero, suc, ◌+◌, Option, none, some}
use event_portal.Store.{Db}
use event_portal.Effect.{Env, World}
use event_portal.Effect.Laws.{Ends, EndsAt, >>=-Ends, pure-Ends, throw-Ends}
use event_portal.Randcode.{drawn, draw_symbol, draw_symbols, new_code}

drawn_on : (P : Db → Type 0) (o : Option ℕ) (w : World) → P w.db → EndsAt (λ _. P) P (drawn o, w)
drawn_on P none w h = h
drawn_on P (some n) w h = h

module _ {P : Db → Type 0} (e : Env) where
  draw_symbol-Ends : (w : World) → P w.db → Ends (λ _. P) P (draw_symbol e) w
  unfolding draw_symbol
  draw_symbol-Ends w h = record {
    end = drawn_on P (e.rand w.tick) (record w { tick = w.tick + 1 }) h;
  }

  draw_symbols-Ends : (n : ℕ) (w : World) → P w.db → Ends (λ _. P) P (draw_symbols e n) w
  unfolding draw_symbols
  draw_symbols-Ends zero w h = pure-Ends _ h
  draw_symbols-Ends (suc n) w h =
      >>=-Ends (λ _. P) (draw_symbol-Ends w h)
        λ c w₁ h₁. >>=-Ends (λ _. P) (draw_symbols-Ends n w₁ h₁) (λ cs w₂ h₂. pure-Ends _ h₂)

  pub new_code-Ends : (n : ℕ) (w : World) → P w.db → Ends (λ _. P) P (new_code e n) w
  unfolding new_code
  new_code-Ends zero w h = throw-Ends _ h
  new_code-Ends (suc n) w h = draw_symbols-Ends (suc n) w h
