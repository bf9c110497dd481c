-- ===== src/Randcode.antt =====
-- backend/pkg/randcode/randcode.go. crypto/rand is the environment's: a draw below the size of
-- the alphabet, or no entropy.
pub mod Laws
pub mod Shape
use event_portal.Base.{
  ℕ, zero, suc, ◌+◌, ◌%◌, ◌<◌, Text, codes, Option, none, some, List, [], ◌∷◌, Bool, true, false,
  ◌≡◌, refl,
}
use event_portal.Errors.{plain}
use event_portal.Effect.{Env, World, Result, ok, err, M, pure, throw, ◌>>=◌}

abbrev pub alphabet : Text
alphabet = codes "23456789ABCDEFGHJKLMNPQRSTUVWXYZ"

-- `Alphabet[n]`; an index out of range panics in Go, and does not occur below.
abbrev pub symbol_at : Text → ℕ → ℕ
symbol_at [] i = 0
symbol_at (c ∷ cs) zero = c
symbol_at (c ∷ cs) (suc i) = symbol_at cs i

abbrev pub drawn : Option ℕ → Result ℕ
drawn none = err plain
drawn (some n) = ok (symbol_at alphabet (n % 32))

module _ (e : Env) where
  unfoldable pub draw_symbol : M ℕ
  draw_symbol w = (drawn (e.rand w.tick), record w { tick = w.tick + 1 })

  -- The loop, with the symbols left to draw.
  unfoldable pub draw_symbols : ℕ → M Text
  unfolding draw_symbol
  draw_symbols zero = pure []
  draw_symbols (suc n) = do c ← draw_symbol; cs ← draw_symbols n; pure (c ∷ cs)

  -- randcode.New
  unfoldable pub new_code : ℕ → M Text
  unfolding draw_symbols
  new_code zero = throw plain
  new_code (suc n) = draw_symbols (suc n)
