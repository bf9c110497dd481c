-- ===== src/Randcode/Shape.antt =====
-- The shape of a random code: its length, and symbols that trimming and upper-casing keep.
use event_portal.Base.{
  ℕ, zero, suc, ◌%◌, ◌<◌, arith, Text, is_space, trim_left, trim_right, trim_space, upper, to_upper,
  leb, ltb, not, ◌&&◌, Option, none, some, [], ◌∷◌, length, Bool, true, ◌≡◌, refl,
}
use event_portal.Effect.{Env, World}
use event_portal.Effect.Laws.{Ends, EndsAt, >>=-Ends, pure-Ends, throw-Ends}
use event_portal.Randcode.{alphabet, symbol_at, drawn, draw_symbol, draw_symbols, new_code}

-- Neither a space nor a lower-case letter, and ASCII.
abbrev pub is_plain : ℕ → Bool
is_plain c = not (is_space c) && (not (leb b'a' c && leb c b'z') && ltb c 128)

abbrev pub all_plain : Text → Bool
all_plain [] = true
all_plain (c ∷ s) = is_plain c && all_plain s

alphabet_plain : all_plain alphabet ≡ true
unfolding is_space
alphabet_plain = refl

symbol_at-plain :
    (s : Text) (i : ℕ) → i < length s → all_plain s ≡ true → is_plain (symbol_at s i) ≡ true
symbol_at-plain [] i lt h = ground arith
symbol_at-plain (c ∷ s) zero lt h = ground arith
symbol_at-plain (c ∷ s) (suc i) lt h = symbol_at-plain s i (omega arith) (ground arith)

drawn-plain :
    (o : Option ℕ) (w : World) → EndsAt (λ c _. is_plain c ≡ true) (λ _. Unit) (drawn o, w)
drawn-plain none w = tt
drawn-plain (some n) w = symbol_at-plain alphabet (n % 32) (omega arith) alphabet_plain

abbrev pub Code : ℕ → Text → Type 0
Code n s = (length s ≡ n) × (all_plain s ≡ true)

draw_symbols-Code :
    (e : Env) (n : ℕ) (w : World) → Ends (λ s _. Code n s) (λ _. Unit) (draw_symbols e n) w
unfolding draw_symbols draw_symbol
draw_symbols-Code e zero w = pure-Ends _ (refl, refl)
draw_symbols-Code e (suc n) w =
    >>=-Ends (λ c _. is_plain c ≡ true) (record { end = drawn-plain (e.rand w.tick) _ })
      λ c w₁ h.
        >>=-Ends (λ s _. Code n s) (draw_symbols-Code e n w₁)
          (λ s w₂ k. pure-Ends _ (rw k.0 refl, rw (h, k.1) refl))

pub new_code-Code :
    (e : Env) (n : ℕ) (w : World) → Ends (λ s _. Code n s) (λ _. Unit) (new_code e n) w
unfolding new_code
new_code-Code e zero w = throw-Ends _ tt
new_code-Code e (suc n) w = draw_symbols-Code e (suc n) w

trim_left-plain : (s : Text) → all_plain s ≡ true → trim_left s ≡ s
unfolding trim_left
trim_left-plain [] h = refl
trim_left-plain (c ∷ s) h = ground arith

trim_right-plain : (s : Text) → all_plain s ≡ true → trim_right s ≡ s
unfolding trim_right
trim_right-plain [] h = refl
trim_right-plain (c ∷ s) h = ground (arith, trim_right-plain s)

upper-plain : (f : ℕ → ℕ) (s : Text) → all_plain s ≡ true → to_upper f s ≡ s
unfolding upper
upper-plain f [] h = refl
upper-plain f (c ∷ s) h = ground (arith, upper-plain f s)

pub trim_space-plain : (s : Text) → all_plain s ≡ true → trim_space s ≡ s
unfolding trim_space
trim_space-plain s h = rw (trim_left-plain s h) (trim_right-plain s h)

pub to_upper-plain : (f : ℕ → ℕ) (s : Text) → all_plain s ≡ true → to_upper f s ≡ s
to_upper-plain f s h = upper-plain f s h
