-- ===== src/Event/Admin/Slug.antt =====
-- slugPattern of backend/internal/event/admin_dto.go, `^[a-z0-9]+(?:-[a-z0-9]+)*$`, as the automaton
-- that reads a text once, and the texts that it means.
use event_portal.Base.{
  ℕ, Text, leb, ◌==◌, ◌&&◌, ◌||◌, if◌then◌else◌, Bool, true, false, List, [], ◌∷◌, ◌++◌, ◌≡◌, refl,
  ◌↔◌, inl, inr, Bool-cases, ==→≡,
}

-- [a-z0-9]
abbrev pub is_slug_symbol : ℕ → Bool
is_slug_symbol c = (leb b'a' c && leb c b'z') || (leb b'0' c && leb c b'9')

-- `in_word` says whether the symbol before was one of a word.
unfoldable pub slug_from : Bool → Text → Bool
slug_from in_word [] = in_word
slug_from in_word (c ∷ s) =
    let word = slug_from true s in
    let hyphen = slug_from false s in
    if is_slug_symbol c then word else (in_word && (c == b'-' && hyphen))

unfoldable pub matches_slug_pattern : Text → Bool
unfolding slug_from
matches_slug_pattern s = slug_from false s

abbrev pub AreSymbols : Text → Type 0
AreSymbols [] = Unit
AreSymbols (c ∷ s) = (is_slug_symbol c ≡ true) × AreSymbols s

-- A run of slug symbols, not empty.
abbrev pub IsWord : Text → Type 0
IsWord [] = ⊥
IsWord (c ∷ s) = (is_slug_symbol c ≡ true) × AreSymbols s

abbrev pub AreWords : List Text → Type 0
AreWords [] = Unit
AreWords (w ∷ ws) = IsWord w × AreWords ws

-- The words after the first, each behind its hyphen.
abbrev pub hyphened : List Text → Text
hyphened [] = []
hyphened (w ∷ ws) = b'-' ∷ (w ++ hyphened ws)

-- A first word, and more words behind single hyphens.
abbrev pub IsSlug : Text → Type 0
IsSlug s = (w : Text) × ((ws : List Text) × (IsWord w × (AreWords ws × (s ≡ w ++ hyphened ws))))

-- What is left of a slug inside a word.
abbrev IsRest : Text → Type 0
IsRest s = (u : Text) × ((ws : List Text) × (AreSymbols u × (AreWords ws × (s ≡ u ++ hyphened ws))))

after_hyphen : (c : ℕ) (s : Text) → (c == b'-') ≡ true → IsSlug s → IsRest (c ∷ s)
after_hyphen c s h (w, (ws, (word, (words, e)))) =
    ([], (w ∷ ws, (tt, ((word, words), rw (==→≡ c b'-' h, e) refl))))

first_symbol : (c : ℕ) (s : Text) → is_slug_symbol c ≡ true → IsRest s → IsSlug (c ∷ s)
first_symbol c s h (u, (ws, (symbols, (words, e)))) =
    (c ∷ u, (ws, ((h, symbols), (words, rw e refl))))

next_symbol : (c : ℕ) (s : Text) → is_slug_symbol c ≡ true → IsRest s → IsRest (c ∷ s)
next_symbol c s h (u, (ws, (symbols, (words, e)))) =
    (c ∷ u, (ws, ((h, symbols), (words, rw e refl))))

and_true : (a b : Bool) → (a && b) ≡ true → (a ≡ true) × (b ≡ true)
and_true true b h = (refl, h)
and_true false b h = cc

read-IsSlug :
    (s : Text) → (slug_from true s ≡ true → IsRest s) × (slug_from false s ≡ true → IsSlug s)
unfolding slug_from
read-IsSlug [] = ((λ _. ([], ([], (tt, (tt, refl))))), (λ h. cc))
read-IsSlug (c ∷ s) = elim (Bool-cases (is_slug_symbol c)) [
  | inl symbol ↦ rw symbol (
      (
        (λ h. next_symbol c s symbol ((read-IsSlug s).0 h)),
        (λ h. first_symbol c s symbol ((read-IsSlug s).0 h)),
      ))
  | inr other ↦ rw other (
      (
        (λ h.
            let (hyphen, rest) = and_true (c == b'-') (slug_from false s) h in
            after_hyphen c s hyphen ((read-IsSlug s).1 rest)),
        (λ h. cc),
      ))
]

accept_rest :
    (ws : List Text) (u : Text)
    → AreSymbols u
    → AreWords ws
    → slug_from true (u ++ hyphened ws) ≡ true
unfolding slug_from
accept_rest [] [] symbols words = refl
accept_rest ((c ∷ u) ∷ ws) [] symbols ((symbol, more), words) =
    rw (symbol, accept_rest ws u more words) refl
accept_rest ([] ∷ ws) [] symbols words = absurd words.0
accept_rest ws (c ∷ u) (symbol, more) words = rw symbol (accept_rest ws u more words)

accept_slug : (s : Text) → IsSlug s → slug_from false s ≡ true
unfolding slug_from
accept_slug s ([], (ws, (word, (words, e)))) = absurd word
accept_slug s (c ∷ u, (ws, ((symbol, more), (words, e)))) =
    rw (e, symbol) (accept_rest ws u more words)

-- The slug pattern accepts exactly the texts that are one or more words of lower-case letters and
-- digits, none empty, joined by single hyphens.
pub matches_slug_pattern-IsSlug : (s : Text) → (matches_slug_pattern s ≡ true) ↔ IsSlug s
unfolding matches_slug_pattern
matches_slug_pattern-IsSlug s = ((read-IsSlug s).1, accept_slug s)
