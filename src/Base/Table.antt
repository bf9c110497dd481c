-- ===== src/Base/Table.antt =====
-- A table of the database as a list of rows, addressed by a key column. The columns that the
-- statements name in `WHERE key = $1` are unique (a primary key or a unique index), so a
-- statement meets the first row with the key.
use Prim.Native.Nat.{ℕ, zero, suc}
use mathlib.Core.Path.{◌≡◌, refl}
use mathlib.Core.Logic.{◌≢◌}
use mathlib.Core.Bool.{Bool, true, false, not, ◌||◌}
use mathlib.Core.Option.{Option, none, some}
use mathlib.Core.List.{List, [], ◌∷◌, map}
use native.Mathlib.Omega.{arith}
use event_portal.Base.Tests.{◌==◌, leb, ltb, if◌then◌else◌}

module _ {A : Type 0} where
  -- SELECT … WHERE key = $1
  unfoldable pub find : (A → ℕ) → ℕ → List A → Option A
  find key k [] = none
  find key k (x ∷ xs) = if key x == k then some x else find key k xs

  -- SELECT … WHERE p, of which the statement takes one row
  unfoldable pub find_by : (A → Bool) → List A → Option A
  find_by p [] = none
  find_by p (x ∷ xs) = if p x then some x else find_by p xs

  -- UPDATE … WHERE key = $1
  unfoldable pub update : (A → ℕ) → ℕ → (A → A) → List A → List A
  update key k f [] = []
  update key k f (x ∷ xs) = if key x == k then f x ∷ xs else x ∷ update key k f xs

  -- SELECT … WHERE p
  unfoldable pub select : (A → Bool) → List A → List A
  select p [] = []
  select p (x ∷ xs) = let rest = select p xs in if p x then x ∷ rest else rest

  -- EXISTS (SELECT 1 … WHERE p)
  unfoldable pub exists : (A → Bool) → List A → Bool
  exists p [] = false
  exists p (x ∷ xs) = p x || exists p xs

  unfoldable pub insert_by : (A → ℕ) → A → List A → List A
  insert_by key x [] = x ∷ []
  insert_by key x (y ∷ ys) = if leb (key x) (key y) then x ∷ y ∷ ys else y ∷ insert_by key x ys

  -- ORDER BY key, where rows with one key keep their order
  unfoldable pub sort_by : (A → ℕ) → List A → List A
  unfolding insert_by
  sort_by key [] = []
  sort_by key (x ∷ xs) = insert_by key x (sort_by key xs)

  unfoldable pub insert_with : (A → A → Bool) → A → List A → List A
  insert_with before x [] = x ∷ []
  insert_with before x (y ∷ ys) = if before x y then x ∷ y ∷ ys else y ∷ insert_with before x ys

  -- ORDER BY several columns, or downwards
  unfoldable pub sort_with : (A → A → Bool) → List A → List A
  unfolding insert_with
  sort_with before [] = []
  sort_with before (x ∷ xs) = insert_with before x (sort_with before xs)

  -- LIMIT n
  abbrev pub take : ℕ → List A → List A
  take zero xs = []
  take (suc n) [] = []
  take (suc n) (x ∷ xs) = x ∷ take n xs

  abbrev pub drop : ℕ → List A → List A
  drop zero xs = xs
  drop (suc n) [] = []
  drop (suc n) (x ∷ xs) = drop n xs

  abbrev pub length : List A → ℕ
  length [] = 0
  length (x ∷ xs) = suc (length xs)

  pub find-update_self :
      (key : A → ℕ) (k : ℕ) (f : A → A) (xs : List A)
      → ((x : A) → key (f x) ≡ key x)
      → (x : A) → find key k xs ≡ some x
      → find key k (update key k f xs) ≡ some (f x)
  unfolding find update
  find-update_self key k f [] same x e = cc
  find-update_self key k f (y ∷ ys) same x e =
      ground (arith, same y, find-update_self key k f ys same x)

  pub find-update_ne :
      (key : A → ℕ) (j k : ℕ) (f : A → A) (xs : List A)
      → ((x : A) → key (f x) ≡ key x)
      → j ≢ k
      → find key j (update key k f xs) ≡ find key j xs
  unfolding find update
  find-update_ne key j k f [] same ne = refl
  find-update_ne key j k f (y ∷ ys) same ne =
      ground (arith, same y, find-update_ne key j k f ys same ne)

-- How often a number stands in a list.
unfoldable pub times : ℕ → List ℕ → ℕ
times a [] = 0
times a (x ∷ xs) = let n = times a xs in if x == a then suc n else n

-- Sorting moves rows about.
module _ {A : Type 0} (before : A → A → Bool) where
  times-insert_with :
      (f : A → ℕ) (a : ℕ) (x : A) (xs : List A)
      → times a (map f (insert_with before x xs)) ≡ times a (f x ∷ map f xs)
  unfolding times insert_with
  times-insert_with f a x [] = refl
  times-insert_with f a x (y ∷ ys) = ground (arith, times-insert_with f a x ys)

  pub times-sort_with :
      (f : A → ℕ) (a : ℕ) (xs : List A) → times a (map f (sort_with before xs)) ≡ times a (map f xs)
  unfolding times sort_with
  times-sort_with f a [] = refl
  times-sort_with f a (x ∷ xs) =
      ground (arith, times-insert_with f a x (sort_with before xs), times-sort_with f a xs)

  length-insert_with : (x : A) (xs : List A) → length (insert_with before x xs) ≡ suc (length xs)
  unfolding insert_with
  length-insert_with x [] = refl
  length-insert_with x (y ∷ ys) = ground (arith, length-insert_with x ys)

  pub length-sort_with : (xs : List A) → length (sort_with before xs) ≡ length xs
  unfolding sort_with
  length-sort_with [] = refl
  length-sort_with (x ∷ xs) =
      ground (arith, length-insert_with x (sort_with before xs), length-sort_with xs)

-- A property of every row.
abbrev pub Each : {A : Type 0} → (A → Type 0) → List A → Type 0
Each P [] = Unit
Each P (x ∷ xs) = P x × Each P xs

pub Each-map :
    {A : Type 0} {P Q : A → Type 0} (xs : List A) → ((x : A) → P x → Q x) → Each P xs → Each Q xs
Each-map [] f h = tt
Each-map (x ∷ xs) f h = (f x h.0, Each-map xs f h.1)

module _ {A : Type 0} where
  -- A row that meets a stronger condition meets a weaker one.
  pub exists_mono :
      (p q : A → Bool) (xs : List A)
      → ((x : A) → p x ≡ true → q x ≡ true)
      → exists q xs ≡ false
      → exists p xs ≡ false
  unfolding exists
  exists_mono p q [] sub none_q = refl
  exists_mono p q (x ∷ xs) sub none_q = ground (arith, sub x, exists_mono p q xs sub)

  pub exists_never : (xs : List A) → exists (λ _. false) xs ≡ false
  unfolding exists
  exists_never [] = refl
  exists_never (x ∷ xs) = exists_never xs

  pub exists-map :
      (f : A → ℕ) (i : ℕ) (xs : List A)
      → exists (λ j. j == i) (map f xs) ≡ exists (λ x. f x == i) xs
  unfolding exists
  exists-map f i [] = refl
  exists-map f i (x ∷ xs) = rw (exists-map f i xs) refl

  pub length-select : (p : A → Bool) (xs : List A) → ltb 0 (length (select p xs)) ≡ exists p xs
  unfolding exists select
  length-select p [] = refl
  length-select p (x ∷ xs) = ground (arith, length-select p xs)

  pub select_none : (p : A → Bool) (xs : List A) → exists p xs ≡ false → select p xs ≡ []
  unfolding exists select
  select_none p [] h = refl
  select_none p (x ∷ xs) h = ground (arith, select_none p xs)

  pub select_all :
      (p : A → Bool) (xs : List A) → exists p xs ≡ false → select (λ x. not (p x)) xs ≡ xs
  unfolding exists select
  select_all p [] h = refl
  select_all p (x ∷ xs) h = ground (arith, select_all p xs)

  -- Rows selected by a condition have it.
  pub exists-select :
      (p q : A → Bool) (xs : List A)
      → ((x : A) → p x ≡ true → q x ≡ false)
      → exists q (select p xs) ≡ false
  unfolding exists select
  exists-select p q [] apart = refl
  exists-select p q (x ∷ xs) apart = ground (arith, apart x, exists-select p q xs apart)

pub exists_cong :
    {A : Type 0} (p q : A → Bool) (xs : List A) → ((x : A) → p x ≡ q x) → exists p xs ≡ exists q xs
unfolding exists
exists_cong p q [] same = refl
exists_cong p q (x ∷ xs) same = rw (same x, exists_cong p q xs same) refl

pub select_cong :
    {A : Type 0} (p q : A → Bool) (xs : List A) → ((x : A) → p x ≡ q x) → select p xs ≡ select q xs
unfolding select
select_cong p q [] same = refl
select_cong p q (x ∷ xs) same = rw (same x, select_cong p q xs same) refl
