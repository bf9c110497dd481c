-- ===== src/Order/Expiry.antt =====
-- What the expiry sweep is given: orders that are due, and no more than it asked for.
use event_portal.Base.{
  subst, ◌∙◌, ltb, ap, sym, exists, ◌||◌, ◌==◌, ==_refl, absurd_bool, Each-map, ℕ, zero, suc, ◌≤◌,
  arith, leb, ◌&&◌, Bool, true, false, Option, none, some, List, [], ◌∷◌, map, ◌≡◌, refl, inl, inr,
  Bool-cases, select, sort_by, insert_by, take, length, Each,
}
use event_portal.Store.{Uuid, Time, Order, OrderStatus, is_pending}
use event_portal.Effect.{Env, World, ok}
use event_portal.Effect.Laws.{Ends, Ends-ok, >>=-Ends, pure-Ends, map_error-Ends, query-Ends}
use event_portal.Order.Sql
use event_portal.Order.Sql.{is_due, deadline}
use event_portal.Order.Repository
use event_portal.Order.Repository.{ExpiryCandidate, candidate}

-- PENDING, with a deadline that has passed.
abbrev pub IsDue : Time → ExpiryCandidate → Type 0
IsDue at c =
    (c.status ≡ OrderStatus.pending) × ((t : Time) × ((c.payment_expires_at ≡ some t) × (t ≤ at)))

-- The same of a row of the table.
abbrev pub Overdue : Time → Order → Type 0
Overdue at o =
    (o.status ≡ OrderStatus.pending) × ((t : Time) × ((o.payment_expires_at ≡ some t) × (t ≤ at)))

-- Every overdue order of a table is listed.
abbrev pub AllListed : Time → List Order → List ExpiryCandidate → Type 0
AllListed at orders cs = Each (λ o. Overdue at o → exists (λ c. c.id == o.id) cs ≡ true) orders

or_there : (a b : Bool) → b ≡ true → (a || b) ≡ true
or_there true b h = refl
or_there false b h = h

module _ {A : Type 0} (P : A → Type 0) where
  Each-take : (n : ℕ) (xs : List A) → Each P xs → Each P (take n xs)
  Each-take zero xs h = tt
  Each-take (suc n) [] h = tt
  Each-take (suc n) (x ∷ xs) h = (h.0, Each-take n xs h.1)

  Each-insert_by :
      (key : A → ℕ) (x : A) (xs : List A) → P x → Each P xs → Each P (insert_by key x xs)
  unfolding insert_by
  Each-insert_by key x [] p h = (p, tt)
  Each-insert_by key x (y ∷ ys) p h = elim (Bool-cases (leb (key x) (key y))) [
    | inl first ↦ rw first (p, h)
    | inr later ↦ rw later (h.0, Each-insert_by key x ys p h.1)
  ]

  Each-sort_by : (key : A → ℕ) (xs : List A) → Each P xs → Each P (sort_by key xs)
  unfolding sort_by
  Each-sort_by key [] h = tt
  Each-sort_by key (x ∷ xs) h = Each-insert_by key x (sort_by key xs) h.0 (Each-sort_by key xs h.1)

Each-select : {A : Type 0} (p : A → Bool) (xs : List A) → Each (λ x. p x ≡ true) (select p xs)
unfolding select
Each-select p [] = tt
Each-select p (x ∷ xs) = elim (Bool-cases (p x)) [
  | inl due ↦ rw due (due, Each-select p xs)
  | inr early ↦ rw early (Each-select p xs)
]

length-take : {A : Type 0} (n : ℕ) (xs : List A) → length (take n xs) ≤ n
length-take zero xs = omega arith
length-take (suc n) [] = omega arith
length-take (suc n) (x ∷ xs) = omega (arith, length-take n xs)

take_short : {A : Type 0} (n : ℕ) (xs : List A) → ltb (length (take n xs)) n ≡ true → take n xs ≡ xs
take_short zero xs h = ground arith
take_short (suc n) [] h = refl
take_short (suc n) (x ∷ xs) h = ap (λ ys. x ∷ ys) (take_short n xs (ground arith))

module _ {A : Type 0} (p : A → Bool) where
  exists-insert_by :
      (key : A → ℕ) (x : A) (xs : List A) → exists p (insert_by key x xs) ≡ (p x || exists p xs)
  unfolding exists insert_by
  exists-insert_by key x [] = refl
  exists-insert_by key x (y ∷ ys) = ground (arith, exists-insert_by key x ys)

  exists-sort_by : (key : A → ℕ) (xs : List A) → exists p (sort_by key xs) ≡ exists p xs
  unfolding exists sort_by
  exists-sort_by key [] = refl
  exists-sort_by key (x ∷ xs) =
      ground (arith, exists-insert_by key x (sort_by key xs), exists-sort_by key xs)

module _ {A : Type 0} (key : A → ℕ) (p : A → Bool) where
  select_in : (x : A) (xs : List A) → p x ≡ true → select p (x ∷ xs) ≡ x ∷ select p xs
  unfolding select
  select_in x xs h = rw h refl

  select_out : (x : A) (xs : List A) → p x ≡ false → select p (x ∷ xs) ≡ select p xs
  unfolding select
  select_out x xs h = rw h refl

  abbrev AreIn : List A → List A → Type 0
  AreIn ys xs = Each (λ x. p x ≡ true → exists (λ y. key y == key x) ys ≡ true) xs

  -- What is selected is there.
  Each-selected : (xs : List A) → AreIn (select p xs) xs
  unfolding exists
  Each-selected [] = tt
  Each-selected (x ∷ xs) = elim (Bool-cases (p x)) [
    | inl due ↦
        subst (λ ys. AreIn ys (x ∷ xs)) (sym (select_in x xs due))
          (
            (λ _. rw (==_refl (key x)) refl),
            Each-map xs (λ y h k. or_there (key x == key y) _ (h k)) (Each-selected xs),
          )
    | inr early ↦
        subst (λ ys. AreIn ys (x ∷ xs)) (sym (select_out x xs early))
          ((λ h. absurd_bool (sym early ∙ h)), Each-selected xs)
  ]

candidate_ids :
    (i : Uuid) (os : List Order)
    → exists (λ c. c.id == i) (map candidate os) ≡ exists (λ o. o.id == i) os
unfolding exists
candidate_ids i [] = refl
candidate_ids i (o ∷ os) = rw (candidate_ids i os) refl

pending_of : (s : OrderStatus) → is_pending s ≡ true → s ≡ OrderStatus.pending
pending_of OrderStatus.pending h = refl
pending_of OrderStatus.paid h = cc
pending_of OrderStatus.cancelled h = cc
pending_of OrderStatus.expired h = cc

due_at :
    (at : Time) (s : OrderStatus) (deadline' : Option Time)
    → (elim deadline' [ none ↦ false | some t ↦ is_pending s && leb t at ]) ≡ true
    → (s ≡ OrderStatus.pending) × ((t : Time) × ((deadline' ≡ some t) × (t ≤ at)))
due_at at s none h = cc
due_at at s (some t) h = elim (Bool-cases (is_pending s)) [
  | inl open' ↦ (pending_of s open', (t, (refl, ground arith)))
  | inr settled ↦ cc
]

candidates-IsDue :
    (at : Time) (os : List Order)
    → Each (λ o. is_due at o ≡ true) os
    → Each (IsDue at) (map candidate os)
candidates-IsDue at [] h = tt
candidates-IsDue at (o ∷ os) h =
    (due_at at o.status o.payment_expires_at h.0, candidates-IsDue at os h.1)

length-candidates : (os : List Order) → length (map candidate os) ≡ length os
length-candidates [] = refl
length-candidates (o ∷ os) = rw (length-candidates os) refl

Overdue-is_due : (at : Time) (o : Order) → Overdue at o → is_due at o ≡ true
Overdue-is_due at o (open', (t, (until, past))) = rw (open', until) (ground arith)

module _ (at : Time) (limit : ℕ) where
  abbrev due_rows : List Order → List Order
  due_rows orders = take limit (sort_by deadline (select (is_due at) orders))

  -- A list that is not full has all of them.
  all_listed :
      (orders : List Order)
      → ltb (length (map candidate (due_rows orders))) limit ≡ true
      → AllListed at orders (map candidate (due_rows orders))
  all_listed orders room =
      let whole : due_rows orders ≡ sort_by deadline (select (is_due at) orders) =
        take_short limit _ (rw (length-candidates (due_rows orders)) at room) in
      Each-map orders
        (λ o h overdue.
          rw
            (
              candidate_ids o.id (due_rows orders),
              whole,
              exists-sort_by (λ (x : Order). x.id == o.id) deadline (select (is_due at) orders),
            )
            (h (Overdue-is_due at o overdue)))
        (Each-selected (λ (o : Order). o.id) (is_due at) orders)

module _ (e : Env) (at : Time) (limit : ℕ) where
  abbrev Listing : List Order → List ExpiryCandidate → Type 0
  Listing orders cs =
      Each (IsDue at) cs
      × ((length cs ≤ limit) × (ltb (length cs) limit ≡ true → AllListed at orders cs))

  list_orders_due_for_expiry-Ends :
      (w : World)
      → Ends
          (λ cs _. Listing w.db.orders cs)
          (λ _. Unit)
          (Repository.list_orders_due_for_expiry e at limit)
          w
  unfolding Repository.list_orders_due_for_expiry Sql.list_orders_due_for_expiry
  list_orders_due_for_expiry-Ends w =
      >>=-Ends (λ rows _. rows ≡ due_rows at limit w.db.orders)
        (map_error-Ends _ (query-Ends e _ tt refl))
        (λ rows _ h. pure-Ends _ (
          rw h (
            candidates-IsDue at (due_rows at limit w.db.orders) (
                Each-take _ limit _
                  (Each-sort_by _ deadline _ (Each-select (is_due at) w.db.orders))),
            (
              rw (length-candidates (due_rows at limit w.db.orders)) (length-take limit _),
              all_listed at limit w.db.orders,
            ),
          )))

  -- The orders that the sweep is given are PENDING and have a payment deadline that has passed or is
  -- reached, so an order without a deadline is never among them; they are at most as many as asked
  -- for; and if they are fewer, every such order of the table is among them.
  pub list_orders_due_for_expiry-IsDue :
      (w w' : World) (cs : List ExpiryCandidate)
      → Repository.list_orders_due_for_expiry e at limit w ≡ (ok cs, w')
      → Each (IsDue at) cs
        × ((length cs ≤ limit) × (ltb (length cs) limit ≡ true → AllListed at w.db.orders cs))
  list_orders_due_for_expiry-IsDue w w' cs listed =
      Ends-ok (list_orders_due_for_expiry-Ends w) cs w' listed
