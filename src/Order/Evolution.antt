-- ===== src/Order/Evolution.antt =====
-- The life of an order: what may become of the orders that are in the table.
use event_portal.Base.{
  differ_ne, absurd_bool, ◌==◌, ==→≡, ◌||◌, Bool, true, false, Option, none, some, List, [], ◌∷◌,
  ◌≡◌, refl, sym, ◌∙◌, subst, inl, inr, find, update, exists, find-update_self, find-update_ne,
  some_value, Bool-cases,
}
use event_portal.Store.{Db, Uuid, Time, Order, OrderStatus, is_pending}
use event_portal.Effect.Laws.{EndsOn}
use event_portal.Order.Sql.{
  CreateOrderParams, insert_order, new_order, has_number, fits_numeric, update_row, update_pending,
}

-- An order stays as it is, or moves on from PENDING, once.
pub data StatusStep : OrderStatus → OrderStatus → Type 0 where
  stay : (s : OrderStatus) → StatusStep s s
  pay : StatusStep OrderStatus.pending OrderStatus.paid
  cancel : StatusStep OrderStatus.pending OrderStatus.cancelled
  expire : StatusStep OrderStatus.pending OrderStatus.expired

StatusStep-trans : {a b c : OrderStatus} → StatusStep a b → StatusStep b c → StatusStep a c
StatusStep-trans (StatusStep.stay s) q = q
StatusStep-trans StatusStep.pay (StatusStep.stay _) = StatusStep.pay
StatusStep-trans StatusStep.cancel (StatusStep.stay _) = StatusStep.cancel
StatusStep-trans StatusStep.expire (StatusStep.stay _) = StatusStep.expire

from_pending : (r s : OrderStatus) → is_pending r ≡ true → StatusStep r s
from_pending OrderStatus.pending OrderStatus.pending h = StatusStep.stay OrderStatus.pending
from_pending OrderStatus.pending OrderStatus.paid h = StatusStep.pay
from_pending OrderStatus.pending OrderStatus.cancelled h = StatusStep.cancel
from_pending OrderStatus.pending OrderStatus.expired h = StatusStep.expire
from_pending OrderStatus.paid s h = cc
from_pending OrderStatus.cancelled s h = cc
from_pending OrderStatus.expired s h = cc

-- What may become of an order.
pub record Later (x y : Order) : Type 0 where
  pub step : StatusStep x.status y.status
  pub number : y.order_number ≡ x.order_number
  pub amount : y.total_amount ≡ x.total_amount

-- Every order is still there, later in its life.
pub record Evolves (before after : List Order) : Type 0 where
  pub later :
      (o : Uuid) (x : Order)
      → find (λ r. r.id) o before ≡ some x
      → (y : Order) × ((find (λ r. r.id) o after ≡ some y) × Later x y)

Later-trans : (x y z : Order) → Later x y → Later y z → Later x z
Later-trans x y z p q = record {
  step = StatusStep-trans p.step q.step;
  number = q.number ∙ p.number;
  amount = q.amount ∙ p.amount;
}

found_exists :
    (o : Uuid) (os : List Order) (x : Order)
    → find (λ r. r.id) o os ≡ some x
    → exists (λ r. r.id == o) os ≡ true
unfolding find exists
found_exists o [] x h = cc
found_exists o (y ∷ ys) x h = elim (Bool-cases (y.id == o)) [
  | inl here ↦ rw here refl
  | inr other ↦ rw other (found_exists o ys x (rw other at h))
]

find-new :
    (n : Order) (o : Uuid) (os : List Order) (x : Order)
    → exists (λ r. r.id == n.id) os ≡ false
    → find (λ r. r.id) o os ≡ some x
    → find (λ r. r.id) o (n ∷ os) ≡ some x
unfolding find
find-new n o os x fresh h = elim (Bool-cases (n.id == o)) [
  | inl same ↦ absurd_bool (
      sym fresh
      ∙ subst (λ k. exists (λ r. r.id == k) os ≡ true) (sym (==→≡ n.id o same))
          (found_exists o os x h))
  | inr other ↦ rw other h
]

first_false : (a b : Bool) → (a || b) ≡ false → a ≡ false
first_false true b h = cc
first_false false b h = refl

module _ (before : List Order) where
  Evolves-new :
      (n : Order) (os : List Order)
      → exists (λ r. r.id == n.id) os ≡ false
      → Evolves before os
      → Evolves before (n ∷ os)
  Evolves-new n os fresh v = record {
    later = λ o x h.
        let found = v.later o x h in
        (found.0, (find-new n o os found.0 fresh found.1.0, found.1.1));
  }

  -- An UPDATE of one order, to a later one.
  Evolves-update :
      (i : Uuid) (f : Order → Order) (os : List Order) (z : Order)
      → ((r : Order) → (f r).id ≡ r.id)
      → find (λ r. r.id) i os ≡ some z
      → Later z (f z)
      → Evolves before os
      → Evolves before (update (λ r. r.id) i f os)
  Evolves-update i f os z same_id there next v = record {
    later = λ o x h.
        let found = v.later o x h in
        elim (Bool-cases (o == i)) [
          | inl this ↦ (
            f z,
            (
              rw (==→≡ o i this) (find-update_self (λ r. r.id) i f os same_id z there),
              Later-trans x z (f z)
                  (subst (λ y. Later x y)
                    (some_value x found.0 z (sym found.1.0 ∙ (rw (==→≡ o i this) there))) found.1.1)
                  next,
            ),
          )
          | inr other ↦ (
            found.0,
            (
              find-update_ne (λ r. r.id) o i f os same_id (differ_ne o i other) ∙ found.1.0,
              found.1.1,
            ),
          )
        ];
  }

  -- What is known of the tables while a request runs.
  abbrev pub Evolved : Db → Type 0
  Evolved d = Evolves before d.orders

  pub insert_order-Evolved :
      (p : CreateOrderParams) (u : Uuid) (t : Time) (d : Db)
      → Evolved d
      → EndsOn (λ _. Evolved) Evolved (insert_order p u t d)
  unfolding insert_order
  insert_order-Evolved p u t d v =
      elim (Bool-cases
        (exists (λ o. o.id == u) d.orders || exists (has_number p.order_number) d.orders)) [
          | inl taken ↦ rw taken v
          | inr new ↦ elim (Bool-cases (fits_numeric p.total_amount)) [
            | inl fits ↦
                rw (new, fits) (Evolves-new (new_order u t p) d.orders (first_false _ _ new) v)
            | inr wide ↦ rw (new, wide) v
          ]
        ]

  pub update_pending-Evolved :
      (o : Uuid) (s : OrderStatus) (d : Db) (row : Option Order)
      → find (λ r. r.id) o d.orders ≡ row
      → Evolved d
      → EndsOn (λ _. Evolved) Evolved (update_pending o s row d)
  unfolding update_pending
  update_pending-Evolved o s d none e v = v
  update_pending-Evolved o s d (some z) e v = elim (Bool-cases (is_pending z.status)) [
    | inr settled ↦ rw settled v
    | inl open' ↦ rw open' (
        Evolves-update o (λ r. record r { status = s }) d.orders z (λ _. refl) e
          (record { step = from_pending z.status s open'; number = refl; amount = refl }) v)
  ]

  pub update_row-Evolved :
      (o : Uuid) (f : Order → Order) (d : Db) (row : Option Order)
      → ((r : Order) → (f r).id ≡ r.id)
      → ((r : Order) → Later r (f r))
      → find (λ r. r.id) o d.orders ≡ row
      → Evolved d
      → EndsOn (λ _. Evolved) Evolved (update_row o f row d)
  unfolding update_row
  update_row-Evolved o f d none same_id next e v = v
  update_row-Evolved o f d (some z) same_id next e v =
      Evolves-update o f d.orders z same_id e (next z) v

pub Evolves-trans : (a b c : List Order) → Evolves a b → Evolves b c → Evolves a c
Evolves-trans a b c v w = record {
  later = λ o x h.
      let y = v.later o x h in
      let z = w.later o y.0 y.1.0 in (z.0, (z.1.0, Later-trans x y.0 z.0 y.1.1 z.1.1));
}

pub Evolves-refl : (os : List Order) → Evolves os os
Evolves-refl os = record {
  later =
      λ o x h. (x, (h, record { step = StatusStep.stay x.status; number = refl; amount = refl }));
}
