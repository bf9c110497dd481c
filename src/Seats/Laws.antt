-- ===== src/Seats/Laws.antt =====
-- How the quotas, the held seats and the capacity of a ticket type answer to changes of a table.
use event_portal.Base.{
  ℕ, ℤ, pos, ◌+ℤ◌, int_laws, arith, ◌==◌, ==→≡, if◌then◌else◌, true, false, some, List, [], ◌∷◌,
  find, update, exists, find-update_self, find-update_ne, ◌≡◌, refl, ◌∙◌, inl, inr, Bool-cases,
}
use event_portal.Store.{Uuid, Order, OrderItem, TicketType, is_holding}
use event_portal.Seats.{share, quota_in, holds, held_in, items_in, Linked}

-- Storing a quota changes that ticket type's quota and no other.
pub quota_in-update :
    (t i : Uuid) (q : ℤ) (rows : List TicketType) (x : TicketType)
    → find (λ r. r.id) i rows ≡ some x
    → quota_in t (update (λ r. r.id) i (λ r. record r { quota = q }) rows)
      ≡ (if i == t then q else quota_in t rows)
quota_in-update t i q rows x e = elim (Bool-cases (i == t)) [
  | inl same ↦
      let found =
        find-update_self (λ r. r.id) i (λ (r : TicketType). record r { quota = q }) rows (λ r. refl)
          x e in
      rw (same, ← ==→≡ i t same, found, quota_in)
  | inr other ↦ rw (
    other,
    find-update_ne (λ r. r.id) t i (λ (r : TicketType). record r { quota = q }) rows (λ r. refl)
        (λ p. ground arith),
    quota_in,
  )
]

pub holds-update :
    (k o : Uuid) (f : Order → Order) (orders : List Order) (x : Order)
    → ((y : Order) → (f y).id ≡ y.id)
    → find (λ y. y.id) o orders ≡ some x
    → holds k (update (λ y. y.id) o f orders)
      ≡ (if o == k then is_holding (f x).status else holds k orders)
holds-update k o f orders x same e = elim (Bool-cases (o == k)) [
  | inl here ↦ rw (here, ← ==→≡ o k here, find-update_self (λ y. y.id) o f orders same x e, holds)
  | inr other ↦ rw (other, find-update_ne (λ y. y.id) k o f orders same (λ p. ground arith), holds)
]

-- An order that no item belongs to holds nothing.
pub exists_ne :
    (k : Uuid) (x : Order) (orders : List Order)
    → exists (λ o. o.id == k) orders ≡ true
    → exists (λ o. o.id == x.id) orders ≡ false
    → (x.id == k) ≡ false
unfolding exists
exists_ne k x [] h n = cc
exists_ne k x (y ∷ ys) h n = ground (arith, exists_ne k x ys)

holds-new :
    (k : Uuid) (x : Order) (orders : List Order)
    → (x.id == k) ≡ false
    → holds k (x ∷ orders) ≡ holds k orders
unfolding find
holds-new k x orders n = rw (n, holds)

pub held_in-new :
    (t : Uuid) (x : Order) (orders : List Order) (items : List OrderItem)
    → Linked orders items
    → exists (λ o. o.id == x.id) orders ≡ false
    → held_in t (x ∷ orders) items ≡ held_in t orders items
unfolding held_in
held_in-new t x orders [] l n = refl
held_in-new t x orders (i ∷ is) l n = rw (
  holds-new i.order_id x orders (exists_ne i.order_id x orders l.0 n),
  held_in-new t x orders is l.1 n,
)

pub Linked-new :
    (x : Order) (orders : List Order) (items : List OrderItem)
    → Linked orders items
    → Linked (x ∷ orders) items
unfolding exists
Linked-new x orders [] l = tt
Linked-new x orders (i ∷ is) l = (ground (arith, l.0), Linked-new x orders is l.1)

pub exists-update :
    (k o : Uuid) (f : Order → Order) (orders : List Order)
    → ((y : Order) → (f y).id ≡ y.id)
    → exists (λ y. y.id == k) (update (λ y. y.id) o f orders) ≡ exists (λ y. y.id == k) orders
unfolding exists update
exists-update k o f [] same = refl
exists-update k o f (y ∷ ys) same = ground (arith, same y, exists-update k o f ys same)

pub Linked-update :
    (o : Uuid) (f : Order → Order) (orders : List Order) (items : List OrderItem)
    → ((y : Order) → (f y).id ≡ y.id)
    → Linked orders items
    → Linked (update (λ y. y.id) o f orders) items
Linked-update o f orders [] same l = tt
Linked-update o f orders (i ∷ is) same l =
    (exists-update i.order_id o f orders same ∙ l.0, Linked-update o f orders is same l.1)

pub holds_found :
    (o : Uuid) (orders : List Order) (x : Order)
    → find (λ y. y.id) o orders ≡ some x
    → holds o orders ≡ is_holding x.status
holds_found o orders x e = rw (e, holds)

==_comm : (a b : ℕ) → (a == b) ≡ (b == a)
==_comm a b = ground arith

holds_same :
    (t o : Uuid) (f : Order → Order) (orders : List Order) (x : Order) (k : Uuid)
    → ((y : Order) → (f y).id ≡ y.id)
    → find (λ y. y.id) o orders ≡ some x
    → is_holding (f x).status ≡ is_holding x.status
    → holds k (update (λ y. y.id) o f orders) ≡ holds k orders
holds_same t o f orders x k same e h = elim (Bool-cases (o == k)) [
  | inl here ↦
      rw (holds-update k o f orders x same e, here, h, ← ==→≡ o k here, holds_found o orders x e)
  | inr other ↦ rw (holds-update k o f orders x same e, other)
]

-- An update that moves an order between statuses that hold their seats, or leaves its status.
pub held_in-update_same :
    (t o : Uuid) (f : Order → Order) (orders : List Order) (x : Order) (items : List OrderItem)
    → ((y : Order) → (f y).id ≡ y.id)
    → find (λ y. y.id) o orders ≡ some x
    → is_holding (f x).status ≡ is_holding x.status
    → held_in t (update (λ y. y.id) o f orders) items ≡ held_in t orders items
unfolding held_in
held_in-update_same t o f orders x [] same e h = refl
held_in-update_same t o f orders x (i ∷ is) same e h =
    rw (
      holds_same t o f orders x i.order_id same e h,
      held_in-update_same t o f orders x is same e h,
    )

release_here : (a r k s : ℤ) → r +ℤ k ≡ s → (pos 0 +ℤ r) +ℤ (a +ℤ k) ≡ a +ℤ s
release_here a r k s h = rw (← h) (omega int_laws)

release_other : (v r k s : ℤ) → r +ℤ k ≡ s → (v +ℤ r) +ℤ (pos 0 +ℤ k) ≡ v +ℤ s
release_other v r k s h = rw (← h) (omega int_laws)

-- An update that lets go of an order's seats.
pub held_in-release :
    (t o : Uuid) (f : Order → Order) (orders : List Order) (x : Order) (items : List OrderItem)
    → ((y : Order) → (f y).id ≡ y.id)
    → find (λ y. y.id) o orders ≡ some x
    → is_holding x.status ≡ true
    → is_holding (f x).status ≡ false
    → held_in t (update (λ y. y.id) o f orders) items +ℤ items_in t o items ≡ held_in t orders items
unfolding held_in items_in
held_in-release t o f orders x [] same e h g = omega int_laws
held_in-release t o f orders x (i ∷ is) same e h g = elim (Bool-cases (o == i.order_id)) [
  | inl here ↦
      rw
        (
          holds-update i.order_id o f orders x same e,
          here,
          g,
          ==_comm i.order_id o,
          here,
          ← ==→≡ o i.order_id here,
          holds_found o orders x e,
          h,
        )
        (release_here (share i.ticket_type_id i.quantity t) _ _ _
          (held_in-release t o f orders x is same e h g))
  | inr other ↦
      rw (holds-update i.order_id o f orders x same e, other, ==_comm i.order_id o, other)
        (release_other _ _ _ _ (held_in-release t o f orders x is same e h g))
]
