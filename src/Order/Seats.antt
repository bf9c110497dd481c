-- ===== src/Order/Seats.antt =====
-- What the statements on orders and their items do to the seats of a ticket type.
use event_portal.Base.{
  sub_zero, absurd_bool, ℤ, pos, ◌+ℤ◌, ◌-ℤ◌, int_laws, Text, text_eq, ◌==◌, ==→≡, ==_refl, ◌&&◌,
  ◌||◌, if◌then◌else◌, Bool, true, false, Option, none, some, List, [], ◌∷◌, ◌≡◌, refl, sym, ◌∙◌,
  inl, inr, find, exists, Bool-cases, ap, ltb, subst,
}
use event_portal.Store.{
  Db, Uuid, Time, Cents, Order, OrderItem, OrderStatus, is_holding, is_pending,
}
use event_portal.Effect.Laws.{EndsOn}
use event_portal.Seats.{share, quota_of, holds, held_in, held_of, items_in, Linked, IsSound, Sound}
use event_portal.Seats.Laws.{
  held_in-new, Linked-new, Linked-update, held_in-update_same, held_in-release,
}
use event_portal.Order.Sql
use event_portal.Order.Sql.{
  CreateOrderParams, new_order, insert_order, insert_item, insert_attendee, references, put_order,
  update_row, update_pending,
}

-- The order exists and its items hold `s` seats of the ticket type.
abbrev pub Bought : Uuid → Uuid → ℤ → List Order → List OrderItem → Type 0
Bought t o s orders items = (exists (λ x. x.id == o) orders ≡ true) × (items_in t o items ≡ s)

-- The same of an order that is PENDING or PAID.
abbrev pub Open : Uuid → Uuid → ℤ → List Order → List OrderItem → Type 0
Open t o s orders items = (holds o orders ≡ true) × Bought t o s orders items

abbrev pub Any : List Order → List OrderItem → Type 0
Any orders items = Unit

items_in-new :
    (t : Uuid) (u : Uuid) (orders : List Order) (items : List OrderItem)
    → Linked orders items
    → exists (λ o. o.id == u) orders ≡ false
    → items_in t u items ≡ pos 0
unfolding items_in
items_in-new t u orders [] l n = refl
items_in-new t u orders (i ∷ is) l n = elim (Bool-cases (i.order_id == u)) [
  | inl same ↦
      absurd_bool
        (sym n ∙ (subst (λ k. exists (λ o. o.id == k) orders ≡ true) (==→≡ i.order_id u same) l.0))
  | inr other ↦ rw (other, items_in-new t u orders is l.1 n) (omega int_laws)
]

-- A new order is PENDING, and has no items.
new_order-Sound :
    (t : Uuid) (c : ℤ) (u : Uuid) (at : Time) (p : CreateOrderParams) (d : Db)
    → exists (λ o. o.id == u) d.orders ≡ false
    → IsSound t c d
    → Sound t c (Open t u (pos 0)) (record d { orders = new_order u at p ∷ d.orders })
unfolding exists find
new_order-Sound t c u at p d fresh s = (
  record {
    linked = Linked-new (new_order u at p) d.orders d.order_items s.linked;
    on_sale = s.on_sale;
    total = rw (held_in-new t (new_order u at p) d.orders d.order_items s.linked fresh) s.total;
  },
  (rw (==_refl u, holds), (rw (==_refl u), items_in-new t u d.orders d.order_items s.linked fresh)),
)

or_false : (a b : Bool) → (a || b) ≡ false → a ≡ false
or_false true b h = h
or_false false b h = refl

pub insert_order-Sound :
    (t : Uuid) (c : ℤ) (u : Uuid) (at : Time) (p : CreateOrderParams) (d : Db)
    → IsSound t c d
    → EndsOn (λ x. Sound t c (Open t x.id (pos 0))) (λ _. Unit) (insert_order p u at d)
unfolding insert_order
insert_order-Sound t c u at p d s = elim (Bool-cases (taken)) [
  | inl dup ↦ rw dup tt
  | inr new ↦ elim (Bool-cases (Sql.fits_numeric p.total_amount)) [
    | inl fits ↦ rw (new, fits) (new_order-Sound t c u at p d (or_false _ _ new) s)
    | inr wide ↦ rw (new, wide) tt
  ]
]
  where
    taken : Bool
    taken =
        exists (λ o. o.id == u) d.orders
        || exists (λ o. text_eq o.order_number p.order_number) d.orders

add_held : (q h v c : ℤ) → q +ℤ h ≡ c → q +ℤ (v +ℤ h) ≡ c +ℤ v
add_held q h v c e = rw (← e) (omega int_laws)

and_true : (a b : Bool) → (a && b) ≡ true → a ≡ true
and_true true b h = refl
and_true false b h = h

+ℤ_comm : (a b : ℤ) → a +ℤ b ≡ b +ℤ a
+ℤ_comm a b = omega int_laws

-- An item of an order that holds its seats takes them.
pub insert_item-Sound :
    (t : Uuid) (c : ℤ) (o i : Uuid) (qty : ℤ) (price : Cents) (s : ℤ) (u : Uuid) (d : Db)
    → Sound t c (Open t o s) d
    → EndsOn
        (λ _. Sound t (c +ℤ share i qty t) (Open t o (s +ℤ share i qty t)))
        (λ _. Unit)
        (insert_item o i qty price u d)
unfolding insert_item references
insert_item-Sound t c o i qty price s u d (sound, (open', (has, sum))) =
    elim (Bool-cases (exists (λ x. x.id == u) d.order_items)) [
      | inl dup ↦ rw dup tt
      | inr new ↦ elim (Bool-cases (references o i d)) [
        | inr dangling ↦ rw (new, dangling) tt
        | inl linked ↦
            rw (new, linked)
              (
                record {
                  linked = (has, sound.linked);
                  on_sale = sound.on_sale;
                  total = unfold held_in in rw open' (add_held _ _ _ _ sound.total);
                },
                (open', (has, unfold items_in in rw (==_refl o, sum) (+ℤ_comm (share i qty t) s))),
              )
      ]
    ]

pub insert_attendee-Sound :
    (t : Uuid) (c : ℤ) (F : List Order → List OrderItem → Type 0) (o i : Uuid) (name email : Text)
    (u : Uuid) (d : Db)
    → Sound t c F d
    → EndsOn (λ _. Sound t c F) (λ _. Unit) (insert_attendee o i name email u d)
unfolding insert_attendee
insert_attendee-Sound t c F o i name email u d s =
    elim (Bool-cases (exists (λ x. x.id == u) d.attendees)) [
      | inl dup ↦ rw dup tt
      | inr new ↦ elim (Bool-cases (references o i d)) [
        | inr dangling ↦ rw (new, dangling) tt
        | inl linked ↦
            rw (new, linked)
              (record { linked = s.0.linked; on_sale = s.0.on_sale; total = s.0.total }, s.1)
      ]
    ]

released : (q r k h c : ℤ) → r +ℤ k ≡ h → q +ℤ h ≡ c → q +ℤ r ≡ c -ℤ k
released q r k h c e f = rw (← f, ← e) (omega int_laws)

-- An UPDATE that leaves the ids alone, and the status in the class that holds seats or not.
module _ (t : Uuid) (c : ℤ) (o : Uuid) (f : Order → Order) (same_id : (y : Order) → (f y).id ≡ y.id)
    (d : Db) (x : Order) (found : find (λ y. y.id) o d.orders ≡ some x) where
  put_order-Sound :
      is_holding (f x).status ≡ is_holding x.status → IsSound t c d → IsSound t c (put_order o f d)
  put_order-Sound same s = record {
    linked = Linked-update o f d.orders d.order_items same_id s.linked;
    on_sale = s.on_sale;
    total = rw (held_in-update_same t o f d.orders x d.order_items same_id found same) s.total;
  }

  -- An UPDATE that lets go of the order's seats.
  put_order_release :
      is_holding x.status ≡ true
      → is_holding (f x).status ≡ false
      → IsSound t c d
      → IsSound t (c -ℤ items_in t o d.order_items) (put_order o f d)
  put_order_release was now' s = record {
    linked = Linked-update o f d.orders d.order_items same_id s.linked;
    on_sale = s.on_sale;
    total =
        released (quota_of t d) _ _ (held_of t d) c
          (held_in-release t o f d.orders x d.order_items same_id found was now') s.total;
  }

pending_holds : (s : OrderStatus) → is_pending s ≡ true → is_holding s ≡ true
pending_holds OrderStatus.pending h = refl
pending_holds OrderStatus.paid h = refl
pending_holds OrderStatus.cancelled h = h
pending_holds OrderStatus.expired h = h

-- The seats of an order that its new status gives back.
abbrev pub given_back : Bool → ℤ → ℤ
given_back true s = pos 0
given_back false s = s

moved :
    (t : Uuid) (c : ℤ) (o : Uuid) (s : OrderStatus) (d : Db) (x : Order)
    → find (λ y. y.id) o d.orders ≡ some x
    → is_pending x.status ≡ true
    → IsSound t c d
    → (b : Bool) → is_holding s ≡ b
    → IsSound t
        (c -ℤ given_back b (items_in t o d.order_items))
        (put_order o (λ y. record y { status = s }) d)
moved t c o s d x e p h true keeps = rw (sub_zero c) (
    put_order-Sound t c o (λ y. record y { status = s }) (λ y. refl) d x e
      (keeps ∙ sym (pending_holds x.status p)) h)
moved t c o s d x e p h false drops =
    put_order_release t c o (λ y. record y { status = s }) (λ y. refl) d x e
      (pending_holds x.status p) drops h

-- The guarded transition: it applies to a PENDING order alone.
pub update_pending-Sound :
    (t : Uuid) (c : ℤ) (o : Uuid) (n : ℤ) (s : OrderStatus) (d : Db)
    → IsSound t c d
    → items_in t o d.order_items ≡ n
    → (y : Option Order) → find (λ x. x.id) o d.orders ≡ y
    → EndsOn
        (λ affected d'.
          IsSound t (c -ℤ (if ltb 0 affected then given_back (is_holding s) n else pos 0)) d'
          × (items_in t o d'.order_items ≡ n))
        (λ _. Unit)
        (update_pending o s y d)
unfolding update_pending
update_pending-Sound t c o n s d h e none f = (rw (sub_zero c) h, e)
update_pending-Sound t c o n s d h e (some x) f = elim (Bool-cases (is_pending x.status)) [
  | inr settled ↦ rw settled (rw (sub_zero c) h, e)
  | inl pending ↦ rw pending (
    subst
        (λ k.
          IsSound t (c -ℤ given_back (is_holding s) k)
            (put_order o (λ y. record y { status = s }) d))
        e (moved t c o s d x f pending h (is_holding s) refl),
    e,
  )
]

-- An UPDATE of other columns.
pub update_row-Sound :
    (t : Uuid) (c : ℤ) (o : Uuid) (f : Order → Order) (d : Db)
    → ((y : Order) → (f y).id ≡ y.id)
    → ((y : Order) → (f y).status ≡ y.status)
    → IsSound t c d
    → (y : Option Order) → find (λ x. x.id) o d.orders ≡ y
    → EndsOn (λ _. IsSound t c) (IsSound t c) (update_row o f y d)
unfolding update_row
update_row-Sound t c o f d same_id same h none e = h
update_row-Sound t c o f d same_id same h (some x) e =
    put_order-Sound t c o f same_id d x e (ap is_holding (same x)) h
