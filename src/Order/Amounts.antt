-- ===== src/Order/Amounts.antt =====
-- The rows of `order_items` that belong to an order, and the statements of checkout that write or
-- leave them.
use event_portal.Base.{
  ℤ, pos, ◌+ℤ◌, ◌*ℤ◌, ◌-ℤ◌, leb_ℤ, fits_int, int_laws, ◌==◌, ==→≡, ==_refl, ◌&&◌, ◌||◌,
  if◌then◌else◌, Bool, true, false, Text, Option, none, some, List, [], ◌∷◌, find, exists, ◌≡◌,
  refl, sym, ◌∙◌, subst, absurd_bool, inl, inr, Bool-cases,
}
use event_portal.Store.{Db, Uuid, Time, Cents, Order, OrderItem, OrderStatus, TicketType}
use event_portal.Seats.{Linked}
use event_portal.Seats.Laws.{Linked-new}
use event_portal.Effect.{Env}
use event_portal.Effect.Laws.{EndsOn}
use event_portal.Effect.Keeps.{
  Keeps, pure-Keeps, map_error-Keeps, >>=-Keeps, >>-Keeps, statement-Keeps, query_row-Keeps,
}
use event_portal.Event.Sql as EventSql
use event_portal.Event.Sql.{store_quota, deduct_row}
use event_portal.Event.Repository as EventRepository
use event_portal.Event.Service as EventService
use event_portal.Order.Sql
use event_portal.Order.Sql.{
  CreateOrderParams, order_id, insert_order, insert_item, insert_attendee, references, has_number,
  fits_numeric, new_order,
}
use event_portal.Order.Repository
use event_portal.Adapters.{ticket_type_for_checkout, check_and_deduct_quota}

-- The sum of price times quantity over the stored items of one order.
abbrev pub rows_total : Uuid → List OrderItem → ℤ
rows_total o [] = pos 0
rows_total o (i ∷ is) =
    (if i.order_id == o then i.price *ℤ i.quantity else pos 0) +ℤ rows_total o is

-- The order is stored as given, its stored items come to `a`, and every item is of a stored order.
abbrev pub Holding : Order → ℤ → List Order → List OrderItem → Type 0
Holding o a orders items =
    (find order_id o.id orders ≡ some o) × ((rows_total o.id items ≡ a) × Linked orders items)

rows_total-new :
    (u : Uuid) (orders : List Order) (items : List OrderItem)
    → Linked orders items
    → exists (λ o. o.id == u) orders ≡ false
    → rows_total u items ≡ pos 0
rows_total-new u orders [] l n = refl
rows_total-new u orders (i ∷ is) l n = elim (Bool-cases (i.order_id == u)) [
  | inl same ↦
      absurd_bool
        (sym n ∙ (subst (λ k. exists (λ o. o.id == k) orders ≡ true) (==→≡ i.order_id u same) l.0))
  | inr other ↦ rw (other, rows_total-new u orders is l.1 n) (omega int_laws)
]

or_false : (a b : Bool) → (a || b) ≡ false → a ≡ false
or_false true b h = h
or_false false b h = refl

and_left : (a b : Bool) → (a && b) ≡ true → a ≡ true
and_left true b h = refl
and_left false b h = h

-- A new order is PENDING with the amount asked for, and has no items yet.
pub insert_order-Holding :
    (p : CreateOrderParams) (u : Uuid) (t : Time) (d : Db)
    → Linked d.orders d.order_items
    → EndsOn
        (λ o d'.
          Holding o (pos 0) d'.orders d'.order_items
          × ((o.total_amount ≡ p.total_amount) × (o.status ≡ OrderStatus.pending)))
        (λ _. Unit)
        (insert_order p u t d)
unfolding insert_order find
insert_order-Holding p u t d l =
    elim (Bool-cases
      (exists (λ o. o.id == u) d.orders || exists (has_number p.order_number) d.orders)) [
        | inl taken ↦ rw taken tt
        | inr new ↦ elim (Bool-cases (fits_numeric p.total_amount)) [
          | inl fits ↦
              rw (new, fits)
                (
                  (
                    rw (==_refl u) refl,
                    (
                      rows_total-new u d.orders d.order_items l (or_false _ _ new),
                      Linked-new (new_order u t p) d.orders d.order_items l,
                    ),
                  ),
                  (refl, refl),
                )
          | inr wide ↦ rw (new, wide) tt
        ]
      ]

plus : (a b c : ℤ) → b ≡ a → c +ℤ b ≡ a +ℤ c
plus a b c h = rw h (omega int_laws)

-- An item that is stored adds its price times its quantity.
pub insert_item-Holding :
    (o : Order) (a : ℤ) (i : Uuid) (qty : ℤ) (price : Cents) (u : Uuid) (d : Db)
    → Holding o a d.orders d.order_items
    → EndsOn
        (λ _ d'. Holding o (a +ℤ price *ℤ qty) d'.orders d'.order_items)
        (λ _. Unit)
        (insert_item o.id i qty price u d)
unfolding insert_item references
insert_item-Holding o a i qty price u d h =
    elim (Bool-cases (exists (λ x. x.id == u) d.order_items)) [
      | inl dup ↦ rw dup tt
      | inr new ↦ elim (Bool-cases (references o.id i d)) [
        | inr dangling ↦ rw (new, dangling) tt
        | inl linked ↦
            rw (new, linked)
              (
                h.0,
                (
                  rw (==_refl o.id) (plus a (rows_total o.id d.order_items) (price *ℤ qty) h.1.0),
                  (and_left _ _ linked, h.1.1),
                ),
              )
      ]
    ]

-- What the orders and their items satisfy is kept by what writes other tables.
module _ (F : List Order → List OrderItem → Type 0) where
  abbrev Rows : Db → Type 0
  Rows d = F d.orders d.order_items

  store_quota-Rows :
      (i : Uuid) (q : ℤ) (d : Db) → Rows d → EndsOn (λ _. Rows) Rows (store_quota i q d)
  unfolding store_quota
  store_quota-Rows i q d v = elim (Bool-cases (fits_int q)) [
    | inr wide ↦ rw wide v
    | inl fits ↦ elim (Bool-cases (leb_ℤ (pos 0) q)) [
      | inr below ↦ rw (fits, below) v
      | inl above ↦ rw (fits, above) v
    ]
  ]

  deduct_row-Rows :
      (i : Uuid) (qty : ℤ) (row : Option TicketType) (d : Db)
      → Rows d
      → EndsOn (λ _. Rows) Rows (deduct_row i qty row d)
  unfolding deduct_row
  deduct_row-Rows i qty none d v = v
  deduct_row-Rows i qty (some x) d v = elim (Bool-cases (leb_ℤ qty x.quota)) [
    | inr short ↦ rw short v
    | inl enough ↦ rw enough (store_quota-Rows i (x.quota -ℤ qty) d v)
  ]

  insert_attendee-Rows :
      (o i : Uuid) (name email : Text) (u : Uuid) (d : Db)
      → Rows d
      → EndsOn (λ _. Rows) Rows (insert_attendee o i name email u d)
  unfolding insert_attendee
  insert_attendee-Rows o i name email u d v =
      elim (Bool-cases (exists (λ x. x.id == u) d.attendees)) [
        | inl dup ↦ rw dup v
        | inr new ↦ elim (Bool-cases (references o i d)) [
          | inr dangling ↦ rw (new, dangling) v
          | inl linked ↦ rw (new, linked) v
        ]
      ]

  module _ (e : Env) where
    pub deduct-Rows : (i : Uuid) (qty : ℤ) → Keeps Rows (check_and_deduct_quota e i qty)
    unfolding check_and_deduct_quota EventService.check_and_deduct_quota
        EventRepository.check_and_deduct_quota EventSql.check_and_deduct_quota
    deduct-Rows i qty = map_error-Keeps _ (
        >>-Keeps (map_error-Keeps _ (statement-Keeps e _ (λ _ _ d v. deduct_row-Rows i qty _ d v)))
          (pure-Keeps _))

    pub info-Rows : (i : Uuid) → Keeps Rows (ticket_type_for_checkout e i)
    unfolding ticket_type_for_checkout EventService.get_ticket_type_for_checkout
        EventRepository.get_ticket_type_by_id EventSql.get_ticket_type_by_id
    info-Rows i =
        >>=-Keeps (map_error-Keeps _ (map_error-Keeps _ (query_row-Keeps e _))) (λ _. pure-Keeps _)

    pub create_attendee-Rows :
        (o i : Uuid) (name email : Text) → Keeps Rows (Repository.create_attendee e o i name email)
    unfolding Repository.create_attendee Sql.create_attendee
    create_attendee-Rows o i name email =
        >>=-Keeps
          (map_error-Keeps _
            (statement-Keeps e _ (λ u _ d v. insert_attendee-Rows o i name email u d v)))
          (λ _. pure-Keeps _)
