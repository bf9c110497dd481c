-- ===== src/Seats.antt =====
-- The seats of a ticket type: those on sale (ticket_types.quota, the remaining quota) and those
-- held by the order items of orders that are PENDING or PAID.
pub mod Laws
use event_portal.Base.{
  ℕ, ℤ, pos, ◌+ℤ◌, ◌≤ℤ◌, ◌==◌, if◌then◌else◌, Bool, true, false, Option, none, some, List, [], ◌∷◌,
  find, ◌≡◌, exists,
}
use event_portal.Store.{Db, Uuid, Order, OrderItem, TicketType, is_holding}

-- `qty` seats of the ticket type `i`, as seen from the ticket type `tt`.
abbrev pub share : Uuid → ℤ → Uuid → ℤ
share i qty t = if i == t then qty else pos 0

abbrev pub quota_in : Uuid → List TicketType → ℤ
quota_in t rows = elim (find (λ x. x.id) t rows) [ none ↦ pos 0 | some x ↦ x.quota ]

abbrev pub quota_of : Uuid → Db → ℤ
quota_of t d = quota_in t d.ticket_types

-- Whether the order with an id holds its seats; an id that no order has holds none.
abbrev pub holds : Uuid → List Order → Bool
holds o orders = elim (find (λ x. x.id) o orders) [ none ↦ false | some x ↦ is_holding x.status ]

unfoldable pub held_in : Uuid → List Order → List OrderItem → ℤ
held_in t orders [] = pos 0
held_in t orders (i ∷ is) =
    (if holds i.order_id orders then share i.ticket_type_id i.quantity t else pos 0)
    +ℤ held_in t orders is

abbrev pub held_of : Uuid → Db → ℤ
held_of t d = held_in t d.orders d.order_items

-- All seats of a ticket type, on sale or held.
abbrev pub capacity : Uuid → Db → ℤ
capacity t d = quota_of t d +ℤ held_of t d

-- The seats of a ticket type in the items of one order.
unfoldable pub items_in : Uuid → Uuid → List OrderItem → ℤ
items_in t o [] = pos 0
items_in t o (i ∷ is) =
    (if i.order_id == o then share i.ticket_type_id i.quantity t else pos 0) +ℤ items_in t o is

-- Every item belongs to an order (order_items.order_id REFERENCES orders).
abbrev pub Linked : List Order → List OrderItem → Type 0
Linked orders [] = Unit
Linked orders (i ∷ is) = (exists (λ o. o.id == i.order_id) orders ≡ true) × Linked orders is

-- The state of a ticket type whose seats number `c`: none on sale below zero, every item with its
-- order, and the seats on sale and held making up `c`.
pub record IsSound (t : Uuid) (c : ℤ) (d : Db) : Type 0 where
  pub linked : Linked d.orders d.order_items
  pub on_sale : pos 0 ≤ℤ quota_of t d
  pub total : capacity t d ≡ c

-- The same, with a property of the orders and their items kept beside it.
abbrev pub Sound : Uuid → ℤ → (List Order → List OrderItem → Type 0) → Db → Type 0
Sound t c F d = IsSound t c d × F d.orders d.order_items
