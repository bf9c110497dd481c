-- ===== src/Order/Admin/Laws.antt =====
-- What the event filter of the dashboard means: the ids that the event domain resolves select the
-- orders that a join over both domains' tables would.
use event_portal.Base.{
  ℕ, suc, ◌==◌, ◌&&◌, Bool, true, false, Option, none, some, List, [], ◌∷◌, map, length, select,
  exists, exists_cong, select_cong, exists_never, select_none, sort_with, ◌≡◌, refl, sym, ◌∙◌, ap,
  inl, inr, Bool-cases, arith, absurd_bool,
}
use event_portal.Store.{Db, Uuid, Order, TicketType}
use event_portal.Effect.{Env, World}
use event_portal.Effect.Outcome.{
  Outcome, OutcomeAt, pure-Outcome, if-Outcome, >>=-Outcome, map_error-Outcome, query-Outcome,
}
use event_portal.Order.Sql.{member}
use event_portal.Order.Admin.{
  OrderFilter, has_status, has_item_of, newer, order_summary, is_empty_scope, list_orders_admin,
  ticket_type_scope, list_orders,
}
use event_portal.Event.Sql.{ticket_type_id}
use event_portal.Event.Admin.Sql as EventSql
use event_portal.Event.Admin.Repository as EventRepository
use event_portal.Event.Admin.Service as EventService
use event_portal.Event.Admin.Restrict.{down, at_event}
use event_portal.Adapters.{event_lookup}

-- An item of the order has a ticket type of the event.
abbrev pub is_for_event : Option Uuid → Db → Order → Bool
is_for_event none d o = true
is_for_event (some v) d o =
    exists
      (λ i.
        i.order_id == o.id
        && exists (λ t. t.id == i.ticket_type_id && t.event_id == v) d.ticket_types)
      d.order_items

-- The orders that meet a filter, newest first.
abbrev pub matching : OrderFilter → Db → List Order
matching f d =
    sort_with newer (select (λ o. has_status f.status o && is_for_event f.event_id d o) d.orders)

-- The ids that a filter by event stands for.
abbrev scope_of : Option Uuid → Db → Option (List Uuid)
scope_of none d = none
scope_of (some v) d = some (map ticket_type_id (select (at_event v) d.ticket_types))

and_true : (b : Bool) → (b && true) ≡ b
and_true true = refl
and_true false = refl

and_false : (b : Bool) → (b && false) ≡ false
and_false true = refl
and_false false = refl

member-select :
    (v j : Uuid) (ts : List TicketType)
    → member j (map ticket_type_id (select (at_event v) ts))
      ≡ exists (λ t. t.id == j && t.event_id == v) ts
unfolding select exists
member-select v j [] = refl
member-select v j (t ∷ ts) = elim (Bool-cases (t.event_id == v)) [
  | inl there ↦ rw (there, and_true (t.id == j), member-select v j ts) refl
  | inr other ↦ rw (other, and_false (t.id == j), member-select v j ts) refl
]

-- The two domains' tables meet in the ids.
has_item_of-is_for_event :
    (v : Option Uuid) (d : Db) (o : Order)
    → has_item_of (scope_of v d) d.order_items o ≡ is_for_event v d o
has_item_of-is_for_event none d o = refl
has_item_of-is_for_event (some v) d o =
    exists_cong
      (λ i.
        i.order_id == o.id
        && member i.ticket_type_id (map ticket_type_id (select (at_event v) d.ticket_types)))
      (λ i.
        i.order_id == o.id
        && exists (λ t. t.id == i.ticket_type_id && t.event_id == v) d.ticket_types)
      d.order_items
      (λ i. ap (λ b. i.order_id == o.id && b) (member-select v i.ticket_type_id d.ticket_types))

selected :
    (f : OrderFilter) (d : Db)
    → select
        (λ o. has_status f.status o && has_item_of (scope_of f.event_id d) d.order_items o)
        d.orders
      ≡ select (λ o. has_status f.status o && is_for_event f.event_id d o) d.orders
selected f d =
    select_cong (λ o. has_status f.status o && has_item_of (scope_of f.event_id d) d.order_items o)
      (λ o. has_status f.status o && is_for_event f.event_id d o) d.orders
      (λ o. ap (λ b. has_status f.status o && b) (has_item_of-is_for_event f.event_id d o))

no_ids : (ids : List Uuid) → (length ids == 0) ≡ true → ids ≡ []
no_ids [] h = refl
no_ids (i ∷ is) h = absurd (not_zero (length is) h)
  where
    not_zero : (n : ℕ) → (suc n == 0) ≡ true → ⊥
    not_zero n h = ground arith

never_of : (d : Db) (o : Order) → has_item_of (some []) d.order_items o ≡ false
unfolding exists
never_of d o =
    exists_cong (λ i. i.order_id == o.id && false) (λ _. false) d.order_items
      (λ i. and_false (i.order_id == o.id))
    ∙ exists_never d.order_items

no_order :
    (v : Option Uuid) (d : Db) (o : Order)
    → is_empty_scope (scope_of v d) ≡ true
    → is_for_event v d o ≡ false
no_order none d o h = absurd_bool h
no_order (some v) d o h =
    sym (has_item_of-is_for_event (some v) d o)
    ∙ (ap (λ ids. has_item_of (some ids) d.order_items o) (no_ids _ h) ∙ never_of d o)

-- An event without ticket types has no orders.
nothing_matches :
    (f : OrderFilter) (d : Db) → is_empty_scope (scope_of f.event_id d) ≡ true → matching f d ≡ []
unfolding sort_with
nothing_matches f d h = ap (sort_with newer) (
    select_none (λ o. has_status f.status o && is_for_event f.event_id d o) d.orders
      (exists_cong (λ o. has_status f.status o && is_for_event f.event_id d o) (λ _. false) d.orders
          (λ o.
            ap (λ b. has_status f.status o && b) (no_order f.event_id d o h)
            ∙ and_false (has_status f.status o))
        ∙ exists_never d.orders))

module _ (e : Env) (f : OrderFilter) where
  ticket_type_scope-Outcome :
      (v : Option Uuid) (w : World)
      → Outcome
          (λ scope d. (scope ≡ scope_of v w.db) × (d ≡ w.db))
          (λ x d. (x ≡ down) × (d ≡ w.db))
          (ticket_type_scope e (event_lookup e) v)
          w
  unfolding ticket_type_scope EventService.ticket_type_ids_for_event
      EventRepository.list_ticket_type_ids_by_event_id EventSql.list_ticket_type_ids_by_event_id
  ticket_type_scope-Outcome none w = pure-Outcome _ (refl, refl)
  ticket_type_scope-Outcome (some v) w =
      >>=-Outcome
        (λ ids d. (ids ≡ map ticket_type_id (select (at_event v) w.db.ticket_types)) × (d ≡ w.db))
        (map_error-Outcome _ (query-Outcome e _ (refl, refl) (refl, refl)))
        (λ ids w' (read, same). pure-Outcome _ (ap some read, same))

  -- The dashboard's list of orders, filtered by status and event, has exactly the orders with the
  -- status that have an item of a ticket type of the event, newest first, as a join over the tables
  -- of both domains would, although the order domain is given ids only. It fails only where the
  -- database does not answer, and changes no table.
  pub list_orders-matching :
      (w : World)
      → OutcomeAt
          (λ rows d. (rows ≡ map order_summary (matching f w.db)) × (d ≡ w.db))
          (λ x d. (x ≡ down) × (d ≡ w.db))
          (list_orders e (event_lookup e) f w)
  unfolding list_orders list_orders_admin
  list_orders-matching w =
      (>>=-Outcome (λ scope d. (scope ≡ scope_of f.event_id w.db) × (d ≡ w.db))
        (ticket_type_scope-Outcome f.event_id w)
        (λ scope w₁ (meant, same₁). rw meant (
          if-Outcome (is_empty_scope (scope_of f.event_id w.db))
            (λ empty.
              pure-Outcome _ (sym (ap (map order_summary) (nothing_matches f w.db empty)), same₁))
            (λ _.
              >>=-Outcome (λ rows d. (rows ≡ matching f w.db) × (d ≡ w.db))
                (map_error-Outcome _ (
                  query-Outcome e _ (refl, same₁)
                    (rw same₁ (ap (sort_with newer) (selected f w.db)), same₁)))
                (λ rows w₂ (read, same₂).
                  pure-Outcome _ (ap (map order_summary) read, same₂)))))).end
