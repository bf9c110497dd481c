-- ===== src/Order/Admin.antt =====
-- backend/internal/order/admin_service.go: the dashboard's lists of orders and attendees, with their
-- statements of backend/internal/order/ordersql/order.sql.go.
pub mod Laws
use event_portal.Base.{
  ℕ, leb, ltb, ◌==◌, ◌&&◌, ◌||◌, if◌then◌else◌, Text, Bool, true, false, Option, none, some, List,
  [], ◌∷◌, ◌++◌, map, length, select, exists, find, sort_with,
}
use event_portal.Errors.{errorf}
use event_portal.Store.{Db, Uuid, Time, Cents, Order, OrderItem, Attendee, OrderStatus}
use event_portal.Effect.{Env, M, map_error, pure, query, ◌>>=◌}
use event_portal.Order.Sql.{member, order_id}
use event_portal.Order.Lookup.{EventLookup, TicketTypeName, once_each, name_for}

pub record OrderFilter : Type 0 where
  pub status : Option OrderStatus
  pub event_id : Option Uuid

pub record AttendeeFilter : Type 0 where
  pub order_id : Option Uuid
  pub event_id : Option Uuid

pub record OrderSummary : Type 0 where
  pub id : Uuid
  pub order_number : Text
  pub buyer_name : Text
  pub buyer_email : Text
  pub status : OrderStatus
  pub total_amount : Cents
  pub created_at : Time

pub record AttendeeSummary : Type 0 where
  pub name : Text
  pub email : Text
  pub ticket_type_name : Text
  pub order_number : Text

pub record AttendeeRow : Type 0 where
  pub ticket_type_id : Uuid
  pub name : Text
  pub email : Text
  pub order_number : Text
  pub order_created_at : Time

abbrev status_number : OrderStatus → ℕ
status_number OrderStatus.pending = 0
status_number OrderStatus.paid = 1
status_number OrderStatus.cancelled = 2
status_number OrderStatus.expired = 3

-- `$1 IS NULL OR status = $1`
abbrev pub has_status : Option OrderStatus → Order → Bool
has_status none o = true
has_status (some s) o = status_number o.status == status_number s

-- `$2 IS NULL OR EXISTS (SELECT 1 FROM order_items …)`
abbrev pub has_item_of : Option (List Uuid) → List OrderItem → Order → Bool
has_item_of none items o = true
has_item_of (some ids) items o =
    exists (λ i. i.order_id == o.id && member i.ticket_type_id ids) items

abbrev pub is_of_order : Option Uuid → Attendee → Bool
is_of_order none a = true
is_of_order (some o) a = a.order_id == o

abbrev pub is_of_types : Option (List Uuid) → Attendee → Bool
is_of_types none a = true
is_of_types (some ids) a = member a.ticket_type_id ids

-- JOIN orders o ON o.id = a.order_id
abbrev pub attendee_row : List Order → Attendee → List AttendeeRow
attendee_row orders a = elim (find order_id a.order_id orders) [
  | none ↦ []
  | some o ↦
      record {
        ticket_type_id = a.ticket_type_id;
        name = a.name;
        email = a.email;
        order_number = o.order_number;
        order_created_at = o.created_at;
      }
      ∷ []
]

abbrev pub attendee_rows : List Order → List Attendee → List AttendeeRow
attendee_rows orders [] = []
attendee_rows orders (a ∷ as') = attendee_row orders a ++ attendee_rows orders as'

abbrev pub newer : Order → Order → Bool
newer o p = leb p.created_at o.created_at

abbrev pub order_summary : Order → OrderSummary
order_summary o = record {
  id = o.id;
  order_number = o.order_number;
  buyer_name = o.buyer_name;
  buyer_email = o.buyer_email;
  status = o.status;
  total_amount = o.total_amount;
  created_at = o.created_at;
}

abbrev pub attendee_summary : List TicketTypeName → AttendeeRow → AttendeeSummary
attendee_summary names a = record {
  name = a.name;
  email = a.email;
  ticket_type_name = name_for a.ticket_type_id names;
  order_number = a.order_number;
}

-- `scoped && len(ticketTypeIDs) == 0`
abbrev pub is_empty_scope : Option (List Uuid) → Bool
is_empty_scope none = false
is_empty_scope (some ids) = length ids == 0

module _ (e : Env) where
  unfoldable pub list_orders_admin : Option OrderStatus → Option (List Uuid) → M (List Order)
  list_orders_admin s ids = query e λ d.
      sort_with newer (select (λ o. has_status s o && has_item_of ids d.order_items o) d.orders)

  -- ORDER BY o.created_at DESC, a.name ASC
  abbrev pub row_before : AttendeeRow → AttendeeRow → Bool
  row_before a b =
      ltb b.order_created_at a.order_created_at
      || (a.order_created_at == b.order_created_at && e.collate a.name b.name)

  unfoldable pub list_attendees_admin : Option Uuid → Option (List Uuid) → M (List AttendeeRow)
  list_attendees_admin o ids = query e λ d.
      sort_with row_before
        (attendee_rows d.orders (select (λ a. is_of_order o a && is_of_types ids a) d.attendees))

  module _ (events : EventLookup) where
    -- No filter, or the ids that the filter means.
    unfoldable pub ticket_type_scope : Option Uuid → M (Option (List Uuid))
    ticket_type_scope none = pure none
    ticket_type_scope (some v) = events.ticket_type_ids_for_event v >>= λ ids. pure (some ids)

    unfoldable pub list_orders : OrderFilter → M (List OrderSummary)
    list_orders f = do
      scope ← ticket_type_scope f.event_id
      (if is_empty_scope scope then pure [] else (do
        rows ← map_error errorf (list_orders_admin f.status scope)
        pure (map order_summary rows)))

    unfoldable pub ticket_type_names : List AttendeeRow → M (List TicketTypeName)
    unfolding once_each
    ticket_type_names rows =
        if length rows == 0
        then pure []
        else events.ticket_type_names (once_each [] (map (λ a. a.ticket_type_id) rows))

    unfoldable pub list_attendees : AttendeeFilter → M (List AttendeeSummary)
    list_attendees f = do
      scope ← ticket_type_scope f.event_id
      (if is_empty_scope scope then pure [] else (do
        rows ← map_error errorf (list_attendees_admin f.order_id scope)
        names ← ticket_type_names rows
        pure (map (attendee_summary names) rows)))
