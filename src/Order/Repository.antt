-- ===== src/Order/Repository.antt =====
-- backend/internal/order/repository.go.
use event_portal.Base.{
  ℕ, ℤ, Text, is_empty, ltb, ◌==◌, if◌then◌else◌, Bool, false, Option, none, some, List, [], map,
  length,
}
use event_portal.Errors.{Error, errorf, sentinel, Sentinel, errors_is, is_unique_violation}
use event_portal.Store.{Uuid, Time, Cents, Order, OrderItem, Attendee, OrderStatus}
use event_portal.Effect.{Env, M, map_error, pure, throw, ◌>>=◌, ◌>>◌}
use event_portal.Order.Sql
use event_portal.Order.Sql.{CreateOrderParams, SoldCount}

-- What TX2 stamps onto an order.
pub record PaymentDetails : Type 0 where
  pub payment_url : Text
  pub provider : Text
  pub qr_string : Text
  pub expires_at : Time

-- A PENDING order whose payment deadline has passed.
pub record ExpiryCandidate : Type 0 where
  pub id : Uuid
  pub order_number : Text
  pub status : OrderStatus
  pub payment_expires_at : Option Time

abbrev pub no_rows_as : Sentinel → Error → Error
no_rows_as s x = if errors_is x Sentinel.no_rows then sentinel s else errorf x

abbrev pub taken_as : Sentinel → Error → Error
taken_as s x = if is_unique_violation x then sentinel s else errorf x

-- `if affected == 0 { return ErrNotFound }`
abbrev pub found_row : ℕ → M (Unit {0})
found_row affected = if affected == 0 then throw (sentinel Sentinel.order_not_found) else pure tt

abbrev pub candidate : Order → ExpiryCandidate
candidate o = record {
  id = o.id;
  order_number = o.order_number;
  status = o.status;
  payment_expires_at = o.payment_expires_at;
}

abbrev pub attendee_id : Attendee → Uuid
attendee_id a = a.id

module _ (e : Env) where
  unfoldable pub create_order : CreateOrderParams → M Order
  create_order p = map_error (taken_as Sentinel.order_number_taken) (Sql.create_order e p)

  unfoldable pub create_order_item : Uuid → Uuid → ℤ → Cents → M (Unit {0})
  create_order_item o t qty price = do
    map_error errorf (Sql.create_order_item e o t qty price)
    pure tt

  unfoldable pub create_attendee : Uuid → Uuid → Text → Text → M Uuid
  create_attendee o t name email = do
    row ← map_error errorf (Sql.create_attendee e o t name email)
    pure row.id

  unfoldable pub order_number_exists : Text → M Bool
  order_number_exists n = map_error errorf (Sql.order_number_exists e n)

  -- Zero values are stored as NULL.
  unfoldable pub update_payment_details : Uuid → PaymentDetails → M (Unit {0})
  update_payment_details i d = do
    affected ← map_error errorf (
        Sql.update_payment_details e i (some d.payment_url) (some d.provider)
          (if is_empty d.qr_string then none else some d.qr_string)
          (if d.expires_at == 0 then none else some d.expires_at))
    found_row affected

  unfoldable pub list_orders_due_for_expiry : Time → ℕ → M (List ExpiryCandidate)
  list_orders_due_for_expiry at limit = do
    rows ← map_error errorf (Sql.list_orders_due_for_expiry e at limit)
    pure (map candidate rows)

  -- Whether the transition applied.
  unfoldable pub update_order_status_if_pending : Uuid → OrderStatus → M Bool
  update_order_status_if_pending i s = do
    affected ← map_error errorf (Sql.update_order_status_if_pending e i s)
    pure (ltb 0 affected)

  unfoldable pub set_email_sent : Uuid → M (Unit {0})
  set_email_sent i = do affected ← map_error errorf (Sql.set_email_sent e i); found_row affected

  unfoldable pub get_order_by_id : Uuid → M Order
  get_order_by_id i = map_error (no_rows_as Sentinel.order_not_found) (Sql.get_order_by_id e i)

  unfoldable pub get_order_by_number : Text → M Order
  get_order_by_number n =
      map_error (no_rows_as Sentinel.order_not_found) (Sql.get_order_by_number e n)

  unfoldable pub list_order_items_by_order_id : Uuid → M (List OrderItem)
  list_order_items_by_order_id i = map_error errorf (Sql.list_order_items_by_order_id e i)

  unfoldable pub list_attendees_by_order_id : Uuid → M (List Attendee)
  list_attendees_by_order_id i = map_error errorf (Sql.list_attendees_by_order_id e i)

  unfoldable pub attendee_ids_for_order : Uuid → M (List Uuid)
  unfolding list_attendees_by_order_id
  attendee_ids_for_order i = do
    attendees ← list_attendees_by_order_id i
    pure (map attendee_id attendees)

  unfoldable pub has_orders_for_ticket_type : Uuid → M Bool
  has_orders_for_ticket_type t = map_error errorf (Sql.has_orders_for_ticket_type e t)

  unfoldable pub has_orders_for_ticket_types : List Uuid → M Bool
  has_orders_for_ticket_types ids =
      if length ids == 0
      then pure false
      else map_error errorf (Sql.has_orders_for_ticket_types e ids)

  -- The counts by ticket type, as a map.
  unfoldable pub sold_count_by_ticket_type : List Uuid → M (List SoldCount)
  sold_count_by_ticket_type ids =
      if length ids == 0 then pure [] else map_error errorf (Sql.sold_count_by_ticket_types e ids)
