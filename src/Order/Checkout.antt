-- ===== src/Order/Checkout.antt =====
-- backend/internal/order/service.go: guest checkout. TX1 reserves the seats and writes the order,
-- the provider opens a payment session outside any transaction, TX2 stamps it onto the order; if
-- the provider fails, a compensating transaction undoes TX1.
use event_portal.Base.{
  ℕ, zero, suc, ℤ, pos, ◌+ℤ◌, ◌*ℤ◌, Text, ltb, ◌||◌, if◌then◌else◌, none, some, List, [], ◌∷◌, ◌++◌,
  map,
}
use event_portal.Errors.{Error, bad_request, wrap, errorf, plain, Code, Sentinel, errors_is}
use event_portal.Store.{Uuid, Cents, Order, OrderStatus}
use event_portal.Effect.{Env, M, pure, throw, ◌>>=◌, ◌>>◌, handle, map_error, remote, now, in_tx}
use event_portal.Order.Repository
use event_portal.Order.Repository.{PaymentDetails}
use event_portal.Order.Number.{generate_order_number}
use event_portal.Order.Provider.{
  TicketTypeInfo, EventProvider, PaymentItem, PaymentRequest, PaymentSession, PaymentGateway,
}
use event_portal.Order.Request.{
  CheckoutItem, CheckoutAttendee, CheckoutRequest, OrderResponse, validate,
}

-- What TX1 actually reserved.
pub record ReservedLine : Type 0 where
  pub ticket_type_id : Uuid
  pub name : Text
  pub quantity : ℤ
  pub unit_price : Cents

pub record Reservation : Type 0 where
  pub created : Order
  pub total : Cents
  pub lines : List ReservedLine

abbrev pub order_number_attempts : ℕ
order_number_attempts = 5

abbrev pub insufficient_as_bad_request : Error → Error
insufficient_as_bad_request x =
    if errors_is x Sentinel.order_insufficient_quota then bad_request Code.insufficient_quota else x

abbrev pub line_of : CheckoutItem → TicketTypeInfo → ReservedLine
line_of i info = record {
  ticket_type_id = i.ticket_type_id;
  name = info.name;
  quantity = i.quantity;
  unit_price = info.price;
}

abbrev pub payment_item : ReservedLine → PaymentItem
payment_item l = record {
  id = l.ticket_type_id;
  name = l.name;
  price = l.unit_price;
  quantity = l.quantity;
}

-- paymentRequestFor
unfoldable pub payment_request_for : Reservation → CheckoutRequest → PaymentRequest
payment_request_for r req = record {
  order_number = r.created.order_number;
  gross_amount = r.total;
  customer_name = req.buyer_name;
  customer_email = req.buyer_email;
  customer_phone = req.buyer_phone;
  items = map payment_item r.lines;
}

module _ (e : Env) (events : EventProvider) where
  -- The loop over the requested items in TX1: the running total and the lines reserved so far.
  unfoldable pub reserve_items :
      Cents → List ReservedLine → List CheckoutItem → M (Cents × List ReservedLine)
  reserve_items total reserved [] = pure (total, reserved)
  reserve_items total reserved (i ∷ is) = do
    info ← events.ticket_type_for_checkout i.ticket_type_id
    at ← now e
    (if ltb at info.sales_start || ltb info.sales_end at
        then throw (bad_request Code.ticket_type_not_on_sale)
        else pure tt)
    map_error insufficient_as_bad_request
        (events.check_and_deduct_quota i.ticket_type_id i.quantity)
    reserve_items (total +ℤ info.price *ℤ i.quantity) (reserved ++ (line_of i info ∷ [])) is

  unfoldable pub create_items : Uuid → List ReservedLine → M (Unit {0})
  create_items o [] = pure tt
  create_items o (l ∷ ls) = do
    Repository.create_order_item e o l.ticket_type_id l.quantity l.unit_price
    create_items o ls

  unfoldable pub create_attendees : Uuid → List CheckoutAttendee → M (Unit {0})
  create_attendees o [] = pure tt
  create_attendees o (a ∷ as') = do
    Repository.create_attendee e o a.ticket_type_id a.name a.email
    create_attendees o as'

  -- The body of TX1.
  unfoldable pub reserve_tx : CheckoutRequest → Text → M Reservation
  unfolding reserve_items create_items create_attendees
  reserve_tx req number = do
    reserved ← reserve_items (pos 0) [] req.items
    created ← Repository.create_order e (record {
      order_number = number;
      buyer_name = req.buyer_name;
      buyer_email = req.buyer_email;
      buyer_phone = req.buyer_phone;
      total_amount = reserved.0;
    })
    create_items created.id reserved.1
    create_attendees created.id req.attendees
    pure (record { created = created; total = reserved.0; lines = reserved.1 })

  unfoldable pub reserve_once : CheckoutRequest → M Reservation
  unfolding reserve_tx
  reserve_once req = do
    at ← now e
    number ← generate_order_number e at
    in_tx e (reserve_tx req number)

  -- The retry loop, with the attempts left and the last error.
  unfoldable pub reserve_attempts : ℕ → Error → CheckoutRequest → M Reservation
  unfolding reserve_once
  reserve_attempts zero last req = throw (errorf last)
  reserve_attempts (suc n) last req = handle (reserve_once req) pure λ x.
      let again = reserve_attempts n x req in
      if errors_is x Sentinel.order_number_taken then again else throw x

  unfoldable pub reserve : CheckoutRequest → M Reservation
  unfolding reserve_attempts
  reserve req = reserve_attempts order_number_attempts plain req

  unfoldable pub restore_lines : List ReservedLine → M (Unit {0})
  restore_lines [] = pure tt
  restore_lines (l ∷ ls) = do events.restore_quota l.ticket_type_id l.quantity; restore_lines ls

  -- The body of the compensating transaction.
  unfoldable pub compensate_tx : Reservation → M (Unit {0})
  unfolding restore_lines
  compensate_tx r = do
    cancelled ← Repository.update_order_status_if_pending e r.created.id OrderStatus.cancelled
    if cancelled then restore_lines r.lines else pure tt

  -- A failure is only logged.
  unfoldable pub compensate : Reservation → M (Unit {0})
  unfolding compensate_tx
  compensate r = handle (in_tx e (compensate_tx r)) pure (λ _. pure tt)

  module _ (gateway : PaymentGateway) where
    unfoldable pub stamp : Reservation → PaymentSession → M (Unit {0})
    stamp r session = in_tx e (
        Repository.update_payment_details e r.created.id (record {
          payment_url = session.qr_image_url;
          provider = gateway.name;
          qr_string = session.qr_string;
          expires_at = session.expires_at;
        }))

    abbrev pub initiation_failed : Error → Error
    initiation_failed x = wrap x 502 Code.payment_initiation_failed

    abbrev pub response : Reservation → PaymentSession → OrderResponse
    response r session = record {
      order_number = r.created.order_number;
      status = r.created.status;
      total_amount = r.total;
      payment_url = session.qr_image_url;
    }

    -- What follows TX1.
    unfoldable pub pay : CheckoutRequest → Reservation → M OrderResponse
    unfolding stamp compensate payment_request_for
    pay req r =
        handle (remote e (gateway.create_transaction (payment_request_for r req)))
          (λ session. do map_error initiation_failed (stamp r session); pure (response r session))
          (λ x. do compensate r; throw (initiation_failed x))

    unfoldable pub checkout : CheckoutRequest → M OrderResponse
    unfolding reserve pay validate
    checkout req = elim (validate e.parse_address req) [
      | some x ↦ throw x
      | none ↦ reserve req >>= pay req
    ]
