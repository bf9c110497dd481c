-- ===== src/Conservation.antt =====
-- The program as backend/cmd/api/main.go wires it: no request makes or loses a seat of a ticket
-- type. `send` is the notification service's SendTicketEmail.
use event_portal.Base.{ℕ, ℤ, Text, List}
use event_portal.Store.{Db, Uuid, Ticket}
use event_portal.Effect.{Env, World, M}
use event_portal.Effect.Laws.{
  Ends, Ends-always, always-Ends, query-Ends, map_error-Ends, >>=-Ends, pure-Ends,
}
use event_portal.Seats.{IsSound}
use event_portal.Order.Repository as OrderRepository
use event_portal.Order.Sql as OrderSql
use event_portal.Order.Request.{CheckoutRequest}
use event_portal.Order.Checkout.{checkout}
use event_portal.Order.Contract.{Fair}
use event_portal.Order.Conservation.{checkout-Sound}
use event_portal.Payment.Gateway.{Gateway}
use event_portal.Payment.Contract.{SeatNeutral}
use event_portal.Payment.Service.{handle_notification, refresh_status, expire_due_orders}
use event_portal.Payment.Conservation.{
  handle_notification-Ends, refresh_status-Ends, expire_due_orders-Ends,
}
use event_portal.Ticket.Writes.{issue_tickets_for_order-Ends}
use event_portal.Adapters.{
  event_provider, payment_gateway, order_provider, quota_restorer, fulfillment,
}
use event_portal.Adapters.Laws.{
  event_provider-SeatContract, order_provider-OrderContract, restore_quota-Restores,
}

-- A call that leaves the seats of the ticket type in order.
abbrev pub Conserves : {A : Type 0} → Uuid → ℤ → M A → Type 0
Conserves t c m = (w : World) → IsSound t c w.db → IsSound t c (m w).1.db

IsSound-tickets :
    {t : Uuid} {c : ℤ} (d : Db) (ts : List Ticket)
    → IsSound t c d
    → IsSound t c (record d { tickets = ts })
IsSound-tickets d ts s = record { linked = s.linked; on_sale = s.on_sale; total = s.total }

attendees-Ends :
    {P : Db → Type 0} (e : Env) (o : Uuid) (w : World)
    → P w.db
    → Ends (λ _. P) P (OrderRepository.attendee_ids_for_order e o) w
unfolding OrderRepository.attendee_ids_for_order OrderRepository.list_attendees_by_order_id
    OrderSql.list_attendees_by_order_id
attendees-Ends {P} e o w h =
    >>=-Ends (λ _. P) (map_error-Ends _ (query-Ends e _ h h)) (λ _ _ k. pure-Ends _ k)

fulfillment-SeatNeutral :
    (t : Uuid) (c : ℤ) (e : Env) (send : Uuid → M (Unit {0}))
    → ((o : Uuid) → Conserves t c (send o))
    → SeatNeutral t c (fulfillment e send)
fulfillment-SeatNeutral t c e send keeps = record {
  issues = λ o w s.
      issue_tickets_for_order-Ends (IsSound t c) IsSound-tickets e _ o w (attendees-Ends e o w s);
  delivers = λ o w s. always-Ends (keeps o w s);
}

-- Checkout: if the seats of a ticket type were in order and number `c`, they are in order and
-- number `c` afterwards, whatever the checkout returned and wherever it failed. The other requests
-- that run while the provider answers are assumed to conserve the seats too, and to leave existing
-- orders and their items in place.
pub checkout-Conserves :
    (t : Uuid) (c : ℤ) (e : Env) (g : Gateway) (req : CheckoutRequest)
    → Fair t c e
    → (w : World) → IsSound t c w.db
    → IsSound t c (checkout e (event_provider e) (payment_gateway g) req w).1.db
checkout-Conserves t c e g req fair w s = Ends-always (
    checkout-Sound t e (event_provider e) (event_provider-SeatContract e) (payment_gateway g) c fair
      req w s)

-- The expiry sweep: it conserves the seats of every ticket type, also where some of the orders
-- that are due fail to expire.
pub expire_due_orders-Conserves :
    (t : Uuid) (c : ℤ) (e : Env) (w : World)
    → IsSound t c w.db
    → IsSound t c (expire_due_orders e (order_provider e) (quota_restorer e) w).1.db
expire_due_orders-Conserves t c e w s = Ends-always (
    expire_due_orders-Ends t c e (order_provider e) (order_provider-OrderContract e)
      (quota_restorer e) (restore_quota-Restores e) w s)

-- A provider notification, genuine or not, conserves the seats of every ticket type, if sending
-- the ticket email does.
pub handle_notification-Conserves :
    (t : Uuid) (c : ℤ) (e : Env) (send : Uuid → M (Unit {0})) (g : Gateway)
    (provider payload signature : Text)
    → ((o : Uuid) → Conserves t c (send o))
    → (w : World) → IsSound t c w.db
    → IsSound t c
        (handle_notification e
          (order_provider e)
          (quota_restorer e)
          (fulfillment e send)
          g
          provider
          payload
          signature
          w).1.db
handle_notification-Conserves t c e send g provider payload signature keeps w s = Ends-always (
    handle_notification-Ends t c e (order_provider e) (order_provider-OrderContract e)
      (quota_restorer e) (restore_quota-Restores e) (fulfillment e send)
      (fulfillment-SeatNeutral t c e send keeps) g provider payload signature w s)

-- A status refresh conserves the seats of every ticket type, if sending the ticket email and the
-- requests that run while the provider answers do.
pub refresh_status-Conserves :
    (t : Uuid) (c : ℤ) (e : Env) (send : Uuid → M (Unit {0})) (g : Gateway) (number : Text)
    → ((o : Uuid) → Conserves t c (send o))
    → ((n : ℕ) (d : Db) → IsSound t c d → IsSound t c (e.others n d))
    → (w : World) → IsSound t c w.db
    → IsSound t c
        (refresh_status e
          (order_provider e)
          (quota_restorer e)
          (fulfillment e send)
          g
          number
          w).1.db
refresh_status-Conserves t c e send g number keeps fair w s = Ends-always (
    refresh_status-Ends t c e (order_provider e) (order_provider-OrderContract e) (quota_restorer e)
      (restore_quota-Restores e) (fulfillment e send) (fulfillment-SeatNeutral t c e send keeps) g
      fair number w s)
