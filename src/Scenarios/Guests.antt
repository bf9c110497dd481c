-- ===== src/Scenarios/Guests.antt =====
-- The theorems about the ticket email, the payment client and the order views, on the shop.
use event_portal.Base.{
  ℕ, pos, Text, codes, true, none, some, [], ◌∷◌, map, find_by, ◌≡◌, ◌⊎◌, ◌↔◌, refl,
}
use event_portal.Errors.{not_found_error, Code}
use event_portal.Store.{OrderStatus, Order, Time}
use event_portal.Effect.{World, ok, err}
use event_portal.Effect.Outcome.{OutcomeAt}
use event_portal.Seats.{IsSound}
use event_portal.Order.Evolution.{Evolves, Evolves-refl}
use event_portal.Order.Sql.{has_number, is_due}
use event_portal.Order.Public.{payment_instruction, payment_qr_payload}
use event_portal.Order.Public.Laws.{Payable, payment_instruction-is_due, payment_qr_payload_lem}
use event_portal.Order.Admin.{OrderFilter, order_summary, list_orders}
use event_portal.Order.Admin.Laws.{matching, list_orders-matching}
use event_portal.Event.Admin.Restrict.{down}
use event_portal.Notification.Service.{Mailer}
use event_portal.Notification.Delivery.{
  Deliverable, Answered, NotTried, Marked, send_ticket_email_lem,
}
use event_portal.Notification.Neutral.{handle_notification-delivered}
use event_portal.Payment.Service.{handle_notification}
use event_portal.Payment.Midtrans.{
  Api, MidtransNotification, StatusResponse, fetch_status, verify_webhook, webhook_result,
}
use event_portal.Payment.Midtrans.Webhook.{ResultIs, Authentic, Refused, verify_webhook-Authentic}
use event_portal.Payment.Midtrans.Charge.{Reported, NotReported, fetch_status_outcome}
use event_portal.Adapters.{
  order_provider, quota_restorer, fulfillment, send_ticket_email, event_lookup,
}
use event_portal.Scenarios.{calm, shop, at_start, bought, provider, ticket}
use event_portal.Scenarios.Witnesses.{shop-IsSound}

abbrev open_order : World
open_order = at_start (shop OrderStatus.pending [])

abbrev paid_order : World
paid_order = at_start (shop OrderStatus.paid (ticket ∷ []))

abbrev number : Text
number = codes "ORD-20060102-ABCDEF"

-- A mail server that takes every message.
abbrev post : Mailer
post = record { deliver = λ _ _. ok tt; render = λ _ _. ok (codes "pdf") }

abbrev told : MidtransNotification
told = record {
  order_id = number;
  status_code = codes "200";
  gross_amount = codes "50.00";
  signature_key = codes "0f";
  transaction_id = codes "t-1";
  transaction_status = codes "settlement";
  fraud_status = [];
  payment_type = codes "qris";
}

abbrev known : StatusResponse
known = record {
  status_code = codes "200";
  transaction_id = codes "t-1";
  order_id = number;
  transaction_status = codes "settlement";
  fraud_status = [];
  payment_type = codes "qris";
}

-- A provider that knows one transaction, and a digest of one byte.
abbrev api : Api
api = record {
  charge = λ _ _. ok (record { raw = codes "raw"; status = 500 });
  status = λ _ _. ok (record { raw = codes "raw"; status = 200 });
  decode_charge = λ _. none;
  decode_status = λ _. some known;
  decode_notification = λ _. some told;
  sha512 = λ _. 15 ∷ [];
  path_escape = λ t. t;
  parse_time = λ _. none;
  lower_rune = λ c. c;
}

abbrev every_order : OrderFilter
every_order = record { status = some OrderStatus.pending; event_id = some 5 }

send_ticket_email_lem_example :
    OutcomeAt
      (λ _ d.
        (o : Order) × (Deliverable calm 7 paid_order.db o
          × ((n : ℕ) × (Answered calm post 7 paid_order.db o n (ok tt)
                × Marked calm 7 (calm.others n paid_order.db) d))))
      (λ x d.
        (NotTried calm post 7 paid_order.db x × (d ≡ paid_order.db))
        ⊎ ((o : Order) × (Deliverable calm 7 paid_order.db o
              × ((n : ℕ) × (Answered calm post 7 paid_order.db o n (err x)
                    × (d ≡ calm.others n paid_order.db))))))
      (send_ticket_email calm post 7 paid_order)
send_ticket_email_lem_example = send_ticket_email_lem calm post 7 paid_order

handle_notification-delivered_example :
    let after =
      (handle_notification calm
        (order_provider calm)
        (quota_restorer calm)
        (fulfillment calm (send_ticket_email calm post))
        provider
        (codes "midtrans")
        (codes "payload")
        (codes "signature")
        open_order).1.db in
    IsSound 1 (pos 10) after × Evolves open_order.db.orders after.orders
handle_notification-delivered_example =
    handle_notification-delivered calm post 1 (pos 10) provider (codes "midtrans") (codes "payload")
      (codes "signature") (λ _ _ s. s) (λ _ d. Evolves-refl d.orders) open_order shop-IsSound

verify_webhook-Authentic_example :
    ResultIs
      (λ r.
        (n : MidtransNotification) × (Authentic api (codes "key") (codes "payload") (codes "0F") n
          × (r ≡ webhook_result (codes "payload") n)))
      (Refused api (codes "key"))
      (verify_webhook api (codes "key") (codes "payload") (codes "0F"))
verify_webhook-Authentic_example =
    verify_webhook-Authentic api (codes "key") (codes "payload") (codes "0F")

fetch_status_outcome_example :
    ResultIs (Reported api number 3) (NotReported api number 3) (fetch_status api number 3)
fetch_status_outcome_example = fetch_status_outcome api number 3

payment_instruction-is_due_example :
    (payment_instruction (bought OrderStatus.pending) 63271811050000000000 ≡ none)
    ↔ (is_due 63271811050000000000 (bought OrderStatus.pending) ≡ true)
payment_instruction-is_due_example =
    payment_instruction-is_due (bought OrderStatus.pending) 63271811050000000000 (codes "qr")
      63271811040000000000 refl (refl, refl) refl

payment_qr_payload_lem_example :
    OutcomeAt
      (λ qr d.
        ((o : Order) × ((n : ℕ) × ((deadline : Time) × ((find_by
                    (has_number number)
                    open_order.db.orders
                  ≡ some o)
                × Payable o (calm.now n) qr deadline))))
        × (d ≡ open_order.db))
      (λ x d.
        ((x ≡ down)
          ⊎ ((x ≡ not_found_error Code.order_not_found)
              × ((find_by (has_number number) open_order.db.orders ≡ none)
                  ⊎ ((o : Order) × ((n : ℕ) × ((find_by (has_number number) open_order.db.orders
                            ≡ some o)
                          × (payment_instruction o (calm.now n) ≡ none)))))))
        × (d ≡ open_order.db))
      (payment_qr_payload calm (event_lookup calm) number open_order)
payment_qr_payload_lem_example = payment_qr_payload_lem calm (event_lookup calm) number open_order

list_orders-matching_example :
    OutcomeAt
      (λ rows d.
        (rows ≡ map order_summary (matching every_order open_order.db)) × (d ≡ open_order.db))
      (λ x d. (x ≡ down) × (d ≡ open_order.db))
      (list_orders calm (event_lookup calm) every_order open_order)
list_orders-matching_example = list_orders-matching calm every_order open_order
