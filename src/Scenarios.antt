-- ===== src/Scenarios.antt =====
-- A small shop on which the theorems are run, and the programs that run on it.
mod Witnesses
mod Runs
mod Results
mod Admin
mod Guests
mod Login
use event_portal.Base.{
  ℕ, ◌+◌, ℤ, pos, Text, codes, true, false, Bool, Option, none, some, List, [], ◌∷◌,
}
use event_portal.Errors.{Error, plain}
use event_portal.Store.{
  Uuid, Time, Db, Event, EventStatus, TicketType, Order, OrderStatus, OrderItem, Attendee, Ticket,
  TicketStatus,
}
use event_portal.Effect.{Env, World, M, ok, err, pure}
use event_portal.Order.Request.{CheckoutItem, CheckoutAttendee, CheckoutRequest}
use event_portal.Payment.Gateway.{PaymentSession, WebhookResult, Gateway, OrderRef}

-- A database that answers, a clock that stands, and nobody else about.
abbrev pub calm : Env
calm = record {
  fault = λ _. false;
  kept = λ _. false;
  now = λ _. 63271811045000000000;
  uuid = λ n. 1000 + n;
  rand = λ n. some n;
  others = λ _ d. d;
  upper_rune = λ c. c;
  lower_rune = λ c. c;
  parse_address = λ _. true;
  collate = λ _ _. true;
}

abbrev pub concert : Event
concert = record {
  id = 5;
  name = codes "Concert";
  slug = codes "concert";
  description = none;
  venue = codes "Hall";
  address = codes "1 Main Street";
  start_date = 63271900000000000000;
  end_date = 63271950000000000000;
  banner_url = none;
  status = EventStatus.published;
}

abbrev pub regular : ℤ → TicketType
regular q = record {
  id = 1;
  event_id = 5;
  name = codes "Regular";
  price = pos 2500;
  quota = q;
  sales_start = 63271800000000000000;
  sales_end = 63271890000000000000;
  created_at = 63271700000000000000;
}

abbrev pub bought : OrderStatus → Order
bought s = record {
  id = 7;
  order_number = codes "ORD-20060102-ABCDEF";
  buyer_name = codes "Ann";
  buyer_email = codes "ann@example.com";
  buyer_phone = codes "555";
  total_amount = pos 5000;
  status = s;
  payment_provider = some (codes "midtrans");
  payment_url = some (codes "https://pay");
  email_sent = false;
  created_at = 63271811000000000000;
  payment_qr_string = some (codes "qr");
  payment_expires_at = some 63271811040000000000;
}

abbrev pub two_seats : OrderItem
two_seats = record { id = 8; order_id = 7; ticket_type_id = 1; quantity = pos 2; price = pos 2500 }

abbrev pub ann : Attendee
ann = record {
  id = 9;
  order_id = 7;
  ticket_type_id = 1;
  name = codes "Ann";
  email = codes "ann@example.com";
}

abbrev pub ticket : Ticket
ticket = record {
  id = 10;
  ticket_code = codes "ABCDEFGH23";
  order_id = 7;
  attendee_id = 9;
  status = TicketStatus.active;
  created_at = 63271811020000000000;
}

-- Eight seats on sale, and two in an order with the given status.
abbrev pub shop : OrderStatus → List Ticket → Db
shop s tickets = record {
  admins = record { id = 3; email = codes "root@example.com"; password_hash = codes "hash" } ∷ [];
  events = concert ∷ [];
  ticket_types = regular (pos 8) ∷ [];
  orders = bought s ∷ [];
  order_items = two_seats ∷ [];
  attendees = ann ∷ [];
  tickets = tickets;
  payments = [];
}

abbrev pub at_start : Db → World
at_start d = record { db = d; tick = 0 }

abbrev pub request : CheckoutRequest
request = record {
  buyer_name = codes "Bob";
  buyer_email = codes "bob@example.com";
  buyer_phone = codes "556";
  items = record { ticket_type_id = 1; quantity = pos 1 } ∷ [];
  attendees =
      record { ticket_type_id = 1; name = codes "Bob"; email = codes "bob@example.com" } ∷ [];
}

abbrev pub answer : WebhookResult
answer = record {
  order_number = codes "ORD-20060102-ABCDEF";
  transaction_id = codes "t-1";
  transaction_status = codes "expire";
  fraud_status = [];
  payment_type = codes "qris";
  raw_payload = codes "raw";
}

-- A provider that opens sessions, and reports every transaction as expired.
abbrev pub provider : Gateway
provider = record {
  name = codes "midtrans";
  create_transaction = λ _ _. ok (record {
    provider_ref = codes "ref";
    qr_string = codes "qr";
    qr_image_url = codes "https://pay";
    expires_at = 63271812000000000000;
    redirect_url = codes "https://pay";
  });
  verify_webhook = λ _ _. ok answer;
  fetch_status = λ _ _. ok answer;
}

-- A provider that refuses.
abbrev pub closed : Gateway
closed = record {
  name = codes "midtrans";
  create_transaction = λ _ _. err plain;
  verify_webhook = λ _ _. err plain;
  fetch_status = λ _ _. err plain;
}

abbrev pub ref : OrderRef
ref = record {
  id = 7;
  order_number = codes "ORD-20060102-ABCDEF";
  status = OrderStatus.pending;
  payment_expires_at = some 63271811040000000000;
}

-- Sending an email that touches no table.
abbrev pub mute : Uuid → M (Unit {0})
mute o w = (ok tt, w)
