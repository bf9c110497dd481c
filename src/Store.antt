-- ===== src/Store.antt =====
-- The database of backend/migrations and the row types of the sqlc packages (ordersql/models.go,
-- eventsql/models.go, ticketsql, paymentsql). Uuids are numbers, 0 is uuid.Nil; times are numbers,
-- 0 is Go's zero time; money is in hundredths (NUMERIC(12, 2)); INT columns are integers. The
-- updated_at columns, and the created_at columns of admins, events and payments, are left out: no
-- modelled code decides by them.
use event_portal.Base.{ℕ, ℤ, Text, Bool, true, false, Option, List}

abbrev pub Uuid : Type 0
Uuid = ℕ

abbrev pub Time : Type 0
Time = ℕ

abbrev pub Cents : Type 0
Cents = ℤ

-- CHECK (status IN ('PENDING', 'PAID', 'CANCELLED', 'EXPIRED'))
pub data OrderStatus : Type 0 where
  pending paid cancelled expired : OrderStatus

-- CHECK (status IN ('DRAFT', 'PUBLISHED', 'COMPLETED'))
pub data EventStatus : Type 0 where
  draft published completed : EventStatus

-- CHECK (status IN ('ACTIVE', 'USED', 'REVOKED'))
pub data TicketStatus : Type 0 where
  active used revoked : TicketStatus

pub record Event : Type 0 where
  pub id : Uuid
  pub name : Text
  pub slug : Text
  pub description : Option Text
  pub venue : Text
  pub address : Text
  pub start_date : Time
  pub end_date : Time
  pub banner_url : Option Text
  pub status : EventStatus

pub record TicketType : Type 0 where
  pub id : Uuid
  pub event_id : Uuid
  pub name : Text
  pub price : Cents
  pub quota : ℤ
  pub sales_start : Time
  pub sales_end : Time
  pub created_at : Time

pub record Order : Type 0 where
  pub id : Uuid
  pub order_number : Text
  pub buyer_name : Text
  pub buyer_email : Text
  pub buyer_phone : Text
  pub total_amount : Cents
  pub status : OrderStatus
  pub payment_provider : Option Text
  pub payment_url : Option Text
  pub email_sent : Bool
  pub created_at : Time
  pub payment_qr_string : Option Text
  pub payment_expires_at : Option Time

pub record OrderItem : Type 0 where
  pub id : Uuid
  pub order_id : Uuid
  pub ticket_type_id : Uuid
  pub quantity : ℤ
  pub price : Cents

pub record Attendee : Type 0 where
  pub id : Uuid
  pub order_id : Uuid
  pub ticket_type_id : Uuid
  pub name : Text
  pub email : Text

pub record Ticket : Type 0 where
  pub id : Uuid
  pub ticket_code : Text
  pub order_id : Uuid
  pub attendee_id : Uuid
  pub status : TicketStatus
  pub created_at : Time

-- One provider notification, with the provider's raw status.
pub record Payment : Type 0 where
  pub id : Uuid
  pub order_id : Uuid
  pub provider : Text
  pub transaction_id : Text
  pub payment_type : Option Text
  pub status : Text
  pub raw_response : Text

-- An account of the dashboard.
pub record Admin : Type 0 where
  pub id : Uuid
  pub email : Text
  pub password_hash : Text

pub record Db : Type 0 where
  pub admins : List Admin
  pub events : List Event
  pub ticket_types : List TicketType
  pub orders : List Order
  pub order_items : List OrderItem
  pub attendees : List Attendee
  pub tickets : List Ticket
  pub payments : List Payment

-- `status = 'PENDING'`
abbrev pub is_pending : OrderStatus → Bool
is_pending OrderStatus.pending = true
is_pending _ = false

abbrev pub is_paid : OrderStatus → Bool
is_paid OrderStatus.paid = true
is_paid _ = false

-- The statuses of an order that holds its seats.
abbrev pub is_holding : OrderStatus → Bool
is_holding OrderStatus.pending = true
is_holding OrderStatus.paid = true
is_holding OrderStatus.cancelled = false
is_holding OrderStatus.expired = false
