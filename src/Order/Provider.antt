-- ===== src/Order/Provider.antt =====
-- backend/internal/order/event_provider.go: what checkout needs of the event domain and of the
-- payment provider.
use event_portal.Base.{ℕ, ℤ, Text, List}
use event_portal.Store.{Uuid, Time, Cents}
use event_portal.Effect.{Result, M}

pub record TicketTypeInfo : Type 0 where
  pub id : Uuid
  pub event_id : Uuid
  pub name : Text
  pub price : Cents
  pub sales_start : Time
  pub sales_end : Time

pub record EventProvider : Type 0 where
  pub ticket_type_for_checkout : Uuid → M TicketTypeInfo
  pub check_and_deduct_quota : Uuid → ℤ → M (Unit {0})
  pub restore_quota : Uuid → ℤ → M (Unit {0})

-- The id is sent as the text of the uuid.
pub record PaymentItem : Type 0 where
  pub id : Uuid
  pub name : Text
  pub price : Cents
  pub quantity : ℤ

pub record PaymentRequest : Type 0 where
  pub order_number : Text
  pub gross_amount : Cents
  pub customer_name : Text
  pub customer_email : Text
  pub customer_phone : Text
  pub items : List PaymentItem

pub record PaymentSession : Type 0 where
  pub provider_ref : Text
  pub qr_string : Text
  pub qr_image_url : Text
  pub expires_at : Time
  pub redirect_url : Text

-- The provider answers a request at a moment.
pub record PaymentGateway : Type 0 where
  pub name : Text
  pub create_transaction : PaymentRequest → ℕ → Result PaymentSession
