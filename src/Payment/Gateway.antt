-- ===== src/Payment/Gateway.antt =====
-- backend/internal/payment/gateway.go, dto.go, and the contracts that service.go declares: what
-- the payment domain needs of the provider and of the other domains.
use event_portal.Base.{ℕ, ℤ, Text, Bool, Option, List}
use event_portal.Store.{Uuid, Time, Cents, OrderStatus}
use event_portal.Effect.{Result, M}

pub record TransactionItem : Type 0 where
  pub id : Uuid
  pub name : Text
  pub price : Cents
  pub quantity : ℤ

pub record TransactionRequest : Type 0 where
  pub order_number : Text
  pub gross_amount : Cents
  pub customer_name : Text
  pub customer_email : Text
  pub customer_phone : Text
  pub items : List TransactionItem

pub record PaymentSession : Type 0 where
  pub provider_ref : Text
  pub qr_string : Text
  pub qr_image_url : Text
  pub expires_at : Time
  pub redirect_url : Text

pub record WebhookResult : Type 0 where
  pub order_number : Text
  pub transaction_id : Text
  pub transaction_status : Text
  pub fraud_status : Text
  pub payment_type : Text
  pub raw_payload : Text

-- A remote call is answered at a moment.
pub record Gateway : Type 0 where
  pub name : Text
  pub create_transaction : TransactionRequest → ℕ → Result PaymentSession
  pub verify_webhook : Text → Text → Result WebhookResult
  pub fetch_status : Text → ℕ → Result WebhookResult

pub record OrderRef : Type 0 where
  pub id : Uuid
  pub order_number : Text
  pub status : OrderStatus
  pub payment_expires_at : Option Time

pub record LineItem : Type 0 where
  pub ticket_type_id : Uuid
  pub quantity : ℤ

pub record OrderProvider : Type 0 where
  pub order_by_number : Text → M OrderRef
  pub line_items : Uuid → M (List LineItem)
  pub update_status_if_pending : Uuid → OrderStatus → M Bool
  pub due_for_expiry : Time → ℕ → M (List OrderRef)

pub record QuotaRestorer : Type 0 where
  pub restore_quota : Uuid → ℤ → M (Unit {0})

-- TicketIssuer and TicketDeliverer, the two steps of the work after a payment.
pub record Fulfillment : Type 0 where
  pub issue_tickets_for_order : Uuid → M (Unit {0})
  pub send_ticket_email : Uuid → M (Unit {0})
