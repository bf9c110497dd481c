-- ===== src/Order/Public.antt =====
-- backend/internal/order/public_service.go: the guest's view of an order, with the types of dto.go.
pub mod Laws
use event_portal.Base.{
  ℕ, ltb, ◌==◌, if◌then◌else◌, ℤ, ◌*ℤ◌, Text, codes, is_empty, not, Bool, true, false, Option, none,
  some, List, [], ◌∷◌, ◌++◌, map, length,
}
use event_portal.Errors.{Error, not_found_error, Code, Sentinel, errors_is}
use event_portal.Store.{Uuid, Time, Cents, Order, OrderItem, OrderStatus, is_pending}
use event_portal.Effect.{Env, M, map_error, pure, throw, now, ◌>>=◌, ◌>>◌}
use event_portal.Order.Repository
use event_portal.Order.Lookup.{TicketTypeDisplay, EventLookup, once_each, display_for}

pub record PublicOrderEvent : Type 0 where
  pub name : Text
  pub slug : Text

pub record PublicOrderItem : Type 0 where
  pub ticket_type_name : Text
  pub quantity : ℤ
  pub unit_price : Cents
  pub subtotal : Cents

-- `method` is always QRIS.
pub record PaymentInstruction : Type 0 where
  pub provider : Text
  pub amount : Cents
  pub expires_at : Time
  pub qr_image_path : Text

pub record PublicOrderDetail : Type 0 where
  pub order_number : Text
  pub status : OrderStatus
  pub total_amount : Cents
  pub buyer_name : Text
  pub buyer_email : Text
  pub created_at : Time
  pub event : PublicOrderEvent
  pub items : List PublicOrderItem
  pub server_time : Time
  pub payment : Option PaymentInstruction

-- QRImagePath
abbrev pub qr_image_path : Text → Text
qr_image_path number = codes "/api/v1/orders/" ++ (number ++ codes "/qris.png")

abbrev or_empty : Option Text → Text
or_empty none = []
or_empty (some t) = t

abbrev pub instruction : Order → Time → PaymentInstruction
instruction o deadline = record {
  provider = or_empty o.payment_provider;
  amount = o.total_amount;
  expires_at = deadline;
  qr_image_path = qr_image_path o.order_number;
}

-- The part of paymentInstruction after the status: the payload and the deadline.
unfoldable pub instruction_until :
    Order → Time → Option Text → Option Time → Option PaymentInstruction
instruction_until o at none deadline = none
instruction_until o at (some qr) none = none
instruction_until o at (some qr) (some deadline) =
    if is_empty qr then none else (if ltb at deadline then some (instruction o deadline) else none)

unfoldable pub payment_instruction : Order → Time → Option PaymentInstruction
unfolding instruction_until
payment_instruction o at =
    if is_pending o.status
    then instruction_until o at o.payment_qr_string o.payment_expires_at
    else none

-- The first line with a display settles the event.
unfoldable pub event_of : List OrderItem → List TicketTypeDisplay → PublicOrderEvent
event_of [] displays = record { name = []; slug = [] }
event_of (i ∷ is) displays =
    let rest = event_of is displays in
    elim (display_for i.ticket_type_id displays) [
      | none ↦ rest
      | some d ↦ record { name = d.event_name; slug = d.event_slug }
    ]

abbrev label : Option TicketTypeDisplay → Text
label none = []
label (some d) = d.ticket_type_name

abbrev pub public_item : List TicketTypeDisplay → OrderItem → PublicOrderItem
public_item displays i = record {
  ticket_type_name = label (display_for i.ticket_type_id displays);
  quantity = i.quantity;
  unit_price = i.price;
  subtotal = i.price *ℤ i.quantity;
}

abbrev pub hidden_order : Error → Error
hidden_order x =
    if errors_is x Sentinel.order_not_found then not_found_error Code.order_not_found else x

abbrev pub public_order_detail :
    Order → List OrderItem → List TicketTypeDisplay → Time → PublicOrderDetail
public_order_detail o items displays at = record {
  order_number = o.order_number;
  status = o.status;
  total_amount = o.total_amount;
  buyer_name = o.buyer_name;
  buyer_email = o.buyer_email;
  created_at = o.created_at;
  event = event_of items displays;
  items = map (public_item displays) items;
  server_time = at;
  payment = payment_instruction o at;
}

-- The payload of an order that has an instruction.
abbrev pub payload_of : Option Text → Option PaymentInstruction → M Text
payload_of qr none = throw (not_found_error Code.order_not_found)
payload_of none (some p) = throw (not_found_error Code.order_not_found)
payload_of (some t) (some p) = pure t

module _ (e : Env) (events : EventLookup) where
  unfoldable pub ticket_type_displays : List OrderItem → M (List TicketTypeDisplay)
  unfolding once_each
  ticket_type_displays items =
      if length items == 0
      then pure []
      else events.ticket_type_displays (once_each [] (map (λ i. i.ticket_type_id) items))

  unfoldable pub order_by_number : Text → M PublicOrderDetail
  order_by_number number = do
    record' ← map_error hidden_order (Repository.get_order_by_number e number)
    items ← Repository.list_order_items_by_order_id e record'.id
    displays ← ticket_type_displays items
    at ← now e
    pure (public_order_detail record' items displays at)

  unfoldable pub payment_qr_payload : Text → M Text
  unfolding payment_instruction
  payment_qr_payload number = do
    record' ← map_error hidden_order (Repository.get_order_by_number e number)
    at ← now e
    payload_of record'.payment_qr_string (payment_instruction record' at)
