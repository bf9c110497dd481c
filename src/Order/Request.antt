-- ===== src/Order/Request.antt =====
-- backend/internal/order/dto.go: the checkout request and its validation. An error is `some`.
pub mod Laws
use event_portal.Base.{
  ℕ, suc, ℤ, pos, ◌+ℤ◌, ltb_ℤ, eqb_ℤ, wrap32, Text, is_empty, trim_space, length, exists, ◌==◌, not,
  ◌&&◌, if◌then◌else◌, Bool, true, false, Option, none, some, List, [], ◌∷◌,
}
use event_portal.Errors.{Error, Code, ◌orelse◌, reject_if}
use event_portal.Store.{Uuid, Cents, OrderStatus}

pub record CheckoutItem : Type 0 where
  pub ticket_type_id : Uuid
  pub quantity : ℤ

pub record CheckoutAttendee : Type 0 where
  pub ticket_type_id : Uuid
  pub name : Text
  pub email : Text

pub record CheckoutRequest : Type 0 where
  pub buyer_name : Text
  pub buyer_email : Text
  pub buyer_phone : Text
  pub items : List CheckoutItem
  pub attendees : List CheckoutAttendee

pub record OrderResponse : Type 0 where
  pub order_number : Text
  pub status : OrderStatus
  pub total_amount : Cents
  pub payment_url : Text

-- The loop of TotalQuantity, in int32.
unfoldable pub total_from : ℤ → List CheckoutItem → ℤ
total_from total [] = total
total_from total (i ∷ is) = total_from (wrap32 (total +ℤ i.quantity)) is

unfoldable pub total_quantity : List CheckoutItem → ℤ
unfolding total_from
total_quantity items = total_from (pos 0) items

-- `seen` is the key set of `wanted`: the lines before this one.
unfoldable pub check_items : List Uuid → List CheckoutItem → Option Error
check_items seen [] = none
check_items seen (i ∷ is) =
    reject_if (i.ticket_type_id == 0) Code.validation
    orelse (reject_if (ltb_ℤ i.quantity (pos 1)) Code.validation
        orelse (reject_if (exists (λ s. s == i.ticket_type_id) seen) Code.validation
            orelse check_items (i.ticket_type_id ∷ seen) is))

-- `got[ticketTypeID]`, an int32 that counts the attendees of a ticket type.
unfoldable pub got : Uuid → List CheckoutAttendee → ℤ
got t [] = pos 0
got t (a ∷ as') =
    let rest = got t as' in if a.ticket_type_id == t then wrap32 (rest +ℤ pos 1) else rest

-- Every line has as many attendees as its quantity.
unfoldable pub check_counts : List CheckoutAttendee → List CheckoutItem → Option Error
check_counts attendees [] = none
check_counts attendees (i ∷ is) =
    reject_if (not (eqb_ℤ (got i.ticket_type_id attendees) i.quantity)) Code.attendee_count_mismatch
    orelse check_counts attendees is

-- Every attendee's ticket type is in the order.
unfoldable pub check_ordered : List CheckoutItem → List CheckoutAttendee → Option Error
check_ordered items [] = none
check_ordered items (a ∷ as') =
    reject_if (not (exists (λ i. i.ticket_type_id == a.ticket_type_id) items))
      Code.attendee_count_mismatch
    orelse check_ordered items as'

module _ (parse_address : Text → Bool) where
  unfoldable pub validate_email : Text → Option Error
  validate_email value =
      reject_if (is_empty (trim_space value)) Code.validation
      orelse reject_if (not (parse_address (trim_space value))) Code.validation

  unfoldable pub check_attendees : List CheckoutAttendee → Option Error
  unfolding validate_email
  check_attendees [] = none
  check_attendees (a ∷ as') =
      reject_if (is_empty (trim_space a.name)) Code.validation
      orelse (validate_email a.email orelse check_attendees as')

  -- CheckoutRequest.Validate
  unfoldable pub validate : CheckoutRequest → Option Error
  unfolding validate_email check_items check_attendees total_quantity check_counts check_ordered
  validate r =
      reject_if (is_empty (trim_space r.buyer_name)) Code.validation
      orelse (validate_email r.buyer_email
          orelse (reject_if (is_empty (trim_space r.buyer_phone)) Code.validation
              orelse (reject_if (length r.items == 0) Code.validation
                  orelse (check_items [] r.items
                      orelse (check_attendees r.attendees
                          orelse (reject_if
                                (not (eqb_ℤ (total_quantity r.items) (pos (length r.attendees))))
                                Code.attendee_count_mismatch
                              orelse (check_counts r.attendees r.items
                                  orelse check_ordered r.items r.attendees)))))))
