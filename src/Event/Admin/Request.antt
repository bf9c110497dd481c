-- ===== src/Event/Admin/Request.antt =====
-- backend/internal/event/admin_dto.go: the bodies of the admin's writes and their validation, and
-- what the dashboard shows. Amounts are those that a NUMERIC(12, 2) column keeps.
pub mod Laws
use event_portal.Base.{
  ℤ, pos, ltb_ℤ, ltb, ◌==◌, ◌||◌, ◌&&◌, not, if◌then◌else◌, Text, text_eq, codes, is_empty,
  trim_space, Bool, Option, none, some, List,
}
use event_portal.Errors.{Error, Code, ◌orelse◌, reject_if}
use event_portal.Store.{Uuid, Time, Cents, Event, EventStatus}
use event_portal.Event.Admin.Slug.{matches_slug_pattern}

pub record EventRequest : Type 0 where
  pub name : Text
  pub slug : Text
  pub description : Option Text
  pub venue : Text
  pub address : Text
  pub start_date : Time
  pub end_date : Time
  pub banner_url : Option Text
  pub status : Text

pub record TicketTypeRequest : Type 0 where
  pub event_id : Uuid
  pub name : Text
  pub price : Cents
  pub quota : ℤ
  pub sales_start : Time
  pub sales_end : Time

-- `sold` is derived from the order items.
pub record TicketTypeAdminView : Type 0 where
  pub id : Uuid
  pub event_id : Uuid
  pub name : Text
  pub price : Cents
  pub quota : ℤ
  pub sold : ℤ
  pub sales_start : Time
  pub sales_end : Time

pub record EventAdminDetail : Type 0 where
  pub event : Event
  pub ticket_types : List TicketTypeAdminView

-- The statuses that the switch and the CHECK constraint of the column allow.
unfoldable pub event_status : Text → Option EventStatus
event_status s =
    if text_eq s (codes "DRAFT")
    then some EventStatus.draft
    else (if text_eq s (codes "PUBLISHED")
        then some EventStatus.published
        else (if text_eq s (codes "COMPLETED") then some EventStatus.completed else none))

abbrev pub known_status : Option EventStatus → Bool
known_status none = Bool.false
known_status (some s) = Bool.true

-- EventRequest.Validate
unfoldable pub validate_event : EventRequest → Option Error
validate_event r =
    reject_if (is_empty (trim_space r.name)) Code.validation
    orelse (reject_if (is_empty (trim_space r.slug)) Code.validation
        orelse (reject_if (not (matches_slug_pattern r.slug)) Code.validation
            orelse (reject_if (is_empty (trim_space r.venue)) Code.validation
                orelse (reject_if (is_empty (trim_space r.address)) Code.validation
                    orelse (reject_if (r.start_date == 0 || r.end_date == 0) Code.validation
                        orelse (reject_if (ltb r.end_date r.start_date) Code.invalid_date_range
                            orelse reject_if (not (known_status (event_status r.status)))
                                Code.validation))))))

-- TicketTypeRequest.Validate
unfoldable pub validate_ticket_type : Bool → TicketTypeRequest → Option Error
validate_ticket_type require_event_id r =
    reject_if (require_event_id && r.event_id == 0) Code.validation
    orelse (reject_if (is_empty (trim_space r.name)) Code.validation
        orelse (reject_if (ltb_ℤ r.price (pos 0)) Code.validation
            orelse (reject_if (ltb_ℤ r.quota (pos 0)) Code.validation
                orelse (reject_if (r.sales_start == 0 || r.sales_end == 0) Code.validation
                    orelse reject_if (ltb r.sales_end r.sales_start) Code.invalid_date_range))))
