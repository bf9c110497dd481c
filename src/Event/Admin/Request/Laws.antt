-- ===== src/Event/Admin/Request/Laws.antt =====
-- What the validation of the admin requests ensures.
use event_portal.Base.{
  ℕ, ◌≤◌, ◌≢◌, ℤ, pos, ◌≤ℤ◌, ltb_ℤ, ltb, ◌==◌, differ_ne, is_empty, trim_space, ◌||◌, not, Bool,
  true, false, Option, none, some, ◌≡◌, refl, arith, ◌&&◌,
}
use event_portal.Errors.Laws.{orelse_none, reject_none}
use event_portal.Store.{EventStatus}
use event_portal.Event.Admin.Slug.{matches_slug_pattern-IsSlug, IsSlug}
use event_portal.Event.Admin.Request.{
  EventRequest, TicketTypeRequest, event_status, known_status, validate_event, validate_ticket_type,
}

pub record IsAcceptedEvent (r : EventRequest) : Type 0 where
  pub named : is_empty (trim_space r.name) ≡ false
  pub slugged : IsSlug r.slug
  pub placed : is_empty (trim_space r.venue) ≡ false
  pub addressed : is_empty (trim_space r.address) ≡ false
  pub dated : (r.start_date ≢ 0) × (r.end_date ≢ 0)
  pub in_order : r.start_date ≤ r.end_date
  pub has_status : (s : EventStatus) × (event_status r.status ≡ some s)

pub record IsAcceptedTicketType (require_event_id : Bool) (r : TicketTypeRequest) : Type 0 where
  pub at_event : (require_event_id && r.event_id == 0) ≡ false
  pub named : is_empty (trim_space r.name) ≡ false
  pub priced : pos 0 ≤ℤ r.price
  pub counted : pos 0 ≤ℤ r.quota
  pub dated : (r.sales_start ≢ 0) × (r.sales_end ≢ 0)
  pub in_order : r.sales_start ≤ r.sales_end

not-false : (b : Bool) → not b ≡ false → b ≡ true
not-false true h = refl
not-false false h = cc

neither_zero : (a b : ℕ) → (a == 0 || b == 0) ≡ false → (a ≢ 0) × (b ≢ 0)
neither_zero a b h = (differ_ne a 0 (ground arith), differ_ne b 0 (ground arith))

not_before : (a b : ℕ) → ltb b a ≡ false → a ≤ b
not_before a b h = ground arith

not_negative : (a : ℤ) → ltb_ℤ a (pos 0) ≡ false → pos 0 ≤ℤ a
not_negative a h = ground arith

status_known : (o : Option EventStatus) → known_status o ≡ true → (s : EventStatus) × (o ≡ some s)
status_known none h = cc
status_known (some s) h = (s, refl)

-- A validated event has a name, a venue and an address that are not blank, a slug that is lower-case
-- words joined by single hyphens, dates in order, and one of the three statuses.
pub validate_event-IsAcceptedEvent :
    (r : EventRequest) → validate_event r ≡ none → IsAcceptedEvent r
unfolding validate_event
validate_event-IsAcceptedEvent r h =
    let (a, h₁) = orelse_none _ _ h in
    let (_, h₂) = orelse_none _ _ h₁ in
    let (c, h₃) = orelse_none _ _ h₂ in
    let (d, h₄) = orelse_none _ _ h₃ in
    let (f, h₅) = orelse_none _ _ h₄ in
    let (g, h₆) = orelse_none _ _ h₅ in
    let (k, l) = orelse_none _ _ h₆ in
    record {
      named = reject_none _ _ a;
      slugged = (matches_slug_pattern-IsSlug r.slug).0 (not-false _ (reject_none _ _ c));
      placed = reject_none _ _ d;
      addressed = reject_none _ _ f;
      dated = neither_zero _ _ (reject_none _ _ g);
      in_order = not_before _ _ (reject_none _ _ k);
      has_status = status_known _ (not-false _ (reject_none _ _ l));
    }

-- A validated ticket type has a name that is not blank, a price and a quota at or above zero, sale
-- dates in order, and on creation an event id that is not the nil uuid.
pub validate_ticket_type-IsAcceptedTicketType :
    (b : Bool) (r : TicketTypeRequest) → validate_ticket_type b r ≡ none → IsAcceptedTicketType b r
unfolding validate_ticket_type
validate_ticket_type-IsAcceptedTicketType b r h =
    let (a, h₁) = orelse_none _ _ h in
    let (c, h₂) = orelse_none _ _ h₁ in
    let (d, h₃) = orelse_none _ _ h₂ in
    let (f, h₄) = orelse_none _ _ h₃ in
    let (g, k) = orelse_none _ _ h₄ in
    record {
      at_event = reject_none _ _ a;
      named = reject_none _ _ c;
      priced = not_negative _ (reject_none _ _ d);
      counted = not_negative _ (reject_none _ _ f);
      dated = neither_zero _ _ (reject_none _ _ g);
      in_order = not_before _ _ (reject_none _ _ k);
    }
