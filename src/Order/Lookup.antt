-- ===== src/Order/Lookup.antt =====
-- backend/internal/order/admin_service.go: what the order views need of the event domain, and the
-- ids that they ask for. A map by ticket type is the list of its rows.
use event_portal.Base.{◌==◌, if◌then◌else◌, Text, Option, none, some, List, [], ◌∷◌, exists, find}
use event_portal.Store.{Uuid}
use event_portal.Effect.{M}

pub record TicketTypeDisplay : Type 0 where
  pub ticket_type_id : Uuid
  pub ticket_type_name : Text
  pub event_name : Text
  pub event_slug : Text

pub record TicketTypeName : Type 0 where
  pub ticket_type_id : Uuid
  pub name : Text

pub record EventLookup : Type 0 where
  pub ticket_type_names : List Uuid → M (List TicketTypeName)
  pub ticket_type_ids_for_event : Uuid → M (List Uuid)
  pub ticket_type_displays : List Uuid → M (List TicketTypeDisplay)

-- The loop over `seen`: every id once, in the order of its first row.
unfoldable pub once_each : List Uuid → List Uuid → List Uuid
once_each seen [] = []
once_each seen (i ∷ is) =
    let again = once_each seen is in
    let fresh = once_each (i ∷ seen) is in if exists (λ j. j == i) seen then again else i ∷ fresh

abbrev pub display_for : Uuid → List TicketTypeDisplay → Option TicketTypeDisplay
display_for i displays = find (λ d. d.ticket_type_id) i displays

-- `names[id]`, where a missing key is the empty text
abbrev pub name_for : Uuid → List TicketTypeName → Text
name_for i names = elim (find (λ n. n.ticket_type_id) i names) [ none ↦ [] | some n ↦ n.name ]
