-- ===== src/Event/Catalog/Sql.antt =====
-- The catalogue's statements of backend/internal/event/eventsql/event.sql.go.
use event_portal.Base.{
  ltb_ℤ, eqb_ℤ, ◌==◌, ◌&&◌, ◌||◌, Text, text_eq, Bool, true, false, List, find_by, select, sort_by,
  sort_with,
}
use event_portal.Store.{Uuid, Event, EventStatus, TicketType}
use event_portal.Effect.{Env, M, query, query_row}

-- status = 'PUBLISHED'
abbrev pub is_published : Event → Bool
is_published v = elim v.status [
  | EventStatus.draft ↦ false
  | EventStatus.published ↦ true
  | EventStatus.completed ↦ false
]

-- slug = $1 AND status = 'PUBLISHED'
abbrev pub published_as : Text → Event → Bool
published_as slug v = text_eq v.slug slug && is_published v

module _ (e : Env) where
  -- ORDER BY price ASC, name ASC
  abbrev pub cheaper : TicketType → TicketType → Bool
  cheaper x y = ltb_ℤ x.price y.price || (eqb_ℤ x.price y.price && e.collate x.name y.name)

  unfoldable pub list_published_events : M (List Event)
  list_published_events = query e (λ d. sort_by (λ v. v.start_date) (select is_published d.events))

  unfoldable pub get_published_event_by_slug : Text → M Event
  get_published_event_by_slug slug = query_row e (λ d. find_by (published_as slug) d.events)

  unfoldable pub list_ticket_types_by_event_id : Uuid → M (List TicketType)
  list_ticket_types_by_event_id i =
      query e (λ d. sort_with cheaper (select (λ t. t.event_id == i) d.ticket_types))
