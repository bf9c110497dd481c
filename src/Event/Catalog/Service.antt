-- ===== src/Event/Catalog/Service.antt =====
-- backend/internal/event/service.go: the guest's catalogue.
use event_portal.Base.{Text, List, map, if◌then◌else◌}
use event_portal.Errors.{Error, not_found_error, Code, Sentinel, errors_is}
use event_portal.Store.{TicketType}
use event_portal.Effect.{Env, M, map_error, pure, ◌>>=◌}
use event_portal.Event.Catalog.Repository
use event_portal.Event.Catalog.Repository.{EventSummary, EventDetail, TicketTypeSummary}

abbrev pub ticket_type_summary : TicketType → TicketTypeSummary
ticket_type_summary t = record {
  id = t.id;
  name = t.name;
  price = t.price;
  quota_remaining = t.quota;
  sales_start = t.sales_start;
  sales_end = t.sales_end;
}

abbrev pub missing_event : Error → Error
missing_event x =
    if errors_is x Sentinel.event_not_found then not_found_error Code.event_not_found else x

module _ (e : Env) where
  unfoldable pub list_published_events : M (List EventSummary)
  list_published_events = Repository.list_published_events e

  unfoldable pub get_published_event_by_slug : Text → M EventDetail
  get_published_event_by_slug slug = do
    detail ← map_error missing_event (Repository.get_published_event_by_slug e slug)
    rows ← Repository.list_ticket_types_by_event_id e detail.id
    pure (record detail { ticket_types = map ticket_type_summary rows })
