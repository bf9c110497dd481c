-- ===== src/Event/Catalog/Repository.antt =====
-- backend/internal/event/repository.go: the guest-facing reads, with the row types of dto.go.
use event_portal.Base.{ℤ, Text, Option, List, [], map}
use event_portal.Errors.{errorf, Sentinel}
use event_portal.Store.{Uuid, Time, Cents, Event, TicketType}
use event_portal.Effect.{Env, M, map_error, pure, ◌>>=◌}
use event_portal.Event.Repository.{no_rows_as}
use event_portal.Event.Catalog.Sql

pub record EventSummary : Type 0 where
  pub id : Uuid
  pub name : Text
  pub slug : Text
  pub venue : Text
  pub address : Text
  pub start_date : Time
  pub end_date : Time
  pub banner_url : Option Text

pub record TicketTypeSummary : Type 0 where
  pub id : Uuid
  pub name : Text
  pub price : Cents
  pub quota_remaining : ℤ
  pub sales_start : Time
  pub sales_end : Time

pub record EventDetail : Type 0 where
  pub id : Uuid
  pub name : Text
  pub slug : Text
  pub description : Option Text
  pub venue : Text
  pub address : Text
  pub start_date : Time
  pub end_date : Time
  pub banner_url : Option Text
  pub ticket_types : List TicketTypeSummary

abbrev pub event_summary : Event → EventSummary
event_summary v = record {
  id = v.id;
  name = v.name;
  slug = v.slug;
  venue = v.venue;
  address = v.address;
  start_date = v.start_date;
  end_date = v.end_date;
  banner_url = v.banner_url;
}

abbrev pub event_detail : Event → EventDetail
event_detail v = record {
  id = v.id;
  name = v.name;
  slug = v.slug;
  description = v.description;
  venue = v.venue;
  address = v.address;
  start_date = v.start_date;
  end_date = v.end_date;
  banner_url = v.banner_url;
  ticket_types = [];
}

module _ (e : Env) where
  unfoldable pub list_published_events : M (List EventSummary)
  list_published_events =
      map_error errorf (Sql.list_published_events e) >>= λ rows. pure (map event_summary rows)

  unfoldable pub get_published_event_by_slug : Text → M EventDetail
  get_published_event_by_slug slug =
      map_error (no_rows_as Sentinel.event_not_found) (Sql.get_published_event_by_slug e slug)
      >>= λ row. pure (event_detail row)

  unfoldable pub list_ticket_types_by_event_id : Uuid → M (List TicketType)
  list_ticket_types_by_event_id i = map_error errorf (Sql.list_ticket_types_by_event_id e i)
