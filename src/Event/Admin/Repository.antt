-- ===== src/Event/Admin/Repository.antt =====
-- backend/internal/event/admin_repository.go. A map by ticket type is the list of its rows.
use event_portal.Base.{Bool, ltb, ◌==◌, if◌then◌else◌, List, [], length}
use event_portal.Errors.{Error, errorf, sentinel, Sentinel, is_unique_violation}
use event_portal.Store.{Uuid, Event, TicketType}
use event_portal.Effect.{Env, M, map_error, pure, ◌>>=◌, ◌>>◌}
use event_portal.Event.Repository.{no_rows_as}
use event_portal.Event.Admin.Sql
use event_portal.Event.Admin.Sql.{EventParams, TicketTypeParams, TicketTypeName, TicketTypeDisplay}

-- `if isUniqueViolation(err) { return ErrSlugTaken }`, and the other errors.
abbrev pub slug_taken_or : (Error → Error) → Error → Error
slug_taken_or f x = if is_unique_violation x then sentinel Sentinel.slug_taken else f x

module _ (e : Env) where
  unfoldable pub list_events : M (List Event)
  list_events = map_error errorf (Sql.list_events e)

  unfoldable pub get_event_by_id : Uuid → M Event
  get_event_by_id i = map_error (no_rows_as Sentinel.event_not_found) (Sql.get_event_by_id e i)

  unfoldable pub create_event : EventParams → M Event
  create_event p = map_error (slug_taken_or errorf) (Sql.create_event e p)

  unfoldable pub update_event : Uuid → EventParams → M Event
  update_event i p =
      map_error (slug_taken_or (no_rows_as Sentinel.event_not_found)) (Sql.update_event e i p)

  unfoldable pub list_ticket_type_ids_by_event_id : Uuid → M (List Uuid)
  list_ticket_type_ids_by_event_id i = map_error errorf (Sql.list_ticket_type_ids_by_event_id e i)

  unfoldable pub ticket_type_names_by_ids : List Uuid → M (List TicketTypeName)
  ticket_type_names_by_ids ids =
      if length ids == 0
      then pure []
      else map_error errorf (Sql.list_ticket_type_names_by_ids e ids)

  unfoldable pub ticket_type_displays_by_ids : List Uuid → M (List TicketTypeDisplay)
  ticket_type_displays_by_ids ids =
      if length ids == 0
      then pure []
      else map_error errorf (Sql.list_ticket_type_displays_by_ids e ids)

  unfoldable pub delete_ticket_types_by_event_id : Uuid → M (Unit {0})
  delete_ticket_types_by_event_id i = do
    map_error errorf (Sql.delete_ticket_types_by_event_id e i)
    pure tt

  -- Whether the event existed.
  unfoldable pub delete_event : Uuid → M Bool
  delete_event i = do affected ← map_error errorf (Sql.delete_event e i); pure (ltb 0 affected)

  unfoldable pub list_ticket_types_admin : Uuid → M (List TicketType)
  list_ticket_types_admin i = map_error errorf (Sql.list_ticket_types_admin e i)

  unfoldable pub get_ticket_type_admin : Uuid → M TicketType
  get_ticket_type_admin i =
      map_error (no_rows_as Sentinel.event_not_found) (Sql.get_ticket_type_admin e i)

  unfoldable pub create_ticket_type : TicketTypeParams → M TicketType
  create_ticket_type p = map_error errorf (Sql.create_ticket_type e p)

  unfoldable pub update_ticket_type : Uuid → TicketTypeParams → M TicketType
  update_ticket_type i p =
      map_error (no_rows_as Sentinel.event_not_found) (Sql.update_ticket_type e i p)

  -- Whether the ticket type existed.
  unfoldable pub delete_ticket_type : Uuid → M Bool
  delete_ticket_type i = do
    affected ← map_error errorf (Sql.delete_ticket_type e i)
    pure (ltb 0 affected)
