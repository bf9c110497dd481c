-- ===== src/Ticket/Repository.antt =====
-- backend/internal/ticket/repository.go.
use event_portal.Base.{ℕ, Text, ltb, if◌then◌else◌, Bool, List}
use event_portal.Errors.{Error, errorf, sentinel, Sentinel, errors_is, is_unique_violation}
use event_portal.Store.{Uuid, Ticket, TicketStatus}
use event_portal.Effect.{Env, M, map_error, pure, ◌>>=◌, ◌>>◌}
use event_portal.Ticket.Sql
use event_portal.Ticket.Sql.{TicketDetail}

abbrev pub no_rows_as : Sentinel → Error → Error
no_rows_as s x = if errors_is x Sentinel.no_rows then sentinel s else errorf x

abbrev pub taken_as : Sentinel → Error → Error
taken_as s x = if is_unique_violation x then sentinel s else errorf x

module _ (e : Env) where
  unfoldable pub create_ticket : Text → Uuid → Uuid → M (Unit {0})
  create_ticket code o a = do
    map_error (taken_as Sentinel.code_taken) (Sql.create_ticket e code o a)
    pure tt

  unfoldable pub get_detail_by_code : Text → M TicketDetail
  get_detail_by_code c =
      map_error (no_rows_as Sentinel.ticket_not_found) (Sql.get_ticket_detail_by_code e c)

  unfoldable pub get_status_by_code : Text → M TicketStatus
  get_status_by_code c =
      map_error (no_rows_as Sentinel.ticket_not_found) (Sql.get_ticket_status_by_code e c)

  unfoldable pub mark_used : Text → M Bool
  mark_used c = do affected ← map_error errorf (Sql.mark_ticket_used e c); pure (ltb 0 affected)

  unfoldable pub list_by_order_id : Uuid → M (List Ticket)
  list_by_order_id o = map_error errorf (Sql.list_tickets_by_order_id e o)

  unfoldable pub list_details_by_order_id : Uuid → M (List TicketDetail)
  list_details_by_order_id o = map_error errorf (Sql.list_ticket_details_by_order_id e o)

  unfoldable pub count_by_order_id : Uuid → M ℕ
  count_by_order_id o = map_error errorf (Sql.count_tickets_by_order_id e o)
