-- ===== src/Event/Repository.antt =====
-- backend/internal/event/repository.go: errors of the driver become the domain's.
use event_portal.Base.{ℤ, if◌then◌else◌}
use event_portal.Errors.{Error, errorf, sentinel, Sentinel, errors_is}
use event_portal.Store.{Uuid, TicketType}
use event_portal.Effect.{Env, M, map_error, pure, ◌>>◌}
use event_portal.Event.Sql

-- `if errors.Is(err, pgx.ErrNoRows) { return s }; return fmt.Errorf("…: %w", err)`
abbrev pub no_rows_as : Sentinel → Error → Error
no_rows_as s x = if errors_is x Sentinel.no_rows then sentinel s else errorf x

module _ (e : Env) where
  unfoldable pub get_ticket_type_by_id : Uuid → M TicketType
  get_ticket_type_by_id i =
      map_error (no_rows_as Sentinel.event_not_found) (Sql.get_ticket_type_by_id e i)

  unfoldable pub check_and_deduct_quota : Uuid → ℤ → M (Unit {0})
  check_and_deduct_quota i qty = do
    map_error (no_rows_as Sentinel.event_insufficient_quota) (Sql.check_and_deduct_quota e qty i)
    pure tt

  unfoldable pub restore_quota : Uuid → ℤ → M (Unit {0})
  restore_quota i qty = do
    map_error (no_rows_as Sentinel.event_not_found) (Sql.restore_quota e qty i)
    pure tt
