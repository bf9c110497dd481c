-- ===== src/Event/Service.antt =====
-- backend/internal/event/service.go: the quota contract.
use event_portal.Base.{ℤ, if◌then◌else◌}
use event_portal.Errors.{Error, bad_request, Code, Sentinel, errors_is}
use event_portal.Store.{Uuid, TicketType}
use event_portal.Effect.{Env, M, map_error}
use event_portal.Event.Repository

abbrev pub missing_ticket_type : Error → Error
missing_ticket_type x =
    if errors_is x Sentinel.event_not_found then bad_request Code.ticket_type_not_found else x

module _ (e : Env) where
  unfoldable pub check_and_deduct_quota : Uuid → ℤ → M (Unit {0})
  check_and_deduct_quota i qty = Repository.check_and_deduct_quota e i qty

  unfoldable pub restore_quota : Uuid → ℤ → M (Unit {0})
  restore_quota i qty = Repository.restore_quota e i qty

  unfoldable pub get_ticket_type_for_checkout : Uuid → M TicketType
  get_ticket_type_for_checkout i =
      map_error missing_ticket_type (Repository.get_ticket_type_by_id e i)
