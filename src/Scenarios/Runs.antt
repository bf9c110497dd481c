-- ===== src/Scenarios/Runs.antt =====
-- Calls that return on the shop, with what they return.
use event_portal.Base.{
  sort_with, pos, codes, [], ◌∷◌, ◌≡◌, refl, select, wrap32, none, find, exists, update, text_eq,
  trim_space, upper, sort_by, ◌*ℤ◌, ◌+ℤ◌, ◌-ℤ◌,
}
use event_portal.Store.{OrderStatus}
use event_portal.Effect.{
  World, Result, ok, ◌>>=◌, ◌>>◌, handle, now, map_error, in_tx, query_row, query, statement, pure,
  throw, commit,
}
use event_portal.Event.Service as EventService
use event_portal.Event.Repository as EventRepository
use event_portal.Event.Sql as EventSql
use event_portal.Order.Sql as OrderSql
use event_portal.Ticket.Sql as TicketSql
use event_portal.Ticket.Repository as TicketRepository
use event_portal.Randcode.{new_code, draw_symbol, draw_symbols}
use event_portal.Order.Checkout.{
  reserve, create_attendees, create_items, reserve_attempts, reserve_items, reserve_once,
  reserve_tx,
}
use event_portal.Order.Request.{validate, got}
use event_portal.Order.Number.{generate_order_number, format_date}
use event_portal.Order.Repository as OrderRepository
use event_portal.Order.Repository.{ExpiryCandidate}
use event_portal.Ticket.Code.{generate_code}
use event_portal.Ticket.Sql.{of_order}
use event_portal.Ticket.Service.{mark_used, generate_for_order}
use event_portal.Adapters.{event_provider, ticket_type_for_checkout, check_and_deduct_quota}
use event_portal.Payment.Service.{apply_outcome, expired_outcome, outcome_tx, restore_items}
use event_portal.Adapters.{order_provider, quota_restorer, line_items}
use event_portal.Base.{Bool, true}
use event_portal.Scenarios.{ref, calm, shop, at_start, request, ticket}

-- A call that returned: its value, the state after it, and the run.
abbrev pub Returned : {A : Type 0} → Result A × World → Type 0
Returned {A} r = (a : A) × ((w : World) × (r ≡ (ok a, w)))

pub reserve_run :
    Returned (reserve calm (event_provider calm) request (at_start (shop OrderStatus.pending [])))
unfolding reserve ◌>>=◌ handle now generate_order_number map_error new_code in_tx
    ticket_type_for_checkout EventService.get_ticket_type_for_checkout
    EventRepository.get_ticket_type_by_id EventSql.get_ticket_type_by_id query_row find ◌>>◌
    check_and_deduct_quota ◌*ℤ◌ ◌+ℤ◌ ◌-ℤ◌ text_eq exists update commit pure statement throw
    EventRepository.check_and_deduct_quota EventService.check_and_deduct_quota
    EventSql.check_and_deduct_quota EventSql.deduct_row EventSql.store_quota create_attendees
    create_items reserve_attempts reserve_items reserve_once reserve_tx format_date
    OrderRepository.create_attendee OrderRepository.create_order OrderRepository.create_order_item
    OrderSql.create_attendee OrderSql.create_order OrderSql.create_order_item
    OrderSql.insert_attendee OrderSql.insert_item OrderSql.insert_order OrderSql.references
    draw_symbol draw_symbols
reserve_run = (_, (_, refl))

pub mark_used_run :
    Returned (mark_used calm (codes "ABCDEFGH23") (at_start (shop OrderStatus.paid (ticket ∷ []))))
unfolding mark_used ◌>>=◌ TicketRepository.mark_used map_error TicketSql.mark_ticket_used statement
    text_eq trim_space upper
mark_used_run = (_, (_, refl))

pub generate_run :
    Returned (generate_for_order calm 7 (9 ∷ []) (at_start (shop OrderStatus.paid [])))
unfolding generate_for_order ◌>>=◌ TicketRepository.list_by_order_id map_error
    TicketSql.list_tickets_by_order_id query select sort_with in_tx ◌>>◌ generate_code new_code
    TicketRepository.create_ticket TicketSql.create_ticket exists
generate_run = (_, (_, refl))

pub code_run : Returned (generate_code calm (at_start (shop OrderStatus.paid [])))
unfolding generate_code ◌>>=◌ map_error new_code
code_run = (_, (_, refl))

pub due_run : Returned (
    OrderRepository.list_orders_due_for_expiry calm 63271811045000000000 100
      (at_start (shop OrderStatus.pending [])))
unfolding OrderRepository.list_orders_due_for_expiry ◌>>=◌ map_error
    OrderSql.list_orders_due_for_expiry query select sort_by
due_run = (_, (_, refl))

pub deduct_run :
    Returned
      (EventService.check_and_deduct_quota calm 1 (pos 3) (at_start (shop OrderStatus.paid [])))
unfolding EventService.check_and_deduct_quota EventRepository.check_and_deduct_quota
    EventSql.check_and_deduct_quota ◌>>◌ map_error statement find update ◌-ℤ◌
deduct_run = (_, (_, refl))

pub restore_run : Returned (EventService.restore_quota calm 1 (pos 3) deduct_run.1.0)
unfolding deduct_run EventService.restore_quota EventRepository.restore_quota EventSql.restore_quota
    ◌>>◌ map_error statement find update ◌+ℤ◌
restore_run = (_, (_, refl))

pub request_valid : validate calm.parse_address request ≡ none
unfolding validate trim_space exists wrap32 ◌+ℤ◌ got
request_valid = refl

abbrev pub Applied : Result Bool × World → Type 0
Applied r = Unit {0} × ((w : World) × (r ≡ (ok true, w)))

pub expire_run : Applied (
    apply_outcome calm
      (order_provider calm)
      (quota_restorer calm)
      ref
      expired_outcome
      (at_start (shop OrderStatus.pending [])))
unfolding apply_outcome in_tx ◌>>=◌ OrderRepository.update_order_status_if_pending map_error
    OrderSql.update_order_status_if_pending statement find ◌>>◌ line_items
    OrderRepository.list_order_items_by_order_id OrderSql.list_order_items_by_order_id query select
    EventService.restore_quota EventRepository.restore_quota EventSql.restore_quota ◌+ℤ◌ update
    commit handle pure throw EventSql.restore_row EventSql.store_quota OrderSql.update_pending
    outcome_tx restore_items
expire_run = (tt, (_, refl))
