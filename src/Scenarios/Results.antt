-- ===== src/Scenarios/Results.antt =====
-- The theorems about what a call returns, on the shop.
use event_portal.Base.{
  times, ltb, true, false, ◌≤◌, pos, arith, codes, [], ◌∷◌, ◌≡◌, ◌≢◌, ◌⊎◌, ◌↔◌, refl, length, map,
  select, Each, some, find, exists,
}
use event_portal.Store.{OrderStatus, Uuid}
use event_portal.Effect.{ok}
use event_portal.Event.Service as EventService
use event_portal.Event.Quota.{
  Taken, check_and_deduct_quota_lem, restore_quota-check_and_deduct_quota,
}
use event_portal.Order.Checkout.{payment_request_for}
use event_portal.Order.Sql.{order_id}
use event_portal.Order.LineSums.{item_total}
use event_portal.Order.Amounts.{rows_total}
use event_portal.Order.Totals.{payment_request_for-reserve}
use event_portal.Order.Request.Laws.{IsAccepted, validate-IsAccepted}
use event_portal.Order.Expiry.{IsDue, AllListed, list_orders_due_for_expiry-IsDue}
use event_portal.Payment.Status.{map_provider_status, normalize}
use event_portal.Payment.Status.Laws.{
  Balanced, map_provider_status_paid, map_provider_status-Balanced,
}
use event_portal.Ticket.Code.{normalize_code, code_length}
use event_portal.Ticket.Code.Laws.{normalize_code-generate_code}
use event_portal.Ticket.Service.{mark_used, generate_for_order}
use event_portal.Ticket.Door.{mark_used_once}
use event_portal.Ticket.Issue.{listed, generate_for_order_one_each, generate_for_order_again}
use event_portal.Adapters.{order_provider, quota_restorer}
use event_portal.Base.{times, ltb, true, trim_space, upper}
use event_portal.Effect.Laws.{EndsAt}
use event_portal.Payment.Service.{apply_outcome, expired_outcome}
use event_portal.Payment.Once.{apply_outcome_once}
use event_portal.Scenarios.{ref, calm, shop, at_start, request, ticket}
use event_portal.Scenarios.Runs.{
  expire_run, reserve_run, mark_used_run, generate_run, code_run, due_run, deduct_run, restore_run,
  request_valid,
}

payment_request_for-reserve_example :
    (find order_id reserve_run.0.created.id reserve_run.1.0.db.orders ≡ some reserve_run.0.created)
    × ((reserve_run.0.created.status ≡ OrderStatus.pending)
        × ((rows_total reserve_run.0.created.id reserve_run.1.0.db.order_items
              ≡ reserve_run.0.created.total_amount)
            × (((payment_request_for reserve_run.0 request).gross_amount
                  ≡ reserve_run.0.created.total_amount)
                × (item_total (payment_request_for reserve_run.0 request).items
                    ≡ reserve_run.0.created.total_amount))))
unfolding exists
payment_request_for-reserve_example =
    payment_request_for-reserve calm request (at_start (shop OrderStatus.pending []))
      reserve_run.1.0 reserve_run.0 (refl, tt) reserve_run.1.1

validate-IsAccepted_example : IsAccepted calm.parse_address request
validate-IsAccepted_example =
    validate-IsAccepted calm.parse_address request (omega arith) request_valid

mark_used_once_example :
    mark_used calm (codes " abcdefgh23 ") mark_used_run.1.0
    ≢ (ok mark_used_run.0, mark_used_run.1.0)
unfolding normalize_code trim_space upper
mark_used_once_example =
    mark_used_once calm calm (codes "ABCDEFGH23") (codes " abcdefgh23 ")
      (at_start (shop OrderStatus.paid (ticket ∷ []))) mark_used_run.1.0 mark_used_run.1.0
      mark_used_run.0 mark_used_run.0 refl mark_used_run.1.1

generate_for_order_one_each_example :
    ((a : Uuid) → times a (map (λ t. t.attendee_id) generate_run.0) ≡ times a (9 ∷ []))
    × (generate_run.0 ≡ listed calm 7 generate_run.1.0.db)
unfolding select
generate_for_order_one_each_example =
    generate_for_order_one_each calm 7 (9 ∷ []) (at_start (shop OrderStatus.paid []))
      generate_run.1.0 generate_run.0 refl generate_run.1.1

generate_for_order_again_example :
    (generate_for_order calm 7 (9 ∷ []) (at_start (shop OrderStatus.paid (ticket ∷ [])))).1.db
    ≡ shop OrderStatus.paid (ticket ∷ [])
unfolding select
generate_for_order_again_example =
    generate_for_order_again calm 7 (9 ∷ []) (at_start (shop OrderStatus.paid (ticket ∷ []))) refl

check_and_deduct_quota_lem_example :
    EndsAt
      (λ _ d. Taken 1 (pos 3) (shop OrderStatus.paid []) d)
      (λ d. d ≡ shop OrderStatus.paid [])
      (EventService.check_and_deduct_quota calm 1 (pos 3) (at_start (shop OrderStatus.paid [])))
check_and_deduct_quota_lem_example =
    check_and_deduct_quota_lem 1 (pos 3) calm (at_start (shop OrderStatus.paid []))

restore_quota-check_and_deduct_quota_example : restore_run.1.0.db ≡ shop OrderStatus.paid []
restore_quota-check_and_deduct_quota_example =
    restore_quota-check_and_deduct_quota 1 (pos 3) calm calm (at_start (shop OrderStatus.paid []))
      deduct_run.1.0 restore_run.1.0 deduct_run.1.1 restore_run.1.1

map_provider_status_paid_example :
    ((map_provider_status (λ c. c) (codes " Capture ") (codes "ACCEPT")).order_status
      ≡ some OrderStatus.paid)
    ↔ ((normalize (λ c. c) (codes " Capture ") ≡ codes "settlement")
        ⊎ ((normalize (λ c. c) (codes " Capture ") ≡ codes "capture")
            × (normalize (λ c. c) (codes "ACCEPT") ≡ codes "accept")))
map_provider_status_paid_example =
    map_provider_status_paid (λ c. c) (codes " Capture ") (codes "ACCEPT")

map_provider_status-Balanced_example : Balanced (map_provider_status (λ c. c) (codes "expire") [])
map_provider_status-Balanced_example = map_provider_status-Balanced (λ c. c) (codes "expire") []

list_orders_due_for_expiry-IsDue_example :
    Each (IsDue 63271811045000000000) due_run.0
    × ((length due_run.0 ≤ 100)
        × (ltb (length due_run.0) 100 ≡ true
            → AllListed 63271811045000000000 (shop OrderStatus.pending []).orders due_run.0))
list_orders_due_for_expiry-IsDue_example =
    list_orders_due_for_expiry-IsDue calm 63271811045000000000 100
      (at_start (shop OrderStatus.pending [])) due_run.1.0 due_run.0 due_run.1.1

normalize_code-generate_code_example :
    (normalize_code (λ c. c) code_run.0 ≡ code_run.0) × (length code_run.0 ≡ code_length)
normalize_code-generate_code_example =
    normalize_code-generate_code (λ c. c) calm (at_start (shop OrderStatus.paid [])) code_run.1.0
      code_run.0 code_run.1.1

apply_outcome_once_example :
    EndsAt
      (λ applied d. (d ≡ expire_run.1.0.db) × (applied ≡ false))
      (λ d. d ≡ expire_run.1.0.db)
      (apply_outcome calm
        (order_provider calm)
        (quota_restorer calm)
        ref
        expired_outcome
        expire_run.1.0)
apply_outcome_once_example =
    apply_outcome_once calm calm ref ref expired_outcome expired_outcome OrderStatus.expired
      (at_start (shop OrderStatus.pending [])) expire_run.1.0 expire_run.1.0 refl refl refl
      expire_run.1.1 refl
