-- ===== src/Scenarios/Admin.antt =====
-- The theorems about the event admin, the catalogue and the quota contract, on the shop.
use event_portal.Base.{
  ◌+◌, pos, ◌-ℤ◌, codes, true, false, none, some, [], map, find, exists, arith, ◌≡◌, ◌⊎◌, ◌↔◌, refl,
}
use event_portal.Errors.{not_found_error, Code}
use event_portal.Store.{OrderStatus}
use event_portal.Effect.{World, ok}
use event_portal.Effect.Outcome.{OutcomeAt}
use event_portal.Seats.{IsSound}
use event_portal.Event.Service as EventService
use event_portal.Event.Quota.{with_stored}
use event_portal.Event.Grants.{check_and_deduct_quota_grants}
use event_portal.Event.Admin.Request.{EventRequest, TicketTypeRequest}
use event_portal.Event.Admin.Slug.{matches_slug_pattern, IsSlug, matches_slug_pattern-IsSlug}
use event_portal.Event.Admin.Sql.{replace_ticket_type, event_id, refers}
use event_portal.Event.Admin.Service
use event_portal.Event.Admin.Service.{to_ticket_type_params}
use event_portal.Event.Admin.Restrict.{
  Placed, down, at_event, has_event, without_event_rows, EventKept,
}
use event_portal.Event.Admin.Delete.{delete_event_guarded}
use event_portal.Event.Admin.Sold.{sold_view, listed, get_event_detail_lem}
use event_portal.Event.Admin.Seats.{requoted, UpdateFailed, update_ticket_type-IsSound}
use event_portal.Event.Catalog.Service as Catalog
use event_portal.Event.Catalog.Hidden.{hide, catalogue_blind}
use event_portal.Adapters.{order_checker}
use event_portal.Scenarios.{calm, shop, at_start, regular}
use event_portal.Scenarios.Witnesses.{shop-IsSound}

abbrev start : World
start = at_start (shop OrderStatus.pending [])

abbrev festival : EventRequest
festival = record {
  name = codes "Festival";
  slug = codes "summer-festival";
  description = none;
  venue = codes "Park";
  address = codes "2 Park Lane";
  start_date = 63271900000000000000;
  end_date = 63271990000000000000;
  banner_url = none;
  status = codes "DRAFT";
}

abbrev twelve : TicketTypeRequest
twelve = record {
  event_id = 5;
  name = codes "Regular";
  price = pos 2500;
  quota = pos 12;
  sales_start = 63271800000000000000;
  sales_end = 63271890000000000000;
}

shop-Placed : Placed start.db
unfolding exists
shop-Placed i h = h

delete_event_guarded_example :
    OutcomeAt
      (λ _ d.
        (refers (at_event 5) start.db ≡ false)
        × ((has_event 5 start.db ≡ true) × (d ≡ without_event_rows 5 start.db)))
      (λ x d.
        (EventKept 5 start.db x × (d ≡ start.db))
        ⊎ ((x ≡ down)
            × ((refers (at_event 5) start.db ≡ false) × (d ≡ without_event_rows 5 start.db))))
      (Service.delete_event calm (some (order_checker calm)) 5 start)
delete_event_guarded_example = delete_event_guarded calm 5 start shop-Placed

matches_slug_pattern-IsSlug_example :
    (matches_slug_pattern (codes "summer-festival") ≡ true) ↔ IsSlug (codes "summer-festival")
matches_slug_pattern-IsSlug_example = matches_slug_pattern-IsSlug (codes "summer-festival")

get_event_detail_lem_example :
    OutcomeAt
      (λ detail d.
        ((find event_id 5 start.db.events ≡ some detail.event)
          × (detail.ticket_types ≡ map (sold_view start.db.order_items) (listed 5 start.db)))
        × (d ≡ start.db))
      (λ x d.
        ((x ≡ down) ⊎ ((x ≡ not_found_error Code.event_not_found) × (has_event 5 start.db ≡ false)))
        × (d ≡ start.db))
      (Service.get_event_detail calm (some (order_checker calm)) 5 start)
get_event_detail_lem_example = get_event_detail_lem calm 5 start

update_ticket_type-IsSound_example :
    OutcomeAt
      (λ _ d.
        (d ≡ replace_ticket_type 1 (to_ticket_type_params twelve) start.db)
        × IsSound 1 (requoted 1 (pos 12) 1 (pos 10) start.db) d)
      (UpdateFailed 1 twelve 1 (pos 10) start.db)
      (Service.update_ticket_type calm (some (order_checker calm)) 1 twelve start)
update_ticket_type-IsSound_example =
    update_ticket_type-IsSound calm 1 twelve start 1 (pos 10) shop-IsSound

catalogue_blind_example :
    ((Catalog.list_published_events calm (hide start)).0
      ≡ (Catalog.list_published_events calm start).0)
    × ((Catalog.get_published_event_by_slug calm (codes "concert") (hide start)).0
        ≡ (Catalog.get_published_event_by_slug calm (codes "concert") start).0)
catalogue_blind_example = catalogue_blind calm (codes "concert") start

check_and_deduct_quota_grants_example :
    EventService.check_and_deduct_quota calm 1 (pos 3) start
    ≡ (ok tt, record start { db = with_stored 1 (pos 8 -ℤ pos 3) start.db; tick = start.tick + 1 })
unfolding find
check_and_deduct_quota_grants_example =
    check_and_deduct_quota_grants calm 1 (pos 3) start (regular (pos 8)) refl refl refl
      (omega arith) refl
