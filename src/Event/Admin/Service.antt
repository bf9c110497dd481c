-- ===== src/Event/Admin/Service.antt =====
-- backend/internal/event/admin_service.go, over the order domain's checks
-- (backend/internal/event/order_checker.go).
use event_portal.Base.{
  ℤ, pos, ◌==◌, if◌then◌else◌, Bool, Option, none, some, List, [], ◌∷◌, map, length,
}
use event_portal.Errors.{Error, plain, bad_request, not_found_error, Code, Sentinel, errors_is}
use event_portal.Store.{Uuid, Event, TicketType}
use event_portal.Effect.{Env, M, map_error, pure, throw, in_tx, ◌>>=◌, ◌>>◌}
use event_portal.Order.Sql.{SoldCount}
use event_portal.Event.Admin.Request.{
  EventRequest, TicketTypeRequest, TicketTypeAdminView, EventAdminDetail, validate_event,
  validate_ticket_type,
}
use event_portal.Event.Admin.Sql.{EventParams, TicketTypeParams, TicketTypeName, TicketTypeDisplay}
use event_portal.Event.Admin.Repository

-- What the event domain needs of the order domain.
pub record OrderChecker : Type 0 where
  pub has_orders_for_ticket_type : Uuid → M Bool
  pub has_orders_for_ticket_types : List Uuid → M Bool
  pub sold_count_by_ticket_type : List Uuid → M (List SoldCount)

abbrev pub to_event_params : EventRequest → EventParams
to_event_params r = record {
  name = r.name;
  slug = r.slug;
  description = r.description;
  venue = r.venue;
  address = r.address;
  start_date = r.start_date;
  end_date = r.end_date;
  banner_url = r.banner_url;
  status = r.status;
}

abbrev pub to_ticket_type_params : TicketTypeRequest → TicketTypeParams
to_ticket_type_params r = record {
  event_id = r.event_id;
  name = r.name;
  price = r.price;
  quota = r.quota;
  sales_start = r.sales_start;
  sales_end = r.sales_end;
}

abbrev pub to_ticket_type_view : ℤ → TicketType → TicketTypeAdminView
to_ticket_type_view sold t = record {
  id = t.id;
  event_id = t.event_id;
  name = t.name;
  price = t.price;
  quota = t.quota;
  sold = sold;
  sales_start = t.sales_start;
  sales_end = t.sales_end;
}

-- `sold[row.ID]`, where a missing key is zero
unfoldable pub count_of : Uuid → List SoldCount → ℤ
count_of i [] = pos 0
count_of i (r ∷ rs) = if r.ticket_type_id == i then r.sold else count_of i rs

unfoldable pub to_views : List SoldCount → List TicketType → List TicketTypeAdminView
unfolding count_of
to_views counts [] = []
to_views counts (t ∷ ts) = to_ticket_type_view (count_of t.id counts) t ∷ to_views counts ts

abbrev pub slug_taken_error : Error → Error
slug_taken_error x = if errors_is x Sentinel.slug_taken then bad_request Code.slug_not_unique else x

abbrev pub missing : Code → Error → Error
missing c x = if errors_is x Sentinel.event_not_found then not_found_error c else x

abbrev pub missing_or_taken : Error → Error
missing_or_taken x =
    if errors_is x Sentinel.slug_taken
    then bad_request Code.slug_not_unique
    else missing Code.event_not_found x

abbrev pub unknown_event : Error → Error
unknown_event x =
    if errors_is x Sentinel.event_not_found then bad_request Code.event_not_found else x

-- `if err := req.Validate(); err != nil { return err }`
abbrev pub checked : {A : Type 0} → Option Error → M A → M A
checked none m = m
checked (some x) m = throw x

-- `if !found { return apperr.NotFound(…) }`
abbrev pub if_found : Code → Bool → M (Unit {0})
if_found c found = if found then pure tt else throw (not_found_error c)

module _ (e : Env) where
  unfoldable pub list_events : M (List Event)
  list_events = Repository.list_events e

  unfoldable pub create_event : EventRequest → M Event
  create_event r =
      checked (validate_event r)
        (map_error slug_taken_error (Repository.create_event e (to_event_params r)))

  unfoldable pub update_event : Uuid → EventRequest → M Event
  update_event i r =
      checked (validate_event r)
        (map_error missing_or_taken (Repository.update_event e i (to_event_params r)))

  unfoldable pub ticket_type_names : List Uuid → M (List TicketTypeName)
  ticket_type_names ids = Repository.ticket_type_names_by_ids e ids

  unfoldable pub ticket_type_displays : List Uuid → M (List TicketTypeDisplay)
  ticket_type_displays ids = Repository.ticket_type_displays_by_ids e ids

  unfoldable pub ticket_type_ids_for_event : Uuid → M (List Uuid)
  ticket_type_ids_for_event i = Repository.list_ticket_type_ids_by_event_id e i

  unfoldable pub create_ticket_type : TicketTypeRequest → M TicketTypeAdminView
  create_ticket_type r = checked (validate_ticket_type Bool.true r) do
    map_error unknown_event (Repository.get_event_by_id e r.event_id)
    created ← Repository.create_ticket_type e (to_ticket_type_params r)
    pure (to_ticket_type_view (pos 0) created)

  -- The body of DeleteEvent's transaction: whether the event was there.
  unfoldable pub delete_event_tx : OrderChecker → Uuid → M Bool
  delete_event_tx orders i = do
    ids ← Repository.list_ticket_type_ids_by_event_id e i
    ordered ← orders.has_orders_for_ticket_types ids
    (if ordered
        then throw (bad_request Code.event_has_orders)
        else Repository.delete_ticket_types_by_event_id e i >> Repository.delete_event e i)

  -- The body of DeleteTicketType's transaction.
  unfoldable pub delete_ticket_type_tx : OrderChecker → Uuid → M Bool
  delete_ticket_type_tx orders i = do
    ordered ← orders.has_orders_for_ticket_type i
    (if ordered
        then throw (bad_request Code.ticket_type_has_orders)
        else Repository.delete_ticket_type e i)

  -- The service may have been built without an order checker.
  module _ (orders : Option OrderChecker) where
    unfoldable pub delete_event : Uuid → M (Unit {0})
    delete_event i = elim orders [
      | none ↦ throw plain
      | some o ↦ in_tx e (delete_event_tx o i) >>= if_found Code.event_not_found
    ]

    unfoldable pub delete_ticket_type : Uuid → M (Unit {0})
    delete_ticket_type i = elim orders [
      | none ↦ throw plain
      | some o ↦ in_tx e (delete_ticket_type_tx o i) >>= if_found Code.ticket_type_not_found
    ]

    unfoldable pub sold_counts : List TicketType → M (List SoldCount)
    sold_counts rows = elim orders [
      | none ↦ pure []
      | some o ↦ o.sold_count_by_ticket_type (map (λ t. t.id) rows)
    ]

    unfoldable pub with_sold_counts : List TicketType → M (List TicketTypeAdminView)
    unfolding to_views
    with_sold_counts rows =
        if length rows == 0 then pure [] else sold_counts rows >>= λ sold. pure (to_views sold rows)

    -- `views[0]` of a single row
    unfoldable pub with_sold_count : TicketType → M TicketTypeAdminView
    unfolding count_of
    with_sold_count row =
        sold_counts (row ∷ []) >>= λ sold. pure (to_ticket_type_view (count_of row.id sold) row)

    unfoldable pub list_ticket_types : Uuid → M (List TicketTypeAdminView)
    list_ticket_types i = do rows ← Repository.list_ticket_types_admin e i; with_sold_counts rows

    unfoldable pub get_event_detail : Uuid → M EventAdminDetail
    get_event_detail i = do
      view ← map_error (missing Code.event_not_found) (Repository.get_event_by_id e i)
      types ← list_ticket_types i
      pure (record { event = view; ticket_types = types })

    unfoldable pub get_ticket_type : Uuid → M TicketTypeAdminView
    get_ticket_type i = do
      row ← map_error (missing Code.ticket_type_not_found) (Repository.get_ticket_type_admin e i)
      with_sold_count row

    unfoldable pub update_ticket_type : Uuid → TicketTypeRequest → M TicketTypeAdminView
    update_ticket_type i r = checked (validate_ticket_type Bool.false r) do
      updated ←
          map_error (missing Code.ticket_type_not_found)
            (Repository.update_ticket_type e i (to_ticket_type_params r))
      with_sold_count updated
