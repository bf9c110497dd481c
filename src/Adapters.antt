-- ===== src/Adapters.antt =====
-- backend/cmd/api/adapters.go: one domain's operations as another's contract. The adapter of the
-- payment gateway, and the wiring of the fulfilment steps (cmd/api/main.go), are here too.
pub mod Laws
use event_portal.Base.{ℕ, ℤ, Text, if◌then◌else◌, Bool, List, map, none, some}
use event_portal.Errors.{Error, not_found_error, Code, sentinel, Sentinel, errors_is}
use event_portal.Store.{Uuid, Time, Order, OrderItem, OrderStatus, TicketType}
use event_portal.Effect.{Env, Result, ok, err, M, map_error, pure, ◌>>=◌}
use event_portal.Order.Repository.{ExpiryCandidate}
use event_portal.Order.Repository as OrderRepository
use event_portal.Order.Provider.{
  TicketTypeInfo, EventProvider, PaymentItem, PaymentRequest, PaymentSession, PaymentGateway,
}
use event_portal.Payment.Gateway
use event_portal.Payment.Gateway.{OrderRef, LineItem, OrderProvider, QuotaRestorer, Fulfillment}
use event_portal.Event.Service as EventService
use event_portal.Event.Admin.Service as EventAdmin
use event_portal.Event.Admin.Service.{OrderChecker}
use event_portal.Event.Admin.Sql as EventAdminSql
use event_portal.Order.Lookup
use event_portal.Ticket.Service as TicketService
use event_portal.Ticket.Sql as TicketSql
use event_portal.Ticket.Repository as TicketRepository
use event_portal.Notification.Service as Notification
use event_portal.Notification.Service.{OrderDelivery}

abbrev pub info_of : TicketType → TicketTypeInfo
info_of t = record {
  id = t.id;
  event_id = t.event_id;
  name = t.name;
  price = t.price;
  sales_start = t.sales_start;
  sales_end = t.sales_end;
}

abbrev pub as_order_error : Error → Error
as_order_error x =
    if errors_is x Sentinel.event_insufficient_quota
    then sentinel Sentinel.order_insufficient_quota
    else x

abbrev pub as_payment_error : Error → Error
as_payment_error x =
    if errors_is x Sentinel.order_not_found then sentinel Sentinel.payment_order_not_found else x

abbrev pub ref_of_order : Order → OrderRef
ref_of_order o = record {
  id = o.id;
  order_number = o.order_number;
  status = o.status;
  payment_expires_at = o.payment_expires_at;
}

abbrev pub ref_of_candidate : ExpiryCandidate → OrderRef
ref_of_candidate c = record {
  id = c.id;
  order_number = c.order_number;
  status = c.status;
  payment_expires_at = c.payment_expires_at;
}

abbrev pub line_item : OrderItem → LineItem
line_item i = record { ticket_type_id = i.ticket_type_id; quantity = i.quantity }

abbrev transaction_item : PaymentItem → Gateway.TransactionItem
transaction_item i = record { id = i.id; name = i.name; price = i.price; quantity = i.quantity }

abbrev transaction_request : PaymentRequest → Gateway.TransactionRequest
transaction_request r = record {
  order_number = r.order_number;
  gross_amount = r.gross_amount;
  customer_name = r.customer_name;
  customer_email = r.customer_email;
  customer_phone = r.customer_phone;
  items = map transaction_item r.items;
}

abbrev session_of : Result Gateway.PaymentSession → Result PaymentSession
session_of (err x) = err x
session_of (ok s) = ok (record {
  provider_ref = s.provider_ref;
  qr_string = s.qr_string;
  qr_image_url = s.qr_image_url;
  expires_at = s.expires_at;
  redirect_url = s.redirect_url;
})

-- gatewayAdapter
abbrev pub payment_gateway : Gateway.Gateway → PaymentGateway
payment_gateway g = record {
  name = g.name;
  create_transaction = λ r n. session_of (g.create_transaction (transaction_request r) n);
}

abbrev pub delivery_of : Order → OrderDelivery
delivery_of o = record {
  id = o.id;
  order_number = o.order_number;
  buyer_name = o.buyer_name;
  buyer_email = o.buyer_email;
  status = o.status;
}

abbrev pub detail_of : TicketSql.TicketDetail → Notification.TicketDetail
detail_of t = record {
  ticket_code = t.ticket_code;
  attendee_name = t.attendee_name;
  ticket_type_name = t.ticket_type_name;
  event_name = t.event_name;
  venue = t.venue;
  start_date = t.start_date;
}

abbrev pub display_of : EventAdminSql.TicketTypeDisplay → Lookup.TicketTypeDisplay
display_of t = record {
  ticket_type_id = t.id;
  ticket_type_name = t.name;
  event_name = t.event_name;
  event_slug = t.event_slug;
}

abbrev pub name_of : EventAdminSql.TicketTypeName → Lookup.TicketTypeName
name_of t = record { ticket_type_id = t.id; name = t.name }

module _ (e : Env) where
  unfoldable pub ticket_type_for_checkout : Uuid → M TicketTypeInfo
  ticket_type_for_checkout i =
      EventService.get_ticket_type_for_checkout e i >>= λ row. pure (info_of row)

  unfoldable pub check_and_deduct_quota : Uuid → ℤ → M (Unit {0})
  check_and_deduct_quota i qty =
      map_error as_order_error (EventService.check_and_deduct_quota e i qty)

  -- eventProviderAdapter
  abbrev pub event_provider : EventProvider
  event_provider = record {
    ticket_type_for_checkout = ticket_type_for_checkout;
    check_and_deduct_quota = check_and_deduct_quota;
    restore_quota = EventService.restore_quota e;
  }

  unfoldable pub order_by_number : Text → M OrderRef
  order_by_number n =
      map_error as_payment_error (OrderRepository.get_order_by_number e n) >>= λ rec.
      pure (ref_of_order rec)

  unfoldable pub due_for_expiry : Time → ℕ → M (List OrderRef)
  due_for_expiry at limit = OrderRepository.list_orders_due_for_expiry e at limit >>= λ candidates.
      pure (map ref_of_candidate candidates)

  unfoldable pub line_items : Uuid → M (List LineItem)
  line_items o =
      OrderRepository.list_order_items_by_order_id e o >>= λ items. pure (map line_item items)

  -- paymentOrderAdapter
  abbrev pub order_provider : OrderProvider
  order_provider = record {
    order_by_number = order_by_number;
    line_items = line_items;
    update_status_if_pending = OrderRepository.update_order_status_if_pending e;
    due_for_expiry = due_for_expiry;
  }

  -- The event service is the payment domain's QuotaRestorer as it stands.
  abbrev pub quota_restorer : QuotaRestorer
  quota_restorer = record { restore_quota = EventService.restore_quota e }

  -- The ticket service issues the tickets; `send` is the notification service's SendTicketEmail.
  abbrev pub fulfillment : (Uuid → M (Unit {0})) → Fulfillment
  fulfillment send = record {
    issue_tickets_for_order =
        TicketService.issue_tickets_for_order e (OrderRepository.attendee_ids_for_order e);
    send_ticket_email = send;
  }

  -- The order repository is the event domain's OrderChecker as it stands.
  abbrev pub order_checker : OrderChecker
  order_checker = record {
    has_orders_for_ticket_type = OrderRepository.has_orders_for_ticket_type e;
    has_orders_for_ticket_types = OrderRepository.has_orders_for_ticket_types e;
    sold_count_by_ticket_type = OrderRepository.sold_count_by_ticket_type e;
  }

  abbrev missing_order : Error → Error
  missing_order x =
      if errors_is x Sentinel.order_not_found then not_found_error Code.order_not_found else x

  unfoldable pub order_for_delivery : Uuid → M OrderDelivery
  order_for_delivery i = map_error missing_order (OrderRepository.get_order_by_id e i) >>= λ rec.
      pure (delivery_of rec)

  -- notificationOrderAdapter
  abbrev pub delivery_orders : Notification.OrderProvider
  delivery_orders = record {
    order_for_delivery = order_for_delivery;
    mark_email_sent = OrderRepository.set_email_sent e;
  }

  unfoldable pub ticket_details_for_order : Uuid → M (List Notification.TicketDetail)
  ticket_details_for_order i =
      TicketRepository.list_details_by_order_id e i >>= λ details. pure (map detail_of details)

  -- notificationTicketAdapter
  abbrev pub delivery_tickets : Notification.TicketProvider
  delivery_tickets = record { ticket_details_for_order = ticket_details_for_order }

  -- SendTicketEmail as main.go wires it.
  unfoldable pub send_ticket_email : Notification.Mailer → Uuid → M (Unit {0})
  send_ticket_email mailer i =
      Notification.send_ticket_email e delivery_orders delivery_tickets mailer i

  unfoldable pub ticket_type_displays : List Uuid → M (List Lookup.TicketTypeDisplay)
  ticket_type_displays ids =
      EventAdmin.ticket_type_displays e ids >>= λ rows. pure (map display_of rows)

  unfoldable pub ticket_type_names : List Uuid → M (List Lookup.TicketTypeName)
  ticket_type_names ids = EventAdmin.ticket_type_names e ids >>= λ rows. pure (map name_of rows)

  -- orderEventLookupAdapter
  abbrev pub event_lookup : Lookup.EventLookup
  event_lookup = record {
    ticket_type_names = ticket_type_names;
    ticket_type_ids_for_event = EventAdmin.ticket_type_ids_for_event e;
    ticket_type_displays = ticket_type_displays;
  }
