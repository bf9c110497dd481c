-- ===== src/Payment/Progress.antt =====
-- Notifications, reconciliation and the sweep: no order is lost, and none goes back.
use event_portal.Base.{
  ℕ, ◌+◌, Text, ltb, ◌==◌, ◌&&◌, not, if◌then◌else◌, List, [], ◌∷◌, Option, some, none, inl, inr,
  Option-cases, Bool-cases, exists,
}
use event_portal.Errors.{Sentinel, errors_is}
use event_portal.Store.{Db, Uuid, Time, Order, is_pending, is_paid}
use event_portal.Effect.{Env, M}
use event_portal.Effect.Laws.{EndsOn, Ends-weaken}
use event_portal.Effect.Keeps.{
  Keeps, pure-Keeps, throw-Keeps, map_error-Keeps, if-Keeps, >>=-Keeps, >>-Keeps, handle-Keeps,
  now-Keeps, in_tx-Keeps, statement-Keeps, query-Keeps, remote-Keeps,
}
use event_portal.Order.Repository as OrderRepository
use event_portal.Order.Sql as OrderSql
use event_portal.Order.Evolution.{Evolved}
use event_portal.Order.Lifecycle.{restore_quota-Keeps, move-Keeps}
use event_portal.Payment.Status.{Outcome, changes_order, map_provider_status}
use event_portal.Payment.Gateway.{WebhookResult, Gateway, OrderRef, LineItem}
use event_portal.Payment.Repository.{PaymentLog, insert_payment, create_payment}
use event_portal.Payment.Service.{
  restore_items, outcome_tx, apply_outcome, expire_past, expire_if_due, expire_each,
  expire_due_orders, fulfill, apply_provider_result, handle_notification, reconcile, refresh_status,
  expired_outcome, expiry_batch_size, no_record, log_of, is_paid_outcome,
}
use event_portal.Payment.Conservation.{result_cases}
use event_portal.Ticket.Writes.{issue_tickets_for_order-Ends}
use event_portal.Ticket.Service.{issue_tickets_for_order}
use event_portal.Adapters.{order_provider, quota_restorer, fulfillment, order_by_number, line_items}
use event_portal.Adapters.Laws.{order_by_number-Reads, due_for_expiry-Reads, line_items-Ends}

module _ (before : List Order) where
  insert_payment-Evolved :
      (l : PaymentLog) (u : Uuid) (d : Db)
      → Evolved before d
      → EndsOn (λ _. Evolved before) (Evolved before) (insert_payment l u d)
  unfolding insert_payment
  insert_payment-Evolved l u d v = elim (Bool-cases (exists (λ p. p.id == u) d.payments)) [
    | inl dup ↦ rw dup v
    | inr new ↦ elim (Bool-cases (exists (λ o. o.id == l.order_id) d.orders)) [
      | inr dangling ↦ rw (new, dangling) v
      | inl linked ↦ rw (new, linked) v
    ]
  ]

  module _ (e : Env) where
    create_payment-Keeps : (l : PaymentLog) → Keeps (Evolved before) (create_payment e l)
    unfolding create_payment
    create_payment-Keeps l =
        >>-Keeps
          (map_error-Keeps _ (statement-Keeps e _ (λ u _ d v. insert_payment-Evolved l u d v)))
          (pure-Keeps _)

    order_by_number-Keeps : (n : Text) → Keeps (Evolved before) (order_by_number e n)
    order_by_number-Keeps n = record {
      keep = λ w h. order_by_number-Reads e n (Evolved before) w h;
    }

    pub line_items-Keeps : (o : Uuid) → Keeps (Evolved before) (line_items e o)
    line_items-Keeps o = record {
      keep =
          λ w h. Ends-weaken (line_items-Ends e o o (Evolved before) w h) (λ _ _ k. k.0) (λ _ k. k);
    }

    pub restore_items-Keeps :
        (is : List LineItem)
        → Keeps (Evolved before) (restore_items e (order_provider e) (quota_restorer e) is)
    unfolding restore_items
    restore_items-Keeps [] = pure-Keeps _
    restore_items-Keeps (i ∷ is) =
        >>-Keeps (restore_quota-Keeps before e i.ticket_type_id i.quantity) (restore_items-Keeps is)

    outcome_tx-Keeps :
        (ord : OrderRef) (o : Outcome)
        → Keeps (Evolved before) (outcome_tx e (order_provider e) (quota_restorer e) ord o)
    unfolding outcome_tx
    outcome_tx-Keeps ord o = elim (Option-cases o.order_status) [
      | inl unchanged ↦ rw unchanged (pure-Keeps _)
      | inr (s, moves) ↦ rw moves (
          >>=-Keeps (move-Keeps before e ord.id s) λ applied.
            >>-Keeps
              (if-Keeps (applied && o.restore_quota)
                (>>=-Keeps (line_items-Keeps ord.id) restore_items-Keeps) (pure-Keeps _))
              (pure-Keeps _))
    ]

    apply_outcome-Keeps :
        (ord : OrderRef) (o : Outcome)
        → Keeps (Evolved before) (apply_outcome e (order_provider e) (quota_restorer e) ord o)
    unfolding apply_outcome
    apply_outcome-Keeps ord o = in_tx-Keeps e (outcome_tx-Keeps ord o)

    expire_past-Keeps :
        (ord : OrderRef) (deadline : Option Time)
        → Keeps (Evolved before) (expire_past e (order_provider e) (quota_restorer e) ord deadline)
    unfolding expire_past
    expire_past-Keeps ord none = pure-Keeps _
    expire_past-Keeps ord (some deadline) =
        >>=-Keeps (now-Keeps e)
          λ at. if-Keeps (ltb at deadline) (pure-Keeps _) (apply_outcome-Keeps ord expired_outcome)

    expire_if_due-Keeps :
        (ord : OrderRef)
        → Keeps (Evolved before) (expire_if_due e (order_provider e) (quota_restorer e) ord)
    unfolding expire_if_due
    expire_if_due-Keeps ord =
        if-Keeps (is_pending ord.status) (expire_past-Keeps ord ord.payment_expires_at)
          (pure-Keeps _)

    expire_each-Keeps :
        (n : ℕ) (due : List OrderRef)
        → Keeps (Evolved before) (expire_each e (order_provider e) (quota_restorer e) n due)
    unfolding expire_each
    expire_each-Keeps n [] = pure-Keeps _
    expire_each-Keeps n (ord ∷ due) =
        >>=-Keeps (handle-Keeps (expire_if_due-Keeps ord) (λ _. pure-Keeps _) (λ _. pure-Keeps _))
          (λ applied. expire_each-Keeps (if applied then n + 1 else n) due)

    pub expire_due_orders-Keeps :
        Keeps (Evolved before) (expire_due_orders e (order_provider e) (quota_restorer e))
    unfolding expire_due_orders
    expire_due_orders-Keeps = >>=-Keeps (now-Keeps e) λ at.
        >>=-Keeps
          (record {
            keep = λ w h. due_for_expiry-Reads e at expiry_batch_size (Evolved before) w h;
          })
          (λ due. expire_each-Keeps 0 due)

    module _ (send : Uuid → M (Unit {0}))
        (sends : (o : Uuid) → Keeps (Evolved before) (send o)) where
      issue-Keeps :
          (o : Uuid)
          → Keeps
              (Evolved before)
              (issue_tickets_for_order e (OrderRepository.attendee_ids_for_order e) o)
      unfolding OrderRepository.attendee_ids_for_order OrderRepository.list_attendees_by_order_id
          OrderSql.list_attendees_by_order_id
      issue-Keeps o = record {
        keep = λ w h.
            issue_tickets_for_order-Ends (Evolved before) (λ _ _ v. v) e
              (OrderRepository.attendee_ids_for_order e) o w (attendees.keep w h);
      }
        where
          attendees : Keeps (Evolved before) (OrderRepository.attendee_ids_for_order e o)
          attendees = >>=-Keeps (map_error-Keeps _ (query-Keeps e _)) (λ _. pure-Keeps _)

      fulfill-Keeps :
          (ord : OrderRef)
          → Keeps
              (Evolved before)
              (fulfill e (order_provider e) (quota_restorer e) (fulfillment e send) ord)
      unfolding fulfill
      fulfill-Keeps ord =
          handle-Keeps (issue-Keeps ord.id)
            (λ _. handle-Keeps (sends ord.id) (λ _. pure-Keeps _) (λ _. pure-Keeps _))
            (λ _. pure-Keeps _)

      apply_provider_result-Keeps :
          (ord : OrderRef) (provider : Text) (r : WebhookResult)
          → Keeps (Evolved before) (
              apply_provider_result e
                (order_provider e)
                (quota_restorer e)
                (fulfillment e send)
                ord
                provider
                r)
      unfolding apply_provider_result
      apply_provider_result-Keeps ord provider r =
          let o = map_provider_status e.lower_rune r.transaction_status r.fraud_status in
          >>-Keeps (create_payment-Keeps (log_of ord provider r)) (
            if-Keeps (is_paid ord.status) (pure-Keeps _) (
              if-Keeps (not o.handled) (pure-Keeps _) (
                if-Keeps (not (changes_order o)) (pure-Keeps _) (
                  if-Keeps (is_paid_outcome o && not (is_pending ord.status)) (pure-Keeps _) (
                    >>=-Keeps (apply_outcome-Keeps ord o) λ applied.
                      >>-Keeps
                        (if-Keeps (applied && is_paid_outcome o) (fulfill-Keeps ord) (pure-Keeps _))
                        (pure-Keeps _))))))

      module _ (gateway : Gateway) where
        pub handle_notification-Keeps :
            (provider payload signature : Text)
            → Keeps (Evolved before) (
                handle_notification e
                  (order_provider e)
                  (quota_restorer e)
                  (fulfillment e send)
                  gateway
                  provider
                  payload
                  signature)
        unfolding handle_notification
        handle_notification-Keeps provider payload signature =
            elim (result_cases (gateway.verify_webhook payload signature)) [
              | inl (x, bad) ↦ rw (bad, handle_notification) (throw-Keeps _)
              | inr (r, good) ↦
                  rw (good, handle_notification)
                    (handle-Keeps (order_by_number-Keeps r.order_number)
                      (λ ord. >>-Keeps (apply_provider_result-Keeps ord provider r) (pure-Keeps _))
                      (λ x.
                        if-Keeps (errors_is x Sentinel.payment_order_not_found) (pure-Keeps _)
                          (throw-Keeps _)))
            ]

        pub refresh_status-Keeps :
            ((n : ℕ) (d : Db) → Evolved before d → Evolved before (e.others n d))
            → (number : Text)
            → Keeps (Evolved before) (
                refresh_status e
                  (order_provider e)
                  (quota_restorer e)
                  (fulfillment e send)
                  gateway
                  number)
        unfolding refresh_status reconcile
        refresh_status-Keeps fair number = >>=-Keeps (order_by_number-Keeps number) λ ord.
            if-Keeps (is_pending ord.status)
              (>>=-Keeps (expire_if_due-Keeps ord) λ expired. if-Keeps expired (pure-Keeps _) (
                handle-Keeps (remote-Keeps e _ fair)
                  (λ r.
                    >>=-Keeps (apply_provider_result-Keeps ord gateway.name r)
                      λ changed. >>=-Keeps (order_by_number-Keeps number) (λ _. pure-Keeps _))
                  (λ x. throw-Keeps (no_record x))))
              (pure-Keeps _)
