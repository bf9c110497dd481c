-- ===== src/Payment/Service.antt =====
-- backend/internal/payment/service.go: notifications, reconciliation and the expiry sweep, all
-- through one guarded transition; sweeper.go's sweepOnce is one call of expire_due_orders, whose
-- result it only logs. The goroutine of fulfillAsync is run where it is started.
use event_portal.Base.{
  ℕ, ◌+◌, Text, ltb, ◌&&◌, not, if◌then◌else◌, Bool, true, false, Option, none, some, List, [], ◌∷◌,
}
use event_portal.Errors.{Error, sentinel, Sentinel, errors_is}
use event_portal.Store.{Time, OrderStatus, is_pending, is_paid}
use event_portal.Effect.{Env, ok, err, M, pure, throw, ◌>>=◌, ◌>>◌, handle, remote, now, in_tx}
use event_portal.Payment.Status.{Outcome, changes_order, map_provider_status}
use event_portal.Payment.Gateway.{
  WebhookResult, Gateway, OrderRef, LineItem, OrderProvider, QuotaRestorer, Fulfillment,
}
use event_portal.Payment.Repository.{PaymentLog, create_payment}

pub record RefreshResult : Type 0 where
  pub order_number : Text
  pub status : OrderStatus
  pub changed : Bool

abbrev pub expiry_batch_size : ℕ
expiry_batch_size = 100

abbrev pub expired_outcome : Outcome
expired_outcome = record {
  order_status = some OrderStatus.expired;
  restore_quota = true;
  handled = true;
}

abbrev pub log_of : OrderRef → Text → WebhookResult → PaymentLog
log_of ord provider r = record {
  order_id = ord.id;
  provider = provider;
  transaction_id = r.transaction_id;
  payment_type = r.payment_type;
  status = r.transaction_status;
  raw_response = r.raw_payload;
}

abbrev pub is_paid_outcome : Outcome → Bool
is_paid_outcome o = elim o.order_status [ none ↦ false | some s ↦ is_paid s ]

abbrev pub no_record : Error → Error
no_record x =
    if errors_is x Sentinel.payment_order_not_found
    then sentinel Sentinel.provider_has_no_record
    else x

module _ (e : Env) (orders : OrderProvider) (quota : QuotaRestorer) where
  unfoldable pub restore_items : List LineItem → M (Unit {0})
  restore_items [] = pure tt
  restore_items (i ∷ is) = do quota.restore_quota i.ticket_type_id i.quantity; restore_items is

  -- The body of the guarded transaction; the empty status never gets here.
  unfoldable pub outcome_tx : OrderRef → Outcome → M Bool
  unfolding restore_items
  outcome_tx ord o = elim o.order_status [
    | none ↦ pure false
    | some s ↦ do
      applied ← orders.update_status_if_pending ord.id s
      (if applied && o.restore_quota
          then (do items ← orders.line_items ord.id; restore_items items)
          else pure tt)
      pure applied
  ]

  unfoldable pub apply_outcome : OrderRef → Outcome → M Bool
  unfolding outcome_tx
  apply_outcome ord o = in_tx e (outcome_tx ord o)

  unfoldable pub expire_past : OrderRef → Option Time → M Bool
  unfolding apply_outcome
  expire_past ord none = pure false
  expire_past ord (some deadline) = do
    at ← now e
    (if ltb at deadline then pure false else apply_outcome ord expired_outcome)

  unfoldable pub expire_if_due : OrderRef → M Bool
  unfolding expire_past
  expire_if_due ord =
      if is_pending ord.status then expire_past ord ord.payment_expires_at else pure false

  -- The loop of the sweep: an order that fails is logged and left to the next tick.
  unfoldable pub expire_each : ℕ → List OrderRef → M ℕ
  unfolding expire_if_due
  expire_each expired [] = pure expired
  expire_each expired (ord ∷ due) = do
    applied ← handle (expire_if_due ord) pure (λ _. pure false)
    expire_each (if applied then expired + 1 else expired) due

  unfoldable pub expire_due_orders : M ℕ
  unfolding expire_each
  expire_due_orders = do
    at ← now e
    due ← orders.due_for_expiry at expiry_batch_size
    expire_each 0 due

  module _ (work : Fulfillment) where
    -- The goroutine's body: without tickets there is nothing to email; failures are only logged.
    unfoldable pub fulfill : OrderRef → M (Unit {0})
    fulfill ord =
        handle (work.issue_tickets_for_order ord.id)
          (λ _. handle (work.send_ticket_email ord.id) pure (λ _. pure tt)) (λ _. pure tt)

    unfoldable pub apply_provider_result : OrderRef → Text → WebhookResult → M Bool
    unfolding apply_outcome fulfill map_provider_status
    apply_provider_result ord provider r = do
      create_payment e (log_of ord provider r)
      let o = map_provider_status e.lower_rune r.transaction_status r.fraud_status
      (if is_paid ord.status
          then pure false
          else (if not o.handled
              then pure false
              else (if not (changes_order o)
                  then pure false
                  else (if is_paid_outcome o && not (is_pending ord.status) then pure false else (do
                    applied ← apply_outcome ord o
                    (if applied && is_paid_outcome o then fulfill ord else pure tt)
                    pure applied)))))

    module _ (gateway : Gateway) where
      unfoldable pub handle_notification : Text → Text → Text → M (Unit {0})
      unfolding apply_provider_result
      handle_notification provider payload signature =
          elim (gateway.verify_webhook payload signature) [
            | err x ↦ throw x
            | ok r ↦
                handle (orders.order_by_number r.order_number)
                  (λ ord. do apply_provider_result ord provider r; pure tt)
                  (λ x. if errors_is x Sentinel.payment_order_not_found then pure tt else throw x)
          ]

      -- What a refresh does after the provider has answered.
      unfoldable pub reconcile : OrderRef → Text → M RefreshResult
      unfolding apply_provider_result
      reconcile ord number =
          handle (remote e (gateway.fetch_status number))
            (λ r. do
              changed ← apply_provider_result ord gateway.name r
              current ← orders.order_by_number number
              pure (record {
                order_number = current.order_number;
                status = current.status;
                changed = changed;
              }))
            (λ x. throw (no_record x))

      unfoldable pub refresh_status : Text → M RefreshResult
      unfolding expire_if_due reconcile
      refresh_status number = do
        ord ← orders.order_by_number number
        (if is_pending ord.status
            then (do
              expired ← expire_if_due ord
              (if expired
                  then pure (record {
                    order_number = ord.order_number;
                    status = OrderStatus.expired;
                    changed = true;
                  })
                  else reconcile ord number))
            else pure
                (record { order_number = ord.order_number; status = ord.status; changed = false }))
