-- ===== src/Payment/Conservation.antt =====
-- Payment outcomes, notifications, reconciliation and the expiry sweep neither make nor lose a
-- seat.
use event_portal.Base.{
  ℕ, ℤ, ◌+◌, Text, ltb, ◌&&◌, not, if◌then◌else◌, Bool, Option, none, some, List, [], ◌∷◌, ◌≡◌,
  refl, ◌⊎◌, inl, inr, Bool-cases,
}
use event_portal.Errors.{Error, Sentinel, errors_is}
use event_portal.Store.{Db, Uuid, Time, is_pending, is_paid}
use event_portal.Effect.{Env, World, Result, ok, err, pure, ◌>>=◌, ◌>>◌}
use event_portal.Effect.Laws.{
  Ends, >>=-Ends, >>-Ends, handle-Ends, pure-Ends, throw-Ends, in_tx-Ends, remote-Ends, now-Ends,
  if-Ends,
}
use event_portal.Seats.{IsSound}
use event_portal.Order.Contract.{Restores}
use event_portal.Payment.Status.{Outcome, changes_order, map_provider_status}
use event_portal.Payment.Status.Laws.{Balanced, map_provider_status-Balanced}
use event_portal.Payment.Gateway.{
  WebhookResult, Gateway, OrderRef, OrderProvider, QuotaRestorer, Fulfillment,
}
use event_portal.Payment.Contract.{OrderContract, SeatNeutral}
use event_portal.Payment.Service.{
  apply_outcome, expire_past, expire_if_due, expire_each, expire_due_orders, fulfill,
  apply_provider_result, handle_notification, reconcile, refresh_status, is_paid_outcome,
  expired_outcome, expiry_batch_size, log_of,
}
use event_portal.Payment.Transition.{create_payment-IsSound, outcome_tx-IsSound}

pub result_cases :
    {A : Type 0} (r : Result A) → ((x : Error) × (r ≡ err x)) ⊎ ((a : A) × (r ≡ ok a))
result_cases (err x) = inl (x, refl)
result_cases (ok a) = inr (a, refl)

module _ (t : Uuid) (c : ℤ) (e : Env) (orders : OrderProvider)
    (order_contract : OrderContract orders) (quota : QuotaRestorer)
    (restores : Restores quota.restore_quota) where
  apply_outcome-IsSound :
      (ord : OrderRef) (o : Outcome) (w : World)
      → Balanced o
      → IsSound t c w.db
      → Ends (λ _. IsSound t c) (IsSound t c) (apply_outcome e orders quota ord o) w
  unfolding apply_outcome
  apply_outcome-IsSound ord o w b s =
      in_tx-Ends e s (λ _ _ k. k)
        λ w₁ same.
          outcome_tx-IsSound t e orders order_contract quota restores c ord o w₁ b (rw same s)

  expire_past-IsSound :
      (ord : OrderRef) (deadline : Option Time) (w : World)
      → IsSound t c w.db
      → Ends (λ _. IsSound t c) (IsSound t c) (expire_past e orders quota ord deadline) w
  unfolding expire_past
  expire_past-IsSound ord none w s = pure-Ends _ s
  expire_past-IsSound ord (some deadline) w s =
      >>=-Ends (λ _. IsSound t c) (now-Ends e (λ _. s))
        λ at w₁ s₁. elim (Bool-cases (ltb at deadline)) [
          | inl early ↦ rw early (pure-Ends _ s₁)
          | inr due ↦ rw due (apply_outcome-IsSound ord expired_outcome w₁ refl s₁)
        ]

  expire_if_due-IsSound :
      (ord : OrderRef) (w : World)
      → IsSound t c w.db
      → Ends (λ _. IsSound t c) (IsSound t c) (expire_if_due e orders quota ord) w
  unfolding expire_if_due
  expire_if_due-IsSound ord w s = elim (Bool-cases (is_pending ord.status)) [
    | inl open' ↦ rw open' (expire_past-IsSound ord ord.payment_expires_at w s)
    | inr settled ↦ rw settled (pure-Ends _ s)
  ]

  expire_each-IsSound :
      (n : ℕ) (due : List OrderRef) (w : World)
      → IsSound t c w.db
      → Ends (λ _. IsSound t c) (IsSound t c) (expire_each e orders quota n due) w
  unfolding expire_each
  expire_each-IsSound n [] w s = pure-Ends _ s
  expire_each-IsSound n (ord ∷ due) w s =
      >>=-Ends (λ _. IsSound t c)
        (handle-Ends (λ _. IsSound t c) (IsSound t c) (expire_if_due-IsSound ord w s)
          (λ _ _ h. pure-Ends _ h) (λ _ _ h. pure-Ends _ h))
        λ applied w₁ h. expire_each-IsSound (if applied then n + 1 else n) due w₁ h

  pub expire_due_orders-Ends :
      (w : World)
      → IsSound t c w.db
      → Ends (λ _. IsSound t c) (IsSound t c) (expire_due_orders e orders quota) w
  unfolding expire_due_orders
  expire_due_orders-Ends w s =
      >>=-Ends (λ _. IsSound t c) (now-Ends e (λ _. s))
        λ at w₁ s₁.
          >>=-Ends (λ _. IsSound t c)
            (order_contract.reads_due at expiry_batch_size (IsSound t c) w₁ s₁)
            λ due w₂ s₂. expire_each-IsSound 0 due w₂ s₂

  module _ (work : Fulfillment) (neutral : SeatNeutral t c work) where
    fulfill-IsSound :
        (ord : OrderRef) (w : World)
        → IsSound t c w.db
        → Ends (λ _. IsSound t c) (IsSound t c) (fulfill e orders quota work ord) w
    unfolding fulfill
    fulfill-IsSound ord w s =
        handle-Ends (λ _. IsSound t c) (IsSound t c) (neutral.issues ord.id w s)
          (λ _ w₁ h.
            handle-Ends (λ _. IsSound t c) (IsSound t c) (neutral.delivers ord.id w₁ h)
              (λ _ _ k. pure-Ends _ k) (λ _ _ k. pure-Ends _ k))
          (λ _ _ h. pure-Ends _ h)

    -- The branch that applies the outcome, and fulfils a paid order.
    settle-IsSound :
        (ord : OrderRef) (o : Outcome) (paid : Bool) (w : World)
        → Balanced o
        → IsSound t c w.db
        → Ends
            (λ _. IsSound t c)
            (IsSound t c)
            (apply_outcome e orders quota ord o >>= (λ applied.
              (if applied && paid then fulfill e orders quota work ord else pure tt)
              >> pure applied))
            w
    settle-IsSound ord o paid w b s =
        >>=-Ends (λ _. IsSound t c) (apply_outcome-IsSound ord o w b s)
          λ applied w₁ h.
            >>-Ends (λ _. IsSound t c)
              (if-Ends (applied && paid) (λ _. fulfill-IsSound ord w₁ h) (λ _. pure-Ends _ h))
              (λ _ _ k. pure-Ends _ k)

    apply_provider_result-IsSound :
        (ord : OrderRef) (provider : Text) (r : WebhookResult) (w : World)
        → IsSound t c w.db
        → Ends
            (λ _. IsSound t c)
            (IsSound t c)
            (apply_provider_result e orders quota work ord provider r)
            w
    unfolding apply_provider_result
    apply_provider_result-IsSound ord provider r w s =
        let o = map_provider_status e.lower_rune r.transaction_status r.fraud_status in
        >>-Ends (λ _. IsSound t c) (create_payment-IsSound t c e (log_of ord provider r) w s)
          λ _ w₁ h.
            if-Ends (is_paid ord.status) (λ _. pure-Ends _ h)
              λ _.
                if-Ends (not o.handled) (λ _. pure-Ends _ h)
                  λ _.
                    if-Ends (not (changes_order o)) (λ _. pure-Ends _ h)
                      λ _.
                        if-Ends (is_paid_outcome o && not (is_pending ord.status))
                          (λ _. pure-Ends _ h)
                          λ _.
                            settle-IsSound ord o (is_paid_outcome o) w₁
                              (map_provider_status-Balanced e.lower_rune r.transaction_status
                                r.fraud_status)
                              h

    module _ (gateway : Gateway) where
      pub handle_notification-Ends :
          (provider payload signature : Text) (w : World)
          → IsSound t c w.db
          → Ends
              (λ _. IsSound t c)
              (IsSound t c)
              (handle_notification e orders quota work gateway provider payload signature)
              w
      unfolding handle_notification
      handle_notification-Ends provider payload signature w s =
          elim (result_cases (gateway.verify_webhook payload signature)) [
            | inl (x, bad) ↦ rw (bad, handle_notification) (throw-Ends _ s)
            | inr (r, good) ↦
                rw (good, handle_notification)
                  (handle-Ends (λ _. IsSound t c) (IsSound t c)
                    (order_contract.reads_order r.order_number (IsSound t c) w s)
                    (λ ord w₁ h.
                      >>-Ends (λ _. IsSound t c) (apply_provider_result-IsSound ord provider r w₁ h)
                        (λ _ _ k. pure-Ends _ k))
                    (λ x w₁ h.
                      if-Ends (errors_is x Sentinel.payment_order_not_found) (λ _. pure-Ends _ h)
                        (λ _. throw-Ends _ h)))
          ]

      -- While the provider is asked, the other requests conserve the seats too.
      module _ (fair : (n : ℕ) (d : Db) → IsSound t c d → IsSound t c (e.others n d)) where
        reconcile-IsSound :
            (ord : OrderRef) (number : Text) (w : World)
            → IsSound t c w.db
            → Ends
                (λ _. IsSound t c)
                (IsSound t c)
                (reconcile e orders quota work gateway ord number)
                w
        unfolding reconcile
        reconcile-IsSound ord number w s =
            handle-Ends (λ _. IsSound t c) (IsSound t c)
              (remote-Ends e _ (λ _. fair w.tick w.db s) (fair w.tick w.db s))
              (λ r w₁ h.
                >>=-Ends (λ _. IsSound t c) (apply_provider_result-IsSound ord gateway.name r w₁ h)
                  λ changed w₂ h₂.
                    >>=-Ends (λ _. IsSound t c)
                      (order_contract.reads_order number (IsSound t c) w₂ h₂)
                      (λ _ _ k. pure-Ends _ k))
              (λ x w₁ h. throw-Ends _ h)

        pub refresh_status-Ends :
            (number : Text) (w : World)
            → IsSound t c w.db
            → Ends
                (λ _. IsSound t c)
                (IsSound t c)
                (refresh_status e orders quota work gateway number)
                w
        unfolding refresh_status
        refresh_status-Ends number w s =
            >>=-Ends (λ _. IsSound t c) (order_contract.reads_order number (IsSound t c) w s)
              λ ord w₁ h.
                if-Ends (is_pending ord.status)
                  (λ _.
                    >>=-Ends (λ _. IsSound t c) (expire_if_due-IsSound ord w₁ h)
                      λ expired w₂ h₂.
                        if-Ends expired (λ _. pure-Ends _ h₂)
                          (λ _. reconcile-IsSound ord number w₂ h₂))
                  (λ _. pure-Ends _ h)
