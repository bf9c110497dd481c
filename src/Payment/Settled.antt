-- ===== src/Payment/Settled.antt =====
-- An order that has left PENDING: what moves an order on is a no-op there, also where the caller
-- read the order while it was PENDING.
use event_portal.Base.{
  not, ◌&&◌, Bool, true, false, Option, none, some, ◌≡◌, refl, sym, ◌∙◌, inl, inr, find, exists,
  subst, ◌==◌, Bool-cases, Option-cases, Text,
}
use event_portal.Store.{Db, Uuid, Order, OrderStatus, is_pending, is_paid}
use event_portal.Effect.{Env, World}
use event_portal.Effect.Laws.{
  Ends, EndsOn, Ends-always, >>=-Ends, >>-Ends, pure-Ends, map_error-Ends, statement-Ends,
  in_tx-Ends, if-Ends, Ends-weaken,
}
use event_portal.Order.Sql as OrderSql
use event_portal.Order.Sql.{update_pending}
use event_portal.Order.Repository as OrderRepository
use event_portal.Payment.Status.{Outcome, map_provider_status, changes_order}
use event_portal.Payment.Gateway.{OrderRef, QuotaRestorer, Fulfillment, WebhookResult}
use event_portal.Payment.Repository.{PaymentLog, insert_payment, create_payment}
use event_portal.Payment.Service.{
  outcome_tx, apply_outcome, apply_provider_result, log_of, is_paid_outcome,
}
use event_portal.Adapters.{order_provider}

abbrev settled_row : Option Order → Bool
settled_row none = true
settled_row (some x) = not (is_pending x.status)

-- No PENDING order has the id.
abbrev pub is_settled : Uuid → Db → Bool
is_settled o d = settled_row (find (λ x. x.id) o d.orders)

-- The tables are those before, but for the payments log.
abbrev pub OnlyLogged : Db → Db → Type 0
OnlyLogged before d = record d { payments = before.payments } ≡ before

update_pending-settled :
    (o : Uuid) (s : OrderStatus) (d : Db) (row : Option Order)
    → settled_row row ≡ true
    → EndsOn (λ affected d'. (d' ≡ d) × (affected ≡ 0)) (λ _. Unit) (update_pending o s row d)
unfolding update_pending
update_pending-settled o s d none h = (refl, refl)
update_pending-settled o s d (some x) h = elim (Bool-cases (is_pending x.status)) [
  | inl open' ↦ absurd (rw open' at h)
  | inr closed ↦ rw closed (refl, refl)
]
  where
    absurd : {A : Type 0} → false ≡ true → A
    absurd k = cc

module _ (e : Env) (o : Uuid) (before : Db) (settled : is_settled o before ≡ true) where
  move-settled :
      (s : OrderStatus) (w : World)
      → w.db ≡ before
      → Ends
          (λ applied d. (d ≡ before) × (applied ≡ false))
          (λ _. Unit)
          (OrderRepository.update_order_status_if_pending e o s)
          w
  unfolding OrderRepository.update_order_status_if_pending OrderSql.update_order_status_if_pending
  move-settled s w same =
      >>=-Ends (λ affected d. (d ≡ before) × (affected ≡ 0))
        (map_error-Ends _
          (statement-Ends e _ tt λ _ _. rw same (update_pending-settled o s before _ settled)))
        (λ affected w₁ h. pure-Ends _ (h.0, rw h.1 refl))

  module _ (quota : QuotaRestorer) (ord : OrderRef) (it : ord.id ≡ o) where
    outcome_tx-settled :
        (out : Outcome) (w : World)
        → w.db ≡ before
        → Ends
            (λ applied d. (d ≡ before) × (applied ≡ false))
            (λ _. Unit)
            (outcome_tx e (order_provider e) quota ord out)
            w
    unfolding outcome_tx
    outcome_tx-settled out w same = elim (Option-cases out.order_status) [
      | inl unchanged ↦ rw unchanged (pure-Ends _ (same, refl))
      | inr (s, moves) ↦
          rw (moves, it)
            (>>=-Ends (λ applied d. (d ≡ before) × (applied ≡ false)) (move-settled s w same)
              λ applied w₁ h.
                >>-Ends (λ _ d. d ≡ before) (rw h.1 (pure-Ends _ h.0))
                  (λ _ _ k. pure-Ends _ (k, h.1)))
    ]

    pub apply_outcome-settled :
        (out : Outcome) (w : World)
        → w.db ≡ before
        → Ends
            (λ applied d. (d ≡ before) × (applied ≡ false))
            (λ d. d ≡ before)
            (apply_outcome e (order_provider e) quota ord out)
            w
    unfolding apply_outcome
    apply_outcome-settled out w same =
        in_tx-Ends e same (λ _ _ k. k.0) λ w₁ begun. outcome_tx-settled out w₁ (begun ∙ same)

insert_payment-OnlyLogged :
    (l : PaymentLog) (u : Uuid) (d : Db)
    → EndsOn (λ _ d'. OnlyLogged d d') (λ d'. OnlyLogged d d') (insert_payment l u d)
unfolding insert_payment
insert_payment-OnlyLogged l u d = elim (Bool-cases (exists (λ p. p.id == u) d.payments)) [
  | inl dup ↦ rw dup refl
  | inr new ↦ elim (Bool-cases (exists (λ o. o.id == l.order_id) d.orders)) [
    | inr dangling ↦ rw (new, dangling) refl
    | inl linked ↦ rw (new, linked) refl
  ]
]

create_payment-OnlyLogged :
    (e : Env) (l : PaymentLog) (w : World)
    → Ends (λ _ d. OnlyLogged w.db d) (λ d. OnlyLogged w.db d) (create_payment e l) w
unfolding create_payment
create_payment-OnlyLogged e l w =
    >>-Ends (λ _ d. OnlyLogged w.db d)
      (map_error-Ends _ (statement-Ends e _ refl λ u _. insert_payment-OnlyLogged l u w.db))
      (λ _ _ k. pure-Ends _ k)

OnlyLogged-settled :
    (o : Uuid) (before d : Db)
    → OnlyLogged before d
    → is_settled o before ≡ true
    → is_settled o d ≡ true
OnlyLogged-settled o before d h s = subst (λ x. is_settled o x ≡ true) (sym h) s

module _ (e : Env) (quota : QuotaRestorer) (work : Fulfillment) where
  -- A provider's answer for an order that is not PENDING writes the payments log and nothing else,
  -- however the call ends: also where the caller still believes the order to be PENDING, since it
  -- read it before another request moved it.
  pub apply_provider_result-OnlyLogged :
      (ord : OrderRef) (provider : Text) (r : WebhookResult) (w : World)
      → is_settled ord.id w.db ≡ true
      → OnlyLogged w.db
          (apply_provider_result e (order_provider e) quota work ord provider r w).1.db
  unfolding apply_provider_result
  apply_provider_result-OnlyLogged ord provider r w s =
      let o = map_provider_status e.lower_rune r.transaction_status r.fraud_status in
      Ends-always (
        >>-Ends (λ _ d. OnlyLogged w.db d) (create_payment-OnlyLogged e (log_of ord provider r) w)
          λ _ w₁ h.
            if-Ends (is_paid ord.status) (λ _. pure-Ends _ h)
              λ _.
                if-Ends (not o.handled) (λ _. pure-Ends _ h)
                  λ _.
                    if-Ends (not (changes_order o)) (λ _. pure-Ends _ h)
                      λ _.
                        if-Ends (is_paid_outcome o && not (is_pending ord.status))
                          (λ _. pure-Ends _ h)
                          λ _.
                            >>=-Ends (λ applied d. OnlyLogged w.db d × (applied ≡ false))
                              (Ends-weaken
                                (apply_outcome-settled e ord.id w₁.db
                                  (OnlyLogged-settled ord.id w.db w₁.db h s) quota ord refl o w₁
                                  refl)
                                (λ _ d k. (rw k.0 h, k.1)) (λ d k. rw k h))
                              λ applied w₂ k.
                                >>-Ends (λ _ d. OnlyLogged w.db d) (rw k.1 (pure-Ends _ k.0))
                                  (λ _ _ l. pure-Ends _ l))
