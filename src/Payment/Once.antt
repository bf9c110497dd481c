-- ===== src/Payment/Once.antt =====
-- The guarded transition applies to an order once.
use event_portal.Base.{
  ltb, ◌&&◌, true, false, Option, none, some, List, ◌≡◌, refl, inl, inr, absurd_bool, find,
  find-update_self, Bool-cases,
}
use event_portal.Store.{Db, Uuid, Order, OrderStatus, is_pending}
use event_portal.Effect.{Env, World, ok}
use event_portal.Effect.Laws.{
  Ends, EndsAt, EndsOn, Ends-ok, Ends-weaken, >>=-Ends, >>-Ends, pure-Ends, map_error-Ends,
  statement-Ends, in_tx-Ends,
}
use event_portal.Effect.Keeps.{if-Keeps, >>=-Keeps, pure-Keeps}
use event_portal.Order.Sql as OrderSql
use event_portal.Order.Sql.{update_pending}
use event_portal.Order.Repository as OrderRepository
use event_portal.Order.Evolution.{StatusStep, Evolves, Evolves-refl}
use event_portal.Payment.Status.{Outcome}
use event_portal.Payment.Gateway.{OrderRef}
use event_portal.Payment.Service.{outcome_tx, apply_outcome}
use event_portal.Payment.Settled.{is_settled, apply_outcome-settled}
use event_portal.Payment.Progress.{line_items-Keeps, restore_items-Keeps}
use event_portal.Adapters.{order_provider, quota_restorer}

-- The order is there, and PENDING no more.
abbrev Closed : Uuid → List Order → Type 0
Closed o os = (x : Order) × ((find (λ r. r.id) o os ≡ some x) × (is_pending x.status ≡ false))

step_closed : {a b : OrderStatus} → StatusStep a b → is_pending a ≡ false → is_pending b ≡ false
step_closed (StatusStep.stay s) h = h
step_closed StatusStep.pay h = refl
step_closed StatusStep.cancel h = refl
step_closed StatusStep.expire h = refl

Closed-Evolves : (o : Uuid) (os os' : List Order) → Evolves os os' → Closed o os → Closed o os'
Closed-Evolves o os os' v (x, (there, closed)) =
    let y = v.later o x there in (y.0, (y.1.0, step_closed y.1.1.step closed))

Closed-is_settled : (o : Uuid) (d : Db) → Closed o d.orders → is_settled o d ≡ true
Closed-is_settled o d (x, (there, closed)) = rw (there, closed) refl

update_pending-Closed :
    (o : Uuid) (s : OrderStatus) (d : Db) (row : Option Order)
    → is_pending s ≡ false
    → find (λ r. r.id) o d.orders ≡ row
    → EndsOn
        (λ affected d'. ltb 0 affected ≡ true → Closed o d'.orders)
        (λ _. Unit)
        (update_pending o s row d)
unfolding update_pending
update_pending-Closed o s d none h e = λ k. absurd_bool k
update_pending-Closed o s d (some x) h e = elim (Bool-cases (is_pending x.status)) [
  | inr settled ↦ rw settled (λ k. absurd_bool k)
  | inl open' ↦ rw open' (λ _. (
    record x { status = s },
    (find-update_self (λ r. r.id) o (λ r. record r { status = s }) d.orders (λ _. refl) x e, h),
  ))
]

module _ (e : Env) (o : Uuid) (s : OrderStatus) (h : is_pending s ≡ false) where
  move-Closed :
      (w : World)
      → Ends
          (λ applied d. applied ≡ true → Closed o d.orders)
          (λ _. Unit)
          (OrderRepository.update_order_status_if_pending e o s)
          w
  unfolding OrderRepository.update_order_status_if_pending OrderSql.update_order_status_if_pending
  move-Closed w =
      >>=-Ends (λ affected d. ltb 0 affected ≡ true → Closed o d.orders)
        (map_error-Ends _ (statement-Ends e _ tt (λ _ _. update_pending-Closed o s w.db _ h refl)))
        (λ _ _ k. pure-Ends _ k)

  outcome_tx-Closed :
      (ord : OrderRef) (out : Outcome) (w : World)
      → ord.id ≡ o
      → out.order_status ≡ some s
      → Ends
          (λ applied d. applied ≡ true → Closed o d.orders)
          (λ _. Unit)
          (outcome_tx e (order_provider e) (quota_restorer e) ord out)
          w
  unfolding outcome_tx
  outcome_tx-Closed ord out w it moves =
      rw (moves, it)
        (>>=-Ends (λ applied d. applied ≡ true → Closed o d.orders) (move-Closed w)
          λ applied w₁ k.
            >>-Ends (λ _ d. applied ≡ true → Closed o d.orders)
              (Ends-weaken
                ((if-Keeps (applied && out.restore_quota)
                    (>>=-Keeps (line_items-Keeps w₁.db.orders e o)
                      (restore_items-Keeps w₁.db.orders e))
                    (pure-Keeps _)).keep
                  w₁ (Evolves-refl w₁.db.orders))
                (λ _ d v yes'. Closed-Evolves o w₁.db.orders d.orders v (k yes')) (λ _ _. tt))
              (λ _ _ l. pure-Ends _ l))

-- An outcome that moved an order on is the last that does: once a call has applied a status other
-- than PENDING, a later call with that order's id, on the tables that the first one left, changes no
-- table, and does not report to have applied its outcome, so that no quota is restored twice.
pub apply_outcome_once :
    (e e' : Env) (ord ord' : OrderRef) (out out' : Outcome) (s : OrderStatus) (w w₁ w₂ : World)
    → is_pending s ≡ false
    → out.order_status ≡ some s
    → ord'.id ≡ ord.id
    → apply_outcome e (order_provider e) (quota_restorer e) ord out w ≡ (ok true, w₁)
    → w₂.db ≡ w₁.db
    → EndsAt
        (λ applied d. (d ≡ w₁.db) × (applied ≡ false))
        (λ d. d ≡ w₁.db)
        (apply_outcome e' (order_provider e') (quota_restorer e') ord' out' w₂)
unfolding apply_outcome
apply_outcome_once e e' ord ord' out out' s w w₁ w₂ h moves same first later =
    let closed : Closed ord.id w₁.db.orders =
      Ends-ok
        (in_tx-Ends {E = λ _. Unit} e tt (λ _ _ _. tt)
          (λ w' _. outcome_tx-Closed e ord.id s h ord out w' refl moves))
        true w₁ first refl in
    (apply_outcome-settled e' ord.id w₁.db (Closed-is_settled ord.id w₁.db closed)
      (quota_restorer e') ord' same out' w₂ later).end
