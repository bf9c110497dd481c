-- ===== src/Payment/Transition.antt =====
-- The transaction that applies an outcome neither makes nor loses a seat, and the payments log
-- holds none.
use event_portal.Base.{
  add_assoc, add_zero, sub_zero, sub_add_cancel, ℤ, pos, ◌+ℤ◌, ◌-ℤ◌, ◌==◌, ◌&&◌, not, if◌then◌else◌,
  Bool, true, false, List, [], ◌∷◌, ◌≡◌, refl, ◌∙◌, inl, inr, Bool-cases, Option-cases, subst,
  exists,
}
use event_portal.Store.{Db, Uuid, OrderStatus, is_holding}
use event_portal.Effect.{Env, World, pure, ◌>>=◌}
use event_portal.Effect.Laws.{
  Ends, EndsOn, >>=-Ends, >>-Ends, pure-Ends, map_error-Ends, statement-Ends, Ends-weaken,
}
use event_portal.Seats.{share, items_in, IsSound, Sound}
use event_portal.Order.Seats.{Any, given_back}
use event_portal.Order.Contract.{Restores}
use event_portal.Payment.Status.{Outcome}
use event_portal.Payment.Status.Laws.{Balanced}
use event_portal.Payment.Gateway.{OrderRef, LineItem, OrderProvider, QuotaRestorer}
use event_portal.Payment.Contract.{line_seats, OrderContract}
use event_portal.Payment.Repository.{PaymentLog, insert_payment, create_payment}
use event_portal.Payment.Service.{restore_items, outcome_tx}

module _ (t : Uuid) (c : ℤ) where
  insert_payment-IsSound :
      (l : PaymentLog) (u : Uuid) (d : Db)
      → IsSound t c d
      → EndsOn (λ _. IsSound t c) (IsSound t c) (insert_payment l u d)
  unfolding insert_payment
  insert_payment-IsSound l u d s = elim (Bool-cases (exists (λ p. p.id == u) d.payments)) [
    | inl dup ↦ rw dup s
    | inr new ↦ elim (Bool-cases (exists (λ o. o.id == l.order_id) d.orders)) [
      | inr dangling ↦ rw (new, dangling) s
      | inl linked ↦
          rw (new, linked) (record { linked = s.linked; on_sale = s.on_sale; total = s.total })
    ]
  ]

  pub create_payment-IsSound :
      (e : Env) (l : PaymentLog) (w : World)
      → IsSound t c w.db
      → Ends (λ _. IsSound t c) (IsSound t c) (create_payment e l) w
  unfolding create_payment
  create_payment-IsSound e l w s =
      >>-Ends (λ _. IsSound t c)
        (map_error-Ends _ (statement-Ends e _ s λ u _. insert_payment-IsSound l u w.db s))
        (λ _ _ k. pure-Ends _ k)

module _ (t : Uuid) (e : Env) (orders : OrderProvider) (order_contract : OrderContract orders)
    (quota : QuotaRestorer) (restores : Restores quota.restore_quota) where
  restore_items-Sound :
      (c : ℤ) (is : List LineItem) (w : World)
      → Sound t c Any w.db
      → Ends
          (λ _. Sound t (c +ℤ line_seats t is) Any)
          (λ _. Unit)
          (restore_items e orders quota is)
          w
  unfolding restore_items
  restore_items-Sound c [] w h = pure-Ends _ (rw (add_zero c) h)
  restore_items-Sound c (i ∷ is) w h =
      let v = share i.ticket_type_id i.quantity t in
      >>-Ends (λ _. Sound t (c +ℤ v) Any)
        (restores t c Any i.ticket_type_id i.quantity (λ _. Unit) w tt h)
        λ _ w₁ h₁.
          subst (λ k. Ends (λ _. Sound t k Any) (λ _. Unit) (restore_items e orders quota is) w₁)
            (add_assoc c v (line_seats t is)) (restore_items-Sound (c +ℤ v) is w₁ h₁)

  module _ (c : ℤ) where
    -- The seats that a move let go are those that the order's items give back.
    give_back :
        (o : Uuid) (n : ℤ) (w : World)
        → IsSound t (c -ℤ n) w.db
        → items_in t o w.db.order_items ≡ n
        → Ends
            (λ _. IsSound t c)
            (λ _. Unit)
            (orders.line_items o >>= restore_items e orders quota)
            w
    give_back o n w s i =
        >>=-Ends (λ items d. Sound t (c -ℤ n) Any d × (line_seats t items ≡ n))
          (Ends-weaken
            (order_contract.lists_items t o
              (λ d. IsSound t (c -ℤ n) d × (items_in t o d.order_items ≡ n)) w (s, i))
            (λ items d k. ((k.0.0, tt), k.1 ∙ k.0.1)) (λ _ _. tt))
          λ items w₁ k.
            Ends-weaken (restore_items-Sound (c -ℤ n) items w₁ k.0)
              (λ _ d h. rw (sub_add_cancel c n) at (rw k.1 at h.0)) (λ _ _. tt)

    -- What follows the guarded transition.
    after_move :
        (o : Uuid) (n : ℤ) (applied : Bool) (s : OrderStatus) (r : Bool) (w : World)
        → r ≡ not (is_holding s)
        → IsSound t (c -ℤ (if applied then given_back (is_holding s) n else pos 0)) w.db
        → items_in t o w.db.order_items ≡ n
        → Ends
            (λ _. IsSound t c)
            (λ _. Unit)
            (if applied && r then orders.line_items o >>= restore_items e orders quota else pure tt)
            w
    after_move o n false s r w b h i = pure-Ends _ (rw (sub_zero c) at h)
    after_move o n true s r w b h i = elim (Bool-cases (is_holding s)) [
      | inl keeps ↦ rw (b, keeps) (pure-Ends _ (rw (keeps, sub_zero c) at h))
      | inr drops ↦ rw (b, drops) (give_back o n w (rw drops at h) i)
    ]

    pub outcome_tx-IsSound :
        (ord : OrderRef) (o : Outcome) (w : World)
        → Balanced o
        → IsSound t c w.db
        → Ends (λ _. IsSound t c) (λ _. Unit) (outcome_tx e orders quota ord o) w
    unfolding outcome_tx
    outcome_tx-IsSound ord o w b s = elim (Option-cases o.order_status) [
      | inl unchanged ↦ rw unchanged (pure-Ends _ s)
      | inr (x, moves) ↦ rw moves (
          let n = items_in t ord.id w.db.order_items in
          >>=-Ends
            (λ applied d.
              IsSound t (c -ℤ (if applied then given_back (is_holding x) n else pos 0)) d
              × (items_in t ord.id d.order_items ≡ n))
            (order_contract.moves t c ord.id n x w s refl)
            λ applied w₁ k.
              >>-Ends (λ _. IsSound t c)
                (after_move ord.id n applied x o.restore_quota w₁ (rw moves at b) k.0 k.1)
                (λ _ _ h. pure-Ends _ h))
    ]
