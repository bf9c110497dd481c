-- ===== src/Order/Conservation.antt =====
-- Checkout neither makes nor loses a seat, however it ends.
use event_portal.Base.{
  sub_add_cancel, sub_zero, add_zero, add_assoc, ℤ, pos, ◌+ℤ◌, ◌-ℤ◌, if◌then◌else◌, Bool, true,
  false, List, [], ◌∷◌, ◌≡◌, ◌∙◌, inl, inr, Option-cases, subst,
}
use event_portal.Errors.{plain}
use event_portal.Store.{Uuid, OrderStatus}
use event_portal.Effect.{Env, World, pure}
use event_portal.Effect.Laws.{
  Ends, >>=-Ends, >>-Ends, handle-Ends, pure-Ends, throw-Ends, map_error-Ends, in_tx-Ends,
  remote-Ends, Ends-weaken,
}
use event_portal.Seats.{share, items_in, IsSound, Sound}
use event_portal.Order.Provider.{EventProvider, PaymentGateway, PaymentSession}
use event_portal.Order.Request.{CheckoutRequest, validate}
use event_portal.Order.Checkout.{
  order_number_attempts, ReservedLine, Reservation, restore_lines, compensate_tx, compensate, stamp,
  pay, checkout,
}
use event_portal.Order.Seats.{Any}
use event_portal.Order.Writes.{update_payment_details-IsSound, update_order_status_if_pending-Sound}
use event_portal.Order.Contract.{SeatContract, Fair}
use event_portal.Order.Reserving.{seats, Reserved, reserve_attempts-Sound}

module _ (t : Uuid) (e : Env) (events : EventProvider) (contract : SeatContract events) where
  restore_lines-Sound :
      (c : ℤ) (ls : List ReservedLine) (w : World)
      → Sound t c Any w.db
      → Ends (λ _. Sound t (c +ℤ seats t ls) Any) (λ _. Unit) (restore_lines e events ls) w
  unfolding restore_lines seats
  restore_lines-Sound c [] w h = pure-Ends _ (rw (add_zero c) h)
  restore_lines-Sound c (l ∷ ls) w h =
      let v = share l.ticket_type_id l.quantity t in
      >>-Ends (λ _. Sound t (c +ℤ v) Any)
        (contract.restores t c Any l.ticket_type_id l.quantity (λ _. Unit) w tt h)
        λ _ w₁ h₁.
          subst (λ k. Ends (λ _. Sound t k Any) (λ _. Unit) (restore_lines e events ls) w₁)
            (add_assoc c v (seats t ls)) (restore_lines-Sound (c +ℤ v) ls w₁ h₁)

  compensate_tx-Sound :
      (c : ℤ) (r : Reservation) (w : World)
      → Reserved t c r w.db
      → Ends (λ _. IsSound t c) (λ _. Unit) (compensate_tx e events r) w
  unfolding compensate_tx Reserved
  compensate_tx-Sound c r w (s, (has, sum)) =
      >>=-Ends
        (λ applied d.
          IsSound t (c -ℤ (if applied then seats t r.lines else pos 0)) d
          × (items_in t r.created.id d.order_items ≡ seats t r.lines))
        (update_order_status_if_pending-Sound t c e w r.created.id (seats t r.lines)
          OrderStatus.cancelled s sum)
        after
    where
      after :
          (applied : Bool) (w₁ : World)
          → IsSound t (c -ℤ (if applied then seats t r.lines else pos 0)) w₁.db
            × (items_in t r.created.id w₁.db.order_items ≡ seats t r.lines)
          → Ends
              (λ _. IsSound t c)
              (λ _. Unit)
              (if applied then restore_lines e events r.lines else pure tt)
              w₁
      after false w₁ (h, i) = pure-Ends _ (rw (sub_zero c) at h)
      after true w₁ (h, i) =
          Ends-weaken (restore_lines-Sound (c -ℤ seats t r.lines) r.lines w₁ (h, tt))
            (λ _ d k. rw (sub_add_cancel c (seats t r.lines)) at k.0) (λ _ _. tt)

  compensate-Sound :
      (c : ℤ) (r : Reservation) (w : World)
      → Reserved t c r w.db
      → Ends (λ _. IsSound t c) (IsSound t c) (compensate e events r) w
  unfolding compensate Reserved
  compensate-Sound c r w h =
      handle-Ends (λ _. IsSound t c) (IsSound t c)
        (in_tx-Ends e h.0 (λ _ _ k. k)
          (λ w₁ same. compensate_tx-Sound c r w₁ (unfold Reserved in rw same h)))
        (λ _ _ k. pure-Ends _ k) (λ _ _ k. pure-Ends _ k)

  module _ (gateway : PaymentGateway) where
    stamp-Sound :
        (c : ℤ) (r : Reservation) (session : PaymentSession) (w : World)
        → IsSound t c w.db
        → Ends (λ _. IsSound t c) (IsSound t c) (stamp e events gateway r session) w
    unfolding stamp
    stamp-Sound c r session w h =
        in_tx-Ends e h (λ _ _ k. k)
          λ w₁ same.
            Ends-weaken (update_payment_details-IsSound t c e w₁ r.created.id _ (rw same h))
              (λ _ _ k. k) (λ _ _. tt)

    pay-Sound :
        (c : ℤ) (fair : Fair t c e) (req : CheckoutRequest) (r : Reservation) (w : World)
        → Reserved t c r w.db
        → Ends (λ _. IsSound t c) (IsSound t c) (pay e events gateway req r) w
    unfolding pay Reserved
    pay-Sound c fair req r w (s, (has, sum)) =
        let meanwhile : Reserved t c r (e.others w.tick w.db) = (
          fair.conserve w.tick w.db s,
          (
            fair.keep w.tick w.db r.created.id has,
            fair.keep_items w.tick w.db r.created.id has ∙ sum,
          ),
        ) in
        handle-Ends (λ _. Reserved t c r) (Reserved t c r)
          (remote-Ends e _ (λ _. meanwhile) meanwhile)
          (λ session w₁ h.
            >>-Ends (λ _. IsSound t c) (map_error-Ends _ (stamp-Sound c r session w₁ h.0))
              (λ _ _ k. pure-Ends _ k))
          (λ x w₁ h.
            >>-Ends (λ _. IsSound t c) (compensate-Sound c r w₁ h) (λ _ _ k. throw-Ends _ k))

    pub checkout-Sound :
        (c : ℤ) (fair : Fair t c e) (req : CheckoutRequest) (w : World)
        → IsSound t c w.db
        → Ends (λ _. IsSound t c) (IsSound t c) (checkout e events gateway req) w
    unfolding checkout
    checkout-Sound c fair req w s = elim (Option-cases (validate e.parse_address req)) [
      | inr (x, bad) ↦ rw (bad, checkout) (throw-Ends _ s)
      | inl good ↦
          rw (good, checkout)
            (>>=-Ends (Reserved t c)
              (reserve_attempts-Sound t e events contract c order_number_attempts plain req w s)
              (λ r w₁ h. pay-Sound c fair req r w₁ h))
    ]
