-- ===== src/Order/Progress.antt =====
-- Checkout: no order is lost, and none goes back.
use event_portal.Base.{
  ℕ, zero, suc, pos, ◌+ℤ◌, ◌*ℤ◌, ◌||◌, ltb, List, [], ◌∷◌, ◌++◌, inl, inr, Option-cases,
}
use event_portal.Errors.{Error, Sentinel, errors_is, plain}
use event_portal.Store.{Db, Uuid, Cents, Time, Order, OrderStatus}
use event_portal.Effect.{Env}
use event_portal.Effect.Keeps.{
  Keeps, pure-Keeps, throw-Keeps, map_error-Keeps, if-Keeps, >>=-Keeps, >>-Keeps, handle-Keeps,
  now-Keeps, in_tx-Keeps, remote-Keeps,
}
use event_portal.Randcode.Laws.{new_code-Ends}
use event_portal.Order.Number.{generate_order_number, order_number_suffix_length}
use event_portal.Order.Provider.{PaymentGateway}
use event_portal.Order.Request.{CheckoutItem, CheckoutAttendee, CheckoutRequest, validate}
use event_portal.Order.Checkout.{
  ReservedLine, Reservation, line_of, reserve_items, create_items, create_attendees, reserve_tx,
  reserve_once, reserve_attempts, reserve, restore_lines, compensate_tx, compensate, stamp, pay,
  checkout, order_number_attempts,
}
use event_portal.Order.Evolution.{Evolved}
use event_portal.Order.Lifecycle.{
  restore_quota-Keeps, deduct-Keeps, info-Keeps, move-Keeps, stamp_order-Keeps, create_order-Keeps,
  create_order_item-Keeps, create_attendee-Keeps,
}
use event_portal.Adapters.{event_provider}

module _ (before : List Order) (e : Env) where
  number-Keeps : (at : Time) → Keeps (Evolved before) (generate_order_number e at)
  unfolding generate_order_number
  number-Keeps at =
      >>=-Keeps
        (map_error-Keeps _
          (record { keep = λ w h. new_code-Ends e order_number_suffix_length w h }))
        (λ _. pure-Keeps _)

  reserve_items-Keeps :
      (total : Cents) (reserved : List ReservedLine) (items : List CheckoutItem)
      → Keeps (Evolved before) (reserve_items e (event_provider e) total reserved items)
  unfolding reserve_items
  reserve_items-Keeps total reserved [] = pure-Keeps _
  reserve_items-Keeps total reserved (i ∷ is) =
      >>=-Keeps (info-Keeps before e i.ticket_type_id) λ info. >>=-Keeps (now-Keeps e) λ at.
        >>-Keeps
          (if-Keeps (ltb at info.sales_start || ltb info.sales_end at) (throw-Keeps _)
            (pure-Keeps _))
          (>>-Keeps (map_error-Keeps _ (deduct-Keeps before e i.ticket_type_id i.quantity)) (
            reserve_items-Keeps (total +ℤ info.price *ℤ i.quantity)
              (reserved ++ (line_of i info ∷ [])) is))

  create_items-Keeps :
      (o : Uuid) (ls : List ReservedLine)
      → Keeps (Evolved before) (create_items e (event_provider e) o ls)
  unfolding create_items
  create_items-Keeps o [] = pure-Keeps _
  create_items-Keeps o (l ∷ ls) =
      >>-Keeps (create_order_item-Keeps before e o l.ticket_type_id l.quantity l.unit_price)
        (create_items-Keeps o ls)

  create_attendees-Keeps :
      (o : Uuid) (as' : List CheckoutAttendee)
      → Keeps (Evolved before) (create_attendees e (event_provider e) o as')
  unfolding create_attendees
  create_attendees-Keeps o [] = pure-Keeps _
  create_attendees-Keeps o (a ∷ as') =
      >>-Keeps (create_attendee-Keeps before e o a.ticket_type_id a.name a.email)
        (create_attendees-Keeps o as')

  reserve_once-Keeps :
      (req : CheckoutRequest) → Keeps (Evolved before) (reserve_once e (event_provider e) req)
  unfolding reserve_once reserve_tx
  reserve_once-Keeps req = >>=-Keeps (now-Keeps e) λ at. >>=-Keeps (number-Keeps at) λ number.
      in_tx-Keeps e (
        >>=-Keeps (reserve_items-Keeps (pos 0) [] req.items) λ r.
          >>=-Keeps (create_order-Keeps before e _) λ created.
            >>-Keeps (create_items-Keeps created.id r.1)
              (>>-Keeps (create_attendees-Keeps created.id req.attendees) (pure-Keeps _)))

  reserve_attempts-Keeps :
      (n : ℕ) (last : Error) (req : CheckoutRequest)
      → Keeps (Evolved before) (reserve_attempts e (event_provider e) n last req)
  unfolding reserve_attempts
  reserve_attempts-Keeps zero last req = throw-Keeps _
  reserve_attempts-Keeps (suc n) last req =
      handle-Keeps (reserve_once-Keeps req) (λ _. pure-Keeps _)
        λ x.
          if-Keeps (errors_is x Sentinel.order_number_taken) (reserve_attempts-Keeps n x req)
            (throw-Keeps _)

  restore_lines-Keeps :
      (ls : List ReservedLine) → Keeps (Evolved before) (restore_lines e (event_provider e) ls)
  unfolding restore_lines
  restore_lines-Keeps [] = pure-Keeps _
  restore_lines-Keeps (l ∷ ls) =
      >>-Keeps (restore_quota-Keeps before e l.ticket_type_id l.quantity) (restore_lines-Keeps ls)

  compensate-Keeps : (r : Reservation) → Keeps (Evolved before) (compensate e (event_provider e) r)
  unfolding compensate compensate_tx
  compensate-Keeps r =
      handle-Keeps
        (in_tx-Keeps e (
          >>=-Keeps (move-Keeps before e r.created.id OrderStatus.cancelled)
            (λ cancelled. if-Keeps cancelled (restore_lines-Keeps r.lines) (pure-Keeps _))))
        (λ _. pure-Keeps _) (λ _. pure-Keeps _)

  module _ (g : PaymentGateway)
      (fair : (n : ℕ) (d : Db) → Evolved before d → Evolved before (e.others n d)) where
    pay-Keeps :
        (req : CheckoutRequest) (r : Reservation)
        → Keeps (Evolved before) (pay e (event_provider e) g req r)
    unfolding pay stamp
    pay-Keeps req r =
        handle-Keeps (remote-Keeps e _ fair)
          (λ session.
            >>-Keeps (map_error-Keeps _ (in_tx-Keeps e (stamp_order-Keeps before e r.created.id _)))
              (pure-Keeps _))
          (λ x. >>-Keeps (compensate-Keeps r) (throw-Keeps _))

    pub checkout-Keeps :
        (req : CheckoutRequest) → Keeps (Evolved before) (checkout e (event_provider e) g req)
    unfolding checkout reserve
    checkout-Keeps req = elim (Option-cases (validate e.parse_address req)) [
      | inr (x, bad) ↦ rw (bad, checkout) (throw-Keeps _)
      | inl good ↦
          rw (good, checkout)
            (>>=-Keeps (reserve_attempts-Keeps order_number_attempts plain req)
              (λ r. pay-Keeps req r))
    ]
