-- ===== src/Order/Writes.antt =====
-- The writes of the order repository, seen from the seats of a ticket type.
use event_portal.Base.{
  ℕ, ℤ, pos, ◌+ℤ◌, ◌-ℤ◌, Text, ltb, ◌==◌, if◌then◌else◌, List, ◌≡◌, refl, find, inl, inr,
  Bool-cases,
}
use event_portal.Store.{Uuid, Cents, Order, OrderItem, OrderStatus, is_holding}
use event_portal.Effect.{Env, World}
use event_portal.Effect.Laws.{
  Ends, >>=-Ends, >>-Ends, pure-Ends, throw-Ends, map_error-Ends, statement-Ends,
}
use event_portal.Seats.{share, items_in, IsSound, Sound}
use event_portal.Order.Sql
use event_portal.Order.Sql.{CreateOrderParams}
use event_portal.Order.Repository
use event_portal.Order.Repository.{PaymentDetails, found_row}
use event_portal.Order.Seats.{
  Open, given_back, insert_order-Sound, insert_item-Sound, insert_attendee-Sound,
  update_pending-Sound, update_row-Sound,
}

module _ (t : Uuid) (c : ℤ) (e : Env) (w : World) where
  pub create_order-Sound :
      (p : CreateOrderParams)
      → IsSound t c w.db
      → Ends (λ x. Sound t c (Open t x.id (pos 0))) (λ _. Unit) (Repository.create_order e p) w
  unfolding Repository.create_order Sql.create_order
  create_order-Sound p s =
      map_error-Ends _ (statement-Ends e _ tt λ u at. insert_order-Sound t c u at p w.db s)

  pub create_order_item-Sound :
      (o i : Uuid) (qty : ℤ) (price : Cents) (s : ℤ)
      → Sound t c (Open t o s) w.db
      → Ends
          (λ _. Sound t (c +ℤ share i qty t) (Open t o (s +ℤ share i qty t)))
          (λ _. Unit)
          (Repository.create_order_item e o i qty price)
          w
  unfolding Repository.create_order_item Sql.create_order_item
  create_order_item-Sound o i qty price s h =
      >>-Ends (λ _. Sound t (c +ℤ share i qty t) (Open t o (s +ℤ share i qty t)))
        (map_error-Ends _
          (statement-Ends e _ tt λ u _. insert_item-Sound t c o i qty price s u w.db h))
        (λ _ _ k. pure-Ends _ k)

  pub create_attendee-Sound :
      (F : List Order → List OrderItem → Type 0) (o i : Uuid) (name email : Text)
      → Sound t c F w.db
      → Ends (λ _. Sound t c F) (λ _. Unit) (Repository.create_attendee e o i name email) w
  unfolding Repository.create_attendee Sql.create_attendee
  create_attendee-Sound F o i name email h =
      >>=-Ends (λ _. Sound t c F)
        (map_error-Ends _
          (statement-Ends e _ tt λ u _. insert_attendee-Sound t c F o i name email u w.db h))
        (λ _ _ k. pure-Ends _ k)

  pub update_payment_details-IsSound :
      (o : Uuid) (p : PaymentDetails)
      → IsSound t c w.db
      → Ends (λ _. IsSound t c) (IsSound t c) (Repository.update_payment_details e o p) w
  unfolding Repository.update_payment_details Sql.update_payment_details
  update_payment_details-IsSound o p h =
      >>=-Ends (λ _. IsSound t c)
        (map_error-Ends _ (
          statement-Ends e _ h λ _ _.
            update_row-Sound t c o _ w.db (λ _. refl) (λ _. refl) h (find (λ x. x.id) o w.db.orders)
              refl))
        (λ affected w' k. found_row-Ends affected w' k)
    where
      found_row-Ends :
          (n : ℕ) (w' : World)
          → IsSound t c w'.db
          → Ends (λ _. IsSound t c) (IsSound t c) (found_row n) w'
      found_row-Ends n w' k = elim (Bool-cases (n == 0)) [
        | inl zero_rows ↦ rw zero_rows (throw-Ends _ k)
        | inr found ↦ rw found (pure-Ends _ k)
      ]

  -- The guarded transition, and what it tells its caller about the order's seats.
  pub update_order_status_if_pending-Sound :
      (o : Uuid) (n : ℤ) (s : OrderStatus)
      → IsSound t c w.db
      → items_in t o w.db.order_items ≡ n
      → Ends
          (λ applied d.
            IsSound t (c -ℤ (if applied then given_back (is_holding s) n else pos 0)) d
            × (items_in t o d.order_items ≡ n))
          (λ _. Unit)
          (Repository.update_order_status_if_pending e o s)
          w
  unfolding Repository.update_order_status_if_pending Sql.update_order_status_if_pending
  update_order_status_if_pending-Sound o n s h i =
      >>=-Ends
        (λ affected d.
          IsSound t (c -ℤ (if ltb 0 affected then given_back (is_holding s) n else pos 0)) d
          × (items_in t o d.order_items ≡ n))
        (map_error-Ends _ (
          statement-Ends e _ tt
            λ _ _. update_pending-Sound t c o n s w.db h i (find (λ x. x.id) o w.db.orders) refl))
        (λ _ _ k. pure-Ends _ k)
