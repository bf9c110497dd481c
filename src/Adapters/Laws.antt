-- ===== src/Adapters/Laws.antt =====
-- The operations that the adapters pass on keep the contracts that checkout and payment rely on.
use event_portal.Base.{
  ℕ, int_laws, Text, ◌==◌, List, [], ◌∷◌, map, select, ◌≡◌, refl, inl, inr, Bool-cases,
}
use event_portal.Store.{Db, Uuid, Time, OrderItem}
use event_portal.Effect.{Env, World}
use event_portal.Effect.Laws.{
  Ends, Ends-weaken, >>=-Ends, pure-Ends, map_error-Ends, query-Ends, query_row-Ends,
}
use event_portal.Seats.{items_in, Sound}
use event_portal.Event.Repository as EventRepository
use event_portal.Event.Service as EventService
use event_portal.Event.Sql as EventSql
use event_portal.Event.Seats.{check_and_deduct_quota-Sound, restore_quota-Sound}
use event_portal.Order.Repository as OrderRepository
use event_portal.Order.Sql as OrderSql
use event_portal.Order.Writes.{update_order_status_if_pending-Sound}
use event_portal.Order.Contract.{Restores, SeatContract}
use event_portal.Payment.Contract.{Reads, line_seats, OrderContract}
use event_portal.Adapters.{
  line_item, ticket_type_for_checkout, check_and_deduct_quota, order_by_number, due_for_expiry,
  line_items, event_provider, order_provider, quota_restorer,
}

line_seats-select :
    (t o : Uuid) (items : List OrderItem)
    → line_seats t (map line_item (select (λ x. x.order_id == o) items)) ≡ items_in t o items
unfolding select items_in
line_seats-select t o [] = refl
line_seats-select t o (i ∷ is) = elim (Bool-cases (i.order_id == o)) [
  | inl mine ↦ rw (mine, line_seats-select t o is) refl
  | inr other ↦ rw (other, line_seats-select t o is) (omega int_laws)
]

module _ (e : Env) where
  ticket_type_for_checkout-Reads : (i : Uuid) → Reads (ticket_type_for_checkout e i)
  unfolding ticket_type_for_checkout EventService.get_ticket_type_for_checkout
      EventRepository.get_ticket_type_by_id EventSql.get_ticket_type_by_id
  ticket_type_for_checkout-Reads i P w h =
      >>=-Ends (λ _. P) (map_error-Ends _ (map_error-Ends _ (query_row-Ends e _ h (λ _ _. h))))
        (λ _ _ k. pure-Ends _ k)

  pub event_provider-SeatContract : SeatContract (event_provider e)
  unfolding check_and_deduct_quota
  event_provider-SeatContract = record {
    reads = λ t c F i w s.
        Ends-weaken (ticket_type_for_checkout-Reads i (Sound t c F) w s) (λ _ _ k. k) (λ _ _. tt);
    deducts = λ t c F i qty E w keep s.
        map_error-Ends _ (check_and_deduct_quota-Sound t c F i qty E e w keep s);
    restores = λ t c F i qty E w keep s. restore_quota-Sound t c F i qty E e w keep s;
  }

  pub order_by_number-Reads : (n : Text) → Reads (order_by_number e n)
  unfolding order_by_number OrderRepository.get_order_by_number OrderSql.get_order_by_number
  order_by_number-Reads n P w h =
      >>=-Ends (λ _. P) (map_error-Ends _ (map_error-Ends _ (query_row-Ends e _ h (λ _ _. h))))
        (λ _ _ k. pure-Ends _ k)

  pub due_for_expiry-Reads : (at : Time) (n : ℕ) → Reads (due_for_expiry e at n)
  unfolding due_for_expiry OrderRepository.list_orders_due_for_expiry
      OrderSql.list_orders_due_for_expiry
  due_for_expiry-Reads at n P w h =
      >>=-Ends (λ _. P)
        (>>=-Ends (λ _. P) (map_error-Ends _ (query-Ends e _ h h)) (λ _ _ k. pure-Ends _ k))
        (λ _ _ k. pure-Ends _ k)

  pub line_items-Ends :
      (t o : Uuid) (P : Db → Type 0) (w : World)
      → P w.db
      → Ends
          (λ items d. P d × (line_seats t items ≡ items_in t o d.order_items))
          P
          (line_items e o)
          w
  unfolding line_items OrderRepository.list_order_items_by_order_id
      OrderSql.list_order_items_by_order_id
  line_items-Ends t o P w h =
      >>=-Ends (λ items d. P d × (line_seats t (map line_item items) ≡ items_in t o d.order_items))
        (map_error-Ends _ (query-Ends e _ h (h, line_seats-select t o w.db.order_items)))
        (λ _ _ k. pure-Ends _ k)

  pub order_provider-OrderContract : OrderContract (order_provider e)
  order_provider-OrderContract = record {
    reads_order = order_by_number-Reads;
    reads_due = due_for_expiry-Reads;
    lists_items = line_items-Ends;
    moves = λ t c o n s w h i. update_order_status_if_pending-Sound t c e w o n s h i;
  }

  pub restore_quota-Restores : Restores (quota_restorer e).restore_quota
  restore_quota-Restores t c F i qty E w keep s = restore_quota-Sound t c F i qty E e w keep s
