-- ===== src/Order/Lifecycle.antt =====
-- The statements that requests run: no order is lost, and none goes back.
use event_portal.Base.{
  ℤ, ◌+ℤ◌, ◌-ℤ◌, leb_ℤ, fits_int, pos, ◌==◌, Text, Option, none, some, List, refl, inl, inr, exists,
  Bool-cases,
}
use event_portal.Store.{Db, Uuid, Cents, Order, OrderStatus, TicketType}
use event_portal.Effect.{Env}
use event_portal.Effect.Laws.{EndsOn}
use event_portal.Effect.Keeps.{
  Keeps, pure-Keeps, throw-Keeps, map_error-Keeps, if-Keeps, >>=-Keeps, >>-Keeps, statement-Keeps,
  query_row-Keeps,
}
use event_portal.Event.Sql as EventSql
use event_portal.Event.Sql.{store_quota, deduct_row, restore_row}
use event_portal.Event.Repository as EventRepository
use event_portal.Event.Service as EventService
use event_portal.Order.Sql
use event_portal.Order.Sql.{CreateOrderParams, insert_item, insert_attendee, references}
use event_portal.Order.Repository
use event_portal.Order.Repository.{PaymentDetails, found_row}
use event_portal.Order.Evolution.{
  StatusStep, Evolved, insert_order-Evolved, update_pending-Evolved, update_row-Evolved,
}
use event_portal.Adapters.{ticket_type_for_checkout, check_and_deduct_quota}

module _ (before : List Order) where
  store_quota-Evolved :
      (i : Uuid) (q : ℤ) (d : Db)
      → Evolved before d
      → EndsOn (λ _. Evolved before) (Evolved before) (store_quota i q d)
  unfolding store_quota
  store_quota-Evolved i q d v = elim (Bool-cases (fits_int q)) [
    | inr wide ↦ rw wide v
    | inl fits ↦ elim (Bool-cases (leb_ℤ (pos 0) q)) [
      | inr below ↦ rw (fits, below) v
      | inl above ↦ rw (fits, above) v
    ]
  ]

  deduct_row-Evolved :
      (i : Uuid) (qty : ℤ) (row : Option TicketType) (d : Db)
      → Evolved before d
      → EndsOn (λ _. Evolved before) (Evolved before) (deduct_row i qty row d)
  unfolding deduct_row
  deduct_row-Evolved i qty none d v = v
  deduct_row-Evolved i qty (some x) d v = elim (Bool-cases (leb_ℤ qty x.quota)) [
    | inr short ↦ rw short v
    | inl enough ↦ rw enough (store_quota-Evolved i (x.quota -ℤ qty) d v)
  ]

  restore_row-Evolved :
      (i : Uuid) (qty : ℤ) (row : Option TicketType) (d : Db)
      → Evolved before d
      → EndsOn (λ _. Evolved before) (Evolved before) (restore_row i qty row d)
  unfolding restore_row
  restore_row-Evolved i qty none d v = v
  restore_row-Evolved i qty (some x) d v = store_quota-Evolved i (x.quota +ℤ qty) d v

  insert_item-Evolved :
      (o i : Uuid) (qty : ℤ) (price : Cents) (u : Uuid) (d : Db)
      → Evolved before d
      → EndsOn (λ _. Evolved before) (Evolved before) (insert_item o i qty price u d)
  unfolding insert_item
  insert_item-Evolved o i qty price u d v =
      elim (Bool-cases (exists (λ x. x.id == u) d.order_items)) [
        | inl dup ↦ rw dup v
        | inr new ↦ elim (Bool-cases (references o i d)) [
          | inr dangling ↦ rw (new, dangling) v
          | inl linked ↦ rw (new, linked) v
        ]
      ]

  insert_attendee-Evolved :
      (o i : Uuid) (name email : Text) (u : Uuid) (d : Db)
      → Evolved before d
      → EndsOn (λ _. Evolved before) (Evolved before) (insert_attendee o i name email u d)
  unfolding insert_attendee
  insert_attendee-Evolved o i name email u d v =
      elim (Bool-cases (exists (λ x. x.id == u) d.attendees)) [
        | inl dup ↦ rw dup v
        | inr new ↦ elim (Bool-cases (references o i d)) [
          | inr dangling ↦ rw (new, dangling) v
          | inl linked ↦ rw (new, linked) v
        ]
      ]

  module _ (e : Env) where
    pub restore_quota-Keeps :
        (i : Uuid) (qty : ℤ) → Keeps (Evolved before) (EventService.restore_quota e i qty)
    unfolding EventService.restore_quota EventRepository.restore_quota EventSql.restore_quota
    restore_quota-Keeps i qty =
        >>-Keeps
          (map_error-Keeps _ (statement-Keeps e _ (λ _ _ d v. restore_row-Evolved i qty _ d v)))
          (pure-Keeps _)

    pub deduct-Keeps :
        (i : Uuid) (qty : ℤ) → Keeps (Evolved before) (check_and_deduct_quota e i qty)
    unfolding check_and_deduct_quota EventService.check_and_deduct_quota
        EventRepository.check_and_deduct_quota EventSql.check_and_deduct_quota
    deduct-Keeps i qty = map_error-Keeps _ (
        >>-Keeps
          (map_error-Keeps _ (statement-Keeps e _ (λ _ _ d v. deduct_row-Evolved i qty _ d v)))
          (pure-Keeps _))

    pub info-Keeps : (i : Uuid) → Keeps (Evolved before) (ticket_type_for_checkout e i)
    unfolding ticket_type_for_checkout EventService.get_ticket_type_for_checkout
        EventRepository.get_ticket_type_by_id EventSql.get_ticket_type_by_id
    info-Keeps i =
        >>=-Keeps (map_error-Keeps _ (map_error-Keeps _ (query_row-Keeps e _))) (λ _. pure-Keeps _)

    pub move-Keeps :
        (o : Uuid) (s : OrderStatus)
        → Keeps (Evolved before) (Repository.update_order_status_if_pending e o s)
    unfolding Repository.update_order_status_if_pending Sql.update_order_status_if_pending
    move-Keeps o s =
        >>=-Keeps
          (map_error-Keeps _
            (statement-Keeps e _ (λ _ _ d v. update_pending-Evolved before o s d _ refl v)))
          (λ _. pure-Keeps _)

    pub stamp_order-Keeps :
        (o : Uuid) (p : PaymentDetails)
        → Keeps (Evolved before) (Repository.update_payment_details e o p)
    unfolding Repository.update_payment_details Sql.update_payment_details
    stamp_order-Keeps o p =
        >>=-Keeps
          (map_error-Keeps _ (
            statement-Keeps e _ λ _ _ d v.
              update_row-Evolved before o _ d _ (λ _. refl)
                (λ r. record { step = StatusStep.stay r.status; number = refl; amount = refl }) refl
                v))
          (λ n. if-Keeps (n == 0) (throw-Keeps _) (pure-Keeps _))

    pub create_order-Keeps :
        (p : CreateOrderParams) → Keeps (Evolved before) (Repository.create_order e p)
    unfolding Repository.create_order Sql.create_order
    create_order-Keeps p =
        map_error-Keeps _ (statement-Keeps e _ (λ u t d v. insert_order-Evolved before p u t d v))

    pub create_order_item-Keeps :
        (o i : Uuid) (qty : ℤ) (price : Cents)
        → Keeps (Evolved before) (Repository.create_order_item e o i qty price)
    unfolding Repository.create_order_item Sql.create_order_item
    create_order_item-Keeps o i qty price =
        >>-Keeps
          (map_error-Keeps _
            (statement-Keeps e _ (λ u _ d v. insert_item-Evolved o i qty price u d v)))
          (pure-Keeps _)

    pub create_attendee-Keeps :
        (o i : Uuid) (name email : Text)
        → Keeps (Evolved before) (Repository.create_attendee e o i name email)
    unfolding Repository.create_attendee Sql.create_attendee
    create_attendee-Keeps o i name email =
        >>=-Keeps
          (map_error-Keeps _
            (statement-Keeps e _ (λ u _ d v. insert_attendee-Evolved o i name email u d v)))
          (λ _. pure-Keeps _)
