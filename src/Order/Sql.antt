-- ===== src/Order/Sql.antt =====
-- The statements of backend/internal/order/ordersql/order.sql.go that checkout, payment, ticket
-- issue and the delete guards run. Rows are inserted at the head of a table: SQL gives a table no
-- order. Constraints of the schema are refused by the database, with the error that it reports.
use event_portal.Base.{
  ℕ, ℤ, pos, negsuc, ◌+ℤ◌, leb_ℤ, Text, text_eq, find, find_by, update, select, exists, sort_by,
  take, leb, ◌==◌, ◌&&◌, ◌||◌, if◌then◌else◌, Bool, true, false, Option, none, some, List, ◌∷◌, [],
}
use event_portal.Errors.{pg, Failure}
use event_portal.Store.{
  Db, Uuid, Time, Cents, Order, OrderItem, Attendee, TicketType, OrderStatus, is_pending,
}
use event_portal.Effect.{Env, Result, ok, err, M, statement, query, query_row}

pub record CreateOrderParams : Type 0 where
  pub order_number : Text
  pub buyer_name : Text
  pub buyer_email : Text
  pub buyer_phone : Text
  pub total_amount : Cents

abbrev pub order_id : Order → Uuid
order_id o = o.id

abbrev pub ticket_type_id : TicketType → Uuid
ticket_type_id t = t.id

abbrev pub has_number : Text → Order → Bool
has_number n o = text_eq o.order_number n

-- NUMERIC(12, 2) holds fewer than 10^10 whole units.
abbrev pub fits_numeric : Cents → Bool
fits_numeric a = leb_ℤ (negsuc 999999999998) a && leb_ℤ a (pos 999999999999)

abbrev pub new_order : Uuid → Time → CreateOrderParams → Order
new_order u t p = record {
  id = u;
  order_number = p.order_number;
  buyer_name = p.buyer_name;
  buyer_email = p.buyer_email;
  buyer_phone = p.buyer_phone;
  total_amount = p.total_amount;
  status = OrderStatus.pending;
  payment_provider = none;
  payment_url = none;
  email_sent = false;
  created_at = t;
  payment_qr_string = none;
  payment_expires_at = none;
}

unfoldable pub insert_order : CreateOrderParams → Uuid → Time → Db → Result Order × Db
insert_order p u t d =
    if exists (λ o. o.id == u) d.orders || exists (has_number p.order_number) d.orders
    then (err (pg Failure.unique_violation), d)
    else (if fits_numeric p.total_amount
        then (ok (new_order u t p), record d { orders = new_order u t p ∷ d.orders })
        else (err (pg Failure.out_of_range), d))

-- `order_id` and `ticket_type_id` reference rows of the other tables.
unfoldable pub references : Uuid → Uuid → Db → Bool
references o tt d = exists (λ x. x.id == o) d.orders && exists (λ x. x.id == tt) d.ticket_types

unfoldable pub insert_item : Uuid → Uuid → ℤ → Cents → Uuid → Db → Result OrderItem × Db
insert_item o tt qty price u d =
    let row : OrderItem = record {
      id = u;
      order_id = o;
      ticket_type_id = tt;
      quantity = qty;
      price = price;
    } in
    if exists (λ x. x.id == u) d.order_items
    then (err (pg Failure.unique_violation), d)
    else (if references o tt d
        then (ok row, record d { order_items = row ∷ d.order_items })
        else (err (pg Failure.foreign_key_violation), d))

unfoldable pub insert_attendee : Uuid → Uuid → Text → Text → Uuid → Db → Result Attendee × Db
insert_attendee o tt name email u d =
    let row : Attendee = record {
      id = u;
      order_id = o;
      ticket_type_id = tt;
      name = name;
      email = email;
    } in
    if exists (λ x. x.id == u) d.attendees
    then (err (pg Failure.unique_violation), d)
    else (if references o tt d
        then (ok row, record d { attendees = row ∷ d.attendees })
        else (err (pg Failure.foreign_key_violation), d))

-- The rows that an UPDATE … WHERE id = $1 changed, and the tables after it.
abbrev pub put_order : Uuid → (Order → Order) → Db → Db
put_order i f d = record d { orders = update order_id i f d.orders }

unfoldable pub update_row : Uuid → (Order → Order) → Option Order → Db → Result ℕ × Db
update_row i f none d = (ok 0, d)
update_row i f (some o) d = (ok 1, put_order i f d)

-- UPDATE orders SET status = $2 WHERE id = $1 AND status = 'PENDING'
unfoldable pub update_pending : Uuid → OrderStatus → Option Order → Db → Result ℕ × Db
update_pending i s none d = (ok 0, d)
update_pending i s (some o) d =
    if is_pending o.status then (ok 1, put_order i (λ x. record x { status = s }) d) else (ok 0, d)

-- status = 'PENDING' AND payment_expires_at IS NOT NULL AND payment_expires_at <= $1
abbrev pub is_due : Time → Order → Bool
is_due at o = elim o.payment_expires_at [ none ↦ false | some t ↦ is_pending o.status && leb t at ]

abbrev pub deadline : Order → ℕ
deadline o = elim o.payment_expires_at [ none ↦ 0 | some t ↦ t ]

-- SUM(quantity) of one ticket type
abbrev pub sold_in : Uuid → List OrderItem → ℤ
sold_in tt [] = pos 0
sold_in tt (i ∷ is) = (if i.ticket_type_id == tt then i.quantity else pos 0) +ℤ sold_in tt is

-- One row of the sold counts.
pub record SoldCount : Type 0 where
  pub ticket_type_id : Uuid
  pub sold : ℤ

abbrev pub member : Uuid → List Uuid → Bool
member i ids = exists (λ j. j == i) ids

-- GROUP BY ticket_type_id with SUM(quantity), one item at a time
unfoldable pub add_sold : Uuid → ℤ → List SoldCount → List SoldCount
add_sold t q [] = record { ticket_type_id = t; sold = q } ∷ []
add_sold t q (r ∷ rs) =
    if r.ticket_type_id == t
    then record { ticket_type_id = t; sold = q +ℤ r.sold } ∷ rs
    else r ∷ add_sold t q rs

unfoldable pub sold_rows : List Uuid → List OrderItem → List SoldCount
sold_rows ids [] = []
sold_rows ids (i ∷ is) =
    let rest = sold_rows ids is in
    if member i.ticket_type_id ids then add_sold i.ticket_type_id i.quantity rest else rest

module _ (e : Env) where
  unfoldable pub create_order : CreateOrderParams → M Order
  unfolding insert_order
  create_order p = statement e (λ u t d. insert_order p u t d)

  unfoldable pub create_order_item : Uuid → Uuid → ℤ → Cents → M OrderItem
  unfolding insert_item references
  create_order_item o tt qty price = statement e (λ u _ d. insert_item o tt qty price u d)

  unfoldable pub create_attendee : Uuid → Uuid → Text → Text → M Attendee
  unfolding insert_attendee references
  create_attendee o tt name email = statement e (λ u _ d. insert_attendee o tt name email u d)

  unfoldable pub order_number_exists : Text → M Bool
  order_number_exists n = query e (λ d. exists (has_number n) d.orders)

  unfoldable pub update_payment_details :
      Uuid → Option Text → Option Text → Option Text → Option Time → M ℕ
  unfolding update_row
  update_payment_details i url provider qr expires = statement e λ _ _ d.
      update_row i
        (λ o. record o {
          payment_url = url;
          payment_provider = provider;
          payment_qr_string = qr;
          payment_expires_at = expires;
        })
        (find order_id i d.orders) d

  unfoldable pub update_order_status_if_pending : Uuid → OrderStatus → M ℕ
  unfolding update_pending
  update_order_status_if_pending i s =
      statement e (λ _ _ d. update_pending i s (find order_id i d.orders) d)

  unfoldable pub set_email_sent : Uuid → M ℕ
  unfolding update_row
  set_email_sent i =
      statement e
        (λ _ _ d. update_row i (λ o. record o { email_sent = true }) (find order_id i d.orders) d)

  unfoldable pub get_order_by_id : Uuid → M Order
  get_order_by_id i = query_row e (λ d. find order_id i d.orders)

  unfoldable pub get_order_by_number : Text → M Order
  get_order_by_number n = query_row e (λ d. find_by (has_number n) d.orders)

  unfoldable pub list_orders_due_for_expiry : Time → ℕ → M (List Order)
  list_orders_due_for_expiry at limit =
      query e (λ d. take limit (sort_by deadline (select (is_due at) d.orders)))

  unfoldable pub list_order_items_by_order_id : Uuid → M (List OrderItem)
  list_order_items_by_order_id i = query e (λ d. select (λ x. x.order_id == i) d.order_items)

  unfoldable pub list_attendees_by_order_id : Uuid → M (List Attendee)
  list_attendees_by_order_id i =
      query e (λ d. sort_by (λ x. x.id) (select (λ x. x.order_id == i) d.attendees))

  unfoldable pub has_orders_for_ticket_type : Uuid → M Bool
  has_orders_for_ticket_type tt = query e λ d.
      exists (λ x. x.ticket_type_id == tt) d.order_items
      || exists (λ x. x.ticket_type_id == tt) d.attendees

  unfoldable pub has_orders_for_ticket_types : List Uuid → M Bool
  has_orders_for_ticket_types ids = query e λ d.
      exists (λ x. member x.ticket_type_id ids) d.order_items
      || exists (λ x. member x.ticket_type_id ids) d.attendees

  unfoldable pub sold_count_by_ticket_types : List Uuid → M (List SoldCount)
  unfolding sold_rows add_sold
  sold_count_by_ticket_types ids = query e (λ d. sold_rows ids d.order_items)
