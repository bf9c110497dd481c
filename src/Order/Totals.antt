-- ===== src/Order/Totals.antt =====
-- The amount of an order: what checkout stores, and what it asks the payment gateway for.
use event_portal.Base.{
  ℕ, zero, suc, ℤ, pos, ◌+ℤ◌, ◌*ℤ◌, Text, ◌||◌, ltb, List, [], ◌∷◌, ◌++◌, find, some, ◌≡◌, refl,
  sym, ◌∙◌, subst,
}
use event_portal.Errors.{Error, Sentinel, errors_is, plain}
use event_portal.Store.{Db, Time, Order, OrderStatus}
use event_portal.Seats.{Linked}
use event_portal.Effect.{Env, World, M, ok}
use event_portal.Effect.Laws.{
  Ends, Ends-ok, Ends-weaken, >>=-Ends, >>-Ends, handle-Ends, pure-Ends, throw-Ends, map_error-Ends,
  in_tx-Ends, if-Ends, statement-Ends, now-Ends,
}
use event_portal.Effect.Keeps.{Keeps, pure-Keeps, map_error-Keeps, >>=-Keeps, >>-Keeps}
use event_portal.Randcode.Laws.{new_code-Ends}
use event_portal.Order.Sql
use event_portal.Order.Sql.{CreateOrderParams, order_id}
use event_portal.Order.Repository
use event_portal.Order.Number.{generate_order_number, order_number_suffix_length}
use event_portal.Order.Request.{CheckoutItem, CheckoutAttendee, CheckoutRequest}
use event_portal.Order.Checkout.{
  ReservedLine, Reservation, line_of, payment_request_for, reserve_items, reserve_tx, create_items,
  create_attendees, reserve_once, reserve_attempts, reserve, order_number_attempts,
}
use event_portal.Order.LineSums.{
  line_total, item_total, assoc, one_more, item_total-map, plus_zero, zero_first,
}
use event_portal.Order.Amounts.{
  rows_total, Holding, insert_order-Holding, insert_item-Holding, info-Rows, deduct-Rows,
  create_attendee-Rows,
}
use event_portal.Adapters.{event_provider}

-- The order that was reserved is stored, and its stored items come to the sum over its lines.
abbrev pub IsStored : Reservation → Db → Type 0
IsStored r d = Holding r.created (line_total r.lines) d.orders d.order_items

-- The order's amount is the sum of its lines, and the order is PENDING.
abbrev pub IsPriced : Reservation → Type 0
IsPriced r =
    (r.total ≡ line_total r.lines)
    × ((r.created.total_amount ≡ r.total) × (r.created.status ≡ OrderStatus.pending))

abbrev AreLinked : Db → Type 0
AreLinked d = Linked d.orders d.order_items

free :
    {A : Type 0} {P : Db → Type 0} {m : M A} {w : World}
    → Ends (λ _. P) P m w
    → Ends (λ _. P) (λ _. Unit) m w
free k = Ends-weaken k (λ _ _ x. x) (λ _ _. tt)

module _ (e : Env) where
  reserve_items-total :
      (total : ℤ) (reserved : List ReservedLine) (items : List CheckoutItem) (w : World)
      → total ≡ line_total reserved
      → AreLinked w.db
      → Ends
          (λ r d. (r.0 ≡ line_total r.1) × AreLinked d)
          (λ _. Unit)
          (reserve_items e (event_provider e) total reserved items)
          w
  unfolding reserve_items
  reserve_items-total total reserved [] w h l = pure-Ends _ (h, l)
  reserve_items-total total reserved (i ∷ is) w h l =
      >>=-Ends (λ _. AreLinked) (free ((info-Rows Linked e i.ticket_type_id).keep w l))
        λ info w₁ l₁.
          >>=-Ends (λ _. AreLinked) (now-Ends e (λ _. l₁))
            λ at w₂ l₂.
              >>-Ends (λ _. AreLinked)
                (if-Ends (ltb at info.sales_start || ltb info.sales_end at) (λ _. throw-Ends _ tt)
                  (λ _. pure-Ends _ l₂))
                λ _ w₃ l₃.
                  >>-Ends (λ _. AreLinked)
                    (map_error-Ends _
                      (free ((deduct-Rows Linked e i.ticket_type_id i.quantity).keep w₃ l₃)))
                    λ _ w₄ l₄.
                      reserve_items-total (total +ℤ info.price *ℤ i.quantity)
                        (reserved ++ (line_of i info ∷ [])) is w₄
                        (one_more total reserved (line_of i info) h) l₄

  create_order-Holding :
      (w : World) (p : CreateOrderParams)
      → AreLinked w.db
      → Ends
          (λ o d.
            Holding o (pos 0) d.orders d.order_items
            × ((o.total_amount ≡ p.total_amount) × (o.status ≡ OrderStatus.pending)))
          (λ _. Unit)
          (Repository.create_order e p)
          w
  unfolding Repository.create_order Sql.create_order
  create_order-Holding w p l =
      map_error-Ends _ (statement-Ends e _ tt (λ u t. insert_order-Holding p u t w.db l))

  create_item-Holding :
      (o : Order) (a : ℤ) (l : ReservedLine) (w : World)
      → Holding o a w.db.orders w.db.order_items
      → Ends
          (λ _ d. Holding o (a +ℤ l.unit_price *ℤ l.quantity) d.orders d.order_items)
          (λ _. Unit)
          (Repository.create_order_item e o.id l.ticket_type_id l.quantity l.unit_price)
          w
  unfolding Repository.create_order_item Sql.create_order_item
  create_item-Holding o a l w h =
      >>-Ends (λ _ d. Holding o (a +ℤ l.unit_price *ℤ l.quantity) d.orders d.order_items)
        (map_error-Ends _ (
          statement-Ends e _ tt
            (λ u _. insert_item-Holding o a l.ticket_type_id l.quantity l.unit_price u w.db h)))
        (λ _ _ k. pure-Ends _ k)

  create_items-Holding :
      (o : Order) (a : ℤ) (ls : List ReservedLine) (w : World)
      → Holding o a w.db.orders w.db.order_items
      → Ends
          (λ _ d. Holding o (a +ℤ line_total ls) d.orders d.order_items)
          (λ _. Unit)
          (create_items e (event_provider e) o.id ls)
          w
  unfolding create_items line_total
  create_items-Holding o a [] w h =
      pure-Ends _ (subst (λ b. Holding o b w.db.orders w.db.order_items) (plus_zero a) h)
  create_items-Holding o a (l ∷ ls) w h =
      >>-Ends (λ _ d. Holding o (a +ℤ l.unit_price *ℤ l.quantity) d.orders d.order_items)
        (create_item-Holding o a l w h)
        λ _ w₁ h₁.
          Ends-weaken (create_items-Holding o (a +ℤ l.unit_price *ℤ l.quantity) ls w₁ h₁)
            (λ _ d k.
              subst (λ b. Holding o b d.orders d.order_items)
                (sym (assoc a (l.unit_price *ℤ l.quantity) (line_total ls))) k)
            (λ _ k. k)

  create_attendees-Holding :
      (o : Order) (a : ℤ) (as' : List CheckoutAttendee)
      → Keeps
          (λ d. Holding o a d.orders d.order_items)
          (create_attendees e (event_provider e) o.id as')
  unfolding create_attendees
  create_attendees-Holding o a [] = pure-Keeps _
  create_attendees-Holding o a (x ∷ xs) =
      >>-Keeps (create_attendee-Rows (Holding o a) e o.id x.ticket_type_id x.name x.email)
        (create_attendees-Holding o a xs)

  reserve_tx-IsStored :
      (req : CheckoutRequest) (number : Text) (w : World)
      → AreLinked w.db
      → Ends
          (λ r d. IsPriced r × IsStored r d)
          (λ _. Unit)
          (reserve_tx e (event_provider e) req number)
          w
  unfolding reserve_tx
  reserve_tx-IsStored req number w l =
      >>=-Ends (λ r d. (r.0 ≡ line_total r.1) × AreLinked d)
        (reserve_items-total (pos 0) [] req.items w (unfold line_total in refl) l)
        λ r w₁ h.
          >>=-Ends
            (λ o d.
              Holding o (pos 0) d.orders d.order_items
              × ((o.total_amount ≡ r.0) × (o.status ≡ OrderStatus.pending)))
            (create_order-Holding w₁ _ h.1)
            λ o w₂ k.
              >>-Ends (λ _ d. Holding o (pos 0 +ℤ line_total r.1) d.orders d.order_items)
                (create_items-Holding o (pos 0) r.1 w₂ k.0)
                λ _ w₃ k₃.
                  >>-Ends (λ _ d. Holding o (pos 0 +ℤ line_total r.1) d.orders d.order_items)
                    (free (
                      (create_attendees-Holding o (pos 0 +ℤ line_total r.1) req.attendees).keep w₃
                        k₃))
                    λ _ w₄ k₄. pure-Ends _ (
                      (h.0, k.1),
                      subst (λ b. Holding o b w₄.db.orders w₄.db.order_items)
                          (zero_first (line_total r.1) (line_total r.1) refl) k₄,
                    )

  number-Linked : (at : Time) → Keeps AreLinked (generate_order_number e at)
  unfolding generate_order_number
  number-Linked at =
      >>=-Keeps
        (map_error-Keeps _
          (record { keep = λ v h. new_code-Ends e order_number_suffix_length v h }))
        (λ _. pure-Keeps _)

  reserve_attempts-IsStored :
      (n : ℕ) (last : Error) (req : CheckoutRequest) (w : World)
      → AreLinked w.db
      → Ends
          (λ r d. IsPriced r × IsStored r d)
          AreLinked
          (reserve_attempts e (event_provider e) n last req)
          w
  unfolding reserve_attempts reserve_once
  reserve_attempts-IsStored zero last req w l = throw-Ends _ l
  reserve_attempts-IsStored (suc n) last req w l =
      handle-Ends (λ r d. IsPriced r × IsStored r d) AreLinked
        (>>=-Ends (λ _. AreLinked) (now-Ends e (λ _. l))
          λ at w₁ l₁.
            >>=-Ends (λ _. AreLinked) ((number-Linked at).keep w₁ l₁)
              λ number w₂ l₂.
                in_tx-Ends e l₂ (λ _ _ k. k.1.1.1)
                  (λ w₃ same. reserve_tx-IsStored req number w₃ (rw same l₂)))
        (λ _ _ h. pure-Ends _ h)
        λ x w₁ l₁.
          if-Ends (errors_is x Sentinel.order_number_taken)
            (λ _. reserve_attempts-IsStored n x req w₁ l₁) (λ _. throw-Ends _ l₁)

  -- On tables where every order item is of a stored order: a reservation that succeeds has stored
  -- its order, PENDING, and the stored items of that order come, price times quantity, to the
  -- stored amount. The request made of it for the payment gateway is for that same amount, and
  -- for items that add up to it.
  pub payment_request_for-reserve :
      (req : CheckoutRequest) (w w' : World) (r : Reservation)
      → Linked w.db.orders w.db.order_items
      → reserve e (event_provider e) req w ≡ (ok r, w')
      → (find order_id r.created.id w'.db.orders ≡ some r.created)
        × ((r.created.status ≡ OrderStatus.pending)
            × ((rows_total r.created.id w'.db.order_items ≡ r.created.total_amount)
                × (((payment_request_for r req).gross_amount ≡ r.created.total_amount)
                    × (item_total (payment_request_for r req).items ≡ r.created.total_amount))))
  unfolding reserve payment_request_for
  payment_request_for-reserve req w w' r l done =
      let h = Ends-ok (reserve_attempts-IsStored order_number_attempts plain req w l) r w' done in
      let priced = sym (h.0.1.0 ∙ h.0.0) in
      (h.1.0, (h.0.1.1, (h.1.1.0 ∙ priced, (sym h.0.1.0, item_total-map r.lines ∙ priced))))
