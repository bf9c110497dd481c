-- ===== src/Notification/Delivery.antt =====
-- When a ticket email is sent, and what sending one changes.
use event_portal.Base.{
  sort_with, ℕ, ◌==◌, Text, true, false, Option, none, some, List, map, select, length, find, ◌≡◌,
  refl, sym, ap, ◌∙◌, ◌⊎◌, absurd_bool, inl, inr,
}
use event_portal.Errors.{Error, plain, bad_request, not_found_error, Code}
use event_portal.Store.{Db, Uuid, Order, is_paid}
use event_portal.Effect.{Env, World, Result, ok, err, handle, pure}
use event_portal.Effect.Outcome.{
  of_result-Outcome, Outcome, OutcomeAt, OutcomeOn, pure-Outcome, throw-Outcome, if-Outcome,
  >>=-Outcome, >>-Outcome, map_error-Outcome, statement-Outcome, query-Outcome, query_row-Outcome,
  remote-Outcome, Outcome-weaken,
}
use event_portal.Order.Sql as OrderSql
use event_portal.Order.Sql.{order_id, put_order, update_row}
use event_portal.Order.Repository as OrderRepository
use event_portal.Ticket.Sql as TicketSql
use event_portal.Ticket.Sql.{join_all, of_order, ticket_before}
use event_portal.Ticket.Repository as TicketRepository
use event_portal.Notification.Service as Notification
use event_portal.Notification.Service.{OrderDelivery, TicketDetail, Mailer, Message, ticket_message}
use event_portal.Event.Admin.Restrict.{down}
use event_portal.Adapters.{
  delivery_of, detail_of, order_for_delivery, ticket_details_for_order, send_ticket_email,
  delivery_orders, delivery_tickets,
}

-- The tickets of an order as its email lists them.
abbrev pub tickets_for : Env → Uuid → Db → List TicketDetail
tickets_for e i d =
    map detail_of (join_all d (sort_with (ticket_before e) (select (of_order i) d.tickets)))

abbrev pub flagged : Uuid → Db → Db
flagged i d = put_order i (λ o. record o { email_sent = true }) d

-- The mail server has answered `answer` to the email of the order `o`, at the call `n`.
abbrev pub Answered : Env → Mailer → Uuid → Db → Order → ℕ → Result (Unit {0}) → Type 0
Answered e mailer i d o n answer =
    (pdf : Text) × ((mailer.render (delivery_of o) (tickets_for e i d) ≡ ok pdf)
      × (mailer.deliver (ticket_message (delivery_of o) (tickets_for e i d) pdf) n ≡ answer))

-- The order is PAID and has tickets.
abbrev pub Deliverable : Env → Uuid → Db → Order → Type 0
Deliverable e i d o =
    (find order_id i d.orders ≡ some o)
    × ((is_paid o.status ≡ true) × ((length (tickets_for e i d) == 0) ≡ false))

-- What the UPDATE of the flag made of the tables `d₁`: it was tried, and its result tells whether the
-- flag is set.
abbrev pub Marked : Env → Uuid → Db → Db → Type 0
Marked e i d₁ d =
    (w : World) × ((w.db ≡ d₁)
      × ((((OrderRepository.set_email_sent e i w).0 ≡ ok tt) × (d ≡ flagged i d₁))
          ⊎ ((x : Error) × (((OrderRepository.set_email_sent e i w).0 ≡ err x) × (d ≡ d₁)))))

-- Why no email was given to the mail server.
abbrev pub NotTried : Env → Mailer → Uuid → Db → Error → Type 0
NotTried e mailer i d x =
    (x ≡ down)
    ⊎ (((x ≡ not_found_error Code.order_not_found) × (find order_id i d.orders ≡ none))
        ⊎ ((o : Order) × ((find order_id i d.orders ≡ some o)
              × (((x ≡ bad_request Code.order_not_paid) × (is_paid o.status ≡ false))
                  ⊎ (((x ≡ plain) × ((length (tickets_for e i d) == 0) ≡ true))
                      ⊎ (mailer.render (delivery_of o) (tickets_for e i d) ≡ err x))))))

-- The rows that the flag's UPDATE meets, with the tables after it.
abbrev Flagging : Uuid → Db → ℕ → Db → Type 0
Flagging i d₀ n d = (((n == 0) ≡ true) × (d ≡ d₀)) ⊎ (((n == 0) ≡ false) × (d ≡ flagged i d₀))

flag-row :
    (i : Uuid) (d₀ : Db) (o : Option Order)
    → OutcomeOn
        (Flagging i d₀)
        (λ _ d. d ≡ d₀)
        (update_row i (λ o. record o { email_sent = true }) o d₀)
unfolding update_row
flag-row i d₀ none = inl (refl, refl)
flag-row i d₀ (some o) = inr (refl, refl)

still_there : (i n : ℕ) (d₀ d : Db) → Flagging i d₀ n d → (n == 0) ≡ true → d ≡ d₀
still_there i n d₀ d (inl (z, same)) h = same
still_there i n d₀ d (inr (z, put)) h = absurd_bool (sym z ∙ h)

flag_set : (i n : ℕ) (d₀ d : Db) → Flagging i d₀ n d → (n == 0) ≡ false → d ≡ flagged i d₀
flag_set i n d₀ d (inl (z, same)) h = absurd_bool (sym h ∙ z)
flag_set i n d₀ d (inr (z, put)) h = put

module _ (e : Env) (mailer : Mailer) (i : Uuid) where
  set_email_sent-Outcome :
      (d₀ : Db) (w : World)
      → w.db ≡ d₀
      → Outcome (λ _ d. d ≡ flagged i d₀) (λ _ d. d ≡ d₀) (OrderRepository.set_email_sent e i) w
  unfolding OrderRepository.set_email_sent OrderSql.set_email_sent
  set_email_sent-Outcome d₀ w same =
      >>=-Outcome (Flagging i d₀)
        (map_error-Outcome _
          (statement-Outcome e _ same (λ _. rw same (flag-row i d₀ (find order_id i d₀.orders)))))
        (λ n w' h.
          if-Outcome (n == 0) (λ none_met. throw-Outcome _ (still_there i n d₀ w'.db h none_met))
            (λ met. pure-Outcome _ (flag_set i n d₀ w'.db h met)))

  Marked-Outcome :
      (d₁ : Db) (w : World)
      → w.db ≡ d₁
      → Outcome
          (λ _ d. Marked e i d₁ d)
          (λ _ _. ⊥)
          (handle (OrderRepository.set_email_sent e i) pure (λ _. pure tt))
          w
  unfolding handle pure
  Marked-Outcome d₁ w same = record {
    end = after (OrderRepository.set_email_sent e i w) refl (set_email_sent-Outcome d₁ w same).end;
  }
    where
      after :
          (r : Result (Unit {0}) × World)
          → (OrderRepository.set_email_sent e i w) ≡ r
          → OutcomeAt (λ _ d. d ≡ flagged i d₁) (λ _ d. d ≡ d₁) r
          → OutcomeAt {A = Unit {0}}
              (λ _ d. Marked e i d₁ d)
              (λ _ _. ⊥)
              (elim r.0 [ ok a ↦ pure a r.1 | err x ↦ pure tt r.1 ])
      after (ok u, w₂) run put = (w, (same, inl (ap (λ r. r.0) run, put)))
      after (err x, w₂) run kept = (w, (same, inr (x, (ap (λ r. r.0) run, kept))))

  order_for_delivery-Outcome :
      (d₀ : Db) (w : World)
      → w.db ≡ d₀
      → Outcome
          (λ v d.
            ((o : Order) × ((find order_id i d₀.orders ≡ some o) × (v ≡ delivery_of o))) × (d ≡ d₀))
          (λ x d. NotTried e mailer i d₀ x × (d ≡ d₀))
          (order_for_delivery e i)
          w
  unfolding order_for_delivery OrderRepository.get_order_by_id OrderSql.get_order_by_id
  order_for_delivery-Outcome d₀ w same =
      >>=-Outcome (λ o d. (find order_id i d₀.orders ≡ some o) × (d ≡ d₀))
        (map_error-Outcome _ (
          map_error-Outcome _ (
            query_row-Outcome e _ (inl refl, same)
              (rw same (λ missing. (inr (inl (refl, missing)), refl)))
              (rw same (λ o found. (found, refl))))))
        (λ o w' (found, same'). pure-Outcome _ ((o, (found, refl)), same'))

  ticket_details-Outcome :
      (d₀ : Db) (w : World)
      → w.db ≡ d₀
      → Outcome
          (λ ts d. (ts ≡ tickets_for e i d₀) × (d ≡ d₀))
          (λ x d. (x ≡ down) × (d ≡ d₀))
          (ticket_details_for_order e i)
          w
  unfolding ticket_details_for_order TicketRepository.list_details_by_order_id
      TicketSql.list_ticket_details_by_order_id
  ticket_details-Outcome d₀ w same =
      >>=-Outcome
        (λ ts d.
          (ts ≡ join_all d₀ (sort_with (ticket_before e) (select (of_order i) d₀.tickets)))
          × (d ≡ d₀))
        (map_error-Outcome _ (query-Outcome e _ (refl, same) (rw same refl, same)))
        (λ ts w' (read, same'). pure-Outcome _ (ap (map detail_of) read, same'))

  -- The email goes out, and then the flag is set or is not.
  deliver_tickets-Outcome :
      (d₀ : Db) (o : Order) (pdf : Text) (w : World)
      → w.db ≡ d₀
      → mailer.render (delivery_of o) (tickets_for e i d₀) ≡ ok pdf
      → Outcome
          (λ _ d. (n : ℕ) × (Answered e mailer i d₀ o n (ok tt) × Marked e i (e.others n d₀) d))
          (λ x d. (n : ℕ) × (Answered e mailer i d₀ o n (err x) × (d ≡ e.others n d₀)))
          (Notification.deliver_tickets e
            (delivery_orders e)
            (delivery_tickets e)
            mailer
            i
            (delivery_of o)
            (tickets_for e i d₀)
            pdf)
          w
  unfolding Notification.deliver_tickets
  deliver_tickets-Outcome d₀ o pdf w same rendered =
      >>-Outcome (λ _ d. (n : ℕ) × (Answered e mailer i d₀ o n (ok tt) × (d ≡ e.others n d₀)))
        (remote-Outcome e _ (λ n _ taken. (n, ((pdf, (rendered, taken)), ap (e.others n) same)))
          (λ n x refused. (n, ((pdf, (rendered, refused)), ap (e.others n) same))))
        (λ _ w₁ (n, (answered, still)).
          Outcome-weaken (Marked-Outcome (e.others n d₀) w₁ still)
            (λ _ _ marked. (n, (answered, marked))) (λ _ _ never. absurd never))

  -- Sending the tickets of an order succeeds only if the order is PAID and has tickets, and the mail
  -- server accepted the email to the buyer with these tickets; then the UPDATE of the order's flag
  -- runs on the tables as the other requests left them, and the flag is set exactly if that UPDATE
  -- succeeds, an error of it being dropped. If it fails, either nothing was given to the mail
  -- server and no table has changed (no database, no such order, an order that is not PAID, no
  -- tickets, or a PDF that cannot be rendered), or the mail server refused the email, and then no
  -- flag is set: the tables are as the other requests left them.
  pub send_ticket_email_lem :
      (w : World)
      → OutcomeAt
          (λ _ d.
            (o : Order) × (Deliverable e i w.db o
              × ((n : ℕ) × (Answered e mailer i w.db o n (ok tt)
                    × Marked e i (e.others n w.db) d))))
          (λ x d.
            (NotTried e mailer i w.db x × (d ≡ w.db))
            ⊎ ((o : Order) × (Deliverable e i w.db o
                  × ((n : ℕ) × (Answered e mailer i w.db o n (err x) × (d ≡ e.others n w.db))))))
          (send_ticket_email e mailer i w)
  unfolding send_ticket_email Notification.send_ticket_email
  send_ticket_email_lem w =
      (>>=-Outcome
        (λ v d.
          ((o : Order) × ((find order_id i w.db.orders ≡ some o) × (v ≡ delivery_of o)))
          × (d ≡ w.db))
        (Outcome-weaken (order_for_delivery-Outcome w.db w refl) (λ _ _ h. h) (λ _ _ h. inl h))
        (λ v w₁ ((o, (found, shown)), same₁). rw shown (
          if-Outcome (is_paid o.status)
            (λ paid.
              >>=-Outcome (λ ts d. (ts ≡ tickets_for e i w.db) × (d ≡ w.db))
                (Outcome-weaken (ticket_details-Outcome w.db w₁ same₁) (λ _ _ h. h)
                  (λ _ _ (lost, same). inl (inl lost, same)))
                (λ ts w₂ (read, same₂). rw read (
                  if-Outcome (length (tickets_for e i w.db) == 0)
                    (λ empty.
                      throw-Outcome _
                        (inl (inr (inr (o, (found, inr (inl (refl, empty))))), same₂)))
                    (λ some_tickets.
                      >>=-Outcome
                        (λ pdf d.
                          (mailer.render (delivery_of o) (tickets_for e i w.db) ≡ ok pdf)
                          × (d ≡ w.db))
                        (of_result-Outcome _ (λ pdf made. (made, same₂))
                          (λ x failed. inl (inr (inr (o, (found, inr (inr failed)))), same₂)))
                        (λ pdf w₃ (made, same₃).
                          Outcome-weaken (deliver_tickets-Outcome w.db o pdf w₃ same₃ made)
                            (λ _ _ h. (o, ((found, (paid, some_tickets)), h)))
                            (λ _ _ h. inr (o, ((found, (paid, some_tickets)), h))))))))
            (λ unpaid.
              throw-Outcome _ (inl (inr (inr (o, (found, inl (refl, unpaid)))), same₁)))))).end
