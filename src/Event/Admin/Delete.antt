-- ===== src/Event/Admin/Delete.antt =====
-- Deleting an event or a ticket type: what is deleted, and every error.
use event_portal.Base.{
  ◌⊎◌, ltb, ◌==◌, true, false, some, map, length, select, exists, length-select, select_all, ◌≡◌,
  refl, sym, ◌∙◌, inl, inr,
}
use event_portal.Errors.{Error}
use event_portal.Store.{Db, Uuid, TicketType}
use event_portal.Effect.{Env, World}
use event_portal.Effect.Outcome.{
  Outcome, OutcomeAt, pure-Outcome, throw-Outcome, if-Outcome, >>=-Outcome, >>-Outcome,
  map_error-Outcome, statement-Outcome, query-Outcome, in_tx-Outcome, Outcome-weaken,
}
use event_portal.Order.Sql as OrderSql
use event_portal.Order.Sql.{member}
use event_portal.Order.Repository as OrderRepository
use event_portal.Event.Sql.{ticket_type_id}
use event_portal.Event.Admin.Sql
use event_portal.Event.Admin.Sql.{
  refers, remove_ticket_types, remove_event, without_event, without_ticket_types,
}
use event_portal.Event.Admin.Repository
use event_portal.Event.Admin.Service
use event_portal.Event.Admin.Service.{if_found, delete_event_tx, delete_ticket_type_tx}
use event_portal.Adapters.{order_checker}
use event_portal.Event.Admin.Restrict.{
  Placed, down, at_event, has_event, without_event_rows, EventKept, is_ordered, TicketTypeKept,
  guard-refers, nothing_refers, remove_ticket_types-removed, remove_event-removed, nothing_there,
  unordered-refers,
}

module _ (e : Env) (i : Uuid) where
  has_orders-refers :
      (E : Error → Db → Type 0) (d₀ : Db) (w : World)
      → w.db ≡ d₀
      → E down w.db
      → Outcome
          (λ ordered d. (ordered ≡ refers (at_event i) d₀) × (d ≡ d₀))
          E
          (OrderRepository.has_orders_for_ticket_types e
            (map ticket_type_id (select (at_event i) d₀.ticket_types)))
          w
  unfolding OrderRepository.has_orders_for_ticket_types OrderSql.has_orders_for_ticket_types
  has_orders-refers E d₀ w same lost =
      let gone = select (at_event i) d₀.ticket_types in
      if-Outcome (length (map ticket_type_id gone) == 0)
        (λ empty. pure-Outcome _ (sym (nothing_refers gone d₀ empty), same))
        (λ _. map_error-Outcome _ (query-Outcome e _ lost (rw same (guard-refers gone d₀), same)))

  delete_event_tx-Outcome :
      (d₀ : Db) (w : World)
      → w.db ≡ d₀
      → Outcome
          (λ found d.
            (refers (at_event i) d₀ ≡ false)
            × ((found ≡ has_event i d₀) × (d ≡ without_event_rows i d₀)))
          (λ x _. EventKept i d₀ x)
          (delete_event_tx e (order_checker e) i)
          w
  unfolding delete_event_tx Repository.list_ticket_type_ids_by_event_id
      Sql.list_ticket_type_ids_by_event_id Repository.delete_ticket_types_by_event_id
      Sql.delete_ticket_types_by_event_id Repository.delete_event Sql.delete_event
  delete_event_tx-Outcome d₀ w same =
      >>=-Outcome
        (λ ids d. (ids ≡ map ticket_type_id (select (at_event i) d₀.ticket_types)) × (d ≡ d₀))
        (map_error-Outcome _ (query-Outcome e _ (inl refl) (rw same refl, same)))
        (λ ids w₁ (listed, same₁).
          >>=-Outcome (λ ordered d. (ordered ≡ refers (at_event i) d₀) × (d ≡ d₀))
            (rw listed (has_orders-refers _ d₀ w₁ same₁ (inl refl)))
            (λ ordered w₂ (checked, same₂).
              if-Outcome ordered
                (λ yes_ordered. throw-Outcome _ (inr (inl (refl, sym checked ∙ yes_ordered))))
                (λ unordered.
                  >>-Outcome (λ _ d. d ≡ without_ticket_types (at_event i) d₀)
                    (>>-Outcome (λ _ d. d ≡ without_ticket_types (at_event i) d₀)
                      (map_error-Outcome _ (
                        statement-Outcome e _ (inl refl) (λ _. rw same₂ (
                          remove_ticket_types-removed _ _ (at_event i) d₀ (sym checked ∙ unordered)
                            refl))))
                      (λ _ _ h. pure-Outcome _ h))
                    (λ _ w₃ gone.
                      >>=-Outcome
                        (λ n d. (ltb 0 n ≡ has_event i d₀) × (d ≡ without_event_rows i d₀))
                        (map_error-Outcome _ (
                          statement-Outcome e _ (inl refl)
                            (λ _. rw gone (remove_event-removed _ i d₀))))
                        (λ n w₄ (count, last).
                          pure-Outcome _ (sym checked ∙ unordered, (count, last)))))))

  -- A deletion of an event, in a transaction during which no other request writes: one that succeeds
  -- takes the event and its ticket types out of the tables and nothing else, and no order item or
  -- attendee had one of these ticket types. One that fails changes no table, and fails for one of
  -- three reasons: the database does not answer, a ticket type of the event has an order item or an
  -- attendee (400), or no event has the id (404); but where only the answer to the commit is lost,
  -- the deletion may have taken place, of ticket types that nothing refers to. Every ticket type is
  -- assumed to have its event.
  pub delete_event_guarded :
      (w : World)
      → Placed w.db
      → OutcomeAt
          (λ _ d.
            (refers (at_event i) w.db ≡ false)
            × ((has_event i w.db ≡ true) × (d ≡ without_event_rows i w.db)))
          (λ x d.
            (EventKept i w.db x × (d ≡ w.db))
            ⊎ ((x ≡ down) × ((refers (at_event i) w.db ≡ false) × (d ≡ without_event_rows i w.db))))
          (Service.delete_event e (some (order_checker e)) i w)
  unfolding Service.delete_event
  delete_event_guarded w placed =
      (>>=-Outcome
        (λ found d.
          (refers (at_event i) w.db ≡ false)
          × ((found ≡ has_event i w.db) × (d ≡ without_event_rows i w.db)))
        (in_tx-Outcome e (inl (inl refl, refl))
          (λ _ _ (free, (known, gone)). inr (refl, (free, gone)))
          (λ w' same.
            Outcome-weaken (delete_event_tx-Outcome w.db w' same) (λ _ _ h. h)
              (λ _ _ h. inl (h, refl))))
        (λ found w' (free, (known, gone)).
          if-Outcome found (λ was. pure-Outcome _ (free, (sym known ∙ was, gone)))
            (λ missing. throw-Outcome _ (
              inl (
                inr (inr (refl, sym known ∙ missing)),
                gone ∙ nothing_there i w.db placed (sym known ∙ missing),
              ))))).end

  delete_ticket_type_tx-Outcome :
      (d₀ : Db) (w : World)
      → w.db ≡ d₀
      → Outcome
          (λ found d.
            (is_ordered i d₀ ≡ false)
            × ((found ≡ exists (λ t. t.id == i) d₀.ticket_types)
                × (d ≡ without_ticket_types (λ t. t.id == i) d₀)))
          (λ x _. TicketTypeKept i d₀ x)
          (delete_ticket_type_tx e (order_checker e) i)
          w
  unfolding delete_ticket_type_tx OrderRepository.has_orders_for_ticket_type
      OrderSql.has_orders_for_ticket_type Repository.delete_ticket_type Sql.delete_ticket_type
  delete_ticket_type_tx-Outcome d₀ w same =
      >>=-Outcome (λ ordered d. (ordered ≡ is_ordered i d₀) × (d ≡ d₀))
        (map_error-Outcome _ (query-Outcome e _ (inl refl) (rw same refl, same)))
        (λ ordered w₁ (checked, same₁).
          if-Outcome ordered (λ was. throw-Outcome _ (inr (inl (refl, sym checked ∙ was))))
            (λ unordered.
              >>=-Outcome
                (λ n d.
                  (ltb 0 n ≡ exists (λ t. t.id == i) d₀.ticket_types)
                  × (d ≡ without_ticket_types (λ t. t.id == i) d₀))
                (map_error-Outcome _ (
                  statement-Outcome e _ (inl refl) (λ _. rw same₁ (
                    remove_ticket_types-removed _ _ (λ t. t.id == i) d₀
                      (unordered-refers i d₀ (sym checked ∙ unordered))
                      (length-select (λ t. t.id == i) d₀.ticket_types, refl)))))
                (λ n w₂ (count, gone). pure-Outcome _ (sym checked ∙ unordered, (count, gone)))))

  -- A deletion of a ticket type, in a transaction during which no other request writes: one that
  -- succeeds takes that row out of the tables and nothing else, and no order item or attendee had it.
  -- One that fails changes no table, and fails for one of three reasons: the database does not
  -- answer, an order item or an attendee has the ticket type (400), or there is none with the id
  -- (404); but where only the answer to the commit is lost, the deletion may have taken place.
  pub delete_ticket_type_guarded :
      (w : World)
      → OutcomeAt
          (λ _ d.
            (is_ordered i w.db ≡ false)
            × ((exists (λ t. t.id == i) w.db.ticket_types ≡ true)
                × (d ≡ without_ticket_types (λ t. t.id == i) w.db)))
          (λ x d.
            (TicketTypeKept i w.db x × (d ≡ w.db))
            ⊎ ((x ≡ down)
                × ((is_ordered i w.db ≡ false) × (d ≡ without_ticket_types (λ t. t.id == i) w.db))))
          (Service.delete_ticket_type e (some (order_checker e)) i w)
  unfolding Service.delete_ticket_type
  delete_ticket_type_guarded w =
      (>>=-Outcome
        (λ found d.
          (is_ordered i w.db ≡ false)
          × ((found ≡ exists (λ t. t.id == i) w.db.ticket_types)
              × (d ≡ without_ticket_types (λ t. t.id == i) w.db)))
        (in_tx-Outcome e (inl (inl refl, refl))
          (λ _ _ (free, (known, gone)). inr (refl, (free, gone)))
          (λ w' same.
            Outcome-weaken (delete_ticket_type_tx-Outcome w.db w' same) (λ _ _ h. h)
              (λ _ _ h. inl (h, refl))))
        (λ found w' (free, (known, gone)).
          if-Outcome found (λ was. pure-Outcome _ (free, (sym known ∙ was, gone)))
            (λ missing. throw-Outcome _ (
              inl (
                inr (inr (refl, sym known ∙ missing)),
                gone
                    ∙ (rw
                        (select_all (λ (t : TicketType). t.id == i) w.db.ticket_types
                          (sym known ∙ missing))
                        refl),
              ))))).end
