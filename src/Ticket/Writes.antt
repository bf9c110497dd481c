-- ===== src/Ticket/Writes.antt =====
-- The ticket service writes the tickets table and no other.
use event_portal.Base.{
  ℕ, zero, suc, ltb, ◌==◌, ◌&&◌, ◌||◌, List, [], ◌∷◌, inl, inr, Bool-cases, exists, length, Text,
}
use event_portal.Errors.{Error, Sentinel, errors_is}
use event_portal.Store.{Time, Db, Uuid, Ticket}
use event_portal.Effect.{Env, World, M}
use event_portal.Effect.Laws.{
  Ends, EndsOn, >>=-Ends, >>-Ends, handle-Ends, pure-Ends, throw-Ends, map_error-Ends, in_tx-Ends,
  if-Ends, statement-Ends, query-Ends, Ends-weaken,
}
use event_portal.Randcode.Laws.{new_code-Ends}
use event_portal.Ticket.Code.{generate_code, code_length}
use event_portal.Ticket.Sql
use event_portal.Ticket.Sql.{insert_ticket, has_code}
use event_portal.Ticket.Repository
use event_portal.Ticket.Service.{
  code_attempts, create_one_ticket, create_tickets, or_existing, generate_for_order,
  issue_tickets_for_order,
}

-- What is known of the tables does not depend on the tickets.
abbrev pub TicketFree : (Db → Type 0) → Type 0
TicketFree P = (d : Db) (ts : List Ticket) → P d → P (record d { tickets = ts })

module _ (P : Db → Type 0) (free : TicketFree P) (e : Env) where
  insert_ticket-EndsOn :
      (code : Text) (o a u : Uuid) (at : Time) (d : Db)
      → P d
      → EndsOn (λ _. P) P (insert_ticket code o a u at d)
  unfolding insert_ticket
  insert_ticket-EndsOn code o a u at d h =
      elim (Bool-cases (exists (λ t. t.id == u) d.tickets || exists (has_code code) d.tickets)) [
        | inl taken ↦ rw taken h
        | inr new ↦
            elim (Bool-cases
              (exists (λ x. x.id == o) d.orders && exists (λ x. x.id == a) d.attendees)) [
                | inr dangling ↦ rw (new, dangling) h
                | inl linked ↦ rw (new, linked) (free d _ h)
              ]
      ]

  create_one_ticket-Ends :
      (n : ℕ) (o a : Uuid) (w : World) → P w.db → Ends (λ _. P) P (create_one_ticket e n o a) w
  unfolding create_one_ticket generate_code Repository.create_ticket Sql.create_ticket
  create_one_ticket-Ends zero o a w h = throw-Ends _ h
  create_one_ticket-Ends (suc n) o a w h =
      >>=-Ends (λ _. P) (map_error-Ends _ (new_code-Ends e code_length w h))
        λ code w₁ h₁.
          handle-Ends (λ _. P) P
            (>>-Ends (λ _. P)
              (map_error-Ends _
                (statement-Ends e _ h₁ λ u at. insert_ticket-EndsOn code o a u at w₁.db h₁))
              (λ _ _ k. pure-Ends _ k))
            (λ _ _ k. pure-Ends _ k)
            (λ x w₂ k.
              if-Ends (errors_is x Sentinel.code_taken) (λ _. throw-Ends _ k) (λ _. throw-Ends _ k))

  create_tickets-Ends :
      (o : Uuid) (attendees : List Uuid) (w : World)
      → P w.db
      → Ends (λ _. P) P (create_tickets e o attendees) w
  unfolding create_tickets
  create_tickets-Ends o [] w h = pure-Ends _ h
  create_tickets-Ends o (a ∷ as') w h =
      >>-Ends (λ _. P) (create_one_ticket-Ends code_attempts o a w h)
        (λ _ w₁ h₁. create_tickets-Ends o as' w₁ h₁)

  list-Ends : (o : Uuid) (w : World) → P w.db → Ends (λ _. P) P (Repository.list_by_order_id e o) w
  unfolding Repository.list_by_order_id Sql.list_tickets_by_order_id
  list-Ends o w h = map_error-Ends _ (query-Ends e _ h h)

  or_existing-Ends :
      (o : Uuid) (x : Error) (w : World) → P w.db → Ends (λ _. P) P (or_existing e o x) w
  unfolding or_existing
  or_existing-Ends o x w h =
      handle-Ends (λ _. P) P (list-Ends o w h)
        (λ issued w₁ k. if-Ends (length issued == 0) (λ _. throw-Ends _ k) (λ _. pure-Ends _ k))
        (λ _ _ k. throw-Ends _ k)

  generate_for_order-Ends :
      (o : Uuid) (attendees : List Uuid) (w : World)
      → P w.db
      → Ends (λ _. P) P (generate_for_order e o attendees) w
  unfolding generate_for_order
  generate_for_order-Ends o attendees w h =
      >>=-Ends (λ _. P) (list-Ends o w h)
        λ existing w₁ h₁.
          if-Ends (ltb 0 (length existing)) (λ _. pure-Ends _ h₁)
            λ _.
              if-Ends (length attendees == 0) (λ _. pure-Ends _ h₁)
                λ _.
                  handle-Ends (λ _. P) P
                    (in_tx-Ends e h₁ (λ _ _ k. k)
                      λ w₂ same.
                        Ends-weaken (create_tickets-Ends o attendees w₂ (rw same h₁)) (λ _ _ k. k)
                          (λ _ _. tt))
                    (λ _ w₂ k. list-Ends o w₂ k) (λ x w₂ k. or_existing-Ends o x w₂ k)

  pub issue_tickets_for_order-Ends :
      (attendees : Uuid → M (List Uuid)) (o : Uuid) (w : World)
      → Ends (λ _. P) P (attendees o) w
      → Ends (λ _. P) P (issue_tickets_for_order e attendees o) w
  unfolding issue_tickets_for_order
  issue_tickets_for_order-Ends attendees o w h =
      >>=-Ends (λ _. P) h
        λ ids w₁ h₁. >>-Ends (λ _. P) (generate_for_order-Ends o ids w₁ h₁) (λ _ _ k. pure-Ends _ k)
