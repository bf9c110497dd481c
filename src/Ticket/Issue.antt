-- ===== src/Ticket/Issue.antt =====
-- Ticket issue: one ticket for each attendee, once.
use event_portal.Base.{
  absurd_bool, ℕ, zero, suc, ltb, ◌==◌, ==_refl, ◌&&◌, ◌||◌, true, false, List, [], ◌∷◌, map, ◌≡◌,
  refl, sym, ◌∙◌, inl, inr, Bool-cases, exists, select, length, Text, arith, times, times-sort_with,
  length-sort_with, sort_with, ◌+◌, ◌⊎◌,
}
use event_portal.Errors.{Error, Sentinel, errors_is}
use event_portal.Store.{Db, Uuid, Time, Ticket}
use event_portal.Effect.{Env, World, ok}
use event_portal.Effect.Laws.{
  Ends, EndsOn, Ends-ok, Ends-always, >>=-Ends, >>-Ends, handle-Ends, pure-Ends, throw-Ends,
  map_error-Ends, in_tx-Ends, if-Ends, statement-Ends, query-Ends, Ends-weaken,
}
use event_portal.Randcode.Laws.{new_code-Ends}
use event_portal.Ticket.Code.{generate_code, code_length}
use event_portal.Ticket.Sql
use event_portal.Ticket.Sql.{insert_ticket, has_code, of_order, ticket_before}
use event_portal.Ticket.Repository
use event_portal.Ticket.Service.{
  code_attempts, create_one_ticket, create_tickets, or_existing, generate_for_order,
}

-- The attendees whose tickets the order has, the last issued first.
abbrev ticketed : Uuid → Db → List Uuid
ticketed o d = map (λ t. t.attendee_id) (select (of_order o) d.tickets)

abbrev reverse_onto : List Uuid → List Uuid → List Uuid
reverse_onto [] acc = acc
reverse_onto (a ∷ as') acc = reverse_onto as' (a ∷ acc)

times-reverse_onto :
    (a : Uuid) (xs acc : List Uuid) → times a (reverse_onto xs acc) ≡ times a xs + times a acc
unfolding times
times-reverse_onto a [] acc = omega arith
times-reverse_onto a (x ∷ xs) acc = ground (arith, times-reverse_onto a xs (x ∷ acc))

-- The tickets of an order, as the listing shows them.
abbrev pub listed : Env → Uuid → Db → List Ticket
listed e o d = sort_with (ticket_before e) (select (of_order o) d.tickets)

module _ (e : Env) (o : Uuid) where
  insert_ticket-ticketed :
      (acc : List Uuid) (code : Text) (a u : Uuid) (at : Time) (d : Db)
      → ticketed o d ≡ acc
      → EndsOn (λ _ d'. ticketed o d' ≡ a ∷ acc) (λ _. Unit) (insert_ticket code o a u at d)
  unfolding insert_ticket
  insert_ticket-ticketed acc code a u at d h =
      elim (Bool-cases (exists (λ t. t.id == u) d.tickets || exists (has_code code) d.tickets)) [
        | inl taken ↦ rw taken tt
        | inr new ↦
            elim (Bool-cases
              (exists (λ x. x.id == o) d.orders && exists (λ x. x.id == a) d.attendees)) [
                | inr dangling ↦ rw (new, dangling) tt
                | inl linked ↦ rw (new, linked) (unfold select in rw (==_refl o, h) refl)
              ]
      ]

  create_one_ticket-ticketed :
      (acc : List Uuid) (n : ℕ) (a : Uuid) (w : World)
      → ticketed o w.db ≡ acc
      → Ends (λ _ d. ticketed o d ≡ a ∷ acc) (λ _. Unit) (create_one_ticket e n o a) w
  unfolding create_one_ticket generate_code Repository.create_ticket Sql.create_ticket
  create_one_ticket-ticketed acc zero a w h = throw-Ends _ tt
  create_one_ticket-ticketed acc (suc n) a w h =
      >>=-Ends (λ _ d. ticketed o d ≡ acc)
        (Ends-weaken (map_error-Ends _ (new_code-Ends e code_length w h)) (λ _ _ k. k) (λ _ _. tt))
        λ code w₁ h₁.
          handle-Ends (λ _ d. ticketed o d ≡ a ∷ acc) (λ _. Unit)
            (>>-Ends (λ _ d. ticketed o d ≡ a ∷ acc)
              (map_error-Ends _
                (statement-Ends e _ tt λ u at. insert_ticket-ticketed acc code a u at w₁.db h₁))
              (λ _ _ k. pure-Ends _ k))
            (λ _ _ k. pure-Ends _ k)
            (λ x w₂ k.
              if-Ends (errors_is x Sentinel.code_taken) (λ _. throw-Ends _ tt)
                (λ _. throw-Ends _ tt))

  create_tickets-ticketed :
      (acc attendees : List Uuid) (w : World)
      → ticketed o w.db ≡ acc
      → Ends
          (λ _ d. ticketed o d ≡ reverse_onto attendees acc)
          (λ _. Unit)
          (create_tickets e o attendees)
          w
  unfolding create_tickets
  create_tickets-ticketed acc [] w h = pure-Ends _ h
  create_tickets-ticketed acc (a ∷ as') w h =
      >>-Ends (λ _ d. ticketed o d ≡ a ∷ acc) (create_one_ticket-ticketed acc code_attempts a w h)
        (λ _ w₁ h₁. create_tickets-ticketed (a ∷ acc) as' w₁ h₁)

  -- A listing shows what is in the table.
  list-shown :
      (P : Db → Type 0) (w : World)
      → P w.db
      → Ends (λ ts d. P d × (ts ≡ listed e o d)) P (Repository.list_by_order_id e o) w
  unfolding Repository.list_by_order_id Sql.list_tickets_by_order_id
  list-shown P w h = map_error-Ends _ (query-Ends e _ h (h, refl))

  empty_of_length : {A : Type 0} (xs : List A) → (length xs == 0) ≡ true → xs ≡ []
  empty_of_length [] h = refl
  empty_of_length (x ∷ xs) h = ground arith

  none_of_length : {A : Type 0} (xs : List A) → xs ≡ [] → ltb 0 (length xs) ≡ false
  none_of_length xs h = rw h refl

  -- What an answer shows: the tickets of the order, as many of each attendee as the list has.
  abbrev OneEach : List Uuid → List Ticket → Db → Type 0
  OneEach attendees ts d =
      ((a : Uuid) → times a (map (λ t. t.attendee_id) ts) ≡ times a attendees) × (ts ≡ listed e o d)

  abbrev Fresh : Db → Type 0
  Fresh d = select (of_order o) d.tickets ≡ []

  abbrev Issued : List Uuid → Db → Type 0
  Issued attendees d = ticketed o d ≡ reverse_onto attendees []

  nothing_listed : (d : Db) → Fresh d → listed e o d ≡ []
  unfolding sort_with
  nothing_listed d h = rw h refl

  Issued-OneEach :
      (attendees : List Uuid) (ts : List Ticket) (d : Db)
      → Issued attendees d
      → ts ≡ listed e o d
      → OneEach attendees ts d
  unfolding times
  Issued-OneEach attendees ts d h shown = (
    λ a.
        rw
          (
            shown,
            times-sort_with (ticket_before e) (λ (t : Ticket). t.attendee_id) a
                (select (of_order o) d.tickets),
            h,
          )
          (times-reverse_onto a attendees [] ∙ omega arith),
    shown,
  )

  -- After a generation that failed either nothing is issued, and there is nothing to return instead,
  -- or a commit took place whose answer was lost, and its tickets are returned.
  or_existing-OneEach :
      (attendees : List Uuid) (x : Error) (w : World)
      → Fresh w.db ⊎ Issued attendees w.db
      → Ends (OneEach attendees) (λ _. Unit) (or_existing e o x) w
  unfolding or_existing
  or_existing-OneEach attendees x w (inl h) =
      handle-Ends (λ ts _. ts ≡ []) (λ _. Unit)
        (Ends-weaken (list-shown Fresh w h) (λ _ d k. k.1 ∙ nothing_listed d k.0) (λ _ _. tt))
        (λ ts w₁ k. rw k (throw-Ends _ tt)) (λ _ _ _. throw-Ends _ tt)
  or_existing-OneEach attendees x w (inr h) =
      handle-Ends (λ ts d. OneEach attendees ts d) (λ _. Unit)
        (Ends-weaken (list-shown (Issued attendees) w h)
          (λ ts d k. Issued-OneEach attendees ts d k.0 k.1) (λ _ _. tt))
        (λ ts w₁ k. if-Ends (length ts == 0) (λ _. throw-Ends _ tt) (λ _. pure-Ends _ k))
        (λ _ _ _. throw-Ends _ tt)

  generate_for_order-OneEach :
      (attendees : List Uuid) (w : World)
      → Fresh w.db
      → Ends (OneEach attendees) (λ _. Unit) (generate_for_order e o attendees) w
  unfolding generate_for_order times
  generate_for_order-OneEach attendees w none_yet =
      >>=-Ends (λ ts d. Fresh d × (ts ≡ []))
        (Ends-weaken (list-shown Fresh w none_yet) (λ _ d k. (k.0, k.1 ∙ nothing_listed d k.0))
          (λ _ _. tt))
        λ existing w₁ h. rw (none_of_length existing h.1) (
          if-Ends (length attendees == 0)
            (λ nobody.
              pure-Ends _
                (λ a. rw (empty_of_length attendees nobody) refl, sym (nothing_listed w₁.db h.0)))
            λ _.
              handle-Ends (λ _. Issued attendees) (λ d. Fresh d ⊎ Issued attendees d)
                (in_tx-Ends e (inl h.0) (λ _ _ k. inr k)
                  λ w₂ same. create_tickets-ticketed [] attendees w₂ (rw (same, h.0) refl))
                (λ _ w₂ k.
                  Ends-weaken (list-shown (Issued attendees) w₂ k)
                    (λ ts d l. Issued-OneEach attendees ts d l.0 l.1) (λ _ _. tt))
                (λ x w₂ k. or_existing-OneEach attendees x w₂ k))

  -- For an order without tickets, a generation that succeeds has issued exactly as many tickets to
  -- each attendee as the list of attendees has it, one where it has it once, and returns all tickets
  -- that the order now has, sorted by their creation and code.
  pub generate_for_order_one_each :
      (attendees : List Uuid) (w w' : World) (ts : List Ticket)
      → select (of_order o) w.db.tickets ≡ []
      → generate_for_order e o attendees w ≡ (ok ts, w')
      → ((a : Uuid) → times a (map (λ t. t.attendee_id) ts) ≡ times a attendees)
        × (ts ≡ listed e o w'.db)
  generate_for_order_one_each attendees w w' ts none_yet done =
      Ends-ok (generate_for_order-OneEach attendees w none_yet) ts w' done

  -- For an order that has tickets, a generation changes no table, whatever the attendees are and
  -- however it ends.
  pub generate_for_order_again :
      (attendees : List Uuid) (w : World)
      → ltb 0 (length (select (of_order o) w.db.tickets)) ≡ true
      → (generate_for_order e o attendees w).1.db ≡ w.db
  unfolding generate_for_order
  generate_for_order_again attendees w issued = Ends-always {P = λ d. d ≡ w.db} (
      >>=-Ends (λ ts d. (d ≡ w.db) × (ts ≡ listed e o d)) (list-shown (λ d. d ≡ w.db) w refl)
        λ existing w₁ h.
          if-Ends (ltb 0 (length existing)) (λ _. pure-Ends _ h.0)
            (λ none_shown. absurd_bool (
              sym none_shown
              ∙ (rw
                  (h.1, h.0, length-sort_with (ticket_before e) (select (of_order o) w.db.tickets))
                  issued))))
