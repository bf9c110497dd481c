-- ===== src/Ticket/Door.antt =====
-- The door: a ticket is marked used once, and looking at a ticket changes nothing.
use event_portal.Base.{Text, false, List, [], ◌∷◌, ◌≡◌, ◌≢◌, refl, inl, inr, Bool-cases}
use event_portal.Errors.{Sentinel, errors_is}
use event_portal.Store.{Db, Ticket}
use event_portal.Effect.{Env, World, ok}
use event_portal.Effect.Laws.{
  Ends, Ends-ok, Ends-always, >>=-Ends, handle-Ends, pure-Ends, throw-Ends, map_error-Ends, if-Ends,
  statement-Ends, query_row-Ends,
}
use event_portal.Ticket.Sql
use event_portal.Ticket.Sql.{has_code, is_active, use_first}
use event_portal.Ticket.Repository
use event_portal.Ticket.Code.{normalize_code}
use event_portal.Ticket.Service.{MarkUsedResponse, validate, mark_used, lookup_public}

-- No ticket with the code can be marked used any more.
abbrev pub Spent : Text → Db → Type 0
Spent c d = (use_first c d.tickets).0 ≡ 0

use_first_twice : (c : Text) (ts : List Ticket) → (use_first c (use_first c ts).1).0 ≡ 0
unfolding use_first
use_first_twice c [] = refl
use_first_twice c (t ∷ ts) = elim (Bool-cases (has_code c t)) [
  | inr other ↦ rw (other, other) (use_first_twice c ts)
  | inl his ↦ elim (Bool-cases (is_active t.status)) [
    | inl active ↦ rw (his, active, his) refl
    | inr spent ↦ rw (his, spent, his, spent) refl
  ]
]

module _ (e : Env) (c : Text) (w : World) where
  -- However the statement ends, a success leaves the code spent.
  mark_used-Spent : Ends (λ _ d. Spent c d) (λ _. Unit) (Repository.mark_used e c) w
  unfolding Repository.mark_used Sql.mark_ticket_used
  mark_used-Spent =
      >>=-Ends (λ _ d. Spent c d)
        (map_error-Ends _ (statement-Ends e _ tt (λ _ _. use_first_twice c w.db.tickets)))
        (λ _ _ k. pure-Ends _ k)

  mark_used-refused :
      Spent c w.db → Ends (λ applied _. applied ≡ false) (λ _. Unit) (Repository.mark_used e c) w
  unfolding Repository.mark_used Sql.mark_ticket_used
  mark_used-refused spent =
      >>=-Ends (λ affected _. affected ≡ 0)
        (map_error-Ends _ (statement-Ends e _ tt (λ _ _. spent))) (λ _ _ k. pure-Ends _ (rw k refl))

module _ (e : Env) (raw : Text) (w : World) where
  mark_used_service-Spent :
      Ends (λ _ d. Spent (normalize_code e.upper_rune raw) d) (λ _. Unit) (mark_used e raw) w
  unfolding mark_used Repository.get_status_by_code Sql.get_ticket_status_by_code
  mark_used_service-Spent =
      let c = normalize_code e.upper_rune raw in
      >>=-Ends (λ _ d. Spent c d) (mark_used-Spent e c w)
        λ applied w₁ h.
          if-Ends applied (λ _. pure-Ends _ h)
            λ _.
              handle-Ends (λ _ _. Unit) (λ _. Unit)
                (map_error-Ends _ (query_row-Ends e _ tt (λ _ _. tt))) (λ _ _ _. throw-Ends _ tt)
                (λ x _ _.
                  if-Ends (errors_is x Sentinel.ticket_not_found) (λ _. throw-Ends _ tt)
                    (λ _. throw-Ends _ tt))

  mark_used_service-refused :
      Spent (normalize_code e.upper_rune raw) w.db → Ends (λ _ _. ⊥) (λ _. Unit) (mark_used e raw) w
  unfolding mark_used Repository.get_status_by_code Sql.get_ticket_status_by_code
  mark_used_service-refused spent =
      let c = normalize_code e.upper_rune raw in
      >>=-Ends (λ applied _. applied ≡ false) (mark_used-refused e c w spent)
        λ applied w₁ h. rw h (
          handle-Ends (λ _ _. Unit) (λ _. Unit)
            (map_error-Ends _ (query_row-Ends e _ tt (λ _ _. tt))) (λ _ _ _. throw-Ends _ tt)
            (λ x _ _.
              if-Ends (errors_is x Sentinel.ticket_not_found) (λ _. throw-Ends _ tt)
                (λ _. throw-Ends _ tt)))

-- A ticket lets one person in: once marking a code as used has succeeded, marking any spelling of
-- the same code on the tables that it left fails, whatever the database does to the call.
pub mark_used_once :
    (e e' : Env) (raw raw' : Text) (w w₁ w₂ : World) (r r' : MarkUsedResponse)
    → normalize_code e'.upper_rune raw' ≡ normalize_code e.upper_rune raw
    → mark_used e raw w ≡ (ok r, w₁)
    → mark_used e' raw' w₁ ≢ (ok r', w₂)
mark_used_once e e' raw raw' w w₁ w₂ r r' same first second =
    let spent = Ends-ok (mark_used_service-Spent e raw w) r w₁ first in
    Ends-ok (mark_used_service-refused e' raw' w₁ (rw same spent)) r' w₂ second

module _ (e : Env) (raw : Text) (w : World) where
  detail-Ends :
      (c : Text) → Ends (λ _ d. d ≡ w.db) (λ d. d ≡ w.db) (Repository.get_detail_by_code e c) w
  unfolding Repository.get_detail_by_code Sql.get_ticket_detail_by_code
  detail-Ends c = map_error-Ends _ (query_row-Ends e _ refl (λ _ _. refl))

  -- Validating a code and the public lookup leave every table as it was.
  pub lookups-read_only : ((validate e raw w).1.db ≡ w.db) × ((lookup_public e raw w).1.db ≡ w.db)
  unfolding validate lookup_public
  lookups-read_only = (
    Ends-always {P = λ d. d ≡ w.db} (
        handle-Ends (λ _ d. d ≡ w.db) (λ d. d ≡ w.db) (detail-Ends _) (λ _ _ k. pure-Ends _ k)
          (λ x _ k.
            if-Ends (errors_is x Sentinel.ticket_not_found) (λ _. pure-Ends _ k)
              (λ _. throw-Ends _ k))),
    Ends-always {P = λ d. d ≡ w.db} (
        handle-Ends (λ _ d. d ≡ w.db) (λ d. d ≡ w.db) (detail-Ends _) (λ _ _ k. pure-Ends _ k)
          (λ x _ k.
            if-Ends (errors_is x Sentinel.ticket_not_found) (λ _. throw-Ends _ k)
              (λ _. throw-Ends _ k))),
  )
