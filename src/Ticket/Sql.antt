-- ===== src/Ticket/Sql.antt =====
-- The statements of backend/internal/ticket/ticketsql/ticket.sql.go. The joins follow the foreign
-- keys of a ticket; a row with a dangling key is not in the result.
use event_portal.Base.{
  ℕ, ltb, sort_with, Text, text_eq, find, find_by, select, exists, length, ◌==◌, ◌&&◌, ◌||◌,
  if◌then◌else◌, Bool, true, false, Option, none, some, List, [], ◌∷◌,
}
use event_portal.Errors.{pg, Failure}
use event_portal.Store.{Db, Uuid, Time, Ticket, TicketStatus, Attendee, TicketType, Event}
use event_portal.Effect.{Env, Result, ok, err, M, statement, query, query_row}

pub record TicketDetail : Type 0 where
  pub ticket_code : Text
  pub status : TicketStatus
  pub attendee_name : Text
  pub ticket_type_name : Text
  pub event_name : Text
  pub venue : Text
  pub start_date : Time

abbrev pub has_code : Text → Ticket → Bool
has_code c t = text_eq t.ticket_code c

abbrev pub of_order : Uuid → Ticket → Bool
of_order o t = t.order_id == o

-- status = 'ACTIVE'
abbrev pub is_active : TicketStatus → Bool
is_active TicketStatus.active = true
is_active _ = false

abbrev pub new_ticket : Text → Uuid → Uuid → Uuid → Time → Ticket
new_ticket code o a u at = record {
  id = u;
  ticket_code = code;
  order_id = o;
  attendee_id = a;
  status = TicketStatus.active;
  created_at = at;
}

unfoldable pub insert_ticket : Text → Uuid → Uuid → Uuid → Time → Db → Result Ticket × Db
insert_ticket code o a u at d =
    if exists (λ t. t.id == u) d.tickets || exists (has_code code) d.tickets
    then (err (pg Failure.unique_violation), d)
    else (if exists (λ x. x.id == o) d.orders && exists (λ x. x.id == a) d.attendees
        then (
          ok (new_ticket code o a u at),
          record d { tickets = new_ticket code o a u at ∷ d.tickets },
        )
        else (err (pg Failure.foreign_key_violation), d))

abbrev detail : Ticket → Attendee → TicketType → Event → TicketDetail
detail t a tt' ev = record {
  ticket_code = t.ticket_code;
  status = t.status;
  attendee_name = a.name;
  ticket_type_name = tt'.name;
  event_name = ev.name;
  venue = ev.venue;
  start_date = ev.start_date;
}

-- JOIN attendees … JOIN ticket_types … JOIN events
unfoldable pub join_detail : Db → Ticket → Option TicketDetail
join_detail d t = elim (find (λ x. x.id) t.attendee_id d.attendees) [
  | none ↦ none
  | some a ↦ elim (find (λ x. x.id) a.ticket_type_id d.ticket_types) [
    | none ↦ none
    | some k ↦ elim (find (λ x. x.id) k.event_id d.events) [
      | none ↦ none
      | some ev ↦ some (detail t a k ev)
    ]
  ]
]

-- The rows of the join, for tickets that satisfy the WHERE clause.
unfoldable pub join_all : Db → List Ticket → List TicketDetail
join_all d [] = []
join_all d (t ∷ ts) =
    let rest = join_all d ts in elim (join_detail d t) [ none ↦ rest | some x ↦ x ∷ rest ]

abbrev joined : Db → Option Ticket → Option TicketDetail
joined d none = none
joined d (some t) = join_detail d t

-- UPDATE tickets SET status = 'USED' WHERE ticket_code = $1 AND status = 'ACTIVE', on the first
-- row with the unique code.
unfoldable pub use_first : Text → List Ticket → ℕ × List Ticket
use_first c [] = (0, [])
use_first c (t ∷ ts) =
    let rest = use_first c ts in
    if has_code c t
    then (if is_active t.status
        then (1, record t { status = TicketStatus.used } ∷ ts)
        else (0, t ∷ ts))
    else (rest.0, t ∷ rest.1)

module _ (e : Env) where
  unfoldable pub create_ticket : Text → Uuid → Uuid → M Ticket
  unfolding insert_ticket
  create_ticket code o a = statement e (λ u at d. insert_ticket code o a u at d)

  unfoldable pub get_ticket_detail_by_code : Text → M TicketDetail
  unfolding join_detail
  get_ticket_detail_by_code c = query_row e (λ d. joined d (find_by (has_code c) d.tickets))

  abbrev status_of : Option Ticket → Option TicketStatus
  status_of none = none
  status_of (some t) = some t.status

  unfoldable pub get_ticket_status_by_code : Text → M TicketStatus
  get_ticket_status_by_code c = query_row e (λ d. status_of (find_by (has_code c) d.tickets))

  unfoldable pub mark_ticket_used : Text → M ℕ
  unfolding use_first
  mark_ticket_used c =
      statement e (λ _ _ d. let r = use_first c d.tickets in (ok r.0, record d { tickets = r.1 }))

  -- ORDER BY t.created_at ASC, t.ticket_code ASC
  abbrev pub ticket_before : Ticket → Ticket → Bool
  ticket_before t u =
      ltb t.created_at u.created_at
      || (t.created_at == u.created_at && e.collate t.ticket_code u.ticket_code)

  unfoldable pub list_tickets_by_order_id : Uuid → M (List Ticket)
  list_tickets_by_order_id o =
      query e (λ d. sort_with ticket_before (select (of_order o) d.tickets))

  unfoldable pub list_ticket_details_by_order_id : Uuid → M (List TicketDetail)
  unfolding join_all join_detail
  list_ticket_details_by_order_id o =
      query e (λ d. join_all d (sort_with ticket_before (select (of_order o) d.tickets)))

  unfoldable pub count_tickets_by_order_id : Uuid → M ℕ
  count_tickets_by_order_id o = query e (λ d. length (select (of_order o) d.tickets))
