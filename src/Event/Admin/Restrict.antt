-- ===== src/Event/Admin/Restrict.antt =====
-- What keeps an event or a ticket type from being deleted: the rows that refer to it, as the guards
-- look for them and as the foreign keys do.
use event_portal.Base.{
  or_false, absurd_bool, ℕ, ltb, ◌==◌, arith, ◌||◌, not, Bool, true, false, List, [], ◌∷◌, map,
  length, select, exists, exists_cong, exists_mono, exists_never, exists-map, exists-select,
  length-select, select_all, ◌≡◌, refl, ◌⊎◌,
}
use event_portal.Errors.{Error, errorf, pg, Failure, bad_request, not_found_error, Code}
use event_portal.Store.{Db, Uuid, Event, TicketType, OrderItem, Attendee}
use event_portal.Effect.Outcome.{OutcomeOn}
use event_portal.Order.Sql.{member}
use event_portal.Event.Sql.{ticket_type_id}
use event_portal.Event.Admin.Sql.{
  refers, remove_ticket_types, remove_event, without_event, without_ticket_types,
}

-- Every ticket type has its event (ticket_types.event_id REFERENCES events).
abbrev pub Placed : Db → Type 0
Placed d =
    (i : Uuid)
    → exists (λ v. v.id == i) d.events ≡ false
    → exists (λ t. t.event_id == i) d.ticket_types ≡ false

-- No connection, a timeout, or a commit that fails.
abbrev pub down : Error
down = errorf (pg Failure.unavailable)

abbrev pub at_event : Uuid → TicketType → Bool
at_event i t = t.event_id == i

abbrev pub has_event : Uuid → Db → Bool
has_event i d = exists (λ v. v.id == i) d.events

-- The tables without an event and its ticket types.
abbrev pub without_event_rows : Uuid → Db → Db
without_event_rows i d = without_event i (without_ticket_types (at_event i) d)

-- Why an event is not deleted: no database, an order item or an attendee of one of its ticket types,
-- or no such event.
abbrev pub EventKept : Uuid → Db → Error → Type 0
EventKept i d x =
    (x ≡ down)
    ⊎ (((x ≡ bad_request Code.event_has_orders) × (refers (at_event i) d ≡ true))
        ⊎ ((x ≡ not_found_error Code.event_not_found) × (has_event i d ≡ false)))

-- An order item or an attendee has the ticket type.
abbrev pub is_ordered : Uuid → Db → Bool
is_ordered i d =
    exists (λ x. x.ticket_type_id == i) d.order_items
    || exists (λ x. x.ticket_type_id == i) d.attendees

abbrev pub TicketTypeKept : Uuid → Db → Error → Type 0
TicketTypeKept i d x =
    (x ≡ down)
    ⊎ (((x ≡ bad_request Code.ticket_type_has_orders) × (is_ordered i d ≡ true))
        ⊎ ((x ≡ not_found_error Code.ticket_type_not_found)
            × (exists (λ t. t.id == i) d.ticket_types ≡ false)))

-- The guard of an event looks for what its foreign keys would.
pub guard-refers :
    (gone : List TicketType) (d : Db)
    → (exists (λ x. member x.ticket_type_id (map ticket_type_id gone)) d.order_items
        || exists (λ x. member x.ticket_type_id (map ticket_type_id gone)) d.attendees)
      ≡ (exists (λ x. exists (λ t. t.id == x.ticket_type_id) gone) d.order_items
          || exists (λ x. exists (λ t. t.id == x.ticket_type_id) gone) d.attendees)
guard-refers gone d =
    rw
      (
        exists_cong (λ (x : OrderItem). member x.ticket_type_id (map ticket_type_id gone))
            (λ x. exists (λ t. t.id == x.ticket_type_id) gone) d.order_items
            (λ x. exists-map ticket_type_id x.ticket_type_id gone),
        exists_cong (λ (x : Attendee). member x.ticket_type_id (map ticket_type_id gone))
            (λ x. exists (λ t. t.id == x.ticket_type_id) gone) d.attendees
            (λ x. exists-map ticket_type_id x.ticket_type_id gone),
      )
      refl

pub nothing_refers :
    (gone : List TicketType) (d : Db)
    → (length (map ticket_type_id gone) == 0) ≡ true
    → (exists (λ x. exists (λ t. t.id == x.ticket_type_id) gone) d.order_items
        || exists (λ x. exists (λ t. t.id == x.ticket_type_id) gone) d.attendees)
      ≡ false
unfolding exists
nothing_refers [] d h = rw (exists_never d.order_items, exists_never d.attendees) refl
nothing_refers (x ∷ xs) d h = ground arith

pub remove_ticket_types-removed :
    (Q : ℕ → Db → Type 0) (E : Error → Db → Type 0) (p : TicketType → Bool) (d : Db)
    → refers p d ≡ false
    → Q (length (select p d.ticket_types)) (without_ticket_types p d)
    → OutcomeOn Q E (remove_ticket_types p d)
unfolding remove_ticket_types
remove_ticket_types-removed Q E p d h k = rw h k

apart : (v i t : ℕ) → (v == i) ≡ true → not (t == i) ≡ true → (v == t) ≡ false
apart v i t h k = ground arith

-- With its ticket types gone, nothing refers to an event.
pub remove_event-removed :
    (E : Error → Db → Type 0) (i : Uuid) (d : Db)
    → OutcomeOn
        (λ n d'. (ltb 0 n ≡ has_event i d) × (d' ≡ without_event_rows i d))
        E
        (remove_event i (without_ticket_types (at_event i) d))
unfolding remove_event
remove_event-removed E i d =
    rw
      (exists-select (λ t. not (at_event i t))
        (λ t. exists (λ v. v.id == t.event_id) (select (λ v. v.id == i) d.events)) d.ticket_types
        (λ t other.
          exists-select (λ (v : Event). v.id == i) (λ v. v.id == t.event_id) d.events
            (λ v here. apart v.id i t.event_id here other)))
      ((length-select (λ v. v.id == i) d.events, refl))

-- Without the event there are no rows to take out.
pub nothing_there :
    (i : Uuid) (d : Db) → Placed d → has_event i d ≡ false → without_event_rows i d ≡ d
nothing_there i d placed missing =
    rw
      (
        select_all (λ (v : Event). v.id == i) d.events missing,
        select_all (at_event i) d.ticket_types (placed i missing),
      )
      refl

-- A selected row has the id.
exists_selected :
    (i j : Uuid) (xs : List TicketType)
    → exists (λ t. t.id == j) (select (λ t. t.id == i) xs) ≡ true
    → (j == i) ≡ true
unfolding exists select
exists_selected i j [] h = absurd_bool h
exists_selected i j (x ∷ xs) h = ground (arith, exists_selected i j xs)

pub unordered-refers :
    (i : Uuid) (d : Db) → is_ordered i d ≡ false → refers (λ t. t.id == i) d ≡ false
unordered-refers i d h =
    let (items, attendees) = or_false _ _ h in
    rw
      (
        exists_mono
            (λ (x : OrderItem).
              exists (λ t. t.id == x.ticket_type_id) (select (λ t. t.id == i) d.ticket_types))
            (λ x. x.ticket_type_id == i) d.order_items
            (λ x. exists_selected i x.ticket_type_id d.ticket_types) items,
        exists_mono
            (λ (x : Attendee).
              exists (λ t. t.id == x.ticket_type_id) (select (λ t. t.id == i) d.ticket_types))
            (λ x. x.ticket_type_id == i) d.attendees
            (λ x. exists_selected i x.ticket_type_id d.ticket_types) attendees,
      )
      refl
