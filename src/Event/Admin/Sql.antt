-- ===== src/Event/Admin/Sql.antt =====
-- The statements of backend/internal/event/eventsql/event.sql.go that the admin services run. A
-- row that breaks a constraint of the schema is refused: a slug that another event has, a status
-- outside the CHECK, a text longer than its VARCHAR column, a quota below zero, a reference without
-- its row, and the deletion of a row that another one refers to (ON DELETE RESTRICT).
use event_portal.Base.{
  ℕ, ℤ, pos, leb_ℤ, fits_int, Text, text_eq, find, update, select, exists, sort_by, sort_with, leb,
  ◌==◌, not, ◌&&◌, ◌||◌, if◌then◌else◌, Option, none, some, List, [], ◌∷◌, ◌++◌, map, length, Bool,
}
use event_portal.Errors.{pg, sentinel, Sentinel, Failure}
use event_portal.Store.{Db, Uuid, Time, Cents, Event, EventStatus, TicketType}
use event_portal.Effect.{Env, Result, ok, err, M, statement, query, query_row}
use event_portal.Order.Sql.{fits_numeric, member}
use event_portal.Event.Sql.{ticket_type_id}
use event_portal.Event.Admin.Request.{event_status}

-- CreateEventParams, and UpdateEventParams with the id beside it.
pub record EventParams : Type 0 where
  pub name : Text
  pub slug : Text
  pub description : Option Text
  pub venue : Text
  pub address : Text
  pub start_date : Time
  pub end_date : Time
  pub banner_url : Option Text
  pub status : Text

-- CreateTicketTypeParams, and UpdateTicketTypeParams, which leaves the event out.
pub record TicketTypeParams : Type 0 where
  pub event_id : Uuid
  pub name : Text
  pub price : Cents
  pub quota : ℤ
  pub sales_start : Time
  pub sales_end : Time

pub record TicketTypeName : Type 0 where
  pub id : Uuid
  pub name : Text

pub record TicketTypeDisplay : Type 0 where
  pub id : Uuid
  pub name : Text
  pub event_name : Text
  pub event_slug : Text

abbrev pub event_id : Event → Uuid
event_id v = v.id

-- The row of an event with the given values.
abbrev pub event_row : Uuid → EventStatus → EventParams → Event
event_row i s p = record {
  id = i;
  name = p.name;
  slug = p.slug;
  description = p.description;
  venue = p.venue;
  address = p.address;
  start_date = p.start_date;
  end_date = p.end_date;
  banner_url = p.banner_url;
  status = s;
}

abbrev pub put_event : Event → Db → Db
put_event v d = record d { events = v ∷ d.events }

-- VARCHAR(255), in characters
abbrev pub fits_columns : EventParams → Bool
fits_columns p = leb (length p.name) 255 && (leb (length p.slug) 255 && leb (length p.venue) 255)

abbrev pub checked_status : Option EventStatus → Result EventStatus
checked_status none = err (pg Failure.check_violation)
checked_status (some s) = ok s

-- The status of the row, if the values fit the columns and the CHECK.
unfoldable pub event_values : EventParams → Result EventStatus
event_values p =
    if fits_columns p then checked_status (event_status p.status) else err (pg Failure.too_long)

unfoldable pub insert_event : EventParams → Result EventStatus → Uuid → Db → Result Event × Db
insert_event p (err x) u d = (err x, d)
insert_event p (ok s) u d =
    if exists (λ v. v.id == u) d.events || exists (λ v. text_eq v.slug p.slug) d.events
    then (err (pg Failure.unique_violation), d)
    else (ok (event_row u s p), put_event (event_row u s p) d)

-- Another event has the slug.
abbrev pub slug_elsewhere : Uuid → Text → List Event → Bool
slug_elsewhere i slug events = exists (λ v. not (v.id == i) && text_eq v.slug slug) events

abbrev pub replace_event : Uuid → EventStatus → EventParams → Db → Db
replace_event i s p d = record d { events = update event_id i (λ v. event_row v.id s p) d.events }

-- UPDATE events SET … WHERE id = $1 RETURNING …
unfoldable pub change_event :
    Uuid → EventParams → Result EventStatus → Option Event → Db → Result Event × Db
change_event i p s none d = (err (sentinel Sentinel.no_rows), d)
change_event i p (err x) (some v) d = (err x, d)
change_event i p (ok s) (some v) d =
    if slug_elsewhere i p.slug d.events
    then (err (pg Failure.unique_violation), d)
    else (ok (event_row v.id s p), replace_event i s p d)

-- The rows that do not meet a condition.
abbrev pub keep_unless : {A : Type 0} → (A → Bool) → List A → List A
keep_unless p = select (λ x. not (p x))

-- DELETE FROM ticket_types WHERE …, refused where an order item or an attendee refers to a row.
abbrev pub refers : (TicketType → Bool) → Db → Bool
refers p d =
    let gone = select p d.ticket_types in
    exists (λ x. exists (λ t. t.id == x.ticket_type_id) gone) d.order_items
    || exists (λ x. exists (λ t. t.id == x.ticket_type_id) gone) d.attendees

abbrev pub without_ticket_types : (TicketType → Bool) → Db → Db
without_ticket_types p d = record d { ticket_types = keep_unless p d.ticket_types }

unfoldable pub remove_ticket_types : (TicketType → Bool) → Db → Result ℕ × Db
remove_ticket_types p d =
    if refers p d
    then (err (pg Failure.foreign_key_violation), d)
    else (ok (length (select p d.ticket_types)), without_ticket_types p d)

abbrev pub without_event : Uuid → Db → Db
without_event i d = record d { events = keep_unless (λ v. v.id == i) d.events }

-- DELETE FROM events WHERE id = $1, refused where a ticket type refers to the row.
unfoldable pub remove_event : Uuid → Db → Result ℕ × Db
remove_event i d =
    let gone = select (λ v. v.id == i) d.events in
    if exists (λ t. exists (λ v. v.id == t.event_id) gone) d.ticket_types
    then (err (pg Failure.foreign_key_violation), d)
    else (ok (length gone), without_event i d)

-- VARCHAR(100)
abbrev pub fits_name : Text → Bool
fits_name name = leb (length name) 100

-- Why the values of a row are refused, if they are.
abbrev pub refused_values : TicketTypeParams → Option Failure
refused_values p =
    if fits_name p.name
    then (if fits_numeric p.price && fits_int p.quota
        then (if leb_ℤ (pos 0) p.quota then none else some Failure.check_violation)
        else some Failure.out_of_range)
    else some Failure.too_long

abbrev pub ticket_type_row : Uuid → Time → TicketTypeParams → TicketType
ticket_type_row u t p = record {
  id = u;
  event_id = p.event_id;
  name = p.name;
  price = p.price;
  quota = p.quota;
  sales_start = p.sales_start;
  sales_end = p.sales_end;
  created_at = t;
}

abbrev pub put_ticket_type : TicketType → Db → Db
put_ticket_type x d = record d { ticket_types = x ∷ d.ticket_types }

unfoldable pub insert_ticket_type :
    TicketTypeParams → Option Failure → Uuid → Time → Db → Result TicketType × Db
insert_ticket_type p (some f) u t d = (err (pg f), d)
insert_ticket_type p none u t d =
    if exists (λ x. x.id == u) d.ticket_types
    then (err (pg Failure.unique_violation), d)
    else (if exists (λ v. v.id == p.event_id) d.events
        then (ok (ticket_type_row u t p), put_ticket_type (ticket_type_row u t p) d)
        else (err (pg Failure.foreign_key_violation), d))

-- SET name, price, quota, sales_start, sales_end
abbrev pub with_params : TicketTypeParams → TicketType → TicketType
with_params p x = record x {
  name = p.name;
  price = p.price;
  quota = p.quota;
  sales_start = p.sales_start;
  sales_end = p.sales_end;
}

abbrev pub replace_ticket_type : Uuid → TicketTypeParams → Db → Db
replace_ticket_type i p d = record d {
  ticket_types = update ticket_type_id i (with_params p) d.ticket_types;
}

unfoldable pub change_ticket_type :
    Uuid → TicketTypeParams → Option Failure → Option TicketType → Db → Result TicketType × Db
change_ticket_type i p f none d = (err (sentinel Sentinel.no_rows), d)
change_ticket_type i p (some f) (some x) d = (err (pg f), d)
change_ticket_type i p none (some x) d = (ok (with_params p x), replace_ticket_type i p d)

-- FROM ticket_types tt JOIN events e ON e.id = tt.event_id
abbrev pub display_of : List Event → TicketType → List TicketTypeDisplay
display_of events x = elim (find event_id x.event_id events) [
  | none ↦ []
  | some v ↦ record { id = x.id; name = x.name; event_name = v.name; event_slug = v.slug } ∷ []
]

abbrev pub displays : List Event → List TicketType → List TicketTypeDisplay
displays events [] = []
displays events (x ∷ xs) = display_of events x ++ displays events xs

module _ (e : Env) where
  unfoldable pub list_events : M (List Event)
  list_events = query e (λ d. sort_with (λ v w. leb w.start_date v.start_date) d.events)

  unfoldable pub get_event_by_id : Uuid → M Event
  get_event_by_id i = query_row e (λ d. find event_id i d.events)

  unfoldable pub create_event : EventParams → M Event
  unfolding insert_event event_values
  create_event p = statement e (λ u _ d. insert_event p (event_values p) u d)

  unfoldable pub update_event : Uuid → EventParams → M Event
  unfolding change_event event_values
  update_event i p =
      statement e (λ _ _ d. change_event i p (event_values p) (find event_id i d.events) d)

  unfoldable pub list_ticket_type_ids_by_event_id : Uuid → M (List Uuid)
  list_ticket_type_ids_by_event_id i =
      query e (λ d. map ticket_type_id (select (λ t. t.event_id == i) d.ticket_types))

  unfoldable pub delete_ticket_types_by_event_id : Uuid → M ℕ
  unfolding remove_ticket_types
  delete_ticket_types_by_event_id i =
      statement e (λ _ _ d. remove_ticket_types (λ t. t.event_id == i) d)

  unfoldable pub delete_event : Uuid → M ℕ
  unfolding remove_event
  delete_event i = statement e (λ _ _ d. remove_event i d)

  unfoldable pub delete_ticket_type : Uuid → M ℕ
  unfolding remove_ticket_types
  delete_ticket_type i = statement e (λ _ _ d. remove_ticket_types (λ t. t.id == i) d)

  unfoldable pub list_ticket_types_admin : Uuid → M (List TicketType)
  list_ticket_types_admin i =
      query e (λ d. sort_by (λ t. t.created_at) (select (λ t. t.event_id == i) d.ticket_types))

  unfoldable pub get_ticket_type_admin : Uuid → M TicketType
  get_ticket_type_admin i = query_row e (λ d. find ticket_type_id i d.ticket_types)

  unfoldable pub create_ticket_type : TicketTypeParams → M TicketType
  unfolding insert_ticket_type
  create_ticket_type p = statement e (λ u t d. insert_ticket_type p (refused_values p) u t d)

  unfoldable pub update_ticket_type : Uuid → TicketTypeParams → M TicketType
  unfolding change_ticket_type
  update_ticket_type i p =
      statement e
        λ _ _ d. change_ticket_type i p (refused_values p) (find ticket_type_id i d.ticket_types) d

  unfoldable pub list_ticket_type_names_by_ids : List Uuid → M (List TicketTypeName)
  list_ticket_type_names_by_ids ids = query e λ d.
      map (λ t. record { id = t.id; name = t.name }) (select (λ t. member t.id ids) d.ticket_types)

  unfoldable pub list_ticket_type_displays_by_ids : List Uuid → M (List TicketTypeDisplay)
  list_ticket_type_displays_by_ids ids =
      query e (λ d. displays d.events (select (λ t. member t.id ids) d.ticket_types))
