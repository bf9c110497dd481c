-- ===== src/Event/Admin/EventWrites.antt =====
-- Creating and updating an event: what is written, and every error.
use event_portal.Base.{
  ℕ, leb, ltb, length, ◌&&◌, ◌||◌, arith, ◌==◌, Bool, true, false, Option, none, some, List, [],
  ◌∷◌, find, some_value, none-some, ==→≡, exists, text_eq, ◌≡◌, refl, sym, ◌⊎◌, inl, inr,
  Bool-cases,
}
use event_portal.Errors.{
  Error, errorf, pg, Failure, sentinel, Sentinel, bad_request, not_found_error, Code,
}
use event_portal.Store.{Db, Uuid, Event, EventStatus}
use event_portal.Effect.{Env, World, M, ok, err}
use event_portal.Effect.Outcome.{
  Outcome, OutcomeAt, OutcomeOn, throw-Outcome, map_error-Outcome, statement-Outcome,
}
use event_portal.Event.Admin.Request.{EventRequest, event_status, validate_event}
use event_portal.Event.Admin.Request.Laws.{validate_event-IsAcceptedEvent}
use event_portal.Event.Admin.Sql
use event_portal.Event.Admin.Sql.{
  EventParams, fits_columns, event_values, event_id, event_row, replace_event, slug_elsewhere,
  change_event,
}
use event_portal.Event.Admin.Repository
use event_portal.Event.Admin.Service
use event_portal.Event.Admin.Service.{to_event_params, checked}
use event_portal.Event.Admin.Restrict.{down, has_event}

abbrev pub slug_taken : EventRequest → Db → Bool
slug_taken r d = exists (λ v. text_eq v.slug r.slug) d.events

-- The row that a request describes, with the id `i`.
abbrev pub Describes : EventRequest → Uuid → Event → Type 0
Describes r i v =
    (s : EventStatus) × ((event_status r.status ≡ some s) × (v ≡ event_row i s (to_event_params r)))

-- A name, a slug or a venue of more than 255 characters.
abbrev pub is_too_long : EventRequest → Bool
is_too_long r = ltb 255 (length r.name) || (ltb 255 (length r.slug) || ltb 255 (length r.venue))

-- Why an event is not created: no database, a request that does not validate, a slug that is taken,
-- or a text that is too long for its column.
abbrev pub NotCreated : EventRequest → Db → Error → Type 0
NotCreated r d x =
    (x ≡ down)
    ⊎ ((validate_event r ≡ some x)
        ⊎ (((x ≡ bad_request Code.slug_not_unique) × (slug_taken r d ≡ true))
            ⊎ ((x ≡ errorf (pg Failure.too_long)) × (is_too_long r ≡ true))))

abbrev pub NotUpdated : Uuid → EventRequest → Db → Error → Type 0
NotUpdated i r d x =
    (x ≡ down)
    ⊎ ((validate_event r ≡ some x)
        ⊎ (((x ≡ bad_request Code.slug_not_unique) × (slug_elsewhere i r.slug d.events ≡ true))
            ⊎ (((x ≡ not_found_error Code.event_not_found) × (has_event i d ≡ false))
                ⊎ ((x ≡ errorf (pg Failure.too_long)) × (is_too_long r ≡ true)))))

pub find_exists :
    {A : Type 0} (key : A → ℕ) (i : ℕ) (xs : List A)
    → find key i xs ≡ none
    → exists (λ x. key x == i) xs ≡ false
unfolding find exists
find_exists key i [] h = refl
find_exists key i (x ∷ xs) h = elim (Bool-cases (key x == i)) [
  | inl here ↦ absurd (none-some (sym (rw here at h)))
  | inr other ↦ rw other (find_exists key i xs (rw other at h))
]

find_id : (i : Uuid) (vs : List Event) (v : Event) → find event_id i vs ≡ some v → v.id ≡ i
unfolding find
find_id i [] v h = absurd (none-some h)
find_id i (x ∷ xs) v h = elim (Bool-cases (x.id == i)) [
  | inl here ↦ rw (← some_value x x v (rw here at h)) (==→≡ x.id i here)
  | inr other ↦ find_id i xs v (rw other at h)
]

too_wide :
    (a b c : ℕ)
    → (leb a 255 && (leb b 255 && leb c 255)) ≡ false
    → (ltb 255 a || (ltb 255 b || ltb 255 c)) ≡ true
too_wide a b c h = ground arith

module _ (r : EventRequest) (d : Db) (Q : Event → Db → Type 0) (E : Error → Db → Type 0)
    (valid : validate_event r ≡ none)
    (long : is_too_long r ≡ true → E (pg Failure.too_long) d) where
  -- What the columns make of a request that validates, which has a status that the CHECK allows.
  values :
      ((s : EventStatus) × ((event_values (to_event_params r) ≡ ok s)
          × (event_status r.status ≡ some s)))
      ⊎ ((event_values (to_event_params r) ≡ err (pg Failure.too_long)) × (is_too_long r ≡ true))
  unfolding event_values
  values =
      let (s, has) = (validate_event-IsAcceptedEvent r valid).has_status in
      elim (Bool-cases (fits_columns (to_event_params r))) [
        | inr wide ↦
            inr (rw wide (refl, too_wide (length r.name) (length r.slug) (length r.venue) wide))
        | inl fits ↦ inl (s, (rw (fits, has) refl, has))
      ]

  updated :
      (i : Uuid) (row : Option Event)
      → find event_id i d.events ≡ row
      → (slug_elsewhere i r.slug d.events ≡ false
          → (s : EventStatus) → event_status r.status ≡ some s
          → Q (event_row i s (to_event_params r)) (replace_event i s (to_event_params r) d))
      → (slug_elsewhere i r.slug d.events ≡ true → E (pg Failure.unique_violation) d)
      → (has_event i d ≡ false → E (sentinel Sentinel.no_rows) d)
      → OutcomeOn Q E (change_event i (to_event_params r) (event_values (to_event_params r)) row d)
  unfolding change_event
  updated i none row k l m = m (find_exists event_id i d.events row)
  updated i (some v) row k l m = elim values [
    | inr (refused, wide) ↦ rw refused (long wide)
    | inl (s, (fits, known)) ↦ rw fits (elim (Bool-cases (slug_elsewhere i r.slug d.events)) [
      | inl taken ↦ rw taken (l taken)
      | inr free ↦ rw (free, find_id i d.events v row) (k free s known)
    ])
  ]

-- The error of a refused request, or the call after the check.
pub checked-Outcome :
    {A : Type 0} {Q : A → Db → Type 0} {E : Error → Db → Type 0} (o : Option Error) {m : M A}
    {w : World}
    → ((x : Error) → o ≡ some x → E x w.db)
    → (o ≡ none → Outcome Q E m w)
    → Outcome Q E (checked o m) w
checked-Outcome none h k = k refl
checked-Outcome (some x) h k = throw-Outcome x (h x refl)

module _ (e : Env) (r : EventRequest) where
  -- An update that succeeds writes what the request describes to the event, whose slug no other
  -- event has, and to nothing else. One that fails changes no table, and fails for one of five
  -- reasons: the database does not answer, the request does not validate, another event has the slug
  -- (400), no event has the id (404), or a text has more than 255 characters.
  pub update_event_lem :
      (i : Uuid) (w : World)
      → OutcomeAt
          (λ v d.
            (slug_elsewhere i r.slug w.db.events ≡ false)
            × (Describes r i v
                × ((t : EventStatus) × ((event_status r.status ≡ some t)
                      × (d ≡ replace_event i t (to_event_params r) w.db)))))
          (λ x d. NotUpdated i r w.db x × (d ≡ w.db))
          (Service.update_event e i r w)
  unfolding Service.update_event Repository.update_event Sql.update_event
  update_event_lem i w =
      (checked-Outcome (validate_event r) (λ x refused. (inr (inl refused), refl))
        (λ valid. map_error-Outcome _ (
          map_error-Outcome _ (
            statement-Outcome e _ (inl refl, refl)
              (λ n.
                updated r w.db _ _ valid (λ wide. (inr (inr (inr (inr (refl, wide)))), refl)) i
                  (find event_id i w.db.events) refl
                  (λ free s known. (free, ((s, (known, refl)), (s, (known, refl)))))
                  (λ taken. (inr (inr (inl (refl, taken))), refl))
                  (λ missing. (inr (inr (inr (inl (refl, missing)))), refl))))))).end
