-- ===== src/Event/Catalog/Hidden.antt =====
-- What the guest's catalogue cannot tell apart.
use event_portal.Base.{
  ◌&&◌, if◌then◌else◌, Text, Bool, true, false, Option, some, List, [], ◌∷◌, find_by, select, ◌≡◌,
  refl, ap, ◌∙◌, inl, inr, Bool-cases,
}
use event_portal.Errors.{Error}
use event_portal.Store.{Db, Event}
use event_portal.Effect.{
  Env, World, Result, ok, err, M, pure, throw, ◌>>=◌, handle, map_error, statement, query,
  query_row,
}
use event_portal.Event.Catalog.Sql
use event_portal.Event.Catalog.Sql.{is_published, published_as}
use event_portal.Event.Catalog.Repository
use event_portal.Event.Catalog.Service
use event_portal.Event.Catalog.Repository.{EventSummary, EventDetail}

-- The tables without the events that are not published.
abbrev pub without_unpublished : Db → Db
without_unpublished d = record d { events = select is_published d.events }

abbrev pub hide : World → World
hide w = record w { db = without_unpublished w.db }

-- A call that neither reads nor writes the events that are not published.
record Blind {A : Type 0} (m : M A) : Type 0 where
  same : (w : World) → m (hide w) ≡ ((m w).0, hide (m w).1)

pure-Blind : {A : Type 0} (a : A) → Blind (pure a)
unfolding pure
pure-Blind a = record { same = λ w. refl }

-- What a call goes on with, and what it makes of an error.
abbrev next : {A B : Type 0} → (A → M B) → Result A × World → Result B × World
next f (ok a, w) = f a w
next f (err x, w) = (err x, w)

abbrev reword : {A : Type 0} → (Error → Error) → Result A × World → Result A × World
reword f (ok a, w) = (ok a, w)
reword f (err x, w) = (err (f x), w)

next_same :
    {A B : Type 0} (f : A → M B) (r : Result A × World)
    → ((a : A) → Blind (f a))
    → next f (r.0, hide r.1) ≡ ((next f r).0, hide (next f r).1)
next_same f (ok a, w) h = (h a).same w
next_same f (err x, w) h = refl

reword_same :
    {A : Type 0} (f : Error → Error) (r : Result A × World)
    → reword f (r.0, hide r.1) ≡ ((reword f r).0, hide (reword f r).1)
reword_same f (ok a, w) = refl
reword_same f (err x, w) = refl

bind_next : {A B : Type 0} (m : M A) (f : A → M B) (w : World) → (m >>= f) w ≡ next f (m w)
unfolding ◌>>=◌
bind_next {A} {B} m f w = go (m w)
  where
    go : (r : Result A × World) → elim r.0 [ ok a ↦ f a r.1 | err x ↦ (err x, r.1) ] ≡ next f r
    go (ok a, w') = refl
    go (err x, w') = refl

map_error-reword :
    {A : Type 0} (f : Error → Error) (m : M A) (w : World) → map_error f m w ≡ reword f (m w)
unfolding map_error handle pure throw
map_error-reword {A} f m w = go (m w)
  where
    go :
        (r : Result A × World)
        → (elim r.0 [ ok a ↦ (ok a, r.1) | err x ↦ (err (f x), r.1) ]) ≡ reword f r
    go (ok a, w') = refl
    go (err x, w') = refl

>>=-Blind :
    {A B : Type 0} {m : M A} {f : A → M B} → Blind m → ((a : A) → Blind (f a)) → Blind (m >>= f)
>>=-Blind {m} {f} h k = record {
  same = λ w.
      rw (bind_next m f (hide w), bind_next m f w) (ap (next f) (h.same w) ∙ next_same f (m w) k);
}

map_error-Blind : {A : Type 0} (f : Error → Error) {m : M A} → Blind m → Blind (map_error f m)
map_error-Blind f {m} h = record {
  same = λ w.
      rw (map_error-reword f m (hide w), map_error-reword f m w)
        (ap (reword f) (h.same w) ∙ reword_same f (m w));
}

module _ (e : Env) where
  query-Blind :
      {A : Type 0} (f : Db → A) → ((d : Db) → f (without_unpublished d) ≡ f d) → Blind (query e f)
  unfolding query statement
  query-Blind f h = record {
    same = λ w. elim (Bool-cases (e.fault w.tick)) [
      | inl down ↦ rw down refl
      | inr up ↦ rw (up, h w.db) refl
    ];
  }

  query_row-Blind :
      {A : Type 0} (f : Db → Option A)
      → ((d : Db) → f (without_unpublished d) ≡ f d)
      → Blind (query_row e f)
  unfolding query_row statement
  query_row-Blind f h = record {
    same = λ w. elim (Bool-cases (e.fault w.tick)) [
      | inl down ↦ rw down refl
      | inr up ↦ rw (up, h w.db) refl
    ];
  }

select_twice :
    (vs : List Event) → select is_published (select is_published vs) ≡ select is_published vs
unfolding select
select_twice [] = refl
select_twice (v ∷ vs) = elim (Bool-cases (is_published v)) [
  | inl shown ↦ rw (shown, shown, select_twice vs) refl
  | inr hidden ↦ rw (hidden, select_twice vs) refl
]

and_false : (a b : Bool) → b ≡ false → (a && b) ≡ false
and_false true b h = h
and_false false b h = refl

find_by-select :
    (p q : Event → Bool) (vs : List Event)
    → ((v : Event) → q v ≡ false → p v ≡ false)
    → find_by p (select q vs) ≡ find_by p vs
unfolding select find_by
find_by-select p q [] h = refl
find_by-select p q (v ∷ vs) h = elim (Bool-cases (q v)) [
  | inl shown ↦ rw shown (ap (λ r. if p v then some v else r) (find_by-select p q vs h))
  | inr hidden ↦ rw (hidden, h v hidden) (find_by-select p q vs h)
]

find_published :
    (slug : Text) (vs : List Event)
    → find_by (published_as slug) (select is_published vs) ≡ find_by (published_as slug) vs
find_published slug vs =
    find_by-select (published_as slug) is_published vs (λ v hidden. and_false _ _ hidden)

module _ (e : Env) where
  list_published_events-Blind : Blind (Service.list_published_events e)
  unfolding Service.list_published_events Repository.list_published_events Sql.list_published_events
  list_published_events-Blind =
      >>=-Blind (map_error-Blind _ (query-Blind e _ (λ d. rw (select_twice d.events) refl)))
        (λ rows. pure-Blind _)

  get_published_event_by_slug-Blind :
      (slug : Text) → Blind (Service.get_published_event_by_slug e slug)
  unfolding Service.get_published_event_by_slug Repository.get_published_event_by_slug
      Sql.get_published_event_by_slug Repository.list_ticket_types_by_event_id
      Sql.list_ticket_types_by_event_id
  get_published_event_by_slug-Blind slug =
      >>=-Blind
        (map_error-Blind _ (
          >>=-Blind
            (map_error-Blind _ (query_row-Blind e _ (λ d. rw (find_published slug d.events) refl)))
            (λ row. pure-Blind _)))
        (λ detail.
          >>=-Blind (map_error-Blind _ (query-Blind e _ (λ d. refl))) (λ rows. pure-Blind _))

  -- Drafts and completed events are invisible to guests: the list of events and the page of an event
  -- answer as they would if the events that are not published were not in the tables, errors
  -- included.
  pub catalogue_blind :
      (slug : Text) (w : World)
      → ((Service.list_published_events e (hide w)).0 ≡ (Service.list_published_events e w).0)
        × ((Service.get_published_event_by_slug e slug (hide w)).0
            ≡ (Service.get_published_event_by_slug e slug w).0)
  catalogue_blind slug w = (
    ap (λ r. r.0) (list_published_events-Blind.same w),
    ap (λ r. r.0) ((get_published_event_by_slug-Blind slug).same w),
  )
