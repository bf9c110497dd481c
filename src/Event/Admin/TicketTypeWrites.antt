-- ===== src/Event/Admin/TicketTypeWrites.antt =====
-- Creating and updating a ticket type: what is written, every error, and the seats.
use event_portal.Base.{
  none-some, ℕ, ℤ, pos, ◌≤ℤ◌, ◌==◌, leb_ℤ, fits_int, ◌&&◌, not, Bool, true, false, arith, [], ◌∷◌,
  Option, none, some, List, find, exists, ◌≡◌, refl, ◌∙◌, ap, ◌⊎◌, inl, inr, Bool-cases,
}
use event_portal.Errors.{
  Error, errorf, pg, Failure, sentinel, Sentinel, bad_request, not_found_error, Code,
}
use event_portal.Store.{Db, Uuid, Time, TicketType}
use event_portal.Effect.{Env, World}
use event_portal.Effect.Outcome.{
  Outcome, OutcomeAt, OutcomeOn, Outcome-weaken, pure-Outcome, >>=-Outcome, >>-Outcome,
  map_error-Outcome, statement-Outcome, query_row-Outcome,
}
use event_portal.Order.Sql.{fits_numeric}
use event_portal.Event.Sql.{ticket_type_id}
use event_portal.Event.Admin.Request.{TicketTypeRequest, validate_ticket_type}
use event_portal.Event.Admin.Request.Laws.{validate_ticket_type-IsAcceptedTicketType}
use event_portal.Event.Admin.Sql
use event_portal.Event.Admin.Sql.{
  TicketTypeParams, event_id, fits_name, refused_values, with_params, put_ticket_type,
  ticket_type_row, replace_ticket_type, insert_ticket_type, change_ticket_type,
}
use event_portal.Event.Admin.Repository
use event_portal.Event.Admin.Service
use event_portal.Event.Admin.Service.{to_ticket_type_params, to_ticket_type_view}
use event_portal.Event.Admin.Restrict.{down, has_event}
use event_portal.Event.Admin.EventWrites.{checked-Outcome, find_exists}
use event_portal.Event.Admin.Sold.{sold_view, with_sold_count-Outcome}
use event_portal.Adapters.{order_checker}

-- A price or a quota outside its column.
abbrev pub is_too_large : TicketTypeRequest → Bool
is_too_large r = not (fits_numeric r.price && fits_int r.quota)

-- A value that its column does not hold, and the error of the database.
abbrev pub Unfit : TicketTypeRequest → Failure → Type 0
Unfit r f =
    ((f ≡ Failure.too_long) × (fits_name r.name ≡ false))
    ⊎ ((f ≡ Failure.out_of_range) × (is_too_large r ≡ true))

-- Why a ticket type is not created: no database, a request that does not validate, an event that
-- does not exist, or a value that its column does not hold.
abbrev pub NotAdded : TicketTypeRequest → Db → Error → Type 0
NotAdded r d x =
    (x ≡ down)
    ⊎ ((validate_ticket_type true r ≡ some x)
        ⊎ (((x ≡ bad_request Code.event_not_found) × (has_event r.event_id d ≡ false))
            ⊎ ((f : Failure) × ((x ≡ errorf (pg f)) × Unfit r f))))

abbrev pub NotChanged : Uuid → TicketTypeRequest → Db → Error → Type 0
NotChanged i r d x =
    (x ≡ down)
    ⊎ ((validate_ticket_type false r ≡ some x)
        ⊎ (((x ≡ not_found_error Code.ticket_type_not_found)
              × (exists (λ t. t.id == i) d.ticket_types ≡ false))
            ⊎ ((f : Failure) × ((x ≡ errorf (pg f)) × Unfit r f))))

≤ℤ→leb_ℤ : (a b : ℤ) → a ≤ℤ b → leb_ℤ a b ≡ true
≤ℤ→leb_ℤ a b h = ground arith

-- A validated request breaks no CHECK of the table.
numbers :
    (b : Bool) (r : TicketTypeRequest)
    → validate_ticket_type b r ≡ none
    → (refused_values (to_ticket_type_params r) ≡ none)
      ⊎ ((f : Failure) × ((refused_values (to_ticket_type_params r) ≡ some f) × Unfit r f))
numbers b r valid =
    let quota = (validate_ticket_type-IsAcceptedTicketType b r valid).counted in
    elim (Bool-cases (fits_name r.name)) [
      | inr long ↦ inr (Failure.too_long, (rw long refl, inl (refl, long)))
      | inl short ↦ elim (Bool-cases (fits_numeric r.price && fits_int r.quota)) [
        | inr wide ↦ inr (Failure.out_of_range, (rw (short, wide) refl, inr (refl, rw wide refl)))
        | inl fits ↦ inl (rw (short, fits, ≤ℤ→leb_ℤ _ _ quota) refl)
      ]
    ]

module _ (p : TicketTypeParams) (d : Db) (Q : TicketType → Db → Type 0) (E : Error → Db → Type 0)
    (U : Failure → Type 0) (refused : (f : Failure) → U f → E (pg f) d) where
  added :
      (o : Option Failure) (u : Uuid) (t : Time)
      → (o ≡ none) ⊎ ((f : Failure) × ((o ≡ some f) × U f))
      → exists (λ x. x.id == u) d.ticket_types ≡ false
      → has_event p.event_id d ≡ true
      → Q (ticket_type_row u t p) (put_ticket_type (ticket_type_row u t p) d)
      → OutcomeOn Q E (insert_ticket_type p o u t d)
  unfolding insert_ticket_type
  added o u t (inr (f, (h, unfit))) fresh known k = rw h (refused f unfit)
  added o u t (inl h) fresh known k = rw (h, fresh, known) k

  changed :
      (i : Uuid) (o : Option Failure) (row : Option TicketType)
      → (o ≡ none) ⊎ ((f : Failure) × ((o ≡ some f) × U f))
      → find ticket_type_id i d.ticket_types ≡ row
      → ((x : TicketType) → row ≡ some x → Q (with_params p x) (replace_ticket_type i p d))
      → (exists (λ t. t.id == i) d.ticket_types ≡ false → E (sentinel Sentinel.no_rows) d)
      → OutcomeOn Q E (change_ticket_type i p o row d)
  unfolding change_ticket_type
  changed i o none valid found k m = m (find_exists ticket_type_id i d.ticket_types found)
  changed i o (some x) (inr (f, (h, unfit))) found k m = rw h (refused f unfit)
  changed i o (some x) (inl h) found k m = rw h (k x refl)

find-some :
    {A : Type 0} (key : A → ℕ) (i : ℕ) (xs : List A) (x : A)
    → find key i xs ≡ some x
    → exists (λ y. key y == i) xs ≡ true
unfolding find exists
find-some key i [] x h = absurd (none-some h)
find-some key i (y ∷ ys) x h = elim (Bool-cases (key y == i)) [
  | inl here ↦ rw here refl
  | inr other ↦ rw other (find-some key i ys x (rw other at h))
]

module _ (e : Env) (r : TicketTypeRequest) where
  -- A creation that succeeds adds the ticket type that the request describes to an event that
  -- exists, under a new id, and shows it with nothing sold. One that fails changes no table, and
  -- fails for one of four reasons: the database does not answer, the request does not validate, no
  -- event has the id (400), or the name, the price or the quota does not fit its column. The ids that the
  -- database draws are assumed not to be those of ticket types.
  pub create_ticket_type_lem :
      (w : World)
      → ((n : ℕ) → exists (λ t. t.id == e.uuid n) w.db.ticket_types ≡ false)
      → OutcomeAt
          (λ view d.
            (has_event r.event_id w.db ≡ true)
            × ((n : ℕ) × (let row =
                    ticket_type_row (e.uuid n) (e.now n) (to_ticket_type_params r) in
                  (view ≡ to_ticket_type_view (pos 0) row) × (d ≡ put_ticket_type row w.db))))
          (λ x d. NotAdded r w.db x × (d ≡ w.db))
          (Service.create_ticket_type e r w)
  unfolding Service.create_ticket_type Repository.get_event_by_id Sql.get_event_by_id
      Repository.create_ticket_type Sql.create_ticket_type
  create_ticket_type_lem w fresh =
      let p = to_ticket_type_params r in
      (checked-Outcome (validate_ticket_type true r) (λ x refused. (inr (inl refused), refl))
        (λ valid.
          >>-Outcome (λ _ d. (has_event r.event_id w.db ≡ true) × (d ≡ w.db))
            (map_error-Outcome _ (
              map_error-Outcome _ (
                query_row-Outcome e _ (inl refl, refl)
                  (λ missing. (
                    inr (inr (inl (refl, find_exists event_id r.event_id w.db.events missing))),
                    refl,
                  ))
                  (λ v found. (find-some event_id r.event_id w.db.events v found, refl)))))
            (λ _ w₁ (known, same).
              >>=-Outcome
                (λ t d.
                  (n : ℕ) × ((t ≡ ticket_type_row (e.uuid n) (e.now n) p)
                    × (d ≡ put_ticket_type (ticket_type_row (e.uuid n) (e.now n) p) w.db)))
                (map_error-Outcome _ (
                  statement-Outcome e _ (inl refl, same)
                    (λ n. rw same (
                      added p w.db _ _ (Unfit r)
                        (λ f unfit. (inr (inr (inr (f, (refl, unfit)))), refl)) (refused_values p)
                        (e.uuid n) (e.now n) (numbers true r valid) (fresh n) known
                        (n, (refl, refl))))))
                (λ t w₂ (n, (made, put)). pure-Outcome _ (known, (n, (rw made refl, put))))))).end

  pub update_ticket_type-Outcome :
      (i : Uuid) (w : World)
      → Outcome
          (λ view d.
            (x : TicketType) × (((find ticket_type_id i w.db.ticket_types ≡ some x)
                × (validate_ticket_type false r ≡ none))
              × ((view ≡ sold_view w.db.order_items (with_params (to_ticket_type_params r) x))
                  × (d ≡ replace_ticket_type i (to_ticket_type_params r) w.db))))
          (λ x d.
            (NotChanged i r w.db x × (d ≡ w.db))
            ⊎ ((x ≡ down)
                × ((t : TicketType) × (((find ticket_type_id i w.db.ticket_types ≡ some t)
                        × (validate_ticket_type false r ≡ none))
                      × (d ≡ replace_ticket_type i (to_ticket_type_params r) w.db)))))
          (Service.update_ticket_type e (some (order_checker e)) i r)
          w
  unfolding Service.update_ticket_type Repository.update_ticket_type Sql.update_ticket_type
  update_ticket_type-Outcome i w =
      let p = to_ticket_type_params r in
      (checked-Outcome (validate_ticket_type false r) (λ x refused. inl (inr (inl refused), refl))
        (λ valid.
          >>=-Outcome
            (λ row d.
              (x : TicketType) × ((find ticket_type_id i w.db.ticket_types ≡ some x)
                × ((row ≡ with_params p x) × (d ≡ replace_ticket_type i p w.db))))
            (map_error-Outcome _ (
              map_error-Outcome _ (
                statement-Outcome e _ (inl (inl refl, refl)) (λ n.
                  changed p w.db _ _ (Unfit r)
                    (λ f unfit. inl (inr (inr (inr (f, (refl, unfit)))), refl)) i (refused_values p)
                    (find ticket_type_id i w.db.ticket_types) (numbers false r valid) refl
                    (λ x found. (x, (found, (refl, refl))))
                    (λ missing. inl (inr (inr (inl (refl, missing))), refl))))))
            (λ row w₁ (x, (found, (new, put))).
              Outcome-weaken (with_sold_count-Outcome e _ row w₁ put)
                (λ view d (shown, same).
                  (x, ((found, valid), (shown ∙ ap (sold_view w.db.order_items) new, same))))
                (λ _ _ (lost, same). inr (lost, (x, ((found, valid), same)))))))

  -- An update that succeeds writes the request's name, price, quota and sale dates to the ticket
  -- type, the quota as it stands in the request, and shows the row with the sum of the quantities
  -- of its order items. One that fails changes no table, and fails because the database does not
  -- answer, the request does not validate, no ticket type has the id (404), or a value does not fit
  -- its column; but where the database stops answering after the write, the write stays.
  pub update_ticket_type_lem :
      (i : Uuid) (w : World)
      → OutcomeAt
          (λ view d.
            (x : TicketType) × (((find ticket_type_id i w.db.ticket_types ≡ some x)
                × (validate_ticket_type false r ≡ none))
              × ((view ≡ sold_view w.db.order_items (with_params (to_ticket_type_params r) x))
                  × (d ≡ replace_ticket_type i (to_ticket_type_params r) w.db))))
          (λ x d.
            (NotChanged i r w.db x × (d ≡ w.db))
            ⊎ ((x ≡ down)
                × ((t : TicketType) × (((find ticket_type_id i w.db.ticket_types ≡ some t)
                        × (validate_ticket_type false r ≡ none))
                      × (d ≡ replace_ticket_type i (to_ticket_type_params r) w.db)))))
          (Service.update_ticket_type e (some (order_checker e)) i r w)
  update_ticket_type_lem i w = (update_ticket_type-Outcome i w).end
