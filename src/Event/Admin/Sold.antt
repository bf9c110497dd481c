-- ===== src/Event/Admin/Sold.antt =====
-- The sold counts of the dashboard: one grouped query for a whole page against the sum of the
-- quantities of each ticket type.
use event_portal.Base.{
  ℕ, suc, ℤ, pos, ◌+ℤ◌, add_zero, zero_add, ◌==◌, ==→≡, ==_refl, ◌||◌, if◌then◌else◌, Bool, true,
  false, some, List, [], ◌∷◌, map, length, select, sort_by, exists, Each, Each-map, ◌≡◌, refl, sym,
  ◌∙◌, ap, inl, inr, Bool-cases, arith, ◌⊎◌, find, absurd_bool,
}
use event_portal.Errors.{Code, not_found_error}
use event_portal.Store.{Db, Uuid, OrderItem, TicketType}
use event_portal.Effect.{Env, World}
use event_portal.Effect.Outcome.{
  Outcome, OutcomeAt, pure-Outcome, if-Outcome, >>=-Outcome, map_error-Outcome, query-Outcome,
  query_row-Outcome, Outcome-weaken,
}
use event_portal.Order.Sql as OrderSql
use event_portal.Order.Sql.{SoldCount, member, add_sold, sold_rows, sold_in}
use event_portal.Order.Repository as OrderRepository
use event_portal.Event.Admin.Request.{TicketTypeAdminView}
use event_portal.Event.Admin.Sql
use event_portal.Event.Admin.Sql.{event_id}
use event_portal.Event.Admin.Repository
use event_portal.Event.Admin.Service
use event_portal.Event.Admin.Service.{count_of, to_views, to_ticket_type_view}
use event_portal.Event.Admin.Restrict.{down, has_event, at_event}
use event_portal.Event.Admin.EventWrites.{find_exists}
use event_portal.Adapters.{order_checker}

-- The view of a ticket type with the sum over all order items.
abbrev pub sold_view : List OrderItem → TicketType → TicketTypeAdminView
sold_view items t = to_ticket_type_view (sold_in t.id items) t

not_empty : (n : ℕ) → (suc n == 0) ≡ true → ⊥
not_empty n h = ground arith

other_group : (r u t : ℕ) → (r == u) ≡ false → (r == t) ≡ true → (u == t) ≡ false
other_group r u t h k = ground arith

or_here : (a b : Bool) → a ≡ true → (a || b) ≡ true
or_here a b h = rw h refl

or_there : (a b : Bool) → b ≡ true → (a || b) ≡ true
or_there true b h = refl
or_there false b h = h

count_of-add_sold :
    (t u : Uuid) (q : ℤ) (rows : List SoldCount)
    → count_of t (add_sold u q rows) ≡ (if u == t then q else pos 0) +ℤ count_of t rows
unfolding count_of add_sold
count_of-add_sold t u q [] = elim (Bool-cases (u == t)) [
  | inl same ↦ rw same (sym (add_zero q))
  | inr other ↦ rw other (sym (zero_add (pos 0)))
]
count_of-add_sold t u q (r ∷ rs) = elim (Bool-cases (r.ticket_type_id == u)) [
  | inl group ↦ elim (Bool-cases (u == t)) [
    | inl same ↦ rw (group, same, ==→≡ r.ticket_type_id u group, same) refl
    | inr other ↦ rw (group, other, ==→≡ r.ticket_type_id u group, other, zero_add) refl
  ]
  | inr differ ↦ elim (Bool-cases (r.ticket_type_id == t)) [
    | inl here ↦ rw (differ, here, other_group r.ticket_type_id u t differ here) (sym (zero_add _))
    | inr there ↦ rw (differ, there) (count_of-add_sold t u q rs)
  ]
]

count_of-sold_rows :
    (t : Uuid) (ids : List Uuid) (items : List OrderItem)
    → member t ids ≡ true
    → count_of t (sold_rows ids items) ≡ sold_in t items
unfolding count_of sold_rows
count_of-sold_rows t ids [] h = refl
count_of-sold_rows t ids (i ∷ is) h = elim (Bool-cases (member i.ticket_type_id ids)) [
  | inl asked ↦
      rw
        (
          asked,
          count_of-add_sold t i.ticket_type_id i.quantity (sold_rows ids is),
          count_of-sold_rows t ids is h,
        )
        refl
  | inr other ↦ elim (Bool-cases (i.ticket_type_id == t)) [
    | inl same ↦ absurd_bool (sym ((rw (==→≡ i.ticket_type_id t same) at other)) ∙ h)
    | inr differ ↦ rw (other, differ, count_of-sold_rows t ids is h) (sym (zero_add _))
  ]
]

to_views-sold_rows :
    (ids : List Uuid) (items : List OrderItem) (rows : List TicketType)
    → Each (λ t. member t.id ids ≡ true) rows
    → to_views (sold_rows ids items) rows ≡ map (sold_view items) rows
unfolding to_views
to_views-sold_rows ids items [] h = refl
to_views-sold_rows ids items (t ∷ ts) (h, k) =
    rw (count_of-sold_rows t.id ids items h, to_views-sold_rows ids items ts k) refl

all_asked : (rows : List TicketType) → Each (λ t. member t.id (map (λ x. x.id) rows) ≡ true) rows
unfolding exists
all_asked [] = tt
all_asked (t ∷ ts) =
    (or_here _ _ (==_refl t.id), Each-map ts (λ x h. or_there _ _ h) (all_asked ts))

-- The ticket types of an event in the order of their creation.
abbrev pub listed : Uuid → Db → List TicketType
listed i d = sort_by (λ t. t.created_at) (select (at_event i) d.ticket_types)

module _ (e : Env) where
  sold_count-Outcome :
      (d₀ : Db) (t : Uuid) (ids : List Uuid) (w : World)
      → w.db ≡ d₀
      → Outcome
          (λ counts d. (counts ≡ sold_rows (t ∷ ids) d₀.order_items) × (d ≡ d₀))
          (λ x d. (x ≡ down) × (d ≡ d₀))
          (OrderRepository.sold_count_by_ticket_type e (t ∷ ids))
          w
  unfolding OrderRepository.sold_count_by_ticket_type OrderSql.sold_count_by_ticket_types
  sold_count-Outcome d₀ t ids w same =
      if-Outcome (length (t ∷ ids) == 0) (λ h. absurd (not_empty _ h))
        (λ _. map_error-Outcome _ (query-Outcome e _ (refl, same) (rw same refl, same)))

  with_sold_counts-Outcome :
      (d₀ : Db) (rows : List TicketType) (w : World)
      → w.db ≡ d₀
      → Outcome
          (λ views d. (views ≡ map (sold_view d₀.order_items) rows) × (d ≡ d₀))
          (λ x d. (x ≡ down) × (d ≡ d₀))
          (Service.with_sold_counts e (some (order_checker e)) rows)
          w
  unfolding Service.with_sold_counts Service.sold_counts
  with_sold_counts-Outcome d₀ [] w same = pure-Outcome _ (refl, same)
  with_sold_counts-Outcome d₀ (t ∷ ts) w same =
      if-Outcome (length (t ∷ ts) == 0) (λ h. absurd (not_empty _ h))
        (λ _.
          >>=-Outcome
            (λ counts d. (counts ≡ sold_rows (map (λ x. x.id) (t ∷ ts)) d₀.order_items) × (d ≡ d₀))
            (sold_count-Outcome d₀ t.id (map (λ x. x.id) ts) w same)
            (λ counts w' (grouped, same'). pure-Outcome _ (
              ap (λ c. to_views c (t ∷ ts)) grouped
                  ∙ to_views-sold_rows _ d₀.order_items (t ∷ ts) (all_asked (t ∷ ts)),
              same',
            )))

  pub with_sold_count-Outcome :
      (d₀ : Db) (row : TicketType) (w : World)
      → w.db ≡ d₀
      → Outcome
          (λ view d. (view ≡ sold_view d₀.order_items row) × (d ≡ d₀))
          (λ x d. (x ≡ down) × (d ≡ d₀))
          (Service.with_sold_count e (some (order_checker e)) row)
          w
  unfolding Service.with_sold_count Service.sold_counts exists
  with_sold_count-Outcome d₀ row w same =
      >>=-Outcome (λ counts d. (counts ≡ sold_rows (row.id ∷ []) d₀.order_items) × (d ≡ d₀))
        (sold_count-Outcome d₀ row.id [] w same)
        (λ counts w' (grouped, same'). pure-Outcome _ (
          rw
              (
                grouped,
                count_of-sold_rows row.id (row.id ∷ []) d₀.order_items
                    (or_here _ _ (==_refl row.id)),
              )
              refl,
          same',
        ))

  list_ticket_types-Outcome :
      (d₀ : Db) (i : Uuid) (w : World)
      → w.db ≡ d₀
      → Outcome
          (λ views d. (views ≡ map (sold_view d₀.order_items) (listed i d₀)) × (d ≡ d₀))
          (λ x d. (x ≡ down) × (d ≡ d₀))
          (Service.list_ticket_types e (some (order_checker e)) i)
          w
  unfolding Service.list_ticket_types Repository.list_ticket_types_admin Sql.list_ticket_types_admin
  list_ticket_types-Outcome d₀ i w same =
      >>=-Outcome (λ rows d. (rows ≡ listed i d₀) × (d ≡ d₀))
        (map_error-Outcome _ (query-Outcome e _ (refl, same) (rw same refl, same)))
        (λ rows w' (read, same'). rw read (with_sold_counts-Outcome d₀ (listed i d₀) w' same'))

  -- The detail of an event shows the event with the id and its ticket types in the order of their
  -- creation, each with the sum of the quantities of all its order items, which one grouped query
  -- has for the whole page. It fails only where the database does not answer, or where no event has
  -- the id (404). No table changes.
  pub get_event_detail_lem :
      (i : Uuid) (w : World)
      → OutcomeAt
          (λ detail d.
            ((find event_id i w.db.events ≡ some detail.event)
              × (detail.ticket_types ≡ map (sold_view w.db.order_items) (listed i w.db)))
            × (d ≡ w.db))
          (λ x d.
            ((x ≡ down) ⊎ ((x ≡ not_found_error Code.event_not_found) × (has_event i w.db ≡ false)))
            × (d ≡ w.db))
          (Service.get_event_detail e (some (order_checker e)) i w)
  unfolding Service.get_event_detail Repository.get_event_by_id Sql.get_event_by_id
  get_event_detail_lem i w =
      (>>=-Outcome (λ v d. (find event_id i w.db.events ≡ some v) × (d ≡ w.db))
        (map_error-Outcome _ (
          map_error-Outcome _ (
            query_row-Outcome e _ (inl refl, refl)
              (λ none_found. (inr (refl, find_exists event_id i w.db.events none_found), refl))
              (λ v found. (found, refl)))))
        (λ v w₁ (found, same₁).
          >>=-Outcome
            (λ views d. (views ≡ map (sold_view w.db.order_items) (listed i w.db)) × (d ≡ w.db))
            (Outcome-weaken (list_ticket_types-Outcome w.db i w₁ same₁) (λ _ _ h. h)
              (λ _ _ (lost, same). (inl lost, same)))
            (λ views w₂ (shown, same₂). pure-Outcome _ ((found, shown), same₂)))).end
