-- ===== src/Event/Quota.antt =====
-- The quota contract, operation by operation, where the database answers.
use event_portal.Base.{
  sub_add_cancel, ℤ, pos, ◌-ℤ◌, leb_ℤ, fits_int, ◌==◌, true, Option, none, some, List, [], ◌∷◌, ◌≡◌,
  refl, ◌∙◌, inl, inr, find, update, Bool-cases, find-update_self, some_value,
}
use event_portal.Effect.Laws.{
  Ends, EndsAt, EndsOn, Ends-ok, >>-Ends, pure-Ends, map_error-Ends, statement-Ends,
}
use event_portal.Store.{Db, Uuid, TicketType}
use event_portal.Effect.{Env, World, Result, ok, err}
use event_portal.Event.Sql
use event_portal.Event.Sql.{ticket_type_id, with_quota, deduct_row, restore_row, store_quota}
use event_portal.Event.Repository
use event_portal.Event.Service

-- Writing another quota and the old one back.
update_back :
    (i : Uuid) (q : ℤ) (rows : List TicketType) (x : TicketType)
    → find ticket_type_id i rows ≡ some x
    → update ticket_type_id i (with_quota x.quota) (update ticket_type_id i (with_quota q) rows)
      ≡ rows
unfolding find update
update_back i q [] x h = cc
update_back i q (y ∷ ys) x h = elim (Bool-cases (y.id == i)) [
  | inl here ↦ rw (here, here, ← some_value y y x (rw here at h)) refl
  | inr other ↦ rw (other, other, update_back i q ys x (rw other at h)) refl
]

-- The tables with another quota.
abbrev pub with_stored : Uuid → ℤ → Db → Db
with_stored i q d = record d {
  ticket_types = update ticket_type_id i (with_quota q) d.ticket_types;
}

-- `qty` seats of the ticket type have been taken off sale, and nothing else happened.
abbrev pub Taken : Uuid → ℤ → Db → Db → Type 0
Taken i qty before d =
    (x : TicketType) × ((find ticket_type_id i before.ticket_types ≡ some x)
      × ((leb_ℤ qty x.quota ≡ true) × (d ≡ with_stored i (x.quota -ℤ qty) before)))

store_quota-stored :
    (i : Uuid) (q : ℤ) (d : Db)
    → EndsOn (λ _ d'. d' ≡ with_stored i q d) (λ d'. d' ≡ d) (store_quota i q d)
unfolding store_quota
store_quota-stored i q d = elim (Bool-cases (fits_int q)) [
  | inr wide ↦ rw wide refl
  | inl fits ↦ elim (Bool-cases (leb_ℤ (pos 0) q)) [
    | inr below ↦ rw (fits, below) refl
    | inl above ↦ rw (fits, above) refl
  ]
]

EndsOn-weaken :
    {A : Type 0} (P Q E F : Db → Type 0) (r : Result A × Db)
    → ((d : Db) → P d → Q d)
    → ((d : Db) → E d → F d)
    → EndsOn (λ _. P) E r
    → EndsOn (λ _. Q) F r
EndsOn-weaken P Q E F (ok a, d) f g h = f d h
EndsOn-weaken P Q E F (err x, d) f g h = g d h

deduct_row-Taken :
    (i : Uuid) (qty : ℤ) (d : Db) (o : Option TicketType)
    → find ticket_type_id i d.ticket_types ≡ o
    → EndsOn (λ _ d'. Taken i qty d d') (λ d'. d' ≡ d) (deduct_row i qty o d)
unfolding deduct_row
deduct_row-Taken i qty d none e = refl
deduct_row-Taken i qty d (some x) e = elim (Bool-cases (leb_ℤ qty x.quota)) [
  | inr short ↦ rw short refl
  | inl enough ↦ rw enough (
      EndsOn-weaken _ _ _ _ (store_quota i (x.quota -ℤ qty) d) (λ d' same. (x, (e, (enough, same))))
        (λ _ k. k) (store_quota-stored i (x.quota -ℤ qty) d))
]

restore_row-back :
    (i : Uuid) (qty : ℤ) (before d : Db)
    → Taken i qty before d
    → EndsOn
        (λ _ d'. d' ≡ before)
        (λ _. Unit)
        (restore_row i qty (find ticket_type_id i d.ticket_types) d)
unfolding restore_row
restore_row-back i qty before d (x, (found, (enough, taken))) =
    let there =
      find-update_self ticket_type_id i (with_quota (x.quota -ℤ qty)) before.ticket_types
        (λ _. refl) x found in
    rw (taken, there, sub_add_cancel x.quota qty)
      (EndsOn-weaken _ _ _ _ (store_quota i x.quota (with_stored i (x.quota -ℤ qty) before))
        (λ d' same. same ∙ (rw (update_back i (x.quota -ℤ qty) before.ticket_types x found) refl))
        (λ _ _. tt) (store_quota-stored i x.quota (with_stored i (x.quota -ℤ qty) before)))

module _ (i : Uuid) (qty : ℤ) where
  check_and_deduct_quota-Taken :
      (e : Env) (w : World)
      → Ends (λ _ d. Taken i qty w.db d) (λ d. d ≡ w.db) (Service.check_and_deduct_quota e i qty) w
  unfolding Service.check_and_deduct_quota Repository.check_and_deduct_quota
      Sql.check_and_deduct_quota
  check_and_deduct_quota-Taken e w =
      >>-Ends (λ _ d. Taken i qty w.db d)
        (map_error-Ends _ (statement-Ends e _ refl λ _ _. deduct_row-Taken i qty w.db _ refl))
        (λ _ _ h. pure-Ends _ h)

  restore_quota-back :
      (before : Db) (e : Env) (w : World)
      → Taken i qty before w.db
      → Ends (λ _ d. d ≡ before) (λ _. Unit) (Service.restore_quota e i qty) w
  unfolding Service.restore_quota Repository.restore_quota Sql.restore_quota
  restore_quota-back before e w taken =
      >>-Ends (λ _ d. d ≡ before)
        (map_error-Ends _ (statement-Ends e _ tt λ _ _. restore_row-back i qty before w.db taken))
        (λ _ _ h. pure-Ends _ h)

  -- A deduction that succeeds found at least as many seats on sale and changed that quota alone,
  -- and one that fails, for whatever reason, changed no table.
  pub check_and_deduct_quota_lem :
      (e : Env) (w : World)
      → EndsAt
          (λ _ d. Taken i qty w.db d)
          (λ d. d ≡ w.db)
          (Service.check_and_deduct_quota e i qty w)
  check_and_deduct_quota_lem e w = (check_and_deduct_quota-Taken e w).end

  -- Seats that a deduction took off sale and a restore put back leave every table as it was before
  -- both.
  pub restore_quota-check_and_deduct_quota :
      (e e' : Env) (w w₁ w₂ : World)
      → Service.check_and_deduct_quota e i qty w ≡ (ok tt, w₁)
      → Service.restore_quota e' i qty w₁ ≡ (ok tt, w₂)
      → w₂.db ≡ w.db
  restore_quota-check_and_deduct_quota e e' w w₁ w₂ took gave =
      Ends-ok
        (restore_quota-back w.db e' w₁ (Ends-ok (check_and_deduct_quota-Taken e w) tt w₁ took)) tt
        w₂ gave
