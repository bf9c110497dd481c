-- ===== src/Event/Seats.antt =====
-- What the quota contract of the event domain does to the seats of a ticket type.
use event_portal.Base.{
  ℤ, pos, ◌+ℤ◌, ◌-ℤ◌, leb_ℤ, leb_ℤ→≤ℤ, fits_int, int_laws, ◌==◌, ==→≡, true, false, Option, none,
  some, List, ◌≡◌, refl, inl, inr, find, Bool-cases,
}
use event_portal.Store.{Db, Uuid, TicketType, Order, OrderItem}
use event_portal.Effect.{Env, World}
use event_portal.Effect.Laws.{Ends, EndsOn, >>-Ends, pure-Ends, map_error-Ends, statement-Ends}
use event_portal.Seats.{share, quota_in, quota_of, held_of, capacity, Sound}
use event_portal.Seats.Laws.{quota_in-update}
use event_portal.Event.Sql
use event_portal.Event.Sql.{store_quota, deduct_row, restore_row}
use event_portal.Event.Repository
use event_portal.Event.Service

quota_of_found :
    (t i : Uuid) (d : Db) (x : TicketType)
    → find (λ r. r.id) i d.ticket_types ≡ some x
    → (i == t) ≡ true
    → quota_of t d ≡ x.quota
quota_of_found t i d x e h = rw (← ==→≡ i t h, e, quota_in)

less_here : (q v h c : ℤ) → q +ℤ h ≡ c → (q -ℤ v) +ℤ h ≡ c -ℤ v
less_here q v h c e = rw (← e) (omega int_laws)

less_other : (q h c : ℤ) → q +ℤ h ≡ c → q +ℤ h ≡ c -ℤ pos 0
less_other q h c e = rw (← e) (omega int_laws)

more_here : (q v h c : ℤ) → q +ℤ h ≡ c → (q +ℤ v) +ℤ h ≡ c +ℤ v
more_here q v h c e = rw (← e) (omega int_laws)

more_other : (q h c : ℤ) → q +ℤ h ≡ c → q +ℤ h ≡ c +ℤ pos 0
more_other q h c e = rw (← e) (omega int_laws)

module _ (t : Uuid) (c : ℤ) (F : List Order → List OrderItem → Type 0) (i : Uuid) (qty : ℤ)
    (E : Db → Type 0) where
  -- A quota that may be stored, `v` seats away from the one before.
  stored :
      (v : ℤ) (d : Db) (x : TicketType)
      → find (λ r. r.id) i d.ticket_types ≡ some x
      → (c' : ℤ) → ((i == t) ≡ true → v +ℤ held_of t d ≡ c')
      → ((i == t) ≡ false → capacity t d ≡ c')
      → E d
      → Sound t c F d
      → EndsOn (λ _ d'. Sound t c' F d') E (store_quota i v d)
  unfolding store_quota
  stored v d x e c' here other keep s = elim (Bool-cases (fits_int v)) [
    | inr wide ↦ rw wide keep
    | inl fits ↦ elim (Bool-cases (leb_ℤ (pos 0) v)) [
      | inr below ↦ rw (fits, below) keep
      | inl above ↦ elim (Bool-cases (i == t)) [
        | inl same ↦
            rw (fits, above)
              ((
                record {
                  linked = s.0.linked;
                  on_sale =
                      rw (quota_in-update t i v d.ticket_types x e, same)
                        (leb_ℤ→≤ℤ (pos 0) v above);
                  total = rw (quota_in-update t i v d.ticket_types x e, same) (here same);
                },
                s.1,
              ))
        | inr differ ↦
            rw (fits, above)
              ((
                record {
                  linked = s.0.linked;
                  on_sale = rw (quota_in-update t i v d.ticket_types x e, differ) s.0.on_sale;
                  total = rw (quota_in-update t i v d.ticket_types x e, differ) (other differ);
                },
                s.1,
              ))
      ]
    ]
  ]

  deducted :
      (d : Db)
      → E d
      → Sound t c F d
      → (o : Option TicketType) → find (λ r. r.id) i d.ticket_types ≡ o
      → EndsOn (λ _ d'. Sound t (c -ℤ share i qty t) F d') E (deduct_row i qty o d)
  unfolding deduct_row
  deducted d keep s none e = keep
  deducted d keep s (some x) e = elim (Bool-cases (leb_ℤ qty x.quota)) [
    | inr short ↦ rw short keep
    | inl enough ↦ rw enough (
        stored (x.quota -ℤ qty) d x e (c -ℤ share i qty t)
          (λ h. rw h (less_here _ _ _ _ (rw (← quota_of_found t i d x e h) s.0.total)))
          (λ h. rw h (less_other _ _ _ s.0.total)) keep s)
  ]

  restored :
      (d : Db)
      → E d
      → Sound t c F d
      → (o : Option TicketType) → find (λ r. r.id) i d.ticket_types ≡ o
      → EndsOn (λ _ d'. Sound t (c +ℤ share i qty t) F d') E (restore_row i qty o d)
  unfolding restore_row
  restored d keep s none e = keep
  restored d keep s (some x) e =
      stored (x.quota +ℤ qty) d x e (c +ℤ share i qty t)
        (λ h. rw h (more_here _ _ _ _ (rw (← quota_of_found t i d x e h) s.0.total)))
        (λ h. rw h (more_other _ _ _ s.0.total)) keep s

  module _ (e : Env) (w : World) (keep : E w.db) (s : Sound t c F w.db) where
    -- A deduction that succeeds takes the seats off sale; one that fails changes nothing.
    pub check_and_deduct_quota-Sound :
        Ends (λ _. Sound t (c -ℤ share i qty t) F) E (Service.check_and_deduct_quota e i qty) w
    unfolding Service.check_and_deduct_quota Repository.check_and_deduct_quota
        Sql.check_and_deduct_quota
    check_and_deduct_quota-Sound =
        >>-Ends (λ _. Sound t (c -ℤ share i qty t) F)
          (map_error-Ends _ (statement-Ends e _ keep λ _ _. deducted w.db keep s _ refl))
          (λ _ _ h. pure-Ends _ h)

    pub restore_quota-Sound :
        Ends (λ _. Sound t (c +ℤ share i qty t) F) E (Service.restore_quota e i qty) w
    unfolding Service.restore_quota Repository.restore_quota Sql.restore_quota
    restore_quota-Sound =
        >>-Ends (λ _. Sound t (c +ℤ share i qty t) F)
          (map_error-Ends _ (statement-Ends e _ keep λ _ _. restored w.db keep s _ refl))
          (λ _ _ h. pure-Ends _ h)
