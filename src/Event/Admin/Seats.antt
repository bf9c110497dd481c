-- ===== src/Event/Admin/Seats.antt =====
-- An update of a ticket type and the seats: the quota is set, and the seats held stay held.
use event_portal.Base.{
  ℤ, pos, ◌+ℤ◌, ◌-ℤ◌, ◌≤ℤ◌, int_laws, ◌==◌, ==→≡, differ_ne, if◌then◌else◌, some, find, none,
  find-update_self, find-update_ne, ◌≡◌, refl, sym, inl, inr, Bool-cases, false, ◌⊎◌,
}
use event_portal.Store.{Db, Uuid, TicketType}
use event_portal.Effect.{Env, World}
use event_portal.Effect.Outcome.{Outcome, OutcomeAt, Outcome-weaken}
use event_portal.Seats.{IsSound, quota_of, quota_in}
use event_portal.Event.Sql.{ticket_type_id}
use event_portal.Event.Admin.Request.{TicketTypeRequest, validate_ticket_type}
use event_portal.Event.Admin.Request.Laws.{validate_ticket_type-IsAcceptedTicketType}
use event_portal.Event.Admin.Sql.{TicketTypeParams, with_params, replace_ticket_type}
use event_portal.Event.Admin.Service
use event_portal.Event.Admin.Service.{to_ticket_type_params}
use event_portal.Errors.{Error}
use event_portal.Event.Admin.Restrict.{down}
use event_portal.Event.Admin.TicketTypeWrites.{NotChanged, update_ticket_type-Outcome}
use event_portal.Adapters.{order_checker}

-- The seats of a ticket type after an update of the quota of `i` to `q`.
abbrev pub requoted : Uuid → ℤ → Uuid → ℤ → Db → ℤ
requoted i q t c d = if i == t then (c -ℤ quota_of t d) +ℤ q else c

swap_quota : (q h c v : ℤ) → q +ℤ h ≡ c → v +ℤ h ≡ (c -ℤ q) +ℤ v
swap_quota q h c v e = rw (← e) (omega int_laws)

replace_ticket_type-IsSound :
    (i : Uuid) (p : TicketTypeParams) (t : Uuid) (c : ℤ) (d : Db) (x : TicketType)
    → find ticket_type_id i d.ticket_types ≡ some x
    → pos 0 ≤ℤ p.quota
    → IsSound t c d
    → IsSound t (requoted i p.quota t c d) (replace_ticket_type i p d)
replace_ticket_type-IsSound i p t c d x found above s = elim (Bool-cases (i == t)) [
  | inl same ↦
      let there : quota_of t (replace_ticket_type i p d) ≡ p.quota = rw (
        ← ==→≡ i t same,
        find-update_self ticket_type_id i (with_params p) d.ticket_types (λ _. refl) x found,
        quota_in,
      ) in
      rw same (record {
        linked = s.linked;
        on_sale = rw there above;
        total = rw there (swap_quota _ _ _ _ s.total);
      })
  | inr other ↦
      let there : quota_of t (replace_ticket_type i p d) ≡ quota_of t d = rw (
        find-update_ne ticket_type_id t i (with_params p) d.ticket_types (λ _. refl)
            (λ e. differ_ne i t other (sym e)),
        quota_in,
      ) in
      rw other
        (record { linked = s.linked; on_sale = rw there s.on_sale; total = rw there s.total })
]

-- How an update fails: with no table changed, or with the write stored.
abbrev pub UpdateFailed : Uuid → TicketTypeRequest → Uuid → ℤ → Db → Error → Db → Type 0
UpdateFailed i r t c d₀ x d =
    (NotChanged i r d₀ x × ((d ≡ d₀) × IsSound t c d))
    ⊎ ((x ≡ down)
        × ((validate_ticket_type false r ≡ none)
            × ((d ≡ replace_ticket_type i (to_ticket_type_params r) d₀)
                × IsSound t (requoted i r.quota t c d₀) d)))

-- An update of a ticket type keeps the seats of every ticket type in order. If it succeeds, the
-- request is written to the row and to nothing else, and the number of the seats of the updated one changes by as much as its quota: the submitted quota is
-- what is on sale, and the seats held are as many as before. If it fails, no table has changed, and
-- the reason is a database that does not answer, a request that does not validate, an id that no
-- ticket type has, or a value that its column does not hold; or the database stopped answering after
-- the write, of a request that validates, and then the seats are in order for the number after.
pub update_ticket_type-IsSound :
    (e : Env) (i : Uuid) (r : TicketTypeRequest) (w : World) (t : Uuid) (c : ℤ)
    → IsSound t c w.db
    → OutcomeAt
        (λ _ d.
          (d ≡ replace_ticket_type i (to_ticket_type_params r) w.db)
          × IsSound t (requoted i r.quota t c w.db) d)
        (UpdateFailed i r t c w.db)
        (Service.update_ticket_type e (some (order_checker e)) i r w)
update_ticket_type-IsSound e i r w t c s =
    let written : (x : TicketType)
        → find ticket_type_id i w.db.ticket_types ≡ some x
        → validate_ticket_type false r ≡ none
        → IsSound t (requoted i r.quota t c w.db)
            (replace_ticket_type i (to_ticket_type_params r) w.db) =
      λ x found valid.
        replace_ticket_type-IsSound i (to_ticket_type_params r) t c w.db x found
          (validate_ticket_type-IsAcceptedTicketType false r valid).counted s in
    let out : Outcome
        (λ _ d.
          (d ≡ replace_ticket_type i (to_ticket_type_params r) w.db)
          × IsSound t (requoted i r.quota t c w.db) d)
        (UpdateFailed i r t c w.db) (Service.update_ticket_type e (some (order_checker e)) i r) w =
      Outcome-weaken (update_ticket_type-Outcome e r i w)
        (λ view d (x, ((found, valid), (shown, put))). (put, rw put (written x found valid)))
        (λ x d h. elim h [
          | inl (why, still) ↦ inl (why, (still, rw still s))
          | inr (lost, (y, ((found, valid), put))) ↦
              inr (lost, (valid, (put, rw put (written y found valid))))
        ]) in
    out.end
