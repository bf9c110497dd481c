-- ===== src/Event/Grants.antt =====
-- When the quota contract grants seats.
use event_portal.Base.{
  ◌+◌, ℤ, pos, ◌-ℤ◌, ◌≤ℤ◌, leb_ℤ, fits_int, -ℤ_parts, arith, find, true, false, some, ◌≡◌, refl,
  sym, subst,
}
use event_portal.Errors.{Error}
use event_portal.Store.{Uuid, TicketType}
use event_portal.Effect.{
  Env, World, M, Result, ok, err, pure, ◌>>=◌, ◌>>◌, handle, throw, map_error, statement,
}
use event_portal.Event.Sql
use event_portal.Event.Sql.{ticket_type_id, with_quota, store_quota, deduct_row}
use event_portal.Event.Repository
use event_portal.Event.Service
use event_portal.Event.Quota.{with_stored}

less_fits : (q a : ℤ) → fits_int q ≡ true → pos 0 ≤ℤ a → leb_ℤ a q ≡ true → fits_int (q -ℤ a) ≡ true
less_fits q a h k l = ground (arith, -ℤ_parts q a)

less_above : (q a : ℤ) → leb_ℤ a q ≡ true → leb_ℤ (pos 0) (q -ℤ a) ≡ true
less_above q a l = ground (arith, -ℤ_parts q a)

-- A call that returned, with its error reworded and its value dropped.
returned :
    {A : Type 0} (f : Error → Error) (m : M A) (w w' : World) (a : A)
    → m w ≡ (ok a, w')
    → (map_error f m >> pure tt) w ≡ (ok (tt {0}), w')
unfolding ◌>>◌ ◌>>=◌ map_error handle pure throw
returned {A} f m w w' a h =
    subst
      (λ (r : Result A × World).
        ◌≡◌ {A = Result (Unit {0}) × World}
          (let v : Result A × World = elim r.0 [ ok b ↦ (ok b, r.1) | err x ↦ (err (f x), r.1) ] in
            elim v.0 [ ok b ↦ (ok tt, v.1) | err x ↦ (err x, v.1) ])
          (ok tt, w'))
      (sym h) refl

statement_grants :
    (e : Env) (i : Uuid) (qty : ℤ) (w : World) (x : TicketType)
    → e.fault w.tick ≡ false
    → find ticket_type_id i w.db.ticket_types ≡ some x
    → fits_int (x.quota -ℤ qty) ≡ true
    → leb_ℤ (pos 0) (x.quota -ℤ qty) ≡ true
    → leb_ℤ qty x.quota ≡ true
    → Sql.check_and_deduct_quota e qty i w ≡ (
      ok (x.quota -ℤ qty),
      record w { db = with_stored i (x.quota -ℤ qty) w.db; tick = w.tick + 1 },
    )
unfolding Sql.check_and_deduct_quota statement deduct_row store_quota
statement_grants e i qty w x answers found fits above enough =
    rw (answers, found, enough, fits, above) refl

-- A database that answers grants seats: where the ticket type exists and has at least as many seats
-- on sale as asked for, the deduction returns, with those seats off sale and nothing else changed.
pub check_and_deduct_quota_grants :
    (e : Env) (i : Uuid) (qty : ℤ) (w : World) (x : TicketType)
    → e.fault w.tick ≡ false
    → find ticket_type_id i w.db.ticket_types ≡ some x
    → fits_int x.quota ≡ true
    → pos 0 ≤ℤ qty
    → leb_ℤ qty x.quota ≡ true
    → Service.check_and_deduct_quota e i qty w
      ≡ (ok tt, record w { db = with_stored i (x.quota -ℤ qty) w.db; tick = w.tick + 1 })
unfolding Service.check_and_deduct_quota Repository.check_and_deduct_quota
check_and_deduct_quota_grants e i qty w x answers found fits natural enough =
    returned _ (Sql.check_and_deduct_quota e qty i) w _ (x.quota -ℤ qty) (
      statement_grants e i qty w x answers found (less_fits x.quota qty fits natural enough)
        (less_above x.quota qty enough) enough)
