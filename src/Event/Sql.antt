-- ===== src/Event/Sql.antt =====
-- The statements of backend/internal/event/eventsql/event.sql.go that checkout, payment and
-- the catalogue run. An UPDATE that breaks `CHECK (quota >= 0)` or leaves the range of an INT is
-- refused by the database.
use event_portal.Base.{
  ℤ, pos, ◌+ℤ◌, ◌-ℤ◌, leb_ℤ, fits_int, find, update, if◌then◌else◌, Option, none, some,
}
use event_portal.Errors.{pg, sentinel, Sentinel, Failure}
use event_portal.Store.{Db, Uuid, TicketType}
use event_portal.Effect.{Env, Result, ok, err, M, statement, query_row}

abbrev pub ticket_type_id : TicketType → Uuid
ticket_type_id t = t.id

abbrev pub with_quota : ℤ → TicketType → TicketType
with_quota q t = record t { quota = q }

-- Storing a quota in its column.
unfoldable pub store_quota : Uuid → ℤ → Db → Result ℤ × Db
store_quota i q d =
    if fits_int q
    then (if leb_ℤ (pos 0) q
        then (
          ok q,
          record d { ticket_types = update ticket_type_id i (with_quota q) d.ticket_types },
        )
        else (err (pg Failure.check_violation), d))
    else (err (pg Failure.out_of_range), d)

-- UPDATE ticket_types SET quota = quota - qty WHERE id = $1 AND quota >= qty RETURNING quota
unfoldable pub deduct_row : Uuid → ℤ → Option TicketType → Db → Result ℤ × Db
deduct_row i qty none d = (err (sentinel Sentinel.no_rows), d)
deduct_row i qty (some t) d =
    if leb_ℤ qty t.quota
    then store_quota i (t.quota -ℤ qty) d
    else (err (sentinel Sentinel.no_rows), d)

-- UPDATE ticket_types SET quota = quota + qty WHERE id = $1 RETURNING quota
unfoldable pub restore_row : Uuid → ℤ → Option TicketType → Db → Result ℤ × Db
restore_row i qty none d = (err (sentinel Sentinel.no_rows), d)
restore_row i qty (some t) d = store_quota i (t.quota +ℤ qty) d

module _ (e : Env) where
  unfoldable pub check_and_deduct_quota : ℤ → Uuid → M ℤ
  unfolding deduct_row store_quota
  check_and_deduct_quota qty i =
      statement e (λ _ _ d. deduct_row i qty (find ticket_type_id i d.ticket_types) d)

  unfoldable pub restore_quota : ℤ → Uuid → M ℤ
  unfolding restore_row store_quota
  restore_quota qty i =
      statement e (λ _ _ d. restore_row i qty (find ticket_type_id i d.ticket_types) d)

  unfoldable pub get_ticket_type_by_id : Uuid → M TicketType
  get_ticket_type_by_id i = query_row e (λ d. find ticket_type_id i d.ticket_types)
