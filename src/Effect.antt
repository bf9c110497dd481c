-- ===== src/Effect.antt =====
-- Database access: the environment, the state that a request runs on, statements, and
-- backend/pkg/db's transactions. A call returns its result and the new state; a failed call still
-- has a state, since what was written before it stays written.
pub mod Laws
pub mod Keeps
pub mod Outcome
use event_portal.Base.{
  ℕ, ◌+◌, Text, Bool, true, false, Option, none, some, List, [], ◌∷◌, if◌then◌else◌,
}
use event_portal.Errors.{Error, errorf, pg, sentinel, Sentinel, Failure}
use event_portal.Store.{Db, Uuid, Time}

-- What the program does not decide. Every call on it is numbered: `fault` says which database
-- calls fail (a lost connection, a timeout), `kept` which commits among these took place, `now` is the clock, `uuid` the id that the database
-- draws for a new row, `rand` a draw of crypto/rand (none where there is no entropy), and `others`
-- what the other requests do to the tables while this one waits for a remote service. Three are
-- of Go's library: unicode.ToUpper and ToLower beyond ASCII, and whether mail.ParseAddress accepts
-- a text. `collate` is the order of the database on texts: whether one sorts at or before another.
pub record Env : Type 0 where
  pub fault : ℕ → Bool
  pub kept : ℕ → Bool
  pub now : ℕ → Time
  pub uuid : ℕ → Uuid
  pub rand : ℕ → Option ℕ
  pub others : ℕ → Db → Db
  pub upper_rune : ℕ → ℕ
  pub lower_rune : ℕ → ℕ
  pub parse_address : Text → Bool
  pub collate : Text → Text → Bool

pub record World : Type 0 where
  pub db : Db
  pub tick : ℕ

pub data Result (A : Type 0) : Type 0 where
  ok : A → Result A
  err : Error → Result A

abbrev pub M : Type 0 → Type 0
M A = World → Result A × World

unfoldable pub pure : {A : Type 0} → A → M A
pure a w = (ok a, w)

unfoldable pub throw : {A : Type 0} → Error → M A
throw e w = (err e, w)

-- A call without a state: its result, or its error.
abbrev pub of_result : {A : Type 0} → Result A → M A
of_result (ok a) = pure a
of_result (err x) = throw x

infixl 5 ◌>>=◌ ◌>>◌
unfoldable pub ◌>>=◌ : {A B : Type 0} → M A → (A → M B) → M B
◌>>=◌ m f w = let (r, w') = m w in elim r [ ok a ↦ f a w' | err x ↦ (err x, w') ]

unfoldable pub ◌>>◌ : {A B : Type 0} → M A → M B → M B
unfolding ◌>>=◌
m >> k = m >>= λ _. k

-- `if err != nil { … }` with a handler that goes on, or returns another error.
unfoldable pub handle : {A B : Type 0} → M A → (A → M B) → (Error → M B) → M B
handle m f g w = let (r, w') = m w in elim r [ ok a ↦ f a w' | err x ↦ g x w' ]

-- `return fmt.Errorf("…: %w", err)` and the translations of errors at a boundary.
unfoldable pub map_error : {A : Type 0} → (Error → Error) → M A → M A
unfolding handle pure throw
map_error f m = handle m pure (λ x. throw (f x))

abbrev pub or_no_rows : {A : Type 0} → Option A → Result A
or_no_rows none = err (sentinel Sentinel.no_rows)
or_no_rows (some a) = ok a

-- The end of a transaction that began on the tables `d`: a commit whose answer is lost, which may
-- have taken place all the same (`kept`), one that succeeds, and the rollback, which restores the
-- tables and nothing else.
unfoldable pub commit : {A : Type 0} → Db → Bool → Bool → Result A × World → Result A × World
commit d true true (ok a, w) =
    (err (errorf (pg Failure.unavailable)), record w { tick = w.tick + 1 })
commit d true false (ok a, w) =
    (err (errorf (pg Failure.unavailable)), record w { db = d; tick = w.tick + 1 })
commit d false kept (ok a, w) = (ok a, record w { tick = w.tick + 1 })
commit d lost kept (err x, w) = (err x, record w { db = d; tick = w.tick + 1 })

module _ (e : Env) where
  -- One SQL statement: it fails and changes nothing, or runs on the tables. It is given the id
  -- that the database would draw for a new row.
  unfoldable pub statement : {A : Type 0} → (Uuid → Time → Db → Result A × Db) → M A
  statement f w =
      let (r, d) = f (e.uuid w.tick) (e.now w.tick) w.db in
      if e.fault w.tick
      then (err (pg Failure.unavailable), record w { tick = w.tick + 1 })
      else (r, record w { db = d; tick = w.tick + 1 })

  -- A `:many` query, and a `:one` query, which reports pgx.ErrNoRows.
  unfoldable pub query : {A : Type 0} → (Db → A) → M A
  unfolding statement
  query f = statement (λ _ _ d. (ok (f d), d))

  unfoldable pub query_row : {A : Type 0} → (Db → Option A) → M A
  unfolding statement
  query_row f = statement (λ _ _ d. (or_no_rows (f d), d))

  -- A call of a remote service: other requests run while it lasts.
  unfoldable pub remote : {A : Type 0} → (ℕ → Result A) → M A
  remote f w = (f w.tick, record w { db = e.others w.tick w.db; tick = w.tick + 1 })

  -- time.Now
  unfoldable pub now : M Time
  now w = (ok (e.now w.tick), record w { tick = w.tick + 1 })

  -- `db.InTx`: begin, run, and commit, or roll back on any error. No body panics here, so that the
  -- branch that rolls back and panics again has no part in it.
  unfoldable pub in_tx : {A : Type 0} → M A → M A
  unfolding commit
  in_tx body w =
      let begun = record w { tick = w.tick + 1 } in
      let r = body begun in
      if e.fault w.tick
      then (err (errorf (pg Failure.unavailable)), begun)
      else commit w.db (e.fault r.1.tick) (e.kept r.1.tick) r
