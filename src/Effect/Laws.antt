-- ===== src/Effect/Laws.antt =====
-- Rules for what a call has done to the tables, by how it ended.
use event_portal.Base.{
  if◌then◌else◌, ℕ, ◌+◌, Bool, true, false, ◌≡◌, refl, inl, inr, subst, Option, none, some,
  Bool-cases,
}
use event_portal.Errors.{Error}
use event_portal.Store.{Db, Uuid, Time}
use event_portal.Effect.{
  Env, World, Result, ok, err, M, pure, throw, ◌>>=◌, ◌>>◌, handle, map_error, statement, query,
  query_row, remote, now, in_tx, commit, or_no_rows,
}

-- A call that returned `a` left tables with `Q a`, a call that failed left tables with `E`.
abbrev pub EndsAt : {A : Type 0} → (A → Db → Type 0) → (Db → Type 0) → Result A × World → Type 0
EndsAt Q E (ok a, w) = Q a w.db
EndsAt Q E (err _, w) = E w.db

pub record Ends {A : Type 0} (Q : A → Db → Type 0) (E : Db → Type 0) (m : M A) (w : World)
    : Type 0 where
  pub end : EndsAt Q E (m w)

-- The same of a statement on the tables.
abbrev pub EndsOn : {A : Type 0} → (A → Db → Type 0) → (Db → Type 0) → Result A × Db → Type 0
EndsOn Q E (ok a, d) = Q a d
EndsOn Q E (err _, d) = E d

always_at : {A : Type 0} (P : Db → Type 0) (r : Result A × World) → EndsAt (λ _. P) P r → P r.1.db
always_at P (ok a, w) h = h
always_at P (err x, w) h = h

module _ {A : Type 0} {Q : A → Db → Type 0} {E : Db → Type 0} {m : M A} {w : World} where
  -- Reading the predicate off a run.
  pub Ends-ok : Ends Q E m w → (a : A) (w' : World) → m w ≡ (ok a, w') → Q a w'.db
  Ends-ok h a w' e = subst (EndsAt Q E) e h.end

  pub Ends-err : Ends Q E m w → (x : Error) (w' : World) → m w ≡ (err x, w') → E w'.db
  Ends-err h x w' e = subst (EndsAt Q E) e h.end

-- A predicate that holds however the call ended.
pub Ends-always :
    {A : Type 0} {P : Db → Type 0} {m : M A} {w : World} → Ends (λ _. P) P m w → P (m w).1.db
Ends-always {P} {m} {w} h = always_at P (m w) h.end

module _ {A : Type 0} (Q : A → Db → Type 0) (E : Db → Type 0) where
  map_on :
      (f : Error → Error) (r : Result A × World)
      → EndsAt Q E r
      → EndsAt Q E (elim r.0 [ ok a ↦ (ok a, r.1) | err x ↦ (err (f x), r.1) ])
  map_on f (ok a, w) h = h
  map_on f (err x, w) h = h

  statement_on :
      (w' : World) (r : Result A × Db) → EndsOn Q E r → EndsAt Q E (r.0, record w' { db = r.1 })
  statement_on w' (ok a, d) h = h
  statement_on w' (err x, d) h = h

  row_on :
      (o : Option A) (d : Db) → E d → ((a : A) → o ≡ some a → Q a d) → EndsOn Q E (or_no_rows o, d)
  row_on none d still h = still
  row_on (some a) d still h = h a refl

  commit_on :
      (d : Db) (r : Result A × World) (b kept : Bool)
      → E d
      → ((a : A) (d' : Db) → Q a d' → E d')
      → EndsAt Q (λ _. Unit) r
      → EndsAt Q E (commit d b kept r)
  unfolding commit
  commit_on d (ok a, w) true true still done h = done a w.db h
  commit_on d (ok a, w) true false still done h = still
  commit_on d (ok a, w) false kept still done h = h
  commit_on d (err x, w) b kept still done h = still

  remote_on :
      (r : Result A) (w : World)
      → ((a : A) → r ≡ ok a → Q a w.db)
      → ((x : Error) → E w.db)
      → EndsAt Q E (r, w)
  remote_on (ok a) w h k = h a refl
  remote_on (err x) w h k = k x

  weaken_on :
      (R : A → Db → Type 0) (F : Db → Type 0) (r : Result A × World)
      → EndsAt Q E r
      → ((a : A) (d : Db) → Q a d → R a d)
      → ((d : Db) → E d → F d)
      → EndsAt R F r
  weaken_on R F (ok a, w) h k l = k a w.db h
  weaken_on R F (err x, w) h k l = l w.db h

module _ {A : Type 0} {Q : A → Db → Type 0} {E : Db → Type 0} where
  pub pure-Ends : (a : A) {w : World} → Q a w.db → Ends Q E (pure a) w
  unfolding pure
  pure-Ends a h = record { end = h }

  pub throw-Ends : (x : Error) {w : World} → E w.db → Ends Q E (throw x) w
  unfolding throw
  throw-Ends x h = record { end = h }

module _ {A B : Type 0} (Q : A → Db → Type 0) {R : B → Db → Type 0} {E : Db → Type 0} where
  bind_on :
      (f : A → M B) (r : Result A × World)
      → EndsAt Q E r
      → ((a : A) (w' : World) → Q a w'.db → Ends R E (f a) w')
      → EndsAt R E (elim r.0 [ ok a ↦ f a r.1 | err x ↦ (err x, r.1) ])
  bind_on f (ok a, w') h k = (k a w' h).end
  bind_on f (err x, w') h k = h

  pub >>=-Ends :
      {m : M A} {f : A → M B} {w : World}
      → Ends Q E m w
      → ((a : A) (w' : World) → Q a w'.db → Ends R E (f a) w')
      → Ends R E (m >>= f) w
  unfolding ◌>>=◌
  >>=-Ends {m} {f} {w} h k = record { end = bind_on f (m w) h.end k }

  pub >>-Ends :
      {m : M A} {k : M B} {w : World}
      → Ends Q E m w
      → ((a : A) (w' : World) → Q a w'.db → Ends R E k w')
      → Ends R E (m >> k) w
  unfolding ◌>>◌
  >>-Ends {m} {k} {w} h l = record { end = bind_on (λ _. k) (m w) h.end l }

  module _ (F : Db → Type 0) where
    handle_on :
        (f : A → M B) (g : Error → M B) (r : Result A × World)
        → EndsAt Q F r
        → ((a : A) (w' : World) → Q a w'.db → Ends R E (f a) w')
        → ((x : Error) (w' : World) → F w'.db → Ends R E (g x) w')
        → EndsAt R E (elim r.0 [ ok a ↦ f a r.1 | err x ↦ g x r.1 ])
    handle_on f g (ok a, w') h k l = (k a w' h).end
    handle_on f g (err x, w') h k l = (l x w' h).end

    pub handle-Ends :
        {m : M A} {f : A → M B} {g : Error → M B} {w : World}
        → Ends Q F m w
        → ((a : A) (w' : World) → Q a w'.db → Ends R E (f a) w')
        → ((x : Error) (w' : World) → F w'.db → Ends R E (g x) w')
        → Ends R E (handle m f g) w
    unfolding handle
    handle-Ends {m} {f} {g} {w} h k l = record { end = handle_on f g (m w) h.end k l }

module _ {A : Type 0} {Q : A → Db → Type 0} {E : Db → Type 0} where
  pub map_error-Ends :
      (f : Error → Error) {m : M A} {w : World} → Ends Q E m w → Ends Q E (map_error f m) w
  unfolding map_error
  map_error-Ends f {m} {w} h = record { end = map_on Q E f (m w) h.end }

  pub Ends-weaken :
      {R : A → Db → Type 0} {F : Db → Type 0} {m : M A} {w : World}
      → Ends Q E m w
      → ((a : A) (d : Db) → Q a d → R a d)
      → ((d : Db) → E d → F d)
      → Ends R F m w
  Ends-weaken {R} {F} {m} {w} h k l = record { end = weaken_on Q E R F (m w) h.end k l }

  -- A statement that fails changes nothing.
  pub statement-Ends :
      (e : Env) (f : Uuid → Time → Db → Result A × Db) {w : World}
      → E w.db
      → ((u : Uuid) (t : Time) → EndsOn Q E (f u t w.db))
      → Ends Q E (statement e f) w
  unfolding statement
  statement-Ends e f {w} still h = record {
    end = elim (Bool-cases (e.fault w.tick)) [
      | inl down ↦ rw down still
      | inr up ↦ rw up (
          statement_on Q E (record w { tick = w.tick + 1 }) (f (e.uuid w.tick) (e.now w.tick) w.db)
            (h (e.uuid w.tick) (e.now w.tick)))
    ];
  }

  pub query-Ends :
      (e : Env) (f : Db → A) {w : World} → E w.db → Q (f w.db) w.db → Ends Q E (query e f) w
  unfolding query
  query-Ends e f still h = statement-Ends e (λ _ _ d. (ok (f d), d)) still (λ _ _. h)

  pub query_row-Ends :
      (e : Env) (f : Db → Option A) {w : World}
      → E w.db
      → ((a : A) → f w.db ≡ some a → Q a w.db)
      → Ends Q E (query_row e f) w
  unfolding query_row
  query_row-Ends e f {w} still h =
      statement-Ends e (λ _ _ d. (or_no_rows (f d), d)) still
        (λ _ _. row_on Q E (f w.db) w.db still h)

  -- A transaction that returns an error leaves the tables as they were, or as its body did where
  -- the answer to the commit is lost.
  pub in_tx-Ends :
      (e : Env) {body : M A} {w : World}
      → E w.db
      → ((a : A) (d : Db) → Q a d → E d)
      → ((w' : World) → w'.db ≡ w.db → Ends Q (λ _. Unit) body w')
      → Ends Q E (in_tx e body) w
  unfolding in_tx
  in_tx-Ends e {body} {w} still done h =
      let r = body (record w { tick = w.tick + 1 }) in
      record {
        end = elim (Bool-cases (e.fault w.tick)) [
          | inl down ↦ rw down still
          | inr up ↦ rw up (
              commit_on Q E w.db r (e.fault r.1.tick) (e.kept r.1.tick) still done
                (h (record w { tick = w.tick + 1 }) refl).end)
        ];
      }

module _ {A : Type 0} {Q : A → Db → Type 0} {E : Db → Type 0} where
  pub remote-Ends :
      (e : Env) (f : ℕ → Result A) {w : World}
      → ((a : A) → Q a (e.others w.tick w.db))
      → E (e.others w.tick w.db)
      → Ends Q E (remote e f) w
  unfolding remote
  remote-Ends e f {w} h k = record {
    end =
        remote_on Q E (f w.tick) (record w { db = e.others w.tick w.db; tick = w.tick + 1 })
          (λ a _. h a) (λ _. k);
  }

-- Reading the clock changes no table.
pub now-Ends :
    {Q : Time → Db → Type 0} {E : Db → Type 0} (e : Env) {w : World}
    → ((t : Time) → Q t w.db)
    → Ends Q E (now e) w
unfolding now
now-Ends e {w} h = record { end = h (e.now w.tick) }

-- Both branches of a conditional.
pub if-Ends :
    {A : Type 0} {Q : A → Db → Type 0} {E : Db → Type 0} (b : Bool) {m n : M A} {w : World}
    → (b ≡ true → Ends Q E m w)
    → (b ≡ false → Ends Q E n w)
    → Ends Q E (if b then m else n) w
if-Ends true h k = h refl
if-Ends false h k = k refl

always_from : {A : Type 0} (P : Db → Type 0) (r : Result A × World) → P r.1.db → EndsAt (λ _. P) P r
always_from P (ok a, w) h = h
always_from P (err x, w) h = h

pub always-Ends :
    {A : Type 0} {P : Db → Type 0} {m : M A} {w : World} → P (m w).1.db → Ends (λ _. P) P m w
always-Ends {P} {m} {w} h = record { end = always_from P (m w) h }

any_at : {A : Type 0} (r : Result A × World) → EndsAt (λ _ _. Unit) (λ _. Unit) r
any_at (ok a, w) = tt
any_at (err x, w) = tt

-- Nothing is known of an unknown call.
pub any-Ends : {A : Type 0} (m : M A) (w : World) → Ends (λ _ _. Unit) (λ _. Unit) m w
any-Ends m w = record { end = any_at (m w) }
