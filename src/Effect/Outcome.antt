-- ===== src/Effect/Outcome.antt =====
-- Rules for what a call returns together with what it has done to the tables, errors included.
use event_portal.Base.{
  if◌then◌else◌, ℕ, ◌+◌, Bool, true, false, ◌≡◌, refl, inl, inr, subst, Option, none, some,
  Bool-cases,
}
use event_portal.Errors.{Error, errorf, pg, sentinel, Sentinel, Failure}
use event_portal.Store.{Db, Uuid, Time}
use event_portal.Effect.{
  of_result, Env, World, Result, ok, err, M, pure, throw, ◌>>=◌, ◌>>◌, map_error, handle, statement,
  query, query_row, remote, now, in_tx, commit, or_no_rows,
}

-- A call that returned `a` left tables with `Q a`, a call that failed with `x` tables with `E x`.
abbrev pub OutcomeAt :
    {A : Type 0} → (A → Db → Type 0) → (Error → Db → Type 0) → Result A × World → Type 0
OutcomeAt Q E (ok a, w) = Q a w.db
OutcomeAt Q E (err x, w) = E x w.db

pub record Outcome {A : Type 0} (Q : A → Db → Type 0) (E : Error → Db → Type 0) (m : M A)
    (w : World) : Type 0 where
  pub end : OutcomeAt Q E (m w)

-- The same of a statement on the tables.
abbrev pub OutcomeOn :
    {A : Type 0} → (A → Db → Type 0) → (Error → Db → Type 0) → Result A × Db → Type 0
OutcomeOn Q E (ok a, d) = Q a d
OutcomeOn Q E (err x, d) = E x d

module _ {A : Type 0} {Q : A → Db → Type 0} {E : Error → Db → Type 0} where
  pub Outcome-ok :
      {m : M A} {w : World} → Outcome Q E m w → (a : A) (w' : World) → m w ≡ (ok a, w') → Q a w'.db
  Outcome-ok h a w' e = subst (OutcomeAt Q E) e h.end

  pub Outcome-err :
      {m : M A} {w : World}
      → Outcome Q E m w
      → (x : Error) (w' : World) → m w ≡ (err x, w')
      → E x w'.db
  Outcome-err h x w' e = subst (OutcomeAt Q E) e h.end

  pub pure-Outcome : (a : A) {w : World} → Q a w.db → Outcome Q E (pure a) w
  unfolding pure
  pure-Outcome a h = record { end = h }

  pub throw-Outcome : (x : Error) {w : World} → E x w.db → Outcome Q E (throw x) w
  unfolding throw
  throw-Outcome x h = record { end = h }

  pub if-Outcome :
      (b : Bool) {m n : M A} {w : World}
      → (b ≡ true → Outcome Q E m w)
      → (b ≡ false → Outcome Q E n w)
      → Outcome Q E (if b then m else n) w
  if-Outcome true h k = h refl
  if-Outcome false h k = k refl

module _ {A : Type 0} (Q : A → Db → Type 0) (E : Error → Db → Type 0) where
  outcome_map :
      (f : Error → Error) (r : Result A × World)
      → OutcomeAt Q (λ x. E (f x)) r
      → OutcomeAt Q E (elim r.0 [ ok a ↦ (ok a, r.1) | err x ↦ (err (f x), r.1) ])
  outcome_map f (ok a, w) h = h
  outcome_map f (err x, w) h = h

  outcome_statement :
      (w' : World) (r : Result A × Db)
      → OutcomeOn Q E r
      → OutcomeAt Q E (r.0, record w' { db = r.1 })
  outcome_statement w' (ok a, d) h = h
  outcome_statement w' (err x, d) h = h

  outcome_row :
      (o : Option A) (d : Db)
      → (o ≡ none → E (sentinel Sentinel.no_rows) d)
      → ((a : A) → o ≡ some a → Q a d)
      → OutcomeOn Q E (or_no_rows o, d)
  outcome_row none d gone h = gone refl
  outcome_row (some a) d gone h = h a refl

  outcome_commit :
      (d : Db) (r : Result A × World) (b kept : Bool)
      → E (errorf (pg Failure.unavailable)) d
      → ((a : A) (d' : Db) → Q a d' → E (errorf (pg Failure.unavailable)) d')
      → OutcomeAt Q (λ x _. E x d) r
      → OutcomeAt Q E (commit d b kept r)
  unfolding commit
  outcome_commit d (ok a, w) true true still done h = done a w.db h
  outcome_commit d (ok a, w) true false still done h = still
  outcome_commit d (ok a, w) false kept still done h = h
  outcome_commit d (err x, w) b kept still done h = h

  outcome_weaken :
      (R : A → Db → Type 0) (F : Error → Db → Type 0) (r : Result A × World)
      → OutcomeAt Q E r
      → ((a : A) (d : Db) → Q a d → R a d)
      → ((x : Error) (d : Db) → E x d → F x d)
      → OutcomeAt R F r
  outcome_weaken R F (ok a, w) h k l = k a w.db h
  outcome_weaken R F (err x, w) h k l = l x w.db h

module _ {A B : Type 0} (Q : A → Db → Type 0) {R : B → Db → Type 0} {E : Error → Db → Type 0} where
  outcome_bind :
      (f : A → M B) (r : Result A × World)
      → OutcomeAt Q E r
      → ((a : A) (w' : World) → Q a w'.db → Outcome R E (f a) w')
      → OutcomeAt R E (elim r.0 [ ok a ↦ f a r.1 | err x ↦ (err x, r.1) ])
  outcome_bind f (ok a, w') h k = (k a w' h).end
  outcome_bind f (err x, w') h k = h

  pub >>=-Outcome :
      {m : M A} {f : A → M B} {w : World}
      → Outcome Q E m w
      → ((a : A) (w' : World) → Q a w'.db → Outcome R E (f a) w')
      → Outcome R E (m >>= f) w
  unfolding ◌>>=◌
  >>=-Outcome {m} {f} {w} h k = record { end = outcome_bind f (m w) h.end k }

  pub >>-Outcome :
      {m : M A} {k : M B} {w : World}
      → Outcome Q E m w
      → ((a : A) (w' : World) → Q a w'.db → Outcome R E k w')
      → Outcome R E (m >> k) w
  unfolding ◌>>◌
  >>-Outcome {m} {k} {w} h l = record { end = outcome_bind (λ _. k) (m w) h.end l }

  module _ (F : Error → Db → Type 0) where
    outcome_handle :
        (f : A → M B) (g : Error → M B) (r : Result A × World)
        → OutcomeAt Q F r
        → ((a : A) (w' : World) → Q a w'.db → Outcome R E (f a) w')
        → ((x : Error) (w' : World) → F x w'.db → Outcome R E (g x) w')
        → OutcomeAt R E (elim r.0 [ ok a ↦ f a r.1 | err x ↦ g x r.1 ])
    outcome_handle f g (ok a, w') h k l = (k a w' h).end
    outcome_handle f g (err x, w') h k l = (l x w' h).end

    pub handle-Outcome :
        {m : M A} {f : A → M B} {g : Error → M B} {w : World}
        → Outcome Q F m w
        → ((a : A) (w' : World) → Q a w'.db → Outcome R E (f a) w')
        → ((x : Error) (w' : World) → F x w'.db → Outcome R E (g x) w')
        → Outcome R E (handle m f g) w
    unfolding handle
    handle-Outcome {m} {f} {g} {w} h k l = record { end = outcome_handle f g (m w) h.end k l }

module _ {A : Type 0} {Q : A → Db → Type 0} {E : Error → Db → Type 0} where
  pub map_error-Outcome :
      (f : Error → Error) {m : M A} {w : World}
      → Outcome Q (λ x. E (f x)) m w
      → Outcome Q E (map_error f m) w
  unfolding map_error
  map_error-Outcome f {m} {w} h = record { end = outcome_map Q E f (m w) h.end }

  pub Outcome-weaken :
      {R : A → Db → Type 0} {F : Error → Db → Type 0} {m : M A} {w : World}
      → Outcome Q E m w
      → ((a : A) (d : Db) → Q a d → R a d)
      → ((x : Error) (d : Db) → E x d → F x d)
      → Outcome R F m w
  Outcome-weaken {R} {F} {m} {w} h k l = record { end = outcome_weaken Q E R F (m w) h.end k l }

  -- The statement is given what the database and the clock have for some call.
  pub statement-Outcome :
      (e : Env) (f : Uuid → Time → Db → Result A × Db) {w : World}
      → E (pg Failure.unavailable) w.db
      → ((n : ℕ) → OutcomeOn Q E (f (e.uuid n) (e.now n) w.db))
      → Outcome Q E (statement e f) w
  unfolding statement
  statement-Outcome e f {w} down h = record {
    end = elim (Bool-cases (e.fault w.tick)) [
      | inl fails ↦ rw fails down
      | inr answers ↦ rw answers (
          outcome_statement Q E (record w { tick = w.tick + 1 })
            (f (e.uuid w.tick) (e.now w.tick) w.db) (h w.tick))
    ];
  }

  pub query-Outcome :
      (e : Env) (f : Db → A) {w : World}
      → E (pg Failure.unavailable) w.db
      → Q (f w.db) w.db
      → Outcome Q E (query e f) w
  unfolding query
  query-Outcome e f down h = statement-Outcome e (λ _ _ d. (ok (f d), d)) down (λ _. h)

  pub query_row-Outcome :
      (e : Env) (f : Db → Option A) {w : World}
      → E (pg Failure.unavailable) w.db
      → (f w.db ≡ none → E (sentinel Sentinel.no_rows) w.db)
      → ((a : A) → f w.db ≡ some a → Q a w.db)
      → Outcome Q E (query_row e f) w
  unfolding query_row
  query_row-Outcome e f {w} down gone h =
      statement-Outcome e (λ _ _ d. (or_no_rows (f d), d)) down
        (λ _. outcome_row Q E (f w.db) w.db gone h)

  pub in_tx-Outcome :
      (e : Env) {body : M A} {w : World}
      → E (errorf (pg Failure.unavailable)) w.db
      → ((a : A) (d : Db) → Q a d → E (errorf (pg Failure.unavailable)) d)
      → ((w' : World) → w'.db ≡ w.db → Outcome Q (λ x _. E x w.db) body w')
      → Outcome Q E (in_tx e body) w
  unfolding in_tx
  in_tx-Outcome e {body} {w} down done h =
      let r = body (record w { tick = w.tick + 1 }) in
      record {
        end = elim (Bool-cases (e.fault w.tick)) [
          | inl fails ↦ rw fails down
          | inr answers ↦ rw answers (
              outcome_commit Q E w.db r (e.fault r.1.tick) (e.kept r.1.tick) down done
                (h (record w { tick = w.tick + 1 }) refl).end)
        ];
      }

module _ {A : Type 0} (Q : A → Db → Type 0) (E : Error → Db → Type 0) where
  outcome_remote :
      (r : Result A) (w : World)
      → ((a : A) → r ≡ ok a → Q a w.db)
      → ((x : Error) → r ≡ err x → E x w.db)
      → OutcomeAt Q E (r, w)
  outcome_remote (ok a) w h k = h a refl
  outcome_remote (err x) w h k = k x refl

module _ {A : Type 0} {Q : A → Db → Type 0} {E : Error → Db → Type 0} where
  -- The answer of a remote service, and what the other requests did meanwhile.
  pub remote-Outcome :
      (e : Env) (f : ℕ → Result A) {w : World}
      → ((n : ℕ) (a : A) → f n ≡ ok a → Q a (e.others n w.db))
      → ((n : ℕ) (x : Error) → f n ≡ err x → E x (e.others n w.db))
      → Outcome Q E (remote e f) w
  unfolding remote
  remote-Outcome e f {w} h k = record {
    end =
        outcome_remote Q E (f w.tick) (record w { db = e.others w.tick w.db; tick = w.tick + 1 })
          (h w.tick) (k w.tick);
  }

-- The clock has its value for some call.
pub now-Outcome :
    {Q : Time → Db → Type 0} {E : Error → Db → Type 0} (e : Env) {w : World}
    → ((n : ℕ) → Q (e.now n) w.db)
    → Outcome Q E (now e) w
unfolding now
now-Outcome e {w} h = record { end = h w.tick }

pub of_result-Outcome :
    {A : Type 0} {Q : A → Db → Type 0} {E : Error → Db → Type 0} (r : Result A) {w : World}
    → ((a : A) → r ≡ ok a → Q a w.db)
    → ((x : Error) → r ≡ err x → E x w.db)
    → Outcome Q E (of_result r) w
of_result-Outcome (ok a) h k = pure-Outcome a (h a refl)
of_result-Outcome (err x) h k = throw-Outcome x (k x refl)
