-- ===== src/Effect/Keeps.antt =====
-- Calls that keep a property of the tables, however they end: one rule for each operation of the
-- language.
use event_portal.Base.{ℕ, Bool, true, false, if◌then◌else◌, Option}
use event_portal.Errors.{Error}
use event_portal.Store.{Db, Uuid, Time}
use event_portal.Effect.{
  Env, World, Result, M, pure, throw, ◌>>=◌, ◌>>◌, handle, map_error, statement, query, query_row,
  remote, now, in_tx,
}
use event_portal.Effect.Laws.{
  Ends, EndsOn, Ends-always, Ends-weaken, pure-Ends, throw-Ends, >>=-Ends, >>-Ends, handle-Ends,
  map_error-Ends, statement-Ends, query-Ends, query_row-Ends, remote-Ends, now-Ends, in_tx-Ends,
}

pub record Keeps {A : Type 0} (P : Db → Type 0) (m : M A) : Type 0 where
  pub keep : (w : World) → P w.db → Ends (λ _. P) P m w

module _ {P : Db → Type 0} where
  pub Keeps-run : {A : Type 0} {m : M A} → Keeps P m → (w : World) → P w.db → P (m w).1.db
  Keeps-run k w h = Ends-always (k.keep w h)

  pub pure-Keeps : {A : Type 0} (a : A) → Keeps P (pure a)
  pure-Keeps a = record { keep = λ w h. pure-Ends a h }

  pub throw-Keeps : {A : Type 0} (x : Error) → Keeps {A = A} P (throw x)
  throw-Keeps x = record { keep = λ w h. throw-Ends x h }

  pub map_error-Keeps :
      {A : Type 0} (f : Error → Error) {m : M A} → Keeps P m → Keeps P (map_error f m)
  map_error-Keeps f k = record { keep = λ w h. map_error-Ends f (k.keep w h) }

  pub if-Keeps :
      {A : Type 0} (b : Bool) {m n : M A} → Keeps P m → Keeps P n → Keeps P (if b then m else n)
  if-Keeps true k l = k
  if-Keeps false k l = l

  module _ {A B : Type 0} where
    pub >>=-Keeps :
        {m : M A} {f : A → M B} → Keeps P m → ((a : A) → Keeps P (f a)) → Keeps P (m >>= f)
    >>=-Keeps k l = record {
      keep = λ w h. >>=-Ends (λ _. P) (k.keep w h) (λ a w' h'. (l a).keep w' h');
    }

    pub >>-Keeps : {m : M A} {n : M B} → Keeps P m → Keeps P n → Keeps P (m >> n)
    >>-Keeps k l = record { keep = λ w h. >>-Ends (λ _. P) (k.keep w h) (λ a w' h'. l.keep w' h') }

    pub handle-Keeps :
        {m : M A} {f : A → M B} {g : Error → M B}
        → Keeps P m
        → ((a : A) → Keeps P (f a))
        → ((x : Error) → Keeps P (g x))
        → Keeps P (handle m f g)
    handle-Keeps k l n = record {
      keep = λ w h.
          handle-Ends (λ _. P) P (k.keep w h) (λ a w' h'. (l a).keep w' h')
            (λ x w' h'. (n x).keep w' h');
    }

  module _ (e : Env) where
    pub statement-Keeps :
        {A : Type 0} (f : Uuid → Time → Db → Result A × Db)
        → ((u : Uuid) (t : Time) (d : Db) → P d → EndsOn (λ _. P) P (f u t d))
        → Keeps P (statement e f)
    statement-Keeps f k = record { keep = λ w h. statement-Ends e f h (λ u t. k u t w.db h) }

    pub query-Keeps : {A : Type 0} (f : Db → A) → Keeps P (query e f)
    query-Keeps f = record { keep = λ w h. query-Ends e f h h }

    pub query_row-Keeps : {A : Type 0} (f : Db → Option A) → Keeps P (query_row e f)
    query_row-Keeps f = record { keep = λ w h. query_row-Ends e f h (λ _ _. h) }

    pub now-Keeps : Keeps P (now e)
    now-Keeps = record { keep = λ w h. now-Ends e (λ _. h) }

    pub in_tx-Keeps : {A : Type 0} {m : M A} → Keeps P m → Keeps P (in_tx e m)
    in_tx-Keeps k = record {
      keep = λ w h.
          in_tx-Ends e h (λ _ _ l. l)
            (λ w' same. Ends-weaken (k.keep w' (rw same h)) (λ _ _ l. l) (λ _ _. tt));
    }

    -- A remote call, where the other requests keep the property.
    pub remote-Keeps :
        {A : Type 0} (f : ℕ → Result A)
        → ((n : ℕ) (d : Db) → P d → P (e.others n d))
        → Keeps P (remote e f)
    remote-Keeps f fair = record {
      keep = λ w h. remote-Ends e f (λ _. fair w.tick w.db h) (fair w.tick w.db h);
    }
