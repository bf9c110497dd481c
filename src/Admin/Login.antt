-- ===== src/Admin/Login.antt =====
-- Who can log in, and what a failed login tells.
use event_portal.Base.{
  ℕ, Text, not, to_lower, trim_space, true, false, Bool, none, some, find_by, ◌≡◌, refl, ◌⊎◌, inl,
  inr,
}
use event_portal.Errors.{Error}
use event_portal.Store.{Db, Admin}
use event_portal.Effect.{Env, World, ok, err}
use event_portal.Effect.Outcome.{
  OutcomeAt, >>=-Outcome, map_error-Outcome, query_row-Outcome, if-Outcome, throw-Outcome,
  now-Outcome, of_result-Outcome,
}
use event_portal.Admin.Sql.{has_email, get_admin_by_email, get_by_email}
use event_portal.Admin.Token.{Jwt, issue}
use event_portal.Admin.Service.{LoginRequest, login, wrong_credentials}
use event_portal.Event.Admin.Restrict.{down}

module _ (e : Env) (jwt : Jwt) (secret : Text) (compare : Text → Text → Bool) (ttl : ℕ)
    (r : LoginRequest) where
  -- The account with the address of the request, without case and spaces.
  abbrev pub IsAccount : Db → Admin → Type 0
  IsAccount d a = find_by (has_email (to_lower e.lower_rune (trim_space r.email))) d.admins ≡ some a

  abbrev pub HasNoAccount : Db → Type 0
  HasNoAccount d = find_by (has_email (to_lower e.lower_rune (trim_space r.email))) d.admins ≡ none

  -- Why nobody is logged in: no database, the same refusal for an unknown address and for a wrong
  -- password, or a token that cannot be signed.
  abbrev pub NotLoggedIn : Db → Error → Type 0
  NotLoggedIn d x =
      (x ≡ down)
      ⊎ (((x ≡ wrong_credentials)
            × (HasNoAccount d
                ⊎ ((a : Admin) × (IsAccount d a × (compare a.password_hash r.password ≡ false)))))
          ⊎ ((a : Admin) × ((n : ℕ) × (IsAccount d a
                  × (issue jwt secret ttl a.id a.email (e.now n) ≡ err x)))))

  not-false : (b : Bool) → not b ≡ false → b ≡ true
  not-false true h = refl
  not-false false h = cc

  not-true : (b : Bool) → not b ≡ true → b ≡ false
  not-true true h = cc
  not-true false h = refl

  -- A login succeeds only with the address of an account, up to case and spaces around it, and a
  -- password that its hash accepts; the token is issued for that account at the time of the request.
  -- An unknown address and a wrong password are refused alike. The only other errors are a database
  -- that does not answer and a token that cannot be signed. No table changes.
  pub login_lem :
      (w : World)
      → OutcomeAt
          (λ response d.
            ((a : Admin) × ((n : ℕ) × (IsAccount w.db a
                  × ((compare a.password_hash r.password ≡ true)
                      × (issue jwt secret ttl a.id a.email (e.now n) ≡ ok response)))))
            × (d ≡ w.db))
          (λ x d. NotLoggedIn w.db x × (d ≡ w.db))
          (login e jwt secret compare ttl r w)
  unfolding login get_by_email get_admin_by_email
  login_lem w =
      (>>=-Outcome (λ a d. IsAccount w.db a × (d ≡ w.db))
        (map_error-Outcome _ (
          map_error-Outcome _ (
            query_row-Outcome e _ (inl refl, refl)
              (λ unknown. (inr (inl (refl, inl unknown)), refl)) (λ a found. (found, refl)))))
        (λ a w₁ (found, same₁).
          if-Outcome (not (compare a.password_hash r.password))
            (λ wrong. throw-Outcome _ (inr (inl (refl, inr (a, (found, not-true _ wrong)))), same₁))
            (λ right.
              >>=-Outcome (λ at d. ((n : ℕ) × (at ≡ e.now n)) × (d ≡ w.db))
                (now-Outcome e (λ n. ((n, refl), same₁)))
                (λ at w₂ ((n, read), same₂). rw read (
                  of_result-Outcome (issue jwt secret ttl a.id a.email (e.now n))
                    (λ response issued. ((a, (n, (found, (not-false _ right, issued)))), same₂))
                    (λ x failed. (inr (inr (a, (n, (found, failed)))), same₂))))))).end
