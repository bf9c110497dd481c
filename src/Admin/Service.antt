-- ===== src/Admin/Service.antt =====
-- backend/internal/admin/service.go, and the guard of middleware.go. bcrypt is a parameter. Logging
-- is left out, and with it the comparison with dummyHash, whose result is dropped.
use event_portal.Base.{
  ◌||◌, ltb, ℕ, not, Text, text_eq, codes, take, drop, length, to_lower, trim_space, if◌then◌else◌,
  Bool,
}
use event_portal.Errors.{Error, Code, Sentinel, errors_is, unauthorized_error, wrap}
use event_portal.Effect.{Env, M, map_error, now, of_result, throw, ◌>>=◌}
use event_portal.Admin.Sql.{get_by_email}
use event_portal.Admin.Token.{Jwt, Claims, LoginResponse, issue, verify}

pub record LoginRequest : Type 0 where
  pub email : Text
  pub password : Text

abbrev pub wrong_credentials : Error
wrong_credentials = unauthorized_error Code.invalid_credentials

abbrev pub unknown_account : Error → Error
unknown_account x = if errors_is x Sentinel.admin_not_found then wrong_credentials else x

-- len(bearerPrefix)
abbrev pub prefix_length : ℕ
prefix_length = 7

module _ (e : Env) (jwt : Jwt) (secret : Text) where
  -- `compare hash password` is bcrypt.CompareHashAndPassword without an error.
  unfoldable pub login : (Text → Text → Bool) → ℕ → LoginRequest → M LoginResponse
  login compare ttl r = do
    account ←
        map_error unknown_account (get_by_email e (to_lower e.lower_rune (trim_space r.email)))
    (if not (compare account.password_hash r.password)
        then throw wrong_credentials
        else (do at ← now e; of_result (issue jwt secret ttl account.id account.email at)))

  -- strings.EqualFold(header[:len(bearerPrefix)], bearerPrefix): no letter beyond ASCII folds to one
  -- of the prefix.
  abbrev pub has_bearer : Text → Bool
  has_bearer header = text_eq (to_lower (λ c. c) (take prefix_length header)) (codes "bearer ")

  -- The rest of the guard, on what follows the prefix.
  unfoldable pub with_token : {A : Type 0} → Text → (Claims → M A) → M A
  with_token raw next = do
    at ← now e
    claims ← map_error (λ x. wrap x 401 Code.unauthorized) (of_result (verify jwt secret raw at))
    next claims

  -- RequireAuth: the handler `next` runs with the claims of the token only.
  unfoldable pub require_auth : {A : Type 0} → Text → (Claims → M A) → M A
  unfolding with_token
  require_auth header next =
      if ltb (length header) prefix_length || not (has_bearer header)
      then throw (unauthorized_error Code.unauthorized)
      else with_token (trim_space (drop prefix_length header)) next
