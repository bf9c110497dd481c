-- ===== src/Admin/Token.antt =====
-- backend/internal/admin/jwt.go: issuing and verifying the access tokens. The JWT library and the
-- texts of ids are parameters.
use event_portal.Base.{
  ℕ, ◌+◌, ◌/◌, ℤ, sub_ℕ, Text, text_eq, codes, if◌then◌else◌, Bool, true, Option, none, some, List,
  [], ◌∷◌,
}
use event_portal.Errors.{errorf, plain}
use event_portal.Store.{Uuid, Time}
use event_portal.Effect.{Result, ok, err}

pub record Claims : Type 0 where
  pub admin_id : Uuid
  pub email : Text

pub record LoginResponse : Type 0 where
  pub token : Text
  pub expires_at : Time

-- The signing methods of the library: HMAC with three digests, and the others.
pub data Method : Type 0 where
  hs256 hs384 hs512 other : Method

-- jwt.MapClaims: names with texts, numbers, or values of other types.
pub data Value : Type 0 where
  text : Text → Value
  number : ℤ → Value
  object : Value

pub record Claim : Type 0 where
  pub name : Text
  pub value : Value

-- The library: `parse` is jwt.Parse, with the key function, the valid methods and whether an
-- expiry is required, by the given clock.
pub record Jwt : Type 0 where
  pub sign : Method → List Claim → Text → Result Text
  pub parse : Text → (Method → Option Text) → List Method → Bool → Time → Result (List Claim)
  pub get_subject : List Claim → Result Text
  pub uuid_text : Uuid → Text
  pub parse_uuid : Text → Option Uuid

-- Time.Unix: whole seconds since 1970.
abbrev pub unix : Time → ℤ
unix t = sub_ℕ (t / 1000000000) 62135596800

abbrev pub claim : Text → List Claim → Option Value
claim name [] = none
claim name (c ∷ cs) = if text_eq c.name name then some c.value else claim name cs

-- `claims["email"].(string)`, empty where there is no such text
abbrev pub text_or_empty : Option Value → Text
text_or_empty none = []
text_or_empty (some (text t)) = t
text_or_empty (some (number x)) = []
text_or_empty (some object) = []

-- The key function: only the HMAC methods get the secret.
abbrev pub key_for : Text → Method → Option Text
key_for secret hs256 = some secret
key_for secret hs384 = some secret
key_for secret hs512 = some secret
key_for secret other = none

module _ (jwt : Jwt) (secret : Text) where
  abbrev pub claims_of : ℕ → Uuid → Text → Time → List Claim
  claims_of ttl i email at =
      record { name = codes "sub"; value = text (jwt.uuid_text i) }
      ∷ (record { name = codes "email"; value = text email }
          ∷ (record { name = codes "iat"; value = number (unix at) }
              ∷ (record { name = codes "exp"; value = number (unix (at + ttl)) } ∷ [])))

  -- TokenIssuer.Issue, at the time `at`.
  unfoldable pub issue : ℕ → Uuid → Text → Time → Result LoginResponse
  issue ttl i email at = elim (jwt.sign hs256 (claims_of ttl i email at) secret) [
    | err x ↦ err (errorf x)
    | ok t ↦ ok (record { token = t; expires_at = at + ttl })
  ]

  -- The claims of a token that parses.
  unfoldable pub read_claims : List Claim → Result Claims
  read_claims cs = elim (jwt.get_subject cs) [
    | err x ↦ err (errorf x)
    | ok subject ↦ elim (jwt.parse_uuid subject) [
      | none ↦ err (errorf plain)
      | some i ↦ ok (record { admin_id = i; email = text_or_empty (claim (codes "email") cs) })
    ]
  ]

  -- TokenIssuer.Verify, at the time `at`.
  unfoldable pub verify : Text → Time → Result Claims
  unfolding read_claims
  verify raw at = elim (jwt.parse raw (key_for secret) (hs256 ∷ []) true at) [
    | err x ↦ err (errorf x)
    | ok cs ↦ read_claims cs
  ]
