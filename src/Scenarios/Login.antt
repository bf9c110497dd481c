-- ===== src/Scenarios/Login.antt =====
-- The theorems about the login and the guard of the admin's routes, on the shop.
use event_portal.Base.{
  ltb_ℤ, if◌then◌else◌, ℤ, pos, Option, none, List, ℕ, ◌+◌, Bool, [], codes, trim_space, text_eq,
  some, ◌++◌, ap, ◌≡◌, refl,
}
use event_portal.Errors.{plain, wrap, errorf, Code}
use event_portal.Store.{OrderStatus, Admin}
use event_portal.Effect.{err, World, ok, pure}
use event_portal.Effect.Outcome.{OutcomeAt}
use event_portal.Admin.Token.{
  Claim, Value, LoginResponse, unix, Jwt, claims_of, issue, text_or_empty,
}
use event_portal.Admin.Service.{LoginRequest, login, require_auth}
use event_portal.Admin.Login.{IsAccount, NotLoggedIn, login_lem}
use event_portal.Admin.Guard.{IsRead, require_auth-issue}
use event_portal.Scenarios.{calm, shop, at_start}

abbrev start : World
start = at_start (shop OrderStatus.pending [])

abbrev hour : ℕ
hour = 3600000000000

abbrev issued_at : ℕ
issued_at = 63271811000000000000

-- A library that knows one token.
abbrev unsigned : Jwt
unsigned = record {
  sign = λ _ _ _. ok (codes "t0ken");
  parse = λ _ _ _ _ _. ok [];
  get_subject = λ _. ok (codes "three");
  uuid_text = λ _. codes "three";
  parse_uuid = λ _. some 3;
}

abbrev the_claims : List Claim
the_claims = claims_of unsigned (codes "key") hour 3 (codes "root@example.com") issued_at

abbrev number_of : Option Value → ℤ
number_of none = pos 0
number_of (some (Value.text t)) = pos 0
number_of (some (Value.number x)) = x
number_of (some Value.object) = pos 0

abbrev jwt : Jwt
jwt = record unsigned {
  parse =
      λ _ _ _ _ at. if ltb_ℤ (unix at) (unix (issued_at + hour)) then ok the_claims else err plain;
}

abbrev granted : LoginResponse
granted = record { token = codes "t0ken"; expires_at = issued_at + hour }

abbrev credentials : LoginRequest
credentials = record { email = codes " Root@example.com"; password = codes "pass" }

claims-IsRead :
    IsRead jwt 3 (claims_of jwt (codes "key") hour 3 (codes "root@example.com") issued_at)
unfolding text_eq
claims-IsRead = record {
  expired = plain;
  parses = λ m key token made keys k x c at.
      ap (λ o. if ltb_ℤ (unix at) (number_of o) then ok the_claims else err plain) c;
  subject = λ s h. ap (λ o. ok (text_or_empty o)) h;
  same_id = refl;
}

login_lem_example :
    OutcomeAt
      (λ response d.
        ((a : Admin) × ((n : ℕ) × (IsAccount calm jwt
                (codes "key")
                text_eq
                hour
                credentials
                start.db
                a
              × ((text_eq a.password_hash credentials.password ≡ Bool.true)
                  × (issue jwt (codes "key") hour a.id a.email (calm.now n) ≡ ok response)))))
        × (d ≡ start.db))
      (λ x d.
        NotLoggedIn calm jwt (codes "key") text_eq hour credentials start.db x × (d ≡ start.db))
      (login calm jwt (codes "key") text_eq hour credentials start)
login_lem_example = login_lem calm jwt (codes "key") text_eq hour credentials start

require_auth-issue_example :
    require_auth calm jwt (codes "key") (codes "Bearer " ++ codes "t0ken") pure start ≡ (
      if ltb_ℤ (unix (calm.now 0)) (unix granted.expires_at)
      then pure
          (record { admin_id = 3; email = codes "root@example.com" })
          (record start { tick = start.tick + 1 })
      else (
        err (wrap (errorf plain) 401 Code.unauthorized),
        record start { tick = start.tick + 1 },
      ))
unfolding trim_space issue
require_auth-issue_example =
    require_auth-issue jwt (codes "key") hour 3 (codes "root@example.com") issued_at calm pure
      granted start refl claims-IsRead refl
