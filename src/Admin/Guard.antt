-- ===== src/Admin/Guard.antt =====
-- A token that was issued opens the admin's routes until it expires, and is refused from then on.
use event_portal.Base.{
  sym, ap, absurd_bool, inl, inr, Bool-cases, some, ◌≡◌, refl, ℕ, suc, ◌+◌, ◌++◌, ◌∷◌, [], ltb,
  length, ◌||◌, not, ℤ, ltb_ℤ, Text, codes, trim_space, Bool, true, false, Option, List, ◌∙◌,
  if◌then◌else◌, text_eq, lower, arith,
}
use event_portal.Errors.{Error, errorf, wrap, Code}
use event_portal.Store.{Uuid, Time}
use event_portal.Effect.{Result, err, throw, Env, M, World, ok, now, pure, map_error, handle, ◌>>=◌}
use event_portal.Admin.Token.{
  LoginResponse, issue, Jwt, Claim, Claims, Method, Value, claim, claims_of, unix, key_for, verify,
  read_claims,
}
use event_portal.Admin.Service.{require_auth, with_token, has_bearer, prefix_length}

-- What is relied on of the JWT library for some claims: a token signed with a method and a key parses
-- back to them, for that method only and a key function that gives it that key, as long as the
-- seconds of `exp` are not reached, and to an error from then on; and the subject of the claims, and
-- the id in it, are what was put there.
pub record IsRead (jwt : Jwt) (i : Uuid) (cs : List Claim) : Type 0 where
  pub expired : Error
  pub parses :
      (m : Method) (key token : Text)
      → jwt.sign m cs key ≡ ok token
      → (keys : Method → Option Text) → keys m ≡ some key
      → (x : ℤ) → claim (codes "exp") cs ≡ some (Value.number x)
      → (at : Time)
      → jwt.parse token keys (m ∷ []) true at ≡ (if ltb_ℤ (unix at) x then ok cs else err expired)
  pub subject :
      (s : Text) → claim (codes "sub") cs ≡ some (Value.text s) → jwt.get_subject cs ≡ ok s
  pub same_id : jwt.parse_uuid (jwt.uuid_text i) ≡ some i

module _ (jwt : Jwt) (secret : Text) (ttl : ℕ) (i : Uuid) (email : Text) (at : Time) where
  abbrev Issued : LoginResponse → Type 0
  Issued r =
      (jwt.sign Method.hs256 (claims_of jwt secret ttl i email at) secret ≡ ok r.token)
      × (r.expires_at ≡ at + ttl)

  abbrev token_of : Result LoginResponse → Text
  token_of (ok r) = r.token
  token_of (err x) = []

  abbrev expiry_of : Result LoginResponse → Time
  expiry_of (ok r) = r.expires_at
  expiry_of (err x) = 0

  abbrev is_ok : Result LoginResponse → Bool
  is_ok (ok r) = true
  is_ok (err x) = false

  signed :
      (r : LoginResponse) (s : Result Text)
      → jwt.sign Method.hs256 (claims_of jwt secret ttl i email at) secret ≡ s
      → (elim s [
        | err x ↦ err (errorf x)
        | ok t ↦ ok (record { token = t; expires_at = at + ttl })
      ])
        ≡ ok r
      → Issued r
  signed r (err x) made h = absurd_bool (ap is_ok h)
  signed r (ok t) made h = (made ∙ ap ok (ap token_of h), sym (ap expiry_of h))

  issue-Issued : (r : LoginResponse) → issue jwt secret ttl i email at ≡ ok r → Issued r
  unfolding issue
  issue-Issued r h = signed r _ refl h

  module _ (r : LoginResponse) (made : issue jwt secret ttl i email at ≡ ok r)
      (reads : IsRead jwt i (claims_of jwt secret ttl i email at)) where
    parsed :
        (later : Time)
        → jwt.parse r.token (key_for secret) (Method.hs256 ∷ []) true later ≡ (
            if ltb_ℤ (unix later) (unix (at + ttl))
            then ok (claims_of jwt secret ttl i email at)
            else err reads.expired)
    unfolding text_eq
    parsed later =
        reads.parses Method.hs256 secret r.token (issue-Issued r made).0 (key_for secret) refl
          (unix (at + ttl)) refl later

    -- A token verifies before its expiry, as the admin that it was issued for.
    verify-issued :
        (later : Time)
        → ltb_ℤ (unix later) (unix (at + ttl)) ≡ true
        → verify jwt secret r.token later ≡ ok (record { admin_id = i; email = email })
    unfolding verify read_claims text_eq
    verify-issued later early =
        rw
          (
            parsed later,
            verify,
            early,
            reads.subject (jwt.uuid_text i) refl,
            read_claims,
            reads.same_id,
          )
          refl

    verify-expired :
        (later : Time)
        → ltb_ℤ (unix later) (unix (at + ttl)) ≡ false
        → verify jwt secret r.token later ≡ err (errorf reads.expired)
    unfolding verify
    verify-expired later late = rw (parsed later, verify, late) refl

  verified :
      (e : Env) {A : Type 0} (next : Claims → M A) (raw : Text) (w : World) (c : Claims)
      → verify jwt secret raw (e.now w.tick) ≡ ok c
      → with_token e jwt secret raw next w ≡ next c (record w { tick = w.tick + 1 })
  unfolding with_token now map_error handle pure ◌>>=◌
  verified e next raw w c h = rw h refl

  not_verified :
      (e : Env) {A : Type 0} (next : Claims → M A) (raw : Text) (w : World) (x : Error)
      → verify jwt secret raw (e.now w.tick) ≡ err x
      → with_token e jwt secret raw next w
        ≡ (err (wrap x 401 Code.unauthorized), record w { tick = w.tick + 1 })
  unfolding with_token now map_error handle pure throw ◌>>=◌
  not_verified e next raw w x h = rw h refl

  long_enough : (n : ℕ) → ltb (suc (suc (suc (suc (suc (suc (suc n))))))) 7 ≡ false
  long_enough n = ground arith

  neither : (a b : Bool) → a ≡ false → b ≡ false → (a || b) ≡ false
  neither a b h k = rw (h, k) refl

  has_header :
      (e : Env) (token : Text)
      → (ltb (length (codes "Bearer " ++ token)) prefix_length
          || not (has_bearer e jwt secret (codes "Bearer " ++ token)))
        ≡ false
  unfolding text_eq lower
  has_header e token = neither _ _ (long_enough (length token)) refl

  passes :
      {A : Type 0} (b : Bool) (m n : M A) (w : World) → b ≡ false → (if b then m else n) w ≡ n w
  passes b m n w h = rw h refl

  -- The header that a client sends with a token that was issued opens a guarded route, in the name of
  -- the admin that it was issued for, as long as the expiry that the login reported is not reached in
  -- whole seconds, and is refused with 401 from then on. The JWT library is assumed to read back what
  -- it signed under the same method and key until the token expires and no longer, and the token to
  -- have no spaces around it.
  pub require_auth-issue :
      (e : Env) {A : Type 0} (next : Claims → M A) (r : LoginResponse) (w : World)
      → issue jwt secret ttl i email at ≡ ok r
      → (reads : IsRead jwt i (claims_of jwt secret ttl i email at)) → trim_space r.token ≡ r.token
      → let after = record w { tick = w.tick + 1 } in
        require_auth e jwt secret (codes "Bearer " ++ r.token) next w ≡ (
          if ltb_ℤ (unix (e.now w.tick)) (unix r.expires_at)
          then next (record { admin_id = i; email = email }) after
          else (err (wrap (errorf reads.expired) 401 Code.unauthorized), after))
  unfolding require_auth
  require_auth-issue e next r w made reads trimmed =
      passes _ _ (with_token e jwt secret (trim_space r.token) next) w (has_header e r.token)
      ∙ (rw (trimmed, (issue-Issued r made).1)
          (elim (Bool-cases (ltb_ℤ (unix (e.now w.tick)) (unix (at + ttl)))) [
            | inl early ↦
                rw early
                  (verified e next r.token w _ (verify-issued r made reads (e.now w.tick) early))
            | inr late ↦
                rw late (
                  not_verified e next r.token w _ (verify-expired r made reads (e.now w.tick) late))
          ]))
