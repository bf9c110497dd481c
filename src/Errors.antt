-- ===== src/Errors.antt =====
-- backend/pkg/apperr, and the sentinel errors that the domains declare. Messages are left out:
-- no code branches on them.
pub mod Laws
use event_portal.Base.{ℕ, Bool, true, false, ◌==◌, if◌then◌else◌, Option, none, some}

-- The machine-readable codes of apperr.go.
pub data Code : Type 0 where
  validation insufficient_quota attendee_count_mismatch ticket_type_not_on_sale : Code
  ticket_type_not_found event_not_found payment_initiation_failed : Code
  payment_status_unavailable ticket_not_found rate_limited invalid_signature : Code
  invalid_credentials unauthorized slug_not_unique invalid_date_range event_has_orders : Code
  ticket_type_has_orders already_used order_not_paid order_not_found not_found internal : Code

-- The package-level `errors.New` values that callers compare with `errors.Is`, and pgx.ErrNoRows.
pub data Sentinel : Type 0 where
  no_rows event_not_found event_insufficient_quota slug_taken : Sentinel
  order_not_found order_number_taken order_insufficient_quota : Sentinel
  ticket_not_found code_taken : Sentinel
  payment_order_not_found provider_has_no_record invalid_signature admin_not_found : Sentinel

-- What the database driver reports.
pub data Failure : Type 0 where
  unique_violation foreign_key_violation check_violation out_of_range too_long unavailable : Failure

-- A Go error: an *apperr.Error without and with a cause, a `fmt.Errorf` with `%w`, a sentinel, a
-- driver error, and a plain `errors.New` that nobody compares.
pub data Error : Type 0 where
  app : ℕ → Code → Error
  wrap : Error → ℕ → Code → Error
  errorf : Error → Error
  sentinel : Sentinel → Error
  pg : Failure → Error
  plain : Error

abbrev sentinel_tag : Sentinel → ℕ
sentinel_tag Sentinel.no_rows = 0
sentinel_tag Sentinel.event_not_found = 1
sentinel_tag Sentinel.event_insufficient_quota = 2
sentinel_tag Sentinel.slug_taken = 3
sentinel_tag Sentinel.order_not_found = 4
sentinel_tag Sentinel.order_number_taken = 5
sentinel_tag Sentinel.order_insufficient_quota = 6
sentinel_tag Sentinel.ticket_not_found = 7
sentinel_tag Sentinel.code_taken = 8
sentinel_tag Sentinel.payment_order_not_found = 9
sentinel_tag Sentinel.provider_has_no_record = 10
sentinel_tag Sentinel.invalid_signature = 11
sentinel_tag Sentinel.admin_not_found = 12

-- `errors.Is(err, target)`: the chain of causes, through `Unwrap`.
abbrev pub errors_is : Error → Sentinel → Bool
errors_is (app s c) t = false
errors_is (wrap e s c) t = errors_is e t
errors_is (errorf e) t = errors_is e t
errors_is (sentinel s) t = sentinel_tag s == sentinel_tag t
errors_is (pg f) t = false
errors_is plain t = false

-- `isUniqueViolation`: a driver error with SQLSTATE 23505 somewhere in the chain.
abbrev pub is_unique_violation : Error → Bool
is_unique_violation (pg Failure.unique_violation) = true
is_unique_violation (wrap e s c) = is_unique_violation e
is_unique_violation (errorf e) = is_unique_violation e
is_unique_violation _ = false

abbrev pub bad_request : Code → Error
bad_request c = app 400 c

abbrev pub not_found_error : Code → Error
not_found_error c = app 404 c

abbrev pub unauthorized_error : Code → Error
unauthorized_error c = app 401 c

abbrev pub conflict : Code → Error
conflict c = app 409 c

-- `if err := …; err != nil { return err }`, one check after the other.
infixr 4 ◌orelse◌
abbrev pub ◌orelse◌ : Option Error → Option Error → Option Error
none orelse next = next
some x orelse next = some x

abbrev pub reject_if : Bool → Code → Option Error
reject_if b c = if b then some (bad_request c) else none
