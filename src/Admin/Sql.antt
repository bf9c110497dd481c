-- ===== src/Admin/Sql.antt =====
-- backend/internal/admin/adminsql/admin.sql.go and repository.go.
use event_portal.Base.{Text, text_eq, Bool, find_by}
use event_portal.Errors.{Sentinel}
use event_portal.Store.{Admin}
use event_portal.Effect.{Env, M, map_error, query_row}
use event_portal.Event.Repository.{no_rows_as}

-- WHERE email = $1
abbrev pub has_email : Text → Admin → Bool
has_email email a = text_eq a.email email

module _ (e : Env) where
  unfoldable pub get_admin_by_email : Text → M Admin
  get_admin_by_email email = query_row e (λ d. find_by (has_email email) d.admins)

  -- Repository.GetByEmail
  unfoldable pub get_by_email : Text → M Admin
  unfolding get_admin_by_email
  get_by_email email = map_error (no_rows_as Sentinel.admin_not_found) (get_admin_by_email email)
