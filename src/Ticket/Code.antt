-- ===== src/Ticket/Code.antt =====
-- backend/internal/ticket/normalize.go.
pub mod Laws
use event_portal.Base.{ℕ, Text, trim_space, to_upper}
use event_portal.Errors.{errorf}
use event_portal.Effect.{Env, M, map_error}
use event_portal.Randcode.{new_code}

abbrev pub code_length : ℕ
code_length = 10

unfoldable pub normalize_code : (ℕ → ℕ) → Text → Text
normalize_code upper_rune input = to_upper upper_rune (trim_space input)

unfoldable pub generate_code : Env → M Text
generate_code e = map_error errorf (new_code e code_length)
