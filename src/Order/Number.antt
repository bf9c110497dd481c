-- ===== src/Order/Number.antt =====
-- backend/internal/order/order_number.go, with the part of Go's time formatting that it uses. A
-- time counts nanoseconds from the first of January of the year 1, UTC, as time.Time does.
pub mod Laws
use event_portal.Base.{
  ℕ, ◌+◌, ◌-◌, ◌*◌, ◌/◌, ◌%◌, Text, codes, ◌++◌, ◌∷◌, [], ltb, if◌then◌else◌, ◌≡◌, refl,
}
use event_portal.Store.{Time}
use event_portal.Effect.{Env, M, map_error, pure, ◌>>=◌}
use event_portal.Errors.{errorf}
use event_portal.Randcode.{new_code}

abbrev day_length : ℕ
day_length = 86400000000000

-- The civil date of a day, counted from the first of March of the year 0.
civil_year : ℕ → ℕ → ℕ
civil_year day_of_era era =
    (day_of_era + day_of_era / 36524 - day_of_era / 1460 - day_of_era / 146096) / 365 + era * 400

day_of_year : ℕ → ℕ
day_of_year day_of_era =
    let y = (day_of_era + day_of_era / 36524 - day_of_era / 1460 - day_of_era / 146096) / 365 in
    day_of_era - (365 * y + y / 4 - y / 100)

abbrev digit : ℕ → ℕ
digit n = b'0' + n % 10

abbrev two_digits : ℕ → Text
two_digits n = digit (n / 10) ∷ digit n ∷ []

abbrev four_digits : ℕ → Text
four_digits n = digit (n / 1000) ∷ digit (n / 100) ∷ two_digits n

-- at.UTC().Format("20060102")
unfoldable pub format_date : Time → Text
unfolding civil_year day_of_year
format_date at =
    let day = at / day_length + 306 in
    let era = day / 146097 in
    let doe = day % 146097 in
    let doy = day_of_year doe in
    let mp = (5 * doy + 2) / 153 in
    let dom = doy - (153 * mp + 2) / 5 + 1 in
    let month = if ltb mp 10 then mp + 3 else mp - 9 in
    let year = civil_year doe era + (if ltb month 3 then 1 else 0) in
    four_digits year ++ (two_digits month ++ two_digits dom)

-- The second of January 2006, at 15:04:05, the time that the layout itself spells.
format_date_layout : format_date (63271811045 * 1000000000) ≡ codes "20060102"
unfolding format_date
format_date_layout = refl

abbrev pub order_number_suffix_length : ℕ
order_number_suffix_length = 6

module _ (e : Env) where
  unfoldable pub generate_order_number : Time → M Text
  generate_order_number at = do
    suffix ← map_error errorf (new_code e order_number_suffix_length)
    pure (codes "ORD-" ++ (format_date at ++ (b'-' ∷ suffix)))
