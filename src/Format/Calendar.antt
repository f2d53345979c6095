-- ===== src/Format/Calendar.antt =====
-- crates/aqua-messenger/src/format.rs: days and civil dates.
use aqua_matrix_connector.Common.Decimal.{decimal}
use aqua_matrix_connector.Common.{
  ℕ, ◌-◌, ◌*◌, ◌+◌, if◌then◌else◌, leb, [], ◌/◌, ltb, ◌%◌, suc, ◌∷◌, ◌++◌, length, zero,
}
use aqua_matrix_connector.Common.Text.{Text}

-- Days before or since 1970-01-01.
pub data Days : Type 0 where
  before : ℕ → Days
  since : ℕ → Days

abbrev pub CivilDate : Type 0
CivilDate = ℕ × ℕ × ℕ

-- `yoe` of the day of an era.
unfoldable pub year_of_era : ℕ → ℕ
year_of_era doe = (doe - doe / 1460 + doe / 36524 - doe / 146096) / 365

-- `doy` of the day of an era.
unfoldable pub day_of_year : ℕ → ℕ
unfolding year_of_era
day_of_year doe = let yoe = year_of_era doe in doe - (365 * yoe + yoe / 4 - yoe / 100)

unfoldable pub month_and_day : ℕ → ℕ × ℕ
month_and_day doy =
    let mp = (5 * doy + 2) / 153 in
    (if ltb mp 10 then mp + 3 else mp - 9, doy - (153 * mp + 2) / 5 + 1)

-- From 1970 on, which is all that `fmt_ts_ms` asks for.
unfoldable pub civil_from_days : ℕ → CivilDate
unfolding day_of_year month_and_day
civil_from_days days =
    let z = days + 719468 in
    let era = z / 146097 in
    let doe = z - era * 146097 in
    let y = year_of_era doe + era * 400 in
    let (m, d) = month_and_day (day_of_year doe) in (if leb m 2 then y + 1 else y, m, d)

-- The date of a year that starts in March; the year is one era of 400 years late, so that no number is
-- negative on the way, and the days of an era are subtracted in the end.
unfoldable pub days_of_shifted : ℕ → ℕ → ℕ → Days
days_of_shifted y m d =
    let era = y / 400 in
    let yoe = y - era * 400 in
    let doy = (153 * (if ltb 2 m then m - 3 else m + 9) + 2) / 5 + d - 1 in
    let doe = yoe * 365 + yoe / 4 - yoe / 100 + doy in
    let n = era * 146097 + doe in if leb 865565 n then since (n - 865565) else before (865565 - n)

-- Years from 0 on.
unfoldable pub days_from_civil : ℕ → ℕ → ℕ → Days
unfolding days_of_shifted
days_from_civil year m d = days_of_shifted (if leb m 2 then year + 400 - 1 else year + 400) m d

-- `{:0width}`
unfoldable pub padded : ℕ → ℕ → Text
padded width n = let s = decimal n in zeros (width - length s) ++ s
  where
    zeros : ℕ → Text
    zeros zero = []
    zeros (suc k) = 48 ∷ zeros k

unfoldable pub fmt_ts_ms : ℕ → Text
unfolding civil_from_days padded
fmt_ts_ms ms =
    let secs = ms / 1000 in
    let days = secs / 86400 in
    let rem = secs % 86400 in
    let (y, m, d) = civil_from_days days in
    padded 4 y
    ++ 45 ∷ padded 2 m
    ++ 45 ∷ padded 2 d
    ++ 84 ∷ padded 2 (rem / 3600)
    ++ 58 ∷ padded 2 (rem % 3600 / 60)
    ++ 58 ∷ padded 2 (rem % 60)
    ++ 90 ∷ []
