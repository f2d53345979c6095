-- ===== src/Format/Dates.antt =====
-- Days and dates agree.
use aqua_matrix_connector.Common.{
  ℕ, ◌<◌, arith, ◌*◌, ◌≤◌, ◌+◌, if◌then◌else◌, ltb, ◌/◌, ◌-◌, ◌≡◌, leb, if_true, le→leb, ◌∙◌, ap,
}
use aqua_matrix_connector.Format.Calendar.{
  year_of_era, month_and_day, day_of_year, days_of_shifted, civil_from_days, since, days_from_civil,
  before,
}

year_of_era-lt : (doe : ℕ) → doe < 146097 → year_of_era doe < 400
unfolding year_of_era
year_of_era-lt doe h = omega arith

-- The day of the year, and the day of the era back from it.
day_of_year_lem :
    (doe : ℕ)
    → doe < 146097
    → let yoe = year_of_era doe in
      (day_of_year doe < 366) × (yoe * 365 + yoe / 4 - yoe / 100 + day_of_year doe ≡ doe)
unfolding year_of_era day_of_year
day_of_year_lem doe h = (omega arith, omega arith)

-- The month and the day, and the day of the year back from them.
month_and_day_lem :
    (doy : ℕ)
    → doy < 366
    → let (m, d) = month_and_day doy in
      (1 ≤ m)
      × (m ≤ 12)
      × (1 ≤ d)
      × (d ≤ 31)
      × ((153 * (if ltb 2 m then m - 3 else m + 9) + 2) / 5 + d - 1 ≡ doy)
unfolding month_and_day
month_and_day_lem doy h = ground arith

shifted :
    (yoe era m d doy doe days : ℕ)
    → yoe < 400
    → (153 * (if ltb 2 m then m - 3 else m + 9) + 2) / 5 + d - 1 ≡ doy
    → yoe * 365 + yoe / 4 - yoe / 100 + doy ≡ doe
    → days + 719468 ≡ era * 146097 + doe
    → days_of_shifted (yoe + era * 400 + 400) m d ≡ since days
unfolding days_of_shifted
shifted yoe era m d doy doe days small same_doy same_doe total =
    let era' : (yoe + era * 400 + 400) / 400 ≡ era + 1 = omega arith in
    let yoe' : yoe + era * 400 + 400 - (era + 1) * 400 ≡ yoe = omega arith in
    rw era' (
      rw yoe' (
        rw same_doy (
          rw same_doe (
            if_true (since ((era + 1) * 146097 + doe - 865565))
              (before (865565 - ((era + 1) * 146097 + doe)))
              (le→leb 865565 ((era + 1) * 146097 + doe) (omega arith))
            ∙ ap since (omega arith)))))

unshift :
    (y m : ℕ)
    → (if leb m 2
        then (if leb m 2 then y + 1 else y) + 400 - 1
        else (if leb m 2 then y + 1 else y) + 400)
      ≡ y + 400
unshift y m = ground arith

-- From 1970 on, the date of a day is a month from 1 to 12 and a day from 1 to 31, and it is the date of that day
-- and no other: counting its days back gives the day.
pub days_from_civil-of_days :
    (days : ℕ)
    → let (y, m, d) = civil_from_days days in
      (days_from_civil y m d ≡ since days) × (1 ≤ m) × (m ≤ 12) × (1 ≤ d) × (d ≤ 31)
unfolding civil_from_days days_from_civil
days_from_civil-of_days days =
    let z = days + 719468 in
    let era = z / 146097 in
    let doe = z - era * 146097 in
    let (m, d) = month_and_day (day_of_year doe) in
    let (small, same_doe) = day_of_year_lem doe (omega arith) in
    let (m1, m12, d1, d31, same_doy) = month_and_day_lem (day_of_year doe) small in
    (
      rw (unshift (year_of_era doe + era * 400) m) (
          shifted (year_of_era doe) era m d (day_of_year doe) doe days
            (year_of_era-lt doe (omega arith)) same_doy same_doe (omega arith)),
      m1,
      m12,
      d1,
      d31,
    )
