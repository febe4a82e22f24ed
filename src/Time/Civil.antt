-- ===== src/Time/Civil.antt =====
-- The proleptic Gregorian calendar of package time. Day 0 is 1 January of year 1, months and days
-- count from 1, and `date` normalises a day past the month's end as `time.Date` does.
use vigia.Prelude.{ℕ, ◌+◌, ◌-◌, ◌*◌, ◌/◌, ◌%◌, Bool, not, ◌&&◌, ◌||◌, ltb, nat_eq, if◌then◌else◌}
use Prim.Native.Nat.{min}

unfoldable pub is_leap : ℕ → Bool
is_leap y = nat_eq (y % 4) 0 && (not (nat_eq (y % 100) 0) || nat_eq (y % 400) 0)

-- Days before 1 January of year y.
unfoldable pub days_before_year : ℕ → ℕ
days_before_year y = 365 * (y - 1) + (y - 1) / 4 - (y - 1) / 100 + (y - 1) / 400

-- The year of a day, through the cycles of 400, 100, 4 and 1 years.
unfoldable pub year_in_4 : ℕ → ℕ
year_in_4 d = min 3 (d / 365)

unfoldable pub year_in_100 : ℕ → ℕ
unfolding year_in_4
year_in_100 d = 4 * (d / 1461) + year_in_4 (d % 1461)

unfoldable pub year_in_400 : ℕ → ℕ
unfolding year_in_100
year_in_400 d = let c = min 3 (d / 36524) in 100 * c + year_in_100 (d - 36524 * c)

unfoldable pub year_of : ℕ → ℕ
unfolding year_in_400
year_of d = 400 * (d / 146097) + year_in_400 (d % 146097) + 1

-- Days of the year before the month, for months 1 to 13.
unfoldable pub days_before_month : Bool → ℕ → ℕ
days_before_month leap m =
    let extra : ℕ = if leap && ltb 2 m then 1 else 0 in
    (if ltb m 2
      then 0
      else if ltb m 3
      then 31
      else if ltb m 4
      then 59
      else if ltb m 5
      then 90
      else if ltb m 6
      then 120
      else if ltb m 7
      then 151
      else if ltb m 8
      then 181
      else if ltb m 9
      then 212
      else if ltb m 10
      then 243
      else if ltb m 11
      then 273
      else if ltb m 12
      then 304
      else if ltb m 13
      then 334
      else 365)
    + extra

-- The month of a day of the year.
unfoldable pub month_of : Bool → ℕ → ℕ
month_of leap n =
    let feb : ℕ = if leap then 1 else 0 in
    if ltb n 31
    then 1
    else if ltb n (59 + feb)
    then 2
    else if ltb n (90 + feb)
    then 3
    else if ltb n (120 + feb)
    then 4
    else if ltb n (151 + feb)
    then 5
    else if ltb n (181 + feb)
    then 6
    else if ltb n (212 + feb)
    then 7
    else if ltb n (243 + feb)
    then 8
    else if ltb n (273 + feb)
    then 9
    else if ltb n (304 + feb)
    then 10
    else if ltb n (334 + feb)
    then 11
    else 12

pub record Civil : Type 0 where
  pub year : ℕ
  pub month : ℕ
  pub day : ℕ

unfoldable pub civil_of : ℕ → Civil
civil_of d =
    let y = year_of d in
    let n = d - days_before_year y in
    let m = month_of (is_leap y) n in
    record { year = y; month = m; day = n - days_before_month (is_leap y) m + 1 }

-- The day of `time.Date(y, m, d, …)`, for months 1 to 13.
unfoldable pub date : ℕ → ℕ → ℕ → ℕ
date y m d = days_before_year y + days_before_month (is_leap y) m + d - 1
