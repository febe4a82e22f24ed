-- ===== src/Time/Calendar.antt =====
-- The calendar: a day lies in its year, and the date of a day is that day.
use Prim.Native.Nat.{min}
use vigia.Prelude.{
  ℕ, suc, ◌+◌, ◌-◌, ◌*◌, ◌/◌, ◌%◌, ◌≤◌, ◌<◌, ◌≡◌, refl, Bool, true, false, arith, if◌then◌else◌,
}
use vigia.Time.Civil.{
  is_leap, days_before_year, days_before_month, month_of, year_of, civil_of, date, year_in_4,
  year_in_100, year_in_400,
}

civil_today : civil_of 739946 ≡ record { year = 2026; month = 11; day = 27 }
unfolding civil_of year_of days_before_year month_of days_before_month is_leap
civil_today = refl

-- The number of days of a year.
pub year_length :
    (y : ℕ)
    → 1 ≤ y
    → days_before_year (suc y) ≡ days_before_year y + (if is_leap y then 366 else 365)
unfolding days_before_year is_leap
year_length y h = ground arith

-- Bounds for a year within each cycle; the last year of four and the last four hundred are longer.
year_in_4_bounds :
    (d : ℕ) → d < 1461 → (365 * year_in_4 d ≤ d) × (d < 365 * year_in_4 d + 366) × (year_in_4 d ≤ 3)
unfolding year_in_4
year_in_4_bounds d h = omega arith

before_in_100 : ℕ → ℕ
before_in_100 p = 365 * p + p / 4

year_in_100_bounds :
    (d : ℕ)
    → d < 36525
    → (before_in_100 (year_in_100 d) ≤ d)
      × (d < before_in_100 (suc (year_in_100 d)))
      × (year_in_100 d ≤ 99)
unfolding year_in_100 before_in_100
year_in_100_bounds d h = omega (arith, year_in_4_bounds (d % 1461) (omega arith))

year_in_400_bounds :
    (d : ℕ)
    → d < 146097
    → let p = year_in_400 d in
      (365 * p + p / 4 - p / 100 ≤ d)
      × (d < 365 * suc p + suc p / 4 - suc p / 100 + suc p / 400)
      × (p ≤ 399)
unfolding year_in_400 before_in_100
year_in_400_bounds d h =
    omega (arith, year_in_100_bounds (d - 36524 * min 3 (d / 36524)) (omega arith))

-- A day lies in its year.
pub year_of_bounds :
    (d : ℕ) → (days_before_year (year_of d) ≤ d) × (d < days_before_year (suc (year_of d)))
unfolding year_of days_before_year
year_of_bounds d = omega (arith, year_in_400_bounds (d % 146097) (omega arith))

pub month_of_bounds :
    (leap : Bool) (n : ℕ)
    → n < (if leap then 366 else 365)
    → let m = month_of leap n in
      (days_before_month leap m ≤ n) × (n < days_before_month leap (suc m)) × (1 ≤ m) × (m ≤ 12)
unfolding month_of days_before_month
month_of_bounds true n h = ground arith
month_of_bounds false n h = ground arith

-- No month of a leap year is shorter than in another, and February has at most 29 days.
month_fits :
    (leap leap' : Bool) (n : ℕ)
    → n < (if leap then 366 else 365)
    → let m = month_of leap n in
      days_before_month leap' m + (n - days_before_month leap m) < (if leap' then 366 else 365)
unfolding month_of days_before_month
month_fits true true n h = ground arith
month_fits true false n h = ground arith
month_fits false true n h = ground arith
month_fits false false n h = ground arith

pub year_of-pos : (d : ℕ) → 1 ≤ year_of d
unfolding year_of
year_of-pos d = omega arith

pub day_of_year_bound :
    (d : ℕ) → d - days_before_year (year_of d) < (if is_leap (year_of d) then 366 else 365)
day_of_year_bound d = omega (arith, year_of_bounds d, year_length (year_of d) (year_of-pos d))

-- `time.Date` of the parts of a day is that day.
pub date-civil_of : (d : ℕ) → let c = civil_of d in date c.year c.month c.day ≡ d
unfolding civil_of date
date-civil_of d = omega (
  arith,
  year_of_bounds d,
  month_of_bounds (is_leap (year_of d)) (d - days_before_year (year_of d)) (day_of_year_bound d),
)

-- The same month and day in another year lie in that year; 29 February becomes 1 March.
pub date_in_year :
    (d y : ℕ)
    → 1 ≤ y
    → let t = date y (civil_of d).month (civil_of d).day in
      (days_before_year y ≤ t) × (t < days_before_year (suc y))
unfolding civil_of date
date_in_year d y h = omega (
  arith,
  year_length y h,
  month_fits (is_leap (year_of d)) (is_leap y) (d - days_before_year (year_of d))
      (day_of_year_bound d),
)

pub days_before_year_mono : (m n : ℕ) → m ≤ n → days_before_year m ≤ days_before_year n
unfolding days_before_year
days_before_year_mono m n h = omega arith

-- Later days lie in later years.
pub year_of_mono : (d e : ℕ) → d ≤ e → year_of d ≤ year_of e
year_of_mono d e h =
    ground (
      arith,
      year_of_bounds d,
      year_of_bounds e,
      days_before_year_mono (suc (year_of e)) (year_of d),
    )

pub year-civil_of : (d : ℕ) → (civil_of d).year ≡ year_of d
unfolding civil_of
year-civil_of d = refl
