-- ===== src/Reports/Months.antt =====
-- The months that are reported (report.go, `PreviousMonth` and `Bounds`).
use mathlib.Core.Path.{subst}
use vigia.Prelude.{
  ℕ, zero, suc, ◌+◌, ◌-◌, ◌*◌, ◌/◌, ◌≤◌, ◌<◌, ◌≡◌, ap, sym, ◌∙◌, Bool, true, false, arith,
  if◌then◌else◌,
}
use vigia.Time.{Time, utc_time, day_ns}
use vigia.Time.Civil.{
  Civil, is_leap, days_before_year, days_before_month, month_of, year_of, civil_of, date,
}
use vigia.Time.Calendar.{
  month_of_bounds, day_of_year_bound, year_length, year_of_bounds, year_of-pos,
  days_before_year_mono,
}
use vigia.Reports.{RedecoReportPeriod, date_of_month, previous_month, bounds}

-- A year is found from any of its days.
year_of-between : (y t : ℕ) → days_before_year y ≤ t → t < days_before_year (suc y) → year_of t ≡ y
year_of-between y t low high = ground (
  arith,
  year_of_bounds t,
  days_before_year_mono (suc y) (year_of t),
  days_before_year_mono (suc (year_of t)) y,
)

month_of-first :
    (leap : Bool) (m : ℕ)
    → 1 ≤ m
    → m ≤ 12
    → (month_of leap (days_before_month leap m) ≡ m)
      × (days_before_month leap m < (if leap then 366 else 365))
unfolding month_of days_before_month
month_of-first true m low high = ground arith
month_of-first false m low high = ground arith

abbrev civil_in : ℕ → ℕ → Civil
civil_in y n =
    let m = month_of (is_leap y) n in
    record { year = y; month = m; day = n - days_before_month (is_leap y) m + 1 }

civil_of-year : (y t : ℕ) → year_of t ≡ y → civil_of t ≡ civil_in y (t - days_before_year y)
unfolding civil_of
civil_of-year y t h = ap (λ (z : ℕ). civil_in z (t - days_before_year z)) h

civil_in-first :
    (y m : ℕ)
    → 1 ≤ m
    → m ≤ 12
    → civil_in y (days_before_month (is_leap y) m) ≡ record { year = y; month = m; day = 1 }
civil_in-first y m low high =
    let month = (month_of-first (is_leap y) m low high).0 in
    let day : days_before_month (is_leap y) m
          - days_before_month (is_leap y) (month_of (is_leap y) (days_before_month (is_leap y) m))
          + 1
        ≡ 1 =
      ap (λ (k : ℕ). days_before_month (is_leap y) m - days_before_month (is_leap y) k + 1) month
      ∙ omega arith in
    λ i. record { year = y; month = month i; day = day i }

-- The date of the first of a month is read back.
civil_of-first :
    (y m : ℕ)
    → 1 ≤ y
    → 1 ≤ m
    → m ≤ 12
    → civil_of (date y m 1) ≡ record { year = y; month = m; day = 1 }
unfolding date
civil_of-first y m years low high =
    let n = days_before_month (is_leap y) m in
    let fits = (month_of-first (is_leap y) m low high).1 in
    let year : year_of (date y m 1) ≡ y =
      year_of-between y (date y m 1) (omega arith) (omega (arith, fits, year_length y years)) in
    let rest : date y m 1 - days_before_year y ≡ n = omega arith in
    civil_of-year y (date y m 1) year ∙ ap (civil_in y) rest ∙ civil_in-first y m low high

-- The month behind the last one is the first of the year behind.
date_next_year : (y : ℕ) → 1 ≤ y → date y 13 1 ≡ date (suc y) 1 1
unfolding date days_before_month
date_next_year y years = ground (arith, year_length y years)

abbrev month_start : ℕ → ℕ → Time
month_start y m = utc_time (date y m 1 * day_ns)

-- The bounds of a month are its start and that of the month behind it.
bounds-month :
    (y m : ℕ)
    → 1 ≤ y
    → 1 ≤ m
    → m ≤ 12
    → bounds (record { year = y; month = m }) ≡ (month_start y m, month_start y (m + 1))
unfolding bounds
bounds-month y m years low high =
    ap (λ (c : Civil). (month_start y m, utc_time (date c.year (c.month + 1) c.day * day_ns)))
      (civil_of-first y m years low high)

abbrev stepped : Civil → RedecoReportPeriod
stepped first =
    let previous = civil_of (date_of_month first.year (first.month - 1) first.day) in
    record { year = previous.year; month = previous.month }

previous_month-stepped :
    (now : Time)
    → let c = civil_of (now.ns / day_ns) in
      1 ≤ c.year
      → 1 ≤ c.month
      → c.month ≤ 12
      → previous_month now ≡ stepped (record { year = c.year; month = c.month; day = 1 })
unfolding previous_month
previous_month-stepped now years low high = ap stepped (civil_of-first _ _ years low high)

-- The end of the month of a first day.
end-first :
    (y m t : ℕ)
    → 1 ≤ y
    → 1 ≤ m
    → m ≤ 12
    → t ≡ date y m 1
    → (bounds (record { year = (civil_of t).year; month = (civil_of t).month })).1
      ≡ month_start y (m + 1)
end-first y m t years low high e =
    ap (λ (c : Civil). (bounds (record { year = c.year; month = c.month })).1)
      (ap civil_of e ∙ civil_of-first y m years low high)
    ∙ ap (λ (b : Time × Time). b.1) (bounds-month y m years low high)

later_date : (y k : ℕ) → 1 ≤ k → date_of_month y k 1 ≡ date y k 1
later_date y k h = ground arith

-- The month before ends where a month starts.
stepped-end :
    (y m : ℕ)
    → 1 ≤ m
    → m ≤ 12
    → 13 < y * 12 + m
    → (bounds (stepped (record { year = y; month = m; day = 1 }))).1 ≡ month_start y m
stepped-end zero m low high h = absurd (omega arith)
stepped-end (suc y) zero low high h = absurd (omega arith)
stepped-end (suc y) (suc zero) low high h =
    end-first y 12 (date_of_month (suc y) 0 1) (omega arith) (omega arith) (omega arith)
      (ap (λ (z : ℕ). date z 12 1) (omega arith))
    ∙ ap (λ (d : ℕ). utc_time (d * day_ns)) (date_next_year y (omega arith))
stepped-end (suc y) (suc (suc m)) low high h =
    end-first (suc y) (suc m) (date_of_month (suc y) (suc (suc m) - 1) 1) (omega arith)
      (omega arith) (omega arith)
      (later_date (suc y) (suc (suc m) - 1) (omega arith)
        ∙ ap (λ (k : ℕ). date (suc y) k 1) (omega arith))
    ∙ ap (month_start (suc y)) (omega arith)

-- The month that a time lies in.
abbrev pub month_at : ℕ → RedecoReportPeriod
month_at now = let c = civil_of (now / day_ns) in record { year = c.year; month = c.month }

-- The first 31 days are the first month.
second_month :
    (leap : Bool) (y m d : ℕ)
    → 1 ≤ y
    → 1 ≤ m
    → 31 ≤ d
    → d - days_before_year y < days_before_month leap (suc m)
    → 13 < y * 12 + m
unfolding days_before_year days_before_month
second_month leap zero m d years low late inside = absurd (omega arith)
second_month leap y zero d years low late inside = absurd (omega arith)
second_month leap (suc zero) (suc zero) d years low late inside = absurd (ground arith)
second_month leap (suc zero) (suc (suc m)) d years low late inside = omega arith
second_month leap (suc (suc y)) (suc m) d years low late inside = omega arith

civil_of-bounds :
    (d : ℕ)
    → let c = civil_of d in
      (1 ≤ c.year)
      × (1 ≤ c.month)
      × (c.month ≤ 12)
      × (date c.year c.month 1 ≤ d)
      × (d < date c.year (c.month + 1) 1)
      × (31 ≤ d → 13 < c.year * 12 + c.month)
unfolding civil_of date
civil_of-bounds d =
    let (starts, ends, low, high) =
      month_of_bounds (is_leap (year_of d)) (d - days_before_year (year_of d))
        (day_of_year_bound d) in
    let years = year_of-pos d in
    let m = month_of (is_leap (year_of d)) (d - days_before_year (year_of d)) in
    let next : days_before_month (is_leap (year_of d)) (suc m)
        ≡ days_before_month (is_leap (year_of d)) (m + 1) =
      ap (days_before_month (is_leap (year_of d))) (omega arith) in
    (
      years,
      low,
      high,
      omega (arith, starts, year_of_bounds d),
      omega (arith, ends, next, year_of_bounds d),
      λ late. second_month (is_leap (year_of d)) (year_of d) m d years low late ends,
    )

-- The report of the month before a time ends where the month of that time starts, not behind the time, and
-- the month of the time ends behind it: no time is left out between the two, and none is in both.
pub previous_month-bounds :
    (now : ℕ)
    → 31 ≤ now / day_ns
    → ((bounds (previous_month (utc_time now))).1 ≡ (bounds (month_at now)).0)
      × ((bounds (month_at now)).0.ns ≤ now)
      × (now < (bounds (month_at now)).1.ns)
previous_month-bounds now late =
    let c = civil_of (now / day_ns) in
    let (years, low, high, starts, ends, second) = civil_of-bounds (now / day_ns) in
    let here = bounds-month c.year c.month years low high in
    (
      ap (λ p. (bounds p).1) (previous_month-stepped (utc_time now) years low high)
          ∙ stepped-end c.year c.month low high (second late)
          ∙ sym (ap (λ (b : Time × Time). b.0) here),
      subst (λ (b : Time × Time). b.0.ns ≤ now) (sym here) (omega (arith, starts)),
      subst (λ (b : Time × Time). now < b.1.ns) (sym here) (omega (arith, ends)),
    )
