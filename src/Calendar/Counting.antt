-- ===== src/Calendar/Counting.antt =====
-- Which day `AddBusinessDays` gives, and that its loop ends.
use vigia.Prelude.{
  Bool, not, ◌&&◌, ltb, nat_eq, all, contains, ℕ, zero, suc, ◌+◌, ◌*◌, ◌/◌, ◌%◌, ◌≤◌, ◌≡◌, refl, ap,
  ◌∙◌, sym, true, ◌⊎◌, inl, inr, List, [], ◌∷◌, some, length, ℕ_comparable, if◌then◌else◌, arith,
}
use vigia.Time.{Time, utc_time, day_ns}
use vigia.Calendar.{
  Calendar, is_business_date, is_business_day, next_day, advance, add_business_days,
}

-- The business days among the k days behind day d.
abbrev pub business_days : List ℕ → ℕ → ℕ → ℕ
business_days hs d zero = 0
business_days hs d (suc k) =
    (if is_business_date hs (d + 1) then 1 else 0) + business_days hs (d + 1) k

-- One more holiday takes away one day at most, and none outside the range.
one_holiday :
    (h : ℕ) (hs : List ℕ) (d k : ℕ)
    → (business_days hs d k ≤ business_days (h ∷ hs) d k + 1)
      × ((h ≤ d) → business_days hs d k ≤ business_days (h ∷ hs) d k)
one_holiday h hs d zero = ground arith
one_holiday h hs d (suc k) = ground (arith, one_holiday h hs (d + 1) k)

holidays_le : (hs : List ℕ) (d k : ℕ) → business_days [] d k ≤ business_days hs d k + length hs
holidays_le [] d k = omega arith
holidays_le (h ∷ hs) d k = omega (arith, holidays_le hs d k, (one_holiday h hs d k).0)

week : (d k : ℕ) → business_days [] d (7 + k) ≡ 5 + business_days [] (d + 7) k
week d k = ground arith

weeks_split : (m : ℕ) → 7 * suc m ≡ 7 + 7 * m
weeks_split m = omega arith

weeks : (d m : ℕ) → business_days [] d (7 * m) ≡ 5 * m
weeks d zero = refl
weeks d (suc m) =
    ap (λ (k : ℕ). business_days [] d k) (weeks_split m)
    ∙ week d (7 * m)
    ∙ omega (arith, weeks (d + 7) m)

-- The fuel is enough, whatever the holidays are.
enough : (hs : List ℕ) (d n : ℕ) → n ≤ business_days hs d (7 * (n + length hs))
enough hs d n = omega (arith, holidays_le hs d (7 * (n + length hs)), weeks d (n + length hs))

next_ns : (a : ℕ) → (a / day_ns + 1) * day_ns + a % day_ns ≡ a + day_ns
next_ns a = omega arith

next_day-utc : (a : ℕ) → next_day (utc_time a) ≡ utc_time (a + day_ns)
next_day-utc a = ap utc_time (next_ns a)

-- `t` lies k days behind `a`, at the same time of day, with n business days in between, the last of
-- which is its own day.
pub record IsCounted (hs : List ℕ) (a n : ℕ) (t : Time) : Type 0 where
  pub days : ℕ
  pub reached_at : t ≡ utc_time (a + days * day_ns)
  pub counted : business_days hs (a / day_ns) days ≡ n
  pub ends : (days ≡ 0) ⊎ (is_business_date hs (a / day_ns + days) ≡ true)

next_date : (a : ℕ) → (a + day_ns) / day_ns ≡ a / day_ns + 1
next_date a = omega arith

-- The same day, seen from the day before.
last_day :
    (hs : List ℕ) (a m k : ℕ)
    → (m ≡ 0 → is_business_date hs (a / day_ns + 1) ≡ true)
    → business_days hs (a / day_ns + 1) k ≡ m
    → (k ≡ 0) ⊎ (is_business_date hs ((a + day_ns) / day_ns + k) ≡ true)
    → is_business_date hs (a / day_ns + suc k) ≡ true
last_day hs a m k first counted (inl start) =
    let m_zero : m ≡ 0 = sym counted ∙ ap (λ (j : ℕ). business_days hs (a / day_ns + 1) j) start in
    let same : a / day_ns + 1 ≡ a / day_ns + suc k = omega (arith, start) in
    ap (λ (d : ℕ). is_business_date hs d) (sym same) ∙ first m_zero
last_day hs a m k first counted (inr last) =
    let same : (a + day_ns) / day_ns + k ≡ a / day_ns + suc k = omega (arith, next_date a) in
    ap (λ (d : ℕ). is_business_date hs d) (sym same) ∙ last

from_day_before :
    (hs : List ℕ) (a n m : ℕ) (t : Time)
    → (if is_business_date hs (a / day_ns + 1) then 1 else 0) + m ≡ n
    → (m ≡ 0 → is_business_date hs (a / day_ns + 1) ≡ true)
    → IsCounted hs (a + day_ns) m t
    → IsCounted hs a n t
from_day_before hs a n m t count first r =
    let counted : business_days hs (a / day_ns + 1) r.days ≡ m =
      ap (λ (d : ℕ). business_days hs d r.days) (sym (next_date a)) ∙ r.counted in
    record {
      days = suc r.days;
      reached_at = r.reached_at ∙ ap utc_time (omega arith);
      counted = omega (arith, counted, count);
      ends = inr (last_day hs a m r.days first counted r.ends);
    }

advance-step :
    (cal : Calendar) (fuel left a : ℕ)
    → advance cal (suc fuel) (suc left) (utc_time a)
      ≡ advance cal fuel
          (if is_business_date cal.holidays (a / day_ns + 1) then left else suc left)
          (utc_time (a + day_ns))
unfolding advance
advance-step cal fuel left a =
    ap (λ (t : Time). advance cal fuel (if is_business_day t cal then left else suc left) t)
      (next_day-utc a)
    ∙ ap
        (λ (d : ℕ).
          advance cal fuel (if is_business_date cal.holidays d then left else suc left)
            (utc_time (a + day_ns)))
        (next_date a)

advance-finds :
    (cal : Calendar) (fuel left a : ℕ)
    → left ≤ business_days cal.holidays (a / day_ns) fuel
    → (t : Time) × (advance cal fuel left (utc_time a) ≡ some t) × IsCounted cal.holidays a left t
advance-finds cal fuel zero a h = (
  utc_time a,
  unfold advance in refl,
  record { days = 0; reached_at = ap utc_time (omega arith); counted = refl; ends = inl refl },
)
advance-finds cal zero (suc left) a h = absurd (omega arith)
advance-finds cal (suc fuel) (suc left) a h =
    let biz = is_business_date cal.holidays (a / day_ns + 1) in
    let next = if biz then left else suc left in
    let fits : next ≤ business_days cal.holidays ((a + day_ns) / day_ns) fuel =
      rw (next_date a) (ground arith) in
    let (t, found, r) = advance-finds cal fuel next (a + day_ns) fits in
    (
      t,
      advance-step cal fuel left a ∙ found,
      from_day_before cal.holidays a (suc left) next t (ground arith) (ground arith) r,
    )

-- A day from Monday to Friday that is not a holiday, where day 0 is a Monday.
abbrev pub is_working_day : List ℕ → ℕ → Bool
is_working_day hs d = ltb (d % 7) 5 && all (λ h. not (nat_eq h d)) hs

-- The working days among the k days behind day d.
abbrev pub working_days : List ℕ → ℕ → ℕ → ℕ
working_days hs d zero = 0
working_days hs d (suc k) = (if is_working_day hs (d + 1) then 1 else 0) + working_days hs (d + 1) k

-- A time is a number of days behind another at the same time of day, n of them working days, and its own
-- day is a working day when it is not the first.
pub record IsBusinessDaysAfter (hs : List ℕ) (a n : ℕ) (t : Time) : Type 0 where
  pub days : ℕ
  pub reached_at : t ≡ utc_time (a + days * day_ns)
  pub counted : working_days hs (a / day_ns) days ≡ n
  pub ends : (days ≡ 0) ⊎ (is_working_day hs (a / day_ns + days) ≡ true)

no_holiday : (hs : List ℕ) (d : ℕ) → not (contains hs d) ≡ all (λ h. not (nat_eq h d)) hs
no_holiday [] d = refl
no_holiday (h ∷ hs) d = ground (arith, no_holiday hs d)

business-working : (hs : List ℕ) (d : ℕ) → is_business_date hs d ≡ is_working_day hs d
business-working hs d = ground (arith, no_holiday hs d)

business_days-working : (hs : List ℕ) (d k : ℕ) → working_days hs d k ≡ business_days hs d k
business_days-working hs d zero = refl
business_days-working hs d (suc k) =
    rw (sym (business-working hs (d + 1)), business_days-working hs (d + 1) k)

IsCounted-IsBusinessDaysAfter :
    (hs : List ℕ) (a n : ℕ) (t : Time) → IsCounted hs a n t → IsBusinessDaysAfter hs a n t
IsCounted-IsBusinessDaysAfter hs a n t r = record {
  days = r.days;
  reached_at = r.reached_at;
  counted = business_days-working hs (a / day_ns) r.days ∙ r.counted;
  ends = elim r.ends [
    | inl start ↦ inl start
    | inr last ↦ inr (sym (business-working hs (a / day_ns + r.days)) ∙ last)
  ];
}

-- `AddBusinessDays` from a UTC time ends, and gives the n-th business day behind it at the same time of
-- day: n of the days from the next one to the result are working days, from Monday to Friday and no
-- holiday, and the result's own day is one when n is not 0.
pub add_business_days-IsBusinessDaysAfter :
    (cal : Calendar) (a n : ℕ)
    → (t : Time) × (add_business_days (utc_time a) n cal ≡ some t)
      × IsBusinessDaysAfter cal.holidays a n t
unfolding add_business_days
add_business_days-IsBusinessDaysAfter cal a n =
    let (t, found, counted) =
      advance-finds cal (7 * (n + length cal.holidays)) n a (enough cal.holidays (a / day_ns) n) in
    (t, found, IsCounted-IsBusinessDaysAfter cal.holidays a n t counted)
