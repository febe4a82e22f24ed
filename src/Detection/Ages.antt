-- ===== src/Detection/Ages.antt =====
-- Ages and the protected population (protected_population.go).
use vigia.Prelude.{
  ℕ, suc, ◌+◌, ◌-◌, ◌*◌, ◌/◌, ◌≤◌, ◌<◌, ◌≡◌, ap, ◌≢◌, ◌↔◌, ◌⊎◌, some, arith, eq_iff, Bool, false,
  String_comparable, ◌==◌,
}
use native.Mathlib.Decide.{dec_lt}
use vigia.Prelude.Int.{pos}
use vigia.Time.{utc_time, day_ns}
use vigia.Time.Civil.{civil_of, days_before_year, year_of}
use vigia.Time.Calendar.{
  year_of_bounds, year_of_mono, days_before_year_mono, year-civil_of, year_of-pos, date_in_year,
  date-civil_of,
}
use vigia.Detection.{Interaction, Outcome}
use vigia.Detection.ProtectedPopulation
use vigia.Detection.ProtectedPopulation.{anniversary, age_at, of_age}

abbrev year_of_time : ℕ → ℕ
year_of_time n = year_of (n / day_ns)

-- The birthday of a year lies in that year.
anniversary_in_year :
    (b y : ℕ)
    → 1 ≤ y
    → (days_before_year y * day_ns ≤ (anniversary (utc_time b) y).ns)
      × ((anniversary (utc_time b) y).ns < days_before_year (suc y) * day_ns)
unfolding anniversary
anniversary_in_year b y h = omega (arith, date_in_year (b / day_ns) y h)

-- The birthday of the year of birth is the birth.
anniversary-born : (b : ℕ) → (anniversary (utc_time b) (year_of_time b)).ns ≡ b
unfolding anniversary
anniversary-born b = omega (arith, rw year-civil_of at (date-civil_of (b / day_ns)))

in_year :
    (a : ℕ)
    → (days_before_year (year_of_time a) * day_ns ≤ a)
      × (a < days_before_year (suc (year_of_time a)) * day_ns)
in_year a = omega (arith, year_of_bounds (a / day_ns))

-- The birthdays of a party that reached `n` of them at `a`.
abbrev pub HasAge : ℕ → ℕ → ℕ → Type 0
HasAge b a n =
    let birthday = λ (k : ℕ). (anniversary (utc_time b) ((civil_of (b / day_ns)).year + k)).ns in
    (birthday n ≤ a) × (a < birthday (suc n))

HasAge-intro :
    (b a n y : ℕ)
    → year_of_time b + n ≡ y
    → (anniversary (utc_time b) y).ns ≤ a
    → a < (anniversary (utc_time b) (suc y)).ns
    → HasAge b a n
HasAge-intro b a n y e low high =
    rw year-civil_of
      (rw e low, let next : year_of_time b + suc n ≡ suc y = omega arith in rw next high)

later_year :
    (b a : ℕ)
    → b ≤ a
    → a < (anniversary (utc_time b) (year_of_time a)).ns
    → year_of_time b + 1 ≤ year_of_time a
later_year b a h early = ground (arith, year_of_mono (b / day_ns) (a / day_ns), anniversary-born b)

-- The birthday of the current year is still to come, and that of the year before is past.
before_birthday :
    (b a m : ℕ)
    → year_of_time b ≤ m
    → suc m ≡ year_of_time a
    → a < (anniversary (utc_time b) (year_of_time a)).ns
    → HasAge b a (m - year_of_time b)
before_birthday b a m born e early =
    HasAge-intro b a _ m (omega arith)
      (omega (
        arith,
        rw (← e) at (in_year a),
        anniversary_in_year b m (omega (arith, year_of-pos (b / day_ns))),
      ))
      (rw e early)

after_birthday :
    (b a : ℕ)
    → b ≤ a
    → (anniversary (utc_time b) (year_of_time a)).ns ≤ a
    → HasAge b a (year_of_time a - year_of_time b)
after_birthday b a h late =
    HasAge-intro b a _ (year_of_time a) (omega (arith, year_of_mono (b / day_ns) (a / day_ns))) late
      (omega (arith, in_year a, anniversary_in_year b (suc (year_of_time a))))

age_at_early :
    (b a : ℕ)
    → b ≤ a
    → a < (anniversary (utc_time b) (year_of_time a)).ns
    → age_at (utc_time b) (utc_time a) ≡ pos (year_of_time a - 1 - year_of_time b)
unfolding age_at
age_at_early b a h early = simp year-civil_of (ground (arith, later_year b a h early))

age_at_late :
    (b a : ℕ)
    → b ≤ a
    → (anniversary (utc_time b) (year_of_time a)).ns ≤ a
    → age_at (utc_time b) (utc_time a) ≡ pos (year_of_time a - year_of_time b)
unfolding age_at
age_at_late b a h late = simp year-civil_of (ground (arith, year_of_mono (b / day_ns) (a / day_ns)))

-- For UTC times, the age of a party that is born by the instant is the number of birthdays that it
-- reached: that birthday is not after the instant, and the next one is.
pub age_at-HasAge :
    (b a : ℕ) → b ≤ a → (n : ℕ) × (age_at (utc_time b) (utc_time a) ≡ pos n) × HasAge b a n
age_at-HasAge b a h = elim (dec_lt a (anniversary (utc_time b) (year_of_time a)).ns) [
  | yes early ↦ (
    year_of_time a - 1 - year_of_time b,
    age_at_early b a h early,
    before_birthday b a (year_of_time a - 1) (omega (arith, later_year b a h early))
        (omega (arith, later_year b a h early)) early,
  )
  | no late ↦ (
    year_of_time a - year_of_time b,
    age_at_late b a h (omega arith),
    after_birthday b a h (omega arith),
  )
]

birthday_mono :
    (b y z : ℕ) → 1 ≤ y → y < z → (anniversary (utc_time b) y).ns ≤ (anniversary (utc_time b) z).ns
birthday_mono b y z pos_y h = omega (
  arith,
  anniversary_in_year b y pos_y,
  anniversary_in_year b z (omega arith),
  days_before_year_mono (suc y) z h,
)

-- The k-th birthday of a party born at `b`.
abbrev pub birthday : ℕ → ℕ → ℕ
birthday b k = (anniversary (utc_time b) ((civil_of (b / day_ns)).year + k)).ns

birthday-year : (b k : ℕ) → birthday b k ≡ (anniversary (utc_time b) (year_of_time b + k)).ns
birthday-year b k =
    ap (λ (y : ℕ). (anniversary (utc_time b) (y + k)).ns) (year-civil_of (b / day_ns))

birthday_le : (b j k : ℕ) → j ≤ k → birthday b j ≤ birthday b k
birthday_le b j k h = ground (
  arith,
  birthday-year b j,
  birthday-year b k,
  year_of-pos (b / day_ns),
  birthday_mono b (year_of_time b + j) (year_of_time b + k),
)

-- An age below a limit is a birthday still to come.
HasAge-lt_iff : (b a n k : ℕ) → HasAge b a n → (n < k) ↔ (a < birthday b k)
HasAge-lt_iff b a n k (low, high) =
    (λ h. omega (arith, birthday_le b (suc n) k h), λ h. ground (arith, birthday_le b k n))

of_age-block_iff :
    (debtor : Bool) (n : ℕ)
    → ((of_age debtor (pos n)).outcome ≡ Outcome.block) ↔ ((n < 18) ⊎ ((60 ≤ n) × (debtor ≡ false)))
unfolding of_age
of_age-block_iff debtor n = ground arith

-- With UTC times and a date of birth on file that is not behind the contact, a contact is blocked exactly when it happens
-- before the party's 18th birthday, or from its 60th birthday on and the party is not the debtor.
pub protected-block_iff :
    (i : Interaction) (b a : ℕ)
    → b ≤ a
    → i.occurred_at ≡ utc_time a
    → i.contacted_party_dob ≡ some (utc_time b)
    → ((ProtectedPopulation.evaluate i).outcome ≡ Outcome.block)
      ↔ ((a < birthday b 18) ⊎ ((birthday b 60 ≤ a) × (i.contact_party_relationship ≢ "debtor")))
unfolding ProtectedPopulation.evaluate
protected-block_iff i b a h at dob =
    let (n, age, counted) = age_at-HasAge b a h in
    rw (at, dob, age)
      (ground (
        arith,
        of_age-block_iff (i.contact_party_relationship == "debtor") n,
        HasAge-lt_iff b a n 18 counted,
        HasAge-lt_iff b a n 60 counted,
        eq_iff i.contact_party_relationship "debtor",
      ))
