-- ===== src/Detection/ProtectedPopulation.antt =====
-- internal/detection/protected_population.go
use vigia.Prelude.{ℕ, ◌+◌, Bool, Option, none, some, not, ◌==◌, String_comparable, if◌then◌else◌}
use vigia.Prelude.Int.{ℤ, pos, sub_ℕ, ltb_ℤ}
use vigia.Time.{Time, before, date_at, wall_day, time_of_day}
use vigia.Time.Civil.{civil_of, date}
use vigia.Detection.{Detector, Outcome, Rationale, Result}

abbrev pub legal_majority_age : ℤ
legal_majority_age = pos 18

abbrev pub elderly_age : ℤ
elderly_age = pos 60

-- The birthday in a year: `time.Date(year, dob.Month(), dob.Day(), …, dob.Location())`.
unfoldable pub anniversary : Time → ℕ → Time
anniversary dob year =
    let born = civil_of (wall_day dob) in
    date_at dob.loc (date year born.month born.day) (time_of_day dob)

unfoldable pub age_at : Time → Time → ℤ
age_at dob instant =
    let year = (civil_of (wall_day instant)).year in
    let born = (civil_of (wall_day dob)).year in
    if before instant (anniversary dob year) then sub_ℕ year (born + 1) else sub_ℕ year born

unfoldable pub of_age : Bool → ℤ → Result
of_age is_debtor age =
    if ltb_ℤ age legal_majority_age
    then record { outcome = Outcome.block; rationale = Rationale.minor age }
    else if not (ltb_ℤ age elderly_age)
    then if is_debtor
      then record { outcome = Outcome.pass; rationale = Rationale.elderly_debtor age }
      else record { outcome = Outcome.block; rationale = Rationale.elderly age }
    else record { outcome = Outcome.pass; rationale = Rationale.adult age }

abbrev of_dob : Bool → Time → Option Time → Result
of_dob is_debtor at none =
    if is_debtor
    then record { outcome = Outcome.pass; rationale = Rationale.dob_missing_debtor }
    else record { outcome = Outcome.block; rationale = Rationale.dob_missing }
of_dob is_debtor at (some dob) = of_age is_debtor (age_at dob at)

unfoldable pub evaluate : Detector
evaluate i = of_dob (i.contact_party_relationship == "debtor") i.occurred_at i.contacted_party_dob
