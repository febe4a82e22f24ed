-- ===== src/Calendar.antt =====
-- internal/orchestrator/calendar.go: business days. A civil.Date is kept as the number of its day,
-- counted from 1 January of year 1, which is a Monday.
pub mod Counting
use vigia.Prelude.{
  ℕ, zero, suc, ◌+◌, ◌*◌, ◌%◌, Bool, true, false, not, ◌&&◌, ◌||◌, List, [], ◌∷◌, Option, none,
  some, length, contains, nat_eq, ◌==◌, ℕ_comparable, if◌then◌else◌,
}
use vigia.Ledger.Encoding.{Text}
use vigia.Ledger.Chain.{Text_comparable}
use vigia.Time.{Time, wall_day, time_of_day, date_at}

pub record HolidayRow : Type 0 where
  pub version : Text
  pub date : ℕ

pub record Calendar : Type 0 where
  pub version : Text
  pub holidays : List ℕ

unfoldable pub dates_of : Text → List HolidayRow → List ℕ
dates_of version [] = []
dates_of version (row ∷ rows) =
    let rest = dates_of version rows in if row.version == version then row.date ∷ rest else rest

unfoldable pub load_calendar : Text → List HolidayRow → Calendar
load_calendar version rows = record { version = version; holidays = dates_of version rows }

-- Monday is 0, Saturday 5 and Sunday 6.
abbrev pub is_weekend : ℕ → Bool
is_weekend day = nat_eq (day % 7) 5 || nat_eq (day % 7) 6

abbrev pub is_business_date : List ℕ → ℕ → Bool
is_business_date holidays day = not (is_weekend day) && not (contains holidays day)

abbrev pub is_business_day : Time → Calendar → Bool
is_business_day t cal = is_business_date cal.holidays (wall_day t)

-- `t.AddDate(0, 0, 1)`
abbrev pub next_day : Time → Time
next_day t = date_at t.loc (wall_day t + 1) (time_of_day t)

-- The loop, on fuel; `none` is out of fuel.
unfoldable pub advance : Calendar → ℕ → ℕ → Time → Option Time
advance cal fuel zero current = some current
advance cal zero (suc left) current = none
advance cal (suc fuel) (suc left) current =
    let next = next_day current in
    advance cal fuel (if is_business_day next cal then left else suc left) next

-- `AddBusinessDays`, for a number of days that is not negative
unfoldable pub add_business_days : Time → ℕ → Calendar → Option Time
add_business_days from n cal = advance cal (7 * (n + length cal.holidays)) n from
