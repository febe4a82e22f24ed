-- ===== src/Time.antt =====
-- Go's `time.Time`, as far as the program reads it. An instant is the number of nanoseconds since
-- 1 January of year 1, UTC, which is Go's zero time; earlier instants are not modelled.
-- A location is given by its two maps, which the zone database outside the repository fixes.
pub mod Civil
pub mod Calendar
use vigia.Prelude.{ℕ, ◌+◌, ◌-◌, ◌*◌, ◌/◌, ◌%◌, ◌≡◌, Bool, String, Option, ltb, nat_eq}

pub record Location : Type 0 where
  -- The wall clock that is shown at an instant, as nanoseconds since 1 January of year 1.
  pub wall : ℕ → ℕ
  -- The instant that `time.Date` gives for a wall clock.
  pub instant : ℕ → ℕ

-- `time.LoadLocation`: `none` is its error.
abbrev pub Zones : Type 0
Zones = String → Option Location

pub record Time : Type 0 where
  pub ns : ℕ
  pub loc : Location

abbrev pub utc : Location
utc = record { wall = λ t. t; instant = λ w. w }

abbrev pub utc_time : ℕ → Time
utc_time n = record { ns = n; loc = utc }

abbrev pub hour_ns : ℕ
hour_ns = 3600000000000

abbrev pub day_ns : ℕ
day_ns = 86400000000000

abbrev pub micro_ns : ℕ
micro_ns = 1000

abbrev pub is_zero : Time → Bool
is_zero t = nat_eq t.ns 0

abbrev pub before : Time → Time → Bool
before s t = ltb s.ns t.ns

-- `t.In(loc)`, `t.UTC()`
abbrev pub in_loc : Time → Location → Time
in_loc t loc = record t { loc = loc }

-- `t.Add(d)` with a duration that is not negative
abbrev pub add : Time → ℕ → Time
add t d = record t { ns = t.ns + d }

-- `t.UTC().Truncate(time.Microsecond)`
abbrev pub utc_micros : Time → Time
utc_micros t = record { ns = t.ns / micro_ns * micro_ns; loc = utc }

-- The day of the wall clock, counted from 1 January of year 1, and the time of day.
abbrev pub wall_day : Time → ℕ
wall_day t = t.loc.wall t.ns / day_ns

abbrev pub time_of_day : Time → ℕ
time_of_day t = t.loc.wall t.ns % day_ns

-- `time.Date` at midnight of day `d` and a time of day.
abbrev pub date_at : Location → ℕ → ℕ → Time
date_at loc d clock = record { ns = loc.instant (d * day_ns + clock); loc = loc }

-- `time.Duration` may be negative.
pub data Duration : Type 0 where
  forward : ℕ → Duration
  backward : ℕ → Duration

abbrev pub add_duration : Time → Duration → Time
add_duration t (forward d) = record t { ns = t.ns + d }
add_duration t (backward d) = record t { ns = t.ns - d }
