-- ===== src/Detection/Hours.antt =====
-- The contact window against the debtor's wall clock (contact_hours.go).
use vigia.Prelude.{
  ℕ, ◌+◌, ◌*◌, ◌≤◌, ◌<◌, ◌≡◌, ◌≢◌, ◌↔◌, ◌⊎◌, some, none, arith, eq_iff, String_comparable,
}
use vigia.Time.{Time, Location, Zones, hour_ns, day_ns, wall_day, time_of_day, in_loc}
use vigia.Detection.{Interaction, Window, Outcome}
use vigia.Detection.ContactHours
use vigia.Detection.ContactHours.{in_zone}

-- How far the wall clock of `loc` at `t` has moved ahead of the time that passed since midnight.
abbrev pub RunsAhead : Location → Time → ℕ → Type 0
RunsAhead loc t gap =
    loc.instant (wall_day (in_loc t loc) * day_ns + 0) + time_of_day (in_loc t loc) ≡ t.ns + gap

in_zone-pass_iff :
    (w : Window) (t : Time) (loc : Location) (gap : ℕ)
    → RunsAhead loc t gap
    → ((in_zone w t loc).outcome ≡ Outcome.pass) ↔ (
        (w.start_hour * hour_ns + gap ≤ time_of_day (in_loc t loc))
        × (time_of_day (in_loc t loc) < w.end_hour * hour_ns + gap))
unfolding in_zone
in_zone-pass_iff w t loc gap h = ground arith

-- In a known zone, on a day without a change of the clock so far, contact passes exactly when the wall
-- clock of the debtor's zone shows a time from the window's first hour to before its last, whether or
-- not the day is a business day.
pub evaluate-pass_iff :
    (zones : Zones) (w : Window) (i : Interaction) (loc : Location)
    → i.debtor_timezone ≢ ""
    → zones i.debtor_timezone ≡ some loc
    → RunsAhead loc i.occurred_at 0
    → ((ContactHours.evaluate zones w i).outcome ≡ Outcome.pass) ↔ (
        (w.start_hour * hour_ns ≤ time_of_day (in_loc i.occurred_at loc))
        × (time_of_day (in_loc i.occurred_at loc) < w.end_hour * hour_ns))
unfolding ContactHours.evaluate
evaluate-pass_iff zones w i loc named found steady =
    ground (arith, eq_iff i.debtor_timezone "", in_zone-pass_iff w i.occurred_at loc 0)

-- In a known zone whose clock went forward by `gap` since midnight, and for a window of at least
-- `gap`, contact still passes during the first `gap` of wall time behind the window's end, and is
-- blocked during the first `gap` of the window.
pub evaluate_shifted :
    (zones : Zones) (w : Window) (i : Interaction) (loc : Location) (gap : ℕ)
    → i.debtor_timezone ≢ ""
    → zones i.debtor_timezone ≡ some loc
    → RunsAhead loc i.occurred_at gap
    → w.start_hour * hour_ns + gap ≤ w.end_hour * hour_ns
    → ((w.end_hour * hour_ns ≤ time_of_day (in_loc i.occurred_at loc))
          × (time_of_day (in_loc i.occurred_at loc) < w.end_hour * hour_ns + gap)
        → (ContactHours.evaluate zones w i).outcome ≡ Outcome.pass)
      × ((w.start_hour * hour_ns ≤ time_of_day (in_loc i.occurred_at loc))
            × (time_of_day (in_loc i.occurred_at loc) < w.start_hour * hour_ns + gap)
          → (ContactHours.evaluate zones w i).outcome ≡ Outcome.block)
unfolding ContactHours.evaluate in_zone
evaluate_shifted zones w i loc gap named found ahead wide =
    ground (arith, eq_iff i.debtor_timezone "")

-- No outcome but pass and block, and a zone that is missing or unknown blocks.
pub evaluate-fails_closed :
    (zones : Zones) (w : Window) (i : Interaction)
    → (((ContactHours.evaluate zones w i).outcome ≡ Outcome.pass)
        ⊎ ((ContactHours.evaluate zones w i).outcome ≡ Outcome.block))
      × ((i.debtor_timezone ≡ "") ⊎ (zones i.debtor_timezone ≡ none)
          → (ContactHours.evaluate zones w i).outcome ≡ Outcome.block)
unfolding ContactHours.evaluate in_zone
evaluate-fails_closed zones w i = ground (arith, eq_iff i.debtor_timezone "")
