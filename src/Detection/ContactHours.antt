-- ===== src/Detection/ContactHours.antt =====
-- internal/detection/contact_hours.go
use vigia.Prelude.{◌*◌, Option, none, some, not, ◌==◌, String_comparable, if◌then◌else◌}
use vigia.Time.{Time, Location, Zones, hour_ns, before, in_loc, add, wall_day, date_at}
use vigia.Detection.{Interaction, Window, Outcome, Rationale, Result}

-- The part behind `time.LoadLocation`.
unfoldable pub in_zone : Window → Time → Location → Result
in_zone w at loc =
    let local : Time = in_loc at loc in
    let start_of_day : Time = date_at loc (wall_day local) 0 in
    let window_start : Time = add start_of_day (w.start_hour * hour_ns) in
    let window_end : Time = add start_of_day (w.end_hour * hour_ns) in
    if before local window_start
    then record { outcome = Outcome.block; rationale = Rationale.before_window local w }
    else if not (before local window_end)
    then record { outcome = Outcome.block; rationale = Rationale.after_window local w }
    else record { outcome = Outcome.pass; rationale = Rationale.in_window local w }

abbrev in_found_zone : Window → Interaction → Option Location → Result
in_found_zone w i none = record {
  outcome = Outcome.block;
  rationale = Rationale.timezone_invalid i.debtor_timezone;
}
in_found_zone w i (some loc) = in_zone w i.occurred_at loc

-- `ContactHoursDetector{Window: w}.Evaluate`, over the zone database.
unfoldable pub evaluate : Zones → Window → Interaction → Result
evaluate zones w i =
    if i.debtor_timezone == ""
    then record { outcome = Outcome.block; rationale = Rationale.timezone_missing }
    else in_found_zone w i (zones i.debtor_timezone)
