-- ===== src/Samples.antt =====
-- Concrete inputs for the theorems of the other modules, and tests of the definitions.
mod Detection
mod Outbound
pub mod Ledger
pub mod Packages
mod Evaluation
pub mod Complaints
mod Jobs
mod Calendar
mod Harness
mod Reports
use vigia.Prelude.{ℕ, ◌*◌, ◌+◌, String, Option, some, none, [], ◌∷◌, ◌≢◌, arith, eq_iff}
use vigia.Time.{Time, Location, Zones, utc, utc_time, day_ns, hour_ns}
use vigia.Time.Civil.{date}
use vigia.Detection.{Interaction, Window}

abbrev pub zone : String
zone = "America/Mexico_City"

abbrev pub all_utc : Zones
all_utc name = some utc

-- 1 March 2024, 10:00 UTC, in nanoseconds since year 1
abbrev pub morning_ns : ℕ
morning_ns = 738945 * day_ns + 10 * hour_ns

abbrev pub morning : Time
morning = utc_time morning_ns

abbrev pub working_hours : Window
working_hours = record { start_hour = 8; end_hour = 21 }

abbrev pub call : Interaction
call = record {
  occurred_at = morning;
  debtor_timezone = zone;
  channel = "sms";
  contact_party_relationship = "debtor";
  contacted_party_dob = none;
  authorized_channels = "sms" ∷ [];
  payment_recipient = "creditor";
  disclosure_provided = none;
}

pub zone_named : zone ≢ ""
zone_named = ground (arith, eq_iff zone "")
