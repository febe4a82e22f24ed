-- ===== src/Reports.antt =====
-- internal/orchestrator/report.go: the months that are reported, and the job that asks for the reports.
pub mod Months
pub mod Runs
use vigia.Prelude.{
  ℕ, ◌+◌, ◌-◌, ◌*◌, ◌/◌, Bool, not, ◌&&◌, ◌||◌, List, [], ◌∷◌, ◌++◌, Option, none, some, for_each,
  is_empty, ltb, nat_eq, if◌then◌else◌,
}
use vigia.Time.{Time, utc_time, day_ns, utc_micros}
use vigia.Time.Civil.{civil_of, date}
use vigia.Ledger.Encoding.{Text}

pub record RedecoReportPeriod : Type 0 where
  pub year : ℕ
  pub month : ℕ

-- `NewRedecoReportPeriod`; a year or a month that is negative is given as 0, which is refused too.
unfoldable pub new_redeco_report_period : ℕ → ℕ → Option RedecoReportPeriod
new_redeco_report_period year month =
    if nat_eq year 0
    then none
    else if ltb month 1 || ltb 12 month
    then none
    else some (record { year = year; month = month })

-- The day of `time.Date(y, m, d, …)`, for months 0 to 13; month 0 is the December before.
abbrev pub date_of_month : ℕ → ℕ → ℕ → ℕ
date_of_month y m d = if nat_eq m 0 then date (y - 1) 12 d else date y m d

-- `PreviousMonth`, for a time behind January of year 1
unfoldable pub previous_month : Time → RedecoReportPeriod
previous_month now =
    let today = civil_of (now.ns / day_ns) in
    let first = civil_of (date today.year today.month 1) in
    let previous = civil_of (date_of_month first.year (first.month - 1) first.day) in
    record { year = previous.year; month = previous.month }

-- `Bounds`
unfoldable pub bounds : RedecoReportPeriod → Time × Time
bounds p =
    let start = date p.year p.month 1 in
    let first = civil_of start in
    (utc_time (start * day_ns), utc_time (date first.year (first.month + 1) first.day * day_ns))

pub record RedecoMonthlyReportArgs : Type 0 where
  pub tenant_id : Text
  pub year : ℕ
  pub month : ℕ

unfoldable pub report_period_from_args : RedecoMonthlyReportArgs → Time → Option RedecoReportPeriod
report_period_from_args args now =
    if nat_eq args.year 0 && nat_eq args.month 0
    then some (previous_month now)
    else new_redeco_report_period args.year args.month

-- `RedecoMonthlyReportStore`: the tenants, none on an error, and whether a report is generated.
pub record RedecoMonthlyReportStore : Type 0 where
  pub list_tenants : Option (List Text)
  pub generate : Text → RedecoReportPeriod → Bool

-- The reports that were asked for, in order, and the tenants whose report failed.
pub record Reported : Type 0 where
  pub asked : List (Text × RedecoReportPeriod)
  pub failures : List Text

abbrev pub report_tenant :
    RedecoMonthlyReportStore → RedecoReportPeriod → Reported → Text → Reported
report_tenant store period done tenant = record {
  asked = done.asked ++ (tenant, period) ∷ [];
  failures = if store.generate tenant period then done.failures else done.failures ++ tenant ∷ [];
}

abbrev pub nothing_reported : Reported
nothing_reported = record { asked = []; failures = [] }

abbrev pub report_tenants :
    RedecoMonthlyReportStore → RedecoReportPeriod → Option (List Text) → Option Reported
report_tenants store period none = none
report_tenants store period (some tenants) =
    some (for_each (report_tenant store period) nothing_reported tenants)

abbrev pub report_period :
    RedecoMonthlyReportStore → RedecoMonthlyReportArgs → Option RedecoReportPeriod → Option Reported
report_period store args none = none
report_period store args (some period) =
    if not (is_empty args.tenant_id)
    then some (report_tenant store period nothing_reported args.tenant_id)
    else report_tenants store period store.list_tenants

-- `RedecoMonthlyReportWorker.Work` at what the clock says; `none` is an error before any report.
unfoldable pub work : RedecoMonthlyReportStore → Time → RedecoMonthlyReportArgs → Option Reported
work store clock args = report_period store args (report_period_from_args args (utc_micros clock))
