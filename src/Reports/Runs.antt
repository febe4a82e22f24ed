-- ===== src/Reports/Runs.antt =====
-- What a run of the report job asks for (report.go, `RedecoMonthlyReportWorker.Work`).
use vigia.Prelude.{
  ◌/◌, ◌≤◌, ◌<◌, ◌≡◌, sym, ap, ◌∙◌, List, [], ◌∷◌, ◌++◌, some, map, for_each, append_nil,
  append_assoc,
}
use vigia.Time.{Time, utc_micros, day_ns}
use vigia.Ledger.Encoding.{Text}
use vigia.Reports.{
  RedecoReportPeriod, RedecoMonthlyReportArgs, RedecoMonthlyReportStore, Reported, previous_month,
  bounds, report_tenant, report_tenants, nothing_reported, report_period_from_args, work,
}
use vigia.Reports.Months.{month_at, previous_month-bounds}

module _ (store : RedecoMonthlyReportStore) (period : RedecoReportPeriod) where
  tenants-asked :
      (done : Reported) (tenants : List Text)
      → (for_each (report_tenant store period) done tenants).asked
        ≡ done.asked ++ map (λ tenant. (tenant, period)) tenants
  tenants-asked done [] = sym (append_nil done.asked)
  tenants-asked done (tenant ∷ tenants) =
      tenants-asked (report_tenant store period done tenant) tenants
      ∙ append_assoc done.asked ((tenant, period) ∷ []) _

-- Arguments that name no tenant and no month.
abbrev pub for_all : RedecoMonthlyReportArgs
for_all = record { tenant_id = []; year = 0; month = 0 }

-- A run for no tenant and no month, behind January of year 1, asks once for the report of each listed
-- tenant, whatever fails, and for one period: the month that ends where the month of the clock starts,
-- not behind the clock, while the month of the clock ends behind it.
pub work-previous_month :
    (store : RedecoMonthlyReportStore) (clock : Time) (tenants : List Text)
    → store.list_tenants ≡ some tenants
    → 31 ≤ (utc_micros clock).ns / day_ns
    → let now = (utc_micros clock).ns in
      let p = previous_month (utc_micros clock) in
      ((r : Reported) × (work store clock for_all ≡ some r)
        × (r.asked ≡ map (λ tenant. (tenant, p)) tenants))
      × ((bounds p).1 ≡ (bounds (month_at now)).0)
      × ((bounds (month_at now)).0.ns ≤ now)
      × (now < (bounds (month_at now)).1.ns)
unfolding work report_period_from_args
work-previous_month store clock tenants listed late =
    let p = previous_month (utc_micros clock) in
    let (ends, started, ending) = previous_month-bounds ((utc_micros clock).ns) late in
    (
      (_, ap (report_tenants store p) listed, tenants-asked store p nothing_reported tenants),
      ends,
      started,
      ending,
    )
