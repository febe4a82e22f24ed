-- ===== src/Samples/Reports.antt =====
-- A run of the report job for two tenants, of which one fails.
use vigia.Prelude.{◌≤◌, ◌<◌, ◌≡◌, refl, List, [], ◌∷◌, some, map, arith, ◌==◌}
use vigia.Time.{utc_micros}
use vigia.Ledger.Encoding.{Text, codes}
use vigia.Ledger.Chain.{Text_comparable}
use vigia.Reports.{RedecoMonthlyReportStore, Reported, previous_month, bounds, work}
use vigia.Reports.Months.{month_at}
use vigia.Reports.Runs.{for_all, work-previous_month}
use vigia.Samples.{morning}

abbrev two_tenants : List Text
two_tenants = codes "t1" ∷ codes "t2" ∷ []

abbrev one_fails : RedecoMonthlyReportStore
one_fails = record {
  list_tenants = some two_tenants;
  generate = λ tenant period. tenant == codes "t1";
}

work-previous_month_example :
    ((r : Reported) × (work one_fails morning for_all ≡ some r)
      × (r.asked ≡ map (λ tenant. (tenant, previous_month (utc_micros morning))) two_tenants))
    × ((bounds (previous_month (utc_micros morning))).1
        ≡ (bounds (month_at (utc_micros morning).ns)).0)
    × ((bounds (month_at (utc_micros morning).ns)).0.ns ≤ (utc_micros morning).ns)
    × ((utc_micros morning).ns < (bounds (month_at (utc_micros morning).ns)).1.ns)
work-previous_month_example = work-previous_month one_fails morning two_tenants refl (ground arith)
