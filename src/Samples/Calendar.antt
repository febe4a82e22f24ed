-- ===== src/Samples/Calendar.antt =====
-- Three business days from Friday 1 March 2024, with Monday 18 and Tuesday 5 March as holidays.
use vigia.Prelude.{◌≡◌, refl, [], ◌∷◌, some}
use vigia.Time.{Time, utc_time}
use vigia.Ledger.Encoding.{codes}
use vigia.Ledger.Chain.{text_equal}
use vigia.Calendar.{Calendar, load_calendar, dates_of, add_business_days}
use vigia.Calendar.Counting.{IsBusinessDaysAfter, add_business_days-IsBusinessDaysAfter}
use vigia.Samples.{morning_ns}

abbrev march : Calendar
march = record { version = codes "2024"; holidays = 738962 ∷ 738949 ∷ [] }

march_loads :
    load_calendar (codes "2024") (
      record { version = codes "2024"; date = 738962 }
      ∷ record { version = codes "2023"; date = 738950 }
      ∷ record { version = codes "2024"; date = 738949 }
      ∷ [])
    ≡ march
unfolding load_calendar dates_of text_equal
march_loads = refl

add_business_days-IsBusinessDaysAfter_example :
    (t : Time) × (add_business_days (utc_time morning_ns) 3 march ≡ some t)
    × IsBusinessDaysAfter march.holidays morning_ns 3 t
add_business_days-IsBusinessDaysAfter_example =
    add_business_days-IsBusinessDaysAfter march morning_ns 3
