-- ===== src/Samples/Detection.antt =====
-- The detectors at concrete interactions.
use mathlib.Core.List.{Memᴰ}
use vigia.Prelude.{ℕ, ◌+◌, ◌*◌, ◌/◌, ◌≤◌, ◌<◌, ◌≡◌, ◌≢◌, ◌↔◌, ◌⊎◌, refl, some, arith}
use vigia.Prelude.Int.{pos}
use vigia.Time.{Location, Zones, utc, utc_time, day_ns, hour_ns, time_of_day, in_loc}
use vigia.Detection.{Interaction, Outcome}
use vigia.Detection.ContactHours
use vigia.Detection.ThirdParty
use vigia.Detection.AuthorizedChannel
use vigia.Detection.PaymentRouting
use vigia.Detection.ProtectedPopulation
use vigia.Detection.ProtectedPopulation.{age_at}
use vigia.Detection.Hours.{evaluate-pass_iff, evaluate_shifted}
use vigia.Detection.Tables.{third_party-pass_iff, payment-pass_iff, channel-pass_iff}
use vigia.Detection.Ages.{protected-block_iff, age_at-HasAge, HasAge, birthday}
use vigia.Samples.{all_utc, morning_ns, morning, working_hours, call, zone_named}

evaluate-pass_iff_example :
    ((ContactHours.evaluate all_utc working_hours call).outcome ≡ Outcome.pass)
    ↔ ((8 * hour_ns ≤ time_of_day morning) × (time_of_day morning < 21 * hour_ns))
evaluate-pass_iff_example = evaluate-pass_iff all_utc working_hours call utc zone_named refl refl

-- A zone whose clock went one hour forward before dawn
abbrev summer : Location
summer = record { wall = λ t. t + hour_ns; instant = λ w. w }

abbrev summer_zones : Zones
summer_zones name = some summer

-- 20:30 by the time that passed, 21:30 on the wall
abbrev evening : Interaction
evening = record call { occurred_at = utc_time (738945 * day_ns + 41 * hour_ns / 2) }

evaluate_shifted_example :
    ((21 * hour_ns ≤ time_of_day (in_loc evening.occurred_at summer))
        × (time_of_day (in_loc evening.occurred_at summer) < 21 * hour_ns + hour_ns)
      → (ContactHours.evaluate summer_zones working_hours evening).outcome ≡ Outcome.pass)
    × ((8 * hour_ns ≤ time_of_day (in_loc evening.occurred_at summer))
          × (time_of_day (in_loc evening.occurred_at summer) < 8 * hour_ns + hour_ns)
        → (ContactHours.evaluate summer_zones working_hours evening).outcome ≡ Outcome.block)
evaluate_shifted_example =
    evaluate_shifted summer_zones working_hours evening summer hour_ns zone_named refl refl
      (omega arith)

third_party-pass_iff_example : ((ThirdParty.evaluate call).outcome ≡ Outcome.pass) ↔ (
    (call.contact_party_relationship ≡ "debtor") ⊎ (call.contact_party_relationship ≡ "authorized"))
third_party-pass_iff_example = third_party-pass_iff call

payment-pass_iff_example :
    ((PaymentRouting.evaluate call).outcome ≡ Outcome.pass) ↔ (call.payment_recipient ≡ "creditor")
payment-pass_iff_example = payment-pass_iff call

channel-pass_iff_example :
    ((AuthorizedChannel.evaluate call).outcome ≡ Outcome.pass)
    ↔ Memᴰ call.channel call.authorized_channels
channel-pass_iff_example = channel-pass_iff call

-- Born on 29 February 2004
abbrev born : ℕ
born = 731639 * day_ns

abbrev birthday_call : Interaction
birthday_call = record call { contacted_party_dob = some (utc_time born) }

age_at-HasAge_example :
    (n : ℕ) × (age_at (utc_time born) morning ≡ pos n) × HasAge born morning_ns n
age_at-HasAge_example = age_at-HasAge born morning_ns (omega arith)

protected-block_iff_example :
    ((ProtectedPopulation.evaluate birthday_call).outcome ≡ Outcome.block) ↔ (
      (morning_ns < birthday born 18)
      ⊎ ((birthday born 60 ≤ morning_ns) × (call.contact_party_relationship ≢ "debtor")))
protected-block_iff_example =
    protected-block_iff birthday_call born morning_ns (omega arith) refl refl
