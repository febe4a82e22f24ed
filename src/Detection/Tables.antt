-- ===== src/Detection/Tables.antt =====
-- The table detectors against their rules.
use mathlib.Core.List.{Memᴰ}
use vigia.Prelude.{
  ◌≡◌, ◌≢◌, ◌↔◌, ◌⊎◌, inl, inr, String, List, [], ◌∷◌, true, arith, eq_iff, contains,
  String_comparable, sym, ◌==◌, Bool-cases,
}
use vigia.Detection.{Interaction, Outcome}
use vigia.Detection.ThirdParty
use vigia.Detection.AuthorizedChannel
use vigia.Detection.PaymentRouting

not_debtor : ◌≢◌ {A = String} "debtor" ""
not_debtor = ground (arith, eq_iff "debtor" "")

not_authorized : ◌≢◌ {A = String} "authorized" ""
not_authorized = ground (arith, eq_iff "authorized" "")

not_creditor : ◌≢◌ {A = String} "creditor" ""
not_creditor = ground (arith, eq_iff "creditor" "")

-- Only the debtor and an authorized contact pass; an unknown relationship does not.
pub third_party-pass_iff :
    (i : Interaction)
    → ((ThirdParty.evaluate i).outcome ≡ Outcome.pass)
      ↔ ((i.contact_party_relationship ≡ "debtor") ⊎ (i.contact_party_relationship ≡ "authorized"))
unfolding ThirdParty.evaluate
third_party-pass_iff i = ground (
  arith,
  not_debtor,
  not_authorized,
  eq_iff i.contact_party_relationship "",
  eq_iff i.contact_party_relationship "debtor",
  eq_iff i.contact_party_relationship "authorized",
)

-- Payment passes only to the creditor.
pub payment-pass_iff :
    (i : Interaction)
    → ((PaymentRouting.evaluate i).outcome ≡ Outcome.pass) ↔ (i.payment_recipient ≡ "creditor")
unfolding PaymentRouting.evaluate
payment-pass_iff i =
    ground
      (arith, not_creditor, eq_iff i.payment_recipient "", eq_iff i.payment_recipient "creditor")

contains-mem : (xs : List String) (s : String) → contains xs s ≡ true → Memᴰ s xs
contains-mem [] s h = cc
contains-mem (x ∷ xs) s h = elim (Bool-cases (x == s)) [
  | inl e ↦ Memᴰ.head (sym ((eq_iff x s).0 e))
  | inr n ↦ Memᴰ.tail (contains-mem xs s (ground arith))
]

mem-contains : (xs : List String) {s : String} → Memᴰ s xs → contains xs s ≡ true
mem-contains [] m = elim m [ ]
mem-contains (x ∷ xs) {s} (Memᴰ.head e) = ground (arith, eq_iff x s, sym e)
mem-contains (x ∷ xs) {s} (Memᴰ.tail m) = ground (arith, mem-contains xs m)

-- The channel passes exactly when it stands in the debtor's list.
pub channel-pass_iff :
    (i : Interaction)
    → ((AuthorizedChannel.evaluate i).outcome ≡ Outcome.pass) ↔ Memᴰ i.channel i.authorized_channels
unfolding AuthorizedChannel.evaluate
channel-pass_iff i = (
  λ h. contains-mem i.authorized_channels i.channel (ground arith),
  λ m. ground (arith, mem-contains i.authorized_channels m),
)

-- These detectors have no third outcome.
pub third_party_total :
    (i : Interaction)
    → ((ThirdParty.evaluate i).outcome ≡ Outcome.pass)
      ⊎ ((ThirdParty.evaluate i).outcome ≡ Outcome.block)
unfolding ThirdParty.evaluate
third_party_total i = ground arith

pub channel_total :
    (i : Interaction)
    → ((AuthorizedChannel.evaluate i).outcome ≡ Outcome.pass)
      ⊎ ((AuthorizedChannel.evaluate i).outcome ≡ Outcome.block)
unfolding AuthorizedChannel.evaluate
channel_total i = ground arith

pub payment_total :
    (i : Interaction)
    → ((PaymentRouting.evaluate i).outcome ≡ Outcome.pass)
      ⊎ ((PaymentRouting.evaluate i).outcome ≡ Outcome.block)
unfolding PaymentRouting.evaluate
payment_total i = ground arith
