-- ===== src/Outbound/RulesHold.antt =====
-- When the blocking detectors and the judge allow a proposal (decider.go).
use mathlib.Core.List.{Memᴰ}
use vigia.Prelude.{◌≤◌, ◌≡◌, ◌≢◌, ◌↔◌, ◌⊎◌, String, Option, none, some, arith}
use vigia.Time.{Time}
use vigia.Detection.{Interaction, Outcome, Result}
use vigia.Detection.ContactHours
use vigia.Detection.Hours.{evaluate-fails_closed}
use vigia.Detection.Tables.{
  third_party-pass_iff, third_party_total, channel-pass_iff, channel_total, payment-pass_iff,
  payment_total,
}
use vigia.Judge as Judge
use vigia.Judge.{Judge, half}
use vigia.Outbound.{DecisionOutcome, DecisionRequest, Decision, ResolvedPolicyBundle}
use vigia.Outbound.Engine.{Decider}
use vigia.Outbound.Rules.{
  contact_window, judge_input, blocking_detector_decision, by_verdict, or_next, check_judge,
  check_rules,
}

-- The judge answered, with confidence of at least one half, that the text passes.
abbrev pub Approves : Decider → DecisionRequest → Option Judge → Type 0
Approves d req none = ⊥
Approves d req (some judge) =
    let reply = judge (judge_input d req) in
    (reply.error ≡ none)
    × (half ≤ reply.result.confidence)
    × (reply.result.outcome ≡ Judge.Outcome.pass)

-- The deterministic rules hold of the interaction.
pub record MeetsRules (d : Decider) (i : Interaction) : Type 0 where
  pub in_hours : (ContactHours.evaluate d.zones (contact_window d) i).outcome ≡ Outcome.pass
  pub party :
      (i.contact_party_relationship ≡ "debtor") ⊎ (i.contact_party_relationship ≡ "authorized")
  pub channel : Memᴰ i.channel i.authorized_channels
  pub recipient : i.payment_recipient ≡ "creditor"

check_judge-allow_iff :
    (d : Decider) (req : DecisionRequest) (b : ResolvedPolicyBundle) (judge : Option Judge)
    → ((check_judge d req b judge).outcome ≡ DecisionOutcome.allow) ↔ Approves d req judge
unfolding check_judge by_verdict
check_judge-allow_iff d req b none = ground arith
check_judge-allow_iff d req b (some judge) = ground arith

-- A detector's step allows what its successor allows, unless the detector blocks.
step-allow_iff :
    (req : DecisionRequest) (t : Time) (b : ResolvedPolicyBundle) (r : Result)
    (code reason remediation : String) (next : Decision)
    → ((or_next (blocking_detector_decision req t b r code reason remediation) next).outcome
        ≡ DecisionOutcome.allow)
      ↔ ((r.outcome ≢ Outcome.block) × (next.outcome ≡ DecisionOutcome.allow))
unfolding blocking_detector_decision
step-allow_iff req t b r code reason remediation next = ground arith

pass_of_total :
    {o : Outcome} → (o ≡ Outcome.pass) ⊎ (o ≡ Outcome.block) → o ≢ Outcome.block → o ≡ Outcome.pass
pass_of_total t n = ground arith

pub check_rules-allow :
    (d : Decider) (req : DecisionRequest) (b : ResolvedPolicyBundle) (i : Interaction)
    → (check_rules d req b i).outcome ≡ DecisionOutcome.allow
    → MeetsRules d i × Approves d req d.tone_judge
unfolding check_rules
check_rules-allow d req b i h =
    let (hours, h1) = (step-allow_iff req _ b _ _ _ _ _).0 h in
    let (party, h2) = (step-allow_iff req _ b _ _ _ _ _).0 h1 in
    let (channel, h3) = (step-allow_iff req _ b _ _ _ _ _).0 h2 in
    let (recipient, h4) = (step-allow_iff req _ b _ _ _ _ _).0 h3 in
    (
      record {
        in_hours = pass_of_total (evaluate-fails_closed d.zones (contact_window d) i).0 hours;
        party = (third_party-pass_iff i).0 (pass_of_total (third_party_total i) party);
        channel = (channel-pass_iff i).0 (pass_of_total (channel_total i) channel);
        recipient = (payment-pass_iff i).0 (pass_of_total (payment_total i) recipient);
      },
      (check_judge-allow_iff d req b d.tone_judge).0 h4,
    )

not_block : {o : Outcome} → o ≡ Outcome.pass → o ≢ Outcome.block
not_block p = cc

pub allow-check_rules :
    (d : Decider) (req : DecisionRequest) (b : ResolvedPolicyBundle) (i : Interaction)
    → MeetsRules d i
    → Approves d req d.tone_judge
    → (check_rules d req b i).outcome ≡ DecisionOutcome.allow
unfolding check_rules
allow-check_rules d req b i m a = (step-allow_iff req _ b _ _ _ _ _).1 (
  not_block m.in_hours,
  (step-allow_iff req _ b _ _ _ _ _).1 (
    not_block ((third_party-pass_iff i).1 m.party),
    (step-allow_iff req _ b _ _ _ _ _).1 (
      not_block ((channel-pass_iff i).1 m.channel),
      (step-allow_iff req _ b _ _ _ _ _).1 (
        not_block ((payment-pass_iff i).1 m.recipient),
        (check_judge-allow_iff d req b d.tone_judge).1 a,
      ),
    ),
  ),
)
