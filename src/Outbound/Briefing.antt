-- ===== src/Outbound/Briefing.antt =====
-- What the brief of a preflight says of its campaign (campaign_preflight.go).
use vigia.Prelude.{
  all-All_iff, ◌+◌, ◌≡◌, refl, ◌↔◌, Bool, true, false, not, List, [], ◌∷◌, Option, none, some,
  arith, all, count_if, sum_of, All, length, length-append, is_some, is_empty, for_each,
  if◌then◌else◌,
}
use vigia.Outbound.{Decision, DecisionOutcome}
use vigia.Outbound.Engine.{Decider}
use vigia.Outbound.Decider.{decide}
use vigia.Outbound.Clearance.{IsCleared, decide-allow_iff}
use vigia.Outbound.Recording.{decide_records}
use vigia.Outbound.Campaign.{
  CampaignArtifact, CampaignRecipient, CampaignStep, validate_campaign, request_of,
}
use vigia.Outbound.Preflight.{
  PreflightStatus, PreflightBrief, DecisionEngine, is_allow, finding_from_decision, dry_ref_of,
  with_decision, run_step, run_recipient, start, evaluate_all, run,
}

abbrev pub is_allowed : Option Decision → Bool
is_allowed none = false
is_allowed (some e) = is_allow e.outcome

-- The engine answered with something other than an allow.
abbrev pub is_refused : Option Decision → Bool
is_refused none = false
is_refused (some e) = not (is_allow e.outcome)

module _ (engine : DecisionEngine) (c : CampaignArtifact) where
  abbrev pub pair_allowed : CampaignRecipient → CampaignStep → Bool
  pair_allowed r s = is_allowed (engine (request_of c r s))

  abbrev pub pair_refused : CampaignRecipient → CampaignStep → Bool
  pair_refused r s = is_refused (engine (request_of c r s))

  abbrev pub pair_decided : CampaignRecipient → CampaignStep → Bool
  pair_decided r s = is_some (engine (request_of c r s))

-- What one reply of the engine adds to the brief.
record Adds (brief after : PreflightBrief) (reply : Option Decision) : Type 0 where
  status : after.status ≡ (if is_allowed reply then brief.status else PreflightStatus.failed)
  findings : length after.findings ≡ length brief.findings + (if is_refused reply then 1 else 0)
  refs : length after.event_refs ≡ length brief.event_refs + (if is_some reply then 1 else 0)

with_decision-Adds :
    (c : CampaignArtifact) (r : CampaignRecipient) (s : CampaignStep) (brief : PreflightBrief)
    (reply : Option Decision)
    → Adds brief (with_decision c r s brief reply) reply
unfolding with_decision
with_decision-Adds c r s brief none = ground arith
with_decision-Adds c r s brief (some e) = ground (
  arith,
  length-append brief.findings (finding_from_decision c r s e (dry_ref_of c r s) ∷ []),
  length-append brief.event_refs (dry_ref_of c r s ∷ []),
)

module _ (engine : DecisionEngine) (c : CampaignArtifact) where
  -- What the steps of one recipient add to the brief, and what all recipients add.
  record AddsSteps (r : CampaignRecipient) (ss : List CampaignStep) (brief after : PreflightBrief)
      : Type 0 where
    status :
        after.status
        ≡ (if all (pair_allowed engine c r) ss then brief.status else PreflightStatus.failed)
    findings : length after.findings ≡ length brief.findings + count_if (pair_refused engine c r) ss
    refs : length after.event_refs ≡ length brief.event_refs + count_if (pair_decided engine c r) ss

  steps-AddsSteps :
      (r : CampaignRecipient) (ss : List CampaignStep) (brief : PreflightBrief)
      → AddsSteps r ss brief (for_each (run_step engine c r) brief ss)
  steps-AddsSteps r [] brief = ground arith
  steps-AddsSteps r (s ∷ ss) brief =
      let reply = engine (request_of c r s) in
      ground (
        arith,
        with_decision-Adds c r s brief reply,
        steps-AddsSteps r ss (with_decision c r s brief reply),
      )

  record AddsAll (rs : List CampaignRecipient) (brief after : PreflightBrief) : Type 0 where
    status : after.status ≡ (
        if all (λ r. all (pair_allowed engine c r) c.steps) rs
        then brief.status
        else PreflightStatus.failed)
    findings :
        length after.findings
        ≡ length brief.findings + sum_of (λ r. count_if (pair_refused engine c r) c.steps) rs
    refs :
        length after.event_refs
        ≡ length brief.event_refs + sum_of (λ r. count_if (pair_decided engine c r) c.steps) rs

  recipients-AddsAll :
      (rs : List CampaignRecipient) (brief : PreflightBrief)
      → AddsAll rs brief (for_each (run_recipient engine c) brief rs)
  recipients-AddsAll [] brief = ground arith
  recipients-AddsAll (r ∷ rs) brief = ground (
    arith,
    steps-AddsSteps r c.steps brief,
    recipients-AddsAll rs (run_recipient engine c brief r),
  )

evaluate_all-AddsAll :
    (engine : DecisionEngine) (c : CampaignArtifact)
    → AddsAll engine c c.audience (start c) (evaluate_all engine c)
unfolding evaluate_all
evaluate_all-AddsAll engine c = recipients-AddsAll engine c c.audience (start c)

-- An engine is configured, and allows every pair of a recipient and a step.
abbrev pub AllAllowed : Option DecisionEngine → CampaignArtifact → Type 0
AllAllowed none c = ⊥
AllAllowed (some engine) c = all (λ r. all (pair_allowed engine c r) c.steps) c.audience ≡ true

empty_iff {ℓ} : {A : Type ℓ} (xs : List A) → (is_empty xs ≡ true) ↔ (xs ≡ [])
empty_iff [] = (λ _. refl, λ _. refl)
empty_iff (x ∷ xs) = (λ h. absurd (cc), λ h. absurd (cc))

-- A preflight passes exactly when the campaign has no gap, an engine is configured, and the engine
-- allows every pair of a recipient and a step.
pub run-passed_iff :
    (engine : Option DecisionEngine) (c : CampaignArtifact)
    → ((run engine c).status ≡ PreflightStatus.passed)
      ↔ ((validate_campaign c ≡ []) × AllAllowed engine c)
unfolding run
run-passed_iff none c = ground (arith, empty_iff (validate_campaign c))
run-passed_iff (some engine) c =
    ground (arith, empty_iff (validate_campaign c), evaluate_all-AddsAll engine c)

-- For a campaign without gaps, the brief has one finding for each pair that the engine refused,
-- and one reference to a dry run for each pair that it decided.
pub run_counts :
    (engine : DecisionEngine) (c : CampaignArtifact)
    → validate_campaign c ≡ []
    → (length (run (some engine) c).findings
        ≡ sum_of (λ r. count_if (pair_refused engine c r) c.steps) c.audience)
      × (length (run (some engine) c).event_refs
          ≡ sum_of (λ r. count_if (pair_decided engine c r) c.steps) c.audience)
unfolding run
run_counts engine c h =
    ground (arith, empty_iff (validate_campaign c), evaluate_all-AddsAll engine c)

-- The decider as the engine of a preflight.
abbrev pub engine_of : Decider → DecisionEngine
engine_of d req = some (decide d req).0

is_allow_iff : (o : DecisionOutcome) → (is_allow o ≡ true) ↔ (o ≡ DecisionOutcome.allow)
is_allow_iff o = ground arith

pairs-IsCleared_iff :
    (d : Decider) (c : CampaignArtifact) (r : CampaignRecipient) (s : CampaignStep)
    → (pair_allowed (engine_of d) c r s ≡ true) ↔ IsCleared d (request_of c r s)
pairs-IsCleared_iff d c r s =
    let o = (decide d (request_of c r s)).0.outcome in
    (
      λ h. (decide-allow_iff d (request_of c r s)).0 ((is_allow_iff o).0 h),
      λ k. (is_allow_iff o).1 ((decide-allow_iff d (request_of c r s)).1 k),
    )

audience-IsCleared_iff :
    (d : Decider) (c : CampaignArtifact)
    → AllAllowed (some (engine_of d)) c
      ↔ All (λ r. All (λ s. IsCleared d (request_of c r s)) c.steps) c.audience
audience-IsCleared_iff d c =
    all-All_iff _ (λ r. All (λ s. IsCleared d (request_of c r s)) c.steps)
      (λ r. all-All_iff _ (λ s. IsCleared d (request_of c r s)) (pairs-IsCleared_iff d c r) c.steps)
      c.audience

dry_run-unrecorded :
    (d : Decider) (c : CampaignArtifact) (r : CampaignRecipient) (s : CampaignStep)
    → (decide d (request_of c r s)).1 ≡ []
unfolding request_of
dry_run-unrecorded d c r s = decide_records d (request_of c r s)

-- With the decider as its engine, a preflight passes exactly when the campaign has no gap and
-- every pair of a recipient and a step is cleared; and no decision reaches the recorder.
pub run-IsCleared_iff :
    (d : Decider) (c : CampaignArtifact)
    → (((run (some (engine_of d)) c).status ≡ PreflightStatus.passed) ↔ (
        (validate_campaign c ≡ [])
        × All (λ r. All (λ s. IsCleared d (request_of c r s)) c.steps) c.audience))
      × ((r : CampaignRecipient) (s : CampaignStep) → (decide d (request_of c r s)).1 ≡ [])
run-IsCleared_iff d c = (
  (
    λ h.
        let (valid, allowed) = (run-passed_iff (some (engine_of d)) c).0 h in
        (valid, (audience-IsCleared_iff d c).0 allowed),
    λ (valid, cleared).
        (run-passed_iff (some (engine_of d)) c).1 (valid, (audience-IsCleared_iff d c).1 cleared),
  ),
  dry_run-unrecorded d c,
)
