-- ===== src/Outbound/Preflight.antt =====
-- internal/outbound/campaign_preflight.go: `PreflightService.Run`.
use vigia.Prelude.{
  String, List, [], ◌∷◌, ◌++◌, Bool, true, false, not, ◌&&◌, Option, none, some, is_empty, for_each,
  ◌==◌, String_comparable, if◌then◌else◌,
}
use vigia.Outbound.{
  DecisionMode, DecisionOutcome, DecisionRequest, DecisionRef, DraftSuggestion, ContextGap,
  Decision, RuleViolation,
}
use vigia.Detection.{Rationale}
use vigia.Outbound.Engine.{gap}
use vigia.Outbound.Campaign.{
  CampaignArtifact, CampaignRecipient, CampaignStep, validate_campaign, dry_run_decision_id,
  request_of,
}

pub data PreflightStatus : Type 0 where
  passed failed : PreflightStatus

-- `rationale` is an option: a finding from a context gap has none.
pub record PreflightFinding : Type 0 where
  pub campaign_id : String
  pub step_id : String
  pub template_id : String
  pub recipient_ref : String
  pub rule_code : String
  pub rationale : Option Rationale
  pub remediation : String
  pub policy_bundle_version : String
  pub context_gaps : List ContextGap
  pub dry_run_refs : List DecisionRef
  pub evidence_refs : List DecisionRef
  pub draft_suggestion : Option DraftSuggestion

pub record PreflightBrief : Type 0 where
  pub campaign_id : String
  pub status : PreflightStatus
  pub policy_bundle_version : String
  pub summary : String
  pub findings : List PreflightFinding
  pub context_gaps : List ContextGap
  pub event_refs : List DecisionRef
  pub evidence_refs : List DecisionRef

-- The interface `DecisionEngine`; `none` is its error.
abbrev pub DecisionEngine : Type 0
DecisionEngine = DecisionRequest → Option Decision

abbrev named : PreflightFinding → List RuleViolation → List ContextGap → PreflightFinding
named f (v ∷ _) gaps = record f {
  rule_code = v.rule_code;
  rationale = some v.rationale;
  remediation = v.remediation;
}
named f [] (g ∷ _) = record f { rule_code = g.code; remediation = g.remediation }
named f [] [] = f

unfoldable pub finding_from_decision :
    CampaignArtifact → CampaignRecipient → CampaignStep → Decision → DecisionRef → PreflightFinding
finding_from_decision c r s decision dry_ref =
    named
      (record {
        campaign_id = c.campaign_id;
        step_id = s.step_id;
        template_id = s.template_id;
        recipient_ref = r.recipient_ref;
        rule_code = "";
        rationale = none;
        remediation = "";
        policy_bundle_version = decision.policy_bundle_version;
        context_gaps = decision.fail_closed_reasons;
        dry_run_refs = dry_ref ∷ [];
        evidence_refs = decision.evidence_refs;
        draft_suggestion = decision.draft_suggestion;
      })
      decision.violations decision.fail_closed_reasons

abbrev pub is_allow : DecisionOutcome → Bool
is_allow DecisionOutcome.allow = true
is_allow _ = false

abbrev pub dry_ref_of : CampaignArtifact → CampaignRecipient → CampaignStep → DecisionRef
dry_ref_of c r s = record {
  ref_type = "dry_run_decision";
  id = dry_run_decision_id c.campaign_id r.recipient_ref s.step_id;
  mode = DecisionMode.dry_run;
}

-- The body of the inner loop, behind the call of the engine.
unfoldable pub with_decision :
    CampaignArtifact
    → CampaignRecipient
    → CampaignStep
    → PreflightBrief
    → Option Decision
    → PreflightBrief
with_decision c r s brief none = record brief {
  status = PreflightStatus.failed;
  context_gaps =
      brief.context_gaps
      ++ gap "preflight_decision_failed" "decider"
          "Retry after the outbound decider can evaluate all campaign steps."
        ∷ [];
}
with_decision c r s brief (some decision) =
    let dry_ref = dry_ref_of c r s in
    let seen : PreflightBrief = record brief {
      policy_bundle_version =
          if not (decision.policy_bundle_version == "") && brief.policy_bundle_version == ""
          then decision.policy_bundle_version
          else brief.policy_bundle_version;
      event_refs = brief.event_refs ++ dry_ref ∷ [];
      evidence_refs = brief.evidence_refs ++ decision.evidence_refs;
    } in
    if is_allow decision.outcome then seen else record seen {
      status = PreflightStatus.failed;
      findings = brief.findings ++ finding_from_decision c r s decision dry_ref ∷ [];
      context_gaps = brief.context_gaps ++ decision.fail_closed_reasons;
    }

abbrev pub run_step :
    DecisionEngine
    → CampaignArtifact
    → CampaignRecipient
    → PreflightBrief
    → CampaignStep
    → PreflightBrief
run_step engine c r brief s = with_decision c r s brief (engine (request_of c r s))

abbrev pub run_recipient :
    DecisionEngine → CampaignArtifact → PreflightBrief → CampaignRecipient → PreflightBrief
run_recipient engine c brief r = for_each (run_step engine c r) brief c.steps

abbrev is_passed : PreflightStatus → Bool
is_passed PreflightStatus.passed = true
is_passed PreflightStatus.failed = false

summarized : PreflightBrief → PreflightBrief
summarized brief =
    if is_passed brief.status
    then record brief {
      summary =
          "campaign preflight passed; all campaign recipient and step combinations were evaluated in dry-run mode";
    }
    else if brief.summary == ""
    then record brief {
      summary = "campaign preflight failed; review findings and context gaps before launch";
    }
    else brief

abbrev pub start : CampaignArtifact → PreflightBrief
start c = record {
  campaign_id = c.campaign_id;
  status = PreflightStatus.passed;
  policy_bundle_version = "";
  summary = "";
  findings = [];
  context_gaps = [];
  event_refs = [];
  evidence_refs = [];
}

-- The two loops.
unfoldable pub evaluate_all : DecisionEngine → CampaignArtifact → PreflightBrief
evaluate_all engine c = for_each (run_recipient engine c) (start c) c.audience

run_complete : Option DecisionEngine → CampaignArtifact → PreflightBrief
unfolding summarized
run_complete none c = record (start c) {
  status = PreflightStatus.failed;
  context_gaps =
      gap "preflight_decider_unavailable" "decider"
        "Configure the outbound decider before running campaign preflight."
      ∷ [];
  summary = "campaign preflight failed because the outbound decider is unavailable";
}
run_complete (some engine) c = summarized (evaluate_all engine c)

-- `PreflightService{Decider: engine}.Run`, which returns no error on any path.
unfoldable pub run : Option DecisionEngine → CampaignArtifact → PreflightBrief
unfolding run_complete
run engine c = if is_empty (validate_campaign c) then run_complete engine c else record (start c) {
  status = PreflightStatus.failed;
  context_gaps = validate_campaign c;
  summary = "campaign preflight failed because required campaign context is missing";
}
