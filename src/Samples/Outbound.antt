-- ===== src/Samples/Outbound.antt =====
-- A proposal that is allowed, and a campaign of one recipient and one step.
use vigia.Prelude.{
  ◌+◌, ◌≡◌, ◌≢◌, ◌↔◌, ◌⊎◌, refl, String, false, ◌&&◌, [], ◌∷◌, Option, some, none, All, length,
  sum_of, count_if, is_some, if◌then◌else◌,
}
use vigia.Time.{forward}
use vigia.Judge as Judge
use vigia.Judge.{Reply, JudgeInput, half}
use vigia.Outbound.{
  ActionKind, DecisionMode, DecisionOutcome, OutboundActionProposal, DecisionRequest,
  AuthorityContext,
}
use vigia.Outbound.Engine.{Decider}
use vigia.Outbound.Decider.{decide, is_enforcement, is_stopped, verdict, with_context}
use vigia.Outbound.Clearance.{IsCleared, decide-allow_iff}
use vigia.Outbound.Recording.{decide_explained, decide_records}
use vigia.Outbound.Campaign.{
  CampaignArtifact, CampaignRecipient, CampaignStep, validate_campaign, recipient_gaps, step_gaps,
  request_of,
}
use vigia.Outbound.Preflight.{PreflightStatus, run}
use vigia.Outbound.Briefing.{
  AllAllowed, engine_of, pair_refused, pair_decided, run-passed_iff, run_counts, run-IsCleared_iff,
}
use vigia.Samples.{zone, all_utc, morning, working_hours}

abbrev passing : JudgeInput → Reply
passing input = record {
  result = record {
    outcome = Judge.Outcome.pass;
    confidence = half;
    rationale = "calm";
    rubric_version = "v1";
    judge_model_id = "m1";
    input_tokens = 10;
    output_tokens = 5;
    cache_read_input_tokens = 0;
    cache_creation_input_tokens = 0;
  };
  error = none;
}

abbrev context_of : String → OutboundActionProposal → Option AuthorityContext
context_of tenant p = some (record {
  tenant_id = tenant;
  debtor_id = p.debtor_id;
  debtor_timezone = zone;
  channel = p.channel;
  proposed_at = p.proposed_at;
  recipient_ambiguous = false;
  channel_ambiguous = false;
  contact_party_relationship = "debtor";
  authorized_channels = "sms" ∷ [];
  payment_recipient = "creditor";
})

abbrev pub decider : Decider
decider = record {
  context_resolver = some context_of;
  bundle_resolver =
      some (λ tenant. record { bundle = record { id = "b1"; version = "1" }; error = none });
  contact_window = working_hours;
  tone_judge = some passing;
  tone_rubric = record { version = "v1"; prompt = "Judge the tone." };
  recorder = some (λ req decision. some (record { event_refs = []; evidence_refs = [] }));
  zones = all_utc;
}

abbrev pub request : DecisionRequest
request = record {
  tenant_id = "t1";
  actor_id = "a1";
  mode = DecisionMode.enforcement;
  proposal = record {
    kind = ActionKind.send_outbound_utterance;
    proposal_id = "p1";
    case_id = "";
    campaign_id = "";
    step_id = "";
    template_id = "";
    debtor_id = "d1";
    channel = "sms";
    recipient_ref = "r1";
    text = "Please call us back.";
    proposed_at = morning;
    debtor_timezone = zone;
    contact_party_relationship = "debtor";
    authorized_channels = "sms" ∷ [];
    payment_target = "creditor";
  };
  request_id = "";
}

decide-allow_iff_example :
    ((decide decider request).0.outcome ≡ DecisionOutcome.allow) ↔ IsCleared decider request
decide-allow_iff_example = decide-allow_iff decider request

decide_explained_example :
    let e = (decide decider request).0 in
    (((e.outcome ≡ DecisionOutcome.allow) × (e.violations ≡ []) × (e.fail_closed_reasons ≡ []))
      ⊎ ((e.outcome ≡ DecisionOutcome.deny)
          × (length e.violations + length e.fail_closed_reasons ≢ 0)))
    × (e.proposal_id ≡ "p1")
decide_explained_example = decide_explained decider request

decide_records_example : (decide decider request).1 ≡ (
    if is_enforcement request.mode
      && is_stopped (decide decider request).0.outcome
      && is_some decider.recorder
    then with_context request (verdict decider request) ∷ []
    else [])
decide_records_example = decide_records decider request

abbrev recipient : CampaignRecipient
recipient = record {
  recipient_ref = "r1";
  debtor_id = "d1";
  relationship = "debtor";
  channel_refs = "sms" ∷ [];
  timezone = zone;
}

abbrev reminder : CampaignStep
reminder = record {
  step_id = "s1";
  template_id = "m1";
  channel = "sms";
  text_template = "Hello {{debtor_id}}";
  send_offset = forward 0;
  payment_target = "creditor";
}

abbrev campaign : CampaignArtifact
campaign = record {
  campaign_id = "c1";
  name = "Spring";
  tenant_id = "t1";
  actor_id = "a1";
  audience = recipient ∷ [];
  steps = reminder ∷ [];
  schedule = record { starts_at = morning; timezone = zone };
}

campaign_valid : validate_campaign campaign ≡ []
unfolding validate_campaign recipient_gaps step_gaps
campaign_valid = refl

run-passed_iff_example :
    ((run (some (engine_of decider)) campaign).status ≡ PreflightStatus.passed)
    ↔ ((validate_campaign campaign ≡ []) × AllAllowed (some (engine_of decider)) campaign)
run-passed_iff_example = run-passed_iff (some (engine_of decider)) campaign

run_counts_example :
    (length (run (some (engine_of decider)) campaign).findings
      ≡ sum_of
          (λ r. count_if (pair_refused (engine_of decider) campaign r) campaign.steps)
          campaign.audience)
    × (length (run (some (engine_of decider)) campaign).event_refs
        ≡ sum_of
            (λ r. count_if (pair_decided (engine_of decider) campaign r) campaign.steps)
            campaign.audience)
run_counts_example = run_counts (engine_of decider) campaign campaign_valid

run-IsCleared_iff_example :
    (((run (some (engine_of decider)) campaign).status ≡ PreflightStatus.passed) ↔ (
      (validate_campaign campaign ≡ [])
      × All
          (λ r. All (λ s. IsCleared decider (request_of campaign r s)) campaign.steps)
          campaign.audience))
    × ((r : CampaignRecipient) (s : CampaignStep)
        → (decide decider (request_of campaign r s)).1 ≡ [])
run-IsCleared_iff_example = run-IsCleared_iff decider campaign
