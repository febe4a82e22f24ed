-- ===== src/Outbound/Campaign.antt =====
-- internal/outbound/campaign_preflight.go: a campaign, its check for missing context, and the
-- proposals that it expands to.
use Prim.Native.String.{◌++◌ as append}
use vigia.Prelude.{String, List, [], ◌∷◌, Bool, is_empty, ◌==◌, String_comparable, if◌then◌else◌}
use vigia.Time.{Time, Duration, is_zero, add_duration}
use vigia.Core.{InteractionChannel}
use vigia.Outbound.{ActionKind, DecisionMode, OutboundActionProposal, DecisionRequest, ContextGap}
use vigia.Outbound.Engine.{gap}
use vigia.Outbound.Template.{render}

pub record CampaignRecipient : Type 0 where
  pub recipient_ref : String
  pub debtor_id : String
  pub relationship : String
  pub channel_refs : List String
  pub timezone : String

pub record CampaignStep : Type 0 where
  pub step_id : String
  pub template_id : String
  pub channel : InteractionChannel
  pub text_template : String
  pub send_offset : Duration
  pub payment_target : String

pub record CampaignSchedule : Type 0 where
  pub starts_at : Time
  pub timezone : String

pub record CampaignArtifact : Type 0 where
  pub campaign_id : String
  pub name : String
  pub tenant_id : String
  pub actor_id : String
  pub audience : List CampaignRecipient
  pub steps : List CampaignStep
  pub schedule : CampaignSchedule

abbrev pub when : Bool → ContextGap → List ContextGap → List ContextGap
when missing g rest = if missing then g ∷ rest else rest

unfoldable pub recipient_gaps : List CampaignRecipient → List ContextGap → List ContextGap
recipient_gaps [] rest = rest
recipient_gaps (r ∷ rs) rest =
    let others = recipient_gaps rs rest in
    when (r.recipient_ref == "")
      (gap "missing_recipient_ref" "audience.recipient_ref"
        "Provide a recipient reference for every campaign recipient.")
      (when (r.debtor_id == "")
        (gap "missing_recipient_debtor" "audience.debtor_id"
          "Provide a debtor reference for every campaign recipient.")
        (when (r.timezone == "")
          (gap "missing_recipient_timezone" "audience.timezone"
            "Provide an IANA timezone for every campaign recipient.")
          others))

unfoldable pub step_gaps : List CampaignStep → List ContextGap
step_gaps [] = []
step_gaps (s ∷ ss) =
    let others = step_gaps ss in
    when (s.step_id == "")
      (gap "missing_step_id" "steps.step_id" "Provide a step ID for every campaign step.")
      (when (s.template_id == "")
        (gap "missing_template_id" "steps.template_id"
          "Provide a template ID for every campaign step.")
        (when (s.channel == "")
          (gap "missing_step_channel" "steps.channel"
            "Provide an outbound channel for every campaign step.")
          (when (s.text_template == "")
            (gap "missing_step_template" "steps.text_template"
              "Provide message content for every campaign step.")
            others)))

abbrev pub step_list_gaps : List CampaignStep → List ContextGap
step_list_gaps ss =
    when (is_empty ss)
      (gap "missing_campaign_steps" "steps" "Provide at least one campaign step before preflight.")
      (step_gaps ss)

-- `validateCampaign`: the gaps in the order in which the code appends them.
unfoldable pub validate_campaign : CampaignArtifact → List ContextGap
validate_campaign c =
    when (c.campaign_id == "")
      (gap "missing_campaign_id" "campaign_id" "Provide a campaign ID before preflight.")
      (when (c.tenant_id == "")
        (gap "missing_tenant_id" "tenant_id" "Provide trusted tenant context before preflight.")
        (when (is_zero c.schedule.starts_at)
          (gap "missing_campaign_start" "schedule.starts_at"
            "Provide a campaign start time before preflight.")
          (when (is_empty c.audience)
            (gap "missing_campaign_audience" "audience"
              "Provide at least one campaign recipient before preflight.")
            (recipient_gaps c.audience (step_list_gaps c.steps)))))

-- `dryRunProposalID`, `dryRunDecisionID`
abbrev pub dry_run_proposal_id : String → String → String → String
dry_run_proposal_id campaign_id recipient_ref step_id =
    append campaign_id (append "/" (append recipient_ref (append "/" step_id)))

abbrev pub dry_run_decision_id : String → String → String → String
dry_run_decision_id campaign_id recipient_ref step_id =
    append "dry-run:" (dry_run_proposal_id campaign_id recipient_ref step_id)

unfoldable pub expand_campaign_proposal :
    CampaignArtifact → CampaignRecipient → CampaignStep → OutboundActionProposal
expand_campaign_proposal c r s = record {
  kind = ActionKind.send_outbound_utterance;
  proposal_id = dry_run_proposal_id c.campaign_id r.recipient_ref s.step_id;
  case_id = "";
  campaign_id = c.campaign_id;
  step_id = s.step_id;
  template_id = s.template_id;
  debtor_id = r.debtor_id;
  channel = s.channel;
  recipient_ref = r.recipient_ref;
  text = render r.debtor_id r.recipient_ref s.text_template;
  proposed_at = add_duration c.schedule.starts_at s.send_offset;
  debtor_timezone = r.timezone;
  contact_party_relationship = r.relationship;
  authorized_channels = r.channel_refs;
  payment_target = s.payment_target;
}

-- The request that `Run` makes of the decision engine.
unfoldable pub request_of : CampaignArtifact → CampaignRecipient → CampaignStep → DecisionRequest
request_of c r s = record {
  tenant_id = c.tenant_id;
  actor_id = c.actor_id;
  mode = DecisionMode.dry_run;
  proposal = expand_campaign_proposal c r s;
  request_id = dry_run_decision_id c.campaign_id r.recipient_ref s.step_id;
}
