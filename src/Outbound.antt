-- ===== src/Outbound.antt =====
-- internal/outbound/types.go: proposals, decisions and the authority context.
pub mod Context
pub mod Metadata
pub mod Engine
pub mod Rules
pub mod Decider
pub mod RulesHold
pub mod Clearance
pub mod Recording
pub mod Template
pub mod Campaign
pub mod Preflight
pub mod Briefing
use vigia.Prelude.{String, Bool, List, [], Option, none}
use vigia.Time.{Time, utc_time}
use vigia.Core.{InteractionChannel, Severity}
use vigia.Detection.{Rationale}

-- `unset` is the empty string, `other` any value that is not a constant of the package.
pub data ActionKind : Type 0 where
  unset draft_outbound_utterance send_outbound_utterance : ActionKind
  other : String → ActionKind

pub data DecisionMode : Type 0 where
  unset enforcement dry_run : DecisionMode
  other : String → DecisionMode

pub data DecisionOutcome : Type 0 where
  unset allow deny approval_required : DecisionOutcome

pub record OutboundActionProposal : Type 0 where
  pub kind : ActionKind
  pub proposal_id : String
  pub case_id : String
  pub campaign_id : String
  pub step_id : String
  pub template_id : String
  pub debtor_id : String
  pub channel : InteractionChannel
  pub recipient_ref : String
  pub text : String
  pub proposed_at : Time
  pub debtor_timezone : String
  pub contact_party_relationship : String
  pub authorized_channels : List String
  pub payment_target : String

pub record DecisionRequest : Type 0 where
  pub tenant_id : String
  pub actor_id : String
  pub mode : DecisionMode
  pub proposal : OutboundActionProposal
  pub request_id : String

pub record DecisionRef : Type 0 where
  pub ref_type : String
  pub id : String
  pub mode : DecisionMode

pub record RecordedDecision : Type 0 where
  pub event_refs : List DecisionRef
  pub evidence_refs : List DecisionRef

pub record RuleViolation : Type 0 where
  pub rule_code : String
  pub severity : Severity
  pub rationale : Rationale
  pub remediation : String
  pub component_id : String

pub record ContextGap : Type 0 where
  pub code : String
  pub field : String
  pub remediation : String

pub record DraftSuggestion : Type 0 where
  pub text : String
  pub draft_only : Bool
  pub based_on : String

pub record Decision : Type 0 where
  pub id : String
  pub mode : DecisionMode
  pub action_kind : ActionKind
  pub proposal_id : String
  pub outcome : DecisionOutcome
  pub reason : String
  pub violations : List RuleViolation
  pub fail_closed_reasons : List ContextGap
  pub policy_bundle_id : String
  pub policy_bundle_version : String
  pub checked_at : Time
  pub event_refs : List DecisionRef
  pub evidence_refs : List DecisionRef
  pub draft_suggestion : Option DraftSuggestion

-- The zero `Decision{}`.
abbrev pub no_decision : Decision
no_decision = record {
  id = "";
  mode = DecisionMode.unset;
  action_kind = ActionKind.unset;
  proposal_id = "";
  outcome = DecisionOutcome.unset;
  reason = "";
  violations = [];
  fail_closed_reasons = [];
  policy_bundle_id = "";
  policy_bundle_version = "";
  checked_at = utc_time 0;
  event_refs = [];
  evidence_refs = [];
  draft_suggestion = none;
}

pub record ResolvedPolicyBundle : Type 0 where
  pub id : String
  pub version : String

pub record AuthorityContext : Type 0 where
  pub tenant_id : String
  pub debtor_id : String
  pub debtor_timezone : String
  pub channel : InteractionChannel
  pub proposed_at : Time
  pub recipient_ambiguous : Bool
  pub channel_ambiguous : Bool
  pub contact_party_relationship : String
  pub authorized_channels : List String
  pub payment_recipient : String
