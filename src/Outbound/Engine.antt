-- ===== src/Outbound/Engine.antt =====
-- internal/outbound/decider.go: the decider's struct, its dependencies and the denials.
use vigia.Prelude.{String, [], ◌∷◌, Option, not, ◌==◌, String_comparable, if◌then◌else◌}
use vigia.Time.{Time, Zones}
use vigia.Detection.{Window}
use vigia.Judge.{Judge, Rubric}
use vigia.Outbound.{
  DecisionOutcome, OutboundActionProposal, DecisionRequest, RecordedDecision, ContextGap, Decision,
  no_decision, ResolvedPolicyBundle, AuthorityContext,
}

-- `ErrPolicyBundleNotFound`, or any other error
pub data BundleError : Type 0 where
  not_found failed : BundleError

pub record BundleReply : Type 0 where
  pub bundle : ResolvedPolicyBundle
  pub error : Option BundleError

-- The interfaces of the struct are options: `none` is nil. `zones` is `time.LoadLocation`.
pub record Decider : Type 0 where
  pub context_resolver : Option (String → OutboundActionProposal → Option AuthorityContext)
  pub bundle_resolver : Option (String → BundleReply)
  pub contact_window : Window
  pub tone_judge : Option Judge
  pub tone_rubric : Rubric
  pub recorder : Option (DecisionRequest → Decision → Option RecordedDecision)
  pub zones : Zones

abbrev pub decision_id : DecisionRequest → String
decision_id req = if not (req.request_id == "") then req.request_id else req.proposal.proposal_id

abbrev pub gap : String → String → String → ContextGap
gap code field remediation = record { code = code; field = field; remediation = remediation }

-- `denyContextGap`, with the id and the mode of the request
abbrev pub deny_context_gap : DecisionRequest → Time → ContextGap → Decision
deny_context_gap req checked_at g = record no_decision {
  id = decision_id req;
  mode = req.mode;
  outcome = DecisionOutcome.deny;
  reason = "required authority context could not prove compliance";
  checked_at = checked_at;
  fail_closed_reasons = g ∷ [];
}

abbrev pub with_bundle : ResolvedPolicyBundle → Decision → Decision
with_bundle b decision = record decision {
  policy_bundle_id = b.id;
  policy_bundle_version = b.version;
}
