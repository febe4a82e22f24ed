-- ===== src/Outbound/Decider.antt =====
-- internal/outbound/decider.go: the steps of `Decide`. It returns no error on any path, so the
-- model returns the decision, and beside it the decisions handed to the recorder, in order.
use vigia.Prelude.{
  String, Bool, true, false, not, ◌||◌, List, [], ◌∷◌, ◌++◌, Option, none, some, ◌==◌,
  String_comparable, if◌then◌else◌,
}
use vigia.Time.{Location, is_zero, utc_time}
use vigia.Outbound.{
  DecisionMode, DecisionOutcome, OutboundActionProposal, DecisionRequest, RecordedDecision,
  Decision, ResolvedPolicyBundle, AuthorityContext, ContextGap,
}
use vigia.Outbound.Engine.{Decider, BundleError, BundleReply, gap, deny_context_gap, with_bundle}
use vigia.Outbound.Rules.{check_rules, interaction_of}

abbrev in_zone :
    Decider → DecisionRequest → ResolvedPolicyBundle → AuthorityContext → Option Location → Decision
in_zone d req b c none = with_bundle b (
    deny_context_gap req req.proposal.proposed_at (
      gap "invalid_debtor_timezone" "debtor_timezone"
        "Use a resolvable IANA debtor timezone before evaluating contact hours."))
in_zone d req b c (some _) = check_rules d req b (interaction_of req c)

unfoldable pub check_context :
    Decider → DecisionRequest → AuthorityContext → ResolvedPolicyBundle → Decision
check_context d req c b =
    if c.recipient_ambiguous
    then with_bundle b (
        deny_context_gap req req.proposal.proposed_at (
          gap "ambiguous_recipient" "recipient_ref"
            "Resolve the outbound proposal to exactly one tenant-scoped recipient before sending."))
    else if c.channel_ambiguous
    then with_bundle b (
        deny_context_gap req req.proposal.proposed_at (
          gap "ambiguous_channel" "channel"
            "Resolve the outbound proposal to exactly one authorized channel before sending."))
    else if c.debtor_timezone == ""
    then with_bundle b (
        deny_context_gap req req.proposal.proposed_at (
          gap "missing_debtor_timezone" "debtor_timezone"
            "Add a debtor-local IANA timezone before evaluating contact hours."))
    else in_zone d req b c (d.zones c.debtor_timezone)

abbrev is_not_found : Option BundleError → Bool
is_not_found (some BundleError.not_found) = true
is_not_found _ = false

abbrev is_error : Option BundleError → Bool
is_error none = false
is_error (some e) = true

unfoldable pub with_reply : Decider → DecisionRequest → AuthorityContext → BundleReply → Decision
with_reply d req c reply =
    if is_error reply.error || reply.bundle.version == ""
    then deny_context_gap req req.proposal.proposed_at (
        gap
          (if is_not_found reply.error || reply.bundle.version == ""
            then "unknown_policy_bundle"
            else "policy_bundle_unresolved")
          "policy_bundle"
          "Activate a tenant policy bundle before evaluating authority-bearing outbound sends.")
    else check_context d req c reply.bundle

unfoldable pub check_bundle :
    Decider → DecisionRequest → AuthorityContext → Option (String → BundleReply) → Decision
check_bundle d req c none = deny_context_gap req req.proposal.proposed_at (
    gap "policy_bundle_unresolved" "policy_bundle"
      "Configure an active policy bundle resolver before evaluating outbound sends.")
check_bundle d req c (some resolve) = with_reply d req c (resolve req.tenant_id)

unfoldable pub resolved : Decider → DecisionRequest → Option AuthorityContext → Decision
resolved d req none = deny_context_gap req req.proposal.proposed_at (
    gap "authority_context_unresolved" "authority_context"
      "Resolve tenant-scoped debtor, recipient, channel, and audit context before sending.")
resolved d req (some c) = check_bundle d req c d.bundle_resolver

unfoldable pub check_resolver :
    Decider
    → DecisionRequest
    → Option (String → OutboundActionProposal → Option AuthorityContext)
    → Decision
check_resolver d req none = deny_context_gap req req.proposal.proposed_at (
    gap "authority_context_unresolved" "authority_context"
      "Configure an authority context resolver before evaluating outbound sends.")
check_resolver d req (some resolve) = resolved d req (resolve req.tenant_id req.proposal)

-- The decision before `finalize`.
unfoldable pub verdict : Decider → DecisionRequest → Decision
verdict d req =
    if is_zero req.proposal.proposed_at
    then deny_context_gap req (utc_time 0) (
        gap "missing_proposed_at" "proposed_at"
          "Provide the proposed send time before evaluating authority-bearing outbound sends.")
    else check_resolver d req d.context_resolver

abbrev pub with_context : DecisionRequest → Decision → Decision
with_context req decision = record decision {
  action_kind = req.proposal.kind;
  proposal_id = req.proposal.proposal_id;
}

abbrev pub is_enforcement : DecisionMode → Bool
is_enforcement DecisionMode.enforcement = true
is_enforcement _ = false

abbrev pub is_stopped : DecisionOutcome → Bool
is_stopped DecisionOutcome.deny = true
is_stopped DecisionOutcome.approval_required = true
is_stopped _ = false

abbrev pub recording_failed : ContextGap
recording_failed =
    gap "decision_recording_failed" "evidence_ledger"
      "Retry after the enforcement evidence recorder is available; do not send until the blocked decision is auditable."

abbrev recorded : Decision → Option RecordedDecision → Decision
recorded decision none = record decision {
  fail_closed_reasons = decision.fail_closed_reasons ++ recording_failed ∷ [];
}
recorded decision (some refs) = record decision {
  event_refs = decision.event_refs ++ refs.event_refs;
  evidence_refs = decision.evidence_refs ++ refs.evidence_refs;
}

abbrev record_with :
    DecisionRequest
    → Decision
    → Option (DecisionRequest → Decision → Option RecordedDecision)
    → Decision × List Decision
record_with req decision none = (decision, [])
record_with req decision (some recorder) =
    (recorded decision (recorder req decision), decision ∷ [])

-- `finalize`
unfoldable pub finalize : Decider → DecisionRequest → Decision → Decision × List Decision
finalize d req plain =
    let decision = with_context req plain in
    if not (is_enforcement req.mode) || not (is_stopped decision.outcome)
    then (decision, [])
    else record_with req decision d.recorder

unfoldable pub decide : Decider → DecisionRequest → Decision × List Decision
decide d req = finalize d req (verdict d req)
