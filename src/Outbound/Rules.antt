-- ===== src/Outbound/Rules.antt =====
-- internal/outbound/decider.go: the blocking detectors and the semantic judge.
use vigia.Prelude.{
  String, Bool, true, false, ◌&&◌, [], ◌∷◌, Option, none, some, ltb, nat_eq, if◌then◌else◌,
}
use vigia.Time.{Time, is_zero}
use vigia.Core.{Severity}
use vigia.Detection as Detection
use vigia.Detection.{Interaction, Window, Rationale, Result}
use vigia.Detection.ContactHours
use vigia.Detection.ThirdParty
use vigia.Detection.AuthorizedChannel
use vigia.Detection.PaymentRouting
use vigia.Judge as Judge
use vigia.Judge.{Judge, JudgeResult, JudgeError, half}
use vigia.Outbound.{
  DecisionOutcome, DecisionRequest, Decision, no_decision, ResolvedPolicyBundle, AuthorityContext,
}
use vigia.Outbound.Engine.{Decider, decision_id, gap, deny_context_gap, with_bundle}

abbrev pub contact_window : Decider → Window
contact_window d =
    if nat_eq d.contact_window.start_hour 0 && nat_eq d.contact_window.end_hour 0
    then record { start_hour = 8; end_hour = 21 }
    else d.contact_window

abbrev pub is_block : Detection.Outcome → Bool
is_block Detection.Outcome.block = true
is_block _ = false

-- `blockingDetectorDecision`; `none` is its `false`.
unfoldable pub blocking_detector_decision :
    DecisionRequest
    → Time
    → ResolvedPolicyBundle
    → Result
    → String
    → String
    → String
    → Option Decision
blocking_detector_decision req checked_at b r code reason remediation =
    if is_block r.outcome
    then some (record no_decision {
      id = decision_id req;
      mode = req.mode;
      outcome = DecisionOutcome.deny;
      reason = reason;
      policy_bundle_id = b.id;
      policy_bundle_version = b.version;
      checked_at = checked_at;
      violations =
          record {
            rule_code = code;
            severity = Severity.high;
            rationale = r.rationale;
            remediation = remediation;
            component_id = "";
          }
          ∷ [];
    })
    else none

-- The switch on the judge's outcome.
unfoldable pub by_verdict :
    DecisionRequest → ResolvedPolicyBundle → JudgeResult → Judge.Outcome → Decision
by_verdict req b r Judge.Outcome.block = with_bundle b (record no_decision {
  id = decision_id req;
  mode = req.mode;
  outcome = DecisionOutcome.deny;
  reason = "semantic tone/threat rule blocked the outbound proposal";
  checked_at = req.proposal.proposed_at;
  violations =
      record {
        rule_code = "MX-REDECO-05";
        severity = Severity.high;
        rationale = Rationale.given r.rationale;
        remediation =
            "Rewrite the message to remove threatening, abusive, coercive, or misleading language.";
        component_id = "";
      }
      ∷ [];
  draft_suggestion = some (record {
    text =
        "Please revise this message into a compliant, non-threatening draft before any new send decision.";
    draft_only = true;
    based_on = req.proposal.proposal_id;
  });
})
by_verdict req b r Judge.Outcome.pass = with_bundle b (record no_decision {
  id = decision_id req;
  mode = req.mode;
  outcome = DecisionOutcome.allow;
  reason = "outbound proposal passed deterministic guardrails";
  checked_at = req.proposal.proposed_at;
})
by_verdict req b r (Judge.Outcome.other _) = with_bundle b (
    deny_context_gap req req.proposal.proposed_at (
      gap "judge_invalid_result" "tone_judge"
        "Obtain a valid semantic tone/threat judge result before sending."))

unfoldable pub judged :
    DecisionRequest → ResolvedPolicyBundle → JudgeResult → Option JudgeError → Decision
judged req b r (some e) = with_bundle b (
    deny_context_gap req req.proposal.proposed_at (
      gap "judge_unavailable" "tone_judge"
        "Retry after the semantic tone/threat judge is available; do not send until compliance can be proven."))
judged req b r none =
    if ltb r.confidence half
    then with_bundle b (
        deny_context_gap req req.proposal.proposed_at (
          gap "judge_inconclusive" "tone_judge"
            "Obtain a conclusive semantic tone/threat result before sending."))
    else by_verdict req b r r.outcome

abbrev pub judge_input : Decider → DecisionRequest → Judge.JudgeInput
judge_input d req = record {
  utterances = record { speaker = "agent"; text = req.proposal.text } ∷ [];
  rubric = d.tone_rubric;
}

unfoldable pub check_judge :
    Decider → DecisionRequest → ResolvedPolicyBundle → Option Judge → Decision
unfolding judged
check_judge d req b none = with_bundle b (
    deny_context_gap req req.proposal.proposed_at (
      gap "judge_unavailable" "tone_judge"
        "Configure the semantic tone/threat judge before allowing authority-bearing outbound sends."))
check_judge d req b (some judge) =
    let reply = judge (judge_input d req) in judged req b reply.result reply.error

abbrev pub interaction_of : DecisionRequest → AuthorityContext → Interaction
interaction_of req c = record {
  occurred_at = if is_zero c.proposed_at then req.proposal.proposed_at else c.proposed_at;
  debtor_timezone = c.debtor_timezone;
  channel = c.channel;
  contact_party_relationship = c.contact_party_relationship;
  contacted_party_dob = none;
  authorized_channels = c.authorized_channels;
  payment_recipient = c.payment_recipient;
  disclosure_provided = none;
}

abbrev pub or_next : Option Decision → Decision → Decision
or_next (some decision) next = decision
or_next none next = next

-- The four blocking detectors, in order, and then the judge.
unfoldable pub check_rules :
    Decider → DecisionRequest → ResolvedPolicyBundle → Interaction → Decision
check_rules d req b i =
    let blocked = blocking_detector_decision req req.proposal.proposed_at b in
    or_next
      (blocked (ContactHours.evaluate d.zones (contact_window d) i) "MX-REDECO-02"
        "contact hours rule blocked the outbound proposal"
        "Schedule the outbound contact inside the debtor-local permitted contact window.")
      (or_next
        (blocked (ThirdParty.evaluate i) "MX-REDECO-06"
          "third-party contact rule blocked the outbound proposal"
          "Contact only the debtor or a verified authorized third party.")
        (or_next
          (blocked (AuthorizedChannel.evaluate i) "MX-REDECO-11"
            "authorized channel rule blocked the outbound proposal"
            "Use a debtor-authorized outbound channel or update the verified channel authorization.")
          (or_next
            (blocked (PaymentRouting.evaluate i) "MX-REDECO-10"
              "payment routing rule blocked the outbound proposal"
              "Route payment instructions only to the creditor-approved payment recipient.")
            (check_judge d req b d.tone_judge))))
