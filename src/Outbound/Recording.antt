-- ===== src/Outbound/Recording.antt =====
-- What a decision says and what the recorder sees (decider.go).
use vigia.Prelude.{
  ◌+◌, ◌≡◌, ◌≢◌, ◌⊎◌, String, ◌&&◌, [], ◌∷◌, Option, none, some, arith, length, length-append,
  is_some, if◌then◌else◌,
}
use vigia.Time.{Time}
use vigia.Detection.{Result, Interaction}
use vigia.Judge.{Judge}
use vigia.Outbound.{
  DecisionOutcome, OutboundActionProposal, DecisionRequest, Decision, ResolvedPolicyBundle,
  AuthorityContext,
}
use vigia.Outbound.Engine.{Decider, BundleReply}
use vigia.Outbound.Rules.{
  interaction_of, blocking_detector_decision, by_verdict, or_next, check_judge, check_rules,
}
use vigia.Outbound.Decider.{
  check_context, with_reply, check_bundle, resolved, check_resolver, verdict, is_enforcement,
  is_stopped, with_context, finalize, decide, recording_failed,
}

-- Allowed with nothing to report, or denied for exactly one violation or gap.
abbrev IsExplained : Decision → Type 0
IsExplained e =
    ((e.outcome ≡ DecisionOutcome.allow) × (e.violations ≡ []) × (e.fail_closed_reasons ≡ []))
    ⊎ ((e.outcome ≡ DecisionOutcome.deny)
        × (length e.violations + length e.fail_closed_reasons ≡ 1))

check_judge-IsExplained :
    (d : Decider) (req : DecisionRequest) (b : ResolvedPolicyBundle) (judge : Option Judge)
    → IsExplained (check_judge d req b judge)
unfolding check_judge by_verdict
check_judge-IsExplained d req b none = ground arith
check_judge-IsExplained d req b (some judge) = ground arith

step-IsExplained :
    (req : DecisionRequest) (t : Time) (b : ResolvedPolicyBundle) (r : Result)
    (code reason remediation : String) (next : Decision)
    → IsExplained next
    → IsExplained (or_next (blocking_detector_decision req t b r code reason remediation) next)
unfolding blocking_detector_decision
step-IsExplained req t b r code reason remediation next h = ground arith

check_rules-IsExplained :
    (d : Decider) (req : DecisionRequest) (b : ResolvedPolicyBundle) (i : Interaction)
    → IsExplained (check_rules d req b i)
unfolding check_rules
check_rules-IsExplained d req b i = step-IsExplained req _ b _ _ _ _ _ (
    step-IsExplained req _ b _ _ _ _ _ (
      step-IsExplained req _ b _ _ _ _ _
        (step-IsExplained req _ b _ _ _ _ _ (check_judge-IsExplained d req b d.tone_judge))))

check_context-IsExplained :
    (d : Decider) (req : DecisionRequest) (c : AuthorityContext) (b : ResolvedPolicyBundle)
    → IsExplained (check_context d req c b)
unfolding check_context
check_context-IsExplained d req c b =
    ground (arith, check_rules-IsExplained d req b (interaction_of req c))

check_bundle-IsExplained :
    (d : Decider) (req : DecisionRequest) (c : AuthorityContext)
    (resolver : Option (String → BundleReply))
    → IsExplained (check_bundle d req c resolver)
unfolding check_bundle with_reply
check_bundle-IsExplained d req c none = ground arith
check_bundle-IsExplained d req c (some resolve) =
    ground (arith, check_context-IsExplained d req c (resolve req.tenant_id).bundle)

resolved-IsExplained :
    (d : Decider) (req : DecisionRequest) (found : Option AuthorityContext)
    → IsExplained (resolved d req found)
unfolding resolved
resolved-IsExplained d req none = ground arith
resolved-IsExplained d req (some c) = check_bundle-IsExplained d req c d.bundle_resolver

check_resolver-IsExplained :
    (d : Decider) (req : DecisionRequest)
    (resolver : Option (String → OutboundActionProposal → Option AuthorityContext))
    → IsExplained (check_resolver d req resolver)
unfolding check_resolver
check_resolver-IsExplained d req none = ground arith
check_resolver-IsExplained d req (some resolve) =
    resolved-IsExplained d req (resolve req.tenant_id req.proposal)

pub verdict-IsExplained : (d : Decider) (req : DecisionRequest) → IsExplained (verdict d req)
unfolding verdict
verdict-IsExplained d req = ground (arith, check_resolver-IsExplained d req d.context_resolver)

-- A decision is an allow or a deny; an allow reports nothing, and a deny reports at least one
-- violation or gap. It is about the proposal of the request.
pub decide_explained :
    (d : Decider) (req : DecisionRequest)
    → let e = (decide d req).0 in
      (((e.outcome ≡ DecisionOutcome.allow) × (e.violations ≡ []) × (e.fail_closed_reasons ≡ []))
        ⊎ ((e.outcome ≡ DecisionOutcome.deny)
            × (length e.violations + length e.fail_closed_reasons ≢ 0)))
      × (e.proposal_id ≡ req.proposal.proposal_id)
unfolding decide finalize
decide_explained d req = ground (
  arith,
  verdict-IsExplained d req,
  length-append (verdict d req).fail_closed_reasons (recording_failed ∷ []),
)

-- The recorder is handed the decision exactly when it is configured, the request is an enforcement
-- and the decision denies or asks for approval; otherwise it is not called. A dry run records nothing.
pub decide_records :
    (d : Decider) (req : DecisionRequest)
    → (decide d req).1 ≡ (
        if is_enforcement req.mode && is_stopped (decide d req).0.outcome && is_some d.recorder
        then with_context req (verdict d req) ∷ []
        else [])
unfolding decide finalize
decide_records d req = ground arith
