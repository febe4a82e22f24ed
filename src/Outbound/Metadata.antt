-- ===== src/Outbound/Metadata.antt =====
-- internal/outbound/types.go: `Decision.Metadata`.
use vigia.Prelude.{
  String, List, [], ◌∷◌, ◌++◌, map, is_empty, ◌==◌, String_comparable, if◌then◌else◌,
}
use vigia.Core.{Value, Fields}
use vigia.Outbound.{ActionKind, DecisionMode, DecisionOutcome, DecisionRef, Decision}

abbrev pub mode_text : DecisionMode → String
mode_text DecisionMode.unset = ""
mode_text DecisionMode.enforcement = "enforcement"
mode_text DecisionMode.dry_run = "dry_run"
mode_text (DecisionMode.other s) = s

abbrev pub outcome_text : DecisionOutcome → String
outcome_text DecisionOutcome.unset = ""
outcome_text DecisionOutcome.allow = "allow"
outcome_text DecisionOutcome.deny = "deny"
outcome_text DecisionOutcome.approval_required = "approval_required"

abbrev pub kind_text : ActionKind → String
kind_text ActionKind.unset = ""
kind_text ActionKind.draft_outbound_utterance = "draft_outbound_utterance"
kind_text ActionKind.send_outbound_utterance = "send_outbound_utterance"
kind_text (ActionKind.other s) = s

-- An entry that is left out when the text is empty.
abbrev pub text_entry : String → String → Fields
text_entry key s = if s == "" then [] else (key, Value.text s) ∷ []

-- `decisionRefsMetadata`
abbrev pub refs_metadata : List DecisionRef → Value
refs_metadata refs =
    Value.maps
      (map (λ r. ("type", r.ref_type) ∷ ("id", r.id) ∷ ("mode", mode_text r.mode) ∷ []) refs)

unfoldable pub metadata : Decision → Fields
metadata d =
    let gaps = map (λ g. g.code) d.fail_closed_reasons in
    let rules = map (λ v. v.rule_code) d.violations in
    ("decision_id", Value.text d.id)
    ∷ ("decision_mode", Value.text (mode_text d.mode))
    ∷ ("decision_outcome", Value.text (outcome_text d.outcome))
    ∷ (text_entry "action_kind" (kind_text d.action_kind)
        ++ (text_entry "proposal_id" d.proposal_id
            ++ (text_entry "policy_bundle_id" d.policy_bundle_id
                ++ (text_entry "policy_bundle_version" d.policy_bundle_version
                    ++ ((if is_empty gaps then [] else ("fail_closed_codes", Value.texts gaps) ∷ [])
                        ++ ((if is_empty rules
                              then []
                              else ("rule_codes", Value.texts rules)
                                ∷ ("violated_rule_codes", Value.texts rules)
                                ∷ [])
                            ++ ((if is_empty d.event_refs
                                  then []
                                  else ("event_refs", refs_metadata d.event_refs) ∷ [])
                                ++ (if is_empty d.evidence_refs
                                    then []
                                    else ("evidence_refs", refs_metadata d.evidence_refs)
                                      ∷ []))))))))
