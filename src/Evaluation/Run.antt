-- ===== src/Evaluation/Run.antt =====
-- internal/evaluation/service.go: `EvaluateInteraction`, `ReEvaluateInteraction` and the stamping of
-- the active bundle.
use vigia.Prelude.{String, Option, none, some, length, ltb, is_empty, if◌then◌else◌, ◌⊎◌, inl, inr}
use vigia.Time.{utc_time}
use vigia.Evaluation.{
  Service, Evaluation, EvaluateInteractionInput, EvaluationError, Lookup, ActiveBundle,
  CreateEvaluationInput, ReEvaluationInput,
}
use vigia.Evaluation.Folding.{run_detectors_and_judges}

-- `resolveActiveBundle`: the version and the id.
unfoldable pub resolve_active_bundle :
    Option (String → Lookup ActiveBundle) → String → String × Option String
resolve_active_bundle none tenant = ("", none)
resolve_active_bundle (some resolver) tenant = elim (resolver tenant) [
  | Lookup.error e ↦ ("", none)
  | Lookup.missing ↦ ("", none)
  | Lookup.found b ↦ (b.version, some b.id)
]

-- The checks on the service's configuration.
unfoldable pub misconfigured : Service → Option EvaluationError
misconfigured s =
    if is_empty s.detectors
    then some EvaluationError.no_detectors
    else if ltb 1 (length s.judges)
    then some EvaluationError.multiple_judges
    else none

-- What `EvaluateInteraction` gives to the store.
unfoldable pub creation : Service → EvaluateInteractionInput → CreateEvaluationInput
creation s input =
    let (version, id) = resolve_active_bundle s.resolver input.tenant_id in
    record {
      tenant_id = input.tenant_id;
      interaction_event_id = input.interaction_event_id;
      policy_bundle_version = version;
      policy_bundle_id = id;
      run = run_detectors_and_judges s input.interaction input.utterances;
    }

unfoldable pub evaluate_interaction :
    Service → EvaluateInteractionInput → EvaluationError ⊎ Evaluation
evaluate_interaction s input = elim (misconfigured s) [
  | some e ↦ inl e
  | none ↦ s.create_evaluation (creation s input)
]

abbrev pub re_evaluation : Service → String → String → ReEvaluationInput → String → Evaluation
re_evaluation s interaction_id bundle_id r version = record {
  id = "";
  tenant_id = r.tenant_id;
  interaction_event_id = interaction_id;
  overall_outcome = (run_detectors_and_judges s r.interaction r.utterances).overall_outcome;
  policy_bundle_version = version;
  policy_bundle_id = some bundle_id;
  created_at = utc_time 0;
}

-- `ReEvaluateInteraction` past the interaction's lookup
unfoldable pub with_interaction :
    Service → String → String → String → ReEvaluationInput → EvaluationError ⊎ Evaluation
with_interaction s tenant interaction_id bundle_id r = elim (s.bundles tenant bundle_id) [
  | Lookup.error e ↦ inl (EvaluationError.failed e)
  | Lookup.missing ↦ inl EvaluationError.policy_bundle_not_found
  | Lookup.found version ↦ inr (re_evaluation s interaction_id bundle_id r version)
]

unfoldable pub re_evaluate_interaction :
    Service → String → String → String → EvaluationError ⊎ Evaluation
re_evaluate_interaction s tenant interaction_id bundle_id = elim (misconfigured s) [
  | some e ↦ inl e
  | none ↦ elim (s.interactions tenant interaction_id) [
    | Lookup.error e ↦ inl (EvaluationError.failed e)
    | Lookup.missing ↦ inl EvaluationError.interaction_not_found
    | Lookup.found r ↦ with_interaction s tenant interaction_id bundle_id r
  ]
]
