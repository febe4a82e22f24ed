-- ===== src/Samples/Evaluation.antt =====
-- A service of one detector and one judge.
use vigia.Prelude.{
  ◌≡◌, ◌↔◌, ◌||◌, false, true, [], ◌∷◌, some, none, any, map, if◌then◌else◌, inl, inr,
}
use vigia.Time.{utc_time}
use vigia.Detection.ThirdParty
use vigia.Judge as Judge
use vigia.Judge.{JudgeInput, JudgeResult, Reply}
use vigia.Evaluation.{Service, Evaluation, EvaluationError, Lookup}
use vigia.Evaluation.Folding.{run_detectors_and_judges}
use vigia.Evaluation.Run.{re_evaluate_interaction}
use vigia.Evaluation.Outcomes.{
  is_failing, is_reviewed, is_judge_failing, judge_input, run-overall_outcome, run-requires_hitl,
  run-codes,
}
use vigia.Evaluation.Replay.{IsReplay, re_evaluate-IsReplay_iff}
use vigia.Samples.{call}

abbrev strange : JudgeResult
strange = record {
  outcome = Judge.Outcome.other "abstain";
  confidence = 0;
  rationale = "unclear";
  rubric_version = "v1";
  judge_model_id = "m1";
  input_tokens = 10;
  output_tokens = 5;
  cache_read_input_tokens = 0;
  cache_creation_input_tokens = 0;
}

abbrev service : Service
service = record {
  detectors =
      record { code = "MX-REDECO-06"; detector = ThirdParty.evaluate; requires_hitl = true } ∷ [];
  judges =
      record {
        code = "MX-REDECO-05";
        judge = λ input. record {
          result = strange;
          error = some (record { matches = λ x. false; text = "refused" });
        };
      }
      ∷ [];
  rubric = record { version = "v1"; prompt = "Judge the tone." };
  create_evaluation = λ input. inl (EvaluationError.failed "closed");
  resolver = none;
  interactions = λ tenant id.
      Lookup.found (record { tenant_id = tenant; interaction = call; utterances = [] });
  bundles = λ tenant id. Lookup.found "1";
}

run-overall_outcome_example : (run_detectors_and_judges service call []).overall_outcome ≡ (
    if any (is_failing call) service.detectors
      || any (is_judge_failing (judge_input service [])) service.judges
    then "fail"
    else "pass")
run-overall_outcome_example = run-overall_outcome service call []

run-requires_hitl_example : (run_detectors_and_judges service call []).requires_hitl ≡ (
    any (is_reviewed call) service.detectors
    || any (is_judge_failing (judge_input service [])) service.judges)
run-requires_hitl_example = run-requires_hitl service call []

run-codes_example :
    map (λ x. x.detector_code) (run_detectors_and_judges service call []).results
    ≡ "MX-REDECO-06" ∷ "MX-REDECO-05" ∷ []
run-codes_example = run-codes service call []

abbrev replayed : Evaluation
replayed = record {
  id = "";
  tenant_id = "t1";
  interaction_event_id = "i1";
  overall_outcome = "fail";
  policy_bundle_version = "1";
  policy_bundle_id = some "b1";
  created_at = utc_time 0;
}

re_evaluate-IsReplay_iff_example :
    (re_evaluate_interaction service "t1" "i1" "b1" ≡ inr replayed)
    ↔ IsReplay service "t1" "i1" "b1" replayed
re_evaluate-IsReplay_iff_example = re_evaluate-IsReplay_iff service "t1" "i1" "b1" replayed
