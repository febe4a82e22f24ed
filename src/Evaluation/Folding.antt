-- ===== src/Evaluation/Folding.antt =====
-- internal/evaluation/service.go: `runDetectorsAndJudges`, its two loops as folds over the run.
use vigia.Prelude.{
  String, Bool, true, false, ◌||◌, List, [], ◌∷◌, ◌++◌, Option, none, some, for_each, if◌then◌else◌,
}
use vigia.Core.{DetectorOutcome, Severity}
use vigia.Detection as Detection
use vigia.Detection.{Interaction, Rationale, Result}
use vigia.Judge as Judge
use vigia.Judge.{JudgeResult, JudgeError, JudgeInput, Reply, Sentinel, Failure, Utterance}
use vigia.Evaluation.{NamedDetector, NamedJudge, DetectorResultInput, DetectorJudgeRun, Service}

abbrev pub no_run : DetectorJudgeRun
no_run = record {
  overall_outcome = "pass";
  results = [];
  requires_hitl = false;
  judge_model_id = "";
  rubric_version = "";
  judge_confidence = none;
  judge_input_tokens = 0;
  judge_output_tokens = 0;
  judge_cache_read_tokens = 0;
  judge_cache_creation_tokens = 0;
}

abbrev pub row : String → DetectorOutcome → Severity → Rationale → DetectorResultInput
row code outcome severity rationale = record {
  detector_code = code;
  outcome = outcome;
  severity = severity;
  rationale = rationale;
  confidence = none;
  score = none;
}

abbrev pub append_row : DetectorJudgeRun → DetectorResultInput → DetectorJudgeRun
append_row run r = record run { results = run.results ++ r ∷ [] }

-- The switch on a detector's outcome.
unfoldable pub by_outcome :
    NamedDetector → DetectorJudgeRun → Rationale → Detection.Outcome → DetectorJudgeRun
by_outcome nd run rationale Detection.Outcome.block =
    append_row
      (record run {
        overall_outcome = "fail";
        requires_hitl = run.requires_hitl || nd.requires_hitl;
      })
      (row nd.code DetectorOutcome.fail Severity.high rationale)
by_outcome nd run rationale Detection.Outcome.warn =
    append_row run (row nd.code DetectorOutcome.warn Severity.medium rationale)
by_outcome nd run rationale Detection.Outcome.pass =
    append_row run (row nd.code DetectorOutcome.pass Severity.low rationale)
by_outcome nd run rationale (Detection.Outcome.other o) =
    append_row (record run { overall_outcome = "fail" })
      (row nd.code DetectorOutcome.fail Severity.high
        (Rationale.unrecognized nd.code (Detection.Outcome.other o) rationale))

unfoldable pub run_detector : Interaction → DetectorJudgeRun → NamedDetector → DetectorJudgeRun
run_detector i run nd = let res = nd.detector i in by_outcome nd run res.rationale res.outcome

unfoldable pub judge_failure : JudgeError → Failure
judge_failure e =
    if e.matches Sentinel.deadline_exceeded || e.matches Sentinel.canceled
    then Failure.timed_out
    else if e.matches Sentinel.transport
    then Failure.transport_failed
    else if e.matches Sentinel.low_confidence
    then Failure.below_threshold
    else if e.matches Sentinel.schema_invalid || e.matches Sentinel.malformed_output
    then Failure.output_invalid
    else Failure.unknown

abbrev pub is_judge_block : Judge.Outcome → Bool
is_judge_block Judge.Outcome.block = true
is_judge_block _ = false

-- The provenance that every attempt records.
abbrev pub with_provenance : DetectorJudgeRun → JudgeResult → DetectorJudgeRun
with_provenance run r = record run {
  judge_model_id = r.judge_model_id;
  rubric_version = r.rubric_version;
  judge_input_tokens = r.input_tokens;
  judge_output_tokens = r.output_tokens;
  judge_cache_read_tokens = r.cache_read_input_tokens;
  judge_cache_creation_tokens = r.cache_creation_input_tokens;
}

unfoldable pub by_reply :
    String → DetectorJudgeRun → JudgeResult → Option JudgeError → DetectorJudgeRun
unfolding judge_failure
by_reply code run r (some e) =
    append_row (record run { overall_outcome = "fail"; requires_hitl = true })
      (row code DetectorOutcome.review Severity.high
        (Rationale.judge_failed (judge_failure e) e.text))
by_reply code run r none =
    if is_judge_block r.outcome
    then append_row
        (record run {
          overall_outcome = "fail";
          requires_hitl = true;
          judge_confidence = some r.confidence;
        })
        (record (row code DetectorOutcome.fail Severity.critical (Rationale.given r.rationale)) {
          confidence = some r.confidence;
        })
    else append_row (record run { judge_confidence = some r.confidence })
        (record (row code DetectorOutcome.pass Severity.low (Rationale.given r.rationale)) {
          confidence = some r.confidence;
        })

unfoldable pub run_judge : JudgeInput → DetectorJudgeRun → NamedJudge → DetectorJudgeRun
run_judge input run nj =
    let reply = nj.judge input in
    by_reply nj.code (with_provenance run reply.result) reply.result reply.error

unfoldable pub run_detectors_and_judges : Service → Interaction → List Utterance → DetectorJudgeRun
run_detectors_and_judges s i utterances =
    let detected = for_each (run_detector i) no_run s.detectors in
    for_each (run_judge (record { utterances = utterances; rubric = s.rubric })) detected s.judges
