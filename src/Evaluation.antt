-- ===== src/Evaluation.antt =====
-- internal/evaluation/service.go: the service that runs the detectors and the judges over an
-- interaction and stores the evaluation. The store, the resolver, the lookups, the detectors and
-- the judges are the service's fields, as in the source. Logging is not modelled.
pub mod Folding
pub mod Run
pub mod Outcomes
pub mod Replay
use vigia.Prelude.{ℕ, String, Bool, List, Option, ◌⊎◌}
use vigia.Time.{Time}
use vigia.Core.{DetectorOutcome, Severity}
use vigia.Detection.{Interaction, Rationale, Detector}
use vigia.Judge.{Judge, Rubric, Utterance}

pub record NamedDetector : Type 0 where
  pub code : String
  pub detector : Detector
  pub requires_hitl : Bool

pub record NamedJudge : Type 0 where
  pub code : String
  pub judge : Judge

pub record DetectorResultInput : Type 0 where
  pub detector_code : String
  pub outcome : DetectorOutcome
  pub severity : Severity
  pub rationale : Rationale
  pub confidence : Option ℕ
  pub score : Option ℕ

pub record DetectorJudgeRun : Type 0 where
  pub overall_outcome : String
  pub results : List DetectorResultInput
  pub requires_hitl : Bool
  pub judge_model_id : String
  pub rubric_version : String
  pub judge_confidence : Option ℕ
  pub judge_input_tokens : ℕ
  pub judge_output_tokens : ℕ
  pub judge_cache_read_tokens : ℕ
  pub judge_cache_creation_tokens : ℕ

pub record CreateEvaluationInput : Type 0 where
  pub tenant_id : String
  pub interaction_event_id : String
  pub policy_bundle_version : String
  pub policy_bundle_id : Option String
  -- the header fields that the run fills, and its results
  pub run : DetectorJudgeRun

pub record Evaluation : Type 0 where
  pub id : String
  pub tenant_id : String
  pub interaction_event_id : String
  pub overall_outcome : String
  pub policy_bundle_version : String
  pub policy_bundle_id : Option String
  pub created_at : Time

pub record EvaluateInteractionInput : Type 0 where
  pub tenant_id : String
  pub interaction_event_id : String
  pub interaction : Interaction
  pub utterances : List Utterance

pub record ReEvaluationInput : Type 0 where
  pub tenant_id : String
  pub interaction : Interaction
  pub utterances : List Utterance

pub data EvaluationError : Type 0 where
  no_detectors multiple_judges interaction_not_found policy_bundle_not_found : EvaluationError
  -- an error of the store or of a lookup, by its text
  failed : String → EvaluationError

-- What a lookup answers: an error, not found, or a value.
pub data Lookup (A : Type 0) : Type 0 where
  error : String → Lookup A
  missing : Lookup A
  found : A → Lookup A

pub record ActiveBundle : Type 0 where
  pub version : String
  pub id : String

pub record Service : Type 0 where
  pub detectors : List NamedDetector
  pub judges : List NamedJudge
  pub rubric : Rubric
  -- `Store.CreateEvaluation`
  pub create_evaluation : CreateEvaluationInput → EvaluationError ⊎ Evaluation
  -- `Resolver.ActiveBundle`, of a tenant; `none` is the nil resolver
  pub resolver : Option (String → Lookup ActiveBundle)
  -- `Interactions.GetInteractionForReEvaluation`, of a tenant and an interaction
  pub interactions : String → String → Lookup ReEvaluationInput
  -- `Bundles.BundleVersionByID`, of a tenant and a bundle
  pub bundles : String → String → Lookup String
