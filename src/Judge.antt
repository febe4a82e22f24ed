-- ===== src/Judge.antt =====
-- internal/judge: the types of the semantic judge. The judge itself is a network call and stands
-- as a parameter of the components that use it.
use vigia.Prelude.{ℕ, ◌^◌, String, Bool, List, Option}

pub data Outcome : Type 0 where
  pass block : Outcome
  other : String → Outcome

pub record Utterance : Type 0 where
  pub speaker : String
  pub text : String

pub record Rubric : Type 0 where
  pub version : String
  pub prompt : String

pub record JudgeInput : Type 0 where
  pub utterances : List Utterance
  pub rubric : Rubric

-- `Confidence` is a finite float64 that is not negative, in units of 2 ^ -1074, its exact grid.
pub record JudgeResult : Type 0 where
  pub outcome : Outcome
  pub confidence : ℕ
  pub rationale : String
  pub rubric_version : String
  pub judge_model_id : String
  pub input_tokens : ℕ
  pub output_tokens : ℕ
  pub cache_read_input_tokens : ℕ
  pub cache_creation_input_tokens : ℕ

-- The float64 constant 0.5.
unfoldable pub half : ℕ
half = 2 ^ 1073

pub data Sentinel : Type 0 where
  deadline_exceeded canceled transport low_confidence schema_invalid malformed_output : Sentinel

-- An error, by what `errors.Is` answers on it and its text.
pub record JudgeError : Type 0 where
  pub matches : Sentinel → Bool
  pub text : String

-- What a failed judge's rationale names.
pub data Failure : Type 0 where
  timed_out transport_failed below_threshold output_invalid unknown : Failure

-- The result can carry provenance beside an error.
pub record Reply : Type 0 where
  pub result : JudgeResult
  pub error : Option JudgeError

abbrev pub Judge : Type 0
Judge = JudgeInput → Reply
