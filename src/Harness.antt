-- ===== src/Harness.antt =====
-- internal/harness: the data of one agent step, and the interfaces that a runtime is given.
pub mod Run
pub mod Gate
pub mod WellFormed
pub mod Permitted
pub mod Guarded
use vigia.Prelude.{ℕ, String, List, Option, ◌⊎◌}
use vigia.Core.{Fields}

pub record ToolCall : Type 0 where
  pub name : String
  pub input : Fields

-- `unset` is the empty text, and `other` any text that is not a constant of the package.
pub data ToolStatus : Type 0 where
  unset success denied approval_required not_found : ToolStatus
  other : String → ToolStatus

pub record ToolResult : Type 0 where
  pub status : ToolStatus
  pub output : Fields
  pub reason : String

pub record ModelOutput : Type 0 where
  pub plan : String
  pub tool_call : Option ToolCall
  pub final_output : String

-- `other` is any kind that is not a constant of the package.
pub data PermissionDecisionKind : Type 0 where
  allowed denied approval_required : PermissionDecisionKind
  other : String → PermissionDecisionKind

pub record PermissionDecision : Type 0 where
  pub kind : PermissionDecisionKind
  pub reason : String
  pub metadata : Fields

abbrev pub PermissionGate : Type 0
PermissionGate = ToolCall → PermissionDecision

-- `Tool.Execute`: a result or the text of an error.
abbrev pub Tool : Type 0
Tool = ToolCall → String ⊎ ToolResult

-- A negative limit acts as 0.
pub record Budget : Type 0 where
  pub max_model_attempts : ℕ
  pub max_tool_calls : ℕ

pub data EventType : Type 0 where
  agent_started plan_created tool_proposed permission_decision tool_result validation_failure
        budget_exceeded agent_completed :
      EventType

pub record Event : Type 0 where
  pub event_type : EventType
  pub fields : Fields

pub data StepStatus : Type 0 where
  unset completed validation_failed budget_exceeded permission_denied approval_required
        tool_not_found :
      StepStatus

-- The model may answer each attempt differently: its `Generate` is given the number of the attempt,
-- which counts from 1. The interfaces are options where the code tests them for nil.
pub record Runtime : Type 0 where
  pub model : Option (ℕ → String → String ⊎ ModelOutput)
  pub tools : String → Option Tool
  pub permissions : Option PermissionGate
  pub validator : Option (ModelOutput → Option String)
  pub budget : Budget

pub data StepError : Type 0 where
  no_model no_validator no_gate : StepError
  -- an error of the model or of a tool, by its text
  failed : String → StepError

-- What `RunStep` returns, and the calls that it made on the way: how often it asked the model, and
-- the tool calls that it executed, in order.
pub record Step : Type 0 where
  pub status : StepStatus
  pub final_output : String
  pub tool_result : ToolResult
  pub events : List Event
  pub error : Option StepError
  pub generated : ℕ
  pub executed : List ToolCall
