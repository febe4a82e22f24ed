-- ===== src/Harness/Run.antt =====
-- internal/harness/runtime.go: `RunStep`.
use vigia.Prelude.{
  ℕ, zero, suc, ◌+◌, String, Bool, not, List, [], ◌∷◌, ◌++◌, Option, none, some, ◌⊎◌, inl, inr, leb,
  any, ◌==◌, String_comparable, if◌then◌else◌,
}
use vigia.Core.{Value, Fields}
use vigia.Harness.{
  ToolCall, ToolStatus, ToolResult, ModelOutput, PermissionDecisionKind, PermissionDecision,
  PermissionGate, Tool, Event, EventType, StepStatus, StepError, Step, Runtime,
}

abbrev pub no_tool_result : ToolResult
no_tool_result = record { status = ToolStatus.unset; output = []; reason = "" }

-- The zero `StepResult{}`, with no error and no call made.
abbrev pub no_step : Step
no_step = record {
  status = StepStatus.unset;
  final_output = "";
  tool_result = no_tool_result;
  events = [];
  error = none;
  generated = 0;
  executed = [];
}

-- `events.add`
abbrev pub add : List Event → EventType → Fields → List Event
add events t fields = events ++ record { event_type = t; fields = fields } ∷ []

abbrev has_key : Fields → String → Bool
has_key fields key = any (λ (entry : String × Value). entry.0 == key) fields

-- `eventDataWithMetadata`: an entry of the metadata is left out if its key is taken.
unfoldable pub event_data_with_metadata : Fields → Fields → Fields
event_data_with_metadata fields [] = fields
event_data_with_metadata fields ((key, value) ∷ metadata) =
    let rest = event_data_with_metadata fields metadata in
    if has_key fields key then rest else rest ++ (key, value) ∷ []

abbrev pub status_text : ToolStatus → String
status_text ToolStatus.unset = ""
status_text ToolStatus.success = "success"
status_text ToolStatus.denied = "denied"
status_text ToolStatus.approval_required = "approval_required"
status_text ToolStatus.not_found = "not_found"
status_text (ToolStatus.other s) = s

abbrev pub kind_text : PermissionDecisionKind → String
kind_text PermissionDecisionKind.allowed = "allowed"
kind_text PermissionDecisionKind.denied = "denied"
kind_text PermissionDecisionKind.approval_required = "approval_required"
kind_text (PermissionDecisionKind.other s) = s

abbrev pub result_fields : ToolCall → ToolResult → Fields
result_fields call r =
    ("tool", Value.text call.name)
    ∷ ("status", Value.text (status_text r.status))
    ∷ ("reason", Value.text r.reason)
    ∷ []

abbrev pub rejected : ToolStatus → String → ToolResult
rejected status reason = record { status = status; output = []; reason = reason }

-- `tool.Execute`, and what follows it
unfoldable pub execute : ToolCall → Tool → List Event → Step
execute call tool events = elim (tool call) [
  | inl e ↦ record no_step {
    events = events;
    error = some (StepError.failed e);
    executed = call ∷ [];
  }
  | inr r ↦ record no_step {
    status = StepStatus.completed;
    tool_result = r;
    events =
        add (add events EventType.tool_result (result_fields call r)) EventType.agent_completed
          (("status", Value.text "completed") ∷ []);
    executed = call ∷ [];
  }
]

-- Past the permission: the budget and the registry.
unfoldable pub run_allowed : Runtime → ToolCall → List Event → Step
run_allowed r call events =
    if leb r.budget.max_tool_calls 0
    then record no_step {
      status = StepStatus.budget_exceeded;
      events = add events EventType.budget_exceeded (
          ("resource", Value.text "tool_calls")
          ∷ ("limit", Value.number r.budget.max_tool_calls)
          ∷ ("tool", Value.text call.name)
          ∷ []);
    }
    else elim (r.tools call.name) [
      | none ↦
          let result = rejected ToolStatus.not_found "tool not found" in
          record no_step {
            status = StepStatus.tool_not_found;
            tool_result = result;
            events = add events EventType.tool_result (result_fields call result);
          }
      | some tool ↦ execute call tool events
    ]

-- The switch on the decision's kind.
unfoldable pub by_kind :
    Runtime → ToolCall → PermissionDecision → List Event → PermissionDecisionKind → Step
by_kind r call decision events PermissionDecisionKind.denied =
    let result = rejected ToolStatus.denied decision.reason in
    record no_step {
      status = StepStatus.permission_denied;
      tool_result = result;
      events =
          add events EventType.tool_result
            (event_data_with_metadata (result_fields call result) decision.metadata);
    }
by_kind r call decision events PermissionDecisionKind.approval_required =
    let result = rejected ToolStatus.approval_required decision.reason in
    record no_step {
      status = StepStatus.approval_required;
      tool_result = result;
      events =
          add events EventType.tool_result
            (event_data_with_metadata (result_fields call result) decision.metadata);
    }
by_kind r call decision events PermissionDecisionKind.allowed = run_allowed r call events
by_kind r call decision events (PermissionDecisionKind.other k) =
    let result = rejected ToolStatus.denied "unknown permission decision" in
    record no_step {
      status = StepStatus.permission_denied;
      tool_result = result;
      events = add events EventType.tool_result (result_fields call result);
    }

unfoldable pub evaluate_tool : Runtime → ToolCall → List Event → Option PermissionGate → Step
evaluate_tool r call events none = record no_step {
  events = add events EventType.tool_proposed (("tool", Value.text call.name) ∷ []);
  error = some StepError.no_gate;
}
evaluate_tool r call events (some gate) =
    let decision = gate call in
    let proposed = add events EventType.tool_proposed (("tool", Value.text call.name) ∷ []) in
    by_kind r call decision
      (add proposed EventType.permission_decision (
        event_data_with_metadata
          (("tool", Value.text call.name)
            ∷ ("decision", Value.text (kind_text decision.kind))
            ∷ ("reason", Value.text decision.reason)
            ∷ [])
          decision.metadata))
      decision.kind

-- An output that the validator accepts
unfoldable pub accept : Runtime → ModelOutput → List Event → Option ToolCall → Step
accept r output events call =
    let planned =
      if not (output.plan == "")
      then add events EventType.plan_created (("plan", Value.text output.plan) ∷ [])
      else events in
    elim call [
      | some c ↦ evaluate_tool r c planned r.permissions
      | none ↦ record no_step {
        status = StepStatus.completed;
        final_output = output.final_output;
        events = add planned EventType.agent_completed (("status", Value.text "completed") ∷ []);
      }
    ]

abbrev pub after_attempts : ℕ → Step → Step
after_attempts n step = record step { generated = n }

abbrev pub attempts_exceeded : Runtime → List Event → Step
attempts_exceeded r events = record no_step {
  status = StepStatus.budget_exceeded;
  events = add events EventType.budget_exceeded (
      ("resource", Value.text "model_attempts")
      ∷ ("limit", Value.number r.budget.max_model_attempts)
      ∷ []);
}

abbrev pub validation_failure : List Event → String → ℕ → List Event
validation_failure events e attempt =
    add events EventType.validation_failure
      (("error", Value.text e) ∷ ("attempt", Value.number attempt) ∷ [])

-- What follows the validation of an output; `again` is the rest of the loop.
unfoldable pub after_validation :
    Runtime
    → ModelOutput
    → ℕ
    → List Event
    → (List Event → Option Step)
    → Option String
    → Option Step
after_validation r output attempt events again none =
    some (after_attempts attempt (accept r output events output.tool_call))
after_validation r output attempt events again (some e) =
    let failed = validation_failure events e attempt in
    if leb r.budget.max_model_attempts attempt
    then some (record no_step {
      status = StepStatus.validation_failed;
      events = failed;
      generated = attempt;
    })
    else again failed

unfoldable pub after_reply :
    Runtime
    → (ModelOutput → Option String)
    → ℕ
    → List Event
    → (List Event → Option Step)
    → String ⊎ ModelOutput
    → Option Step
after_reply r validate attempt events again (inl e) =
    some
      (record no_step { events = events; error = some (StepError.failed e); generated = attempt })
after_reply r validate attempt events again (inr output) =
    after_validation r output attempt events again (validate output)

-- The loop, on fuel, after `attempts` attempts; `none` is out of fuel.
unfoldable pub attempt_loop :
    Runtime
    → (ℕ → String → String ⊎ ModelOutput)
    → (ModelOutput → Option String)
    → String
    → ℕ
    → ℕ
    → List Event
    → Option Step
attempt_loop r generate validate input zero attempts events = none
attempt_loop r generate validate input (suc fuel) attempts events =
    let attempt = attempts + 1 in
    let again =
      λ (failed : List Event). attempt_loop r generate validate input fuel attempt failed in
    if leb r.budget.max_model_attempts attempts
    then some (after_attempts attempts (attempts_exceeded r events))
    else after_reply r validate attempt events again (generate attempt input)

abbrev pub started : String → List Event
started input = add [] EventType.agent_started (("input", Value.text input) ∷ [])

unfoldable pub run_with :
    Runtime
    → String
    → Option (ℕ → String → String ⊎ ModelOutput)
    → Option (ModelOutput → Option String)
    → Option Step
run_with r input none validator = some (record no_step { error = some StepError.no_model })
run_with r input (some generate) none =
    some (record no_step { error = some StepError.no_validator })
run_with r input (some generate) (some validate) =
    attempt_loop r generate validate input (r.budget.max_model_attempts + 1) 0 (started input)

-- `RunStep`
unfoldable pub run_step : Runtime → String → Option Step
run_step r input = run_with r input r.model r.validator
