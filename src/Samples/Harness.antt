-- ===== src/Samples/Harness.antt =====
-- A step whose model proposes to send an utterance, behind the outbound gate.
use vigia.Prelude.{◌≡◌, ◌↔◌, ◌⊎◌, refl, [], ◌∷◌, some, none, inr, nat_eq, if◌then◌else◌}
use vigia.Core.{Value, Fields}
use vigia.Outbound.Briefing.{engine_of}
use vigia.Harness.{ToolCall, ToolStatus, PermissionDecisionKind, Runtime, Step}
use vigia.Harness.Run.{run_step}
use vigia.Harness.Permitted.{IsGuarded, run_step-IsGuarded}
use vigia.Harness.Gate.{Config, decide, guarded}
use vigia.Harness.Guarded.{Admits, MayExecute, decide-allowed_iff, run_step-IsCleared}
use vigia.Samples.{morning}
use vigia.Samples.Outbound.{decider}

abbrev send_input : Fields
send_input =
    ("proposal_id", Value.text "p1")
    ∷ ("case_id", Value.text "c1")
    ∷ ("debtor_id", Value.text "d1")
    ∷ ("channel", Value.text "call")
    ∷ ("recipient_ref", Value.text "r1")
    ∷ ("text", Value.text "Good morning.")
    ∷ ("proposed_at", Value.text "2024-03-01T10:00:00Z")
    ∷ []

abbrev send : ToolCall
send = record { name = "send_outbound_utterance"; input = send_input }

-- The first reply is invalid, the second proposes the send.
abbrev base : Runtime
base = record {
  model = some (λ attempt input. inr (record {
    plan = "send";
    tool_call = if nat_eq attempt 1 then none else some send;
    final_output = "";
  }));
  tools =
      λ name. some (λ call. inr (record { status = ToolStatus.success; output = []; reason = "" }));
  permissions = none;
  validator = some (λ output. elim output.tool_call [ none ↦ some "empty" | some call ↦ none ]);
  budget = record { max_model_attempts = 2; max_tool_calls = 1 };
}

abbrev config : Config
config = record {
  tenant_id = "t1";
  actor_id = "a1";
  decider = some (engine_of decider);
  recorder = none;
  fallback = none;
  request_id = "q1";
  parse_time = λ s. inr morning;
}

run_step-IsGuarded_example :
    (s : Step) × (run_step (guarded base config) "go" ≡ some s)
    × IsGuarded (guarded base config) "go" s
run_step-IsGuarded_example = run_step-IsGuarded (guarded base config) "go"

decide-allowed_iff_example :
    ((decide config send).0.kind ≡ PermissionDecisionKind.allowed) ↔ Admits config send
decide-allowed_iff_example = decide-allowed_iff config send

run_step-IsCleared_example :
    (s : Step) × (run_step (guarded base config) "go" ≡ some s)
    × ((s.executed ≡ [])
        ⊎ ((call : ToolCall) × (s.executed ≡ call ∷ []) × MayExecute decider base config call))
run_step-IsCleared_example = run_step-IsCleared decider base config "go" refl
