-- ===== src/Harness/Permitted.antt =====
-- Which tool calls a step executes, and how often it asks the model (runtime.go).
use vigia.Prelude.{
  ℕ, zero, suc, ◌+◌, ◌≤◌, ◌<◌, ◌≡◌, refl, ◌⊎◌, inl, inr, String, List, [], ◌∷◌, Option, none, some,
  arith, Option-cases, Bool-cases, leb,
}
use vigia.Harness.{
  ToolCall, ModelOutput, PermissionDecisionKind, PermissionDecision, PermissionGate, Tool, Event,
  Step, Runtime,
}
use vigia.Harness.Run.{
  execute, run_allowed, by_kind, evaluate_tool, accept, after_validation, after_reply, attempt_loop,
  run_with, run_step, started,
}

-- The gate allows the call, its tool is registered and the budget grants a tool call.
pub record IsPermitted (r : Runtime) (call : ToolCall) : Type 0 where
  pub gate : PermissionGate
  pub tool : Tool
  pub configured : r.permissions ≡ some gate
  pub allowed : (gate call).kind ≡ PermissionDecisionKind.allowed
  pub registered : r.tools call.name ≡ some tool
  pub granted : 0 < r.budget.max_tool_calls

-- The step executes nothing, or this call.
abbrev Executes : Step → ToolCall → Type 0 → Type 0
Executes s call P = (s.executed ≡ []) ⊎ ((s.executed ≡ call ∷ []) × P)

execute-executed :
    (call : ToolCall) (tool : Tool) (events : List Event)
    → (execute call tool events).executed ≡ call ∷ []
unfolding execute
execute-executed call tool events = ground arith

run_allowed-Executes :
    (r : Runtime) (call : ToolCall) (events : List Event)
    → Executes
        (run_allowed r call events)
        call
        ((tool : Tool) × (r.tools call.name ≡ some tool) × (0 < r.budget.max_tool_calls))
unfolding run_allowed
run_allowed-Executes r call events = elim (Option-cases (r.tools call.name)) [
  | inl e ↦ inl (ground arith)
  | inr (tool, e) ↦ elim (Bool-cases (leb r.budget.max_tool_calls 0)) [
    | inl spent ↦ inl (ground arith)
    | inr left ↦ inr (ground (arith, execute-executed call tool events), (tool, e, ground arith))
  ]
]

by_kind-Executes :
    (r : Runtime) (call : ToolCall) (d : PermissionDecision) (events : List Event)
    (k : PermissionDecisionKind)
    → Executes (by_kind r call d events k) call (
        (k ≡ PermissionDecisionKind.allowed)
        × ((tool : Tool) × (r.tools call.name ≡ some tool) × (0 < r.budget.max_tool_calls)))
unfolding by_kind
by_kind-Executes r call d events PermissionDecisionKind.denied = inl refl
by_kind-Executes r call d events PermissionDecisionKind.approval_required = inl refl
by_kind-Executes r call d events (PermissionDecisionKind.other k) = inl refl
by_kind-Executes r call d events PermissionDecisionKind.allowed =
    elim (run_allowed-Executes r call events) [
      | inl e ↦ inl e
      | inr (e, tool) ↦ inr (e, (refl, tool))
    ]

evaluate_tool-Executes :
    (r : Runtime) (call : ToolCall) (events : List Event) (gate : Option PermissionGate)
    → r.permissions ≡ gate
    → Executes (evaluate_tool r call events gate) call (IsPermitted r call)
unfolding evaluate_tool
evaluate_tool-Executes r call events none h = inl refl
evaluate_tool-Executes r call events (some gate) h =
    elim (by_kind-Executes r call (gate call) _ (gate call).kind) [
      | inl e ↦ inl e
      | inr (e, (allowed, (tool, registered, granted))) ↦ inr (
        e,
        record {
          gate = gate;
          tool = tool;
          configured = h;
          allowed = allowed;
          registered = registered;
          granted = granted;
        },
      )
    ]

accept-Executes :
    (r : Runtime) (output : ModelOutput) (events : List Event) (call : Option ToolCall)
    → ((accept r output events call).executed ≡ [])
      ⊎ ((c : ToolCall) × (call ≡ some c)
          × ((accept r output events call).executed ≡ c ∷ [])
          × IsPermitted r c)
unfolding accept
accept-Executes r output events none = inl refl
accept-Executes r output events (some call) =
    elim (evaluate_tool-Executes r call _ r.permissions refl) [
      | inl e ↦ inl e
      | inr (e, permitted) ↦ inr (call, refl, e, permitted)
    ]

-- The call stood in an output of the model that the validator accepted, and was permitted.
pub record IsAccepted (r : Runtime) (input : String) (call : ToolCall) : Type 0 where
  pub attempt : ℕ
  pub generate : ℕ → String → String ⊎ ModelOutput
  pub validate : ModelOutput → Option String
  pub output : ModelOutput
  pub model : r.model ≡ some generate
  pub validator : r.validator ≡ some validate
  pub in_budget : (1 ≤ attempt) × (attempt ≤ r.budget.max_model_attempts)
  pub generated : generate attempt input ≡ inr output
  pub valid : validate output ≡ none
  pub proposed : output.tool_call ≡ some call
  pub permitted : IsPermitted r call

-- A step asks the model within its budget, and executes at most one call, an accepted one.
pub record IsGuarded (r : Runtime) (input : String) (s : Step) : Type 0 where
  pub bounded : s.generated ≤ r.budget.max_model_attempts
  pub executes :
      (s.executed ≡ []) ⊎ ((call : ToolCall) × (s.executed ≡ call ∷ []) × IsAccepted r input call)

module _ (r : Runtime) (input : String) (generate : ℕ → String → String ⊎ ModelOutput)
    (validate : ModelOutput → Option String) (model : r.model ≡ some generate)
    (validator : r.validator ≡ some validate) where
  -- A reply at an attempt within the budget, where the rest of the loop keeps the guard.
  after_validation-IsGuarded :
      (output : ModelOutput) (attempt : ℕ) (events : List Event) (again : List Event → Option Step)
      (verdict : Option String)
      → 1 ≤ attempt
      → attempt ≤ r.budget.max_model_attempts
      → generate attempt input ≡ inr output
      → validate output ≡ verdict
      → (attempt < r.budget.max_model_attempts
          → (failed : List Event) → (s : Step) × (again failed ≡ some s) × IsGuarded r input s)
      → (s : Step) × (after_validation r output attempt events again verdict ≡ some s)
        × IsGuarded r input s
  unfolding after_validation
  after_validation-IsGuarded output attempt events again none low high reply valid rest = (
    _,
    refl,
    record {
      bounded = high;
      executes = elim (accept-Executes r output events output.tool_call) [
        | inl e ↦ inl e
        | inr (call, proposed, e, permitted) ↦ inr (
          call,
          e,
          record {
            attempt = attempt;
            generate = generate;
            validate = validate;
            output = output;
            model = model;
            validator = validator;
            in_budget = (low, high);
            generated = reply;
            valid = valid;
            proposed = proposed;
            permitted = permitted;
          },
        )
      ];
    },
  )
  after_validation-IsGuarded output attempt events again (some e) low high reply valid rest =
      elim (Bool-cases (leb r.budget.max_model_attempts attempt)) [
        | inl last ↦ rw last (_, refl, record { bounded = high; executes = inl refl })
        | inr more ↦ rw more (rest (ground arith) _)
      ]

  after_reply-IsGuarded :
      (attempt : ℕ) (events : List Event) (again : List Event → Option Step)
      (reply : String ⊎ ModelOutput)
      → 1 ≤ attempt
      → attempt ≤ r.budget.max_model_attempts
      → generate attempt input ≡ reply
      → (attempt < r.budget.max_model_attempts
          → (failed : List Event) → (s : Step) × (again failed ≡ some s) × IsGuarded r input s)
      → (s : Step) × (after_reply r validate attempt events again reply ≡ some s)
        × IsGuarded r input s
  unfolding after_reply
  after_reply-IsGuarded attempt events again (inl e) low high reply rest =
      (_, refl, record { bounded = high; executes = inl refl })
  after_reply-IsGuarded attempt events again (inr output) low high reply rest =
      after_validation-IsGuarded output attempt events again (validate output) low high reply refl
        rest

  attempt_loop-IsGuarded :
      (fuel attempts : ℕ) (events : List Event)
      → attempts ≤ r.budget.max_model_attempts
      → r.budget.max_model_attempts < fuel + attempts
      → (s : Step) × (attempt_loop r generate validate input fuel attempts events ≡ some s)
        × IsGuarded r input s
  unfolding attempt_loop
  attempt_loop-IsGuarded zero attempts events h f = absurd (omega arith)
  attempt_loop-IsGuarded (suc fuel) attempts events h f =
      elim (Bool-cases (leb r.budget.max_model_attempts attempts)) [
        | inl spent ↦ rw spent (_, refl, record { bounded = h; executes = inl refl })
        | inr left ↦ rw left (
            after_reply-IsGuarded (attempts + 1) events _ (generate (attempts + 1) input)
              (omega arith) (ground arith) refl
              (λ more failed.
                attempt_loop-IsGuarded fuel (attempts + 1) failed (omega arith) (omega arith)))
      ]

run_with-IsGuarded :
    (r : Runtime) (input : String) (model : Option (ℕ → String → String ⊎ ModelOutput))
    (validator : Option (ModelOutput → Option String))
    → r.model ≡ model
    → r.validator ≡ validator
    → (s : Step) × (run_with r input model validator ≡ some s) × IsGuarded r input s
unfolding run_with
run_with-IsGuarded r input none validator m v =
    (_, refl, record { bounded = omega arith; executes = inl refl })
run_with-IsGuarded r input (some generate) none m v =
    (_, refl, record { bounded = omega arith; executes = inl refl })
run_with-IsGuarded r input (some generate) (some validate) m v =
    attempt_loop-IsGuarded r input generate validate m v (r.budget.max_model_attempts + 1) 0
      (started input) (omega arith) (omega arith)

-- A step always ends. It asks the model at most as often as its budget grants, and it executes at most
-- one tool call: one that stood in an output which the validator accepted, that the permission gate
-- allowed, whose tool is registered, and with a budget of at least one tool call.
pub run_step-IsGuarded :
    (r : Runtime) (input : String) → (s : Step) × (run_step r input ≡ some s) × IsGuarded r input s
unfolding run_step
run_step-IsGuarded r input = run_with-IsGuarded r input r.model r.validator refl refl
