-- ===== src/Harness/Guarded.antt =====
-- What the outbound gate lets through (outboundgate), and so what a step behind it can send.
use vigia.Prelude.{
  ◌≡◌, ◌≢◌, ◌↔◌, refl, sym, ap, ◌∙◌, ◌⊎◌, inl, inr, String, true, false, [], ◌∷◌, Option, none,
  some, arith, eq_iff, Bool-cases, Option-cases, some_injective, ◌==◌, String_comparable,
}
use mathlib.Core.Path.{subst}
use vigia.Outbound.{
  DecisionOutcome, OutboundActionProposal, Decision, DecisionRequest, RecordedDecision,
}
use vigia.Outbound.Engine.{Decider}
use vigia.Outbound.Clearance.{IsCleared, decide-allow_iff}
use vigia.Outbound.Preflight.{DecisionEngine}
use vigia.Outbound.Briefing.{engine_of}
use vigia.Harness.{ToolCall, PermissionDecisionKind, PermissionGate, Runtime, Step}
use vigia.Harness.Run.{run_step}
use vigia.Harness.Permitted.{run_step-IsGuarded}
use vigia.Harness.WellFormed.{IsWellFormed, decode-IsWellFormed, sides_differ, same_proposal}
use vigia.Harness.Gate.{
  Config, map_decision, map_and_record_schema_denial, decide_send, decode_send_proposal, with_refs,
  ask, send_request, send_outbound_utterance_tool, fall_back, decide, guarded,
}

-- The engine answers the proposal that the input decodes to with an allow.
pub record IsSendable (c : Config) (call : ToolCall) : Type 0 where
  pub engine : DecisionEngine
  pub proposal : OutboundActionProposal
  pub decision : Decision
  pub configured : c.decider ≡ some engine
  pub decoded : decode_send_proposal c.parse_time call.input ≡ inr proposal
  pub well_formed : IsWellFormed proposal
  pub answered : engine (send_request c proposal c.request_id) ≡ some decision
  pub allowed : decision.outcome ≡ DecisionOutcome.allow

map_decision-allowed_iff :
    (d : Decision)
    → ((map_decision d).kind ≡ PermissionDecisionKind.allowed) ↔ (d.outcome ≡ DecisionOutcome.allow)
unfolding map_decision
map_decision-allowed_iff d = ground arith

with_refs-outcome :
    (d : Decision) (r : Option RecordedDecision) → (with_refs d r).outcome ≡ d.outcome
with_refs-outcome d none = refl
with_refs-outcome d (some r) = ground arith

-- A denial stays one whatever the recorder does.
schema_denial-denied :
    (c : Config) (p : OutboundActionProposal) (d : Decision)
    (recorder : Option (DecisionRequest → Decision → Option RecordedDecision))
    → d.outcome ≡ DecisionOutcome.deny
    → (map_and_record_schema_denial c p d recorder).0.kind ≡ PermissionDecisionKind.denied
unfolding map_and_record_schema_denial map_decision
schema_denial-denied c p d none h = ground arith
schema_denial-denied c p d (some record_decision) h =
    ground (arith, with_refs-outcome d (record_decision (send_request c p d.id) d))

ask-allowed :
    (c : Config) (call : ToolCall) (p : OutboundActionProposal) (engine : Option DecisionEngine)
    → c.decider ≡ engine
    → decode_send_proposal c.parse_time call.input ≡ inr p
    → (ask c p engine).kind ≡ PermissionDecisionKind.allowed
    → IsSendable c call
unfolding map_decision
ask-allowed c call p none h decoded allowed = absurd (ground arith)
ask-allowed c call p (some engine) h decoded allowed =
    elim (Option-cases (engine (send_request c p c.request_id))) [
      | inl e ↦ absurd (ground arith)
      | inr (d, e) ↦ record {
        engine = engine;
        proposal = p;
        decision = d;
        configured = h;
        decoded = decoded;
        well_formed = decode-IsWellFormed c.parse_time call.input p decoded;
        answered = e;
        allowed = ground arith;
      }
    ]

sendable-ask :
    (c : Config) (call : ToolCall) (k : IsSendable c call)
    → (ask c k.proposal c.decider).kind ≡ PermissionDecisionKind.allowed
unfolding map_decision
sendable-ask c call k = rw k.configured (ground (arith, k.answered, k.allowed))

kinds_differ : PermissionDecisionKind.denied ≢ PermissionDecisionKind.allowed
kinds_differ h = absurd (cc)

decide_send-allowed_iff :
    (c : Config) (call : ToolCall) (decoded : String ⊎ OutboundActionProposal)
    → decode_send_proposal c.parse_time call.input ≡ decoded
    → ((decide_send c call.input decoded).0.kind ≡ PermissionDecisionKind.allowed)
      ↔ IsSendable c call
unfolding decide_send
decide_send-allowed_iff c call (inl e) h = (
  λ allowed. absurd (kinds_differ (sym (schema_denial-denied c _ _ c.recorder refl) ∙ allowed)),
  λ k. absurd (sides_differ e k.proposal _ h k.decoded),
)
decide_send-allowed_iff c call (inr p) h = (
  ask-allowed c call p c.decider refl h,
  λ k.
      subst (λ q. (ask c q c.decider).kind ≡ PermissionDecisionKind.allowed)
        (same_proposal k.proposal p _ k.decoded h) (sendable-ask c call k),
)

true-false : true ≢ false
true-false h = absurd (cc)

-- What the gate allows: a send whose proposal the decider allows, and any other call that the
-- gate behind it allows.
abbrev pub Admits : Config → ToolCall → Type 0
Admits c call =
    ((call.name ≡ send_outbound_utterance_tool) × IsSendable c call)
    ⊎ ((call.name ≢ send_outbound_utterance_tool)
        × ((fall_back call c.fallback).kind ≡ PermissionDecisionKind.allowed))

-- The gate allows a call exactly when it is a call of the send tool whose input decodes to a proposal
-- with all its fields and a known channel that the configured decider answers with an allow, or a call of another tool that the gate behind
-- it allows. A recorder never turns a denial of an ill-formed input into a permission.
pub decide-allowed_iff :
    (c : Config) (call : ToolCall)
    → ((decide c call).0.kind ≡ PermissionDecisionKind.allowed) ↔ Admits c call
unfolding decide
decide-allowed_iff c call =
    let sends =
      decide_send-allowed_iff c call (decode_send_proposal c.parse_time call.input) refl in
    elim (Bool-cases (call.name == send_outbound_utterance_tool)) [
      | inl e ↦ rw e (
        λ h. inl ((eq_iff _ _).0 e, sends.0 h),
        λ a. elim a [ inl (_, k) ↦ sends.1 k | inr (other, _) ↦ absurd (other ((eq_iff _ _).0 e)) ],
      )
      | inr e ↦ rw e (
        λ h. inr (λ same. absurd (true-false (sym ((eq_iff _ _).1 same) ∙ e)), h),
        λ a. elim a [
          | inl (same, _) ↦ absurd (true-false (sym ((eq_iff _ _).1 same) ∙ e))
          | inr (_, h) ↦ h
        ],
      )
    ]

-- The record that the gate of a guarded runtime is built from.
abbrev behind : Runtime → Config → Config
behind base config = record config { fallback = base.permissions }

same_gate :
    (base : Runtime) (config : Config) (call : ToolCall) (gate : PermissionGate)
    → (guarded base config).permissions ≡ some gate
    → (gate call).kind ≡ PermissionDecisionKind.allowed
    → (decide (behind base config) call).0.kind ≡ PermissionDecisionKind.allowed
unfolding guarded
same_gate base config call gate e h =
    subst (λ (g : PermissionGate). (g call).kind ≡ PermissionDecisionKind.allowed)
      (sym (some_injective _ _ e)) h

-- Why a guarded runtime may execute a call: a send that the decider clears, or a call of another tool
-- that the runtime's own gate allows.
abbrev pub MayExecute : Decider → Runtime → Config → ToolCall → Type 0
MayExecute d base config call =
    ((call.name ≡ send_outbound_utterance_tool)
      × ((p : OutboundActionProposal) × (decode_send_proposal config.parse_time call.input ≡ inr p)
          × IsWellFormed p
          × IsCleared d (send_request config p config.request_id)))
    ⊎ ((call.name ≢ send_outbound_utterance_tool)
        × ((fall_back call base.permissions).kind ≡ PermissionDecisionKind.allowed))

sendable-IsCleared :
    (d : Decider) (c : Config) (call : ToolCall)
    → c.decider ≡ some (engine_of d)
    → (k : IsSendable c call) → IsCleared d (send_request c k.proposal c.request_id)
sendable-IsCleared d c call h k =
    let engine = some_injective _ _ (sym h ∙ k.configured) in
    let answer =
      ap (λ (e : DecisionEngine). e (send_request c k.proposal c.request_id)) engine ∙ k.answered in
    (decide-allow_iff d _).0
      (ap (λ (x : Decision). x.outcome) (some_injective _ _ answer) ∙ k.allowed)

admitted-MayExecute :
    (d : Decider) (base : Runtime) (config : Config) (call : ToolCall)
    → config.decider ≡ some (engine_of d)
    → Admits (behind base config) call
    → MayExecute d base config call
admitted-MayExecute d base config call h (inl (sends, k)) = inl (
  sends,
  (k.proposal, k.decoded, k.well_formed, sendable-IsCleared d (behind base config) call h k),
)
admitted-MayExecute d base config call h (inr other) = inr other

-- Behind the outbound gate, with the decider as its engine, a step always ends, and what it executes is
-- nothing or one call: a send whose proposal has all its fields and a known channel and is cleared (dated, with its context and its policy
-- bundle resolved, in a known zone, within the rules and passed by the judge), or a call of another
-- tool that the runtime's own gate allows.
pub run_step-IsCleared :
    (d : Decider) (base : Runtime) (config : Config) (input : String)
    → config.decider ≡ some (engine_of d)
    → (s : Step) × (run_step (guarded base config) input ≡ some s)
      × ((s.executed ≡ [])
          ⊎ ((call : ToolCall) × (s.executed ≡ call ∷ []) × MayExecute d base config call))
run_step-IsCleared d base config input h =
    let (s, ends, guard) = run_step-IsGuarded (guarded base config) input in
    (
      s,
      ends,
      elim guard.executes [
        | inl e ↦ inl e
        | inr (call, e, accepted) ↦
            let p = accepted.permitted in
            inr (
              call,
              e,
              admitted-MayExecute d base config call h (
                  (decide-allowed_iff (behind base config) call).0
                    (same_gate base config call p.gate p.configured p.allowed)),
            )
      ],
    )
