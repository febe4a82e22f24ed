-- ===== src/Harness/Gate.antt =====
-- internal/harness/outboundgate: the permission gate that asks the outbound decider. Beside the
-- permission it gives the schema denials that it handed to its recorder.
use vigia.Prelude.{
  String, Bool, not, ◌||◌, List, [], ◌∷◌, ◌++◌, Option, none, some, ◌⊎◌, inl, inr, is_empty, ◌==◌,
  String_comparable, if◌then◌else◌,
}
use Prim.Native.String.{◌++◌ as append}
use vigia.Time.{Time, utc_time, is_zero}
use vigia.Core.{Value, Fields}
use vigia.Outbound.{
  ActionKind, DecisionMode, DecisionOutcome, OutboundActionProposal, DecisionRequest, Decision,
  RecordedDecision, ContextGap, no_decision,
}
use vigia.Outbound.Engine.{gap}
use vigia.Outbound.Metadata.{metadata}
use vigia.Outbound.Preflight.{DecisionEngine}
use vigia.Harness.{ToolCall, PermissionDecisionKind, PermissionDecision, PermissionGate, Runtime}

-- `time.Parse(time.RFC3339, …)`: a time, or the text of its error.
abbrev pub ParseTime : Type 0
ParseTime = String → String ⊎ Time

-- The interfaces are options: `none` is nil. `parse_time` is the standard library's.
pub record Config : Type 0 where
  pub tenant_id : String
  pub actor_id : String
  pub decider : Option DecisionEngine
  pub recorder : Option (DecisionRequest → Decision → Option RecordedDecision)
  pub fallback : Option PermissionGate
  pub request_id : String
  pub parse_time : ParseTime

abbrev pub send_outbound_utterance_tool : String
send_outbound_utterance_tool = "send_outbound_utterance"

abbrev text_of : Value → String
text_of (Value.text s) = s
text_of _ = ""

-- `stringValue`: a value of another type, or none, reads as the empty text.
unfoldable pub string_value : Fields → String → String
string_value [] key = ""
string_value ((k, v) ∷ fields) key =
    let rest = string_value fields key in if k == key then text_of v else rest

unfoldable pub valid_channel : String → Bool
valid_channel channel = channel == "call" || channel == "message" || channel == "email"

-- The proposal that the tool's input describes, at a time.
unfoldable pub proposal_at : Fields → Time → OutboundActionProposal
proposal_at input at = record {
  kind = ActionKind.send_outbound_utterance;
  proposal_id = string_value input "proposal_id";
  case_id = string_value input "case_id";
  campaign_id = "";
  step_id = "";
  template_id = "";
  debtor_id = string_value input "debtor_id";
  channel = string_value input "channel";
  recipient_ref = string_value input "recipient_ref";
  text = string_value input "text";
  proposed_at = at;
  debtor_timezone = "";
  contact_party_relationship = "";
  authorized_channels = [];
  payment_target = string_value input "payment_target";
}

abbrev pub is_missing : Fields → Bool
is_missing input =
    string_value input "proposal_id" == ""
    || string_value input "case_id" == ""
    || string_value input "debtor_id" == ""
    || string_value input "channel" == ""
    || string_value input "recipient_ref" == ""
    || string_value input "text" == ""
    || string_value input "proposed_at" == ""

abbrev pub timed : Fields → String ⊎ Time → String ⊎ OutboundActionProposal
timed input (inl e) = inl (append "provide proposed_at as RFC3339: " e)
timed input (inr at) = inr (proposal_at input at)

-- `decodeSendProposal`
unfoldable pub decode_send_proposal : ParseTime → Fields → String ⊎ OutboundActionProposal
decode_send_proposal parse input =
    if is_missing input
    then inl
        "provide proposal_id, case_id, debtor_id, channel, recipient_ref, text, and proposed_at"
    else if not (valid_channel (string_value input "channel"))
    then inl "provide channel as one of call, message, or email"
    else timed input (parse (string_value input "proposed_at"))

abbrev time_or_zero : String ⊎ Time → Time
time_or_zero (inl e) = utc_time 0
time_or_zero (inr at) = at

-- `partialSendProposal`
unfoldable pub partial_send_proposal : ParseTime → Fields → OutboundActionProposal
partial_send_proposal parse input =
    proposal_at input (time_or_zero (parse (string_value input "proposed_at")))

abbrev pub kind_of : DecisionOutcome → PermissionDecisionKind
kind_of DecisionOutcome.allow = PermissionDecisionKind.allowed
kind_of DecisionOutcome.approval_required = PermissionDecisionKind.approval_required
kind_of _ = PermissionDecisionKind.denied

unfoldable pub map_decision : Decision → PermissionDecision
map_decision d = record { kind = kind_of d.outcome; reason = d.reason; metadata = metadata d }

abbrev pub denial : OutboundActionProposal → String → ContextGap → Decision
denial p reason g = record no_decision {
  id = p.proposal_id;
  mode = DecisionMode.enforcement;
  action_kind = p.kind;
  proposal_id = p.proposal_id;
  outcome = DecisionOutcome.deny;
  reason = reason;
  fail_closed_reasons = g ∷ [];
}

abbrev pub with_gap : Decision → ContextGap → Decision
with_gap d g = record d { fail_closed_reasons = d.fail_closed_reasons ++ g ∷ [] }

abbrev pub unrecorded : Decision → Decision
unrecorded d = with_gap d (
    gap "decision_recording_failed" "evidence_ledger"
      "Retry after the enforcement evidence recorder is available; do not send until the blocked decision is auditable.")

abbrev pub with_refs : Decision → Option RecordedDecision → Decision
with_refs d none = unrecorded d
with_refs d (some r) =
    if is_empty r.event_refs || is_empty r.evidence_refs
    then unrecorded d
    else record d { event_refs = r.event_refs; evidence_refs = r.evidence_refs }

abbrev pub send_request : Config → OutboundActionProposal → String → DecisionRequest
send_request c p id = record {
  tenant_id = c.tenant_id;
  actor_id = c.actor_id;
  mode = DecisionMode.enforcement;
  proposal = p;
  request_id = id;
}

-- `mapAndRecordSchemaDenial`
unfoldable pub map_and_record_schema_denial :
    Config
    → OutboundActionProposal
    → Decision
    → Option (DecisionRequest → Decision → Option RecordedDecision)
    → PermissionDecision × List Decision
unfolding map_decision
map_and_record_schema_denial c p d none = (
  map_decision (
      with_gap d (
        gap "decision_recorder_unconfigured" "evidence_ledger"
          "Configure the enforcement evidence recorder before accepting realtime outbound send proposals.")),
  [],
)
map_and_record_schema_denial c p d (some record_decision) =
    if c.tenant_id == "" || p.debtor_id == "" || is_zero p.proposed_at
    then (
      map_decision (
          with_gap d (
            gap "decision_recording_unavailable" "tool_input"
              "Include tenant scope, debtor_id, and proposed_at so invalid realtime outbound denials can be written to the evidence ledger.")),
      [],
    )
    else (map_decision (with_refs d (record_decision (send_request c p d.id) d)), d ∷ [])

abbrev pub decided : OutboundActionProposal → Option Decision → PermissionDecision
decided p none = map_decision (
    denial p "outbound decision failed closed" (
      gap "outbound_decider_error" "outbound_decider"
        "Resolve the outbound decider failure before sending."))
decided p (some d) = map_decision d

abbrev pub ask : Config → OutboundActionProposal → Option DecisionEngine → PermissionDecision
ask c p none = map_decision (
    denial p "outbound decider is not configured" (
      gap "outbound_decider_unconfigured" "outbound_decider"
        "Configure the outbound decider before registering authority-bearing send tools."))
ask c p (some engine) = decided p (engine (send_request c p c.request_id))

-- The gate for a call of the send tool
unfoldable pub decide_send :
    Config → Fields → String ⊎ OutboundActionProposal → PermissionDecision × List Decision
decide_send c input (inl e) =
    let p = partial_send_proposal c.parse_time input in
    map_and_record_schema_denial c p
      (denial p "send_outbound_utterance input schema is invalid"
        (gap "invalid_send_outbound_schema" "tool_input" e))
      c.recorder
decide_send c input (inr p) = (ask c p c.decider, [])

abbrev pub fall_back : ToolCall → Option PermissionGate → PermissionDecision
fall_back call none = record {
  kind = PermissionDecisionKind.denied;
  reason = "permission gate fallback is not configured";
  metadata = [];
}
fall_back call (some gate) = gate call

-- `Gate.Decide`
unfoldable pub decide : Config → ToolCall → PermissionDecision × List Decision
decide c call =
    if not (call.name == send_outbound_utterance_tool)
    then (fall_back call c.fallback, [])
    else decide_send c call.input (decode_send_proposal c.parse_time call.input)

-- `Runtime`: the gate in front of the runtime's own, which is its fallback.
unfoldable pub guarded : Runtime → Config → Runtime
guarded base config = record base {
  permissions = some (λ call. (decide (record config { fallback = base.permissions }) call).0);
}
