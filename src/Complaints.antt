-- ===== src/Complaints.antt =====
-- internal/orchestrator/state.go: complaint cases and the transitions between their states.
pub mod Lifecycle
pub mod Tables
pub mod Store
pub mod Head
pub mod Trail
pub mod Resolution
pub mod Cases
pub mod Creation
pub mod Polling
pub mod Jobs
use vigia.Prelude.{Bool, true, false, ◌||◌, Option, none, some, if◌then◌else◌}
use vigia.Ledger.Encoding.{Text, codes}

-- The check of the database admits no other state.
pub data ComplaintCaseState : Type 0 where
  «open» awaiting_review escalated resolved : ComplaintCaseState

pub data ComplaintTransitionKind : Type 0 where
  «open» request_review approve override ttl_expired sla_breach : ComplaintTransitionKind
  other : Text → ComplaintTransitionKind

abbrev pub state_text : ComplaintCaseState → Text
state_text ComplaintCaseState.«open» = codes "open"
state_text ComplaintCaseState.awaiting_review = codes "awaiting_review"
state_text ComplaintCaseState.escalated = codes "escalated"
state_text ComplaintCaseState.resolved = codes "resolved"

abbrev pub kind_text : ComplaintTransitionKind → Text
kind_text ComplaintTransitionKind.«open» = codes "open"
kind_text ComplaintTransitionKind.request_review = codes "request_review"
kind_text ComplaintTransitionKind.approve = codes "approve"
kind_text ComplaintTransitionKind.override = codes "override"
kind_text ComplaintTransitionKind.ttl_expired = codes "ttl_expired"
kind_text ComplaintTransitionKind.sla_breach = codes "sla_breach"
kind_text (ComplaintTransitionKind.other t) = t

abbrev pub is_open : ComplaintCaseState → Bool
is_open ComplaintCaseState.«open» = true
is_open _ = false

abbrev pub is_awaiting_review : ComplaintCaseState → Bool
is_awaiting_review ComplaintCaseState.awaiting_review = true
is_awaiting_review _ = false

abbrev pub allows_human_review_id : ComplaintTransitionKind → Bool
allows_human_review_id ComplaintTransitionKind.approve = true
allows_human_review_id ComplaintTransitionKind.override = true
allows_human_review_id _ = false

-- `none` is the answer false.
unfoldable pub next_complaint_state :
    ComplaintCaseState → ComplaintTransitionKind → Option ComplaintCaseState
next_complaint_state from ComplaintTransitionKind.request_review =
    if is_open from then some ComplaintCaseState.awaiting_review else none
next_complaint_state from ComplaintTransitionKind.approve =
    if is_awaiting_review from then some ComplaintCaseState.resolved else none
next_complaint_state from ComplaintTransitionKind.override =
    if is_awaiting_review from then some ComplaintCaseState.resolved else none
next_complaint_state from ComplaintTransitionKind.ttl_expired =
    if is_awaiting_review from then some ComplaintCaseState.escalated else none
next_complaint_state from ComplaintTransitionKind.sla_breach =
    if is_open from || is_awaiting_review from then some ComplaintCaseState.escalated else none
next_complaint_state from ComplaintTransitionKind.«open» = none
next_complaint_state from (ComplaintTransitionKind.other t) = none

pub record ComplaintTransitionPlan : Type 0 where
  pub from : ComplaintCaseState
  pub kind : ComplaintTransitionKind
  pub to : ComplaintCaseState

unfoldable pub plan_complaint_transition :
    ComplaintCaseState → ComplaintTransitionKind → Option ComplaintTransitionPlan
plan_complaint_transition from kind = elim (next_complaint_state from kind) [
  | none ↦ none
  | some to ↦ some (record { from = from; kind = kind; to = to })
]
