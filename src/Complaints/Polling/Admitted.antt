-- ===== src/Complaints/Polling/Admitted.antt =====
-- Which transitions a state admits (state.go).
use vigia.Prelude.{◌≡◌, refl, ap, ◌⊎◌, inl, inr, Bool, true, ◌&&◌, ◌||◌, some, arith}
use vigia.Ledger.Chain.{Text_comparable, text_equal}
use vigia.Complaints.{
  ComplaintCaseState, ComplaintTransitionKind, ComplaintTransitionPlan, kind_text, is_open,
  is_awaiting_review, allows_human_review_id, next_complaint_state, plan_complaint_transition,
}
use vigia.Complaints.Jobs.{kind_of}

pub kinds_read :
    (kind_of (kind_text ComplaintTransitionKind.request_review)
      ≡ ComplaintTransitionKind.request_review)
    × (kind_of (kind_text ComplaintTransitionKind.sla_breach) ≡ ComplaintTransitionKind.sla_breach)
    × (kind_of (kind_text ComplaintTransitionKind.ttl_expired)
        ≡ ComplaintTransitionKind.ttl_expired)
unfolding kind_of text_equal
kinds_read = (refl, refl, refl)

pub human_reads :
    (k : ComplaintTransitionKind) → allows_human_review_id k ≡ true → kind_of (kind_text k) ≡ k
unfolding kind_of text_equal
human_reads ComplaintTransitionKind.approve h = refl
human_reads ComplaintTransitionKind.override h = refl
human_reads ComplaintTransitionKind.request_review h = absurd (cc)
human_reads ComplaintTransitionKind.ttl_expired h = absurd (cc)
human_reads ComplaintTransitionKind.sla_breach h = absurd (cc)
human_reads ComplaintTransitionKind.«open» h = absurd (cc)
human_reads (ComplaintTransitionKind.other t) h = absurd (cc)

pub and_true : (a b : Bool) → (a && b) ≡ true → (a ≡ true) × (b ≡ true)
and_true a b h = ground arith

-- A case whose state admits a kind is planned for it.
pub open_planned :
    (s : ComplaintCaseState)
    → is_open s ≡ true
    → (p : ComplaintTransitionPlan) × (plan_complaint_transition s
          ComplaintTransitionKind.request_review
        ≡ some p)
unfolding plan_complaint_transition next_complaint_state
open_planned ComplaintCaseState.«open» h = (_, refl)
open_planned ComplaintCaseState.awaiting_review h = absurd (cc)
open_planned ComplaintCaseState.escalated h = absurd (cc)
open_planned ComplaintCaseState.resolved h = absurd (cc)

pub due_planned :
    (s : ComplaintCaseState)
    → (is_open s || is_awaiting_review s) ≡ true
    → plan_complaint_transition s ComplaintTransitionKind.sla_breach
      ≡ some (record {
        from = s;
        kind = ComplaintTransitionKind.sla_breach;
        to = ComplaintCaseState.escalated;
      })
unfolding plan_complaint_transition next_complaint_state
due_planned ComplaintCaseState.«open» h = refl
due_planned ComplaintCaseState.awaiting_review h = refl
due_planned ComplaintCaseState.escalated h = absurd (cc)
due_planned ComplaintCaseState.resolved h = absurd (cc)

pub awaiting_planned :
    (s : ComplaintCaseState) (k : ComplaintTransitionKind)
    → is_awaiting_review s ≡ true
    → (k ≡ ComplaintTransitionKind.ttl_expired) ⊎ (allows_human_review_id k ≡ true)
    → (p : ComplaintTransitionPlan) × (plan_complaint_transition s k ≡ some p)
unfolding plan_complaint_transition next_complaint_state
awaiting_planned ComplaintCaseState.«open» k h a = absurd (cc)
awaiting_planned ComplaintCaseState.escalated k h a = absurd (cc)
awaiting_planned ComplaintCaseState.resolved k h a = absurd (cc)
awaiting_planned ComplaintCaseState.awaiting_review k h (inl e) = (
  record {
    from = ComplaintCaseState.awaiting_review;
    kind = ComplaintTransitionKind.ttl_expired;
    to = ComplaintCaseState.escalated;
  },
  ap (plan_complaint_transition ComplaintCaseState.awaiting_review) e,
)
awaiting_planned ComplaintCaseState.awaiting_review ComplaintTransitionKind.approve h (inr a) =
    (_, refl)
awaiting_planned ComplaintCaseState.awaiting_review ComplaintTransitionKind.override h (inr a) =
    (_, refl)
awaiting_planned ComplaintCaseState.awaiting_review ComplaintTransitionKind.request_review h
      (inr a) =
    absurd (cc)
awaiting_planned ComplaintCaseState.awaiting_review ComplaintTransitionKind.ttl_expired h (inr a) =
    absurd (cc)
awaiting_planned ComplaintCaseState.awaiting_review ComplaintTransitionKind.sla_breach h (inr a) =
    absurd (cc)
awaiting_planned ComplaintCaseState.awaiting_review ComplaintTransitionKind.«open» h (inr a) =
    absurd (cc)
awaiting_planned ComplaintCaseState.awaiting_review (ComplaintTransitionKind.other t) h (inr a) =
    absurd (cc)
