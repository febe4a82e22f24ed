-- ===== src/Samples/Complaints.antt =====
-- A complaint case that goes to review.
use vigia.Prelude.{◌≡◌, ◌↔◌, refl, true, List, [], ◌∷◌, some, none, arith}
use vigia.Ledger.Encoding.{codes}
use vigia.Complaints.{ComplaintCaseState, ComplaintTransitionKind, allows_human_review_id}
use vigia.Complaints.Lifecycle.{Reaches, Reaches-resolved_iff}
use vigia.Complaints.Tables.{Tables, CaseRow}
use vigia.Complaints.Store.{Session, ApplyComplaintTransitionInput, apply_transition, tables_after}
use vigia.Complaints.Store.{
  Applied, with_ids, in_transaction, with_review, with_plan, with_case, with_evidence,
  append_complaint_evidence, append_record, mark_reviews, validate_human_review, find_review,
  effective_now,
}
use vigia.Time.{add, hour_ns, utc_micros}
use vigia.Complaints.{plan_complaint_transition, next_complaint_state}
use vigia.Complaints.Resolution.{IsReviewed, apply_transition-IsReviewed}
use vigia.Ledger.Record.{hash_of, is_valid_prev_hash}
use vigia.Ledger.Digest.{hex}
use vigia.Ledger.Chain.{text_equal}
use vigia.Complaints.Trail.{apply_transition-IsLedger}
use vigia.Complaints.Head.{IsLedger}
use vigia.Samples.{morning}
use vigia.Samples.Ledger.{zeros, zeros-bytes, body_of}
use vigia.Ledger.Digest.{Sha256}
use vigia.Ledger.Record.{EvidenceRecord, canonical_of, hash_text}

-- A digest of one value, which makes the hashes of the runs below known.
abbrev pub constant_sha : Sha256
constant_sha = record {
  digest = λ b. zeros 32;
  digest_length = λ b. refl;
  digest_bytes = λ b. zeros-bytes 32;
}

abbrev first_record : EvidenceRecord
first_record = record {
  id = codes "r1";
  body = body_of 1;
  prev_hash = [];
  hash = hash_text constant_sha [] (canonical_of (body_of 1));
}

abbrev approved : List ComplaintTransitionKind
approved = ComplaintTransitionKind.request_review ∷ ComplaintTransitionKind.approve ∷ []

Reaches-resolved_iff_example :
    Reaches ComplaintCaseState.«open» approved ComplaintCaseState.resolved ↔ (
      (k : ComplaintTransitionKind) × (approved ≡ ComplaintTransitionKind.request_review ∷ k ∷ [])
      × (allows_human_review_id k ≡ true))
Reaches-resolved_iff_example = Reaches-resolved_iff approved

abbrev pub session : Session
session = record { parse_uuid = some; clock = morning; database_now = morning; new_id = codes "r2" }

abbrev pub opened : CaseRow
opened = record {
  id = codes "c1";
  interaction_id = codes "i1";
  redeco_cause = codes "tone";
  state = ComplaintCaseState.«open»;
  opened_at = morning;
  sla_due_at = morning;
  calendar_version = codes "2024";
  review_expires_at = none;
  resolved_at = none;
  idempotency_key = codes "k1";
}

abbrev pub tables : Tables
tables = record {
  cases = opened ∷ [];
  reviews = [];
  head = some (record { last_seq = 1; last_hash = first_record.hash });
  records = first_record ∷ [];
}

abbrev request : ApplyComplaintTransitionInput
request = record {
  tenant_id = codes "t1";
  complaint_case_id = codes "c1";
  kind = ComplaintTransitionKind.request_review;
  now = morning;
  review_expires_at = morning;
  human_review_id = none;
}

apply_transition-IsLedger_example :
    IsLedger constant_sha
      (tables_after tables (apply_transition constant_sha session request tables))
apply_transition-IsLedger_example =
    apply_transition-IsLedger constant_sha session request tables refl
      (λ text e. absurd (ground arith)) (record { intact = (refl, refl, refl, tt); at_head = refl })

-- The case under a review that lasts one more hour, and a pending review that approves.
abbrev waiting : Tables
waiting = record tables {
  cases =
      record opened {
        state = ComplaintCaseState.awaiting_review;
        review_expires_at = some (add morning hour_ns);
      }
      ∷ [];
  reviews =
      record {
        id = codes "v1";
        complaint_case_id = codes "c1";
        decision = codes "approve";
        reviewer = codes "r1";
        notes = [];
        created_at = morning;
        processed_at = none;
        superseded_at = none;
      }
      ∷ [];
}

abbrev approval : ApplyComplaintTransitionInput
approval = record request {
  kind = ComplaintTransitionKind.approve;
  human_review_id = some (codes "v1");
}

abbrev resolved_case : CaseRow
resolved_case = record opened {
  state = ComplaintCaseState.resolved;
  review_expires_at = some (add morning hour_ns);
  resolved_at = some (utc_micros morning);
}

approval_applies :
    apply_transition constant_sha session approval waiting
    ≡ Applied.applied resolved_case
        (tables_after waiting (apply_transition constant_sha session approval waiting))
unfolding apply_transition with_ids in_transaction with_review with_plan with_case with_evidence
    append_complaint_evidence append_record mark_reviews validate_human_review find_review
    effective_now plan_complaint_transition next_complaint_state hash_of is_valid_prev_hash hex
    text_equal
approval_applies = refl

apply_transition-IsReviewed_example : IsReviewed session approval waiting
apply_transition-IsReviewed_example =
    apply_transition-IsReviewed constant_sha session approval waiting _ resolved_case
      approval_applies refl
