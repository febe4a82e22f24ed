-- ===== src/Samples/Jobs.antt =====
-- Creations, polls and jobs on the tables of a case.
use vigia.Prelude.{◌≡◌, refl, true, [], ◌∷◌, some, none, arith}
use vigia.Ledger.Encoding.{Text, codes}
use vigia.Complaints.{ComplaintCaseState}
use vigia.Complaints.Tables.{Tables, CaseRow}
use vigia.Complaints.Store.{tables_after}
use vigia.Complaints.Store.{Applied}
use vigia.Time.{add, hour_ns, utc_micros}
use vigia.Ledger.Record.{hash_of, is_valid_prev_hash}
use vigia.Ledger.Digest.{hex}
use vigia.Ledger.Chain.{text_equal}
use vigia.Complaints.Head.{IsLedger}
use mathlib.Core.List.{Memᴰ}
use vigia.Prelude.{false}
use vigia.Complaints.Cases.{
  CreateComplaintCaseInput, Creation, append_opening, create_on, create_complaint_case,
}
use vigia.Complaints.Creation.{create_complaint_case-retried, tables_after_creation}
use vigia.Complaints.Jobs.{
  enqueue_tenant_findings, enqueue_listed, enqueue, ComplaintJobSettings, ComplaintTransitionArgs,
  Polled, poll, store_of, work_transition,
}
use vigia.Complaints.Jobs.Working.{work_transition-IsLedger}
use vigia.Complaints.Polling.Planned.{IsPlanned, poll-IsPlanned}
use vigia.Complaints.Polling.Due.{breach_job, poll-breach_job}
use vigia.Samples.{morning}
use vigia.Samples.Complaints.{constant_sha, session, opened, tables}

-- A second case, for another interaction.
abbrev opening : CreateComplaintCaseInput
opening = record {
  tenant_id = codes "t1";
  interaction_id = codes "i2";
  redeco_cause = codes "threat";
  opened_at = morning;
  sla_due_at = add morning hour_ns;
  calendar_version = codes "2024";
  idempotency_key = codes "k2";
}

abbrev second_case : CaseRow
second_case = record {
  id = codes "c2";
  interaction_id = codes "i2";
  redeco_cause = codes "threat";
  state = ComplaintCaseState.«open»;
  opened_at = utc_micros morning;
  sla_due_at = utc_micros (add morning hour_ns);
  calendar_version = codes "2024";
  review_expires_at = none;
  resolved_at = none;
  idempotency_key = codes "k2";
}

abbrev with_second_case : Tables
with_second_case =
    tables_after_creation tables
      (create_complaint_case constant_sha session (codes "c2") opening tables)

second_case_created :
    create_complaint_case constant_sha session (codes "c2") opening tables
    ≡ Creation.created second_case with_second_case
unfolding create_complaint_case create_on append_opening hash_of is_valid_prev_hash hex text_equal
second_case_created = refl

create_complaint_case-retried_example :
    (create_complaint_case constant_sha session (codes "c3") opening with_second_case
      ≡ Creation.found second_case)
    × (tables_after_creation with_second_case
          (create_complaint_case constant_sha session (codes "c3") opening with_second_case)
        ≡ with_second_case)
    × (IsLedger constant_sha tables → IsLedger constant_sha with_second_case)
create_complaint_case-retried_example =
    create_complaint_case-retried constant_sha session (codes "c2") (codes "c3") opening tables
      with_second_case second_case second_case_created

abbrev settings : ComplaintJobSettings
settings = record { poll_limit = 0; complaint_review_ttl_business_days = 0; now = morning }

-- The poll hands on the breach although the enqueuer refuses every job.
poll-breach_job_example :
    (p : Polled) × (poll (store_of (codes "t1" ∷ []) (λ _. tables)) (λ _. false) settings ≡ some p)
    × Memᴰ (breach_job (codes "t1") opened) p.jobs
poll-breach_job_example =
    poll-breach_job (codes "t1" ∷ []) (λ _. tables) (λ _. false) settings (codes "t1") opened
      (Memᴰ.head refl) (Memᴰ.head refl) refl (ground arith)

abbrev polled : Polled
polled = record {
  jobs =
      (record (breach_job (codes "t1") opened) { transition_kind = codes "request_review" })
      ∷ breach_job (codes "t1") opened
      ∷ [];
  failures = [];
}

poll_hands_on : poll (store_of (codes "t1" ∷ []) (λ _. tables)) (λ _. true) settings ≡ some polled
unfolding poll enqueue_tenant_findings enqueue_listed enqueue
poll_hands_on = refl

poll-IsPlanned_example :
    (tenant : Text) × Memᴰ tenant (codes "t1" ∷ [])
    × IsPlanned tenant tables (breach_job (codes "t1") opened)
poll-IsPlanned_example =
    poll-IsPlanned (codes "t1" ∷ []) (λ _. tables) (λ _. true) settings polled
      (breach_job (codes "t1") opened) poll_hands_on (Memᴰ.tail (Memᴰ.head refl))

abbrev review_job : ComplaintTransitionArgs
review_job = record {
  tenant_id = codes "t1";
  complaint_case_id = codes "c1";
  transition_kind = codes "request_review";
  human_review_id = none;
}

work_transition-IsLedger_example :
    (a : Applied) × (work_transition constant_sha session settings (λ _. []) review_job tables
      ≡ some a)
    × IsLedger constant_sha (tables_after tables a)
work_transition-IsLedger_example =
    work_transition-IsLedger constant_sha session settings (λ _. []) review_job tables refl
      (λ text e. absurd (ground arith)) (record { intact = (refl, refl, refl, tt); at_head = refl })
