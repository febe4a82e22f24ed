-- ===== src/Complaints/Store.antt =====
-- internal/postgres/complaint_store.go: `ApplyTransition`, one transaction on the tenant's tables.
-- A failing query rolls back as an error does and is not modelled.
use vigia.Prelude.{
  ℕ, ◌+◌, Bool, false, not, ◌&&◌, List, [], ◌∷◌, ◌++◌, Option, none, some, is_some, ◌==◌,
  if◌then◌else◌,
}
use vigia.Time.{Time, is_zero, utc_micros}
use vigia.Ledger.Encoding.{Text}
use vigia.Ledger.Digest.{Sha256}
use vigia.Ledger.Record.{Body, hash_of}
use vigia.Ledger.Chain.{Text_comparable}
use vigia.Complaints.{
  ComplaintCaseState, ComplaintTransitionKind, ComplaintTransitionPlan, allows_human_review_id,
  is_open, is_awaiting_review, kind_text, state_text, plan_complaint_transition,
}
use vigia.Complaints.Tables.{
  CaseRow, ReviewRow, Tables, select_one, update_rows, update_one, has_id, expires_after,
  is_pending, locked_head,
}

pub record ApplyComplaintTransitionInput : Type 0 where
  pub tenant_id : Text
  pub complaint_case_id : Text
  pub kind : ComplaintTransitionKind
  pub now : Time
  pub review_expires_at : Time
  pub human_review_id : Option Text

-- What the transaction takes from outside: `parseUUID` with the canonical text of the UUID, the
-- process's clock, the database's `now()`, and the id that it generates for a new record.
pub record Session : Type 0 where
  pub parse_uuid : Text → Option Text
  pub clock : Time
  pub database_now : Time
  pub new_id : Text

-- An error or a result that is not applied leaves the tables as they were.
pub data Applied : Type 0 where
  failed skipped : Applied
  applied : CaseRow → Tables → Applied

pub data Review : Type 0 where
  invalid absent : Review
  present : Text → Review

unfoldable pub effective_now : Session → Time → Time
effective_now e t = if is_zero t then utc_micros e.clock else utc_micros t

-- The row that `GetUnprocessedHumanReviewForCase` asks for.
abbrev pub is_deciding : Text → Text → ComplaintTransitionKind → ReviewRow → Bool
is_deciding case_id id kind r = is_pending case_id r && r.id == id && r.decision == kind_text kind

-- `validateHumanReviewForResolution`, past the test of the kind
unfoldable pub find_review :
    Session → Tables → Text → ComplaintTransitionKind → Option Text → Review
find_review e t case_id kind none = Review.absent
find_review e t case_id kind (some text) = elim (e.parse_uuid text) [
  | none ↦ Review.invalid
  | some id ↦ elim (select_one (is_deciding case_id id kind) t.reviews) [
    | none ↦ Review.absent
    | some r ↦ Review.present id
  ]
]

unfoldable pub validate_human_review :
    Session → Tables → Text → ApplyComplaintTransitionInput → Review
validate_human_review e t case_id input =
    if not (allows_human_review_id input.kind)
    then Review.absent
    else find_review e t case_id input.kind input.human_review_id

abbrev pub in_state : Text → (ComplaintCaseState → Bool) → CaseRow → Bool
in_state id test c = has_id id c && test c.state

-- `ANY(from_states)`, with the one state of the plan
abbrev pub same_state : ComplaintCaseState → ComplaintCaseState → Bool
same_state s t = state_text s == state_text t

-- `applyComplaintCaseCAS`: the updates' tests and what they set.
abbrev pub cas_guard :
    Session → Text → ComplaintTransitionPlan → ComplaintTransitionKind → CaseRow → Bool
cas_guard e id plan ComplaintTransitionKind.request_review c = in_state id is_open c
cas_guard e id plan ComplaintTransitionKind.approve c =
    in_state id is_awaiting_review c && expires_after e.database_now c.review_expires_at
cas_guard e id plan ComplaintTransitionKind.override c =
    in_state id is_awaiting_review c && expires_after e.database_now c.review_expires_at
cas_guard e id plan ComplaintTransitionKind.ttl_expired c = in_state id (same_state plan.from) c
cas_guard e id plan ComplaintTransitionKind.sla_breach c = in_state id (same_state plan.from) c
cas_guard e id plan ComplaintTransitionKind.«open» c = false
cas_guard e id plan (ComplaintTransitionKind.other k) c = false

abbrev pub cas_set :
    Session → ApplyComplaintTransitionInput → ComplaintTransitionKind → CaseRow → CaseRow
cas_set e input ComplaintTransitionKind.request_review c = record c {
  state = ComplaintCaseState.awaiting_review;
  review_expires_at = some (utc_micros input.review_expires_at);
}
cas_set e input ComplaintTransitionKind.approve c = record c {
  state = ComplaintCaseState.resolved;
  resolved_at = some (effective_now e input.now);
}
cas_set e input ComplaintTransitionKind.override c = record c {
  state = ComplaintCaseState.resolved;
  resolved_at = some (effective_now e input.now);
}
cas_set e input ComplaintTransitionKind.ttl_expired c = record c {
  state = ComplaintCaseState.escalated;
}
cas_set e input ComplaintTransitionKind.sla_breach c = record c {
  state = ComplaintCaseState.escalated;
}
cas_set e input ComplaintTransitionKind.«open» c = c
cas_set e input (ComplaintTransitionKind.other k) c = c

-- The winning review is processed and the case's other pending reviews are superseded; `none` is an
-- error.
unfoldable pub mark_reviews : Text → Text → Time → List ReviewRow → Option (List ReviewRow)
mark_reviews case_id id at reviews =
    elim (update_one (λ r. is_pending case_id r && r.id == id)
      (λ r. record r { processed_at = some at }) reviews) [
        | none ↦ none
        | some (r, marked) ↦ some (
            update_rows (λ r. is_pending case_id r && not (r.id == id))
              (λ r. record r { superseded_at = some at }) marked)
      ]

-- The body of the evidence, with the ids as they are given.
unfoldable pub evidence_body :
    Text
    → Text
    → ApplyComplaintTransitionInput
    → ComplaintTransitionPlan
    → Option Text
    → ℕ
    → Time
    → Body
evidence_body tenant case_id input plan review seq at = record {
  tenant_id = tenant;
  interaction_event_id = [];
  evaluation_id = [];
  seq = seq;
  overall_outcome = state_text plan.to;
  policy_bundle_version = [];
  inputs_digest = [];
  created_at = utc_micros at;
  judge = none;
  complaint_transition = some (record {
    complaint_case_id = case_id;
    transition_kind = kind_text input.kind;
    from_state = state_text plan.from;
    to_state = state_text plan.to;
    human_review_id = review;
  });
}

module _ (sha : Sha256) (e : Session) (tenant case_id : Text)
    (input : ApplyComplaintTransitionInput) where
  -- The record that the rows hold has the UUIDs' canonical texts, the hash has the texts given.
  unfoldable pub append_record :
      ComplaintTransitionPlan → Option Text → Option Text → Tables → Option Tables
  append_record plan review stored_review t =
      let head = locked_head t.head in
      let seq = head.last_seq + 1 in
      let at = effective_now e input.now in
      elim (hash_of sha head.last_hash
        (evidence_body tenant input.complaint_case_id input plan review seq at)) [
          | none ↦ none
          | some hash ↦ some (record t {
            head = some (record { last_seq = seq; last_hash = hash });
            records =
                t.records
                ++ record {
                  id = e.new_id;
                  body = evidence_body tenant case_id input plan stored_review seq at;
                  prev_hash = head.last_hash;
                  hash = hash;
                }
                  ∷ [];
          })
        ]

  -- `appendComplaintEvidence`; `none` is an error, or the panic of `Hash`.
  unfoldable pub append_complaint_evidence :
      ComplaintTransitionPlan → Option Text → Tables → Option Tables
  append_complaint_evidence plan none t = append_record plan none none t
  append_complaint_evidence plan (some text) t = elim (e.parse_uuid text) [
    | none ↦ none
    | some id ↦ append_record plan (some text) (some id) t
  ]

  unfoldable pub with_evidence : ComplaintTransitionPlan → CaseRow → Tables → Applied
  with_evidence plan updated t =
      elim (append_complaint_evidence plan
        (if allows_human_review_id input.kind then input.human_review_id else none) t) [
          | none ↦ Applied.failed
          | some t' ↦ Applied.applied updated t'
        ]

  -- Past the update of the case
  unfoldable pub with_case : ComplaintTransitionPlan → Review → CaseRow → Tables → Applied
  with_case plan (Review.present id) updated t =
      elim (mark_reviews case_id id (effective_now e input.now) t.reviews) [
        | none ↦ Applied.failed
        | some reviews ↦ with_evidence plan updated (record t { reviews = reviews })
      ]
  with_case plan _ updated t = with_evidence plan updated t

  -- `applyComplaintCaseCAS` and what follows it
  unfoldable pub with_plan : ComplaintTransitionPlan → Review → Tables → Applied
  with_plan plan review t =
      elim (update_one (cas_guard e case_id plan input.kind) (cas_set e input input.kind) t.cases) [
        | none ↦ Applied.skipped
        | some (c, cases) ↦
            with_case plan review (cas_set e input input.kind c) (record t { cases = cases })
      ]

  unfoldable pub with_review : ComplaintTransitionPlan → Review → Tables → Applied
  with_review plan Review.invalid t = Applied.failed
  with_review plan Review.absent t =
      if allows_human_review_id input.kind then Applied.skipped else with_plan plan Review.absent t
  with_review plan (Review.present id) t = with_plan plan (Review.present id) t

  -- The transaction
  unfoldable pub in_transaction : Tables → Applied
  in_transaction t = elim (select_one (has_id case_id) t.cases) [
    | none ↦ Applied.skipped
    | some current ↦ elim (plan_complaint_transition current.state input.kind) [
      | none ↦ Applied.skipped
      | some plan ↦ with_review plan (validate_human_review e t case_id input) t
    ]
  ]

module _ (sha : Sha256) (e : Session) where
  -- The parsing of the ids and the transaction
  unfoldable pub with_ids : ApplyComplaintTransitionInput → Tables → Applied
  with_ids input t = elim (e.parse_uuid input.tenant_id) [
    | none ↦ Applied.failed
    | some tenant ↦ elim (e.parse_uuid input.complaint_case_id) [
      | none ↦ Applied.failed
      | some case_id ↦ in_transaction sha e tenant case_id input t
    ]
  ]

  unfoldable pub apply_transition : ApplyComplaintTransitionInput → Tables → Applied
  apply_transition input t =
      if is_some input.human_review_id && not (allows_human_review_id input.kind)
      then Applied.failed
      else with_ids input t

-- The tables after a transaction that began with `t`
abbrev pub tables_after : Tables → Applied → Tables
tables_after t Applied.failed = t
tables_after t Applied.skipped = t
tables_after t (Applied.applied c t') = t'
