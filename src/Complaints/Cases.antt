-- ===== src/Complaints/Cases.antt =====
-- internal/postgres/complaint_store.go: the creation of cases and reviews, and the listings.
use vigia.Prelude.{
  ℕ, ◌+◌, Bool, false, not, ◌&&◌, ◌||◌, List, [], ◌∷◌, ◌++◌, Option, none, some, any, filter, take,
  ◌==◌, if◌then◌else◌,
}
use vigia.Time.{Time, utc_time, utc_micros, before}
use vigia.Ledger.Encoding.{Text, codes}
use vigia.Ledger.Digest.{Sha256}
use vigia.Ledger.Record.{Body, hash_of}
use vigia.Ledger.Chain.{Text_comparable}
use vigia.Complaints.{ComplaintCaseState, is_open, is_awaiting_review}
use vigia.Complaints.Tables.{
  CaseRow, ReviewRow, Tables, select_one, has_id, is_pending, locked_head,
}
use vigia.Complaints.Store.{Session}

pub record CreateComplaintCaseInput : Type 0 where
  pub tenant_id : Text
  pub interaction_id : Text
  pub redeco_cause : Text
  pub opened_at : Time
  pub sla_due_at : Time
  pub calendar_version : Text
  pub idempotency_key : Text

pub data Creation : Type 0 where
  failed conflict : Creation
  -- a case that stood there already
  found : CaseRow → Creation
  created : CaseRow → Tables → Creation

abbrev pub has_key : Text → CaseRow → Bool
has_key key c = c.idempotency_key == key

abbrev pub new_case : Text → Text → CreateComplaintCaseInput → CaseRow
new_case id interaction input = record {
  id = id;
  interaction_id = interaction;
  redeco_cause = input.redeco_cause;
  state = ComplaintCaseState.«open»;
  opened_at = utc_micros input.opened_at;
  sla_due_at = utc_micros input.sla_due_at;
  calendar_version = input.calendar_version;
  review_expires_at = none;
  resolved_at = none;
  idempotency_key = input.idempotency_key;
}

-- The body of the evidence that a case was opened.
abbrev pub opening_body : Text → CaseRow → ℕ → Body
opening_body tenant c seq = record {
  tenant_id = tenant;
  interaction_event_id = [];
  evaluation_id = [];
  seq = seq;
  overall_outcome = codes "open";
  policy_bundle_version = [];
  inputs_digest = [];
  created_at = utc_micros c.opened_at;
  judge = none;
  complaint_transition = some (record {
    complaint_case_id = c.id;
    transition_kind = codes "open";
    from_state = [];
    to_state = codes "open";
    human_review_id = none;
  });
}

-- `complaintCaseMatchesCreateInput`
abbrev pub matches_input : Text → CreateComplaintCaseInput → CaseRow → Bool
matches_input interaction input c =
    c.interaction_id == interaction && c.redeco_cause == input.redeco_cause

module _ (sha : Sha256) (e : Session) where
  -- `appendComplaintEvidence` for a new case; `none` is an error, or the panic of `Hash`.
  unfoldable pub append_opening : Text → CaseRow → Tables → Option Tables
  append_opening tenant c t =
      let head = locked_head t.head in
      let seq = head.last_seq + 1 in
      let body = opening_body tenant c seq in
      elim (e.parse_uuid c.id) [
        | none ↦ none
        | some case_id ↦ elim (hash_of sha head.last_hash body) [
          | none ↦ none
          | some hash ↦ some (record t {
            head = some (record { last_seq = seq; last_hash = hash });
            records =
                t.records
                ++ record { id = e.new_id; body = body; prev_hash = head.last_hash; hash = hash }
                  ∷ [];
          })
        ]
      ]

  abbrev pub opened : CaseRow → Option Tables → Creation
  opened c none = Creation.failed
  opened c (some t) = Creation.created c t

  -- The transaction, where the database generates `new` for the case; the insertion does nothing on a
  -- case with the same key.
  unfoldable pub create_on :
      Text → Text → Text → CreateComplaintCaseInput → Tables → Option CaseRow → Creation
  create_on new tenant interaction input t (some existing) =
      if not (matches_input interaction input existing)
      then Creation.conflict
      else Creation.found existing
  create_on new tenant interaction input t none =
      let c = new_case new interaction input in
      opened c (append_opening tenant c (record t { cases = t.cases ++ c ∷ [] }))

  abbrev pub create_with : Text → Text → Text → CreateComplaintCaseInput → Tables → Creation
  create_with new tenant interaction input t =
      create_on new tenant interaction input t (select_one (has_key input.idempotency_key) t.cases)

  -- `CreateComplaintCase`
  unfoldable pub create_complaint_case : Text → CreateComplaintCaseInput → Tables → Creation
  create_complaint_case new input t = elim (e.parse_uuid input.tenant_id) [
    | none ↦ Creation.failed
    | some tenant ↦ elim (e.parse_uuid input.interaction_id) [
      | none ↦ Creation.failed
      | some interaction ↦ create_with new tenant interaction input t
    ]
  ]

-- ORDER BY a time, the earliest first; the order of equal times is not fixed, and one is taken.
abbrev pub insert_by : {A : Type 0} → (A → Time) → A → List A → List A
insert_by key x [] = x ∷ []
insert_by key x (y ∷ ys) =
    let rest = insert_by key x ys in if before (key y) (key x) then y ∷ rest else x ∷ y ∷ ys

abbrev pub order_by : {A : Type 0} → (A → Time) → List A → List A
order_by key [] = []
order_by key (x ∷ xs) = insert_by key x (order_by key xs)

abbrev pub is_due : Time → CaseRow → Bool
is_due at c = (is_open c.state || is_awaiting_review c.state) && not (before at c.sla_due_at)

abbrev pub expires_by : Time → Option Time → Bool
expires_by at none = false
expires_by at (some t) = not (before at t)

abbrev pub is_expired : Time → CaseRow → Bool
is_expired at c = is_awaiting_review c.state && expires_by at c.review_expires_at

-- The expiry of a case, where it has one.
abbrev pub case_expiry : CaseRow → Time
case_expiry c = elim c.review_expires_at [ none ↦ utc_time 0 | some t ↦ t ]

-- `ListOpenComplaintCases`, `ListSLADueComplaintCases`, `ListExpiredReviewComplaintCases`
abbrev pub list_open_complaint_cases : ℕ → Tables → List CaseRow
list_open_complaint_cases limit t =
    take limit (order_by (λ c. c.opened_at) (filter (λ c. is_open c.state) t.cases))

abbrev pub list_sla_due_complaint_cases : Time → ℕ → Tables → List CaseRow
list_sla_due_complaint_cases at limit t =
    take limit (order_by (λ c. c.sla_due_at) (filter (is_due (utc_micros at)) t.cases))

abbrev pub list_expired_review_complaint_cases : Time → ℕ → Tables → List CaseRow
list_expired_review_complaint_cases at limit t =
    take limit (order_by case_expiry (filter (is_expired (utc_micros at)) t.cases))

-- `ListUnprocessedHumanReviews`, with its join
abbrev pub is_unprocessed : List CaseRow → ReviewRow → Bool
is_unprocessed cases r =
    is_pending r.complaint_case_id r
    && any (λ (c : CaseRow). has_id r.complaint_case_id c && is_awaiting_review c.state) cases

abbrev pub list_unprocessed_human_reviews : ℕ → Tables → List ReviewRow
list_unprocessed_human_reviews limit t =
    take limit (order_by (λ r. r.created_at) (filter (is_unprocessed t.cases) t.reviews))

pub record CreateHumanReviewInput : Type 0 where
  pub tenant_id : Text
  pub complaint_case_id : Text
  pub decision : Text
  pub reviewer : Text
  pub notes : Text

-- The check of the database on a decision.
abbrev pub is_decision : Text → Bool
is_decision decision = decision == codes "approve" || decision == codes "override"

-- `CreateHumanReview`, where the database generates `new` at `database_now`; `none` is an error.
unfoldable pub create_human_review :
    Session → Text → CreateHumanReviewInput → Tables → Option (ReviewRow × Tables)
create_human_review e new input t = elim (e.parse_uuid input.tenant_id) [
  | none ↦ none
  | some tenant ↦ elim (e.parse_uuid input.complaint_case_id) [
    | none ↦ none
    | some case_id ↦
        let r : ReviewRow = record {
          id = new;
          complaint_case_id = case_id;
          decision = input.decision;
          reviewer = input.reviewer;
          notes = input.notes;
          created_at = e.database_now;
          processed_at = none;
          superseded_at = none;
        } in
        if not (any (λ (c : CaseRow). has_id case_id c && is_awaiting_review c.state) t.cases)
        then none
        else if not (is_decision input.decision)
        then none
        else some (r, record t { reviews = t.reviews ++ r ∷ [] })
  ]
]
