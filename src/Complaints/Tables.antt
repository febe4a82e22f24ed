-- ===== src/Complaints/Tables.antt =====
-- The rows of one tenant that internal/postgres/complaint_store.go reads and writes, and the queries
-- of db/queries (complaint_cases, human_reviews, ledger_chain_heads, evidence_records) on them.
-- Ids are the canonical texts of UUIDs. The column updated_at, and a case's created_at, are left out.
use vigia.Prelude.{
  ℕ, Bool, false, not, ◌&&◌, List, [], ◌∷◌, Option, none, some, is_some, ◌==◌, if◌then◌else◌,
}
use vigia.Time.{Time, before}
use vigia.Ledger.Encoding.{Text}
use vigia.Ledger.Record.{EvidenceRecord}
use vigia.Ledger.Chain.{Text_comparable}
use vigia.Complaints.{ComplaintCaseState}

pub record CaseRow : Type 0 where
  pub id : Text
  pub interaction_id : Text
  pub redeco_cause : Text
  pub state : ComplaintCaseState
  pub opened_at : Time
  pub sla_due_at : Time
  pub calendar_version : Text
  pub review_expires_at : Option Time
  pub resolved_at : Option Time
  pub idempotency_key : Text

pub record ReviewRow : Type 0 where
  pub id : Text
  pub complaint_case_id : Text
  pub decision : Text
  pub reviewer : Text
  pub notes : Text
  pub created_at : Time
  pub processed_at : Option Time
  pub superseded_at : Option Time

pub record ChainHead : Type 0 where
  pub last_seq : ℕ
  pub last_hash : Text

-- `records` in the order of their seq
pub record Tables : Type 0 where
  pub cases : List CaseRow
  pub reviews : List ReviewRow
  pub head : Option ChainHead
  pub records : List EvidenceRecord

module _ {A : Type 0} where
  -- SELECT of one row; `none` is `pgx.ErrNoRows`.
  abbrev pub select_one : (A → Bool) → List A → Option A
  select_one p [] = none
  select_one p (x ∷ xs) = if p x then some x else select_one p xs

  -- UPDATE of the rows that pass the test.
  abbrev pub update_rows : (A → Bool) → (A → A) → List A → List A
  update_rows p f [] = []
  update_rows p f (x ∷ xs) = (if p x then f x else x) ∷ update_rows p f xs

  -- UPDATE … RETURNING of one row: the row before the update, and the rows after it.
  abbrev pub update_one : (A → Bool) → (A → A) → List A → Option (A × List A)
  update_one p f xs = elim (select_one p xs) [ none ↦ none | some x ↦ some (x, update_rows p f xs) ]

abbrev pub has_id : Text → CaseRow → Bool
has_id id c = c.id == id

-- The time is after that of a nullable column.
abbrev pub expires_after : Time → Option Time → Bool
expires_after now none = false
expires_after now (some t) = before now t

-- A review of the case that is neither processed nor superseded.
abbrev pub is_pending : Text → ReviewRow → Bool
is_pending case_id r =
    r.complaint_case_id == case_id && not (is_some r.processed_at) && not (is_some r.superseded_at)

-- `LockChainHead`: the head, inserted if it is missing.
abbrev pub locked_head : Option ChainHead → ChainHead
locked_head none = record { last_seq = 0; last_hash = [] }
locked_head (some h) = h
