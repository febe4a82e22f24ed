-- ===== src/Ledger/Checkpointer.antt =====
-- internal/postgres/merkle_checkpoint.go: the checkpointer, on one tenant's rows. Failing queries roll back
-- and are not modelled.
pub mod Ranges
pub mod Builds
pub mod Kept
use vigia.Prelude.{
  ℕ, Bool, not, ◌&&◌, ◌||◌, List, [], ◌∷◌, Option, none, some, ◌⊎◌, inl, inr, ltb, leb, ◌==◌,
  if◌then◌else◌, filter,
}
use vigia.Time.{Time}
use vigia.Ledger.Encoding.{Text}
use vigia.Ledger.Digest.{Bytes, Sha256}
use vigia.Ledger.Record.{EvidenceRecord, hash_of}
use vigia.Ledger.Chain.{Text_comparable}
use vigia.Ledger.Checkpoint.{
  MerkleCheckpoint, CheckpointError, build_merkle_checkpoint, canonical_bytes,
  verify_timestamp_digest,
}

pub record CheckpointRow : Type 0 where
  pub id : Text
  pub first_seq : ℕ
  pub last_seq : ℕ
  pub record_count : ℕ
  pub root_hash : Text
  pub chain_head_hash : Text
  pub checkpoint_body : Bytes
  pub rfc3161_token : Bytes
  pub tsa_url : Text
  pub created_at : Time

-- The rows of one tenant: records in the order of their seq, checkpoints in that of their last seq.
pub record LedgerTables : Type 0 where
  pub records : List EvidenceRecord
  pub checkpoints : List CheckpointRow

pub record Token : Type 0 where
  pub raw_token : Bytes
  pub hashed_message : Bytes

-- A `timestamping.Client`, `none` for its error; `verifier` is there if it is a `TokenVerifier` too,
-- whose error is `false`.
pub record Client : Type 0 where
  pub timestamp : Bytes → Option Token
  pub verifier : Option (Bytes → Bytes → Bool)

-- `tenant` tells whether the tenant's id is a UUID, `now` is the clock, and `new_id` what the database
-- generates.
pub record MerkleCheckpointer : Type 0 where
  pub client : Option Client
  pub tsa_url : Text
  pub now : Time
  pub tenant : Bool
  pub new_id : Text

pub data CheckpointerError : Type 0 where
  no_client no_tsa_url invalid_tenant no_new_records timestamp_failed digest_mismatch no_verifier :
      CheckpointerError
  broken_link broken_hash : ℕ → CheckpointerError
  not_built : CheckpointError → CheckpointerError
  mismatch invalid_token : ℕ → ℕ → CheckpointerError

pub data Outcome (A : Type 0) : Type 0 where
  panics : Outcome A
  failed : CheckpointerError → Outcome A
  done : A → Outcome A

infixl 5 ◌>>=◌ ◌>>◌
abbrev pub ◌>>=◌ : {A B : Type 0} → Outcome A → (A → Outcome B) → Outcome B
Outcome.panics >>= f = Outcome.panics
Outcome.failed e >>= f = Outcome.failed e
Outcome.done a >>= f = f a

abbrev pub ◌>>◌ : {B : Type 0} → Outcome Unit → Outcome B → Outcome B
m >> k = m >>= λ _. k

abbrev pub require : Bool → CheckpointerError → Outcome Unit
require holds e = if holds then Outcome.done tt else Outcome.failed e

-- `ListEvidenceRecordsByTenantAfterSeq` and `ListEvidenceRecordsByTenantSeqRange`
abbrev pub after_seq : ℕ → List EvidenceRecord → List EvidenceRecord
after_seq n = filter (λ r. ltb n r.body.seq)

abbrev pub seq_range : ℕ → ℕ → List EvidenceRecord → List EvidenceRecord
seq_range first last = filter (λ r. leb first r.body.seq && leb r.body.seq last)

-- The new row of a checkpoint; `LatestMerkleCheckpoint` is the last of the rows.
abbrev pub insert_row : CheckpointRow → List CheckpointRow → List CheckpointRow
insert_row row [] = row ∷ []
insert_row row (c ∷ rows) =
    let rest = insert_row row rows in
    if ltb row.last_seq c.last_seq then row ∷ c ∷ rows else c ∷ rest

abbrev pub latest : List CheckpointRow → Option CheckpointRow
latest [] = none
latest (c ∷ []) = some c
latest (c ∷ d ∷ rows) = latest (d ∷ rows)

abbrev pub last_seq_of : Option CheckpointRow → ℕ
last_seq_of none = 0
last_seq_of (some c) = c.last_seq

abbrev pub head_hash_of : Option CheckpointRow → Text
head_hash_of none = []
head_hash_of (some c) = c.chain_head_hash

abbrev pub from_build : Option (CheckpointError ⊎ MerkleCheckpoint) → Outcome MerkleCheckpoint
from_build none = Outcome.panics
from_build (some (inl e)) = Outcome.failed (CheckpointerError.not_built e)
from_build (some (inr c)) = Outcome.done c

abbrev pub not_empty : List EvidenceRecord → Outcome Unit
not_empty [] = Outcome.failed CheckpointerError.no_new_records
not_empty (r ∷ rs) = Outcome.done tt

abbrev pub row_of : MerkleCheckpointer → MerkleCheckpoint → Token → CheckpointRow
row_of m c token = record {
  id = m.new_id;
  first_seq = c.first_seq;
  last_seq = c.last_seq;
  record_count = c.record_count;
  root_hash = c.root_hash;
  chain_head_hash = c.chain_head_hash;
  checkpoint_body = canonical_bytes c;
  rfc3161_token = token.raw_token;
  tsa_url = m.tsa_url;
  created_at = c.created_at;
}

abbrev pub stamped : Option Token → Outcome Token
stamped none = Outcome.failed CheckpointerError.timestamp_failed
stamped (some token) = Outcome.done token

abbrev pub the_client : Option Client → Outcome Client
the_client none = Outcome.failed CheckpointerError.no_client
the_client (some client) = Outcome.done client

abbrev pub verifier_of : Option Client → Outcome (Bytes → Bytes → Bool)
verifier_of none = Outcome.failed CheckpointerError.no_verifier
verifier_of (some client) = elim client.verifier [
  | none ↦ Outcome.failed CheckpointerError.no_verifier
  | some verify ↦ Outcome.done verify
]

abbrev pub is_same : MerkleCheckpoint → CheckpointRow → Bool
is_same c row =
    row.root_hash == c.root_hash
    && row.chain_head_hash == c.chain_head_hash
    && row.checkpoint_body == canonical_bytes c

abbrev pub check_hash : EvidenceRecord → Option Text → Outcome Unit → Outcome Unit
check_hash r none later = Outcome.panics
check_hash r (some got) later =
    if not (got == r.hash) then Outcome.failed (CheckpointerError.broken_hash r.body.seq) else later

module _ (sha : Sha256) where
  -- `verifyCheckpointRange`
  unfoldable pub verify_checkpoint_range : List EvidenceRecord → Text → Outcome Unit
  verify_checkpoint_range [] prev_hash = Outcome.done tt
  verify_checkpoint_range (r ∷ rs) prev_hash =
      let later = verify_checkpoint_range rs r.hash in
      if not (r.prev_hash == prev_hash)
      then Outcome.failed (CheckpointerError.broken_link r.body.seq)
      else check_hash r (hash_of sha r.prev_hash r.body) later

  -- `loadCheckpointRecords`
  unfoldable pub load_checkpoint_records :
      MerkleCheckpointer → LedgerTables → Outcome (List EvidenceRecord)
  load_checkpoint_records m t =
      let last = latest t.checkpoints in
      let rows = after_seq (last_seq_of last) t.records in
      do
        require m.tenant CheckpointerError.invalid_tenant
        not_empty rows
        verify_checkpoint_range rows (head_hash_of last)
        Outcome.done rows

  -- `CreateCheckpoint`, which ends in `insertCheckpoint`
  unfoldable pub create_checkpoint :
      MerkleCheckpointer → LedgerTables → Outcome (CheckpointRow × LedgerTables)
  create_checkpoint m t = do
    client ← the_client m.client
    require (not (m.tsa_url == [])) CheckpointerError.no_tsa_url
    records ← load_checkpoint_records m t
    c ← from_build (build_merkle_checkpoint sha records m.now)
    token ← stamped (client.timestamp (canonical_bytes c))
    require (verify_timestamp_digest sha c token.hashed_message) CheckpointerError.digest_mismatch
    let row = row_of m c token
    Outcome.done (row, record t { checkpoints = insert_row row t.checkpoints })

  -- One round of the loop of `VerifyMerkleCheckpoints`
  unfoldable pub verify_row :
      MerkleCheckpointer → List EvidenceRecord → CheckpointRow → Outcome Unit
  verify_row m records row = do
    rebuilt ←
        from_build (
          build_merkle_checkpoint sha (seq_range row.first_seq row.last_seq records) row.created_at)
    require (is_same rebuilt row) (CheckpointerError.mismatch row.first_seq row.last_seq)
    verify ← verifier_of m.client
    require (verify row.rfc3161_token (sha.digest row.checkpoint_body))
        (CheckpointerError.invalid_token row.first_seq row.last_seq)

  unfoldable pub verify_rows :
      MerkleCheckpointer → List EvidenceRecord → List CheckpointRow → Outcome Unit
  verify_rows m records [] = Outcome.done tt
  verify_rows m records (row ∷ rows) = do verify_row m records row; verify_rows m records rows

  -- `VerifyMerkleCheckpoints`
  unfoldable pub verify_merkle_checkpoints : MerkleCheckpointer → LedgerTables → Outcome Unit
  verify_merkle_checkpoints m t = do
    require m.tenant CheckpointerError.invalid_tenant
    verify_rows m t.records t.checkpoints

  -- `CreateMerkleCheckpoint`
  unfoldable pub create_merkle_checkpoint : MerkleCheckpointer → LedgerTables → Outcome LedgerTables
  create_merkle_checkpoint m t = do
    verify_merkle_checkpoints m t
    (row, after) ← create_checkpoint m t
    Outcome.done after
