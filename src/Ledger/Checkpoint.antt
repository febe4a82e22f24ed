-- ===== src/Ledger/Checkpoint.antt =====
-- internal/ledger/checkpoint.go: Merkle checkpoints over a range of records.
pub mod Built
pub mod Binding
use vigia.Prelude.{
  ℕ, ◌+◌, ◌-◌, ◌*◌, ◌%◌, Bool, not, ◌&&◌, ◌⊎◌, inl, inr, List, [], ◌∷◌, Option, none, some, length,
  leb, nat_eq, ◌==◌, ℕ_comparable, if◌then◌else◌,
}
use vigia.Time.{Time, utc_micros}
use vigia.Ledger.Encoding.{Text, Writer, field}
use vigia.Ledger.Json.{string, number_comma}
use vigia.Ledger.Digest.{Bytes, Sha256, utf8, hex}
use vigia.Ledger.Record.{EvidenceRecord, format_micros}
use vigia.Ledger.Chain.{Text_comparable}
use vigia.Ledger.Merkle.{merkle_leaf_hash, merkle_root}

-- Sequence numbers and counts are numbers, as in `Record`.
pub record MerkleCheckpoint : Type 0 where
  pub tenant_id : Text
  pub first_seq : ℕ
  pub last_seq : ℕ
  pub record_count : ℕ
  pub root_hash : Text
  pub chain_head_hash : Text
  pub created_at : Time

pub data CheckpointError : Type 0 where
  no_records : CheckpointError
  -- the sequence number found, and the one before it
  non_contiguous : ℕ → ℕ → CheckpointError
  not_a_digest : ℕ → CheckpointError

-- The value of a hexadecimal digit, in either case.
abbrev pub hex_digit : ℕ → Option ℕ
hex_digit c =
    if leb 48 c && leb c 57
    then some (c - 48)
    else if leb 97 c && leb c 102
    then some (c - 87)
    else if leb 65 c && leb c 70
    then some (c - 55)
    else none

abbrev pub hex_pair : Option ℕ → Option ℕ → Option Bytes → Option Bytes
hex_pair (some a) (some b) (some bs) = some ((a * 16 + b) ∷ bs)
hex_pair _ _ _ = none

-- `hex.DecodeString`; `none` is its error.
unfoldable pub hex_decode : Text → Option Bytes
hex_decode [] = some []
hex_decode (c ∷ []) = none
hex_decode (c ∷ d ∷ s) = hex_pair (hex_digit c) (hex_digit d) (hex_decode s)

-- The test that each record follows the one before it.
unfoldable pub contiguous_from : EvidenceRecord → List EvidenceRecord → Option CheckpointError
contiguous_from prev [] = none
contiguous_from prev (r ∷ rs) =
    let later = contiguous_from r rs in
    if not (r.body.seq == prev.body.seq + 1)
    then some (CheckpointError.non_contiguous r.body.seq prev.body.seq)
    else later

abbrev pub last_record : EvidenceRecord → List EvidenceRecord → EvidenceRecord
last_record r [] = r
last_record r (s ∷ rs) = last_record s rs

abbrev pub checkpoint_of : EvidenceRecord → List EvidenceRecord → Time → Bytes → MerkleCheckpoint
checkpoint_of first rest at root = record {
  tenant_id = first.body.tenant_id;
  first_seq = first.body.seq;
  last_seq = (last_record first rest).body.seq;
  record_count = length (first ∷ rest);
  root_hash = hex root;
  chain_head_hash = (last_record first rest).hash;
  created_at = utc_micros at;
}

module _ (sha : Sha256) where
  unfoldable pub with_leaf :
      EvidenceRecord → Option Bytes → CheckpointError ⊎ List Bytes → CheckpointError ⊎ List Bytes
  with_leaf r none later = inl (CheckpointError.not_a_digest r.body.seq)
  with_leaf r (some hash) later =
      if not (nat_eq (length hash) 32)
      then inl (CheckpointError.not_a_digest r.body.seq)
      else elim later [ inl e ↦ inl e | inr leaves ↦ inr (merkle_leaf_hash sha hash ∷ leaves) ]

  -- The loop that collects the leaves.
  unfoldable pub leaves_of : List EvidenceRecord → CheckpointError ⊎ List Bytes
  leaves_of [] = inr []
  leaves_of (r ∷ rs) = with_leaf r (hex_decode r.hash) (leaves_of rs)

  abbrev pub with_root :
      EvidenceRecord
      → List EvidenceRecord
      → Time
      → Option Bytes
      → Option (CheckpointError ⊎ MerkleCheckpoint)
  with_root first rest at none = none
  with_root first rest at (some root) = some (inr (checkpoint_of first rest at root))

  abbrev pub with_leaves :
      EvidenceRecord
      → List EvidenceRecord
      → Time
      → CheckpointError ⊎ List Bytes
      → Option (CheckpointError ⊎ MerkleCheckpoint)
  with_leaves first rest at (inl e) = some (inl e)
  with_leaves first rest at (inr leaves) = with_root first rest at (merkle_root sha leaves)

  abbrev pub with_gaps :
      EvidenceRecord
      → List EvidenceRecord
      → Time
      → Option CheckpointError
      → Option (CheckpointError ⊎ MerkleCheckpoint)
  with_gaps first rest at (some e) = some (inl e)
  with_gaps first rest at none = with_leaves first rest at (leaves_of (first ∷ rest))

  -- `BuildMerkleCheckpoint`; `none` is a panic of the root.
  unfoldable pub build_merkle_checkpoint :
      List EvidenceRecord → Time → Option (CheckpointError ⊎ MerkleCheckpoint)
  build_merkle_checkpoint [] at = some (inl CheckpointError.no_records)
  build_merkle_checkpoint (first ∷ rest) at = with_gaps first rest at (contiguous_from first rest)

-- `canonicalCheckpointDTO`: the checkpoint with its time as text.
pub record CanonicalCheckpoint : Type 0 where
  pub tenant_id : Text
  pub first_seq : ℕ
  pub last_seq : ℕ
  pub record_count : ℕ
  pub root_hash : Text
  pub chain_head_hash : Text
  pub created_at : Text

unfoldable pub canonical_checkpoint : MerkleCheckpoint → CanonicalCheckpoint
canonical_checkpoint c = record {
  tenant_id = c.tenant_id;
  first_seq = c.first_seq;
  last_seq = c.last_seq;
  record_count = c.record_count;
  root_hash = c.root_hash;
  chain_head_hash = c.chain_head_hash;
  created_at = format_micros (utc_micros c.created_at);
}

-- `json.Marshal` of it, its fields in declaration order
unfoldable pub write_checkpoint : Writer CanonicalCheckpoint
write_checkpoint c rest = field "{\"tenant_id\":" string c.tenant_id (
    field ",\"first_seq\":" number_comma c.first_seq (
      field "\"last_seq\":" number_comma c.last_seq (
        field "\"record_count\":" number_comma c.record_count (
          field "\"root_hash\":" string c.root_hash (
            field ",\"chain_head_hash\":" string c.chain_head_hash
              (field ",\"created_at\":" string c.created_at (125 ∷ rest)))))))

-- `CanonicalBytes`
abbrev pub canonical_bytes : MerkleCheckpoint → Bytes
canonical_bytes c = utf8 (write_checkpoint (canonical_checkpoint c) [])

-- `VerifyTimestampDigest`: whether it returns without an error.
unfoldable pub verify_timestamp_digest : Sha256 → MerkleCheckpoint → Bytes → Bool
verify_timestamp_digest sha c hashed_message = hashed_message == sha.digest (canonical_bytes c)
