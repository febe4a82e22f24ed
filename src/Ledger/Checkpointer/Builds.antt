-- ===== src/Ledger/Checkpointer/Builds.antt =====
-- A linked range of records builds, and builds again to the same checkpoint (checkpoint.go).
use vigia.Prelude.{
  ℕ, ◌+◌, ◌*◌, ◌/◌, ◌%◌, ◌<◌, ◌≡◌, refl, ap, ◌∙◌, inl, inr, List, [], ◌∷◌, ◌++◌, Option, none, some,
  All, arith, ◌⊎◌,
}
use vigia.Time.{Time, utc_time, utc_micros}
use vigia.Ledger.Encoding.{Text}
use vigia.Ledger.Json.{nibble}
use vigia.Ledger.Digest.{Bytes, Sha256, utf8, hex}
use vigia.Ledger.Record.{EvidenceRecord, canonical_of, write_body}
use vigia.Ledger.Chain.Intact.{IsHashed}
use vigia.Ledger.Checkpoint.{
  MerkleCheckpoint, CheckpointError, hex_digit, hex_decode, checkpoint_of, with_root, with_leaves,
  with_gaps, build_merkle_checkpoint,
}
use vigia.Ledger.Checkpoint.Built.{
  IsContiguous, BreaksAt, Decodes, MalformedAt, Explains, IsBuilt, build_merkle_checkpoint-Explains,
}
use vigia.Ledger.Checkpointer.Ranges.{Counts, Counts-IsContiguous, LinkedFrom}

hex_digit-nibble : (n : ℕ) → n < 16 → hex_digit (nibble n) ≡ some n
hex_digit-nibble n h = ground arith

-- What `hex.EncodeToString` writes, `hex.DecodeString` reads.
pub hex_decode-hex : (b : Bytes) → All (λ x. x < 256) b → hex_decode (hex b) ≡ some b
unfolding hex_decode hex
hex_decode-hex [] h = refl
hex_decode-hex (x ∷ b) h =
    let byte : x / 16 * 16 + x % 16 ≡ x = omega arith in
    rw (
      hex_digit-nibble (x / 16) (omega (arith, h.0)),
      hex_digit-nibble (x % 16) (omega arith),
      hex_decode-hex b h.1,
      byte,
    )

module _ (sha : Sha256) where
  hashed-Decodes : (r : EvidenceRecord) → IsHashed sha r → (b : Bytes) × Decodes r.hash b
  hashed-Decodes r h =
      let input = utf8 r.prev_hash ++ utf8 (write_body (canonical_of r.body) []) in
      (
        sha.digest input,
        (ap hex_decode h ∙ hex_decode-hex _ (sha.digest_bytes input), sha.digest_length input),
      )

  linked-not-MalformedAt :
      (p : Text) (rs : List EvidenceRecord) (e : CheckpointError)
      → LinkedFrom sha p rs
      → ¬ (MalformedAt rs e)
  linked-not-MalformedAt p [] e l m = m
  linked-not-MalformedAt p (r ∷ rs) e (at, (hashed, l)) (inl (bad, _)) =
      let (b, decodes) = hashed-Decodes r hashed in bad b decodes
  linked-not-MalformedAt p (r ∷ rs) e (at, (hashed, l)) (inr (_, m)) =
      linked-not-MalformedAt r.hash rs e l m

  contiguous-not-BreaksAt :
      (r : EvidenceRecord) (rs : List EvidenceRecord) (e : CheckpointError)
      → IsContiguous r rs
      → ¬ (BreaksAt r rs e)
  contiguous-not-BreaksAt r [] e c b = b
  contiguous-not-BreaksAt r (s ∷ rs) e (next, c) (inl (breaks, _)) = breaks next
  contiguous-not-BreaksAt r (s ∷ rs) e (next, c) (inr (_, b)) = contiguous-not-BreaksAt s rs e c b

  Explains-IsBuilt :
      (k : ℕ) (p : Text) (first : EvidenceRecord) (rest : List EvidenceRecord) (at : Time)
      (o : CheckpointError ⊎ MerkleCheckpoint)
      → Counts k (first ∷ rest)
      → LinkedFrom sha p (first ∷ rest)
      → Explains sha (first ∷ rest) at o
      → (c : MerkleCheckpoint) × (o ≡ inr c) × IsBuilt sha first rest at c
  Explains-IsBuilt k p first rest at (inl e) c l (inl breaks) =
      absurd (contiguous-not-BreaksAt first rest e (Counts-IsContiguous k first rest c) breaks)
  Explains-IsBuilt k p first rest at (inl e) c l (inr (_, bad)) =
      absurd (linked-not-MalformedAt p (first ∷ rest) e l bad)
  Explains-IsBuilt k p first rest at (inr c) n l built = (c, refl, built)

  pub linked-builds :
      (k : ℕ) (p : Text) (first : EvidenceRecord) (rest : List EvidenceRecord) (at : Time)
      → Counts k (first ∷ rest)
      → LinkedFrom sha p (first ∷ rest)
      → (c : MerkleCheckpoint) × (build_merkle_checkpoint sha (first ∷ rest) at ≡ some (inr c))
        × IsBuilt sha first rest at c
  linked-builds k p first rest at n l =
      let (o, found, explained) = build_merkle_checkpoint-Explains sha (first ∷ rest) at in
      let (c, same, built) = Explains-IsBuilt k p first rest at o n l explained in
      (c, found ∙ ap some same, built)

  utc_micros_twice : (at : Time) → utc_micros (utc_micros at) ≡ utc_micros at
  utc_micros_twice at = ap utc_time (omega arith)

  with_root-utc_micros :
      (first : EvidenceRecord) (rest : List EvidenceRecord) (at : Time) (root : Option Bytes)
      → with_root sha first rest (utc_micros at) root ≡ with_root sha first rest at root
  with_root-utc_micros first rest at none = refl
  with_root-utc_micros first rest at (some root) =
      ap (λ t. some (inr (record (checkpoint_of first rest at root) { created_at = t })))
        (utc_micros_twice at)

  with_leaves-utc_micros :
      (first : EvidenceRecord) (rest : List EvidenceRecord) (at : Time)
      (leaves : CheckpointError ⊎ List Bytes)
      → with_leaves sha first rest (utc_micros at) leaves ≡ with_leaves sha first rest at leaves
  with_leaves-utc_micros first rest at (inl e) = refl
  with_leaves-utc_micros first rest at (inr leaves) = with_root-utc_micros first rest at _

  with_gaps-utc_micros :
      (first : EvidenceRecord) (rest : List EvidenceRecord) (at : Time)
      (gap : Option CheckpointError)
      → with_gaps sha first rest (utc_micros at) gap ≡ with_gaps sha first rest at gap
  with_gaps-utc_micros first rest at (some e) = refl
  with_gaps-utc_micros first rest at none = with_leaves-utc_micros first rest at _

  -- The time that is stored builds the same checkpoint again.
  pub build-utc_micros :
      (rs : List EvidenceRecord) (at : Time)
      → build_merkle_checkpoint sha rs (utc_micros at) ≡ build_merkle_checkpoint sha rs at
  unfolding build_merkle_checkpoint
  build-utc_micros [] at = refl
  build-utc_micros (first ∷ rest) at = with_gaps-utc_micros first rest at _
