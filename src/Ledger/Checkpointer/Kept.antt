-- ===== src/Ledger/Checkpointer/Kept.antt =====
-- The checkpoints that a ledger keeps: what makes them verify (merkle_checkpoint.go).
pub mod Progress
pub mod Growth
use mathlib.Core.Path.{subst}
use vigia.Prelude.{
  ℕ, zero, suc, ◌+◌, ◌≤◌, ◌<◌, ◌≡◌, refl, sym, ap, ◌∙◌, inl, inr, ◌⊎◌, Bool, true, false, List, [],
  ◌∷◌, ◌++◌, Option, none, some, arith, length, length-append, filter-append, append_nil,
  append_assoc, leb, ◌&&◌, ◌==◌,
}
use vigia.Time.{Time, utc_micros}
use vigia.Ledger.Encoding.{Text}
use vigia.Ledger.Digest.{Bytes, Sha256}
use vigia.Ledger.Record.{EvidenceRecord}
use vigia.Ledger.Chain.{text_equal_iff, Text_comparable}
use vigia.Ledger.Chain.Intact.{IsIntact}
use vigia.Ledger.Checkpoint.{
  MerkleCheckpoint, CheckpointError, last_record, checkpoint_of, build_merkle_checkpoint,
  canonical_bytes,
}
use vigia.Ledger.Checkpoint.Built.{IsBuilt}
use vigia.Ledger.Checkpointer.{
  ◌>>◌, CheckpointRow, CheckpointerError, LedgerTables, MerkleCheckpointer, Client, Outcome,
  seq_range, from_build, is_same, verifier_of, require, verify_row, verify_rows,
  verify_merkle_checkpoints, latest,
}
use vigia.Ledger.Checkpointer.Ranges.{
  Counts, Counts-append, LinkedFrom, LinkedFrom-append, end_hash, seq_range_all, seq_range_none,
  IsIntact-Counts,
}
use vigia.Ledger.Checkpointer.Builds.{linked-builds}

pub require_holds :
    {B : Type 0} (b : Bool) (e : CheckpointerError) (k : Outcome B)
    → b ≡ true
    → (require b e >> k) ≡ k
require_holds true e k h = refl
require_holds false e k h = absurd (cc)

module _ (sha : Sha256) (verify : Bytes → Bytes → Bool) where
  -- The row holds the checkpoint of the range, with a token for its canonical bytes.
  pub record IsRowOf (range : List EvidenceRecord) (row : CheckpointRow) : Type 0 where
    pub checkpoint : MerkleCheckpoint
    pub built : build_merkle_checkpoint sha range row.created_at ≡ some (inr checkpoint)
    pub first_seq : row.first_seq ≡ checkpoint.first_seq
    pub last_seq : row.last_seq ≡ checkpoint.last_seq
    pub root_hash : row.root_hash ≡ checkpoint.root_hash
    pub chain_head_hash : row.chain_head_hash ≡ checkpoint.chain_head_hash
    pub checkpoint_body : row.checkpoint_body ≡ canonical_bytes checkpoint
    pub token : verify row.rfc3161_token (sha.digest row.checkpoint_body) ≡ true

  -- The rows cover the records range by range, from the first one on.
  abbrev pub Covers : List EvidenceRecord → List CheckpointRow → Type 0
  Covers rs [] = Unit
  Covers rs (row ∷ rows) =
      (first : EvidenceRecord) × (rest : List EvidenceRecord) × (later : List EvidenceRecord) × (rs
        ≡ (first ∷ rest) ++ later)
      × IsRowOf (first ∷ rest) row
      × Covers later rows

  -- The chain is intact and the checkpoints cover it from its start, without a gap or an overlap.
  pub record IsCheckpointed (t : LedgerTables) : Type 0 where
    pub intact : IsIntact sha t.records
    pub covered : Covers t.records t.checkpoints

  last-seq :
      (k : ℕ) (first : EvidenceRecord) (rest : List EvidenceRecord)
      → Counts k (first ∷ rest)
      → suc (last_record first rest).body.seq ≡ length (first ∷ rest) + k
  last-seq k first [] (at, c) = omega (arith, at)
  last-seq k first (s ∷ rest) (at, c) = omega (arith, last-seq (suc k) s rest c)

  last-hash :
      (p : Text) (first : EvidenceRecord) (rest : List EvidenceRecord)
      → (last_record first rest).hash ≡ end_hash sha p (first ∷ rest)
  last-hash p first [] = refl
  last-hash p first (s ∷ rest) = last-hash first.hash s rest

  same_built :
      (o : Option (CheckpointError ⊎ MerkleCheckpoint)) (c d : MerkleCheckpoint)
      → o ≡ some (inr c)
      → o ≡ some (inr d)
      → c ≡ d
  same_built o c d h k = cc

  -- Where the range of a row lies in the chain.
  pub record LiesAt (k : ℕ) (p : Text) (range : List EvidenceRecord) (row : CheckpointRow)
      : Type 0 where
    pub starts : row.first_seq ≡ k
    pub ends : suc row.last_seq ≡ length range + k
    pub head : row.chain_head_hash ≡ end_hash sha p range

  pub row-LiesAt :
      (k : ℕ) (p : Text) (first : EvidenceRecord) (rest : List EvidenceRecord) (row : CheckpointRow)
      → Counts k (first ∷ rest)
      → LinkedFrom sha p (first ∷ rest)
      → IsRowOf (first ∷ rest) row
      → LiesAt k p (first ∷ rest) row
  row-LiesAt k p first rest row c l r =
      let (d, found, b) = linked-builds sha k p first rest row.created_at c l in
      let same : r.checkpoint ≡ d = same_built _ _ _ r.built found in
      record {
        starts = r.first_seq ∙ ap (λ x. x.first_seq) (same ∙ b.built) ∙ c.0;
        ends =
            ap suc (r.last_seq ∙ ap (λ x. x.last_seq) (same ∙ b.built)) ∙ last-seq k first rest c;
        head =
            r.chain_head_hash
            ∙ ap (λ x. x.chain_head_hash) (same ∙ b.built)
            ∙ last-hash p first rest;
      }

  part-LiesAt :
      (records before : List EvidenceRecord) (first : EvidenceRecord)
      (rest later : List EvidenceRecord) (row : CheckpointRow)
      → Counts 1 records
      → LinkedFrom sha [] records
      → records ≡ before ++ ((first ∷ rest) ++ later)
      → IsRowOf (first ∷ rest) row
      → LiesAt (length before + 1) (end_hash sha [] before) (first ∷ rest) row
  part-LiesAt records before first rest later row c l e r =
      let counts = (Counts-append 1 before ((first ∷ rest) ++ later) (subst (Counts 1) e c)).1 in
      let links =
        (LinkedFrom-append sha [] before ((first ∷ rest) ++ later)
          (subst (LinkedFrom sha []) e l)).1 in
      row-LiesAt _ _ first rest row
        (Counts-append (length before + 1) (first ∷ rest) later counts).0
        (LinkedFrom-append sha (end_hash sha [] before) (first ∷ rest) later links).0 r

  -- The query for the range of a row gives that range back.
  seq_range-part :
      (k first last : ℕ) (before range later : List EvidenceRecord)
      → Counts k (before ++ (range ++ later))
      → first ≡ length before + k
      → suc last ≡ length range + first
      → seq_range first last (before ++ (range ++ later)) ≡ range
  seq_range-part k first last before range later c starts ends =
      let (front, back) = Counts-append k before (range ++ later) c in
      let (inside, behind) = Counts-append (length before + k) range later back in
      filter-append _ before (range ++ later)
      ∙ rw
          (
            seq_range_none k first last before front (inr (omega (arith, starts))),
            filter-append (λ r. leb first r.body.seq && leb r.body.seq last) range later,
            seq_range_all (length before + k) first last range inside (omega (arith, starts))
                (omega (arith, starts, ends)),
            seq_range_none (length range + (length before + k)) first last later behind
                (inl (omega (arith, starts, ends))),
          )
          (append_nil range)

  module _ (m : MerkleCheckpointer)
      (has_verifier : verifier_of m.client ≡ Outcome.done verify) where
    verify_row-done :
        (records range : List EvidenceRecord) (row : CheckpointRow)
        → IsRowOf range row
        → seq_range row.first_seq row.last_seq records ≡ range
        → verify_row sha m records row ≡ Outcome.done tt
    unfolding verify_row
    verify_row-done records range row r e =
        let root = (text_equal_iff _ _).1 r.root_hash in
        let head = (text_equal_iff _ _).1 r.chain_head_hash in
        let body = (text_equal_iff _ _).1 r.checkpoint_body in
        rw (e, r.built, root, head, body, has_verifier, r.token)

    -- The rows that cover what follows the records before them.
    covered-verify :
        (records before rs : List EvidenceRecord) (rows : List CheckpointRow)
        → Counts 1 records
        → LinkedFrom sha [] records
        → records ≡ before ++ rs
        → Covers rs rows
        → verify_rows sha m records rows ≡ Outcome.done tt
    unfolding verify_rows
    covered-verify records before rs [] c l e v = refl
    covered-verify records before rs (row ∷ rows) c l e (first, rest, later, split, r, v) =
        let parts = e ∙ ap (λ xs. before ++ xs) split in
        let part = part-LiesAt records before first rest later row c l parts r in
        let selected =
          seq_range-part 1 row.first_seq row.last_seq before (first ∷ rest) later
            (subst (Counts 1) parts c) part.starts (omega (arith, part.ends, part.starts)) in
        let selected_here : seq_range row.first_seq row.last_seq records ≡ first ∷ rest =
          rw parts selected in
        let here = verify_row-done records (first ∷ rest) row r selected_here in
        let assoc = append_assoc before (first ∷ rest) later in
        rw here
          (covered-verify records (before ++ (first ∷ rest)) later rows c l (parts ∙ sym assoc) v)

    -- The checkpoints of a checkpointed ledger verify.
    pub checkpointed-verify :
        (t : LedgerTables)
        → m.tenant ≡ true
        → IsCheckpointed t
        → verify_merkle_checkpoints sha m t ≡ Outcome.done tt
    unfolding verify_merkle_checkpoints
    checkpointed-verify t known h =
        let (counts, linked) = IsIntact-Counts sha t.records h.intact in
        require_holds m.tenant _ _ known
        ∙ covered-verify t.records [] t.records t.checkpoints counts linked refl h.covered
