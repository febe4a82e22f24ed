-- ===== src/Ledger/Checkpointer/Kept/Progress.antt =====
-- What a run of the checkpointer does to a ledger that it keeps (merkle_checkpoint.go).
use mathlib.Core.Path.{subst}
use vigia.Prelude.{
  ℕ, suc, ◌+◌, ◌≤◌, ◌≡◌, refl, sym, ap, ◌∙◌, Bool, true, List, [], ◌∷◌, ◌++◌, Option, none, some,
  All, arith, length, length-append, filter-append, append_nil, append_assoc, All-map,
}
use vigia.Ledger.Encoding.{Text}
use vigia.Ledger.Digest.{Bytes, Sha256}
use vigia.Ledger.Record.{EvidenceRecord, is_valid_prev_hash}
use vigia.Ledger.Chain.{Text_comparable}
use vigia.Ledger.Checkpointer.{
  CheckpointRow, LedgerTables, MerkleCheckpointer, Outcome, after_seq, latest, last_seq_of,
  head_hash_of, ◌>>◌, not_empty, verify_checkpoint_range, load_checkpoint_records,
}
use vigia.Ledger.Checkpointer.Ranges.{
  Counts, Counts-append, LinkedFrom, LinkedFrom-append, end_hash, end_hash-valid, after_seq_all,
  after_seq_none, verify_checkpoint_range-done,
}
use vigia.Ledger.Checkpointer.Kept.{IsRowOf, Covers, LiesAt, row-LiesAt, require_holds}

module _ (sha : Sha256) (verify : Bytes → Bytes → Bool) where
  -- The records that the rows cover and those that are fresh, and that the last row ends between them.
  pub record Reaches (k : ℕ) (p : Text) (rs : List EvidenceRecord) (rows : List CheckpointRow)
      (last : Option CheckpointRow) : Type 0 where
    pub covered : List EvidenceRecord
    pub fresh : List EvidenceRecord
    pub parts : rs ≡ covered ++ fresh
    pub ends : suc (last_seq_of last) ≡ length covered + k
    pub head : head_hash_of last ≡ end_hash sha p covered
    pub below : All (λ (c : CheckpointRow). suc c.last_seq ≤ length covered + k) rows
    pub extends :
        (first : EvidenceRecord) (rest : List EvidenceRecord) (row : CheckpointRow)
        → fresh ≡ first ∷ rest
        → IsRowOf sha verify (first ∷ rest) row
        → Covers sha verify rs (rows ++ row ∷ [])

  end_hash-append :
      (p : Text) (xs ys : List EvidenceRecord)
      → end_hash sha p (xs ++ ys) ≡ end_hash sha (end_hash sha p xs) ys
  end_hash-append p [] ys = refl
  end_hash-append p (x ∷ xs) ys = end_hash-append x.hash xs ys

  -- One row in front of rows that reach on.
  step-Reaches :
      (k : ℕ) (p : Text) (rs : List EvidenceRecord) (first : EvidenceRecord)
      (rest later : List EvidenceRecord) (row : CheckpointRow) (rows : List CheckpointRow)
      (last : Option CheckpointRow)
      → rs ≡ (first ∷ rest) ++ later
      → IsRowOf sha verify (first ∷ rest) row
      → LiesAt sha verify k p (first ∷ rest) row
      → Reaches (length (first ∷ rest) + k) (end_hash sha p (first ∷ rest)) later rows last
      → Reaches k p rs (row ∷ rows) last
  step-Reaches k p rs first rest later row rows last split r lies more =
      let size = length-append (first ∷ rest) more.covered in
      record {
        covered = (first ∷ rest) ++ more.covered;
        fresh = more.fresh;
        parts =
            split
            ∙ ap (λ xs. (first ∷ rest) ++ xs) more.parts
            ∙ sym (append_assoc (first ∷ rest) more.covered more.fresh);
        ends = omega (arith, more.ends, size);
        head = more.head ∙ sym (end_hash-append p (first ∷ rest) more.covered);
        below = (
          omega (arith, lies.ends, size),
          All-map (λ c h. omega (arith, h, size)) rows more.below,
        );
        extends = λ f g new e n. (first, rest, later, split, r, more.extends f g new e n);
      }

  -- Before the first row everything is fresh.
  start-Reaches :
      (k : ℕ) (p : Text) (rs : List EvidenceRecord) (last : Option CheckpointRow)
      → suc (last_seq_of last) ≡ k
      → head_hash_of last ≡ p
      → Reaches k p rs [] last
  start-Reaches k p rs last ends head = record {
    covered = [];
    fresh = rs;
    parts = refl;
    ends = omega (arith, ends);
    head = head;
    below = tt;
    extends = λ f g new e n. (f, g, [], e ∙ sym (append_nil (f ∷ g)), n, tt);
  }

  rows-Reaches :
      (k : ℕ) (p : Text) (rs : List EvidenceRecord) (row : CheckpointRow)
      (rows : List CheckpointRow)
      → Counts k rs
      → LinkedFrom sha p rs
      → Covers sha verify rs (row ∷ rows)
      → Reaches k p rs (row ∷ rows) (latest (row ∷ rows))
  rows-Reaches k p rs row [] c l (first, rest, later, split, r, v) =
      let counts = Counts-append k (first ∷ rest) later (subst (Counts k) split c) in
      let links = LinkedFrom-append sha p (first ∷ rest) later (subst (LinkedFrom sha p) split l) in
      let lies = row-LiesAt sha verify k p first rest row counts.0 links.0 r in
      step-Reaches k p rs first rest later row [] (some row) split r lies
        (start-Reaches _ _ later (some row) lies.ends lies.head)
  rows-Reaches k p rs row (next ∷ rows) c l (first, rest, later, split, r, v) =
      let counts = Counts-append k (first ∷ rest) later (subst (Counts k) split c) in
      let links = LinkedFrom-append sha p (first ∷ rest) later (subst (LinkedFrom sha p) split l) in
      let lies = row-LiesAt sha verify k p first rest row counts.0 links.0 r in
      step-Reaches k p rs first rest later row (next ∷ rows) _ split r lies (
        rows-Reaches (length (first ∷ rest) + k) (end_hash sha p (first ∷ rest)) later next rows
          counts.1 links.1 v)

  -- From an intact chain's start
  pub Covers-Reaches :
      (rs : List EvidenceRecord) (rows : List CheckpointRow)
      → Counts 1 rs
      → LinkedFrom sha [] rs
      → Covers sha verify rs rows
      → Reaches 1 [] rs rows (latest rows)
  Covers-Reaches rs [] c l v = start-Reaches 1 [] rs none refl refl
  Covers-Reaches rs (row ∷ rows) c l v = rows-Reaches 1 [] rs row rows c l v

  module _ (m : MerkleCheckpointer) (t : LedgerTables) (known : m.tenant ≡ true)
      (counts : Counts 1 t.records) (linked : LinkedFrom sha [] t.records)
      (reach : Reaches 1 [] t.records t.checkpoints (latest t.checkpoints)) where
    pub fresh-Counts : Counts (length reach.covered + 1) reach.fresh
    fresh-Counts =
        (Counts-append 1 reach.covered reach.fresh (subst (Counts 1) reach.parts counts)).1

    pub fresh-LinkedFrom : LinkedFrom sha (end_hash sha [] reach.covered) reach.fresh
    fresh-LinkedFrom =
        (LinkedFrom-append sha [] reach.covered reach.fresh
          (subst (LinkedFrom sha []) reach.parts linked)).1

    selected-fresh : after_seq (last_seq_of (latest t.checkpoints)) t.records ≡ reach.fresh
    selected-fresh =
        let last = last_seq_of (latest t.checkpoints) in
        let front =
          (Counts-append 1 reach.covered reach.fresh (subst (Counts 1) reach.parts counts)).0 in
        ap (after_seq last) reach.parts
        ∙ filter-append _ reach.covered reach.fresh
        ∙ rw (
          after_seq_none 1 last reach.covered front (omega (arith, reach.ends)),
          after_seq_all _ last reach.fresh fresh-Counts (omega (arith, reach.ends)),
        )

    fresh-verified :
        verify_checkpoint_range sha reach.fresh (head_hash_of (latest t.checkpoints))
        ≡ Outcome.done tt
    fresh-verified =
        let front =
          (LinkedFrom-append sha [] reach.covered reach.fresh
            (subst (LinkedFrom sha []) reach.parts linked)).0 in
        let valid = end_hash-valid sha [] reach.covered (unfold is_valid_prev_hash in refl) front in
        ap (verify_checkpoint_range sha reach.fresh) reach.head
        ∙ verify_checkpoint_range-done sha _ reach.fresh valid fresh-LinkedFrom

    pub load-fresh :
        load_checkpoint_records sha m t ≡ (not_empty reach.fresh >> Outcome.done reach.fresh)
    unfolding load_checkpoint_records
    load-fresh = require_holds m.tenant _ _ known ∙ rw (selected-fresh, fresh-verified)
