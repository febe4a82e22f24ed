-- ===== src/Ledger/Checkpointer/Ranges.antt =====
-- Ranges of an intact chain: their sequence numbers, their linkage, and that they build (checkpoint.go, merkle_checkpoint.go).
use vigia.Prelude.{
  ℕ, suc, ◌+◌, ◌≤◌, ◌<◌, ◌≡◌, refl, sym, List, [], ◌∷◌, ◌++◌, All, arith, length, true, All-map,
  filter-All, filter-none, ◌⊎◌,
}
use vigia.Ledger.Encoding.{Text}
use vigia.Ledger.Digest.{Sha256}
use vigia.Ledger.Record.{EvidenceRecord, is_valid_prev_hash}
use vigia.Ledger.Chain.{text_equal_iff, Text_comparable}
use vigia.Ledger.Chain.Intact.{IsHashed, IsHashed-valid, Linked, IsIntact, hash_of-valid}
use vigia.Ledger.Checkpoint.Built.{IsContiguous}
use vigia.Ledger.Checkpointer.{Outcome, after_seq, seq_range, verify_checkpoint_range}

-- The records have the sequence numbers from `k` on.
abbrev pub Counts : ℕ → List EvidenceRecord → Type 0
Counts k [] = Unit
Counts k (r ∷ rs) = (r.body.seq ≡ k) × Counts (suc k) rs

pub Counts-append :
    (k : ℕ) (xs ys : List EvidenceRecord)
    → Counts k (xs ++ ys)
    → Counts k xs × Counts (length xs + k) ys
Counts-append k [] ys c = let none_before : 0 + k ≡ k = omega arith in (tt, rw none_before c)
Counts-append k (x ∷ xs) ys (at, c) =
    let (front, back) = Counts-append (suc k) xs ys c in
    let shift : suc (length xs) + k ≡ length xs + suc k = omega arith in
    ((at, front), rw shift back)

Counts-All :
    (k : ℕ) (rs : List EvidenceRecord)
    → Counts k rs
    → All (λ r. (k ≤ r.body.seq) × (r.body.seq < length rs + k)) rs
Counts-All k [] c = tt
Counts-All k (r ∷ rs) (at, c) = (
  (omega (arith, at), omega (arith, at)),
  All-map (λ s b. (omega (arith, b.0), omega (arith, b.1))) rs (Counts-All (suc k) rs c),
)

pub Counts-IsContiguous :
    (k : ℕ) (r : EvidenceRecord) (rs : List EvidenceRecord) → Counts k (r ∷ rs) → IsContiguous r rs
Counts-IsContiguous k r [] c = tt
Counts-IsContiguous k r (s ∷ rs) (at, (next, c)) =
    (omega (arith, at, next), Counts-IsContiguous (suc k) s rs (next, c))

-- What the queries select from records that count.
pub after_seq_all : (k n : ℕ) (rs : List EvidenceRecord) → Counts k rs → n < k → after_seq n rs ≡ rs
after_seq_all k n rs c h = filter-All _ rs (All-map (λ r b. ground arith) rs (Counts-All k rs c))

pub after_seq_none :
    (k n : ℕ) (rs : List EvidenceRecord) → Counts k rs → length rs + k ≤ suc n → after_seq n rs ≡ []
after_seq_none k n rs c h = filter-none _ rs (All-map (λ r b. ground arith) rs (Counts-All k rs c))

pub seq_range_all :
    (k first last : ℕ) (rs : List EvidenceRecord)
    → Counts k rs
    → first ≤ k
    → length rs + k ≤ suc last
    → seq_range first last rs ≡ rs
seq_range_all k first last rs c h l =
    filter-All _ rs (All-map (λ r b. ground arith) rs (Counts-All k rs c))

pub seq_range_none :
    (k first last : ℕ) (rs : List EvidenceRecord)
    → Counts k rs
    → (last < k) ⊎ (length rs + k ≤ first)
    → seq_range first last rs ≡ []
seq_range_none k first last rs c h =
    filter-none _ rs (All-map (λ r b. ground arith) rs (Counts-All k rs c))

module _ (sha : Sha256) where
  -- The records are linked behind a hash, and each has its hash.
  abbrev pub LinkedFrom : Text → List EvidenceRecord → Type 0
  LinkedFrom p [] = Unit
  LinkedFrom p (r ∷ rs) = (r.prev_hash ≡ p) × (IsHashed sha r × LinkedFrom r.hash rs)

  -- The hash behind which the next record is linked.
  abbrev pub end_hash : Text → List EvidenceRecord → Text
  end_hash p [] = p
  end_hash p (r ∷ rs) = end_hash r.hash rs

  pub LinkedFrom-append :
      (p : Text) (xs ys : List EvidenceRecord)
      → LinkedFrom p (xs ++ ys)
      → LinkedFrom p xs × LinkedFrom (end_hash p xs) ys
  LinkedFrom-append p [] ys l = (tt, l)
  LinkedFrom-append p (x ∷ xs) ys (at, (hashed, l)) =
      let (front, back) = LinkedFrom-append x.hash xs ys l in ((at, (hashed, front)), back)

  pub end_hash-valid :
      (p : Text) (rs : List EvidenceRecord)
      → is_valid_prev_hash p ≡ true
      → LinkedFrom p rs
      → is_valid_prev_hash (end_hash p rs) ≡ true
  end_hash-valid p [] v l = v
  end_hash-valid p (r ∷ rs) v (at, (hashed, l)) =
      end_hash-valid r.hash rs (IsHashed-valid sha r hashed) l

  pub verify_checkpoint_range-done :
      (p : Text) (rs : List EvidenceRecord)
      → is_valid_prev_hash p ≡ true
      → LinkedFrom p rs
      → verify_checkpoint_range sha rs p ≡ Outcome.done tt
  unfolding verify_checkpoint_range
  verify_checkpoint_range-done p [] v l = refl
  verify_checkpoint_range-done p (r ∷ rs) v (at, (hashed, l)) =
      let valid : is_valid_prev_hash r.prev_hash ≡ true = rw at v in
      let got = hash_of-valid sha r.prev_hash r.body valid in
      rw ((text_equal_iff r.prev_hash p).1 at, got, (text_equal_iff _ r.hash).1 (sym hashed))
        (verify_checkpoint_range-done r.hash rs (IsHashed-valid sha r hashed) l)

  -- An intact chain counts from 1 and is linked from the empty hash.
  Linked-Counts :
      (p : EvidenceRecord) (rs : List EvidenceRecord) (k : ℕ)
      → p.body.seq ≡ k
      → Linked sha p rs
      → Counts (suc k) rs × LinkedFrom p.hash rs
  Linked-Counts p [] k at l = (tt, tt)
  Linked-Counts p (r ∷ rs) k at (f, l) =
      let seq : r.body.seq ≡ suc k = omega (arith, f.next_seq, at) in
      let (counts, linked) = Linked-Counts r rs (suc k) seq l in
      ((seq, counts), (f.linked, (f.hashed, linked)))

  pub IsIntact-Counts :
      (rs : List EvidenceRecord) → IsIntact sha rs → Counts 1 rs × LinkedFrom [] rs
  IsIntact-Counts [] i = (tt, tt)
  IsIntact-Counts (r ∷ rs) (first, start, hashed, l) =
      let (counts, linked) = Linked-Counts r rs 1 start l in
      ((start, counts), (first, (hashed, linked)))
