-- ===== src/Ledger/Chain/Intact.antt =====
-- Which chains `VerifyChain` accepts, and that it never panics.
use vigia.Prelude.{
  ℕ, ◌+◌, ◌≡◌, refl, ◌↔◌, Bool, true, false, List, [], ◌∷◌, Option, none, some, arith, length,
  is_some,
}
use vigia.Ledger.Encoding.{Text}
use vigia.Ledger.Digest.{Sha256}
use vigia.Ledger.Record.{Body, EvidenceRecord, canonical_of, is_valid_prev_hash, hash_text, hash_of}
use vigia.Ledger.Hashing.{hash_text-valid}
use vigia.Ledger.Chain.{
  text_equal_iff, VerifyResult, BreakReason, broken, compare_hash, verify_from, verify_chain,
}

module _ (sha : Sha256) where
  -- The stored hash is that of the record.
  abbrev pub IsHashed : EvidenceRecord → Type 0
  IsHashed r = r.hash ≡ hash_text sha r.prev_hash (canonical_of r.body)

  -- `c` follows `p` in a chain.
  pub record Follows (p c : EvidenceRecord) : Type 0 where
    pub next_seq : c.body.seq ≡ p.body.seq + 1
    pub linked : c.prev_hash ≡ p.hash
    pub hashed : IsHashed c

  abbrev pub Linked : EvidenceRecord → List EvidenceRecord → Type 0
  Linked p [] = Unit
  Linked p (c ∷ rest) = Follows p c × Linked c rest

  -- A chain starts at seq 1 behind the empty hash, and each record follows the one before it.
  abbrev pub IsIntact : List EvidenceRecord → Type 0
  IsIntact [] = Unit
  IsIntact (r ∷ rest) = (r.prev_hash ≡ []) × (r.body.seq ≡ 1) × IsHashed r × Linked r rest

  abbrev pub is_ok : Option VerifyResult → Bool
  is_ok none = false
  is_ok (some v) = v.intact

  pub hash_of-valid :
      (p : Text) (b : Body)
      → is_valid_prev_hash p ≡ true
      → hash_of sha p b ≡ some (hash_text sha p (canonical_of b))
  unfolding hash_of
  hash_of-valid p b h = rw h

  compare-ok_iff :
      (r : EvidenceRecord) (n e : ℕ) (later : Option VerifyResult)
      → is_valid_prev_hash r.prev_hash ≡ true
      → (is_ok (
            compare_hash
              (hash_of sha r.prev_hash r.body)
              r.hash
              (broken n r.body.seq e BreakReason.hash_mismatch)
              later)
          ≡ true)
        ↔ (IsHashed r × (is_ok later ≡ true))
  unfolding compare_hash
  compare-ok_iff r n e later h =
      rw (hash_of-valid r.prev_hash r.body h)
        (ground (arith, text_equal_iff (hash_text sha r.prev_hash (canonical_of r.body)) r.hash))

  pub IsHashed-valid : (r : EvidenceRecord) → IsHashed r → is_valid_prev_hash r.hash ≡ true
  IsHashed-valid r h = rw h (hash_text-valid sha r.prev_hash (canonical_of r.body))

  verify_from-gates :
      (n : ℕ) (p c : EvidenceRecord) (rs : List EvidenceRecord)
      → (is_ok (verify_from sha n p (c ∷ rs)) ≡ true) ↔ (
          (c.body.seq ≡ p.body.seq + 1)
          × (c.prev_hash ≡ p.hash)
          × (is_ok (
                compare_hash
                  (hash_of sha c.prev_hash c.body)
                  c.hash
                  (broken n c.body.seq (p.body.seq + 1) BreakReason.hash_mismatch)
                  (verify_from sha n c rs))
              ≡ true))
  unfolding verify_from
  verify_from-gates n p c rs = ground (arith, text_equal_iff c.prev_hash p.hash)

  verify_from-ok_iff :
      (n : ℕ) (p : EvidenceRecord) (rs : List EvidenceRecord)
      → is_valid_prev_hash p.hash ≡ true
      → (is_ok (verify_from sha n p rs) ≡ true) ↔ Linked p rs
  verify_from-ok_iff n p [] v = unfold verify_from in (λ _. tt, λ _. refl)
  verify_from-ok_iff n p (c ∷ rs) v = (
    λ h.
        let (next, linked, checked) = (verify_from-gates n p c rs).0 h in
        let (hashed, later) = (compare-ok_iff c n _ _ (rw linked v)).0 checked in
        (
          record { next_seq = next; linked = linked; hashed = hashed },
          (verify_from-ok_iff n c rs (IsHashed-valid c hashed)).0 later,
        ),
    λ (f, rest). (verify_from-gates n p c rs).1 (
      f.next_seq,
      f.linked,
      (compare-ok_iff c n _ _ (rw f.linked v)).1
          (f.hashed, (verify_from-ok_iff n c rs (IsHashed-valid c f.hashed)).1 rest),
    ),
  )

  verify_chain-gates :
      (r : EvidenceRecord) (rs : List EvidenceRecord)
      → (is_ok (verify_chain sha (r ∷ rs)) ≡ true) ↔ (
          (r.prev_hash ≡ [])
          × (r.body.seq ≡ 1)
          × (is_ok (
                compare_hash
                  (hash_of sha r.prev_hash r.body)
                  r.hash
                  (broken (length (r ∷ rs)) r.body.seq 1 BreakReason.hash_mismatch)
                  (verify_from sha (length (r ∷ rs)) r rs))
              ≡ true))
  unfolding verify_chain
  verify_chain-gates r rs = ground (arith, text_equal_iff r.prev_hash [])

  genesis_valid : is_valid_prev_hash [] ≡ true
  unfolding is_valid_prev_hash
  genesis_valid = refl

  verify_chain-ok_iff :
      (rs : List EvidenceRecord) → (is_ok (verify_chain sha rs) ≡ true) ↔ IsIntact rs
  verify_chain-ok_iff [] = unfold verify_chain in (λ _. tt, λ _. refl)
  verify_chain-ok_iff (r ∷ rs) = (
    λ h.
        let (first, start, checked) = (verify_chain-gates r rs).0 h in
        let (hashed, later) = (compare-ok_iff r _ _ _ (rw first genesis_valid)).0 checked in
        (first, start, hashed, (verify_from-ok_iff _ r rs (IsHashed-valid r hashed)).0 later),
    λ (first, start, hashed, rest). (verify_chain-gates r rs).1 (
      first,
      start,
      (compare-ok_iff r _ _ _ (rw first genesis_valid)).1
          (hashed, (verify_from-ok_iff _ r rs (IsHashed-valid r hashed)).1 rest),
    ),
  )

  compare-total :
      (r : EvidenceRecord) (n e : ℕ) (later : Option VerifyResult)
      → is_valid_prev_hash r.prev_hash ≡ true
      → (IsHashed r → is_some later ≡ true)
      → is_some (
          compare_hash
            (hash_of sha r.prev_hash r.body)
            r.hash
            (broken n r.body.seq e BreakReason.hash_mismatch)
            later)
        ≡ true
  unfolding compare_hash
  compare-total r n e later v h =
      rw (hash_of-valid r.prev_hash r.body v)
        (ground (arith, h, text_equal_iff (hash_text sha r.prev_hash (canonical_of r.body)) r.hash))

  verify_from-total :
      (n : ℕ) (p : EvidenceRecord) (rs : List EvidenceRecord)
      → is_valid_prev_hash p.hash ≡ true
      → is_some (verify_from sha n p rs) ≡ true
  unfolding verify_from
  verify_from-total n p [] v = refl
  verify_from-total n p (c ∷ rs) v =
      let checked : c.prev_hash ≡ p.hash
          → is_some (
              compare_hash (hash_of sha c.prev_hash c.body) c.hash
                (broken n c.body.seq (p.body.seq + 1) BreakReason.hash_mismatch)
                (verify_from sha n c rs))
            ≡ true =
        λ l.
          compare-total c n (p.body.seq + 1) (verify_from sha n c rs) (rw l v)
            (λ h. verify_from-total n c rs (IsHashed-valid c h)) in
      ground (arith, text_equal_iff c.prev_hash p.hash, checked)

  verify_chain-total : (rs : List EvidenceRecord) → is_some (verify_chain sha rs) ≡ true
  unfolding verify_chain
  verify_chain-total [] = refl
  verify_chain-total (r ∷ rs) =
      let n = length (r ∷ rs) in
      let checked : r.prev_hash ≡ []
          → is_some (
              compare_hash (hash_of sha r.prev_hash r.body) r.hash
                (broken n r.body.seq 1 BreakReason.hash_mismatch) (verify_from sha n r rs))
            ≡ true =
        λ l.
          compare-total r n 1 (verify_from sha n r rs) (rw l genesis_valid)
            (λ h. verify_from-total n r rs (IsHashed-valid r h)) in
      ground (arith, text_equal_iff r.prev_hash [], checked)

  -- Replaying any list of records never panics, and accepts exactly the chains that start at seq 1
  -- behind the empty hash, number without a gap, link each record to the hash of the one before
  -- it, and store each record's own hash.
  pub verify_chain-IsIntact_iff :
      (rs : List EvidenceRecord)
      → (is_some (verify_chain sha rs) ≡ true)
        × ((is_ok (verify_chain sha rs) ≡ true) ↔ IsIntact rs)
  verify_chain-IsIntact_iff rs = (verify_chain-total rs, verify_chain-ok_iff rs)
