-- ===== src/Ledger/Chain/Binding.antt =====
-- What the head of a chain commits to, and how a chain grows (verify.go, ledger.go).
use mathlib.Core.List.{Memᴰ}
use vigia.Prelude.{
  All, ◌+◌, ◌≡◌, refl, sym, ◌∙◌, ap, ◌⊎◌, inl, inr, true, List, [], ◌∷◌, ◌++◌, map, arith, length,
}
use vigia.Ledger.Encoding.{Text}
use vigia.Ledger.Digest.{Bytes, Sha256, Collision}
use vigia.Ledger.Record.{Body, EvidenceRecord, CanonicalBody, canonical_of, is_valid_prev_hash}
use vigia.Ledger.Hashing.{hash_input, hash_text-binding}
use vigia.Ledger.Chain.{verify_chain}
use vigia.Ledger.Chain.Intact.{
  Follows, Linked, IsHashed, IsIntact, IsHashed-valid, is_ok, verify_chain-IsIntact_iff,
}

-- All of a record that the chain covers; its row id is not.
pub record Content : Type 0 where
  pub body : CanonicalBody
  pub prev_hash : Text
  pub hash : Text

abbrev pub content : EvidenceRecord → Content
content r = record { body = canonical_of r.body; prev_hash = r.prev_hash; hash = r.hash }

-- The last record of a chain that begins with `r`.
abbrev pub last_of : EvidenceRecord → List EvidenceRecord → EvidenceRecord
last_of r [] = r
last_of r (c ∷ rest) = last_of c rest

seq-canonical : (b : Body) → (canonical_of b).seq ≡ b.seq
unfolding canonical_of
seq-canonical b = refl

-- What the replay of a chain hands to SHA-256, one input for each record.
abbrev pub chain_inputs : List EvidenceRecord → List Bytes
chain_inputs [] = []
chain_inputs (r ∷ rs) = hash_input r.prev_hash (canonical_of r.body) ∷ chain_inputs rs

abbrev AreHashed : List Bytes → List EvidenceRecord → Type 0
AreHashed hashed rs = All (λ r. Memᴰ (hash_input r.prev_hash (canonical_of r.body)) hashed) rs

AreHashed-wider :
    (b : Bytes) (hashed : List Bytes) (rs : List EvidenceRecord)
    → AreHashed hashed rs
    → AreHashed (b ∷ hashed) rs
AreHashed-wider b hashed [] h = tt
AreHashed-wider b hashed (r ∷ rs) h = (Memᴰ.tail h.0, AreHashed-wider b hashed rs h.1)

AreHashed-first : (rs ts : List EvidenceRecord) → AreHashed (chain_inputs rs ++ chain_inputs ts) rs
AreHashed-first [] ts = tt
AreHashed-first (r ∷ rs) ts = (Memᴰ.head refl, AreHashed-wider _ _ rs (AreHashed-first rs ts))

AreHashed-all : (rs : List EvidenceRecord) → AreHashed (chain_inputs rs) rs
AreHashed-all [] = tt
AreHashed-all (r ∷ rs) = (Memᴰ.head refl, AreHashed-wider _ _ rs (AreHashed-all rs))

AreHashed-second : (rs ts : List EvidenceRecord) → AreHashed (chain_inputs rs ++ chain_inputs ts) ts
AreHashed-second [] ts = AreHashed-all ts
AreHashed-second (r ∷ rs) ts = AreHashed-wider _ _ ts (AreHashed-second rs ts)

last-AreHashed :
    (hashed : List Bytes) (r : EvidenceRecord) (rs : List EvidenceRecord)
    → AreHashed hashed (r ∷ rs)
    → Memᴰ (hash_input (last_of r rs).prev_hash (canonical_of (last_of r rs).body)) hashed
last-AreHashed hashed r [] h = h.0
last-AreHashed hashed r (c ∷ rs) h = last-AreHashed hashed c rs h.1

module _ (sha : Sha256) where
  record-binding :
      (hashed : List Bytes) (r t : EvidenceRecord)
      → Memᴰ (hash_input r.prev_hash (canonical_of r.body)) hashed
      → Memᴰ (hash_input t.prev_hash (canonical_of t.body)) hashed
      → IsHashed sha r
      → IsHashed sha t
      → is_valid_prev_hash r.prev_hash ≡ true
      → is_valid_prev_hash t.prev_hash ≡ true
      → r.hash ≡ t.hash
      → Collision sha hashed
        ⊎ ((content r ≡ content t) × (r.prev_hash ≡ t.prev_hash) × (r.body.seq ≡ t.body.seq))
  record-binding hashed r t mr mt hr ht vr vt e =
      elim (hash_text-binding sha hashed _ _ (canonical_of r.body) (canonical_of t.body) mr mt vr vt
        (sym hr ∙ e ∙ ht)) [
          | inl broken ↦ inl broken
          | inr (prevs, bodies) ↦ inr (
            cc (prevs, bodies, e),
            prevs,
            sym (seq-canonical r.body)
                ∙ ap (λ (b : CanonicalBody). b.seq) bodies
                ∙ seq-canonical t.body,
          )
        ]

  -- Two chains of one length with one head are one chain.
  Linked-binding :
      (hashed : List Bytes) (p q : EvidenceRecord) (cs ds : List EvidenceRecord)
      → AreHashed hashed cs
      → AreHashed hashed ds
      → length cs ≡ length ds
      → is_valid_prev_hash p.hash ≡ true
      → is_valid_prev_hash q.hash ≡ true
      → Linked sha p cs
      → Linked sha q ds
      → (last_of p cs).hash ≡ (last_of q ds).hash
      → Collision sha hashed ⊎ ((p.hash ≡ q.hash) × (map content cs ≡ map content ds))
  Linked-binding hashed p q [] [] mc md n vp vq lp lq e = inr (e, refl)
  Linked-binding hashed p q [] (d ∷ ds) mc md n vp vq lp lq e = absurd (omega arith)
  Linked-binding hashed p q (c ∷ cs) [] mc md n vp vq lp lq e = absurd (omega arith)
  Linked-binding hashed p q (c ∷ cs) (d ∷ ds) (mc, mcs) (md, mds) n vp vq (fc, lc) (fd, ld) e =
      elim (Linked-binding hashed c d cs ds mcs mds (omega arith) (IsHashed-valid sha c fc.hashed)
        (IsHashed-valid sha d fd.hashed) lc ld e) [
          | inl broken ↦ inl broken
          | inr (hashes, rest) ↦
              elim (record-binding hashed c d mc md fc.hashed fd.hashed (rw fc.linked vp)
                (rw fd.linked vq) hashes) [
                  | inl broken ↦ inl broken
                  | inr (same, prevs, _) ↦ inr (sym fc.linked ∙ prevs ∙ fd.linked, cc (same, rest))
                ]
        ]

  last-seq :
      (p : EvidenceRecord) (cs : List EvidenceRecord)
      → Linked sha p cs
      → (last_of p cs).body.seq ≡ p.body.seq + length cs
  last-seq p [] l = omega arith
  last-seq p (c ∷ cs) (f, l) = omega (arith, last-seq c cs l, f.next_seq)

  last-IsHashed :
      (p : EvidenceRecord) (cs : List EvidenceRecord)
      → IsHashed sha p
      → is_valid_prev_hash p.prev_hash ≡ true
      → Linked sha p cs
      → IsHashed sha (last_of p cs) × (is_valid_prev_hash (last_of p cs).prev_hash ≡ true)
  last-IsHashed p [] h v l = (h, v)
  last-IsHashed p (c ∷ cs) h v (f, l) =
      last-IsHashed c cs f.hashed (rw f.linked (IsHashed-valid sha p h)) l

  genesis_valid : is_valid_prev_hash [] ≡ true
  unfolding is_valid_prev_hash
  genesis_valid = refl

  -- Two intact chains whose last records have one hash are equal in all that is covered.
  intact-binding :
      (hashed : List Bytes) (r t : EvidenceRecord) (rs ts : List EvidenceRecord)
      → AreHashed hashed (r ∷ rs)
      → AreHashed hashed (t ∷ ts)
      → IsIntact sha (r ∷ rs)
      → IsIntact sha (t ∷ ts)
      → (last_of r rs).hash ≡ (last_of t ts).hash
      → Collision sha hashed ⊎ (map content (r ∷ rs) ≡ map content (t ∷ ts))
  intact-binding hashed r t rs ts mr mt (fr, sr, hr, lr) (ft, st, ht, lt) e =
      let vr : is_valid_prev_hash r.prev_hash ≡ true = rw fr genesis_valid in
      let vt : is_valid_prev_hash t.prev_hash ≡ true = rw ft genesis_valid in
      let (hlr, vlr) = last-IsHashed r rs hr vr lr in
      let (hlt, vlt) = last-IsHashed t ts ht vt lt in
      elim (record-binding hashed (last_of r rs) (last_of t ts) (last-AreHashed hashed r rs mr)
        (last-AreHashed hashed t ts mt) hlr hlt vlr vlt e) [
          | inl broken ↦ inl broken
          | inr (_, _, seqs) ↦
              elim (Linked-binding hashed r t rs ts mr.1 mt.1
                (omega (arith, last-seq r rs lr, last-seq t ts lt)) (IsHashed-valid sha r hr)
                (IsHashed-valid sha t ht) lr lt e) [
                  | inl broken ↦ inl broken
                  | inr (hashes, rest) ↦
                      elim (record-binding hashed r t mr.0 mt.0 hr ht vr vt hashes) [
                        | inl broken ↦ inl broken
                        | inr (same, _, _) ↦ inr (cc (same, rest))
                      ]
                ]
        ]

  -- Two chains that the replay accepts and whose heads have one hash hold the same records, row ids
  -- aside, in the same order and number; otherwise two of the inputs that their replays hash are different
  -- and have one SHA-256 digest.
  pub verify_chain-binding :
      (r t : EvidenceRecord) (rs ts : List EvidenceRecord)
      → is_ok sha (verify_chain sha (r ∷ rs)) ≡ true
      → is_ok sha (verify_chain sha (t ∷ ts)) ≡ true
      → (last_of r rs).hash ≡ (last_of t ts).hash
      → Collision sha (chain_inputs (r ∷ rs) ++ chain_inputs (t ∷ ts))
        ⊎ (map content (r ∷ rs) ≡ map content (t ∷ ts))
  verify_chain-binding r t rs ts hr ht e =
      intact-binding _ r t rs ts (AreHashed-first (r ∷ rs) (t ∷ ts))
        (AreHashed-second (r ∷ rs) (t ∷ ts)) ((verify_chain-IsIntact_iff sha (r ∷ rs)).1.0 hr)
        ((verify_chain-IsIntact_iff sha (t ∷ ts)).1.0 ht) e

  -- A record that follows the last one extends the chain.
  pub Linked-append :
      (p c : EvidenceRecord) (cs : List EvidenceRecord)
      → Linked sha p cs
      → Follows sha (last_of p cs) c
      → Linked sha p (cs ++ c ∷ [])
  Linked-append p c [] l f = (f, tt)
  Linked-append p c (d ∷ cs) (g, l) f = (g, Linked-append d c cs l f)
