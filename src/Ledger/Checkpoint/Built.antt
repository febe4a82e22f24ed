-- ===== src/Ledger/Checkpoint/Built.antt =====
-- What `BuildMerkleCheckpoint` gives, on every list of records (checkpoint.go).
use vigia.Prelude.{
  ◌*◌, ◌/◌, ◌++◌, ◌+◌, ◌≡◌, ◌≢◌, refl, sym, ap, ◌∙◌, ◌<◌, ◌⊎◌, inl, inr, List, [], ◌∷◌, Option,
  none, some, map, arith, length, some_injective, false, Bool-cases, nat_eq, nat_eq_iff, ◌==◌,
  ℕ_comparable,
}
use vigia.Time.{Time, utc_time}
use vigia.Ledger.Encoding.{Text}
use vigia.Ledger.Digest.{Bytes, Sha256, hex}
use vigia.Ledger.Record.{EvidenceRecord}
use vigia.Ledger.Merkle.{merkle_leaf_hash}
use vigia.Ledger.Merkle.Tree.{Tree, leaves, root, IsRfc6962, merkle_root-Rfc6962}
use vigia.Ledger.Checkpoint.{
  MerkleCheckpoint, CheckpointError, hex_decode, contiguous_from, with_leaf, leaves_of,
  checkpoint_of, last_record, with_leaves, build_merkle_checkpoint,
}

-- Each record follows the one before it.
abbrev pub IsContiguous : EvidenceRecord → List EvidenceRecord → Type 0
IsContiguous prev [] = Unit
IsContiguous prev (r ∷ rs) = (r.body.seq ≡ prev.body.seq + 1) × IsContiguous r rs

-- The first record that does not is the one that the error names.
abbrev pub BreaksAt : EvidenceRecord → List EvidenceRecord → CheckpointError → Type 0
BreaksAt prev [] e = ⊥
BreaksAt prev (r ∷ rs) e =
    ((r.body.seq ≢ prev.body.seq + 1)
      × (e ≡ CheckpointError.non_contiguous r.body.seq prev.body.seq))
    ⊎ ((r.body.seq ≡ prev.body.seq + 1) × BreaksAt r rs e)

-- The text is that of 32 bytes.
abbrev pub Decodes : Text → Bytes → Type 0
Decodes t b = (hex_decode t ≡ some b) × (length b ≡ 32)

abbrev pub AllDecode : List EvidenceRecord → List Bytes → Type 0
AllDecode [] [] = Unit
AllDecode [] (b ∷ bs) = ⊥
AllDecode (r ∷ rs) [] = ⊥
AllDecode (r ∷ rs) (b ∷ bs) = Decodes r.hash b × AllDecode rs bs

-- The first hash that is not a digest is that of the record that the error names.
abbrev pub MalformedAt : List EvidenceRecord → CheckpointError → Type 0
MalformedAt [] e = ⊥
MalformedAt (r ∷ rs) e =
    (((b : Bytes) → ¬ (Decodes r.hash b)) × (e ≡ CheckpointError.not_a_digest r.body.seq))
    ⊎ (((b : Bytes) × Decodes r.hash b) × MalformedAt rs e)

-- What a checkpoint says of a range: where it starts and ends, how many records it has, the hash of its
-- last record, the root over it, and when it was built, to the microsecond.
pub record Summarizes (rs : List EvidenceRecord) (at : Time) (root_bytes : Bytes)
    (c : MerkleCheckpoint) : Type 0 where
  pub first : EvidenceRecord
  pub behind : List EvidenceRecord
  pub starts : rs ≡ first ∷ behind
  pub before : List EvidenceRecord
  pub last : EvidenceRecord
  pub ends : rs ≡ before ++ last ∷ []
  pub tenant_id : c.tenant_id ≡ first.body.tenant_id
  pub first_seq : c.first_seq ≡ first.body.seq
  pub last_seq : c.last_seq ≡ last.body.seq
  pub record_count : c.record_count ≡ length rs
  pub root_hash : c.root_hash ≡ hex root_bytes
  pub chain_head_hash : c.chain_head_hash ≡ last.hash
  pub created_at : c.created_at ≡ utc_time (at.ns / 1000 * 1000)

-- The checkpoint of a contiguous range, with the root of the RFC 6962 tree over its hashes.
pub record IsBuilt (sha : Sha256) (first : EvidenceRecord) (rest : List EvidenceRecord) (at : Time)
    (c : MerkleCheckpoint) : Type 0 where
  pub contiguous : IsContiguous first rest
  pub hashes : List Bytes
  pub decoded : AllDecode (first ∷ rest) hashes
  pub tree : Tree
  pub over : leaves tree ≡ hashes
  pub shape : IsRfc6962 tree
  pub summary : Summarizes (first ∷ rest) at (root sha tree) c
  pub built : c ≡ checkpoint_of first rest at (root sha tree)

-- What an outcome of the build says of the records.
abbrev pub Explains :
    Sha256 → List EvidenceRecord → Time → CheckpointError ⊎ MerkleCheckpoint → Type 0
Explains sha [] at o = o ≡ inl CheckpointError.no_records
Explains sha (first ∷ rest) at (inl e) =
    BreaksAt first rest e ⊎ (IsContiguous first rest × MalformedAt (first ∷ rest) e)
Explains sha (first ∷ rest) at (inr c) = IsBuilt sha first rest at c

-- A list ends in its last record.
last_record-ends :
    (r : EvidenceRecord) (rs : List EvidenceRecord)
    → (before : List EvidenceRecord) × (r ∷ rs ≡ before ++ last_record r rs ∷ [])
last_record-ends r [] = ([], refl)
last_record-ends r (s ∷ rs) =
    let (before, ends) = last_record-ends s rs in (r ∷ before, ap (λ xs. r ∷ xs) ends)

checkpoint_of-Summarizes :
    (first : EvidenceRecord) (rest : List EvidenceRecord) (at : Time) (root_bytes : Bytes)
    → Summarizes (first ∷ rest) at root_bytes (checkpoint_of first rest at root_bytes)
checkpoint_of-Summarizes first rest at root_bytes =
    let (before, ends) = last_record-ends first rest in
    record {
      first = first;
      behind = rest;
      starts = refl;
      before = before;
      last = last_record first rest;
      ends = ends;
      tenant_id = refl;
      first_seq = refl;
      last_seq = refl;
      record_count = refl;
      root_hash = refl;
      chain_head_hash = refl;
      created_at = refl;
    }

contiguous_from-cases :
    (prev : EvidenceRecord) (rs : List EvidenceRecord)
    → ((contiguous_from prev rs ≡ none) × IsContiguous prev rs)
      ⊎ ((e : CheckpointError) × (contiguous_from prev rs ≡ some e) × BreaksAt prev rs e)
unfolding contiguous_from
contiguous_from-cases prev [] = inl (refl, tt)
contiguous_from-cases prev (r ∷ rs) = elim (Bool-cases (r.body.seq == prev.body.seq + 1)) [
  | inr e ↦ rw e (inr (_, refl, inl (ground arith, refl)))
  | inl e ↦
      let follows : r.body.seq ≡ prev.body.seq + 1 = (nat_eq_iff _ _).0 e in
      elim (contiguous_from-cases r rs) [
        | inl (none_found, rest) ↦ rw e (inl (none_found, (follows, rest)))
        | inr (g, found, breaks) ↦ rw e (inr (g, found, inr (follows, breaks)))
      ]
]

module _ (sha : Sha256) where
  -- What the collected leaves, or the error in their place, say of the records.
  record Collects (rs : List EvidenceRecord) (o : CheckpointError ⊎ List Bytes) : Type 0 where
    outcome :
        ((hs : List Bytes) × (o ≡ inr (map (merkle_leaf_hash sha) hs)) × AllDecode rs hs)
        ⊎ ((e : CheckpointError) × (o ≡ inl e) × MalformedAt rs e)

  some_differs : (b : Bytes) → none ≢ some b
  some_differs b h = absurd (cc)

  not_32 : (b : Bytes) → length b ≡ 32 → nat_eq (length b) 32 ≢ false
  not_32 b h e = absurd (ground arith)

  with_leaf-Collects :
      (r : EvidenceRecord) (rs : List EvidenceRecord) (o : Option Bytes)
      (later : CheckpointError ⊎ List Bytes)
      → hex_decode r.hash ≡ o
      → Collects rs later
      → Collects (r ∷ rs) (with_leaf sha r o later)
  unfolding with_leaf
  with_leaf-Collects r rs none later h k = record {
    outcome = inr (_, refl, inl (λ b d. some_differs b (sym h ∙ d.0), refl));
  }
  with_leaf-Collects r rs (some b) later h k = elim (Bool-cases (nat_eq (length b) 32)) [
    | inr e ↦ rw e (record {
      outcome = inr (
        _,
        refl,
        inl (λ c d. not_32 b (ap (λ x. length x) (some_injective b c (sym h ∙ d.0)) ∙ d.1) e, refl),
      );
    })
    | inl e ↦
        let digest : Decodes r.hash b = (h, (nat_eq_iff _ _).0 e) in
        rw e (elim k.outcome [
          | inl (hs, found, all) ↦ rw found (record { outcome = inl (b ∷ hs, refl, (digest, all)) })
          | inr (g, found, bad) ↦
              rw found (record { outcome = inr (g, refl, inr ((b, digest), bad)) })
        ])
  ]

  leaves_of-Collects : (rs : List EvidenceRecord) → Collects rs (leaves_of sha rs)
  unfolding leaves_of
  leaves_of-Collects [] = record { outcome = inl ([], refl, tt) }
  leaves_of-Collects (r ∷ rs) =
      with_leaf-Collects r rs (hex_decode r.hash) (leaves_of sha rs) refl (leaves_of-Collects rs)

  AllDecode-positive :
      (r : EvidenceRecord) (rs : List EvidenceRecord) (hs : List Bytes)
      → AllDecode (r ∷ rs) hs
      → 0 < length hs
  AllDecode-positive r rs [] d = absurd d
  AllDecode-positive r rs (h ∷ hs) d = omega arith

  with_leaves-Explains :
      (first : EvidenceRecord) (rest : List EvidenceRecord) (at : Time)
      (collected : CheckpointError ⊎ List Bytes)
      → IsContiguous first rest
      → Collects (first ∷ rest) collected
      → (o : CheckpointError ⊎ MerkleCheckpoint) × (with_leaves sha first rest at collected
          ≡ some o)
        × Explains sha (first ∷ rest) at o
  with_leaves-Explains first rest at collected contiguous k = elim k.outcome [
    | inr (e, found, bad) ↦ rw found (inl e, refl, inr (contiguous, bad))
    | inl (hs, found, all) ↦
        let (t, over, shape, computed) =
          merkle_root-Rfc6962 sha hs (AllDecode-positive first rest hs all) in
        rw (found, computed)
          (
            inr (checkpoint_of first rest at (root sha t)),
            refl,
            record {
              contiguous = contiguous;
              hashes = hs;
              decoded = all;
              tree = t;
              over = over;
              shape = shape;
              summary = checkpoint_of-Summarizes first rest at (root sha t);
              built = refl;
            },
          )
  ]

-- The build never panics. It has an error exactly where the records give cause for it, and the error
-- names the first cause: no record, else the first break in the sequence, else the first hash that
-- is not the text of 32 bytes. Otherwise the range is contiguous and it gives its checkpoint: the tenant
-- of its first record, the sequence numbers of its first and last, the number of its records, the hash
-- of its last, the time to the microsecond, and the RFC 6962 tree hash over the record hashes.
pub build_merkle_checkpoint-Explains :
    (sha : Sha256) (rs : List EvidenceRecord) (at : Time)
    → (o : CheckpointError ⊎ MerkleCheckpoint) × (build_merkle_checkpoint sha rs at ≡ some o)
      × Explains sha rs at o
unfolding build_merkle_checkpoint
build_merkle_checkpoint-Explains sha [] at = (_, refl, refl)
build_merkle_checkpoint-Explains sha (first ∷ rest) at = elim (contiguous_from-cases first rest) [
  | inr (e, found, breaks) ↦ rw found (inl e, refl, inl breaks)
  | inl (found, contiguous) ↦
      rw found (
        with_leaves-Explains sha first rest at _ contiguous (leaves_of-Collects sha (first ∷ rest)))
]
