-- ===== src/Ledger/Checkpoint/Binding.antt =====
-- What a timestamp of a checkpoint commits to (checkpoint.go).
use mathlib.Core.Path.{subst}
use vigia.Prelude.{
  ℕ, ◌≡◌, refl, sym, ap, ◌∙◌, ◌⊎◌, inl, inr, true, List, [], ◌∷◌, ◌++◌, some, map, some_injective,
}
use vigia.Time.{Time}
use vigia.Ledger.Encoding.{Text, Writer, PrefixFree, field, pair}
use vigia.Ledger.Json.{string, number_comma}
use vigia.Ledger.Canonical.{writers}
use vigia.Ledger.Digest.{Bytes, Sha256, Collision, hex, hex-injective, utf8-injective}
use vigia.Ledger.Record.{EvidenceRecord}
use vigia.Ledger.Chain.{Text_comparable, text_equal_iff}
use vigia.Ledger.Merkle.Tree.{Tree, root, leaves, IsRfc6962}
use vigia.Ledger.Merkle.Binding.{tree_inputs, IsHashedIn, root-binding}
use vigia.Ledger.Hashing.{digest-binding}
use vigia.Prelude.Membership.{append-Mem}
use mathlib.Core.List.{Memᴰ}
use vigia.Ledger.Checkpoint.{
  MerkleCheckpoint, CanonicalCheckpoint, canonical_checkpoint, write_checkpoint, canonical_bytes,
  verify_timestamp_digest, build_merkle_checkpoint, CheckpointError, hex_decode,
}
use vigia.Ledger.Checkpoint.Built.{Explains, AllDecode, build_merkle_checkpoint-Explains}

abbrev CheckpointFields : Type 0
CheckpointFields = Text × (ℕ × (ℕ × (ℕ × (Text × (Text × Text)))))

abbrev write_fields : Writer CheckpointFields
write_fields = pair (field "{\"tenant_id\":" string) (
    pair (field ",\"first_seq\":" number_comma) (
      pair (field "\"last_seq\":" number_comma) (
        pair (field "\"record_count\":" number_comma) (
          pair (field "\"root_hash\":" string)
            (pair (field ",\"chain_head_hash\":" string) (field ",\"created_at\":" string))))))

write_fields-PrefixFree : PrefixFree write_fields
write_fields-PrefixFree = search writers depth 12

abbrev checkpoint_of_fields : CheckpointFields → CanonicalCheckpoint
checkpoint_of_fields (t, (f, (l, (n, (r, (h, c)))))) = record {
  tenant_id = t;
  first_seq = f;
  last_seq = l;
  record_count = n;
  root_hash = r;
  chain_head_hash = h;
  created_at = c;
}

abbrev fields_of : CanonicalCheckpoint → CheckpointFields
fields_of c = (
  c.tenant_id,
  (c.first_seq, (c.last_seq, (c.record_count, (c.root_hash, (c.chain_head_hash, c.created_at))))),
)

write_checkpoint-PrefixFree : PrefixFree write_checkpoint
unfolding write_checkpoint
write_checkpoint-PrefixFree = record {
  reads = λ a b r s e.
      let read = write_fields-PrefixFree.reads (fields_of a) (fields_of b) (125 ∷ r) (125 ∷ s) e in
      (ap checkpoint_of_fields read.0, cc read.1);
}

canonical_bytes-injective :
    (a b : MerkleCheckpoint)
    → canonical_bytes a ≡ canonical_bytes b
    → canonical_checkpoint a ≡ canonical_checkpoint b
canonical_bytes-injective a b e =
    (write_checkpoint-PrefixFree.reads _ _ [] [] (utf8-injective _ _ e)).0

-- The tree of RFC 6962 that a checkpoint was built on.
pub record HasRoot (sha : Sha256) (rs : List EvidenceRecord) (c : MerkleCheckpoint) : Type 0 where
  pub tree : Tree
  pub decoded : AllDecode rs (leaves tree)
  pub shape : IsRfc6962 tree
  pub rooted : c.root_hash ≡ hex (root sha tree)

Explains-HasRoot :
    (sha : Sha256) (rs : List EvidenceRecord) (at : Time) (o : CheckpointError ⊎ MerkleCheckpoint)
    (c : MerkleCheckpoint)
    → Explains sha rs at o
    → o ≡ inr c
    → HasRoot sha rs c
Explains-HasRoot sha [] at o c h e = absurd (cc)
Explains-HasRoot sha (first ∷ rest) at (inl g) c h e = absurd (cc)
Explains-HasRoot sha (first ∷ rest) at (inr d) c h e =
    let same : d ≡ c = cc in
    record {
      tree = h.tree;
      decoded = rw h.over h.decoded;
      shape = h.shape;
      rooted = ap (λ x. x.root_hash) (sym same ∙ h.built);
    }

built-HasRoot :
    (sha : Sha256) (rs : List EvidenceRecord) (at : Time) (c : MerkleCheckpoint)
    → build_merkle_checkpoint sha rs at ≡ some (inr c)
    → HasRoot sha rs c
built-HasRoot sha rs at c h =
    let (o, found, explained) = build_merkle_checkpoint-Explains sha rs at in
    Explains-HasRoot sha rs at o c explained (some_injective _ _ (sym found ∙ h))

AllDecode-same :
    (rs ts : List EvidenceRecord) (hs : List Bytes)
    → AllDecode rs hs
    → AllDecode ts hs
    → map (λ r. hex_decode r.hash) rs ≡ map (λ r. hex_decode r.hash) ts
AllDecode-same [] [] hs d e = refl
AllDecode-same [] (t ∷ ts) [] d e = absurd e
AllDecode-same [] (t ∷ ts) (h ∷ hs) d e = absurd d
AllDecode-same (r ∷ rs) [] [] d e = absurd d
AllDecode-same (r ∷ rs) [] (h ∷ hs) d e = absurd e
AllDecode-same (r ∷ rs) (t ∷ ts) [] d e = absurd d
AllDecode-same (r ∷ rs) (t ∷ ts) (h ∷ hs) d e =
    let rest = AllDecode-same rs ts hs d.1 e.1 in cc (d.0.0, e.0.0, rest)

module _ (sha : Sha256) where
  canonical-binding :
      (hashed : List Bytes) (a b : MerkleCheckpoint)
      → canonical_checkpoint a ≡ canonical_checkpoint b
      → (rs ts : List EvidenceRecord) (k : HasRoot sha rs a) (l : HasRoot sha ts b)
      → IsHashedIn sha hashed (tree_inputs sha k.tree)
      → IsHashedIn sha hashed (tree_inputs sha l.tree)
      → Collision sha hashed ⊎ (map (λ r. hex_decode r.hash) rs ≡ map (λ r. hex_decode r.hash) ts)
  unfolding canonical_checkpoint
  canonical-binding hashed a b e rs ts k l m n =
      let roots = sym k.rooted ∙ ap (λ (x : CanonicalCheckpoint). x.root_hash) e ∙ l.rooted in
      elim (root-binding sha hashed k.tree l.tree m n (hex-injective _ _ roots)) [
        | inl broken ↦ inl broken
        | inr same ↦ inr (
            AllDecode-same rs ts (leaves l.tree)
              (subst (λ t. AllDecode rs (leaves t)) same k.decoded) l.decoded)
      ]

  -- What two verifications of a timestamp, and the builds of their checkpoints, hand to SHA-256.
  abbrev pub timestamp_inputs : MerkleCheckpoint → MerkleCheckpoint → Tree → Tree → List Bytes
  timestamp_inputs a b t u =
      canonical_bytes a ∷ canonical_bytes b ∷ tree_inputs sha t ++ tree_inputs sha u

  -- Two checkpoints that the digest of one timestamp verifies were built on records with the same hashes,
  -- in the same order; otherwise two of the inputs hashed, the two canonical checkpoints and the leaves
  -- and nodes of their RFC 6962 trees, are different and have one SHA-256 digest.
  pub timestamp-binding :
      (rs ts : List EvidenceRecord) (at later : Time) (a b : MerkleCheckpoint)
      (hashed_message : Bytes)
      → build_merkle_checkpoint sha rs at ≡ some (inr a)
      → build_merkle_checkpoint sha ts later ≡ some (inr b)
      → verify_timestamp_digest sha a hashed_message ≡ true
      → verify_timestamp_digest sha b hashed_message ≡ true
      → (k : HasRoot sha rs a) × (l : HasRoot sha ts b) × (Collision sha
            (timestamp_inputs a b k.tree l.tree)
          ⊎ (map (λ r. hex_decode r.hash) rs ≡ map (λ r. hex_decode r.hash) ts))
  unfolding verify_timestamp_digest
  timestamp-binding rs ts at later a b m h k v w =
      let digests = sym ((text_equal_iff _ _).0 v) ∙ (text_equal_iff _ _).0 w in
      let first = built-HasRoot sha rs at a h in
      let second = built-HasRoot sha ts later b k in
      let inputs = timestamp_inputs a b first.tree second.tree in
      (
        first,
        second,
        elim (digest-binding sha inputs _ _ (Memᴰ.head refl) (Memᴰ.tail (Memᴰ.head refl)) digests) [
          | inl broken ↦ inl broken
          | inr bytes ↦
              canonical-binding inputs a b (canonical_bytes-injective a b bytes) rs ts first second
                (λ x n. Memᴰ.tail (Memᴰ.tail (append-Mem x _ _ (inl n))))
                (λ x n. Memᴰ.tail (Memᴰ.tail (append-Mem x _ _ (inr n))))
        ],
      )
