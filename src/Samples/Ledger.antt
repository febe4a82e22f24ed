-- ===== src/Samples/Ledger.antt =====
-- A chain of two records, under a checksum.
use vigia.Prelude.{
  ◌+◌, ◌%◌, ◌++◌, length, ℕ, suc, zero, ◌<◌, ◌≡◌, ◌↔◌, ◌⊎◌, refl, true, false, inr, some, List, [],
  ◌∷◌, map, none, All, arith, is_some,
}
use vigia.Ledger.Encoding.{Text, codes}
use vigia.Ledger.Digest.{Sha256, Collision}
use vigia.Ledger.Record.{Body, EvidenceRecord, canonical_of, hash_text}
use vigia.Ledger.Chain.{text_equal, text_equal_iff, verify_chain}
use vigia.Ledger.Chain.Intact.{IsIntact, is_ok, verify_chain-IsIntact_iff}
use vigia.Ledger.Chain.Binding.{chain_inputs, content, verify_chain-binding}
use vigia.Ledger.Merkle.{largest_power_of_two_less_than, merkle_leaf_hash, merkle_root}
use vigia.Ledger.Merkle.Bounds.{IsSplit, largest_power_of_two-IsSplit}
use vigia.Ledger.Merkle.Tree.{Tree, leaves, root, IsRfc6962, merkle_root-Rfc6962}
use vigia.Ledger.Checkpoint.{
  MerkleCheckpoint, CheckpointError, build_merkle_checkpoint, hex_decode, verify_timestamp_digest,
  canonical_bytes,
}
use vigia.Ledger.Checkpoint.Built.{Explains, build_merkle_checkpoint-Explains}
use vigia.Ledger.Checkpoint.Binding.{HasRoot, timestamp_inputs, timestamp-binding}
use vigia.Ledger.Checkpointer.{Client, LedgerTables, MerkleCheckpointer, create_merkle_checkpoint}
use vigia.Ledger.Checkpointer.Builds.{linked-builds}
use vigia.Ledger.Checkpointer.Ranges.{IsIntact-Counts}
use vigia.Ledger.Checkpointer.Kept.Growth.{
  IsAuthority, CoversAll, create_merkle_checkpoint-CoversAll,
}
use vigia.Samples.{morning}

abbrev pub zeros : ℕ → List ℕ
zeros zero = []
zeros (suc n) = 0 ∷ zeros n

pub zeros-bytes : (n : ℕ) → All (λ x. x < 256) (zeros n)
zeros-bytes zero = tt
zeros-bytes (suc n) = (omega arith, zeros-bytes n)

abbrev pub sum : List ℕ → ℕ
sum [] = 0
sum (x ∷ xs) = x + sum xs

-- The length and the sum of the bytes, padded to 32 bytes.
abbrev pub checksum_sha : Sha256
checksum_sha = record {
  digest = λ b. (length b % 256) ∷ (sum b % 256) ∷ zeros 30;
  digest_length = λ b. refl;
  digest_bytes = λ b. (omega arith, (omega arith, zeros-bytes 30));
}

abbrev pub body_of : ℕ → Body
body_of n = record {
  tenant_id = codes "t1";
  interaction_event_id = codes "i1";
  evaluation_id = codes "e1";
  seq = n;
  overall_outcome = codes "pass";
  policy_bundle_version = [];
  inputs_digest = [];
  created_at = morning;
  judge = none;
  complaint_transition = none;
}

abbrev first_hash : Text
first_hash = hash_text checksum_sha [] (canonical_of (body_of 1))

abbrev pub first_record : EvidenceRecord
first_record = record { id = codes "r1"; body = body_of 1; prev_hash = []; hash = first_hash }

abbrev second_record : EvidenceRecord
second_record = record {
  id = codes "r2";
  body = body_of 2;
  prev_hash = first_hash;
  hash = hash_text checksum_sha first_hash (canonical_of (body_of 2));
}

abbrev chain : List EvidenceRecord
chain = first_record ∷ second_record ∷ []

chain-IsIntact : IsIntact checksum_sha chain
chain-IsIntact = (refl, refl, refl, (record { next_seq = refl; linked = refl; hashed = refl }, tt))

verify_chain-IsIntact_iff_example :
    (is_some (verify_chain checksum_sha chain) ≡ true)
    × ((is_ok checksum_sha (verify_chain checksum_sha chain) ≡ true) ↔ IsIntact checksum_sha chain)
verify_chain-IsIntact_iff_example = verify_chain-IsIntact_iff checksum_sha chain

chain_ok : is_ok checksum_sha (verify_chain checksum_sha chain) ≡ true
chain_ok = (verify_chain-IsIntact_iff checksum_sha chain).1.1 chain-IsIntact

-- The same chain with other row ids.
abbrev copied : EvidenceRecord → EvidenceRecord
copied r = record r { id = codes "copy" }

copy_ok : is_ok checksum_sha (verify_chain checksum_sha (map copied chain)) ≡ true
copy_ok =
    (verify_chain-IsIntact_iff checksum_sha (map copied chain)).1.1
      (refl, refl, refl, (record { next_seq = refl; linked = refl; hashed = refl }, tt))

verify_chain-binding_example :
    Collision checksum_sha (chain_inputs chain ++ chain_inputs (map copied chain))
    ⊎ (map content chain ≡ map content (map copied chain))
verify_chain-binding_example =
    verify_chain-binding checksum_sha first_record (copied first_record) (second_record ∷ [])
      (copied second_record ∷ []) chain_ok copy_ok refl

largest_power_of_two-IsSplit_example :
    (k : ℕ) × (largest_power_of_two_less_than 5 ≡ some k) × IsSplit 5 k
largest_power_of_two-IsSplit_example = largest_power_of_two-IsSplit 5 (omega arith)

abbrev hashes : List (List ℕ)
hashes = zeros 32 ∷ zeros 32 ∷ (1 ∷ []) ∷ []

merkle_root-Rfc6962_example :
    (t : Tree) × (leaves t ≡ hashes)
    × IsRfc6962 t
    × (merkle_root checksum_sha (map (merkle_leaf_hash checksum_sha) hashes)
        ≡ some (root checksum_sha t))
merkle_root-Rfc6962_example = merkle_root-Rfc6962 checksum_sha hashes (omega arith)

build_merkle_checkpoint-Explains_example :
    (o : CheckpointError ⊎ MerkleCheckpoint) × (build_merkle_checkpoint checksum_sha chain morning
      ≡ some o)
    × Explains checksum_sha chain morning o
build_merkle_checkpoint-Explains_example =
    build_merkle_checkpoint-Explains checksum_sha chain morning

chain_builds :
    (c : MerkleCheckpoint) × (build_merkle_checkpoint checksum_sha chain morning ≡ some (inr c))
chain_builds =
    let (counts, linked) = IsIntact-Counts checksum_sha chain chain-IsIntact in
    let (c, builds, built) =
      linked-builds checksum_sha 1 [] first_record (second_record ∷ []) morning counts linked in
    (c, builds)

abbrev message : List ℕ
message = checksum_sha.digest (canonical_bytes chain_builds.0)

stamped : verify_timestamp_digest checksum_sha chain_builds.0 message ≡ true
unfolding verify_timestamp_digest
stamped = (text_equal_iff _ _).1 refl

timestamp-binding_example :
    (k : HasRoot checksum_sha chain chain_builds.0) × (l : HasRoot checksum_sha chain
      chain_builds.0)
    × (Collision checksum_sha
          (timestamp_inputs checksum_sha chain_builds.0 chain_builds.0 k.tree l.tree)
        ⊎ (map (λ r. hex_decode r.hash) chain ≡ map (λ r. hex_decode r.hash) chain))
timestamp-binding_example =
    timestamp-binding checksum_sha chain chain morning morning chain_builds.0 chain_builds.0 message
      chain_builds.1 chain_builds.1 stamped stamped

-- A client whose raw token is the digest that it stamps.
abbrev authority : Client
authority = record {
  timestamp = λ payload. some (record {
    raw_token = checksum_sha.digest payload;
    hashed_message = checksum_sha.digest payload;
  });
  verifier = some text_equal;
}

authority-IsAuthority : IsAuthority checksum_sha text_equal authority
authority-IsAuthority = record {
  verifies = refl;
  answers = λ payload. (_, refl, refl, (text_equal_iff _ _).1 refl);
}

abbrev checkpointer : MerkleCheckpointer
checkpointer = record {
  client = some authority;
  tsa_url = codes "tsa";
  now = morning;
  tenant = true;
  new_id = codes "k1";
}

abbrev unchecked : LedgerTables
unchecked = record { records = chain; checkpoints = [] }

url_given : text_equal checkpointer.tsa_url [] ≡ false
unfolding text_equal
url_given = refl

create_merkle_checkpoint-CoversAll_example :
    CoversAll checksum_sha text_equal unchecked
      (create_merkle_checkpoint checksum_sha checkpointer unchecked)
create_merkle_checkpoint-CoversAll_example =
    create_merkle_checkpoint-CoversAll checksum_sha text_equal checkpointer unchecked authority refl
      authority-IsAuthority refl url_given (record { intact = chain-IsIntact; covered = tt })
