-- ===== src/Ledger/Chain.antt =====
-- internal/ledger/verify.go: the replay of a tenant's chain.
pub mod Intact
pub mod Binding
use vigia.Prelude.{
  ℕ, suc, ◌+◌, ◌≡◌, ◌↔◌, Bool, true, false, not, ◌&&◌, List, [], ◌∷◌, Option, none, some, arith,
  length, nat_eq, nat_eq_iff, Comparable, ◌==◌, ℕ_comparable, if◌then◌else◌,
}
use vigia.Ledger.Encoding.{Text}
use vigia.Ledger.Digest.{Sha256}
use vigia.Ledger.Record.{Body, EvidenceRecord, hash_of}

unfoldable pub text_equal : Text → Text → Bool
text_equal [] [] = true
text_equal [] (d ∷ t) = false
text_equal (c ∷ s) [] = false
text_equal (c ∷ s) (d ∷ t) = nat_eq c d && text_equal s t

pub text_equal_iff : (s t : Text) → (text_equal s t ≡ true) ↔ (s ≡ t)
unfolding text_equal
text_equal_iff [] [] = ground arith
text_equal_iff [] (d ∷ t) = ground arith
text_equal_iff (c ∷ s) [] = ground arith
text_equal_iff (c ∷ s) (d ∷ t) = ground (arith, text_equal_iff s t)

instance abbrev pub Text_comparable : Comparable Text
Text_comparable = record { equal = text_equal; equal_iff = text_equal_iff }

-- `BreakReason`; `none_given` is the empty string.
pub data BreakReason : Type 0 where
  none_given genesis_prev_hash seq_gap prev_hash_linkage hash_mismatch : BreakReason
  inputs_digest_mismatch evaluation_id_mismatch evaluation_outcome_mismatch : BreakReason
  evaluation_bundle_mismatch interaction_id_mismatch interaction_tenant_mismatch : BreakReason
  invalid_prev_hash : BreakReason

pub record VerifyResult : Type 0 where
  pub intact : Bool
  pub count : ℕ
  pub break_at_seq : ℕ
  pub expected_seq : ℕ
  pub break_reason : BreakReason

abbrev pub verified : ℕ → VerifyResult
verified n = record {
  intact = true;
  count = n;
  break_at_seq = 0;
  expected_seq = 0;
  break_reason = BreakReason.none_given;
}

abbrev pub broken : ℕ → ℕ → ℕ → BreakReason → VerifyResult
broken n at expected reason = record {
  intact = false;
  count = n;
  break_at_seq = at;
  expected_seq = expected;
  break_reason = reason;
}

-- The result for a recomputed hash; `none` is the panic of `Hash`.
unfoldable pub compare_hash :
    Option Text → Text → VerifyResult → Option VerifyResult → Option VerifyResult
compare_hash none hash mismatch rest = none
compare_hash (some h) hash mismatch rest = if not (h == hash) then some mismatch else rest

module _ (sha : Sha256) where
  -- The loop, behind record `prev`.
  unfoldable pub verify_from : ℕ → EvidenceRecord → List EvidenceRecord → Option VerifyResult
  verify_from n prev [] = some (verified n)
  verify_from n prev (curr ∷ rest) =
      let expected = prev.body.seq + 1 in
      let later = verify_from n curr rest in
      if not (curr.body.seq == expected)
      then some (broken n curr.body.seq expected BreakReason.seq_gap)
      else if not (curr.prev_hash == prev.hash)
      then some (broken n curr.body.seq expected BreakReason.prev_hash_linkage)
      else compare_hash (hash_of sha curr.prev_hash curr.body) curr.hash
          (broken n curr.body.seq expected BreakReason.hash_mismatch) later

  -- `VerifyChain`; `none` is a panic.
  unfoldable pub verify_chain : List EvidenceRecord → Option VerifyResult
  verify_chain [] = some (verified 0)
  verify_chain (r ∷ rest) =
      let n = length (r ∷ rest) in
      if not (r.prev_hash == [])
      then some (broken n r.body.seq 1 BreakReason.genesis_prev_hash)
      else if not (r.body.seq == 1)
      then some (broken n r.body.seq 1 BreakReason.seq_gap)
      else compare_hash (hash_of sha r.prev_hash r.body) r.hash
          (broken n r.body.seq 1 BreakReason.hash_mismatch) (verify_from n r rest)
