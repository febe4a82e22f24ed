-- ===== src/Ledger/Inputs/Binding.antt =====
-- The digest of the detector results determines them (ledger.go, `ComputeInputsDigest`).
use mathlib.Core.List.{Memᴰ}
use vigia.Prelude.{◌≡◌, ◌≢◌, refl, ap, ◌⊎◌, inl, inr, List, [], ◌∷◌, arith}
use vigia.Ledger.Encoding.{Text, Writer, PrefixFree, field, pair}
use vigia.Ledger.Json.{string}
use vigia.Ledger.Digest.{Bytes, Sha256, Collision, utf8, utf8-injective, hex-injective}
use vigia.Ledger.Canonical.{writers}
use vigia.Ledger.Hashing.{digest-binding}
use vigia.Ledger.Inputs.{
  DetectorResult, sorted, write_result, write_more, write_results, compute_inputs_digest,
}

abbrev ResultFields : Type 0
ResultFields = Text × (Text × (Text × Text))

abbrev write_result_fields : Writer ResultFields
write_result_fields = pair (field "{\"code\":" string) (
    pair (field ",\"outcome\":" string)
      (pair (field ",\"severity\":" string) (field ",\"rationale\":" string)))

write_result_fields-PrefixFree : PrefixFree write_result_fields
write_result_fields-PrefixFree = search writers depth 8

abbrev result_of : ResultFields → DetectorResult
result_of (c, (o, (s, r))) = record { code = c; outcome = o; severity = s; rationale = r }

write_result-PrefixFree : PrefixFree write_result
unfolding write_result
write_result-PrefixFree = record {
  reads = λ a b r s e.
      let read =
        write_result_fields-PrefixFree.reads (a.code, (a.outcome, (a.severity, a.rationale)))
          (b.code, (b.outcome, (b.severity, b.rationale))) (125 ∷ r) (125 ∷ s) e in
      (ap result_of read.0, cc read.1);
}

-- A result begins with a brace, not with the bracket that closes the list.
result_opens : (r : DetectorResult) (rest s : Text) → write_result r rest ≢ 93 ∷ s
unfolding write_result
result_opens r rest s e = ground (arith, e)

more-reads :
    (a b : List DetectorResult) (r s : Text) → write_more a r ≡ write_more b s → (a ≡ b) × (r ≡ s)
more-reads [] [] r s e = (refl, cc)
more-reads [] (d ∷ b) r s e = absurd (ground (arith, e))
more-reads (c ∷ a) [] r s e = absurd (ground (arith, e))
more-reads (c ∷ a) (d ∷ b) r s e =
    let first = write_result-PrefixFree.reads c d (write_more a r) (write_more b s) (cc) in
    let rest = more-reads a b r s first.1 in (cc (first.0, rest.0), rest.1)

results-reads : (a b : List DetectorResult) → write_results a [] ≡ write_results b [] → a ≡ b
unfolding write_results
results-reads [] [] e = refl
results-reads [] (d ∷ b) e = absurd (result_opens d (write_more b []) [] (cc))
results-reads (c ∷ a) [] e = absurd (result_opens c (write_more a []) [] (cc))
results-reads (c ∷ a) (d ∷ b) e =
    let first = write_result-PrefixFree.reads c d (write_more a []) (write_more b []) (cc) in
    cc (first.0, (more-reads a b [] [] first.1).0)

-- What `ComputeInputsDigest` hands to SHA-256.
abbrev pub results_input : List DetectorResult → Bytes
results_input results = utf8 (write_results (sorted results) [])

-- Two lists of results with one digest are the same once sorted, or their inputs collide.
pub compute_inputs_digest-binding :
    (sha : Sha256) (hashed : List Bytes) (a b : List DetectorResult)
    → Memᴰ (results_input a) hashed
    → Memᴰ (results_input b) hashed
    → compute_inputs_digest sha a ≡ compute_inputs_digest sha b
    → Collision sha hashed ⊎ (sorted a ≡ sorted b)
compute_inputs_digest-binding sha hashed a b m n e =
    elim (digest-binding sha hashed _ _ m n (hex-injective _ _ e)) [
      | inl broken ↦ inl broken
      | inr same ↦ inr (results-reads (sorted a) (sorted b) (utf8-injective _ _ same))
    ]
