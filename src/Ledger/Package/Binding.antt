-- ===== src/Ledger/Package/Binding.antt =====
-- What an accepted package binds, and which exports are accepted (package.go).
use mathlib.Core.Path.{subst}
use mathlib.Core.List.{Memᴰ}
use vigia.Prelude.{
  [], ◌∷◌, ◌++◌, ℕ, ◌≡◌, refl, sym, ap, ◌∙◌, ◌⊎◌, inl, inr, true, List, Option, none, some, arith,
  some_injective, Bool-cases,
}
use vigia.Time.{Time}
use vigia.Ledger.Encoding.{Text}
use vigia.Ledger.Digest.{Bytes, Sha256, Collision}
use vigia.Ledger.Record.{
  JudgeEvidence, Body, EvidenceRecord, canonical_of, format_micros, hash_of, hash_text,
  is_valid_prev_hash,
}
use vigia.Ledger.Hashing.{hash_input, hash_text-binding}
use vigia.Ledger.Chain.{verified}
use vigia.Ledger.Chain.Intact.{is_ok, hash_of-valid}
use vigia.Ledger.Inputs.{DetectorResult, sorted, compute_inputs_digest}
use vigia.Ledger.Inputs.Binding.{results_input, compute_inputs_digest-binding}
use vigia.Ledger.Package.{Package, record_of, build_package, package_body, verify_package}
use vigia.Ledger.Package.Sound.{IsSound, verify_package-IsSound, IsSound-accepted}

-- The fields of a package that bear trust, those of its display blocks included. The time is the one
-- that is read, in canonical form; the results are sorted.
pub record Trusted : Type 0 where
  pub evaluation_id : Text
  pub overall_outcome : Text
  pub policy_bundle_version : Text
  pub interaction_id : Text
  pub tenant_id : Text
  pub seq : ℕ
  pub created_at : Option Text
  pub prev_hash : Text
  pub judge : Option JudgeEvidence
  pub detector_results : List DetectorResult

abbrev canonical_time : Option Time → Option Text
canonical_time none = none
canonical_time (some t) = some (format_micros t)

abbrev pub trusted : (Text → Option Time) → Package → Trusted
trusted parse pkg = record {
  evaluation_id = pkg.evaluation.id;
  overall_outcome = pkg.evaluation.overall_outcome;
  policy_bundle_version = pkg.evaluation.policy_bundle_version;
  interaction_id = pkg.interaction.id;
  tenant_id = pkg.interaction.tenant_id;
  seq = pkg.proof.seq;
  created_at = canonical_time (parse pkg.proof.created_at);
  prev_hash = pkg.proof.prev_hash;
  judge = pkg.proof.judge;
  detector_results = sorted pkg.detector_results;
}

-- What the verification of a package hands to SHA-256: its results, and the body whose time is read.
abbrev body_input : Package → Option Time → List Bytes
body_input pkg none = []
body_input pkg (some at) =
    hash_input pkg.proof.prev_hash (canonical_of (package_body pkg.proof at)) ∷ []

abbrev pub package_inputs : (Text → Option Time) → Package → List Bytes
package_inputs parse pkg =
    results_input pkg.detector_results ∷ body_input pkg (parse pkg.proof.created_at)

module _ (sha : Sha256) (parse : Text → Option Time) where
  sound-binding :
      (p q : Package) (s : IsSound sha parse p) (t : IsSound sha parse q)
      → p.proof.prev_hash ≡ q.proof.prev_hash
      → canonical_of (package_body p.proof s.created_at)
        ≡ canonical_of (package_body q.proof t.created_at)
      → sorted p.detector_results ≡ sorted q.detector_results
      → trusted parse p ≡ trusted parse q
  unfolding canonical_of
  sound-binding p q s t prev bodies results = λ i. record {
    evaluation_id = (s.evaluation_id ∙ ap (λ b. b.evaluation_id) bodies ∙ sym t.evaluation_id) i;
    overall_outcome =
        (s.evaluation_outcome ∙ ap (λ b. b.overall_outcome) bodies ∙ sym t.evaluation_outcome) i;
    policy_bundle_version =
        (s.evaluation_bundle ∙ ap (λ b. b.policy_bundle_version) bodies ∙ sym t.evaluation_bundle)
          i;
    interaction_id =
        (s.interaction_id ∙ ap (λ b. b.interaction_event_id) bodies ∙ sym t.interaction_id) i;
    tenant_id = (s.interaction_tenant ∙ ap (λ b. b.tenant_id) bodies ∙ sym t.interaction_tenant) i;
    seq = (ap (λ b. b.seq) bodies) i;
    created_at =
        (ap canonical_time s.parsed
            ∙ ap (λ b. some b.created_at) bodies
            ∙ sym (ap canonical_time t.parsed))
          i;
    prev_hash = prev i;
    judge = (ap (λ b. b.judge) bodies) i;
    detector_results = results i;
  }

  sound-inputs :
      (pkg : Package) (s : IsSound sha parse pkg)
      → package_inputs parse pkg
        ≡ results_input pkg.detector_results
          ∷ hash_input pkg.proof.prev_hash (canonical_of (package_body pkg.proof s.created_at))
          ∷ []
  sound-inputs pkg s = ap (λ o. results_input pkg.detector_results ∷ body_input pkg o) s.parsed

  bound :
      (p q : Package) (s : IsSound sha parse p) (t : IsSound sha parse q) (hashed : List Bytes)
      → hashed
        ≡ results_input p.detector_results
          ∷ hash_input p.proof.prev_hash (canonical_of (package_body p.proof s.created_at))
          ∷ results_input q.detector_results
          ∷ hash_input q.proof.prev_hash (canonical_of (package_body q.proof t.created_at))
          ∷ []
      → p.proof.hash ≡ q.proof.hash
      → Collision sha hashed ⊎ (trusted parse p ≡ trusted parse q)
  unfolding canonical_of
  bound p q s t hashed inputs e =
      let at = λ (b : Bytes) (m : Memᴰ b _). subst (λ xs. Memᴰ b xs) (sym inputs) m in
      elim (hash_text-binding sha hashed _ _ _ _ (at _ (Memᴰ.tail (Memᴰ.head refl)))
        (at _ (Memᴰ.tail (Memᴰ.tail (Memᴰ.tail (Memᴰ.head refl))))) s.valid t.valid
        (s.hashed ∙ e ∙ sym t.hashed)) [
          | inl broken ↦ inl broken
          | inr (prev, bodies) ↦
              elim (compute_inputs_digest-binding sha hashed p.detector_results q.detector_results
                (at _ (Memᴰ.head refl)) (at _ (Memᴰ.tail (Memᴰ.tail (Memᴰ.head refl))))
                (s.inputs_digest ∙ ap (λ b. b.inputs_digest) bodies ∙ sym t.inputs_digest)) [
                  | inl broken ↦ inl broken
                  | inr results ↦ inr (sound-binding p q s t prev bodies results)
                ]
        ]

  -- Two packages that are accepted and whose records have one hash agree on every field that bears trust,
  -- the display blocks and the sorted detector results included; otherwise two of the inputs that their
  -- verifications hash are different and have one SHA-256 digest.
  pub verify_package-binding :
      (p q : Package)
      → is_ok sha (verify_package sha parse p) ≡ true
      → is_ok sha (verify_package sha parse q) ≡ true
      → p.proof.hash ≡ q.proof.hash
      → Collision sha (package_inputs parse p ++ package_inputs parse q)
        ⊎ (trusted parse p ≡ trusted parse q)
  verify_package-binding p q hp hq e =
      let s = verify_package-IsSound sha parse p hp in
      let t = verify_package-IsSound sha parse q hq in
      bound p q s t _ (cc (sound-inputs p s, sound-inputs q t)) e

  -- The documented behaviour of time.Parse on a time: it reads one with the same canonical form.
  abbrev pub ReadsBack : Time → Type 0
  ReadsBack t =
      (at : Time) × (parse (format_micros t) ≡ some at) × (format_micros at ≡ format_micros t)

  hash_of-some :
      (p h : Text) (b : Body)
      → hash_of sha p b ≡ some h
      → (is_valid_prev_hash p ≡ true) × (hash_text sha p (canonical_of b) ≡ h)
  unfolding hash_of
  hash_of-some p h b e = elim (Bool-cases (is_valid_prev_hash p)) [
    | inl valid ↦ (valid, some_injective _ _ (sym (hash_of-valid sha p b valid) ∙ e))
    | inr bad ↦ absurd (ground (arith, bad, e))
  ]

  package_body-canonical :
      (rec : EvidenceRecord) (at : Time)
      → rec.body.complaint_transition ≡ none
      → format_micros at ≡ format_micros rec.body.created_at
      → canonical_of (package_body (record_of rec) at) ≡ canonical_of rec.body
  unfolding canonical_of
  package_body-canonical rec at evaluated time = λ i. record (canonical_of rec.body) {
    created_at = time i;
    complaint_transition = sym evaluated i;
  }

  -- The export of a record of an evaluation is accepted, where the record has the hash of its body, the
  -- results have the digest of the record, and the time of the record reads back.
  pub verify_package-build_package :
      (rec : EvidenceRecord) (results : List DetectorResult) (channel direction : Text)
      (occurred_at evaluated_at : Time)
      → hash_of sha rec.prev_hash rec.body ≡ some rec.hash
      → rec.body.complaint_transition ≡ none
      → compute_inputs_digest sha results ≡ rec.body.inputs_digest
      → ReadsBack rec.body.created_at
      → verify_package sha parse (
          build_package rec
            (record {
              id = rec.body.interaction_event_id;
              tenant_id = rec.body.tenant_id;
              channel = channel;
              direction = direction;
              occurred_at = occurred_at;
            })
            (record {
              id = rec.body.evaluation_id;
              overall_outcome = rec.body.overall_outcome;
              policy_bundle_version = rec.body.policy_bundle_version;
              created_at = evaluated_at;
            })
            results)
        ≡ some (verified 1)
  verify_package-build_package rec results channel direction occurred_at evaluated_at hashed
        evaluated digest (at, parsed, time) =
      let (valid, same) = hash_of-some rec.prev_hash rec.hash rec.body hashed in
      IsSound-accepted sha parse _ (record {
        evaluation_id = refl;
        evaluation_outcome = refl;
        evaluation_bundle = refl;
        interaction_id = refl;
        interaction_tenant = refl;
        inputs_digest = digest;
        created_at = at;
        parsed = parsed;
        valid = valid;
        hashed =
            ap (hash_text sha rec.prev_hash) (package_body-canonical rec at evaluated time) ∙ same;
      })
