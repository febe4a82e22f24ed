-- ===== src/Ledger/Package/Sound.antt =====
-- Which packages are accepted (package.go, `VerifyPackage`).
use vigia.Prelude.{
  ◌≡◌, refl, ap, ◌∙◌, inl, inr, true, false, not, Option, none, some, arith, ◌==◌, if◌then◌else◌,
  Bool-cases,
}
use vigia.Time.{Time}
use vigia.Ledger.Encoding.{Text}
use vigia.Ledger.Digest.{Sha256}
use vigia.Ledger.Record.{Body, canonical_of, hash_of, hash_text, is_valid_prev_hash}
use vigia.Ledger.Chain.{
  Text_comparable, text_equal_iff, BreakReason, VerifyResult, verified, compare_hash,
}
use vigia.Ledger.Chain.Intact.{is_ok, hash_of-valid}
use vigia.Ledger.Inputs.{compute_inputs_digest}
use vigia.Ledger.Package.{Package, package_body, mismatch, check_hash, verify_package}

-- The blocks of a package agree, its results have the digest of its record, and its record has the hash
-- of what it says.
pub record IsSound (sha : Sha256) (parse : Text → Option Time) (pkg : Package) : Type 0 where
  pub evaluation_id : pkg.evaluation.id ≡ pkg.proof.evaluation_id
  pub evaluation_outcome : pkg.evaluation.overall_outcome ≡ pkg.proof.overall_outcome
  pub evaluation_bundle : pkg.evaluation.policy_bundle_version ≡ pkg.proof.policy_bundle_version
  pub interaction_id : pkg.interaction.id ≡ pkg.proof.interaction_event_id
  pub interaction_tenant : pkg.interaction.tenant_id ≡ pkg.proof.tenant_id
  pub inputs_digest : compute_inputs_digest sha pkg.detector_results ≡ pkg.proof.inputs_digest
  pub created_at : Time
  pub parsed : parse pkg.proof.created_at ≡ some created_at
  pub valid : is_valid_prev_hash pkg.proof.prev_hash ≡ true
  pub hashed :
      hash_text sha pkg.proof.prev_hash (canonical_of (package_body pkg.proof created_at))
      ≡ pkg.proof.hash

module _ (sha : Sha256) (parse : Text → Option Time) where
  -- A guard that reports a mismatch is passed by an accepted package.
  guard_passed :
      (s t : Text) (pkg : Package) (reason : BreakReason) (rest : Option VerifyResult)
      → is_ok sha (if not (s == t) then some (mismatch pkg reason) else rest) ≡ true
      → (s ≡ t) × (is_ok sha rest ≡ true)
  guard_passed s t pkg reason rest h = ground (arith, text_equal_iff s t)

  guard_skipped :
      (s t : Text) (pkg : Package) (reason : BreakReason) (rest : Option VerifyResult)
      → s ≡ t
      → (if not (s == t) then some (mismatch pkg reason) else rest) ≡ rest
  guard_skipped s t pkg reason rest h = rw ((text_equal_iff s t).1 h) refl

  -- The comparison behind the guard on the previous hash.
  abbrev compared : Text → Text → Body → VerifyResult → VerifyResult → Option VerifyResult
  compared prev hash b invalid differs =
      if not (is_valid_prev_hash prev)
      then some invalid
      else compare_hash (hash_of sha prev b) hash differs (some (verified 1))

  compared-accepts :
      (prev hash : Text) (b : Body) (invalid differs : VerifyResult)
      → is_valid_prev_hash prev ≡ true
      → hash_text sha prev (canonical_of b) ≡ hash
      → compared prev hash b invalid differs ≡ some (verified 1)
  unfolding compare_hash
  compared-accepts prev hash b invalid differs valid hashed =
      rw (valid, hash_of-valid sha prev b valid, (text_equal_iff _ _).1 hashed) refl

  compared-passed :
      (prev hash : Text) (b : Body) (invalid differs : VerifyResult)
      → invalid.intact ≡ false
      → differs.intact ≡ false
      → is_ok sha (compared prev hash b invalid differs) ≡ true
      → (is_valid_prev_hash prev ≡ true) × (hash_text sha prev (canonical_of b) ≡ hash)
  unfolding compare_hash
  compared-passed prev hash b invalid differs no_pass no_match h =
      elim (Bool-cases (is_valid_prev_hash prev)) [
        | inr bad ↦ absurd (ground (arith, bad, h, no_pass))
        | inl valid ↦
            let opened = hash_of-valid sha prev b valid in
            (
              valid,
              ground (
                arith,
                opened,
                h,
                valid,
                no_match,
                text_equal_iff (hash_text sha prev (canonical_of b)) hash,
              ),
            )
      ]

  check_hash-passed :
      (pkg : Package) (o : Option Time)
      → is_ok sha (check_hash sha parse pkg o) ≡ true
      → (at : Time) × (o ≡ some at)
        × (is_valid_prev_hash pkg.proof.prev_hash ≡ true)
        × (hash_text sha pkg.proof.prev_hash (canonical_of (package_body pkg.proof at))
            ≡ pkg.proof.hash)
  unfolding check_hash
  check_hash-passed pkg none h = absurd (cc)
  check_hash-passed pkg (some at) h =
      let (valid, hashed) =
        compared-passed pkg.proof.prev_hash pkg.proof.hash (package_body pkg.proof at)
          (mismatch pkg BreakReason.invalid_prev_hash) (mismatch pkg BreakReason.hash_mismatch) refl
          refl h in
      (at, refl, valid, hashed)

  check_hash-accepts :
      (pkg : Package) (at : Time)
      → is_valid_prev_hash pkg.proof.prev_hash ≡ true
      → hash_text sha pkg.proof.prev_hash (canonical_of (package_body pkg.proof at))
        ≡ pkg.proof.hash
      → check_hash sha parse pkg (some at) ≡ some (verified 1)
  unfolding check_hash
  check_hash-accepts pkg at valid hashed =
      compared-accepts pkg.proof.prev_hash pkg.proof.hash (package_body pkg.proof at)
        (mismatch pkg BreakReason.invalid_prev_hash) (mismatch pkg BreakReason.hash_mismatch) valid
        hashed

  pub verify_package-IsSound :
      (pkg : Package) → is_ok sha (verify_package sha parse pkg) ≡ true → IsSound sha parse pkg
  unfolding verify_package
  verify_package-IsSound pkg h =
      let p = pkg.proof in
      let (id, h1) = guard_passed pkg.evaluation.id p.evaluation_id pkg _ _ h in
      let (outcome, h2) =
        guard_passed pkg.evaluation.overall_outcome p.overall_outcome pkg _ _ h1 in
      let (bundle, h3) =
        guard_passed pkg.evaluation.policy_bundle_version p.policy_bundle_version pkg _ _ h2 in
      let (interaction, h4) = guard_passed pkg.interaction.id p.interaction_event_id pkg _ _ h3 in
      let (tenant, h5) = guard_passed pkg.interaction.tenant_id p.tenant_id pkg _ _ h4 in
      let (digest, h6) =
        guard_passed (compute_inputs_digest sha pkg.detector_results) p.inputs_digest pkg _ _ h5 in
      let (at, parsed, valid, hashed) = check_hash-passed pkg (parse p.created_at) h6 in
      record {
        evaluation_id = id;
        evaluation_outcome = outcome;
        evaluation_bundle = bundle;
        interaction_id = interaction;
        interaction_tenant = tenant;
        inputs_digest = digest;
        created_at = at;
        parsed = parsed;
        valid = valid;
        hashed = hashed;
      }

  -- A sound package is accepted.
  pub IsSound-accepted :
      (pkg : Package) → IsSound sha parse pkg → verify_package sha parse pkg ≡ some (verified 1)
  unfolding verify_package
  IsSound-accepted pkg s =
      guard_skipped _ _ pkg _ _ s.evaluation_id
      ∙ guard_skipped _ _ pkg _ _ s.evaluation_outcome
      ∙ guard_skipped _ _ pkg _ _ s.evaluation_bundle
      ∙ guard_skipped _ _ pkg _ _ s.interaction_id
      ∙ guard_skipped _ _ pkg _ _ s.interaction_tenant
      ∙ guard_skipped _ _ pkg _ _ s.inputs_digest
      ∙ ap (check_hash sha parse pkg) s.parsed
      ∙ check_hash-accepts pkg s.created_at s.valid s.hashed
