-- ===== src/Samples/Packages.antt =====
-- The export of a record.
use vigia.Prelude.{◌++◌, ◌≡◌, ◌⊎◌, refl, ap, List, [], ◌∷◌, Option, some}
use vigia.Time.{Time}
use vigia.Ledger.Encoding.{Text, codes}
use vigia.Ledger.Digest.{Collision}
use vigia.Ledger.Record.{Body, EvidenceRecord, canonical_of, hash_of, hash_text, is_valid_prev_hash}
use vigia.Ledger.Chain.{verified}
use vigia.Ledger.Chain.Intact.{is_ok}
use vigia.Ledger.Inputs.{DetectorResult, compute_inputs_digest}
use vigia.Ledger.Package.{Package, build_package, verify_package}
use vigia.Ledger.Package.Binding.{
  package_inputs, trusted, verify_package-binding, verify_package-build_package,
}
use vigia.Samples.{morning}
use vigia.Samples.Ledger.{checksum_sha, body_of}

-- The export of a record with two detector results, which the second export gives in another order.
abbrev tone_result : DetectorResult
tone_result = record {
  code = codes "tone";
  outcome = codes "pass";
  severity = codes "low";
  rationale = codes "ok";
}

abbrev hours_result : DetectorResult
hours_result = record tone_result { code = codes "hours" }

abbrev exported_body : Body
exported_body = record (body_of 1) {
  inputs_digest = compute_inputs_digest checksum_sha (tone_result ∷ hours_result ∷ []);
}

abbrev exported_record : EvidenceRecord
exported_record = record {
  id = codes "r1";
  body = exported_body;
  prev_hash = [];
  hash = hash_text checksum_sha [] (canonical_of exported_body);
}

abbrev parse_morning : Text → Option Time
parse_morning text = some morning

abbrev package_of : List DetectorResult → Text → Package
package_of results channel =
    build_package exported_record
      (record {
        id = codes "i1";
        tenant_id = codes "t1";
        channel = channel;
        direction = codes "outbound";
        occurred_at = morning;
      })
      (record {
        id = codes "e1";
        overall_outcome = codes "pass";
        policy_bundle_version = [];
        created_at = morning;
      })
      results

exported_hash : hash_of checksum_sha [] exported_body ≡ some exported_record.hash
unfolding hash_of is_valid_prev_hash
exported_hash = refl

verify_package-build_package_example :
    verify_package checksum_sha parse_morning
      (package_of (tone_result ∷ hours_result ∷ []) (codes "sms"))
    ≡ some (verified 1)
verify_package-build_package_example =
    verify_package-build_package checksum_sha parse_morning exported_record
      (tone_result ∷ hours_result ∷ []) (codes "sms") (codes "outbound") morning morning
      exported_hash refl refl (morning, refl, refl)

package-verifies :
    (results : List DetectorResult) (channel : Text)
    → compute_inputs_digest checksum_sha results ≡ exported_body.inputs_digest
    → verify_package checksum_sha parse_morning (package_of results channel) ≡ some (verified 1)
package-verifies results channel digest =
    verify_package-build_package checksum_sha parse_morning exported_record results channel
      (codes "outbound") morning morning exported_hash refl digest (morning, refl, refl)

verify_package-binding_example :
    Collision checksum_sha (
      package_inputs parse_morning (package_of (tone_result ∷ hours_result ∷ []) (codes "sms"))
      ++ package_inputs parse_morning
          (package_of (hours_result ∷ tone_result ∷ []) (codes "voice")))
    ⊎ (trusted parse_morning (package_of (tone_result ∷ hours_result ∷ []) (codes "sms"))
        ≡ trusted parse_morning (package_of (hours_result ∷ tone_result ∷ []) (codes "voice")))
verify_package-binding_example =
    verify_package-binding checksum_sha parse_morning
      (package_of (tone_result ∷ hours_result ∷ []) (codes "sms"))
      (package_of (hours_result ∷ tone_result ∷ []) (codes "voice"))
      (ap (is_ok checksum_sha)
        (package-verifies (tone_result ∷ hours_result ∷ []) (codes "sms") refl))
      (ap (is_ok checksum_sha)
        (package-verifies (hours_result ∷ tone_result ∷ []) (codes "voice") refl))
      refl
