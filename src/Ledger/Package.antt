-- ===== src/Ledger/Package.antt =====
-- internal/ledger/package.go: the export of one record, and its verification without a database.
pub mod Sound
pub mod Binding
use vigia.Prelude.{ℕ, Bool, not, List, Option, none, some, ◌==◌, if◌then◌else◌}
use vigia.Time.{Time}
use vigia.Ledger.Encoding.{Text, codes}
use vigia.Ledger.Digest.{Sha256}
use vigia.Ledger.Record.{
  JudgeEvidence, Body, EvidenceRecord, format_micros, is_valid_prev_hash, hash_of,
}
use vigia.Ledger.Chain.{Text_comparable, BreakReason, VerifyResult, verified, broken, compare_hash}
use vigia.Ledger.Inputs.{DetectorResult, compute_inputs_digest}

pub record PackageInteraction : Type 0 where
  pub id : Text
  pub tenant_id : Text
  pub channel : Text
  pub direction : Text
  pub occurred_at : Time

pub record PackageEvaluation : Type 0 where
  pub id : Text
  pub overall_outcome : Text
  pub policy_bundle_version : Text
  pub created_at : Time

pub record PackageRecord : Type 0 where
  pub tenant_id : Text
  pub interaction_event_id : Text
  pub evaluation_id : Text
  pub seq : ℕ
  pub overall_outcome : Text
  pub policy_bundle_version : Text
  pub inputs_digest : Text
  pub created_at : Text
  pub prev_hash : Text
  pub hash : Text
  pub judge : Option JudgeEvidence

pub record Package : Type 0 where
  pub schema_version : Text
  pub interaction : PackageInteraction
  pub evaluation : PackageEvaluation
  pub detector_results : List DetectorResult
  pub proof : PackageRecord

abbrev pub schema_version : Text
schema_version = codes "vigia.evidence.v1"

-- `BuildPackage`; the field `Record` is `proof` here.
abbrev pub record_of : EvidenceRecord → PackageRecord
record_of rec = record {
  tenant_id = rec.body.tenant_id;
  interaction_event_id = rec.body.interaction_event_id;
  evaluation_id = rec.body.evaluation_id;
  seq = rec.body.seq;
  overall_outcome = rec.body.overall_outcome;
  policy_bundle_version = rec.body.policy_bundle_version;
  inputs_digest = rec.body.inputs_digest;
  created_at = format_micros rec.body.created_at;
  prev_hash = rec.prev_hash;
  hash = rec.hash;
  judge = rec.body.judge;
}

abbrev pub build_package :
    EvidenceRecord → PackageInteraction → PackageEvaluation → List DetectorResult → Package
build_package rec interaction eval results = record {
  schema_version = schema_version;
  interaction = interaction;
  evaluation = eval;
  detector_results = results;
  proof = record_of rec;
}

-- The body that the hash is computed from again.
abbrev pub package_body : PackageRecord → Time → Body
package_body r created_at = record {
  tenant_id = r.tenant_id;
  interaction_event_id = r.interaction_event_id;
  evaluation_id = r.evaluation_id;
  seq = r.seq;
  overall_outcome = r.overall_outcome;
  policy_bundle_version = r.policy_bundle_version;
  inputs_digest = r.inputs_digest;
  created_at = created_at;
  judge = r.judge;
  complaint_transition = none;
}

abbrev pub mismatch : Package → BreakReason → VerifyResult
mismatch pkg reason = broken 1 pkg.proof.seq 0 reason

-- `time.Parse` on the canonical layout is `parse`, which gives none on an error.
module _ (sha : Sha256) (parse : Text → Option Time) where
  unfoldable pub check_hash : Package → Option Time → Option VerifyResult
  check_hash pkg none = some (mismatch pkg BreakReason.hash_mismatch)
  check_hash pkg (some created_at) =
      if not (is_valid_prev_hash pkg.proof.prev_hash)
      then some (mismatch pkg BreakReason.invalid_prev_hash)
      else compare_hash (hash_of sha pkg.proof.prev_hash (package_body pkg.proof created_at))
          pkg.proof.hash (mismatch pkg BreakReason.hash_mismatch) (some (verified 1))

  -- `VerifyPackage`; `none` is a panic.
  unfoldable pub verify_package : Package → Option VerifyResult
  verify_package pkg =
      if not (pkg.evaluation.id == pkg.proof.evaluation_id)
      then some (mismatch pkg BreakReason.evaluation_id_mismatch)
      else if not (pkg.evaluation.overall_outcome == pkg.proof.overall_outcome)
      then some (mismatch pkg BreakReason.evaluation_outcome_mismatch)
      else if not (pkg.evaluation.policy_bundle_version == pkg.proof.policy_bundle_version)
      then some (mismatch pkg BreakReason.evaluation_bundle_mismatch)
      else if not (pkg.interaction.id == pkg.proof.interaction_event_id)
      then some (mismatch pkg BreakReason.interaction_id_mismatch)
      else if not (pkg.interaction.tenant_id == pkg.proof.tenant_id)
      then some (mismatch pkg BreakReason.interaction_tenant_mismatch)
      else if not (compute_inputs_digest sha pkg.detector_results == pkg.proof.inputs_digest)
      then some (mismatch pkg BreakReason.inputs_digest_mismatch)
      else check_hash pkg (parse pkg.proof.created_at)
