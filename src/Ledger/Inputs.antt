-- ===== src/Ledger/Inputs.antt =====
-- internal/ledger/ledger.go: the digest of the detector results (`ComputeInputsDigest`).
pub mod Binding
use vigia.Prelude.{ℕ, Bool, true, false, ◌&&◌, ◌||◌, List, [], ◌∷◌, ltb, nat_eq, if◌then◌else◌}
use vigia.Ledger.Encoding.{Text, Writer, field}
use vigia.Ledger.Json.{string}
use vigia.Ledger.Digest.{Sha256, utf8, hex}

pub record DetectorResult : Type 0 where
  pub code : Text
  pub outcome : Text
  pub severity : Text
  pub rationale : Text

-- The order of strings, by their bytes, which is the order by code points.
abbrev pub text_before : Text → Text → Bool
text_before [] [] = false
text_before [] (d ∷ t) = true
text_before (c ∷ s) [] = false
text_before (c ∷ s) (d ∷ t) = ltb c d || nat_eq c d && text_before s t

-- `sort.Slice` by code. It sorts up to twelve results by insertion, which keeps equal codes in order;
-- the order of more results with equal codes is not fixed, and this one is taken.
abbrev pub insert_result : DetectorResult → List DetectorResult → List DetectorResult
insert_result r [] = r ∷ []
insert_result r (x ∷ xs) =
    let rest = insert_result r xs in if text_before x.code r.code then x ∷ rest else r ∷ x ∷ xs

abbrev pub sorted : List DetectorResult → List DetectorResult
sorted [] = []
sorted (r ∷ rs) = insert_result r (sorted rs)

-- `json.Marshal` of a `canonicalDetectorResult`, and of a slice of them
unfoldable pub write_result : Writer DetectorResult
write_result r rest = field "{\"code\":" string r.code (
    field ",\"outcome\":" string r.outcome (
      field ",\"severity\":" string r.severity
        (field ",\"rationale\":" string r.rationale (125 ∷ rest))))

abbrev pub write_more : Writer (List DetectorResult)
write_more [] rest = 93 ∷ rest
write_more (r ∷ rs) rest = 44 ∷ write_result r (write_more rs rest)

unfoldable pub write_results : Writer (List DetectorResult)
write_results [] rest = 91 ∷ 93 ∷ rest
write_results (r ∷ rs) rest = 91 ∷ write_result r (write_more rs rest)

-- `ComputeInputsDigest`
abbrev pub compute_inputs_digest : Sha256 → List DetectorResult → Text
compute_inputs_digest sha results = hex (sha.digest (utf8 (write_results (sorted results) [])))
