-- ===== src/Ledger/Record.antt =====
-- internal/ledger/ledger.go: evidence records, their canonical text and their hash.
use vigia.Prelude.{
  ℕ, ◌+◌, ◌/◌, ◌%◌, Bool, true, ◌&&◌, ◌||◌, [], ◌∷◌, ◌++◌, Option, none, some, length, all, leb,
  nat_eq, if◌then◌else◌,
}
use vigia.Time.{Time, day_ns, micro_ns}
use vigia.Time.Civil.{civil_of}
use vigia.Ledger.Encoding.{Text, Writer, field, optional}
use vigia.Ledger.Json.{string, number_comma}
use vigia.Ledger.Digest.{Sha256, utf8, hex}

pub record JudgeEvidence : Type 0 where
  pub rubric_version : Text
  pub judge_model_id : Text
  pub confidence : Text

pub record ComplaintTransitionEvidence : Type 0 where
  pub complaint_case_id : Text
  pub transition_kind : Text
  pub from_state : Text
  pub to_state : Text
  pub human_review_id : Option Text

-- `Seq` is an int64 that counts from 1, and is kept as a number.
pub record Body : Type 0 where
  pub tenant_id : Text
  pub interaction_event_id : Text
  pub evaluation_id : Text
  pub seq : ℕ
  pub overall_outcome : Text
  pub policy_bundle_version : Text
  pub inputs_digest : Text
  pub created_at : Time
  pub judge : Option JudgeEvidence
  pub complaint_transition : Option ComplaintTransitionEvidence

pub record EvidenceRecord : Type 0 where
  pub id : Text
  pub body : Body
  pub prev_hash : Text
  pub hash : Text

-- `canonicalBodyDTO`: the body with its time as text.
pub record CanonicalBody : Type 0 where
  pub tenant_id : Text
  pub interaction_event_id : Text
  pub evaluation_id : Text
  pub seq : ℕ
  pub overall_outcome : Text
  pub policy_bundle_version : Text
  pub inputs_digest : Text
  pub created_at : Text
  pub judge : Option JudgeEvidence
  pub complaint_transition : Option ComplaintTransitionEvidence

two : ℕ → Text → Text
two n rest = (n / 10 % 10 + 48) ∷ (n % 10 + 48) ∷ rest

-- `t.UTC().Format("2006-01-02T15:04:05.000000Z07:00")`, for years below 10000
unfoldable pub format_micros : Time → Text
unfolding two
format_micros t =
    let date = civil_of (t.ns / day_ns) in
    let clock = t.ns % day_ns in
    let seconds = clock / 1000000000 in
    let micros = clock % 1000000000 / micro_ns in
    two (date.year / 100) (
      two date.year (
        45
        ∷ two date.month (
            45
            ∷ two date.day (
                84
                ∷ two (seconds / 3600) (
                    58
                    ∷ two (seconds / 60 % 60) (
                        58
                        ∷ two (seconds % 60) (
                            46
                            ∷ two (micros / 10000)
                                (two (micros / 100) (two micros (90 ∷ []))))))))))

unfoldable pub canonical_of : Body → CanonicalBody
canonical_of b = record {
  tenant_id = b.tenant_id;
  interaction_event_id = b.interaction_event_id;
  evaluation_id = b.evaluation_id;
  seq = b.seq;
  overall_outcome = b.overall_outcome;
  policy_bundle_version = b.policy_bundle_version;
  inputs_digest = b.inputs_digest;
  created_at = format_micros b.created_at;
  judge = b.judge;
  complaint_transition = b.complaint_transition;
}

unfoldable pub write_judge : Writer JudgeEvidence
write_judge j rest = field ",\"judge\":{\"rubric_version\":" string j.rubric_version (
    field ",\"judge_model_id\":" string j.judge_model_id
      (field ",\"confidence\":" string j.confidence (125 ∷ rest)))

-- `omitempty` leaves out an id that is nil.
unfoldable pub write_human_review : Writer (Option Text)
write_human_review = optional (field ",\"human_review_id\":" string)

unfoldable pub write_complaint : Writer ComplaintTransitionEvidence
write_complaint c rest =
    field ",\"complaint_transition\":{\"complaint_case_id\":" string c.complaint_case_id (
      field ",\"transition_kind\":" string c.transition_kind (
        field ",\"from_state\":" string c.from_state
          (field ",\"to_state\":" string c.to_state (write_human_review c.human_review_id rest))))

unfoldable pub write_complaint_end : Writer (Option ComplaintTransitionEvidence)
write_complaint_end = optional write_complaint

unfoldable pub write_judge_end :
    Option JudgeEvidence → Option ComplaintTransitionEvidence → Text → Text
write_judge_end none c rest = write_complaint_end c rest
write_judge_end (some j) c rest = write_judge j (write_complaint_end c rest)

-- `json.Marshal` of the canonical body, its fields in declaration order
unfoldable pub write_body : Writer CanonicalBody
write_body b rest =
    123
    ∷ field "\"tenant_id\":" string b.tenant_id (
        field ",\"interaction_event_id\":" string b.interaction_event_id (
          field ",\"evaluation_id\":" string b.evaluation_id (
            field ",\"seq\":" number_comma b.seq (
              field "\"overall_outcome\":" string b.overall_outcome (
                field ",\"policy_bundle_version\":" string b.policy_bundle_version (
                  field ",\"inputs_digest\":" string b.inputs_digest (
                    field ",\"created_at\":" string b.created_at
                      (write_judge_end b.judge b.complaint_transition rest))))))))

-- `canonicalBody`
abbrev pub canonical_body : Body → Text
canonical_body b = write_body (canonical_of b) []

abbrev pub is_hex_char : ℕ → Bool
is_hex_char c = leb 48 c && leb c 57 || leb 97 c && leb c 102

-- `isValidPrevHash`
unfoldable pub is_valid_prev_hash : Text → Bool
is_valid_prev_hash [] = true
is_valid_prev_hash (c ∷ s) = nat_eq (length (c ∷ s)) 64 && all is_hex_char (c ∷ s)

-- `Hash`; `none` is its panic.
module _ (sha : Sha256) where
  abbrev pub hash_text : Text → CanonicalBody → Text
  hash_text prev_hash b = hex (sha.digest (utf8 prev_hash ++ utf8 (write_body b [])))

  unfoldable pub hash_of : Text → Body → Option Text
  hash_of prev_hash b =
      if is_valid_prev_hash prev_hash then some (hash_text prev_hash (canonical_of b)) else none
