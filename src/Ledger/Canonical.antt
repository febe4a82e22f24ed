-- ===== src/Ledger/Canonical.antt =====
-- The canonical text of a body determines it (ledger.go, `canonicalBody`).
use vigia.Prelude.{ℕ, ◌≡◌, ◌≢◌, sym, ap, ◌∷◌, Option, none, some, arith}
use vigia.Ledger.Encoding.{
  Text, Writer, PrefixFree, field, pair, field-PrefixFree, pair-PrefixFree, optional,
  optional-PrefixFree,
}
use vigia.Ledger.Json.{string, number_comma, string-PrefixFree, number_comma-PrefixFree}
use vigia.Ledger.Record.{
  JudgeEvidence, ComplaintTransitionEvidence, CanonicalBody, write_judge, write_human_review,
  write_complaint, write_complaint_end, write_judge_end, write_body,
}

pub ruleset writers =
    (field-PrefixFree, pair-PrefixFree, string-PrefixFree, number_comma-PrefixFree)

-- The fields of a judge's evidence, and their writer.
abbrev JudgeFields : Type 0
JudgeFields = Text × (Text × Text)

abbrev write_judge_fields : Writer JudgeFields
write_judge_fields =
    pair (field ",\"judge\":{\"rubric_version\":" string)
      (pair (field ",\"judge_model_id\":" string) (field ",\"confidence\":" string))

write_judge_fields-PrefixFree : PrefixFree write_judge_fields
write_judge_fields-PrefixFree = search writers

abbrev judge_of : JudgeFields → JudgeEvidence
judge_of (v, (m, c)) = record { rubric_version = v; judge_model_id = m; confidence = c }

write_judge-PrefixFree : PrefixFree write_judge
unfolding write_judge
write_judge-PrefixFree = record {
  reads = λ a b r s e.
      let read =
        write_judge_fields-PrefixFree.reads (a.rubric_version, (a.judge_model_id, a.confidence))
          (b.rubric_version, (b.judge_model_id, b.confidence)) (125 ∷ r) (125 ∷ s) e in
      (ap judge_of read.0, cc read.1);
}

write_human_review-PrefixFree : PrefixFree write_human_review
unfolding write_human_review
write_human_review-PrefixFree = optional-PrefixFree _ (search writers) (λ h r s e. ground arith)

abbrev ComplaintFields : Type 0
ComplaintFields = Text × (Text × (Text × (Text × Option Text)))

abbrev write_complaint_fields : Writer ComplaintFields
write_complaint_fields = pair (field ",\"complaint_transition\":{\"complaint_case_id\":" string) (
    pair (field ",\"transition_kind\":" string) (
      pair (field ",\"from_state\":" string)
        (pair (field ",\"to_state\":" string) write_human_review)))

write_complaint_fields-PrefixFree : PrefixFree write_complaint_fields
write_complaint_fields-PrefixFree = search (writers, write_human_review-PrefixFree) depth 8

abbrev complaint_of : ComplaintFields → ComplaintTransitionEvidence
complaint_of (c, (k, (f, (t, h)))) = record {
  complaint_case_id = c;
  transition_kind = k;
  from_state = f;
  to_state = t;
  human_review_id = h;
}

abbrev complaint_fields : ComplaintTransitionEvidence → ComplaintFields
complaint_fields c =
    (c.complaint_case_id, (c.transition_kind, (c.from_state, (c.to_state, c.human_review_id))))

write_complaint-PrefixFree : PrefixFree write_complaint
unfolding write_complaint
write_complaint-PrefixFree = record {
  reads = λ a b r s e.
      let read =
        write_complaint_fields-PrefixFree.reads (complaint_fields a) (complaint_fields b) r s e in
      (ap complaint_of read.0, read.1);
}

write_complaint_end-PrefixFree : PrefixFree write_complaint_end
unfolding write_complaint_end
write_complaint_end-PrefixFree =
    optional-PrefixFree _ write_complaint-PrefixFree
      (λ c r s e. unfold write_complaint in ground arith)

-- The evidence of a judge is never taken for the end of the object.
judge_apart :
    (j : JudgeEvidence) (c : Option ComplaintTransitionEvidence) (r s : Text)
    → write_judge j r ≢ write_complaint_end c s
unfolding write_judge write_complaint_end write_complaint optional
judge_apart j none r s e = ground arith
judge_apart j (some c) r s e = ground arith

abbrev EndFields : Type 0
EndFields = Option JudgeEvidence × Option ComplaintTransitionEvidence

write_end : Writer EndFields
write_end (j, c) rest = write_judge_end j c rest

write_end-reads :
    (j k : Option JudgeEvidence) (c d : Option ComplaintTransitionEvidence) (r s : Text)
    → write_judge_end j c r ≡ write_judge_end k d s
    → (◌≡◌ {A = EndFields} (j, c) (k, d)) × (r ≡ s)
unfolding write_judge_end
write_end-reads none none c d r s e =
    let read = write_complaint_end-PrefixFree.reads c d r s e in (cc read.0, read.1)
write_end-reads none (some k) c d r s e =
    absurd (judge_apart k c (write_complaint_end d s) r (sym e))
write_end-reads (some j) none c d r s e = absurd (judge_apart j d (write_complaint_end c r) s e)
write_end-reads (some j) (some k) c d r s e =
    let first =
      write_judge-PrefixFree.reads j k (write_complaint_end c r) (write_complaint_end d s) e in
    let second = write_complaint_end-PrefixFree.reads c d r s first.1 in
    (cc (first.0, second.0), second.1)

write_end-PrefixFree : PrefixFree write_end
unfolding write_end
write_end-PrefixFree = record { reads = λ (j, c) (k, d) r s e. write_end-reads j k c d r s e }

abbrev BodyFields : Type 0
BodyFields = Text × (Text × (Text × (ℕ × (Text × (Text × (Text × (Text × EndFields)))))))

abbrev write_body_fields : Writer BodyFields
write_body_fields = pair (field "{\"tenant_id\":" string) (
    pair (field ",\"interaction_event_id\":" string) (
      pair (field ",\"evaluation_id\":" string) (
        pair (field ",\"seq\":" number_comma) (
          pair (field "\"overall_outcome\":" string) (
            pair (field ",\"policy_bundle_version\":" string) (
              pair (field ",\"inputs_digest\":" string)
                (pair (field ",\"created_at\":" string) write_end)))))))

write_body_fields-PrefixFree : PrefixFree write_body_fields
write_body_fields-PrefixFree = search (writers, write_end-PrefixFree) depth 12

abbrev body_of : BodyFields → CanonicalBody
body_of (t, (i, (v, (n, (o, (p, (d, (c, (j, k))))))))) = record {
  tenant_id = t;
  interaction_event_id = i;
  evaluation_id = v;
  seq = n;
  overall_outcome = o;
  policy_bundle_version = p;
  inputs_digest = d;
  created_at = c;
  judge = j;
  complaint_transition = k;
}

abbrev body_fields : CanonicalBody → BodyFields
body_fields b = (
  b.tenant_id,
  (
    b.interaction_event_id,
    (
      b.evaluation_id,
      (
        b.seq,
        (
          b.overall_outcome,
          (
            b.policy_bundle_version,
            (b.inputs_digest, (b.created_at, (b.judge, b.complaint_transition))),
          ),
        ),
      ),
    ),
  ),
)

-- The canonical text of a body can be read back: two bodies whose texts agree, whatever stands behind
-- them, are one canonical body, and what stands behind is the same.
pub write_body-PrefixFree : PrefixFree write_body
unfolding write_body write_end
write_body-PrefixFree = record {
  reads = λ a b r s e.
      let read = write_body_fields-PrefixFree.reads (body_fields a) (body_fields b) r s e in
      (ap body_of read.0, read.1);
}
