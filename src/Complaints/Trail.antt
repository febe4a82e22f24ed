-- ===== src/Complaints/Trail.antt =====
-- The chain of evidence under `ApplyTransition`.
use vigia.Prelude.{
  ◌≡◌, refl, sym, ◌∙◌, Bool, true, false, not, ◌&&◌, is_some, Option, none, some, arith, reached,
  if◌then◌else◌,
}
use mathlib.Core.Path.{subst}
use mathlib.Core.Option.{some_inj}
use vigia.Ledger.Encoding.{Text}
use vigia.Ledger.Digest.{Sha256}
use vigia.Complaints.{ComplaintTransitionPlan, plan_complaint_transition, allows_human_review_id}
use vigia.Complaints.Tables.{CaseRow, Tables, select_one, has_id, update_one}
use vigia.Complaints.Store.{
  ApplyComplaintTransitionInput, Session, Applied, Review, append_record, append_complaint_evidence,
  with_evidence, with_case, with_plan, with_review, in_transaction, apply_transition, with_ids,
  tables_after, mark_reviews, effective_now, cas_guard, cas_set, evidence_body,
}
use vigia.Complaints.Head.{IsLedger, appended-IsLedger, same-IsLedger}

given :
    (b : Bool) (o : Option Text) (text : Text) → (if b then o else none) ≡ some text → o ≡ some text
given true o text h = h
given false o text h = absurd (ground arith)

-- The text is its UUID's canonical one.
abbrev pub IsCanonical : Session → Text → Type 0
IsCanonical e text = e.parse_uuid text ≡ some text

module _ (sha : Sha256) (e : Session) (tenant : Text) (input : ApplyComplaintTransitionInput) where
  append_record-IsLedger :
      (plan : ComplaintTransitionPlan) (review : Option Text) (t t' : Tables)
      → IsLedger sha t
      → append_record sha e tenant input.complaint_case_id input plan review review t ≡ some t'
      → IsLedger sha t'
  unfolding append_record evidence_body
  append_record-IsLedger plan review t t' i h =
      let (hash, hashed, e') = reached _ none _ (some t') h (ground arith) in
      let appended = appended-IsLedger sha t e.new_id hash _ i refl hashed in
      same-IsLedger sha e' appended

  append_complaint_evidence-IsLedger :
      (plan : ComplaintTransitionPlan) (review : Option Text) (t t' : Tables)
      → ((text : Text) → review ≡ some text → IsCanonical e text)
      → IsLedger sha t
      → append_complaint_evidence sha e tenant input.complaint_case_id input plan review t ≡ some t'
      → IsLedger sha t'
  unfolding append_complaint_evidence
  append_complaint_evidence-IsLedger plan none t t' k i h =
      append_record-IsLedger plan none t t' i h
  append_complaint_evidence-IsLedger plan (some text) t t' k i h =
      let (id, parsed, e') = reached _ none _ (some t') h (ground arith) in
      append_record-IsLedger plan (some text) t t' i (
        subst
          (λ (x : Text).
            append_record sha e tenant input.complaint_case_id input plan (some text) (some x) t
            ≡ some t')
          (some_inj.0 (sym parsed ∙ k text refl)) e')

  with_evidence-IsLedger :
      (plan : ComplaintTransitionPlan) (c c' : CaseRow) (t t' : Tables)
      → ((text : Text) → input.human_review_id ≡ some text → IsCanonical e text)
      → IsLedger sha t
      → with_evidence sha e tenant input.complaint_case_id input plan c t ≡ Applied.applied c' t'
      → IsLedger sha t'
  unfolding with_evidence
  with_evidence-IsLedger plan c c' t t' k i h =
      let (u, appended, e') = reached _ Applied.failed _ (Applied.applied c' t') h (ground arith) in
      let u≡t' : u ≡ t' = ground arith in
      rw (← u≡t') (
        append_complaint_evidence-IsLedger plan
          (if allows_human_review_id input.kind then input.human_review_id else none) t u
          (λ text e''.
            k text (given (allows_human_review_id input.kind) input.human_review_id text e''))
          i appended)

  with_case-IsLedger :
      (plan : ComplaintTransitionPlan) (r : Review) (c c' : CaseRow) (t t' : Tables)
      → ((text : Text) → input.human_review_id ≡ some text → IsCanonical e text)
      → IsLedger sha t
      → with_case sha e tenant input.complaint_case_id input plan r c t ≡ Applied.applied c' t'
      → IsLedger sha t'
  unfolding with_case
  with_case-IsLedger plan Review.invalid c c' t t' k i h =
      with_evidence-IsLedger plan c c' t t' k i h
  with_case-IsLedger plan Review.absent c c' t t' k i h =
      with_evidence-IsLedger plan c c' t t' k i h
  with_case-IsLedger plan (Review.present id) c c' t t' k i h =
      let marked = mark_reviews input.complaint_case_id id (effective_now e input.now) t.reviews in
      let (reviews, _, e') =
        reached marked Applied.failed _ (Applied.applied c' t') h (ground arith) in
      with_evidence-IsLedger plan c c' _ t' k (record { intact = i.intact; at_head = i.at_head }) e'

  with_plan-IsLedger :
      (plan : ComplaintTransitionPlan) (r : Review) (c' : CaseRow) (t t' : Tables)
      → ((text : Text) → input.human_review_id ≡ some text → IsCanonical e text)
      → IsLedger sha t
      → with_plan sha e tenant input.complaint_case_id input plan r t ≡ Applied.applied c' t'
      → IsLedger sha t'
  unfolding with_plan
  with_plan-IsLedger plan r c' t t' k i h =
      let updated =
        update_one (cas_guard e input.complaint_case_id plan input.kind)
          (cas_set e input input.kind) t.cases in
      let ((c, cases), _, e') =
        reached updated Applied.skipped _ (Applied.applied c' t') h (ground arith) in
      with_case-IsLedger plan r _ c' _ t' k (record { intact = i.intact; at_head = i.at_head }) e'

  with_review-IsLedger :
      (plan : ComplaintTransitionPlan) (r : Review) (c' : CaseRow) (t t' : Tables)
      → ((text : Text) → input.human_review_id ≡ some text → IsCanonical e text)
      → IsLedger sha t
      → with_review sha e tenant input.complaint_case_id input plan r t ≡ Applied.applied c' t'
      → IsLedger sha t'
  unfolding with_review
  with_review-IsLedger plan Review.invalid c' t t' k i h = absurd (ground arith)
  with_review-IsLedger plan Review.absent c' t t' k i h =
      with_plan-IsLedger plan Review.absent c' t t' k i (ground arith)
  with_review-IsLedger plan (Review.present id) c' t t' k i h =
      with_plan-IsLedger plan (Review.present id) c' t t' k i h

  in_transaction-IsLedger :
      (c' : CaseRow) (t t' : Tables)
      → ((text : Text) → input.human_review_id ≡ some text → IsCanonical e text)
      → IsLedger sha t
      → in_transaction sha e tenant input.complaint_case_id input t ≡ Applied.applied c' t'
      → IsLedger sha t'
  unfolding in_transaction
  in_transaction-IsLedger c' t t' k i h =
      let (current, _, e') =
        reached (select_one (has_id input.complaint_case_id) t.cases) Applied.skipped _
          (Applied.applied c' t') h (ground arith) in
      let (plan, _, e'') =
        reached (plan_complaint_transition current.state input.kind) Applied.skipped _
          (Applied.applied c' t') e' (ground arith) in
      with_review-IsLedger plan _ c' t t' k i e''

pub past_guard :
    (b : Bool) (a : Applied) (c : CaseRow) (t : Tables)
    → (if b then Applied.failed else a) ≡ Applied.applied c t
    → a ≡ Applied.applied c t
past_guard true a c t h = absurd (ground arith)
past_guard false a c t h = h

module _ (sha : Sha256) where
  tables_after-IsLedger :
      (t : Tables) (a : Applied)
      → IsLedger sha t
      → ((c' : CaseRow) (t' : Tables) → a ≡ Applied.applied c' t' → IsLedger sha t')
      → IsLedger sha (tables_after t a)
  tables_after-IsLedger t Applied.failed i h = i
  tables_after-IsLedger t Applied.skipped i h = i
  tables_after-IsLedger t (Applied.applied c' t') i h = h c' t' refl

module _ (sha : Sha256) (e : Session) (input : ApplyComplaintTransitionInput) where
  applied-IsLedger :
      (c' : CaseRow) (t t' : Tables)
      → IsCanonical e input.complaint_case_id
      → ((text : Text) → input.human_review_id ≡ some text → IsCanonical e text)
      → IsLedger sha t
      → apply_transition sha e input t ≡ Applied.applied c' t'
      → IsLedger sha t'
  unfolding apply_transition with_ids
  applied-IsLedger c' t t' canonical k i h =
      let past : with_ids sha e input t ≡ Applied.applied c' t' =
        past_guard (is_some input.human_review_id && not (allows_human_review_id input.kind))
          (with_ids sha e input t) c' t' h in
      let (tenant, _, e') =
        reached (e.parse_uuid input.tenant_id) Applied.failed _ (Applied.applied c' t') past
          (ground arith) in
      let (case_id, parsed, e'') =
        reached (e.parse_uuid input.complaint_case_id) Applied.failed _ (Applied.applied c' t') e'
          (ground arith) in
      in_transaction-IsLedger sha e tenant input c' t t' k i (
        subst (λ (x : Text). in_transaction sha e tenant x input t ≡ Applied.applied c' t')
          (some_inj.0 (sym parsed ∙ canonical)) e'')

  -- When the case's id and the review's id, if one is given, are the canonical texts of their UUIDs,
  -- a transition keeps the chain of evidence intact and the head at its last record, whether it is
  -- applied, skipped or fails.
  pub apply_transition-IsLedger :
      (t : Tables)
      → IsCanonical e input.complaint_case_id
      → ((text : Text) → input.human_review_id ≡ some text → IsCanonical e text)
      → IsLedger sha t
      → IsLedger sha (tables_after t (apply_transition sha e input t))
  apply_transition-IsLedger t c k i =
      tables_after-IsLedger sha t (apply_transition sha e input t) i
        (λ c' t' h. applied-IsLedger c' t t' c k i h)
