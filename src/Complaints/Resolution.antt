-- ===== src/Complaints/Resolution.antt =====
-- What a resolved case rests on (`ApplyTransition` of internal/postgres/complaint_store.go).
use vigia.Prelude.{
  ◌≡◌, refl, ap, ◌∙◌, Bool, true, not, ◌&&◌, is_some, List, [], ◌∷◌, Option, none, some, arith,
  reached, if◌then◌else◌, Bool-cases, inl, inr,
}
use mathlib.Core.Path.{subst}
use mathlib.Core.Option.{some_inj}
use vigia.Ledger.Encoding.{Text}
use vigia.Ledger.Digest.{Sha256}
use vigia.Complaints.{
  ComplaintCaseState, ComplaintTransitionKind, ComplaintTransitionPlan, is_awaiting_review,
  allows_human_review_id, plan_complaint_transition,
}
use vigia.Complaints.Tables.{
  CaseRow, ReviewRow, Tables, select_one, update_one, has_id, expires_after,
}
use vigia.Complaints.Store.{
  ApplyComplaintTransitionInput, Session, Applied, Review, append_complaint_evidence, with_evidence,
  with_case, with_plan, with_review, in_transaction, with_ids, apply_transition, mark_reviews,
  effective_now, validate_human_review, find_review, is_deciding, cas_guard, cas_set,
}
use vigia.Complaints.Trail.{past_guard}

select_one-holds :
    {A : Type 0} (p : A → Bool) (xs : List A) (x : A) → select_one p xs ≡ some x → p x ≡ true
select_one-holds p [] x h = absurd (ground arith)
select_one-holds p (y ∷ xs) x h = elim (Bool-cases (p y)) [
  | inl e ↦ let same : y ≡ x = ground arith in rw (← same) e
  | inr e ↦ select_one-holds p xs x (ground arith)
]

applied-row :
    {c c' : CaseRow} {t t' : Tables} → Applied.applied c t ≡ Applied.applied c' t' → c ≡ c'
applied-row h = cc

-- The case with this id is under a review that has not expired.
abbrev pub awaits : Session → Text → CaseRow → Bool
awaits e id c =
    (has_id id c && is_awaiting_review c.state) && expires_after e.database_now c.review_expires_at

module _ (e : Session) (input : ApplyComplaintTransitionInput) where
  -- The case waited for a review that had not expired, and a pending review of that case decided it
  -- by the request's kind.
  pub record IsReviewed (t : Tables) : Type 0 where
    pub case_id : Text
    pub review_id : Text
    pub case_row : CaseRow
    pub review : ReviewRow
    pub human : allows_human_review_id input.kind ≡ true
    pub case_parsed : e.parse_uuid input.complaint_case_id ≡ some case_id
    pub deciding : select_one (is_deciding case_id review_id input.kind) t.reviews ≡ some review
    pub found : select_one (awaits e case_id) t.cases ≡ some case_row

module _ (sha : Sha256) (e : Session) (tenant case_id : Text)
    (input : ApplyComplaintTransitionInput) where
  with_evidence-row :
      (plan : ComplaintTransitionPlan) (c c' : CaseRow) (t t' : Tables)
      → with_evidence sha e tenant case_id input plan c t ≡ Applied.applied c' t'
      → c ≡ c'
  unfolding with_evidence
  with_evidence-row plan c c' t t' h =
      let review = if allows_human_review_id input.kind then input.human_review_id else none in
      let (u, _, h') =
        reached (append_complaint_evidence sha e tenant case_id input plan review t) Applied.failed
          _ (Applied.applied c' t') h (ground arith) in
      applied-row h'

  with_case-row :
      (plan : ComplaintTransitionPlan) (r : Review) (c c' : CaseRow) (t t' : Tables)
      → with_case sha e tenant case_id input plan r c t ≡ Applied.applied c' t'
      → c ≡ c'
  unfolding with_case
  with_case-row plan Review.invalid c c' t t' h = with_evidence-row plan c c' t t' h
  with_case-row plan Review.absent c c' t t' h = with_evidence-row plan c c' t t' h
  with_case-row plan (Review.present id) c c' t t' h =
      let marked = mark_reviews case_id id (effective_now e input.now) t.reviews in
      let (reviews, _, h') =
        reached marked Applied.failed _ (Applied.applied c' t') h (ground arith) in
      with_evidence-row plan c c' _ t' h'

  with_plan-row :
      (plan : ComplaintTransitionPlan) (r : Review) (c' : CaseRow) (t t' : Tables)
      → with_plan sha e tenant case_id input plan r t ≡ Applied.applied c' t'
      → (c : CaseRow) × (select_one (cas_guard e case_id plan input.kind) t.cases ≡ some c)
        × (cas_set e input input.kind c ≡ c')
  unfolding with_plan
  with_plan-row plan r c' t t' h =
      let guard = cas_guard e case_id plan input.kind in
      let updated = update_one guard (cas_set e input input.kind) t.cases in
      let ((c, cases), found, h') =
        reached updated Applied.skipped _ (Applied.applied c' t') h (ground arith) in
      let (c0, selected, same) =
        reached (select_one guard t.cases) none _ (some (c, cases)) found (ground arith) in
      let pairs = some_inj.0 same in
      (
        c,
        selected ∙ ap (λ (p : CaseRow × List CaseRow). some p.0) pairs,
        with_case-row plan r _ c' _ t' h',
      )

  found_review :
      (id : Text) (t : Tables) (given : Option Text)
      → find_review e t case_id input.kind given ≡ Review.present id
      → (r : ReviewRow) × (select_one (is_deciding case_id id input.kind) t.reviews ≡ some r)
  unfolding find_review
  found_review id t none h = absurd (ground arith)
  found_review id t (some text) h =
      let (id', _, h') =
        reached (e.parse_uuid text) Review.invalid _ (Review.present id) h (ground arith) in
      let rows = select_one (is_deciding case_id id' input.kind) t.reviews in
      let (r, selected, same) =
        reached rows Review.absent _ (Review.present id) h' (ground arith) in
      let ids : id' ≡ id = cc in
      (
        r,
        subst (λ (x : Text). select_one (is_deciding case_id x input.kind) t.reviews ≡ some r) ids
            selected,
      )

  validated :
      (id : Text) (t : Tables)
      → validate_human_review e t case_id input ≡ Review.present id
      → find_review e t case_id input.kind input.human_review_id ≡ Review.present id
  unfolding validate_human_review
  validated id t h = ground arith

  reviewed :
      (plan : ComplaintTransitionPlan) (r : Review) (c' : CaseRow) (t t' : Tables)
      → allows_human_review_id input.kind ≡ true
      → with_review sha e tenant case_id input plan r t ≡ Applied.applied c' t'
      → (id : Text) × (r ≡ Review.present id)
  unfolding with_review
  reviewed plan Review.invalid c' t t' y h = absurd (ground arith)
  reviewed plan Review.absent c' t t' y h = absurd (ground arith)
  reviewed plan (Review.present id) c' t t' y h = (id, refl)

  with_review-row :
      (plan : ComplaintTransitionPlan) (r : Review) (c' : CaseRow) (t t' : Tables)
      → with_review sha e tenant case_id input plan r t ≡ Applied.applied c' t'
      → (c : CaseRow) × (select_one (cas_guard e case_id plan input.kind) t.cases ≡ some c)
        × (cas_set e input input.kind c ≡ c')
  unfolding with_review
  with_review-row plan Review.invalid c' t t' h = absurd (ground arith)
  with_review-row plan Review.absent c' t t' h =
      with_plan-row plan Review.absent c' t t' (ground arith)
  with_review-row plan (Review.present id) c' t t' h =
      with_plan-row plan (Review.present id) c' t t' h

settles :
    (e : Session) (id : Text) (plan : ComplaintTransitionPlan)
    (input : ApplyComplaintTransitionInput) (k : ComplaintTransitionKind) (c : CaseRow)
    → cas_guard e id plan k c ≡ true
    → (cas_set e input k c).state ≡ ComplaintCaseState.resolved
    → allows_human_review_id k ≡ true
settles e id plan input ComplaintTransitionKind.approve c g h = refl
settles e id plan input ComplaintTransitionKind.override c g h = refl
settles e id plan input ComplaintTransitionKind.request_review c g h = absurd (ground arith)
settles e id plan input ComplaintTransitionKind.ttl_expired c g h = absurd (ground arith)
settles e id plan input ComplaintTransitionKind.sla_breach c g h = absurd (ground arith)
settles e id plan input ComplaintTransitionKind.«open» c g h = absurd (ground arith)
settles e id plan input (ComplaintTransitionKind.other k) c g h = absurd (ground arith)

awaited :
    (e : Session) (id : Text) (plan : ComplaintTransitionPlan) (k : ComplaintTransitionKind)
    (xs : List CaseRow) (c : CaseRow)
    → allows_human_review_id k ≡ true
    → select_one (cas_guard e id plan k) xs ≡ some c
    → select_one (awaits e id) xs ≡ some c
awaited e id plan ComplaintTransitionKind.approve xs c y h = h
awaited e id plan ComplaintTransitionKind.override xs c y h = h
awaited e id plan ComplaintTransitionKind.request_review xs c y h = absurd (ground arith)
awaited e id plan ComplaintTransitionKind.ttl_expired xs c y h = absurd (ground arith)
awaited e id plan ComplaintTransitionKind.sla_breach xs c y h = absurd (ground arith)
awaited e id plan ComplaintTransitionKind.«open» xs c y h = absurd (ground arith)
awaited e id plan (ComplaintTransitionKind.other k) xs c y h = absurd (ground arith)

module _ (sha : Sha256) (e : Session) (input : ApplyComplaintTransitionInput) where
  transaction-IsReviewed :
      (tenant case_id : Text) (c' : CaseRow) (t t' : Tables)
      → e.parse_uuid input.complaint_case_id ≡ some case_id
      → c'.state ≡ ComplaintCaseState.resolved
      → in_transaction sha e tenant case_id input t ≡ Applied.applied c' t'
      → IsReviewed e input t
  unfolding in_transaction
  transaction-IsReviewed tenant case_id c' t t' parsed settled h =
      let (current, _, h1) =
        reached (select_one (has_id case_id) t.cases) Applied.skipped _ (Applied.applied c' t') h
          (ground arith) in
      let (plan, _, h2) =
        reached (plan_complaint_transition current.state input.kind) Applied.skipped _
          (Applied.applied c' t') h1 (ground arith) in
      let review = validate_human_review e t case_id input in
      let (c, selected, set) = with_review-row sha e tenant case_id input plan review c' t t' h2 in
      let guard = cas_guard e case_id plan input.kind in
      let human =
        settles e case_id plan input input.kind c (select_one-holds guard t.cases c selected)
          (ap (λ (x : CaseRow). x.state) set ∙ settled) in
      let (id, present) = reviewed sha e tenant case_id input plan review c' t t' human h2 in
      let (r, deciding) =
        found_review sha e tenant case_id input id t input.human_review_id
          (validated sha e tenant case_id input id t present) in
      record {
        case_id = case_id;
        review_id = id;
        case_row = c;
        review = r;
        human = human;
        case_parsed = parsed;
        deciding = deciding;
        found = awaited e case_id plan input.kind t.cases c human selected;
      }

  -- A transition that is applied and leaves its case resolved is an approval or an override, its case
  -- was under a review that had not expired, and a pending review of that case decided the same.
  pub apply_transition-IsReviewed :
      (t t' : Tables) (c : CaseRow)
      → apply_transition sha e input t ≡ Applied.applied c t'
      → c.state ≡ ComplaintCaseState.resolved
      → IsReviewed e input t
  unfolding apply_transition with_ids
  apply_transition-IsReviewed t t' c h settled =
      let past =
        past_guard (is_some input.human_review_id && not (allows_human_review_id input.kind))
          (with_ids sha e input t) c t' h in
      let (tenant, _, h1) =
        reached (e.parse_uuid input.tenant_id) Applied.failed _ (Applied.applied c t') past
          (ground arith) in
      let (case_id, parsed, h2) =
        reached (e.parse_uuid input.complaint_case_id) Applied.failed _ (Applied.applied c t') h1
          (ground arith) in
      transaction-IsReviewed tenant case_id c t t' parsed settled h2
