-- ===== src/Complaints/Polling/Planned.antt =====
-- The jobs of a poll against the state machine (jobs.go, complaint_store.go, state.go).
use mathlib.Core.Path.{subst}
use mathlib.Core.List.{Memᴰ}
use mathlib.Core.List.Memᴰ
use vigia.Prelude.{
  ℕ, ◌≡◌, ◌≢◌, refl, sym, ap, ◌∙◌, inl, inr, Bool, true, false, List, [], ◌∷◌, Option, none, some,
  map, arith, take, filter, some_injective, Bool-cases,
}
use vigia.Time.{Time, utc_micros}
use vigia.Ledger.Encoding.{Text}
use vigia.Ledger.Chain.{Text_comparable, text_equal_iff}
use vigia.Complaints.{
  ComplaintTransitionKind, ComplaintTransitionPlan, kind_text, is_open, is_awaiting_review,
  allows_human_review_id, plan_complaint_transition,
}
use vigia.Complaints.Tables.{CaseRow, ReviewRow, Tables, has_id}
use vigia.Complaints.Cases.{
  order_by, is_due, is_expired, is_unprocessed, list_unprocessed_human_reviews, case_expiry,
}
use vigia.Complaints.Jobs.{
  ComplaintCase, HumanReview, ComplaintTransitionArgs, transition_args, review_args, store_of,
  kind_of, Enqueuer, ComplaintJobSettings, Polled, poll, now_of, poll_limit_of,
}
use vigia.Complaints.Polling.Admitted.{
  kinds_read, human_reads, and_true, open_planned, due_planned, awaiting_planned,
}
use vigia.Complaints.Polling.Listed.{Mem-take, Mem-filter, Mem-order, Mem-any, Mem-map}
use vigia.Prelude.Membership.{Mem-append}
use vigia.Complaints.Polling.{one_job, jobs_of_items, tenant_jobs, all_jobs, poll-jobs}

-- The job names the tenant, and a case in its tables whose state admits the job's transition.
pub record IsPlanned (tenant : Text) (t : Tables) (a : ComplaintTransitionArgs) : Type 0 where
  pub of_tenant : a.tenant_id ≡ tenant
  pub case_row : CaseRow
  pub member : Memᴰ case_row t.cases
  pub named : case_row.id ≡ a.complaint_case_id
  pub plan : ComplaintTransitionPlan
  pub planned : plan_complaint_transition case_row.state (kind_of a.transition_kind) ≡ some plan

one_job-source :
    (o : Option ComplaintTransitionArgs) (a : ComplaintTransitionArgs)
    → Memᴰ a (one_job o)
    → o ≡ some a
one_job-source none a m = absurd (Memᴰ.not-nil m)
one_job-source (some b) a m = elim (Memᴰ.cases_cons m) [
  | inl e ↦ ap some (sym e)
  | inr n ↦ absurd (Memᴰ.not-nil n)
]

-- A job comes from a listed item, and every listed item gives its job.
jobs-source :
    {A : Type 0} (job : A → Option ComplaintTransitionArgs) (a : ComplaintTransitionArgs)
    (xs : List A)
    → Memᴰ a (jobs_of_items job xs)
    → (x : A) × (job x ≡ some a) × Memᴰ x xs
jobs-source job a [] m = absurd (Memᴰ.not-nil m)
jobs-source job a (x ∷ xs) m = elim (Mem-append a (one_job (job x)) _ m) [
  | inl here ↦ (x, one_job-source (job x) a here, Memᴰ.head refl)
  | inr later ↦ let (y, e, mem) = jobs-source job a xs later in (y, e, Memᴰ.tail mem)
]

module _ (tenant : Text) (t : Tables) where
  abbrev as_case : CaseRow → ComplaintCase
  as_case c = record { tenant_id = tenant; case_row = c }

  -- A listing of cases that pass a test, each planned for the kind.
  cases-IsPlanned :
      (kind : ComplaintTransitionKind) (test : CaseRow → Bool) (key : CaseRow → Time) (limit : ℕ)
      (a : ComplaintTransitionArgs)
      → kind_of (kind_text kind) ≡ kind
      → ((c : CaseRow)
          → test c ≡ true
          → (p : ComplaintTransitionPlan) × (plan_complaint_transition c.state kind ≡ some p))
      → Memᴰ a (
          jobs_of_items
            (transition_args kind)
            (map as_case (take limit (order_by key (filter test t.cases)))))
      → IsPlanned tenant t a
  cases-IsPlanned kind test key limit a read plan m =
      let (item, job, listed) = jobs-source (transition_args kind) a _ m in
      let (c, same, taken) = Mem-map as_case item _ listed in
      let (holds, member) =
        Mem-filter test c t.cases (Mem-order key c _ (Mem-take limit c _ taken)) in
      let (p, planned) = plan c holds in
      let args = some_injective _ _ job in
      let kinds : kind_of a.transition_kind ≡ kind =
        ap (λ x. kind_of x.transition_kind) (sym args) ∙ read in
      record {
        of_tenant = ap (λ x. x.tenant_id) (sym args) ∙ ap (λ x. x.tenant_id) same;
        case_row = c;
        member = member;
        named = ap (λ x. x.case_row.id) (sym same) ∙ ap (λ x. x.complaint_case_id) args;
        plan = p;
        planned = ap (plan_complaint_transition c.state) kinds ∙ planned;
      }

  human_job :
      (review : HumanReview)
      → allows_human_review_id (kind_of review.review_row.decision) ≡ true
      → review_args review
        ≡ some (record {
          tenant_id = review.tenant_id;
          complaint_case_id = review.review_row.complaint_case_id;
          transition_kind = kind_text (kind_of review.review_row.decision);
          human_review_id = some review.review_row.id;
        })
  human_job review h = simp h

  no_job_is_none :
      (review : HumanReview) (a : ComplaintTransitionArgs)
      → allows_human_review_id (kind_of review.review_row.decision) ≡ false
      → review_args review ≢ some a
  no_job_is_none review a h job = absurd (ground (arith, h, job))

  reviewed_job :
      (review : HumanReview) (a : ComplaintTransitionArgs)
      → review_args review ≡ some a
      → (allows_human_review_id (kind_of review.review_row.decision) ≡ true)
        × (a.tenant_id ≡ review.tenant_id)
        × (a.complaint_case_id ≡ review.review_row.complaint_case_id)
        × (a.transition_kind ≡ kind_text (kind_of review.review_row.decision))
  reviewed_job review a job =
      elim (Bool-cases (allows_human_review_id (kind_of review.review_row.decision))) [
        | inr e ↦ absurd (no_job_is_none review a e job)
        | inl e ↦
            let args = some_injective _ _ (sym (human_job review e) ∙ job) in
            (
              e,
              ap (λ x. x.tenant_id) (sym args),
              ap (λ x. x.complaint_case_id) (sym args),
              ap (λ x. x.transition_kind) (sym args),
            )
      ]

  reviewed-IsPlanned :
      (review : HumanReview) (a : ComplaintTransitionArgs) (c : CaseRow)
      → review_args review ≡ some a
      → review.tenant_id ≡ tenant
      → has_id review.review_row.complaint_case_id c ≡ true
      → is_awaiting_review c.state ≡ true
      → Memᴰ c t.cases
      → IsPlanned tenant t a
  reviewed-IsPlanned review a c job here named awaiting member =
      let (human, owner, id, kind) = reviewed_job review a job in
      let k = kind_of review.review_row.decision in
      let (p, planned) = awaiting_planned c.state k awaiting (inr human) in
      record {
        of_tenant = owner ∙ here;
        case_row = c;
        member = member;
        named = (text_equal_iff _ _).0 named ∙ sym id;
        plan = p;
        planned =
            ap (plan_complaint_transition c.state) (ap kind_of kind ∙ human_reads k human)
            ∙ planned;
      }

  as_review : ReviewRow → HumanReview
  as_review r = record { tenant_id = tenant; review_row = r }

  reviews-IsPlanned :
      (limit : ℕ) (a : ComplaintTransitionArgs)
      → Memᴰ a (
          jobs_of_items review_args (
            map
              (λ r. record { tenant_id = tenant; review_row = r })
              (list_unprocessed_human_reviews limit t)))
      → IsPlanned tenant t a
  reviews-IsPlanned limit a m =
      let (item, job, listed) = jobs-source review_args a _ m in
      let (r, same, taken) = Mem-map _ item _ listed in
      let (holds, member) =
        Mem-filter (is_unprocessed t.cases) r t.reviews
          (Mem-order (λ (x : ReviewRow). x.created_at) r _ (Mem-take limit r _ taken)) in
      let (pending, awaited) = and_true _ _ holds in
      let (c, found, present) = Mem-any _ t.cases awaited in
      let (named, awaiting) = and_true _ _ found in
      let id = ap (λ (x : HumanReview). x.review_row.complaint_case_id) same in
      reviewed-IsPlanned item a c job (ap (λ x. x.tenant_id) same)
        (subst (λ x. has_id x c ≡ true) (sym id) named) awaiting present

tenant_jobs-IsPlanned :
    (tenants : List Text) (tables : Text → Tables) (now : Time) (limit : ℕ) (tenant : Text)
    (a : ComplaintTransitionArgs)
    → Memᴰ a (tenant_jobs (store_of tenants tables) now limit tenant)
    → IsPlanned tenant (tables tenant) a
tenant_jobs-IsPlanned tenants tables now limit tenant a m = elim (Mem-append a _ _ m) [
  | inl open_job ↦
      cases-IsPlanned tenant (tables tenant) ComplaintTransitionKind.request_review
        (λ c. is_open c.state) (λ c. c.opened_at) limit a kinds_read.0
        (λ c h. open_planned c.state h) open_job
  | inr rest ↦ elim (Mem-append a _ _ rest) [
    | inl due_job ↦
        cases-IsPlanned tenant (tables tenant) ComplaintTransitionKind.sla_breach
          (is_due (utc_micros now)) (λ c. c.sla_due_at) limit a kinds_read.1
          (λ c h. (_, due_planned c.state (and_true _ _ h).0)) due_job
    | inr late ↦ elim (Mem-append a _ _ late) [
      | inl expired_job ↦
          cases-IsPlanned tenant (tables tenant) ComplaintTransitionKind.ttl_expired
            (is_expired (utc_micros now)) case_expiry limit a kinds_read.2
            (λ c h. awaiting_planned c.state _ (and_true _ _ h).0 (inl refl)) expired_job
      | inr review_job ↦ reviews-IsPlanned tenant (tables tenant) limit a review_job
    ]
  ]
]

all_jobs-source :
    (jobs : Text → List ComplaintTransitionArgs) (tenants : List Text) (a : ComplaintTransitionArgs)
    → Memᴰ a (all_jobs jobs tenants)
    → (tenant : Text) × Memᴰ tenant tenants × Memᴰ a (jobs tenant)
all_jobs-source jobs [] a m = absurd (Memᴰ.not-nil m)
all_jobs-source jobs (tenant ∷ tenants) a m = elim (Mem-append a (jobs tenant) _ m) [
  | inl here ↦ (tenant, Memᴰ.head refl, here)
  | inr later ↦
      let (other, listed, found) = all_jobs-source jobs tenants a later in
      (other, Memᴰ.tail listed, found)
]

-- Every job that a poll hands to the enqueuer names a listed tenant, and a case in the tables of that
-- tenant whose state, at the time of the poll, admits the transition of the job.
pub poll-IsPlanned :
    (tenants : List Text) (tables : Text → Tables) (enqueuer : Enqueuer) (s : ComplaintJobSettings)
    (p : Polled) (a : ComplaintTransitionArgs)
    → poll (store_of tenants tables) enqueuer s ≡ some p
    → Memᴰ a p.jobs
    → (tenant : Text) × Memᴰ tenant tenants × IsPlanned tenant (tables tenant) a
poll-IsPlanned tenants tables enqueuer s p a done m =
    let (q, same, jobs) = poll-jobs (store_of tenants tables) enqueuer s tenants refl in
    let all = ap (λ (x : Polled). x.jobs) (some_injective _ _ (sym done ∙ same)) ∙ jobs in
    let (tenant, listed, found) = all_jobs-source _ tenants a (subst (λ xs. Memᴰ a xs) all m) in
    (
      tenant,
      listed,
      tenant_jobs-IsPlanned tenants tables (now_of s) (poll_limit_of s) tenant a found,
    )
