-- ===== src/Complaints/Polling.antt =====
-- Which jobs a poll finds (jobs.go).
pub mod Listed
pub mod Admitted
pub mod Planned
pub mod Due
use mathlib.Core.Path.{subst}
use vigia.Prelude.{
  ℕ, ◌+◌, ◌≤◌, ◌≡◌, refl, sym, ap, ◌∙◌, ◌⊎◌, inl, inr, Bool, true, false, not, ◌&&◌, List, [], ◌∷◌,
  ◌++◌, Option, none, some, map, for_each, All, arith, any, take, filter, length, append_nil,
  append_assoc, some_injective, Bool-cases, ◌==◌, if◌then◌else◌,
}
use vigia.Time.{Time, utc_micros, before}
use vigia.Ledger.Encoding.{Text, codes}
use vigia.Ledger.Chain.{Text_comparable, text_equal_iff}
use vigia.Complaints.{
  ComplaintCaseState, ComplaintTransitionKind, ComplaintTransitionPlan, kind_text, is_open,
  is_awaiting_review, allows_human_review_id, next_complaint_state, plan_complaint_transition,
}
use vigia.Complaints.Tables.{CaseRow, ReviewRow, Tables, has_id}
use vigia.Complaints.Cases.{
  insert_by, order_by, is_due, is_expired, is_unprocessed, list_open_complaint_cases,
  list_sla_due_complaint_cases, list_expired_review_complaint_cases, list_unprocessed_human_reviews,
}
use vigia.Complaints.Jobs.{
  ComplaintCase, HumanReview, ComplaintTransitionArgs, ComplaintPollStore, Enqueuer, Findings,
  no_findings, enqueue, enqueue_listed, transition_args, review_args, enqueue_tenant_findings,
  Polled, poll_tenant, poll_tenants, poll, store_of, ComplaintJobSettings, now_of, poll_limit_of,
  kind_of,
}

abbrev pub one_job : Option ComplaintTransitionArgs → List ComplaintTransitionArgs
one_job none = []
one_job (some args) = args ∷ []

abbrev pub jobs_of_items :
    {A : Type 0} → (A → Option ComplaintTransitionArgs) → List A → List ComplaintTransitionArgs
jobs_of_items job [] = []
jobs_of_items job (x ∷ xs) = one_job (job x) ++ jobs_of_items job xs

-- The jobs that a listing calls for; one that fails calls for none.
abbrev pub jobs_of :
    {A : Type 0}
    → (A → Option ComplaintTransitionArgs)
    → Option (List A)
    → List ComplaintTransitionArgs
jobs_of job none = []
jobs_of job (some xs) = jobs_of_items job xs

-- What a poll of one tenant is to hand on, whatever becomes of each job.
abbrev pub tenant_jobs : ComplaintPollStore → Time → ℕ → Text → List ComplaintTransitionArgs
tenant_jobs store now limit tenant =
    jobs_of (transition_args ComplaintTransitionKind.request_review) (store.list_open tenant limit)
    ++ (jobs_of (transition_args ComplaintTransitionKind.sla_breach)
          (store.list_sla_due tenant now limit)
        ++ (jobs_of (transition_args ComplaintTransitionKind.ttl_expired)
              (store.list_expired_review tenant now limit)
            ++ jobs_of review_args (store.list_unprocessed tenant limit)))

abbrev pub all_jobs :
    (Text → List ComplaintTransitionArgs) → List Text → List ComplaintTransitionArgs
all_jobs jobs [] = []
all_jobs jobs (tenant ∷ tenants) = jobs tenant ++ all_jobs jobs tenants

module _ (enqueuer : Enqueuer) where
  enqueue-enqueued :
      (found : Findings) (o : Option ComplaintTransitionArgs)
      → (enqueue enqueuer found o).enqueued ≡ found.enqueued ++ one_job o
  unfolding enqueue
  enqueue-enqueued found none = sym (append_nil found.enqueued)
  enqueue-enqueued found (some args) = refl

  loop-enqueued :
      {A : Type 0} (job : A → Option ComplaintTransitionArgs) (found : Findings) (xs : List A)
      → (for_each (λ f x. enqueue enqueuer f (job x)) found xs).enqueued
        ≡ found.enqueued ++ jobs_of_items job xs
  loop-enqueued job found [] = sym (append_nil found.enqueued)
  loop-enqueued job found (x ∷ xs) =
      loop-enqueued job (enqueue enqueuer found (job x)) xs
      ∙ ap (λ ys. ys ++ jobs_of_items job xs) (enqueue-enqueued found (job x))
      ∙ append_assoc found.enqueued (one_job (job x)) (jobs_of_items job xs)

  listed-enqueued :
      {A : Type 0} (job : A → Option ComplaintTransitionArgs) (found : Findings)
      (o : Option (List A))
      → (enqueue_listed enqueuer job found o).enqueued ≡ found.enqueued ++ jobs_of job o
  unfolding enqueue_listed
  listed-enqueued job found none = sym (append_nil found.enqueued)
  listed-enqueued job found (some xs) = loop-enqueued job found xs

  tenant-enqueued :
      (store : ComplaintPollStore) (tenant : Text) (now : Time) (limit : ℕ)
      → (enqueue_tenant_findings store enqueuer tenant now limit).enqueued
        ≡ tenant_jobs store now limit tenant
  unfolding enqueue_tenant_findings
  tenant-enqueued store tenant now limit = simp (listed-enqueued, append_assoc)

  polled-jobs :
      (store : ComplaintPollStore) (s : ComplaintJobSettings) (polled : Polled)
      (tenants : List Text)
      → (for_each (poll_tenant store enqueuer s) polled tenants).jobs
        ≡ polled.jobs ++ all_jobs (tenant_jobs store (now_of s) (poll_limit_of s)) tenants
  polled-jobs store s polled [] = sym (append_nil polled.jobs)
  polled-jobs store s polled (tenant ∷ tenants) =
      polled-jobs store s (poll_tenant store enqueuer s polled tenant) tenants
      ∙ ap
          (λ ys.
            (polled.jobs ++ ys)
            ++ all_jobs (tenant_jobs store (now_of s) (poll_limit_of s)) tenants)
          (tenant-enqueued store tenant (now_of s) (poll_limit_of s))
      ∙ append_assoc polled.jobs _ _

-- Whatever the enqueuer answers, a poll hands it one job for each listed item of each tenant, in order: a
-- listing that fails, or a job that is refused, holds up nothing else.
pub poll-jobs :
    (store : ComplaintPollStore) (enqueuer : Enqueuer) (s : ComplaintJobSettings)
    (tenants : List Text)
    → store.list_tenants ≡ some tenants
    → (p : Polled) × (poll store enqueuer s ≡ some p)
      × (p.jobs ≡ all_jobs (tenant_jobs store (now_of s) (poll_limit_of s)) tenants)
unfolding poll
poll-jobs store enqueuer s tenants h =
    let start : Polled = record { jobs = []; failures = [] } in
    (
      for_each (poll_tenant store enqueuer s) start tenants,
      ap (poll_tenants store enqueuer s) h,
      polled-jobs enqueuer store s start tenants,
    )
