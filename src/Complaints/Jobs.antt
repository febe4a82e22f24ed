-- ===== src/Complaints/Jobs.antt =====
-- internal/orchestrator/jobs.go: the poll that finds transitions that are due, and the job that applies one.
pub mod Working
use vigia.Prelude.{
  ℕ, Bool, true, false, not, ◌&&◌, List, [], ◌∷◌, ◌++◌, Option, none, some, map, for_each, is_empty,
  leb, ◌==◌, if◌then◌else◌,
}
use vigia.Time.{Time, utc_time, utc_micros}
use vigia.Calendar.{HolidayRow, load_calendar, add_business_days}
use vigia.Ledger.Encoding.{Text, codes}
use vigia.Ledger.Digest.{Sha256}
use vigia.Ledger.Chain.{Text_comparable}
use vigia.Complaints.{ComplaintTransitionKind, kind_text, allows_human_review_id}
use vigia.Complaints.Tables.{CaseRow, ReviewRow, Tables, select_one, has_id}
use vigia.Complaints.Store.{Session, ApplyComplaintTransitionInput, Applied, apply_transition}
use vigia.Complaints.Cases.{
  list_open_complaint_cases, list_sla_due_complaint_cases, list_expired_review_complaint_cases,
  list_unprocessed_human_reviews,
}

-- A row with the tenant that it belongs to.
pub record ComplaintCase : Type 0 where
  pub tenant_id : Text
  pub case_row : CaseRow

pub record HumanReview : Type 0 where
  pub tenant_id : Text
  pub review_row : ReviewRow

-- A limit or a number of days that is not positive stands for the default and is given as 0; `now` is
-- what the clock says.
pub record ComplaintJobSettings : Type 0 where
  pub poll_limit : ℕ
  pub complaint_review_ttl_business_days : ℕ
  pub now : Time

abbrev pub or_default : ℕ → ℕ → ℕ
or_default n default = if leb n 0 then default else n

abbrev pub poll_limit_of : ComplaintJobSettings → ℕ
poll_limit_of s = or_default s.poll_limit 500

abbrev pub review_ttl_business_days : ComplaintJobSettings → ℕ
review_ttl_business_days s = or_default s.complaint_review_ttl_business_days 3

abbrev pub now_of : ComplaintJobSettings → Time
now_of s = utc_micros s.now

pub record ComplaintTransitionArgs : Type 0 where
  pub tenant_id : Text
  pub complaint_case_id : Text
  pub transition_kind : Text
  pub human_review_id : Option Text

-- `ComplaintTransitionKind(text)`
unfoldable pub kind_of : Text → ComplaintTransitionKind
kind_of text =
    if text == codes "approve"
    then ComplaintTransitionKind.approve
    else if text == codes "override"
    then ComplaintTransitionKind.override
    else if text == codes "request_review"
    then ComplaintTransitionKind.request_review
    else if text == codes "ttl_expired"
    then ComplaintTransitionKind.ttl_expired
    else if text == codes "sla_breach"
    then ComplaintTransitionKind.sla_breach
    else if text == codes "open"
    then ComplaintTransitionKind.«open»
    else ComplaintTransitionKind.other text

-- A listing is `none` if it fails.
pub record ComplaintPollStore : Type 0 where
  pub list_tenants : Option (List Text)
  pub list_open : Text → ℕ → Option (List ComplaintCase)
  pub list_sla_due : Text → Time → ℕ → Option (List ComplaintCase)
  pub list_expired_review : Text → Time → ℕ → Option (List ComplaintCase)
  pub list_unprocessed : Text → ℕ → Option (List HumanReview)

-- `EnqueueComplaintTransition`: whether it returns without an error.
abbrev pub Enqueuer : Type 0
Enqueuer = ComplaintTransitionArgs → Bool

pub data PollError : Type 0 where
  list_failed : PollError
  enqueue_failed : ComplaintTransitionArgs → PollError

-- The jobs handed to the enqueuer, in order, and the errors.
pub record Findings : Type 0 where
  pub enqueued : List ComplaintTransitionArgs
  pub errors : List PollError

abbrev pub no_findings : Findings
no_findings = record { enqueued = []; errors = [] }

unfoldable pub enqueue : Enqueuer → Findings → Option ComplaintTransitionArgs → Findings
enqueue enqueuer found none = found
enqueue enqueuer found (some args) = record {
  enqueued = found.enqueued ++ args ∷ [];
  errors =
      if enqueuer args then found.errors else found.errors ++ PollError.enqueue_failed args ∷ [];
}

-- A listing and the loop over what it lists; an item may give no job.
unfoldable pub enqueue_listed :
    {A : Type 0}
    → Enqueuer
    → (A → Option ComplaintTransitionArgs)
    → Findings
    → Option (List A)
    → Findings
enqueue_listed enqueuer job found none = record found {
  errors = found.errors ++ PollError.list_failed ∷ [];
}
enqueue_listed enqueuer job found (some items) =
    for_each (λ f item. enqueue enqueuer f (job item)) found items

abbrev pub transition_args :
    ComplaintTransitionKind → ComplaintCase → Option ComplaintTransitionArgs
transition_args kind item = some (record {
  tenant_id = item.tenant_id;
  complaint_case_id = item.case_row.id;
  transition_kind = kind_text kind;
  human_review_id = none;
})

abbrev pub review_args : HumanReview → Option ComplaintTransitionArgs
review_args review =
    let kind = kind_of review.review_row.decision in
    if not (allows_human_review_id kind)
    then none
    else some (record {
      tenant_id = review.tenant_id;
      complaint_case_id = review.review_row.complaint_case_id;
      transition_kind = kind_text kind;
      human_review_id = some review.review_row.id;
    })

-- `enqueueTenantFindings`
unfoldable pub enqueue_tenant_findings : ComplaintPollStore → Enqueuer → Text → Time → ℕ → Findings
enqueue_tenant_findings store enqueuer tenant now limit =
    let opened =
      enqueue_listed enqueuer (transition_args ComplaintTransitionKind.request_review) no_findings
        (store.list_open tenant limit) in
    let due =
      enqueue_listed enqueuer (transition_args ComplaintTransitionKind.sla_breach) opened
        (store.list_sla_due tenant now limit) in
    let expired =
      enqueue_listed enqueuer (transition_args ComplaintTransitionKind.ttl_expired) due
        (store.list_expired_review tenant now limit) in
    enqueue_listed enqueuer review_args expired (store.list_unprocessed tenant limit)

-- What a poll does over all tenants; the errors are kept with their tenant.
pub record Polled : Type 0 where
  pub jobs : List ComplaintTransitionArgs
  pub failures : List (Text × List PollError)

abbrev pub poll_tenant :
    ComplaintPollStore → Enqueuer → ComplaintJobSettings → Polled → Text → Polled
poll_tenant store enqueuer s polled tenant =
    let found = enqueue_tenant_findings store enqueuer tenant (now_of s) (poll_limit_of s) in
    record {
      jobs = polled.jobs ++ found.enqueued;
      failures =
          if is_empty found.errors
          then polled.failures
          else polled.failures ++ (tenant, found.errors) ∷ [];
    }

abbrev pub poll_tenants :
    ComplaintPollStore → Enqueuer → ComplaintJobSettings → Option (List Text) → Option Polled
poll_tenants store enqueuer s none = none
poll_tenants store enqueuer s (some tenants) =
    some (for_each (poll_tenant store enqueuer s) (record { jobs = []; failures = [] }) tenants)

-- `ComplaintPollWorker.Work`; `none` is the error of the listing of tenants.
unfoldable pub poll : ComplaintPollStore → Enqueuer → ComplaintJobSettings → Option Polled
poll store enqueuer s = poll_tenants store enqueuer s store.list_tenants

-- The store of internal/postgres over the tables of each tenant, whose queries succeed.
abbrev pub store_of : List Text → (Text → Tables) → ComplaintPollStore
store_of tenants tables = record {
  list_tenants = some tenants;
  list_open = λ tenant limit. some (
      map (λ c. record { tenant_id = tenant; case_row = c })
        (list_open_complaint_cases limit (tables tenant)));
  list_sla_due = λ tenant at limit. some (
      map (λ c. record { tenant_id = tenant; case_row = c })
        (list_sla_due_complaint_cases at limit (tables tenant)));
  list_expired_review = λ tenant at limit. some (
      map (λ c. record { tenant_id = tenant; case_row = c })
        (list_expired_review_complaint_cases at limit (tables tenant)));
  list_unprocessed = λ tenant limit. some (
      map (λ r. record { tenant_id = tenant; review_row = r })
        (list_unprocessed_human_reviews limit (tables tenant)));
}

-- The input of a transition, but for the expiry of a review
abbrev pub input_of :
    ComplaintJobSettings → ComplaintTransitionArgs → Time → ApplyComplaintTransitionInput
input_of s args expiry = record {
  tenant_id = args.tenant_id;
  complaint_case_id = args.complaint_case_id;
  kind = kind_of args.transition_kind;
  now = now_of s;
  review_expires_at = expiry;
  human_review_id = args.human_review_id;
}

abbrev pub is_request_review : ComplaintTransitionKind → Bool
is_request_review ComplaintTransitionKind.request_review = true
is_request_review _ = false

-- `GetComplaintCase`; `none` is an error.
unfoldable pub get_complaint_case : Session → Text → Text → Tables → Option CaseRow
get_complaint_case e tenant id t = elim (e.parse_uuid tenant) [
  | none ↦ none
  | some parsed ↦ elim (e.parse_uuid id) [
    | none ↦ none
    | some case_id ↦ select_one (has_id case_id) t.cases
  ]
]

module _ (sha : Sha256) (e : Session) (s : ComplaintJobSettings)
    (holidays : Text → List HolidayRow) where
  abbrev pub expiry_for : CaseRow → Option Time
  expiry_for c =
      add_business_days (now_of s) (review_ttl_business_days s)
        (load_calendar c.calendar_version (holidays c.calendar_version))

  abbrev pub apply_until : ComplaintTransitionArgs → Tables → Option Time → Option Applied
  apply_until args t none = none
  apply_until args t (some at) = some (apply_transition sha e (input_of s args at) t)

  abbrev pub apply_with_calendar :
      ComplaintTransitionArgs → Tables → Option CaseRow → Option Applied
  apply_with_calendar args t none = some Applied.failed
  apply_with_calendar args t (some c) = apply_until args t (expiry_for c)

  -- `ComplaintTransitionWorker.Work`, with what the transition gives; `none` is out of fuel.
  unfoldable pub work_transition : ComplaintTransitionArgs → Tables → Option Applied
  work_transition args t =
      if is_request_review (kind_of args.transition_kind)
      then apply_with_calendar args t (get_complaint_case e args.tenant_id args.complaint_case_id t)
      else some (apply_transition sha e (input_of s args (utc_time 0)) t)
