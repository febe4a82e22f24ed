-- ===== src/Complaints/Jobs/Working.antt =====
-- The job that applies a transition (`ComplaintTransitionWorker.Work` of jobs.go).
use vigia.Prelude.{◌≡◌, refl, ap, Option, none, some, List, Bool-cases, inl, inr}
use vigia.Time.{Time, utc_time}
use vigia.Calendar.{HolidayRow, load_calendar}
use vigia.Calendar.Counting.{add_business_days-IsBusinessDaysAfter}
use vigia.Ledger.Encoding.{Text}
use vigia.Ledger.Digest.{Sha256}
use vigia.Complaints.Tables.{CaseRow, Tables}
use vigia.Complaints.Store.{Session, Applied, apply_transition, tables_after}
use vigia.Complaints.Head.{IsLedger}
use vigia.Complaints.Trail.{IsCanonical, apply_transition-IsLedger}
use vigia.Complaints.Jobs.{
  now_of, review_ttl_business_days, ComplaintJobSettings, ComplaintTransitionArgs, input_of,
  is_request_review, kind_of, apply_until, apply_with_calendar, get_complaint_case, work_transition,
}

module _ (sha : Sha256) (e : Session) (s : ComplaintJobSettings) (holidays : Text → List HolidayRow)
    (args : ComplaintTransitionArgs) (t : Tables) where
  abbrev EndsIntact : Option Applied → Type 0
  EndsIntact o = (a : Applied) × (o ≡ some a) × IsLedger sha (tables_after t a)

  module _ (canonical : IsCanonical e args.complaint_case_id)
      (reviewed : (text : Text) → args.human_review_id ≡ some text → IsCanonical e text)
      (intact : IsLedger sha t) where
    applied-EndsIntact :
        (o : Option Applied) (at : Time)
        → o ≡ some (apply_transition sha e (input_of s args at) t)
        → EndsIntact o
    applied-EndsIntact o at h = (
      apply_transition sha e (input_of s args at) t,
      h,
      apply_transition-IsLedger sha e (input_of s args at) t canonical reviewed intact,
    )

    calendar-EndsIntact :
        (found : Option CaseRow) → EndsIntact (apply_with_calendar sha e s holidays args t found)
    calendar-EndsIntact none = (Applied.failed, refl, intact)
    calendar-EndsIntact (some c) =
        let cal = load_calendar c.calendar_version (holidays c.calendar_version) in
        let (at, finds, _) =
          add_business_days-IsBusinessDaysAfter cal ((now_of s).ns) (review_ttl_business_days s) in
        applied-EndsIntact _ at (ap (apply_until sha e s holidays args t) finds)

-- The job of a transition always ends, whatever the calendar of its case, and with ids given in canonical
-- form it keeps the chain of evidence intact and the chain head at its last record.
pub work_transition-IsLedger :
    (sha : Sha256) (e : Session) (s : ComplaintJobSettings) (holidays : Text → List HolidayRow)
    (args : ComplaintTransitionArgs) (t : Tables)
    → IsCanonical e args.complaint_case_id
    → ((text : Text) → args.human_review_id ≡ some text → IsCanonical e text)
    → IsLedger sha t
    → (a : Applied) × (work_transition sha e s holidays args t ≡ some a)
      × IsLedger sha (tables_after t a)
unfolding work_transition
work_transition-IsLedger sha e s holidays args t canonical reviewed intact =
    elim (Bool-cases (is_request_review (kind_of args.transition_kind))) [
      | inl h ↦ rw h (
          calendar-EndsIntact sha e s holidays args t canonical reviewed intact
            (get_complaint_case e args.tenant_id args.complaint_case_id t))
      | inr h ↦
          rw h (
            applied-EndsIntact sha e s holidays args t canonical reviewed intact _ (utc_time 0)
              refl)
    ]
