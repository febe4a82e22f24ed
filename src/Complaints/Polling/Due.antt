-- ===== src/Complaints/Polling/Due.antt =====
-- The cases past their deadline that a poll reports (jobs.go, complaint_store.go).
use mathlib.Core.Path.{subst}
use mathlib.Core.List.{Memᴰ}
use mathlib.Core.List.Memᴰ
use vigia.Prelude.{
  ℕ, ◌≤◌, ◌≡◌, refl, sym, ap, ◌∙◌, inl, inr, true, List, [], ◌∷◌, none, some, filter, length,
  some_injective,
}
use vigia.Time.{Time, utc_micros}
use vigia.Ledger.Encoding.{Text}
use vigia.Complaints.{ComplaintTransitionKind, kind_text}
use vigia.Complaints.Tables.{CaseRow, Tables}
use vigia.Complaints.Cases.{is_due, order_by, list_sla_due_complaint_cases}
use vigia.Complaints.Jobs.{
  ComplaintCase, ComplaintTransitionArgs, Enqueuer, ComplaintJobSettings, now_of, poll_limit_of,
  transition_args, store_of, Polled, poll,
}
use vigia.Complaints.Polling.Listed.{take-whole, filter-Mem, order-Mem, length-order, map-Mem}
use vigia.Prelude.Membership.{append-Mem}
use vigia.Complaints.Polling.{jobs_of_items, tenant_jobs, all_jobs, poll-jobs}

-- The job that reports a case of a tenant as past its deadline.
abbrev pub breach_job : Text → CaseRow → ComplaintTransitionArgs
breach_job tenant c = record {
  tenant_id = tenant;
  complaint_case_id = c.id;
  transition_kind = kind_text ComplaintTransitionKind.sla_breach;
  human_review_id = none;
}

module _ (kind : ComplaintTransitionKind) where
  item-job :
      (item : ComplaintCase) (items : List ComplaintCase) (a : ComplaintTransitionArgs)
      → transition_args kind item ≡ some a
      → Memᴰ item items
      → Memᴰ a (jobs_of_items (transition_args kind) items)
  item-job item [] a job m = absurd (Memᴰ.not-nil m)
  item-job item (other ∷ items) a job (Memᴰ.head same) =
      Memᴰ.head (some_injective _ _ (sym job ∙ ap (transition_args kind) same))
  item-job item (other ∷ items) a job (Memᴰ.tail m) = Memᴰ.tail (item-job item items a job m)

tenant-job :
    (jobs : Text → List ComplaintTransitionArgs) (tenant : Text) (tenants : List Text)
    (a : ComplaintTransitionArgs)
    → Memᴰ a (jobs tenant)
    → Memᴰ tenant tenants
    → Memᴰ a (all_jobs jobs tenants)
tenant-job jobs tenant [] a here m = absurd (Memᴰ.not-nil m)
tenant-job jobs tenant (other ∷ tenants) a here (Memᴰ.head same) =
    append-Mem a (jobs other) _ (inl (subst (λ t. Memᴰ a (jobs t)) same here))
tenant-job jobs tenant (other ∷ tenants) a here (Memᴰ.tail m) =
    append-Mem a (jobs other) _ (inr (tenant-job jobs tenant tenants a here m))

module _ (at : Time) (limit : ℕ) (c : CaseRow) (t : Tables) where
  -- A case past its deadline is listed, where the limit is not exceeded.
  due-listed :
      Memᴰ c t.cases
      → is_due (utc_micros at) c ≡ true
      → length (filter (is_due (utc_micros at)) t.cases) ≤ limit
      → Memᴰ c (list_sla_due_complaint_cases at limit t)
  due-listed member due few =
      let found = filter (is_due (utc_micros at)) t.cases in
      let order = order_by (λ (x : CaseRow). x.sla_due_at) found in
      let all_fit : length order ≤ limit =
        subst (λ n. n ≤ limit) (sym (length-order (λ (x : CaseRow). x.sla_due_at) found)) few in
      subst (λ xs. Memᴰ c xs) (sym (take-whole limit order all_fit))
        (order-Mem (λ (x : CaseRow). x.sla_due_at) c found (filter-Mem _ c t.cases due member))

  due-job :
      (tenants : List Text) (tables : Text → Tables) (tenant : Text)
      → tables tenant ≡ t
      → Memᴰ c (list_sla_due_complaint_cases at limit (tables tenant))
      → Memᴰ (breach_job tenant c) (tenant_jobs (store_of tenants tables) at limit tenant)
  due-job tenants tables tenant e m = append-Mem _ _ _ (
      inr (
        append-Mem _ _ _ (
          inl (
            item-job ComplaintTransitionKind.sla_breach
              (record { tenant_id = tenant; case_row = c }) _ _ refl (map-Mem _ c _ m)))))

-- Where no more cases of a tenant are past their deadline than the limit of a poll, the poll hands on the
-- breach of each of them.
pub poll-breach_job :
    (tenants : List Text) (tables : Text → Tables) (enqueuer : Enqueuer) (s : ComplaintJobSettings)
    (tenant : Text) (c : CaseRow)
    → Memᴰ tenant tenants
    → Memᴰ c (tables tenant).cases
    → is_due (utc_micros (now_of s)) c ≡ true
    → length (filter (is_due (utc_micros (now_of s))) (tables tenant).cases) ≤ poll_limit_of s
    → (p : Polled) × (poll (store_of tenants tables) enqueuer s ≡ some p)
      × Memᴰ (breach_job tenant c) p.jobs
poll-breach_job tenants tables enqueuer s tenant c listed member due few =
    let (p, done, jobs) = poll-jobs (store_of tenants tables) enqueuer s tenants refl in
    let t = tables tenant in
    let reported =
      due-job (now_of s) (poll_limit_of s) c t tenants tables tenant refl
        (due-listed (now_of s) (poll_limit_of s) c t member due few) in
    (
      p,
      done,
      subst (λ xs. Memᴰ (breach_job tenant c) xs) (sym jobs)
          (tenant-job _ tenant tenants _ reported listed),
    )
