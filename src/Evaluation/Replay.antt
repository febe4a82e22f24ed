-- ===== src/Evaluation/Replay.antt =====
-- `ReEvaluateInteraction` against its lookups and against `EvaluateInteraction`.
use vigia.Time.{utc_time}
use vigia.Evaluation.Folding.{run_detectors_and_judges}
use vigia.Prelude.{
  String, none, some, ap, sym, List, [], ◌∷◌, length, is_empty, true, ◌≤◌, ◌<◌, ◌↔◌, ◌≡◌, refl, ◌⊎◌,
  inl, inr, arith, Option-cases,
}
use vigia.Evaluation.{Service, Evaluation, ReEvaluationInput, Lookup}
use vigia.Evaluation.Run.{misconfigured, re_evaluate_interaction, with_interaction, re_evaluation}

Lookup-cases :
    {A : Type 0} (l : Lookup A)
    → ((x : String) × (l ≡ Lookup.error x))
      ⊎ (l ≡ Lookup.missing)
      ⊎ ((a : A) × (l ≡ Lookup.found a))
Lookup-cases (Lookup.error x) = inl (x, refl)
Lookup-cases Lookup.missing = inr (inl refl)
Lookup-cases (Lookup.found a) = inr (inr (a, refl))

is_empty-length {ℓ} : {A : Type ℓ} (xs : List A) → (is_empty xs ≡ true) ↔ (length xs ≡ 0)
is_empty-length [] = ground arith
is_empty-length (x ∷ xs) = ground arith

-- The checks pass exactly for a detector at least and a judge at most.
misconfigured-none_iff :
    (s : Service) → (misconfigured s ≡ none) ↔ ((0 < length s.detectors) × (length s.judges ≤ 1))
unfolding misconfigured
misconfigured-none_iff s = ground (arith, is_empty-length s.detectors)

module _ (s : Service) (tenant interaction_id bundle_id : String) where
  -- What a successful re-evaluation rests on, and what it gives.
  pub record IsReplay (e : Evaluation) : Type 0 where
    pub interaction : ReEvaluationInput
    pub version : String
    pub detected : 0 < length s.detectors
    pub judged : length s.judges ≤ 1
    pub interaction_found : s.interactions tenant interaction_id ≡ Lookup.found interaction
    pub bundle_found : s.bundles tenant bundle_id ≡ Lookup.found version
    pub id : e.id ≡ ""
    pub tenant_id : e.tenant_id ≡ interaction.tenant_id
    pub interaction_event_id : e.interaction_event_id ≡ interaction_id
    pub overall_outcome :
        e.overall_outcome
        ≡ (run_detectors_and_judges s interaction.interaction
            interaction.utterances).overall_outcome
    pub policy_bundle_version : e.policy_bundle_version ≡ version
    pub policy_bundle_id : e.policy_bundle_id ≡ some bundle_id
    pub created_at : e.created_at ≡ utc_time 0

  re_evaluation-IsReplay :
      (e : Evaluation) (r : ReEvaluationInput) (v : String)
      → misconfigured s ≡ none
      → s.interactions tenant interaction_id ≡ Lookup.found r
      → s.bundles tenant bundle_id ≡ Lookup.found v
      → re_evaluation s interaction_id bundle_id r v ≡ e
      → IsReplay e
  re_evaluation-IsReplay e r v m l k same =
      let (detected, judged) = (misconfigured-none_iff s).0 m in
      record {
        interaction = r;
        version = v;
        detected = detected;
        judged = judged;
        interaction_found = l;
        bundle_found = k;
        id = ap (λ (x : Evaluation). x.id) (sym same);
        tenant_id = ap (λ (x : Evaluation). x.tenant_id) (sym same);
        interaction_event_id = ap (λ (x : Evaluation). x.interaction_event_id) (sym same);
        overall_outcome = ap (λ (x : Evaluation). x.overall_outcome) (sym same);
        policy_bundle_version = ap (λ (x : Evaluation). x.policy_bundle_version) (sym same);
        policy_bundle_id = ap (λ (x : Evaluation). x.policy_bundle_id) (sym same);
        created_at = ap (λ (x : Evaluation). x.created_at) (sym same);
      }

  IsReplay-same :
      (e : Evaluation) (r : IsReplay e)
      → re_evaluation s interaction_id bundle_id r.interaction r.version ≡ e
  IsReplay-same e r = λ i. record {
    id = sym r.id i;
    tenant_id = sym r.tenant_id i;
    interaction_event_id = sym r.interaction_event_id i;
    overall_outcome = sym r.overall_outcome i;
    policy_bundle_version = sym r.policy_bundle_version i;
    policy_bundle_id = sym r.policy_bundle_id i;
    created_at = sym r.created_at i;
  }

  -- A re-evaluation succeeds exactly when the service has a detector at least and a judge at most, and both
  -- the interaction and the bundle are found under the caller's tenant; it then gives the overall outcome
  -- of the detectors and judges on that interaction, under its tenant, stamped with that bundle and its
  -- version, with no id and no time of its own.
  pub re_evaluate-IsReplay_iff :
      (e : Evaluation)
      → (re_evaluate_interaction s tenant interaction_id bundle_id ≡ inr e) ↔ IsReplay e
  unfolding re_evaluate_interaction with_interaction
  re_evaluate-IsReplay_iff e = (
    λ h. elim (Option-cases (misconfigured s)) [
      | inr (x, m) ↦ ground arith
      | inl m ↦ elim (Lookup-cases (s.interactions tenant interaction_id)) [
        | inl (x, l) ↦ ground arith
        | inr (inl l) ↦ ground arith
        | inr (inr (r, l)) ↦ elim (Lookup-cases (s.bundles tenant bundle_id)) [
          | inl (x, k) ↦ ground arith
          | inr (inl k) ↦ ground arith
          | inr (inr (v, k)) ↦ re_evaluation-IsReplay e r v m l k (ground arith)
        ]
      ]
    ],
    λ r.
        let m = (misconfigured-none_iff s).1 (r.detected, r.judged) in
        ground (arith, m, r.interaction_found, r.bundle_found, IsReplay-same e r),
  )
