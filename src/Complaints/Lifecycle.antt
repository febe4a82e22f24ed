-- ===== src/Complaints/Lifecycle.antt =====
-- The lives of a complaint case: which sequences of transitions the plan admits.
use vigia.Prelude.{
  sym, ap, ℕ, ◌+◌, ◌≤◌, ◌≡◌, refl, ◌↔◌, ◌⊎◌, inl, inr, List, [], ◌∷◌, some, true, arith, length,
}
use vigia.Complaints.{
  ComplaintCaseState, ComplaintTransitionKind, ComplaintTransitionPlan, allows_human_review_id,
  next_complaint_state, plan_complaint_transition,
}

-- The states that a case can reach from `s` by planned transitions, with the kinds taken.
pub data Reaches
    : ComplaintCaseState → List ComplaintTransitionKind → ComplaintCaseState → Type 0 where
  here : {s : ComplaintCaseState} → Reaches s [] s
  next :
      {s t : ComplaintCaseState} {ks : List ComplaintTransitionKind} (k : ComplaintTransitionKind)
      (p : ComplaintTransitionPlan)
      → plan_complaint_transition s k ≡ some p
      → Reaches p.to ks t
      → Reaches s (k ∷ ks) t

abbrev rank : ComplaintCaseState → ℕ
rank ComplaintCaseState.«open» = 0
rank ComplaintCaseState.awaiting_review = 1
rank ComplaintCaseState.escalated = 2
rank ComplaintCaseState.resolved = 2

rank_le : (s : ComplaintCaseState) → rank s ≤ 2
rank_le s = ground arith

plan-rank :
    (s : ComplaintCaseState) (k : ComplaintTransitionKind) (p : ComplaintTransitionPlan)
    → plan_complaint_transition s k ≡ some p
    → rank s + 1 ≤ rank p.to
unfolding plan_complaint_transition next_complaint_state
plan-rank s k p h = ground arith

Reaches-rank :
    {s t : ComplaintCaseState} {ks : List ComplaintTransitionKind}
    → Reaches s ks t
    → rank s + length ks ≤ rank t
Reaches-rank here = omega arith
Reaches-rank (next k p h later) = omega (arith, plan-rank _ k p h, Reaches-rank later)

plan-open :
    (k : ComplaintTransitionKind) (p : ComplaintTransitionPlan)
    → plan_complaint_transition ComplaintCaseState.«open» k ≡ some p
    → ((k ≡ ComplaintTransitionKind.request_review) × (p.to ≡ ComplaintCaseState.awaiting_review))
      ⊎ (p.to ≡ ComplaintCaseState.escalated)
unfolding plan_complaint_transition next_complaint_state
plan-open k p h = ground arith

plan-awaiting_review :
    (k : ComplaintTransitionKind) (p : ComplaintTransitionPlan)
    → plan_complaint_transition ComplaintCaseState.awaiting_review k ≡ some p
    → ((allows_human_review_id k ≡ true) × (p.to ≡ ComplaintCaseState.resolved))
      ⊎ (p.to ≡ ComplaintCaseState.escalated)
unfolding plan_complaint_transition next_complaint_state
plan-awaiting_review k p h = ground arith

-- A case that is settled takes no transition.
Reaches-settled :
    {s t : ComplaintCaseState} {ks : List ComplaintTransitionKind}
    → Reaches s ks t
    → 2 ≤ rank s
    → (ks ≡ []) × (s ≡ t)
Reaches-settled here h = (refl, refl)
Reaches-settled {t = t} (next k p e later) h =
    absurd (ground (arith, plan-rank _ k p e, Reaches-rank later))

Reaches-awaiting_review :
    {s : ComplaintCaseState} {ks : List ComplaintTransitionKind}
    → Reaches s ks ComplaintCaseState.resolved
    → s ≡ ComplaintCaseState.awaiting_review
    → (k : ComplaintTransitionKind) × (ks ≡ k ∷ []) × (allows_human_review_id k ≡ true)
Reaches-awaiting_review here e = absurd (ground arith)
Reaches-awaiting_review (next k p h later) e = elim (plan-awaiting_review k p (rw (sym e) h)) [
  | inl (human, to) ↦ (k, ap (λ ks. k ∷ ks) (Reaches-settled later (ground arith)).0, human)
  | inr to ↦ absurd (ground (arith, Reaches-settled later (ground arith)))
]

Reaches-open :
    {s : ComplaintCaseState} {ks : List ComplaintTransitionKind}
    → Reaches s ks ComplaintCaseState.resolved
    → s ≡ ComplaintCaseState.«open»
    → (k : ComplaintTransitionKind) × (ks ≡ ComplaintTransitionKind.request_review ∷ k ∷ [])
      × (allows_human_review_id k ≡ true)
Reaches-open here e = absurd (ground arith)
Reaches-open (next k p h later) e = elim (plan-open k p (rw (sym e) h)) [
  | inl (review, to) ↦
      let (human, last, allowed) = Reaches-awaiting_review later to in
      (human, cc (review, last), allowed)
  | inr to ↦ absurd (ground (arith, Reaches-settled later (ground arith)))
]

resolves :
    (k : ComplaintTransitionKind)
    → allows_human_review_id k ≡ true
    → plan_complaint_transition ComplaintCaseState.awaiting_review k
      ≡ some (record {
        from = ComplaintCaseState.awaiting_review;
        kind = k;
        to = ComplaintCaseState.resolved;
      })
unfolding plan_complaint_transition next_complaint_state
resolves k h = ground arith

reviews :
    plan_complaint_transition ComplaintCaseState.«open» ComplaintTransitionKind.request_review
    ≡ some (record {
      from = ComplaintCaseState.«open»;
      kind = ComplaintTransitionKind.request_review;
      to = ComplaintCaseState.awaiting_review;
    })
unfolding plan_complaint_transition next_complaint_state
reviews = refl

-- From the open state the planned transitions reach the resolved state along exactly these
-- sequences: a request for review, then one approval or override.
pub Reaches-resolved_iff :
    (ks : List ComplaintTransitionKind)
    → Reaches ComplaintCaseState.«open» ks ComplaintCaseState.resolved ↔ (
        (k : ComplaintTransitionKind) × (ks ≡ ComplaintTransitionKind.request_review ∷ k ∷ [])
        × (allows_human_review_id k ≡ true))
Reaches-resolved_iff ks = (
  λ r. Reaches-open r refl,
  λ (k, e, h).
      rw e (next ComplaintTransitionKind.request_review _ reviews (next k _ (resolves k h) here)),
)

-- From the open state at most two planned transitions are possible, whatever they are.
pub Reaches-length :
    (ks : List ComplaintTransitionKind) (t : ComplaintCaseState)
    → Reaches ComplaintCaseState.«open» ks t
    → length ks ≤ 2
Reaches-length ks t r = omega (arith, Reaches-rank r, rank_le t)
