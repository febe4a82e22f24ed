-- ===== src/Evaluation/Outcomes.antt =====
-- What an evaluation's header and rows say of the detectors and the judges.
use vigia.Prelude.{
  String, Bool, true, false, ◌||◌, ◌&&◌, List, [], ◌∷◌, ◌++◌, Option, none, some, for_each, any,
  map, if◌then◌else◌, ◌≡◌, refl, ap, ◌∙◌, sym, is_some, arith, for_each_view, Bool-cases, inl, inr,
}
use mathlib.Core.List.{map-append, append_assoc, append-nil}
use vigia.Detection as Detection
use vigia.Detection.{Interaction, Rationale}
use vigia.Judge.{JudgeInput, JudgeResult, JudgeError, Utterance}
use vigia.Evaluation.{NamedDetector, NamedJudge, DetectorJudgeRun, Service}
use vigia.Evaluation.Folding.{
  run_detector, by_outcome, run_judge, by_reply, is_judge_block, run_detectors_and_judges, no_run,
}

-- A detector clears an interaction when it passes or warns.
abbrev pub is_clearing : Detection.Outcome → Bool
is_clearing Detection.Outcome.pass = true
is_clearing Detection.Outcome.warn = true
is_clearing _ = false

abbrev pub is_failing : Interaction → NamedDetector → Bool
is_failing i nd = if is_clearing (nd.detector i).outcome then false else true

abbrev pub is_detector_block : Detection.Outcome → Bool
is_detector_block Detection.Outcome.block = true
is_detector_block _ = false

-- A detector that mandates human review blocks.
abbrev pub is_reviewed : Interaction → NamedDetector → Bool
is_reviewed i nd = is_detector_block (nd.detector i).outcome && nd.requires_hitl

-- A judge fails or blocks.
abbrev pub is_judge_failing : JudgeInput → NamedJudge → Bool
is_judge_failing input nj =
    is_some (nj.judge input).error || is_judge_block (nj.judge input).result.outcome

abbrev pub judge_input : Service → List Utterance → JudgeInput
judge_input s us = record { utterances = us; rubric = s.rubric }

abbrev fail_if : Bool → String → String
fail_if b before = if b then "fail" else before

by_outcome-overall :
    (nd : NamedDetector) (run : DetectorJudgeRun) (r : Rationale) (o : Detection.Outcome)
    → (by_outcome nd run r o).overall_outcome
      ≡ fail_if (if is_clearing o then false else true) run.overall_outcome
unfolding by_outcome
by_outcome-overall nd run r Detection.Outcome.pass = refl
by_outcome-overall nd run r Detection.Outcome.warn = refl
by_outcome-overall nd run r Detection.Outcome.block = refl
by_outcome-overall nd run r (Detection.Outcome.other o) = refl

by_outcome-hitl :
    (nd : NamedDetector) (run : DetectorJudgeRun) (r : Rationale) (o : Detection.Outcome)
    → (by_outcome nd run r o).requires_hitl
      ≡ (run.requires_hitl || is_detector_block o && nd.requires_hitl)
unfolding by_outcome
by_outcome-hitl nd run r Detection.Outcome.pass = ground arith
by_outcome-hitl nd run r Detection.Outcome.warn = ground arith
by_outcome-hitl nd run r Detection.Outcome.block = refl
by_outcome-hitl nd run r (Detection.Outcome.other o) = ground arith

by_outcome-codes :
    (nd : NamedDetector) (run : DetectorJudgeRun) (r : Rationale) (o : Detection.Outcome)
    → map (λ x. x.detector_code) (by_outcome nd run r o).results
      ≡ map (λ x. x.detector_code) run.results ++ nd.code ∷ []
unfolding by_outcome
by_outcome-codes nd run r Detection.Outcome.pass = map-append (λ x. x.detector_code) run.results _
by_outcome-codes nd run r Detection.Outcome.warn = map-append (λ x. x.detector_code) run.results _
by_outcome-codes nd run r Detection.Outcome.block = map-append (λ x. x.detector_code) run.results _
by_outcome-codes nd run r (Detection.Outcome.other o) =
    map-append (λ x. x.detector_code) run.results _

by_reply-overall :
    (code : String) (run : DetectorJudgeRun) (r : JudgeResult) (e : Option JudgeError)
    → (by_reply code run r e).overall_outcome
      ≡ fail_if (is_some e || is_judge_block r.outcome) run.overall_outcome
unfolding by_reply
by_reply-overall code run r (some e) = refl
by_reply-overall code run r none = ground arith

by_reply-hitl :
    (code : String) (run : DetectorJudgeRun) (r : JudgeResult) (e : Option JudgeError)
    → (by_reply code run r e).requires_hitl
      ≡ (run.requires_hitl || (is_some e || is_judge_block r.outcome))
unfolding by_reply
by_reply-hitl code run r (some e) = ground arith
by_reply-hitl code run r none = ground arith

by_reply-codes :
    (code : String) (run : DetectorJudgeRun) (r : JudgeResult) (e : Option JudgeError)
    → map (λ x. x.detector_code) (by_reply code run r e).results
      ≡ map (λ x. x.detector_code) run.results ++ code ∷ []
unfolding by_reply
by_reply-codes code run r (some e) = map-append (λ x. x.detector_code) run.results _
by_reply-codes code run r none = elim (Bool-cases (is_judge_block r.outcome)) [
  | inl e ↦ rw e (map-append (λ x. x.detector_code) run.results _)
  | inr e ↦ rw e (map-append (λ x. x.detector_code) run.results _)
]

module _ {A : Type 0} where
  for_each-fail_if :
      (p : A → Bool) (before : String) (xs : List A)
      → for_each (λ b x. fail_if (p x) b) before xs ≡ fail_if (any p xs) before
  for_each-fail_if p before [] = refl
  for_each-fail_if p before (x ∷ xs) = for_each-fail_if p (fail_if (p x) before) xs ∙ ground arith

  for_each-or :
      (p : A → Bool) (before : Bool) (xs : List A)
      → for_each (λ b x. b || p x) before xs ≡ (before || any p xs)
  for_each-or p before [] = ground arith
  for_each-or p before (x ∷ xs) = for_each-or p (before || p x) xs ∙ ground arith

  for_each-map :
      (f : A → String) (before : List String) (xs : List A)
      → for_each (λ b x. b ++ f x ∷ []) before xs ≡ before ++ map f xs
  for_each-map f before [] = sym (append-nil before)
  for_each-map f before (x ∷ xs) =
      for_each-map f (before ++ f x ∷ []) xs ∙ append_assoc before (f x ∷ []) (map f xs)

module _ (s : Service) (i : Interaction) (us : List Utterance) where
  -- The header's outcome is fail exactly when some detector neither passes nor warns, or some judge
  -- returns an error or blocks; it is pass otherwise.
  pub run-overall_outcome : (run_detectors_and_judges s i us).overall_outcome ≡ (
      if any (is_failing i) s.detectors || any (is_judge_failing (judge_input s us)) s.judges
      then "fail"
      else "pass")
  unfolding run_detectors_and_judges run_detector run_judge
  run-overall_outcome =
      for_each_view (λ r. r.overall_outcome) (run_judge (judge_input s us)) _
        (λ run nj. by_reply-overall nj.code _ _ _) _ s.judges
      ∙ for_each-fail_if (is_judge_failing (judge_input s us)) _ s.judges
      ∙ ap (fail_if (any (is_judge_failing (judge_input s us)) s.judges)) (
          for_each_view (λ r. r.overall_outcome) (run_detector i) _
            (λ run nd. by_outcome-overall nd run _ _) no_run s.detectors
          ∙ for_each-fail_if (is_failing i) "pass" s.detectors)
      ∙ ground arith

  -- Human review is required exactly when a detector that mandates it blocks, or some judge returns
  -- an error or blocks.
  pub run-requires_hitl :
      (run_detectors_and_judges s i us).requires_hitl
      ≡ (any (is_reviewed i) s.detectors || any (is_judge_failing (judge_input s us)) s.judges)
  unfolding run_detectors_and_judges run_detector run_judge
  run-requires_hitl =
      for_each_view (λ r. r.requires_hitl) (run_judge (judge_input s us)) _
        (λ run nj. by_reply-hitl nj.code _ _ _) _ s.judges
      ∙ for_each-or (is_judge_failing (judge_input s us)) _ s.judges
      ∙ ap (λ b. b || any (is_judge_failing (judge_input s us)) s.judges)
          (for_each_view (λ r. r.requires_hitl) (run_detector i) _
              (λ run nd. by_outcome-hitl nd run _ _) no_run s.detectors
            ∙ for_each-or (is_reviewed i) false s.detectors)

  -- There is one row for each detector and then one for each judge, in order.
  pub run-codes :
      map (λ x. x.detector_code) (run_detectors_and_judges s i us).results
      ≡ map (λ x. x.code) s.detectors ++ map (λ x. x.code) s.judges
  unfolding run_detectors_and_judges run_detector run_judge
  run-codes =
      for_each_view (λ r. map (λ x. x.detector_code) r.results) (run_judge (judge_input s us)) _
        (λ run nj. by_reply-codes nj.code _ _ _) _ s.judges
      ∙ for_each-map (λ x. x.code) _ s.judges
      ∙ ap (λ l. l ++ map (λ x. x.code) s.judges)
          (for_each_view (λ r. map (λ x. x.detector_code) r.results) (run_detector i) _
              (λ run nd. by_outcome-codes nd run _ _) no_run s.detectors
            ∙ for_each-map (λ x. x.code) [] s.detectors)
