-- ===== src/Guards/Pipeline.antt =====
-- What a passed evaluation means (guards/src/pipeline.ts).
use loop_engine.Prelude.{
  ℕ, suc, ◌≡◌, refl, ◌↔◌, inl, inr, Bool, true, false, ◌&&◌, not, Option, none, some, List, [], ◌∷◌,
  subst, if◌then◌else◌, In, get, filter, is_empty,
}
use loop_engine.Core.{GuardSpec, GuardSeverity, hard, soft, Outcome, ok, threw, bind}
use loop_engine.Guards.Types.{
  GuardContext, GuardResult, Evaluator, GuardEvaluationResult, GuardEvaluationSummary, is_hard,
}
use loop_engine.Guards.{
  GuardRegistry, evaluation_result, evaluated, evaluate_with, evaluate_one, evaluate_each,
  is_failure_of, summarize, evaluate_guards,
}

module _ (context : GuardContext) (registry : GuardRegistry) where
  -- The guard is registered and its evaluator answers `r`.
  abbrev pub Answers : ℕ → GuardSpec → GuardResult → Type 0
  Answers now g r =
      (evaluator : Evaluator) × (get g.id registry ≡ some evaluator)
      × (evaluator now context g.parameters ≡ some r)

  -- Every guard is registered and answers, and each hard one passes.
  abbrev pub AllAnswer : ℕ → List GuardSpec → Type 0
  AllAnswer now [] = Unit
  AllAnswer now (g ∷ gs) =
      ((r : GuardResult) × Answers now g r × (g.severity ≡ hard → r.passed ≡ true))
      × AllAnswer (suc now) gs

  evaluate_one-ok :
      (now : ℕ) (g : GuardSpec) (x : GuardEvaluationResult)
      → evaluate_one now g context registry ≡ ok x
      → (r : GuardResult) × Answers now g r × (x ≡ evaluation_result g r)
  unfolding evaluate_one evaluate_with evaluated
  evaluate_one-ok now g x = with_evaluator (get g.id registry) refl
    where
      with_result :
          (ev : Evaluator) (r : Option GuardResult)
          → get g.id registry ≡ some ev
          → ev now context g.parameters ≡ r
          → evaluated g r ≡ ok x
          → (r' : GuardResult) × Answers now g r' × (x ≡ evaluation_result g r')
      with_result ev none e e' h = cc
      with_result ev (some r) e e' h = (r, (ev, e, e'), cc)

      with_evaluator :
          (found : Option Evaluator)
          → get g.id registry ≡ found
          → evaluate_with now g context found ≡ ok x
          → (r' : GuardResult) × Answers now g r' × (x ≡ evaluation_result g r')
      with_evaluator none e h = cc
      with_evaluator (some ev) e h = with_result ev (ev now context g.parameters) e refl h

  evaluate_one-Answers :
      (now : ℕ) (g : GuardSpec) (r : GuardResult)
      → Answers now g r
      → evaluate_one now g context registry ≡ ok (evaluation_result g r)
  unfolding evaluate_one evaluate_with evaluated
  evaluate_one-Answers now g r (ev, e, e') = rw e (rw e' refl)

  abbrev NoHard : List GuardEvaluationResult → Type 0
  NoHard results = is_empty (filter (is_failure_of hard) results) ≡ true

  -- One result more.
  hard-passed :
      (g : GuardSpec) (r : GuardResult) (rest : List GuardEvaluationResult)
      → NoHard (evaluation_result g r ∷ rest)
        ↔ ((g.severity ≡ hard → r.passed ≡ true) × NoHard rest)
  unfolding filter is_failure_of evaluation_result
  hard-passed g r rest = go r.passed g.severity
    where
      go :
          (b : Bool) (s : GuardSeverity)
          → (is_empty (
                if not b && is_hard s
                then evaluation_result g r ∷ filter (is_failure_of hard) rest
                else filter (is_failure_of hard) rest)
              ≡ true)
            ↔ ((s ≡ hard → b ≡ true) × NoHard rest)
      go true hard = (λ h. (λ _. refl, h), λ p. p.1)
      go true soft = (λ h. (λ _. refl, h), λ p. p.1)
      go false soft = (λ h. (λ e. cc, h), λ p. p.1)
      go false hard = (λ h. cc, λ p. cc (p.0 refl))

  abbrev RestSound : ℕ → List GuardSpec → Type 0
  RestSound now gs =
      (rs : List GuardEvaluationResult)
      → evaluate_each now gs context registry ≡ ok rs
      → NoHard rs
      → AllAnswer now gs

  -- The rest of the list, after the first guard gave `x`.
  rest_sound :
      (now : ℕ) (g : GuardSpec) (gs : List GuardSpec) (x : GuardEvaluationResult)
      (rest : Outcome (List GuardEvaluationResult)) (results : List GuardEvaluationResult)
      → RestSound (suc now) gs
      → evaluate_one now g context registry ≡ ok x
      → evaluate_each (suc now) gs context registry ≡ rest
      → bind rest (λ results'. ok (x ∷ results')) ≡ ok results
      → NoHard results
      → AllAnswer now (g ∷ gs)
  rest_sound now g gs x (threw e) results ih ex er h none_hard = cc
  rest_sound now g gs x (ok rs) results ih ex er h none_hard =
      let (r, answers, shape) = evaluate_one-ok now g x ex in
      let same : results ≡ evaluation_result g r ∷ rs = cc in
      let (passes, none_left) = (hard-passed g r rs).0 (subst NoHard same none_hard) in
      ((r, answers, passes), ih rs er none_left)

  each_sound : (now : ℕ) (gs : List GuardSpec) → RestSound now gs
  unfolding evaluate_each
  each_sound now [] results h none_hard = tt
  each_sound now (g ∷ gs) results h none_hard =
      go (each_sound (suc now) gs) (evaluate_one now g context registry) refl h
    where
      go :
          RestSound (suc now) gs
          → (x : Outcome GuardEvaluationResult) → evaluate_one now g context registry ≡ x
          → bind x (λ y. bind (evaluate_each (suc now) gs context registry) (λ rs. ok (y ∷ rs)))
            ≡ ok results
          → AllAnswer now (g ∷ gs)
      go ih (threw e) ex h' = cc
      go ih (ok x) ex h' = rest_sound now g gs x _ results ih ex refl h' none_hard

  each_complete :
      (now : ℕ) (gs : List GuardSpec)
      → AllAnswer now gs
      → (results : List GuardEvaluationResult) × (evaluate_each now gs context registry
          ≡ ok results)
        × NoHard results
  unfolding evaluate_each filter
  each_complete now [] h = ([], refl, refl)
  each_complete now (g ∷ gs) ((r, answers, passes), h) =
      let (rs, e, none_hard) = each_complete (suc now) gs h in
      (
        evaluation_result g r ∷ rs,
        rw (evaluate_one-Answers now g r answers) (rw e refl),
        (hard-passed g r rs).1 (passes, none_hard),
      )

  -- Guards are evaluated and all hard ones pass exactly when every guard of the list is registered
  -- and its evaluator answers, and the answer to each hard guard is a pass.
  pub evaluate_guards_iff :
      (now : ℕ) (gs : List GuardSpec)
      → ((summary : GuardEvaluationSummary) × (evaluate_guards now gs context registry ≡ ok summary)
          × (summary.all_passed ≡ true))
        ↔ AllAnswer now gs
  unfolding evaluate_guards summarize
  evaluate_guards_iff now gs = (
    λ (summary, e, passed). go summary (evaluate_each now gs context registry) refl e passed,
    λ h.
        let (results, e, none_hard) = each_complete now gs h in
        (summarize results, rw e refl, none_hard),
  )
    where
      go :
          (summary : GuardEvaluationSummary) (x : Outcome (List GuardEvaluationResult))
          → evaluate_each now gs context registry ≡ x
          → bind x (λ results. ok (summarize results)) ≡ ok summary
          → summary.all_passed ≡ true
          → AllAnswer now gs
      go summary (threw e) ex h passed = cc
      go summary (ok results) ex h passed =
          let same : summary ≡ summarize results = cc in
          each_sound now gs results ex
            (subst (λ (s : GuardEvaluationSummary). s.all_passed ≡ true) same passed)

  pub AllAnswer-In :
      (now : ℕ) (gs : List GuardSpec) (g : GuardSpec)
      → AllAnswer now gs
      → In g gs
      → (moment : ℕ) × (r : GuardResult) × Answers moment g r
        × (g.severity ≡ hard → r.passed ≡ true)
  AllAnswer-In now [] g _ m = elim m [ ]
  AllAnswer-In now (x ∷ gs) g ((r, answers, passes), h) (inl e) =
      subst
        (λ g'.
          (moment : ℕ) × (r' : GuardResult) × Answers moment g' r'
          × (g'.severity ≡ hard → r'.passed ≡ true))
        e (now, r, answers, passes)
  AllAnswer-In now (x ∷ gs) g (_, h) (inr m) = AllAnswer-In (suc now) gs g h m
