-- ===== src/Validator/Valid.antt =====
-- The validation of a definition against a description of the valid ones
-- (loop-definition/src/validator.ts).
use loop_engine.Prelude.{
  append_nil_iff, ◌≡◌, refl, sym, ap, subst, ◌↔◌, inl, inr, true, false, ◌||◌, not, String, Option,
  none, some, List, [], ◌∷◌, map, arith, In, any, contains, contains_iff, is_empty, ||-true,
  true_||, if◌then◌else◌,
}
use loop_engine.Core.{LoopDefinition, TransitionSpec, StateSpec, OutcomeSpec, BusinessMetric}
use loop_engine.Validator.{
  validate_loop_definition, completion_errors, lacks_metrics, terminal_states, has_path_to_terminal,
  report, no_terminal_state, loop_not_completable, states, whole,
}
use loop_engine.Validator.Graph.{PathIn, IsTerminal, terminal_states_iff, has_path_to_terminal_iff}
use loop_engine.Validator.Checks.{report_iff, IsTransition, transition_errors_iff}
use loop_engine.Validator.Cycles.{NoCycle, cycles_iff}

abbrev pub declared : LoopDefinition → List String
declared d = map (λ (s : StateSpec). s.id) d.states

abbrev HasMetrics : Option OutcomeSpec → Type 0
HasMetrics none = Unit
HasMetrics (some o) = ¬ (o.business_metrics ≡ [])

-- A valid definition: its states are declared and guards are distinct in each transition; a
-- transition enters a terminal state and a path from the initial state ends in one; no signal is led
-- back; an outcome has metrics.
pub record IsValid (d : LoopDefinition) : Type 0 where
  pub starts_declared : In d.initial_state (declared d)
  pub transitions : (t : TransitionSpec) → In t d.transitions → IsTransition (declared d) t
  pub entered : (t : TransitionSpec) × In t d.transitions × IsTerminal d t.to
  pub completable : (s : String) × PathIn d d.initial_state s × IsTerminal d s
  pub no_cycle : NoCycle d.transitions
  pub metrics : HasMetrics d.outcome

lacks_metrics_iff : (o : Option OutcomeSpec) → (lacks_metrics o ≡ false) ↔ HasMetrics o
unfolding lacks_metrics
lacks_metrics_iff none = (λ h. tt, λ h. refl)
lacks_metrics_iff (some o) = go o.business_metrics
  where
    go : (ms : List BusinessMetric) → (is_empty ms ≡ false) ↔ (¬ (ms ≡ []))
    go [] = (λ h e. cc, λ h. absurd (h refl))
    go (m ∷ ms) = (λ h e. cc, λ h. refl)

any_entered :
    (ks : List String) (ts : List TransitionSpec)
    → (any (λ (t : TransitionSpec). contains t.to ks) ts ≡ true)
      ↔ ((t : TransitionSpec) × In t ts × In t.to ks)
unfolding any
any_entered ks [] = (λ h. cc, λ (t, m, e). elim m [ ])
any_entered ks (t ∷ ts) = (
  λ h. elim (||-true _ _ h) [
    | inl here ↦ (t, inl refl, (contains_iff t.to ks).0 here)
    | inr rest ↦ let (t', m, e) = (any_entered ks ts).0 rest in (t', inr m, e)
  ],
  λ (t', m, e). elim m [
    | inl same ↦
        ground (
          arith,
          (contains_iff t.to ks).1 (subst (λ (x : TransitionSpec). In x.to ks) (sym same) e),
        )
    | inr m' ↦ true_|| _ ((any_entered ks ts).1 (t', m', e))
  ],
)

completion_errors_iff :
    (d : LoopDefinition)
    → (completion_errors d (terminal_states d.states) ≡ []) ↔ (
        ((t : TransitionSpec) × In t d.transitions × In t.to (terminal_states d.states))
        × (has_path_to_terminal d (terminal_states d.states) ≡ true))
unfolding completion_errors
completion_errors_iff d = go (terminal_states d.states)
  where
    go :
        (ks : List String)
        → ((if is_empty ks
              then report true no_terminal_state states
              else report
                  (not (any (λ (t : TransitionSpec). contains t.to ks) d.transitions)
                    || not (has_path_to_terminal d ks))
                  loop_not_completable
                  whole)
            ≡ [])
          ↔ (((t : TransitionSpec) × In t d.transitions × In t.to ks)
              × (has_path_to_terminal d ks ≡ true))
    go [] = (λ h. cc, λ ((t, m, e), h). elim e [ ])
    go (k ∷ ks) =
        let checked =
          report_iff
            (not (any (λ (t : TransitionSpec). contains t.to (k ∷ ks)) d.transitions)
              || not (has_path_to_terminal d (k ∷ ks)))
            loop_not_completable whole in
        let found = any_entered (k ∷ ks) d.transitions in
        (
          λ h. let e = checked.0 h in (found.0 (ground (arith, e)), ground (arith, e)),
          λ (m, h). checked.1 (ground (arith, found.1 m, h)),
        )

-- The validator reports no error exactly for the valid definitions.
pub validate_loop_definition_iff :
    (d : LoopDefinition) → (validate_loop_definition d ≡ []) ↔ IsValid d
unfolding validate_loop_definition
validate_loop_definition_iff d = (
  λ h.
      let (e1, h1) = (append_nil_iff _ _).0 h in
      let (e2, h2) = (append_nil_iff _ _).0 h1 in
      let (e3, h3) = (append_nil_iff _ _).0 h2 in
      let (e4, e5) = (append_nil_iff _ _).0 h3 in
      let ((t, m, last), path) = (completion_errors_iff d).0 e3 in
      let e1' = (report_iff _ _ _).0 e1 in
      record {
        starts_declared = (contains_iff d.initial_state (declared d)).0 (ground (arith, e1'));
        transitions = (transition_errors_iff (declared d) 0 d.transitions).0 e2;
        entered = (t, m, (terminal_states_iff d.states t.to).0 last);
        completable = (has_path_to_terminal_iff d).0 path;
        no_cycle = (cycles_iff d.transitions).0 e4;
        metrics = (lacks_metrics_iff d.outcome).0 ((report_iff _ _ _).0 e5);
      },
  λ valid.
      let (t, m, last) = valid.entered in
      (append_nil_iff _ _).1 (
        (report_iff _ _ _).1
            (ap not ((contains_iff d.initial_state (declared d)).1 valid.starts_declared)),
        (append_nil_iff _ _).1 (
          (transition_errors_iff (declared d) 0 d.transitions).1 valid.transitions,
          (append_nil_iff _ _).1 (
            (completion_errors_iff d).1 (
              (t, m, (terminal_states_iff d.states t.to).1 last),
              (has_path_to_terminal_iff d).1 valid.completable,
            ),
            (append_nil_iff _ _).1 (
              (cycles_iff d.transitions).1 valid.no_cycle,
              (report_iff _ _ _).1 ((lacks_metrics_iff d.outcome).1 valid.metrics),
            ),
          ),
        ),
      ),
)
