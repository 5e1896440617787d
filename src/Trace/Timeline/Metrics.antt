-- ===== src/Trace/Timeline/Metrics.antt =====
-- `computeMetricsFromTrace` (packages/observability/src/trace-timeline.ts).
use Prim.Native.Char.{code}
use loop_engine.Prelude.{
  ℕ, suc, ◌≡◌, refl, ap, ◌∙◌, Bool, true, false, ◌&&◌, ◌||◌, not, String, Option, none, some, List,
  [], ◌∷◌, any, map, length, eqb, arith, if◌then◌else◌, ◌==◌,
}
use loop_engine.Core.{
  Platform, Number, number_of_int, ActorType, human, automation, ai_agent, system,
}
use loop_engine.Trace.{
  TraceRecord, GuardTraceEntry, TraceEventType, started, attempted, guard_evaluated,
  transition_completed, blocked_transition, terminal, sort_by_sequence,
}
use loop_engine.Trace.Sums.{total, total-sort, total-same}
use loop_engine.Trace.Memory.{one_if, same_type}
use loop_engine.Trace.Timeline.{
  TimelineTransition, TraceLoopTimeline, TraceLoopMetrics, TimelineGuard, guard_result_of,
  guard_results_from_trace, actor_type_text, is_step, transition_of, transitions_of,
  timeline_of_sorted, build_timeline_from_trace,
}

unfoldable pub starts_with : (word text : String) → Bool
starts_with String.[] text = true
starts_with (String.◌∷◌ w word) String.[] = false
starts_with (String.◌∷◌ w word) (String.◌∷◌ c text) = eqb (code w) (code c) && starts_with word text

-- `text.includes(word)`.
unfoldable pub includes : (word text : String) → Bool
includes word String.[] = starts_with word ""
includes word (String.◌∷◌ c text) = starts_with word (String.◌∷◌ c text) || includes word text

unfoldable pub last_target : List TimelineTransition → Option String
last_target [] = none
last_target (t ∷ []) = some t.to
last_target (t ∷ u ∷ ts) = last_target (u ∷ ts)

unfoldable pub any_failed : TimelineTransition → Bool
any_failed t = any (λ g. not g.passed) t.guard_results

abbrev pub count : (TimelineTransition → Bool) → List TimelineTransition → ℕ
count test [] = 0
count test (t ∷ ts) = let rest = count test ts in if test t then suc rest else rest

-- A record that ends an attempt to move.
abbrev pub ends_attempt : TraceEventType → Bool
ends_attempt transition_completed = true
ends_attempt blocked_transition = true
ends_attempt _ = false

abbrev pub failed_guard : List GuardTraceEntry → Bool
failed_guard [] = false
failed_guard (g ∷ gs) = let rest = failed_guard gs in if g.passed then rest else true

abbrev pub by_human : ActorType → Bool
by_human human = true
by_human _ = false

module _ (p : Platform) where
  unfoldable pub is_human : TimelineTransition → Bool
  is_human t =
      let at = p.to_lower t.actor_type in includes "human" at || (at == "user" || at == "approver")

  unfoldable pub duration_between : String → Option String → Option Number
  duration_between started_at none = none
  duration_between started_at (some completed_at) = elim (p.parse_date started_at) [
    | none ↦ none
    | some s ↦ elim (p.parse_date completed_at) [
      | none ↦ none
      | some c ↦ some (p.sub_number (number_of_int c) (number_of_int s))
    ]
  ]

  unfoldable pub compute_metrics_from_trace : TraceLoopTimeline → TraceLoopMetrics
  compute_metrics_from_trace t = record {
    loop_id = t.loop_id;
    instance_id = t.instance_id;
    total_duration_ms = duration_between t.started_at t.completed_at;
    transition_count = length t.transitions;
    guard_block_count = count any_failed t.transitions;
    human_approval_count = count is_human t.transitions;
    terminal_state = last_target t.transitions;
    outcome_id = none;
  }

  count-transitions_of :
      (test : TimelineTransition → Bool) (rs : List TraceRecord)
      → count test (transitions_of p rs)
        ≡ total (λ r. one_if (is_step r && test (transition_of p r))) rs
  unfolding transitions_of total
  count-transitions_of test [] = refl
  count-transitions_of test (r ∷ rs) = ground (arith, count-transitions_of test rs)

  length-transitions_of :
      (rs : List TraceRecord) → length (transitions_of p rs) ≡ total (λ r. one_if (is_step r)) rs
  unfolding transitions_of total
  length-transitions_of [] = refl
  length-transitions_of (r ∷ rs) = ground (arith, length-transitions_of rs)

  timeline-transitions :
      (rs : List TraceRecord) → (timeline_of_sorted p rs).transitions ≡ transitions_of p rs
  unfolding timeline_of_sorted transitions_of
  timeline-transitions [] = refl
  timeline-transitions (r ∷ rs) = refl

  count-timeline :
      (test : TimelineTransition → Bool) (trace : List TraceRecord)
      → count test (build_timeline_from_trace p trace).transitions
        ≡ total (λ r. one_if (is_step r && test (transition_of p r))) trace
  unfolding build_timeline_from_trace
  count-timeline test trace =
      ap (count test) (timeline-transitions (sort_by_sequence trace))
      ∙ count-transitions_of test (sort_by_sequence trace)
      ∙ total-sort _ trace

  length-timeline :
      (trace : List TraceRecord)
      → length (build_timeline_from_trace p trace).transitions
        ≡ total (λ r. one_if (is_step r)) trace
  unfolding build_timeline_from_trace
  length-timeline trace =
      ap length (timeline-transitions (sort_by_sequence trace))
      ∙ length-transitions_of (sort_by_sequence trace)
      ∙ total-sort _ trace

  is_step-ends_attempt : (r : TraceRecord) → is_step r ≡ ends_attempt r.type
  unfolding is_step same_type
  is_step-ends_attempt r = go r.type
    where
      go :
          (t : TraceEventType)
          → (same_type t transition_completed || same_type t blocked_transition) ≡ ends_attempt t
      go started = refl
      go attempted = refl
      go guard_evaluated = refl
      go transition_completed = refl
      go blocked_transition = refl
      go terminal = refl

  any_failed-failed_guard :
      (r : TraceRecord) → any_failed (transition_of p r) ≡ failed_guard r.guards
  unfolding any_failed transition_of guard_results_from_trace guard_result_of any
  any_failed-failed_guard r = go r.guards
    where
      go :
          (gs : List GuardTraceEntry)
          → any (λ (g : TimelineGuard). not g.passed) (map guard_result_of gs) ≡ failed_guard gs
      go [] = refl
      go (g ∷ gs) = ground (arith, go gs)

  is_human-by_human :
      ((t : ActorType) → p.to_lower (actor_type_text t) ≡ actor_type_text t)
      → (r : TraceRecord) → is_human (transition_of p r) ≡ by_human r.actor.type
  unfolding is_human transition_of actor_type_text includes starts_with
  is_human-by_human lower r = go r.actor.type
    where
      go :
          (t : ActorType)
          → (let at = p.to_lower (actor_type_text t) in
              includes "human" at || (at == "user" || at == "approver"))
            ≡ by_human t
      go human = rw (lower human) refl
      go automation = rw (lower automation) refl
      go ai_agent = rw (lower ai_agent) refl
      go system = rw (lower system) refl

  -- Where toLowerCase leaves the four names of actor types as they are, the metrics of a trace, in
  -- whatever order it is, count: its records of type transition_completed or transition_blocked; those
  -- of them with a guard that did not pass; and those of them whose actor is of type human.
  pub compute_metrics_from_trace_lem :
      ((t : ActorType) → p.to_lower (actor_type_text t) ≡ actor_type_text t)
      → (trace : List TraceRecord)
      → let m = compute_metrics_from_trace (build_timeline_from_trace p trace) in
        (m.transition_count ≡ total (λ r. one_if (ends_attempt r.type)) trace)
        × (m.guard_block_count
            ≡ total (λ r. one_if (ends_attempt r.type && failed_guard r.guards)) trace)
        × (m.human_approval_count
            ≡ total (λ r. one_if (ends_attempt r.type && by_human r.actor.type)) trace)
  unfolding compute_metrics_from_trace
  compute_metrics_from_trace_lem lower trace = (
    length-timeline trace ∙ total-same _ _ (λ r. ap one_if (is_step-ends_attempt r)) trace,
    count-timeline any_failed trace
        ∙ total-same _ _ (λ r. rw (is_step-ends_attempt r, any_failed-failed_guard r) refl) trace,
    count-timeline is_human trace
        ∙ total-same _ _ (λ r. rw (is_step-ends_attempt r, is_human-by_human lower r) refl) trace,
  )
