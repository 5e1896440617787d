-- ===== src/Tests/Traces.antt =====
-- Traces on concrete inputs.
use loop_engine.Prelude.{
  ◌≡◌, refl, true, false, String, none, some, List, [], ◌∷◌, get, put, find, length, ◌&&◌,
}
use loop_engine.Core.{Value, Failure, number, object, object_of}
use loop_engine.Events.{LoopEvent}
use loop_engine.Trace.{
  TraceRecord, transition_completed, blocked_transition, terminal, sort_by_sequence,
  insert_by_sequence,
}
use loop_engine.Trace.Memory.{
  MemoryTraceStore, RunComparison, cleared, get_run_trace, write, next_summary, is_terminal_record,
  same_type, one_if, compare_runs, compared_steps, compared_step, at_sequence, is_equivalent,
  same_text, divergence, steps_needed, larger,
}
use loop_engine.Trace.Memory.Compare.{Parts, compare_runs_lem}
use loop_engine.Trace.Memory.Tally.{IsTallied, write-IsTallied}
use loop_engine.Trace.Sequence.{validate_trace_sequence}
use loop_engine.Trace.Sums.{total}
use loop_engine.Trace.Timeline.{build_timeline_from_trace}
use loop_engine.Trace.Timeline.Metrics.{
  compute_metrics_from_trace, ends_attempt, failed_guard, by_human, compute_metrics_from_trace_lem,
}
use loop_engine.Service.Traced.{TracedConfig}
use loop_engine.Service.Traced.Numbered.{run_traced, calls_of, run_traced-valid}
use loop_engine.Tests.Data.{platform, operator, agent, options, fresh, finishing}

abbrev step : String → TraceRecord
step run = record {
  id = "tr";
  loop_run_id = run;
  loop_id = "deal";
  sequence = 0;
  timestamp = number 0;
  type = transition_completed;
  from_state = some "OPEN";
  to_state = some "DONE";
  transition_id = some "finish";
  actor = operator;
  input_hash = "h";
  input = object (object_of []);
  output = object (object_of []);
  guards = [];
  evidence = object (object_of []);
  duration_ms = number 0;
  blocked = false;
  block_reason = none;
  governed = false;
  tenant_id = "acme";
}

abbrev two_runs : MemoryTraceStore
two_runs = write (step "r2") (write (step "r1") cleared)

compared : (c : RunComparison) × (compare_runs two_runs "r1" "r2" ≡ some c)
unfolding compare_runs compared_steps compared_step at_sequence is_equivalent same_text divergence
    steps_needed larger get_run_trace write next_summary is_terminal_record same_type cleared get
    put find sort_by_sequence insert_by_sequence
compared = (_, refl)

compare_runs_lem_example :
    Parts (get_run_trace two_runs "r1") (get_run_trace two_runs "r2") compared.0.divergence_point
compare_runs_lem_example = compare_runs_lem two_runs "r1" "r2" compared.0 compared.1

cleared-IsTallied : IsTallied cleared
unfolding cleared get get_run_trace
cleared-IsTallied run = refl

write-IsTallied_example : IsTallied (write (step "r1") cleared)
write-IsTallied_example = write-IsTallied (step "r1") cleared cleared-IsTallied

abbrev failing : TraceRecord
failing = record (step "r1") {
  type = blocked_transition;
  actor = agent;
  guards =
      record {
        guard_id = "g";
        passed = false;
        reason = "no";
        evaluated_at = number 0;
        duration_ms = number 0;
      }
      ∷ [];
}

abbrev steps : List TraceRecord
steps = step "r1" ∷ failing ∷ record (step "r1") { type = terminal } ∷ []

compute_metrics_from_trace_lem_example :
    let m = compute_metrics_from_trace platform (build_timeline_from_trace platform steps) in
    (m.transition_count ≡ total (λ r. one_if (ends_attempt r.type)) steps)
    × (m.guard_block_count
        ≡ total (λ r. one_if (ends_attempt r.type && failed_guard r.guards)) steps)
    × (m.human_approval_count
        ≡ total (λ r. one_if (ends_attempt r.type && by_human r.actor.type)) steps)
compute_metrics_from_trace_lem_example = compute_metrics_from_trace_lem platform (λ t. refl) steps

abbrev config : TracedConfig
config = record { loop_id = "deal"; tenant_id = "acme"; governed = false }

abbrev pub failure_text : Failure → String
failure_text e = "failed"

abbrev pub event_object : LoopEvent → Value
event_object e = object (object_of [])

run_traced-valid_example :
    let after =
      run_traced options failure_text event_object
        ((config, finishing) ∷ [])
        (record { world = fresh; traces = cleared; sequences = [] }) in
    (length (get_run_trace after.traces "a1")
      ≡ calls_of options failure_text event_object "a1" ((config, finishing) ∷ []))
    × ((validate_trace_sequence (get_run_trace after.traces "a1")).sequence_valid ≡ true)
run_traced-valid_example =
    run_traced-valid options failure_text event_object ((config, finishing) ∷ []) fresh "a1"
