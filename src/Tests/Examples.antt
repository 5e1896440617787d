-- ===== src/Tests/Examples.antt =====
-- Each theorem of the development at a concrete run.
use loop_engine.Prelude.{
  contains, any, filter, put, ℕ, ◌≡◌, ◌⊎◌, refl, ◌↔◌, true, String, none, some, List, [], ◌∷◌, In,
  get,
}
use loop_engine.Core.{
  flag, is_active, LoopInstance, LoopDefinition, TransitionSpec, GuardSpec, Attributes, hard, human,
  ai_agent, ok,
}
use loop_engine.Actors.{can_actor_execute_transition}
use loop_engine.Actors.Authorization.{NeedsApproval, can_actor_execute_transition_iff}
use loop_engine.Guards.{evaluate_guards, GuardEvaluationSummary}
use loop_engine.Guards.BuiltIn.{register_built_ins}
use loop_engine.Guards.Pipeline.{AllAnswer, evaluate_guards_iff}
use loop_engine.Evidence.Commit.{RejectionReason}
use loop_engine.Evidence.Validate.{validate_commit_batch}
use loop_engine.Evidence.Batch.{AreSnapshots, validate_commit_batch_iff}
use loop_engine.Evidence.Committed.{Asks, IsCommit, commit_governed_evidence_snapshots-IsCommit}
use loop_engine.Store.Memory.{save_instance, empty, get_instance, get_transition_history}
use loop_engine.Observability.{replay_loop}
use loop_engine.Observability.Replay.{Walk, replay_loop_iff}
use loop_engine.Runtime.World.{guards, clock, time_source, emit, create}
use loop_engine.Runtime.Transition.{
  TransitionParams, transition, rejected, evidence_refused, loop_closed, invalid_transition,
  unauthorized_actor, pending_approval, or_list, guard_context, tenant,
}
use loop_engine.Runtime.Effect.{Advance}
use loop_engine.Runtime.Rules.{durable}
use loop_engine.Runtime.Moves.{transition_executed, transition_refused}
use loop_engine.Runtime.Departures.{Closed}
use loop_engine.Runtime.Reasons.{Exactly, Unlisted, Denied, Waits, transition_reasons}
use loop_engine.Runtime.Invariant.{IsSound}
use loop_engine.Runtime.Calls.{cancels, starts, moves, here, next, Reach-IsSound, run_call}
use loop_engine.Runtime.Life.{born, lives, Life-replays}
use loop_engine.Runtime.Safety.{
  Finds, executed_authorized, executed_guarded, executed_human_only, executed_governed,
}
use loop_engine.Runtime.Lifecycle.{
  start, open_loop, announce_start, is_running, initial_instance, truthy, cancel_loop, close_loop,
  announce_end, cancelled_instance,
}
use loop_engine.Events.{parse, schema_accepts, accepts_definition, nonempty, build_base}
use loop_engine.Validator.{
  add, terminal_states, graph_from, weight, search, has_path_to_terminal, cycles_with, cycles_from,
  duplicates, has_duplicates, transition_errors, completion_errors, lacks_metrics,
  validate_loop_definition,
}
use loop_engine.Validator.Graph.{PathIn, IsTerminal, has_path_to_terminal_iff}
use loop_engine.Validator.Valid.{IsValid, declared, validate_loop_definition_iff}
use loop_engine.Runtime.Declared.{Life-declared}
use loop_engine.Tests.Data.{
  operator, instant, platform, options, fresh, opening, opened, finishing, unproven, agent, finish,
  definition, context, human_guard,
}
use loop_engine.Tests.Runs.{
  started, started_ok, started_found, finished, refused_unproven, built_in, row, batch,
  stored_batch,
}

transition_executed_example :
    (a : Advance options finishing
      (durable started)
      (transition options finishing started).0
      (durable (transition options finishing started).1))
    × (a.instance_before.current_state ≡ "OPEN")
    × (a.spec.to ≡ "DONE")
transition_executed_example = transition_executed options finishing started finished

transition_refused_example : (transition options unproven started).1.store ≡ started.store
transition_refused_example =
    transition_refused options unproven started
      (rejected "OPEN" (evidence_refused RejectionReason.evidence_required)) refused_unproven refl

abbrev lost : TransitionParams
lost = record finishing { transition_id = "nowhere" }

transition_reasons_example :
    Exactly options lost started opened definition
      (transition options lost started)
      (rejected "OPEN" loop_closed)
      (Closed definition opened)
    × Exactly options lost started opened definition
        (transition options lost started)
        (rejected "OPEN" invalid_transition)
        (Unlisted options lost started opened definition)
    × Exactly options lost started opened definition
        (transition options lost started)
        (rejected "OPEN" unauthorized_actor)
        (Denied options lost started opened definition)
    × Exactly options lost started opened definition
        (transition options lost started)
        (pending_approval "OPEN")
        (Waits options lost started opened definition)
transition_reasons_example =
    transition_reasons options lost started opened definition started_found refl

executed_authorized_example :
    (i : LoopInstance) × (d : LoopDefinition) × (t : TransitionSpec) × Finds options finishing
      started i d t
    × In human t.actors
    × (human ≡ ai_agent → ¬ NeedsApproval none t.id)
executed_authorized_example = executed_authorized options finishing started finished

executed_guarded_example :
    (i : LoopInstance) × (d : LoopDefinition) × (t : TransitionSpec) × Finds options finishing
      started i d t
    × (now : ℕ) × AllAnswer
        (guard_context options finishing d i t)
        (guards options)
        now
        (or_list t.guards)
executed_guarded_example = executed_guarded options finishing started finished

executed_human_only_example :
    (i : LoopInstance) × (d : LoopDefinition) × (t : TransitionSpec) × Finds options finishing
      started i d t
    × ((g : GuardSpec)
        → In g (or_list t.guards)
        → g.id ≡ "human-only"
        → g.severity ≡ hard
        → human ≡ human)
executed_human_only_example = executed_human_only options finishing started built_in finished

executed_governed_example :
    (i : LoopInstance) × (d : LoopDefinition) × (t : TransitionSpec) × Finds options finishing
      started i d t
    × (((Asks d.metadata ⊎ Asks t.metadata)
          × ((now : ℕ) × (ids : List String) × (rows : List Attributes) × IsCommit platform now
                options.snapshot_store
                (tenant options finishing d i t)
                "a1"
                finishing.evidence_snapshots
                started.inserted
                (transition options finishing started).1.inserted
                ids
                rows))
        ⊎ ((¬ (Asks d.metadata ⊎ Asks t.metadata))
            × ((transition options finishing started).1.inserted ≡ started.inserted)))
executed_governed_example = executed_governed options finishing started finished

empty-IsSound : IsSound options empty
unfolding empty get_instance get
empty-IsSound a i h = cc

Reach-IsSound_example :
    IsSound options
      (run_call options (moves finishing) (run_call options (starts opening) fresh)).store
Reach-IsSound_example =
    Reach-IsSound options (next (moves finishing) (next (starts opening) here)) empty-IsSound

empty_history : get_transition_history empty "a1" ≡ []
unfolding empty get_transition_history get
empty_history = refl

Life-replays_example :
    ((i : LoopInstance) × (get_instance (run_call options (moves finishing) started).store "a1"
        ≡ some i)
      × Walk definition "OPEN"
          (get_transition_history (run_call options (moves finishing) started).store "a1")
          i.current_state)
    × ((replay_loop definition
          (get_transition_history (run_call options (moves finishing) started).store "a1")).0
        ≡ true)
Life-replays_example = Life-replays options "a1" definition (
    lives (moves finishing) tt
      (born fresh opening opened empty-IsSound refl empty_history refl refl started_ok))

evaluate_guards_iff_example :
    ((summary : GuardEvaluationSummary) × (evaluate_guards 0
          (human_guard ∷ [])
          context
          (register_built_ins platform [])
        ≡ ok summary)
      × (summary.all_passed ≡ true))
    ↔ AllAnswer context (register_built_ins platform []) 0 (human_guard ∷ [])
evaluate_guards_iff_example =
    evaluate_guards_iff context (register_built_ins platform []) 0 (human_guard ∷ [])

can_actor_execute_transition_iff_example :
    (((can_actor_execute_transition agent finish none).authorized ≡ true)
      ↔ In ai_agent finish.actors)
    × (((can_actor_execute_transition agent finish none).requires_approval ≡ true)
        ↔ (In ai_agent finish.actors × (ai_agent ≡ ai_agent) × NeedsApproval none finish.id))
can_actor_execute_transition_iff_example = can_actor_execute_transition_iff agent finish none

replay_loop_iff_example :
    ((replay_loop definition []).0 ≡ true) ↔ ((final : String) × Walk definition "OPEN" [] final)
replay_loop_iff_example = replay_loop_iff definition []

commit_governed_evidence_snapshots-IsCommit_example :
    IsCommit platform 0 options.snapshot_store "t" "a1" finishing.evidence_snapshots []
      (batch ∷ [])
      ("s1" ∷ [])
      (row ∷ [])
commit_governed_evidence_snapshots-IsCommit_example =
    commit_governed_evidence_snapshots-IsCommit platform 0 options.snapshot_store "t" "a1"
      finishing.evidence_snapshots [] (batch ∷ []) ("s1" ∷ []) (row ∷ []) stored_batch

accepted : validate_loop_definition definition ≡ []
unfolding add terminal_states graph_from weight search has_path_to_terminal cycles_with cycles_from
    duplicates has_duplicates transition_errors completion_errors lacks_metrics
    validate_loop_definition contains get put any flag filter
accepted = refl

cancelled_found :
    get_instance (run_call options (cancels "a1" operator none) started).store "a1"
    ≡ some (cancelled_instance opened instant)
unfolding get_instance save_instance empty start open_loop announce_start is_running
    initial_instance truthy clock time_source emit create parse schema_accepts accepts_definition
    nonempty build_base get put is_active run_call cancel_loop close_loop announce_end
    cancelled_instance
cancelled_found = refl

Life-declared_example : In "OPEN" (declared definition)
unfolding cancelled_instance
Life-declared_example =
    Life-declared options "a1" definition accepted
      (lives (cancels "a1" operator none) tt
        (born fresh opening opened empty-IsSound refl empty_history refl refl started_ok))
      (cancelled_instance opened instant) cancelled_found

validate_loop_definition_iff_example :
    (validate_loop_definition definition ≡ []) ↔ IsValid definition
validate_loop_definition_iff_example = validate_loop_definition_iff definition

has_path_to_terminal_iff_example :
    (has_path_to_terminal definition (terminal_states definition.states) ≡ true)
    ↔ ((s : String) × PathIn definition "OPEN" s × IsTerminal definition s)
has_path_to_terminal_iff_example = has_path_to_terminal_iff definition

validate_commit_batch_iff_example :
    (validate_commit_batch platform finishing.evidence_snapshots ≡ [])
    ↔ AreSnapshots platform finishing.evidence_snapshots
validate_commit_batch_iff_example = validate_commit_batch_iff platform finishing.evidence_snapshots
