-- ===== src/Runtime/Transition.antt =====
-- `LoopEngine.transition` (runtime/src/engine.ts), in the order of its steps.
mod Records
unfoldable pub use Records.*
use loop_engine.Prelude.{
  ℕ, ◌+◌, ◌≡◌, Bool, true, false, ◌&&◌, ◌||◌, String, Option, none, some, List, [], ◌∷◌, map, put,
  find, any, is_empty, length, if◌then◌else◌, ◌==◌,
}
use loop_engine.Prelude.Int.{ℤ, monus}
use loop_engine.Core.{
  Platform, Value, undefined, str, array, object, num, number, array_of, object_of, items,
  Attributes, read_opt, or_else, LoopDefinition, TransitionSpec, LoopInstance, TransitionRecord,
  ActorRef, GuardSpec, hard, soft, GuardSeverity, completed, is_completed, flag, OutcomeSpec,
  Outcome, ok, threw, Failure, instance_not_found, definition_not_found,
}
use loop_engine.Actors.{AiActorConstraints, can_actor_execute_transition}
use loop_engine.Events.{
  LoopEvent, EventBase, Move, GuardFailure, CompletedOutcome, transition_requested,
  transition_executed, transition_blocked, guard_failed, loop_completed,
}
use loop_engine.Guards.{
  GuardContext, GuardEvaluationResult, GuardEvaluationSummary, evaluate_guards,
}
use loop_engine.Evidence.Commit.{
  RejectionReason, CommitResult, committed, refused, requires_governed_evidence,
  commit_governed_evidence_snapshots,
}
use loop_engine.Runtime.World.{
  World, Options, M, pure, throw, ◌>>=◌, ◌>>◌, require, draw, read_store, write_store, for_each,
  guards, clock, emit, create,
}

-- Everything below works on one found instance, definition and transition.
module _ {S : Type 0} (o : Options S) (p : TransitionParams) (d : LoopDefinition) (i : LoopInstance)
    (t : TransitionSpec) where
  unfoldable pub correlation : Option String
  correlation = first_text p.correlation_id i.correlation_id

  unfoldable pub move : Move
  move = record { transition_id = t.id; from_state = i.current_state; actor = p.actor }

  -- A factory call for this loop.
  unfoldable pub create_here : (EventBase → LoopEvent) → M S LoopEvent
  create_here = create o i.loop_id i.aggregate_id correlation

  unfoldable pub evidence : Attributes
  evidence = elim p.evidence [ none ↦ [] | some e ↦ e ]

  unfoldable pub guard_context : GuardContext
  guard_context = record {
    actor = p.actor;
    loop_id = i.loop_id;
    aggregate_id = i.aggregate_id;
    from_state = i.current_state;
    to_state = t.to;
    signal = t.signal;
    evidence = some evidence;
    loop_data = i.metadata;
  }

  unfoldable pub request : M S (Unit {0})
  request = do
    event ← create_here (λ b. transition_requested b move t.to t.signal (some evidence))
    emit o event

  unfoldable pub check_guards : M S GuardEvaluationSummary
  check_guards w =
      let specs = or_list t.guards in
      (
        evaluate_guards w.moment specs guard_context (guards o),
        record w { moment = w.moment + length specs },
      )

  unfoldable pub report_failure : GuardSeverity → GuardEvaluationResult → M S (Unit {0})
  report_failure severity f = do
    event ← create_here (λ b. guard_failed b move f.guard_id severity f.message f.metadata)
    emit o event

  -- The blocked event and the result, for the failures found.
  unfoldable pub report_block : List GuardFailure → M S TransitionResult
  report_block failures = do
    event ← create_here (λ b. transition_blocked b move t.to failures)
    emit o event
    pure (blocked i.current_state failures event)

  unfoldable pub block : GuardEvaluationSummary → M S TransitionResult
  block summary = do
    for_each summary.hard_failures (report_failure hard)
    report_block (map failure_of summary.hard_failures)

  -- `tenantId` of the governed commit.
  unfoldable pub tenant : String
  tenant = o.platform.to_text (
      or_else (text_value p.tenant_id) (
        or_else (read_opt "tenantId" i.metadata)
          (or_else (read_opt "organizationId" i.metadata) (str i.aggregate_id))))

  unfoldable pub commit_evidence : M S CommitResult
  commit_evidence w =
      let (result, log) =
        commit_governed_evidence_snapshots o.platform w.moment o.snapshot_store tenant
          p.aggregate_id p.evidence_snapshots w.inserted in
      (
        result,
        record w { inserted = log; moment = w.moment + length (entries p.evidence_snapshots) },
      )

  unfoldable pub announce_completion : LoopInstance → String → M S (Unit {0})
  announce_completion updated now = do
    event ← create_here (λ b.
        loop_completed b updated.current_state p.actor
          (duration_ms o.platform now updated.started_at) (completed_outcome d.outcome))
    emit o event

  -- From the emission of the executed event on.
  unfoldable pub report_move :
      List GuardFailure → LoopInstance → (now : String) → LoopEvent → M S TransitionResult
  report_move warnings updated now event = do
    emit o event
    if is_completed updated.status then announce_completion updated now else pure tt
    pure (executed i.current_state t.to warnings event)

  -- What follows the two writes.
  unfoldable pub announce : List GuardFailure → Attributes → String → M S TransitionResult
  announce warnings committed_evidence now = do
    event ←
        create_here
          (λ b. transition_executed b move t.to t.signal (some committed_evidence) warnings)
    report_move warnings (moved d i t now) now event

  unfoldable pub execute : List GuardFailure → Attributes → M S TransitionResult
  execute warnings committed_evidence = do
    now ← clock o
    write_store (o.store.save_instance (moved d i t now))
    write_store (o.store.save_transition_record (record_of i t p.actor now committed_evidence))
    announce warnings committed_evidence now

  -- The governed part of the evidence, and the rest of the run after it.
  unfoldable pub settle_commit :
      List GuardFailure → Attributes → CommitResult → M S TransitionResult
  settle_commit warnings committed_evidence (refused reason) =
      pure (rejected i.current_state (evidence_refused reason))
  settle_commit warnings committed_evidence (committed ids rows) =
      execute warnings (with_snapshots ids committed_evidence)

  unfoldable pub proceed_governed : List GuardFailure → Attributes → M S TransitionResult
  proceed_governed warnings committed_evidence = do
    result ← commit_evidence
    settle_commit warnings committed_evidence result

  -- From the evidence on, with all hard guards passed.
  unfoldable pub proceed : List GuardFailure → M S TransitionResult
  proceed warnings =
      let committed_evidence = with_warnings warnings evidence in
      if requires_governed_evidence d.metadata t.metadata
      then proceed_governed warnings committed_evidence
      else execute warnings committed_evidence

  -- The test of `allPassed`.
  unfoldable pub settle : GuardEvaluationSummary → M S TransitionResult
  settle summary =
      if summary.all_passed then proceed (map failure_of summary.soft_failures) else block summary

  -- The soft failures are reported, whatever the hard ones are.
  unfoldable pub after_guards : GuardEvaluationSummary → M S TransitionResult
  after_guards summary = do for_each summary.soft_failures (report_failure soft); settle summary

  -- From the requested event on, with the actor authorized.
  unfoldable pub attempt : M S TransitionResult
  attempt = do request; summary ← check_guards; after_guards summary

  unfoldable pub authorize : M S TransitionResult
  authorize =
      let authorization = can_actor_execute_transition p.actor t p.constraints in
      if authorization.authorized
      then if authorization.requires_approval
        then pure (pending_approval i.current_state)
        else attempt
      else pure (rejected i.current_state unauthorized_actor)

module _ {S : Type 0} (o : Options S) (p : TransitionParams) where
  -- From the search for the transition on.
  unfoldable pub dispatch : LoopDefinition → LoopInstance → M S TransitionResult
  dispatch d i =
      if is_completed i.status || is_terminal_state d i.current_state
      then pure (rejected i.current_state loop_closed)
      else elim (find (leaves p.transition_id i.current_state) d.transitions) [
        | none ↦ pure (rejected i.current_state invalid_transition)
        | some t ↦ authorize o p d i t
      ]

  unfoldable pub transition : M S TransitionResult
  transition = do
    found ← read_store (λ s. o.store.get_instance s p.aggregate_id)
    i ← require found (instance_not_found p.aggregate_id)
    d ← require (o.definition_of i.loop_id) (definition_not_found i.loop_id)
    dispatch d i
