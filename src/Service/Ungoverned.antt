-- ===== src/Service/Ungoverned.antt =====
-- The governed transitions of the service (packages/runtime-core/src/loop-execution.ts).
use loop_engine.Prelude.{
  ◌≡◌, sym, ap, ◌∙◌, Bool, Bool-cases, List, false, String, some, inl, inr, find,
}
use loop_engine.Core.{Value, LoopInstance, LoopDefinition, TransitionSpec, Failure}
use loop_engine.Events.{LoopEvent}
use loop_engine.Evidence.Commit.{requires_governed_evidence, SnapshotStoreInsertInput}
use loop_engine.Evidence.Committed.{requires_governed_evidence_iff}
use loop_engine.Runtime.World.{Options}
use loop_engine.Runtime.Transition.{leaves}
use loop_engine.Runtime.Effect.{Evidenced}
use loop_engine.Runtime.Moves.{transition_executed}
use loop_engine.Service.{PersistedLoopInstance, LoopInstanceRepository, Server, returned}
use loop_engine.Service.Traced.{TraceStore}
use loop_engine.Service.Execution.{
  TransitionLoopInput, ExecutedTransition, transition_done, transition_params,
  execute_oss_transition,
}
use loop_engine.Service.Mirror.{AnswersUpdates, params, execution-Ran}

module _ {S T R : Type 0} (o : Options S) (store : TraceStore T) (message_of : Failure → String)
    (event_object : LoopEvent → Value) (trace_enabled : Bool)
    (repo : LoopInstanceRepository R) where
  Evidenced-ungoverned :
      (input : TransitionLoopInput) (row : PersistedLoopInstance) (d : LoopDefinition)
      (i : LoopInstance) (t : TransitionSpec) (log log' : List SnapshotStoreInsertInput)
      → Evidenced o
          (params o store message_of event_object trace_enabled repo input row)
          d
          i
          t
          log
          log'
      → requires_governed_evidence d.metadata t.metadata ≡ false
  unfolding transition_params
  Evidenced-ungoverned input row d i t log log' (inl (free, same)) =
      elim (Bool-cases (requires_governed_evidence d.metadata t.metadata)) [
        | inl asked ↦ absurd (free ((requires_governed_evidence_iff d.metadata t.metadata).0 asked))
        | inr none_asked ↦ none_asked
      ]
  Evidenced-ungoverned input row d i t log log' (inr (asked, (now, ids, rows, commit))) =
      cc commit.is_array

  -- When an update answers with the row that it wrote, a transition that the service reports as
  -- executed is one whose loop and transition require no governed evidence.
  pub execute_oss_transition_ungoverned :
      (input : TransitionLoopInput) (s : Server S T R) (e : ExecutedTransition)
      → AnswersUpdates repo
      → (execute_oss_transition o store message_of event_object trace_enabled repo input s).0
        ≡ returned (transition_done e)
      → (row : PersistedLoopInstance) × (i : LoopInstance) × (d : LoopDefinition)
        × (t : TransitionSpec) × (repo.find_by_aggregate_id s.repo input.identity.tenant_id
              input.aggregate_key
            ≡ some row)
        × (o.store.get_instance s.host.world.store row.aggregate_id ≡ some i)
        × (o.definition_of i.loop_id ≡ some d)
        × (find (leaves input.signal_id i.current_state) d.transitions ≡ some t)
        × (requires_governed_evidence d.metadata t.metadata ≡ false)
  unfolding transition_params
  execute_oss_transition_ungoverned input s e answers h =
      let ran =
        execution-Ran o store message_of event_object trace_enabled repo input s e answers h in
      let (a, from_there, to_there) = transition_executed o _ ran.world ran.result in
      (
        ran.row,
        a.instance_before,
        a.definition,
        a.spec,
        ran.found,
        ap (λ x. o.store.get_instance x ran.row.aggregate_id) (sym ran.same_store) ∙ a.found,
        a.defined,
        a.cleared.listed,
        Evidenced-ungoverned input ran.row _ _ _ _ _ a.evidenced,
      )
