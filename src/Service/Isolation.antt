-- ===== src/Service/Isolation.antt =====
-- The service operations on a row of another tenant (packages/runtime-core/src/loop-execution.ts).
use loop_engine.Prelude.{◌≡◌, refl, Bool, String, none, some, eq_iff, arith}
use loop_engine.Core.{Value, Failure}
use loop_engine.Events.{LoopEvent}
use loop_engine.Runtime.World.{Options}
use loop_engine.Service.{PersistedLoopInstance, Server, returned}
use loop_engine.Service.Traced.{TraceStore}
use loop_engine.Service.Prisma.{LoopInstanceTable, of_tenant, prisma_loop_instance_repository}
use loop_engine.Service.Execution.{
  not_found, transition_not_found, cancel_not_found, TransitionLoopInput, execute_oss_start,
  execute_oss_transition, execute_oss_cancel, start_existing, transition_existing, cancel_existing,
}

of_tenant-other :
    (tenant : String) (row : PersistedLoopInstance)
    → ¬ (row.tenant_id ≡ tenant)
    → of_tenant tenant (some row) ≡ none
unfolding of_tenant
of_tenant-other tenant row other = ground (arith, eq_iff row.tenant_id tenant)

-- When the loop under a key belongs to another tenant than the caller, its start, its transition and
-- its cancellation answer that there is no such loop, and change neither the rows, the engine nor the
-- traces.
pub other_tenant_refused :
    {S T D : Type 0} (o : Options S) (store : TraceStore T) (message_of : Failure → String)
    (event_object : LoopEvent → Value) (trace_enabled : Bool) (db : LoopInstanceTable D)
    (input : TransitionLoopInput) (s : Server S T D) (row : PersistedLoopInstance)
    → db.find_unique s.repo input.aggregate_key ≡ some row
    → ¬ (row.tenant_id ≡ input.identity.tenant_id)
    → let repo = prisma_loop_instance_repository db in
      (execute_oss_start o store message_of event_object trace_enabled repo input.identity
          input.aggregate_key s
        ≡ (returned not_found, s))
      × (execute_oss_transition o store message_of event_object trace_enabled repo input s
          ≡ (returned transition_not_found, s))
      × (execute_oss_cancel o store message_of event_object trace_enabled repo input.identity
            input.aggregate_key s
          ≡ (returned cancel_not_found, s))
unfolding execute_oss_start execute_oss_transition execute_oss_cancel start_existing
    transition_existing cancel_existing prisma_loop_instance_repository
other_tenant_refused o store message_of event_object trace_enabled db input s row found other =
    let hidden = of_tenant-other input.identity.tenant_id row other in
    (rw (found, hidden) refl, rw (found, hidden) refl, rw (found, hidden) refl)
