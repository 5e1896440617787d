-- ===== src/Service/Execution.antt =====
-- `executeOssStart`, `executeOssTransition` and `executeOssCancel`
-- (packages/runtime-core/src/loop-execution.ts).
use loop_engine.Prelude.{
  Bool, false, String, Option, none, some, [], ◌∷◌, contains, if◌then◌else◌, ◌==◌,
}
use loop_engine.Core.{
  Value, undefined, str, Attributes, ActorType, human, automation, ai_agent, ActorRef, LoopStatus,
  pending, active, completed, failed, cancelled, suspended, LoopInstance, Outcome, Failure,
}
use loop_engine.Events.{LoopEvent}
use loop_engine.Redaction.{sanitize_evidence}
use loop_engine.Runtime.World.{Options}
use loop_engine.Runtime.Transition.{TransitionParams, TransitionResult, executed, transition}
use loop_engine.Runtime.Lifecycle.{StartLoopParams, start}
use loop_engine.Auth.{RuntimeIdentity}
use loop_engine.Service.{
  PersistedLoopInstance, LoopInstanceRepository, LoopInstanceDto, to_loop_instance_dto, N, return,
  ◌>>=◌, ◌>>◌, ask, change, on_host,
}
use loop_engine.Service.Traced.{Host, TraceStore, TracedConfig, traced_transition}
use loop_engine.Service.Traced.Payload.{blocked_reason}

pub data StartLoopOutcome : Type 0 where
  started : (aggregate_id current_state status : String) → StartLoopOutcome
  not_found : StartLoopOutcome
  already_started : (status : String) → StartLoopOutcome

pub data TransitionActorType : Type 0 where
  human_actor ai_actor system_actor : TransitionActorType

pub record TransitionActor : Type 0 where
  pub id : String
  pub type : TransitionActorType

pub record TransitionLoopInput : Type 0 where
  pub identity : RuntimeIdentity
  pub aggregate_key : String
  pub signal_id : String
  pub evidence : Option Attributes
  pub actor : TransitionActor
  pub governed : Option Bool

pub record ExecutedTransition : Type 0 where
  pub aggregate_id : String
  pub previous_state : String
  pub current_state : String
  pub status : String
  pub transitioned_at_iso : String

pub data TransitionLoopOutcome : Type 0 where
  transition_done : ExecutedTransition → TransitionLoopOutcome
  transition_not_found : TransitionLoopOutcome
  transition_rejected : (reason : String) → TransitionLoopOutcome

pub data CancelLoopOutcome : Type 0 where
  cancel_done : LoopInstanceDto → CancelLoopOutcome
  cancel_not_found already_terminal : CancelLoopOutcome

-- The text of an engine's status.
unfoldable pub loop_status_text : LoopStatus → String
loop_status_text pending = "pending"
loop_status_text active = "active"
loop_status_text completed = "completed"
loop_status_text failed = "failed"
loop_status_text cancelled = "cancelled"
loop_status_text suspended = "suspended"

unfoldable pub engine_actor_type : TransitionActorType → ActorType
engine_actor_type human_actor = human
engine_actor_type ai_actor = ai_agent
engine_actor_type system_actor = automation

unfoldable pub event_actor_type : TransitionActorType → String
event_actor_type human_actor = "human"
event_actor_type ai_actor = "ai"
event_actor_type system_actor = "automation"

abbrev pub actor_ref : String → ActorType → ActorRef
actor_ref id type = record { id = id; type = type; display_name = none; metadata = none }

abbrev pub or_false : Option Bool → Bool
or_false none = false
or_false (some b) = b

-- `trace_enabled` is false when `LOOP_TRACE_ENABLED` is `"false"`.
module _ {S T R : Type 0} (o : Options S) (store : TraceStore T) (message_of : Failure → String)
    (event_object : LoopEvent → Value) (trace_enabled : Bool)
    (repo : LoopInstanceRepository R) where
  -- The engine's call `start`, which the wrapper passes on.
  unfoldable pub engine_start : StartLoopParams → Host S T → Outcome LoopInstance × Host S T
  engine_start p h = let (r, w) = start o p h.world in (r, record h { world = w })

  unfoldable pub engine_transition :
      TransitionParams → Host S T → Outcome TransitionResult × Host S T
  engine_transition p h = let (r, w) = transition o p h.world in (r, record h { world = w })

  -- `transition` of `wrapEngine(engine, traceStore, config)`.
  unfoldable pub wrapped_transition :
      TracedConfig → TransitionParams → Host S T → Outcome TransitionResult × Host S T
  wrapped_transition config p =
      if trace_enabled
      then traced_transition o store message_of event_object config p
      else engine_transition p

  unfoldable pub start_params : RuntimeIdentity → PersistedLoopInstance → StartLoopParams
  start_params identity row = record {
    loop_id = row.loop_id;
    aggregate_id = row.aggregate_id;
    actor = actor_ref identity.actor_id human;
    correlation_id = none;
    metadata = some (("tenantId", str row.tenant_id) ∷ []);
  }

  -- The event of a start, and the answer.
  unfoldable pub append_start :
      RuntimeIdentity
      → PersistedLoopInstance
      → (updated : PersistedLoopInstance) → N S T R StartLoopOutcome
  append_start identity row updated = do
    change (
        repo.append_event (record {
          aggregate_id = updated.aggregate_id;
          tenant_id = updated.tenant_id;
          type = "start";
          from_state = row.current_state;
          to_state = updated.current_state;
          actor_id = identity.actor_id;
          actor_type = "human";
          evidence = none;
        }))
    return (started updated.aggregate_id updated.current_state updated.status)

  -- The two writes after the engine's start.
  unfoldable pub record_start :
      RuntimeIdentity → PersistedLoopInstance → LoopInstance → N S T R StartLoopOutcome
  record_start identity row i = do
    updated ← change (
        repo.update_instance_state (record {
          tenant_id = row.tenant_id;
          id = row.id;
          current_state = i.current_state;
          status = loop_status_text i.status;
        }))
    append_start identity row updated

  unfoldable pub start_row : RuntimeIdentity → PersistedLoopInstance → N S T R StartLoopOutcome
  start_row identity row = do
    i ← on_host (engine_start (start_params identity row))
    record_start identity row i

  unfoldable pub start_existing :
      RuntimeIdentity → Option PersistedLoopInstance → N S T R StartLoopOutcome
  start_existing identity none = return not_found
  start_existing identity (some row) =
      if contains row.status ("CREATED" ∷ "PENDING" ∷ [])
      then start_row identity row
      else return (already_started row.status)

  unfoldable pub execute_oss_start :
      RuntimeIdentity → (aggregate_key : String) → N S T R StartLoopOutcome
  execute_oss_start identity key = do
    existing ← ask (λ r. repo.find_by_aggregate_id r identity.tenant_id key)
    start_existing identity existing

  unfoldable pub transition_params : TransitionLoopInput → PersistedLoopInstance → TransitionParams
  transition_params input row = record {
    aggregate_id = row.aggregate_id;
    transition_id = input.signal_id;
    actor = actor_ref input.actor.id (engine_actor_type input.actor.type);
    evidence = sanitize_evidence o.platform input.evidence;
    evidence_snapshots = undefined;
    tenant_id = none;
    correlation_id = none;
    constraints = none;
  }

  -- The event of an executed transition, and the answer.
  unfoldable pub append_transition :
      TransitionLoopInput
      → PersistedLoopInstance
      → (updated : PersistedLoopInstance) → N S T R TransitionLoopOutcome
  append_transition input row updated = do
    change (
        repo.append_event (record {
          aggregate_id = updated.aggregate_id;
          tenant_id = updated.tenant_id;
          type = input.signal_id;
          from_state = row.current_state;
          to_state = updated.current_state;
          actor_id = input.actor.id;
          actor_type = event_actor_type input.actor.type;
          evidence = sanitize_evidence o.platform input.evidence;
        }))
    return (
        transition_done (record {
          aggregate_id = updated.aggregate_id;
          previous_state = row.current_state;
          current_state = updated.current_state;
          status = updated.status;
          transitioned_at_iso = o.platform.date_iso updated.updated_at;
        }))

  -- The two writes after an executed transition.
  unfoldable pub record_transition :
      TransitionLoopInput → PersistedLoopInstance → (to : String) → N S T R TransitionLoopOutcome
  record_transition input row to = do
    updated ← change (
        repo.update_instance_state (record {
          tenant_id = row.tenant_id;
          id = row.id;
          current_state = to;
          status = if to == row.current_state then row.status else "OPEN";
        }))
    append_transition input row updated

  -- The answer to a result of the engine; an executed one with an empty target counts as rejected.
  unfoldable pub settle_transition :
      TransitionLoopInput → PersistedLoopInstance → TransitionResult → N S T R TransitionLoopOutcome
  settle_transition input row (executed from to warnings event) =
      if to == ""
      then return (transition_rejected "Transition rejected")
      else record_transition input row to
  settle_transition input row r = return (transition_rejected (blocked_reason r))

  unfoldable pub transition_row :
      TransitionLoopInput → PersistedLoopInstance → N S T R TransitionLoopOutcome
  transition_row input row = do
    result ← on_host (
        wrapped_transition
          (record {
            loop_id = row.loop_id;
            tenant_id = row.tenant_id;
            governed = or_false input.governed;
          })
          (transition_params input row))
    settle_transition input row result

  -- From the row that was found on.
  unfoldable pub transition_existing :
      TransitionLoopInput → Option PersistedLoopInstance → N S T R TransitionLoopOutcome
  transition_existing input none = return transition_not_found
  transition_existing input (some row) = transition_row input row

  unfoldable pub execute_oss_transition : TransitionLoopInput → N S T R TransitionLoopOutcome
  execute_oss_transition input = do
    existing ← ask (λ r. repo.find_by_aggregate_id r input.identity.tenant_id input.aggregate_key)
    transition_existing input existing

  unfoldable pub cancel_row : RuntimeIdentity → PersistedLoopInstance → N S T R CancelLoopOutcome
  cancel_row identity row = do
    updated ← change (
        repo.update_instance_state (record {
          tenant_id = row.tenant_id;
          id = row.id;
          current_state = "CANCELLED";
          status = "TERMINAL";
        }))
    change (
        repo.append_event (record {
          aggregate_id = row.aggregate_id;
          tenant_id = row.tenant_id;
          type = "CANCELLED";
          from_state = row.current_state;
          to_state = "CANCELLED";
          actor_id = identity.actor_id;
          actor_type = "human";
          evidence = none;
        }))
    return (cancel_done (to_loop_instance_dto o.platform updated))

  unfoldable pub cancel_existing :
      RuntimeIdentity → Option PersistedLoopInstance → N S T R CancelLoopOutcome
  cancel_existing identity none = return cancel_not_found
  cancel_existing identity (some row) =
      if row.status == "TERMINAL" then return already_terminal else cancel_row identity row

  unfoldable pub execute_oss_cancel :
      RuntimeIdentity → (aggregate_key : String) → N S T R CancelLoopOutcome
  execute_oss_cancel identity key = do
    existing ← ask (λ r. repo.find_by_aggregate_id r identity.tenant_id key)
    cancel_existing identity existing
