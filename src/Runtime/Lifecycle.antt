-- ===== src/Runtime/Lifecycle.antt =====
-- `start`, `cancelLoop`, `failLoop` and the reads of `LoopEngine`.
use loop_engine.Prelude.{Bool, false, String, Option, none, some, List, if◌then◌else◌, ◌==◌}
use loop_engine.Core.{
  Attributes, LoopDefinition, LoopInstance, TransitionRecord, ActorRef, active, cancelled, failed,
  is_active, instance_not_found, definition_not_found, active_loop_exists,
}
use loop_engine.Events.{LoopEvent, EventBase, ErrorInfo, loop_started, loop_cancelled, loop_failed}
use loop_engine.Runtime.World.{
  Options, M, pure, throw, ◌>>=◌, ◌>>◌, require, read_store, write_store, clock, emit, create,
}

pub record StartLoopParams : Type 0 where
  pub loop_id : String
  pub aggregate_id : String
  pub actor : ActorRef
  pub correlation_id : Option String
  pub metadata : Option Attributes

-- `...(s ? { key: s } : {})`: an empty text is left out.
unfoldable pub truthy : Option String → Option String
truthy none = none
truthy (some s) = if s == "" then none else some s

-- Whether `start` finds an active loop.
unfoldable pub is_running : Option LoopInstance → Bool
is_running none = false
is_running (some i) = is_active i.status

unfoldable pub initial_instance : LoopDefinition → StartLoopParams → String → LoopInstance
initial_instance d p now = record {
  loop_id = d.id;
  aggregate_id = p.aggregate_id;
  current_state = d.initial_state;
  status = active;
  started_at = now;
  updated_at = now;
  correlation_id = truthy p.correlation_id;
  completed_at = none;
  metadata = p.metadata;
}

unfoldable pub cancelled_instance : LoopInstance → String → LoopInstance
cancelled_instance i now = record i {
  status = cancelled;
  completed_at = some now;
  updated_at = now;
}

unfoldable pub failed_instance : LoopInstance → String → LoopInstance
failed_instance i now = record i { status = failed; completed_at = some now; updated_at = now }

module _ {S : Type 0} (o : Options S) where
  -- What follows the write of `start`.
  unfoldable pub announce_start : LoopDefinition → StartLoopParams → String → M S LoopInstance
  announce_start d p now = do
    event ← create o d.id p.aggregate_id p.correlation_id (λ b.
        loop_started b d.initial_state p.actor
          (record { loop_id = d.id; version = d.version; name = d.name }))
    emit o event
    pure (initial_instance d p now)

  unfoldable pub open_loop : LoopDefinition → StartLoopParams → M S LoopInstance
  open_loop d p = do
    now ← clock o
    write_store (o.store.save_instance (initial_instance d p now))
    announce_start d p now

  unfoldable pub start : StartLoopParams → M S LoopInstance
  start p = do
    d ← require (o.definition_of p.loop_id) (definition_not_found p.loop_id)
    existing ← read_store (λ s. o.store.get_instance s p.aggregate_id)
    if is_running existing then throw (active_loop_exists p.aggregate_id) else open_loop d p

  -- The end of `cancelLoop` and of `failLoop`: the event of the found instance, emitted.
  unfoldable pub announce_end : LoopInstance → (EventBase → LoopEvent) → M S LoopEvent
  announce_end i make = do
    event ← create o i.loop_id i.aggregate_id i.correlation_id make
    emit o event
    pure event

  -- The write of a closed instance and the event, on a found instance.
  unfoldable pub close_loop :
      (LoopInstance → String → LoopInstance)
      → LoopInstance
      → (EventBase → LoopEvent)
      → M S LoopEvent
  close_loop closed i make = do
    now ← clock o
    write_store (o.store.save_instance (closed i now))
    announce_end i make

  unfoldable pub cancel_loop : (aggregate_id : String) → ActorRef → Option String → M S LoopEvent
  cancel_loop aggregate_id actor reason = do
    found ← read_store (λ s. o.store.get_instance s aggregate_id)
    i ← require found (instance_not_found aggregate_id)
    close_loop cancelled_instance i (λ b. loop_cancelled b i.current_state actor reason)

  unfoldable pub fail_loop : (aggregate_id from_state : String) → ErrorInfo → M S LoopEvent
  fail_loop aggregate_id from_state error = do
    found ← read_store (λ s. o.store.get_instance s aggregate_id)
    i ← require found (instance_not_found aggregate_id)
    close_loop failed_instance i (λ b. loop_failed b from_state error)

  unfoldable pub get_state : String → M S (Option LoopInstance)
  get_state aggregate_id = read_store (λ s. o.store.get_instance s aggregate_id)

  unfoldable pub get_history : String → M S (List TransitionRecord)
  get_history aggregate_id = read_store (λ s. o.store.get_transition_history s aggregate_id)

  unfoldable pub list_open : String → M S (List LoopInstance)
  list_open loop_id = read_store (λ s. o.store.list_open_instances s loop_id)
