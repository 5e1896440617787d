-- ===== src/Routes/Loops.antt =====
-- The write handlers (packages/runtime-routes/src/loops.ts), as they run behind
-- `withPersistedRunWrite`. A body that is `null` makes the reading of its fields throw.
use loop_engine.Prelude.{
  Bool, true, false, not, String, Option, none, some, List, [], ◌∷◌, if◌then◌else◌, ◌==◌,
}
use loop_engine.Core.{
  Platform, Value, undefined, null, str, object, Attributes, fields, read, Failure,
}
use loop_engine.Canonical.{◌<>◌}
use loop_engine.Events.{LoopEvent}
use loop_engine.Auth.{RuntimeIdentity}
use loop_engine.Service.{PersistedLoopInstance, type_error, N, return, ◌>>=◌, ask}
use loop_engine.Service.Provision.{
  ProvisionLoopInstanceOutcome, created, idempotent_replay, invalid_definition, conflict,
  provision_oss_loop_instance,
}
use loop_engine.Service.Execution.{
  StartLoopOutcome, started, not_found, already_started, TransitionActorType, human_actor, ai_actor,
  system_actor, TransitionLoopInput, TransitionLoopOutcome, transition_done, transition_not_found,
  transition_rejected, CancelLoopOutcome, cancel_done, cancel_not_found, already_terminal,
  execute_oss_start, execute_oss_transition, execute_oss_cancel,
}
use loop_engine.Routes.{
  Response, instance_body, started_body, transition_body, error, invalid, WriteContext, Handler,
}

-- `body.key`; `null` throws before.
unfoldable pub body_field : String → Value → Value
body_field k (object fs) = read k (fields fs)
body_field k _ = undefined

-- `target.join(", ")`.
unfoldable pub joined : List String → String
joined [] = ""
joined (s ∷ []) = s
joined (s ∷ t ∷ ts) = s <> ", " <> joined (t ∷ ts)

-- An object, or nothing.
unfoldable pub object_field : Value → Option Attributes
object_field (object fs) = some (fields fs)
object_field _ = none

-- What an optional field may be: absent, or of its type.
unfoldable pub is_absent_or_object : Value → Bool
is_absent_or_object undefined = true
is_absent_or_object (object fs) = true
is_absent_or_object _ = false

unfoldable pub is_absent_or_text : Value → Bool
is_absent_or_text undefined = true
is_absent_or_text (str s) = true
is_absent_or_text _ = false

unfoldable pub text_of : Value → Option String
text_of (str s) = some s
text_of _ = none

unfoldable pub actor_type_of : Value → Option TransitionActorType
actor_type_of (str s) =
    if s == "human"
    then some human_actor
    else if s == "ai"
    then some ai_actor
    else if s == "system"
    then some system_actor
    else none
actor_type_of _ = none

module _ {S T R : Type 0} (p : Platform) (message_of : Failure → String)
    (event_object : LoopEvent → Value) (trace_enabled : Bool) (ctx : WriteContext S T R) where
  -- `typeof v === "string" && v.trim().length > 0`.
  unfoldable pub non_blank : Value → Option String
  non_blank (str s) = if p.trim s == "" then none else some s
  non_blank _ = none

  unfoldable pub with_body : Option Value → (Value → N S T R Response) → N S T R Response
  with_body none k = return (error 422 "Invalid JSON body")
  with_body (some null) k = λ s. (type_error, s)
  with_body (some v) k = k v

  unfoldable pub create_response : ProvisionLoopInstanceOutcome → Response
  create_response (created dto) = record { status = 201; body = instance_body dto false }
  create_response (idempotent_replay dto) = record { status = 200; body = instance_body dto true }
  create_response invalid_definition = error 500 "Loop definition is missing initial state"
  create_response (conflict target) = error 409 ("Loop instance conflict on: " <> joined target)

  -- From the definition on.
  unfoldable pub provision_resolved :
      RuntimeIdentity
      → (loop_id : String) → Value
      → (payload : Attributes) → Option Value
      → N S T R Response
  provision_resolved identity loop_id body payload none =
      return (error 404 "Loop definition not found")
  provision_resolved identity loop_id body payload (some definition) = do
    outcome ← provision_oss_loop_instance p ctx.loop_instance_repository (record {
      identity = identity;
      loop_id = loop_id;
      payload = payload;
      idempotency_key = text_of (body_field "idempotencyKey" body);
      definition = definition;
    })
    return (create_response outcome)

  unfoldable pub create_checked :
      RuntimeIdentity → Value → (loop_id : String) → Attributes → N S T R Response
  create_checked identity body loop_id payload =
      if not (is_absent_or_text (body_field "idempotencyKey" body))
      then return (invalid "idempotencyKey" "idempotencyKey must be a string")
      else if not (is_absent_or_object (body_field "metadata" body))
      then return (invalid "metadata" "metadata must be an object")
      else provision_resolved identity (p.trim loop_id) body payload
          (ctx.resolve_loop_definition identity.tenant_id (p.trim loop_id))

  unfoldable pub create_body : RuntimeIdentity → Value → N S T R Response
  create_body identity body = elim (non_blank (body_field "loopId" body)) [
    | none ↦ return (invalid "loopId" "loopId must be a non-empty string")
    | some loop_id ↦ elim (object_field (body_field "payload" body)) [
      | none ↦ return (invalid "payload" "payload must be an object")
      | some payload ↦ create_checked identity body loop_id payload
    ]
  ]

  unfoldable pub loop_create_handler : Option Value → Handler S T R
  loop_create_handler json identity = with_body json (create_body identity)

  unfoldable pub start_response : StartLoopOutcome → Response
  start_response (started aggregate_id current_state status) = record {
    status = 200;
    body = started_body aggregate_id current_state status;
  }
  start_response not_found = error 404 "Loop not found"
  start_response (already_started status) =
      error 409 ("Loop already started (status: " <> status <> ")")

  unfoldable pub start_found :
      RuntimeIdentity → (id : String) → Option PersistedLoopInstance → N S T R Response
  start_found identity id none = return (error 404 "Loop not found")
  start_found identity id (some row) = do
    outcome ←
        execute_oss_start (ctx.engine_for_tenant identity.tenant_id)
          (ctx.trace_store_for_tenant identity.tenant_id) message_of event_object trace_enabled
          ctx.loop_instance_repository identity id
    return (start_response outcome)

  unfoldable pub loop_start_handler : (id : String) → Handler S T R
  loop_start_handler id identity = do
    existing ← ask (λ r. ctx.loop_instance_repository.find_by_aggregate_id r identity.tenant_id id)
    start_found identity id existing

  unfoldable pub transition_response : TransitionLoopOutcome → Response
  transition_response (transition_done e) = record { status = 200; body = transition_body e }
  transition_response transition_not_found = error 404 "Loop not found"
  transition_response (transition_rejected reason) = error 409 reason

  unfoldable pub transition_found :
      TransitionLoopInput → Option PersistedLoopInstance → N S T R Response
  transition_found input none = return (error 404 "Loop not found")
  transition_found input (some row) = do
    outcome ←
        execute_oss_transition (ctx.engine_for_tenant input.identity.tenant_id)
          (ctx.trace_store_for_tenant input.identity.tenant_id) message_of event_object
          trace_enabled ctx.loop_instance_repository input
    return (transition_response outcome)

  unfoldable pub transition_checked : TransitionLoopInput → N S T R Response
  transition_checked input = do
    existing ← ask (λ r.
        ctx.loop_instance_repository.find_by_aggregate_id r input.identity.tenant_id
          input.aggregate_key)
    transition_found input existing

  -- The checks of the actor and of the evidence; the signal is trimmed.
  unfoldable pub transition_actor :
      RuntimeIdentity → (id signal_id : String) → Value → (actor : Value) → N S T R Response
  transition_actor identity id signal_id body actor = elim (non_blank (body_field "id" actor)) [
    | none ↦ return (invalid "actor.id" "actor.id is required")
    | some actor_id ↦ elim (actor_type_of (body_field "type" actor)) [
      | none ↦ return (invalid "actor.type" "actor.type must be human|ai|system")
      | some actor_type ↦
          if not (is_absent_or_object (body_field "evidence" body))
          then return (invalid "evidence" "evidence must be an object")
          else transition_checked (record {
            identity = identity;
            aggregate_key = id;
            signal_id = p.trim signal_id;
            evidence = object_field (body_field "evidence" body);
            actor = record { id = actor_id; type = actor_type };
            governed = none;
          })
    ]
  ]

  unfoldable pub transition_request_body :
      RuntimeIdentity → (id : String) → Value → N S T R Response
  transition_request_body identity id body = elim (non_blank (body_field "signalId" body)) [
    | none ↦ return (invalid "signalId" "signalId is required")
    | some signal_id ↦ elim (object_field (body_field "actor" body)) [
      | none ↦ return (invalid "actor" "actor is required")
      | some actor ↦ transition_actor identity id signal_id body (body_field "actor" body)
    ]
  ]

  unfoldable pub loop_transition_handler : (id : String) → Option Value → Handler S T R
  loop_transition_handler id json identity = with_body json (transition_request_body identity id)

  unfoldable pub cancel_response : CancelLoopOutcome → Response
  cancel_response (cancel_done dto) = record { status = 200; body = instance_body dto false }
  cancel_response cancel_not_found = error 404 "Loop not found"
  cancel_response already_terminal = error 409 "Loop instance is already terminal"

  unfoldable pub loop_cancel_handler : (id : String) → Handler S T R
  loop_cancel_handler id identity = do
    outcome ←
        execute_oss_cancel (ctx.engine_for_tenant identity.tenant_id)
          (ctx.trace_store_for_tenant identity.tenant_id) message_of event_object trace_enabled
          ctx.loop_instance_repository identity id
    return (cancel_response outcome)
