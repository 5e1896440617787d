-- ===== src/Service/Traced.antt =====
-- `createOssTracedLoopSystem` (packages/runtime-core/src/oss-traced-loop-system.ts): a transition of
-- the engine, then the record of it. A trace store is a port over a type of stored states; its write
-- is not awaited and its failure is logged only, so a write is a function on the states.
pub mod Payload
pub mod Numbered
use loop_engine.Prelude.{
  ℕ, suc, ◌+◌, Bool, true, false, String, Option, none, some, List, [], ◌∷◌, ◌++◌, Dict, get, put,
  length, if◌then◌else◌,
}
use loop_engine.Core.{
  Platform, Value, undefined, number, str, num, array, object, array_of, object_of, Attributes,
  ActorRef, Outcome, ok, threw, Failure,
}
use loop_engine.Canonical.{◌<>◌}
use loop_engine.Events.{LoopEvent, GuardFailure}
use loop_engine.Evidence.Commit.{
  RejectionReason, evidence_required, invalid_evidence_snapshot, snapshot_store_required,
}
use loop_engine.Redaction.{guard_evidence}
use loop_engine.Runtime.World.{World, Options}
use loop_engine.Runtime.Transition.{
  TransitionParams, TransitionResult, Rejection, loop_closed, invalid_transition,
  unauthorized_actor, evidence_refused, rejected, pending_approval, blocked, executed, transition,
}
use loop_engine.Trace.Memory.{MemoryTraceStore, write}
use loop_engine.Trace.{
  TraceRecord, GuardTraceEntry, TraceEventType, transition_completed, blocked_transition,
}
use loop_engine.Service.Traced.Payload.{
  rejection_text, status_text, from_state_of, to_state_of, rejection_reason_of, guard_failures_of,
  severity_of, event_of, text_field, text_or_undefined, failure_values, failures_value,
  blocked_reason, trace_type_and_blocked, present_field, from_outcome, evidence_payload,
}

-- `TraceStore`, as far as the wrapper uses it; `allocate` is there when the store is a
-- `TraceSequenceAllocator`, and answers `none` where it throws.
pub record TraceStore (T : Type 0) : Type 0 where
  pub allocate : Option (String → T → Option ℕ)
  pub write : TraceRecord → T → T

pub record TracedConfig : Type 0 where
  pub loop_id : String
  pub tenant_id : String
  pub governed : Bool

-- `MemoryTraceStore` as a trace store: it allocates no sequences.
unfoldable pub memory_trace_store : TraceStore MemoryTraceStore
memory_trace_store = record { allocate = none; write = write }

-- The engine's world, the trace store, and the counters in `transitionSequenceByRun`.
pub record Host (S T : Type 0) : Type 0 where
  pub world : World S
  pub traces : T
  pub sequences : Dict ℕ

-- `nextInProcessSequence`.
unfoldable pub counter : String → Dict ℕ → ℕ
counter run sequences = elim (get run sequences) [ none ↦ 0 | some n ↦ n ]

unfoldable pub next_in_process_sequence : String → Dict ℕ → ℕ × Dict ℕ
next_in_process_sequence run sequences =
    (counter run sequences, put run (counter run sequences + 1) sequences)

module _ {S T : Type 0} (o : Options S) (store : TraceStore T) (message_of : Failure → String)
    (event_object : LoopEvent → Value) where
  -- `nextTraceSequence`, and the counter that is used instead where the allocation throws.
  unfoldable pub next_trace_sequence : String → T → Dict ℕ → ℕ × Dict ℕ
  next_trace_sequence run traces sequences = elim store.allocate [
    | none ↦ next_in_process_sequence run sequences
    | some allocate ↦ elim (allocate run traces) [
      | none ↦ next_in_process_sequence run sequences
      | some n ↦ (n, sequences)
    ]
  ]

  -- `mapGuardFailures`, with a draw for each date.
  unfoldable pub map_guard_failures : ℕ → List GuardFailure → List GuardTraceEntry
  map_guard_failures n [] = []
  map_guard_failures n (f ∷ fs) =
      record {
        guard_id = f.guard_id;
        passed = false;
        reason = f.message;
        evaluated_at = o.platform.now_ms n;
        duration_ms = number 0;
      }
      ∷ map_guard_failures (suc n) fs

  -- `result ?? {}` as a value.
  unfoldable pub result_value : Outcome TransitionResult → Value
  result_value (threw e) = object (object_of [])
  result_value (ok r) = object (
      object_of (
        ("status", str (status_text r))
          ∷ ("fromState", str (from_state_of r))
          ∷ text_field "toState" (to_state_of r)
        ++ present_field "guardFailures" (failures_value r)
        ++ text_field "rejectionReason" (rejection_reason_of r)
        ++ event_field (event_of r)))
    where
      event_field : Option LoopEvent → Attributes
      event_field none = []
      event_field (some event) = ("event", event_object event) ∷ []

  -- `JSON.stringify(rawInput)`, hashed.
  unfoldable pub input_hash : Attributes → String
  input_hash raw_input = elim (o.platform.json_stringify (object (object_of raw_input))) [
    | none ↦ o.platform.sha256_hex "[unserializable]"
    | some text ↦ o.platform.sha256_hex text
  ]

  abbrev raw_input : TransitionParams → Attributes
  raw_input p = elim p.evidence [ none ↦ [] | some evidence ↦ evidence ]

  -- The record of a call that began at draw `start` and left the draws from `n` on.
  unfoldable pub trace_record :
      TracedConfig
      → TransitionParams
      → Outcome TransitionResult
      → (sequence start n : ℕ) → TraceRecord
  trace_record config p r sequence start n =
      let run = p.aggregate_id in
      let failures = from_outcome [] guard_failures_of r in
      let at = n + length failures in
      let (type, is_blocked, reason) = trace_type_and_blocked message_of r in
      record {
        id =
            "tr_"
            <> run
            <> "_"
            <> o.platform.to_text (num (o.platform.now_ms at))
            <> "_"
            <> o.platform.random_suffix (at + 1);
        loop_run_id = run;
        loop_id = config.loop_id;
        sequence = sequence;
        timestamp = o.platform.now_ms (at + 2);
        type = type;
        from_state = from_outcome none (λ x. some (from_state_of x)) r;
        to_state = from_outcome none to_state_of r;
        transition_id = some p.transition_id;
        actor = record {
          id = p.actor.id;
          type = p.actor.type;
          display_name = none;
          metadata = none;
        };
        input_hash = input_hash (raw_input p);
        input = guard_evidence o.platform [] [] (object (object_of (raw_input p)));
        output = guard_evidence o.platform [] [] (result_value r);
        guards = map_guard_failures n failures;
        evidence = guard_evidence o.platform [] [] (evidence_payload r);
        duration_ms = o.platform.sub_number (o.platform.now_ms (at + 3)) (o.platform.now_ms start);
        blocked = is_blocked;
        block_reason = reason;
        governed = config.governed;
        tenant_id = config.tenant_id;
      }

  -- What follows the engine's call: the sequence, the record and its write.
  unfoldable pub trace_call :
      TracedConfig
      → TransitionParams
      → (start : ℕ) → Outcome TransitionResult × World S
      → Host S T
      → Outcome TransitionResult × Host S T
  trace_call config p start (r, w) h =
      let (n, sequences) = next_trace_sequence p.aggregate_id h.traces h.sequences in
      let failures = from_outcome [] guard_failures_of r in
      (
        r,
        record {
          world = record w { moment = w.moment + length failures + 4 };
          traces = store.write (trace_record config p r n start w.moment) h.traces;
          sequences = sequences;
        },
      )

  -- `wrappedTransition`; the first draw is `startMs`.
  unfoldable pub traced_transition :
      TracedConfig → TransitionParams → Host S T → Outcome TransitionResult × Host S T
  traced_transition config p h =
      trace_call config p h.world.moment
        (transition o p (record h.world { moment = suc h.world.moment })) h
