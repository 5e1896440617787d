-- ===== src/Service/Traced/Payload.antt =====
-- The evidence that a trace record keeps of the result of a transition, and its type and reason
-- (packages/runtime-core/src/oss-traced-loop-system.ts).
use loop_engine.Prelude.{Bool, true, false, String, Option, none, some, List, [], ◌∷◌}
use loop_engine.Core.{
  Value, undefined, str, array, object, array_of, object_of, Attributes, Outcome, ok, threw,
  Failure,
}
use loop_engine.Events.{LoopEvent, GuardFailure}
use loop_engine.Evidence.Commit.{
  evidence_required, invalid_evidence_snapshot, snapshot_store_required,
}
use loop_engine.Runtime.Transition.{
  TransitionResult, Rejection, loop_closed, invalid_transition, unauthorized_actor,
  evidence_refused, rejected, pending_approval, blocked, executed,
}
use loop_engine.Trace.{TraceEventType, transition_completed, blocked_transition}

unfoldable pub rejection_text : Rejection → String
rejection_text loop_closed = "loop_closed"
rejection_text invalid_transition = "invalid_transition"
rejection_text unauthorized_actor = "unauthorized_actor"
rejection_text (evidence_refused evidence_required) = "evidence_required"
rejection_text (evidence_refused invalid_evidence_snapshot) = "invalid_evidence_snapshot"
rejection_text (evidence_refused snapshot_store_required) = "snapshot_store_required"

-- The fields of a result, `none` where it does not set them.
unfoldable pub status_text : TransitionResult → String
status_text (rejected from reason) = "rejected"
status_text (pending_approval from) = "pending_approval"
status_text (blocked from failures event) = "guard_failed"
status_text (executed from to warnings event) = "executed"

unfoldable pub from_state_of : TransitionResult → String
from_state_of (rejected from reason) = from
from_state_of (pending_approval from) = from
from_state_of (blocked from failures event) = from
from_state_of (executed from to warnings event) = from

unfoldable pub to_state_of : TransitionResult → Option String
to_state_of (executed from to warnings event) = some to
to_state_of _ = none

unfoldable pub rejection_reason_of : TransitionResult → Option String
rejection_reason_of (rejected from reason) = some (rejection_text reason)
rejection_reason_of _ = none

-- The failures, and the severity that the engine sets on them.
unfoldable pub guard_failures_of : TransitionResult → List GuardFailure
guard_failures_of (blocked from failures event) = failures
guard_failures_of (executed from to warnings event) = warnings
guard_failures_of _ = []

unfoldable pub severity_of : TransitionResult → String
severity_of (executed from to warnings event) = "soft"
severity_of _ = "hard"

unfoldable pub event_of : TransitionResult → Option LoopEvent
event_of (blocked from failures event) = some event
event_of (executed from to warnings event) = some event
event_of _ = none

abbrev pub text_field : String → Option String → Attributes
text_field k none = []
text_field k (some s) = (k, str s) ∷ []

abbrev pub text_or_undefined : Option String → Value
text_or_undefined none = undefined
text_or_undefined (some s) = str s

unfoldable pub failure_values : String → List GuardFailure → List Value
failure_values severity [] = []
failure_values severity (f ∷ fs) =
    object (
      object_of (
        ("guardId", str f.guard_id) ∷ ("message", str f.message) ∷ ("severity", str severity) ∷ []))
    ∷ failure_values severity fs

-- `result.guardFailures`: a blocked result always has the list, an executed one has it when it is not
-- empty.
unfoldable pub failures_value : TransitionResult → Value
failures_value (blocked from failures event) = array (array_of (failure_values "hard" failures))
failures_value (executed from to [] event) = undefined
failures_value (executed from to (f ∷ fs) event) = array (array_of (failure_values "soft" (f ∷ fs)))
failures_value _ = undefined

-- `traceTypeAndBlocked`.
unfoldable pub blocked_reason : TransitionResult → String
blocked_reason (rejected from reason) = rejection_text reason
blocked_reason (blocked from failures event) = "Transition blocked by guard"
blocked_reason _ = "Transition rejected"

unfoldable pub trace_type_and_blocked :
    (Failure → String) → Outcome TransitionResult → TraceEventType × Bool × Option String
trace_type_and_blocked message_of (threw e) = (blocked_transition, true, some (message_of e))
trace_type_and_blocked message_of (ok (executed from to warnings event)) =
    (transition_completed, false, none)
trace_type_and_blocked message_of (ok r) = (blocked_transition, true, some (blocked_reason r))

-- A key that the result has only where it is set.
abbrev pub present_field : String → Value → Attributes
present_field k undefined = []
present_field k v = (k, v) ∷ []

abbrev pub from_outcome : {A : Type 0} → A → (TransitionResult → A) → Outcome TransitionResult → A
from_outcome default f (ok r) = f r
from_outcome default f (threw e) = default

-- `evidencePayload`, before `guardEvidence`.
unfoldable pub evidence_payload : Outcome TransitionResult → Value
evidence_payload r = object (
    object_of (
      ("transitionStatus", from_outcome undefined (λ x. str (status_text x)) r)
      ∷ ("fromState", from_outcome undefined (λ x. str (from_state_of x)) r)
      ∷ ("toState", from_outcome undefined (λ x. text_or_undefined (to_state_of x)) r)
      ∷ (
        "rejectionReason",
        from_outcome undefined (λ x. text_or_undefined (rejection_reason_of x)) r,
      )
      ∷ ("guardFailures", from_outcome undefined failures_value r)
      ∷ []))
