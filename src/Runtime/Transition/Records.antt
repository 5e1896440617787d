-- ===== src/Runtime/Transition/Records.antt =====
-- What `LoopEngine.transition` takes and returns, and the pure functions that compute what it writes
-- (runtime/src/engine.ts).
use loop_engine.Prelude.{
  ℕ, Bool, ◌&&◌, String, Option, none, some, List, [], ◌∷◌, map, put, any, if◌then◌else◌, ◌==◌,
}
use loop_engine.Prelude.Int.{monus}
use loop_engine.Core.{
  Platform, Value, undefined, str, array, object, num, number, array_of, object_of, items,
  Attributes, LoopDefinition, TransitionSpec, LoopInstance, TransitionRecord, ActorRef, completed,
  flag, OutcomeSpec,
}
use loop_engine.Actors.{AiActorConstraints}
use loop_engine.Events.{LoopEvent, GuardFailure, CompletedOutcome}
use loop_engine.Guards.{GuardEvaluationResult}
use loop_engine.Evidence.Commit.{RejectionReason}

pub record TransitionParams : Type 0 where
  pub aggregate_id : String
  pub transition_id : String
  pub actor : ActorRef
  pub evidence : Option Attributes
  -- `undefined` where absent
  pub evidence_snapshots : Value
  pub tenant_id : Option String
  pub correlation_id : Option String
  pub constraints : Option AiActorConstraints

pub data Rejection : Type 0 where
  loop_closed invalid_transition unauthorized_actor : Rejection
  evidence_refused : RejectionReason → Rejection

-- The four statuses of a `TransitionResult`, each with the fields that it sets.
pub data TransitionResult : Type 0 where
  rejected : (from_state : String) → Rejection → TransitionResult
  pending_approval : (from_state : String) → TransitionResult
  blocked : (from_state : String) → List GuardFailure → LoopEvent → TransitionResult
  executed : (from_state to_state : String) → List GuardFailure → LoopEvent → TransitionResult

-- `isTerminal`.
unfoldable pub is_terminal_state : LoopDefinition → String → Bool
is_terminal_state d id = any (λ s. s.id == id && flag s.is_terminal) d.states

-- The test of `transitions.find`.
abbrev pub leaves : (transition_id from : String) → TransitionSpec → Bool
leaves transition_id from t = t.id == transition_id && t.from == from

abbrev pub or_list {ℓ} : {A : Type ℓ} → Option (List A) → List A
or_list none = []
or_list (some xs) = xs

-- `a ?? b` on optional texts.
abbrev pub first_text : Option String → Option String → Option String
first_text none b = b
first_text (some a) b = some a

abbrev pub text_value : Option String → Value
text_value none = undefined
text_value (some s) = str s

abbrev pub failure_of : GuardEvaluationResult → GuardFailure
failure_of r = record { guard_id = r.guard_id; message = r.message }

unfoldable pub warning_value : GuardFailure → Value
warning_value f = object (object_of (("guardId", str f.guard_id) ∷ ("message", str f.message) ∷ []))

-- The start value of `committedEvidence`.
unfoldable pub with_warnings : List GuardFailure → Attributes → Attributes
with_warnings [] evidence = evidence
with_warnings (f ∷ fs) evidence =
    put "_softGuardWarnings" (array (array_of (map warning_value (f ∷ fs)))) evidence

-- `LAUNCH_DECISION_RECORD_VERSIONS`.
unfoldable pub launch_versions : Value
launch_versions = object (
    object_of (
      ("decisionRecordVersion", num (number 1))
      ∷ ("invariantVersion", num (number 1))
      ∷ ("canonicalVersion", num (number 1))
      ∷ []))

unfoldable pub with_snapshots : List String → Attributes → Attributes
with_snapshots ids evidence =
    put "versions" launch_versions (put "snapshotIds" (array (array_of (map str ids))) evidence)

-- `Math.max(0, Date.parse(now) - Date.parse(startedAt))`, with `none` for `NaN`.
unfoldable pub duration_ms : Platform → (now started_at : String) → Option ℕ
duration_ms p now started_at = elim (p.parse_date now) [
  | none ↦ none
  | some t ↦ elim (p.parse_date started_at) [ none ↦ none | some s ↦ some (monus t s) ]
]

unfoldable pub completed_outcome : Option OutcomeSpec → Option CompletedOutcome
completed_outcome none = none
completed_outcome (some s) = some (record { value_unit = s.value_unit; metrics = [] })

-- `updated`, the instance after the move.
unfoldable pub moved : LoopDefinition → LoopInstance → TransitionSpec → String → LoopInstance
moved d i t now =
    if is_terminal_state d t.to
    then record i {
      current_state = t.to;
      updated_at = now;
      status = completed;
      completed_at = some now;
    }
    else record i { current_state = t.to; updated_at = now }

unfoldable pub record_of :
    LoopInstance → TransitionSpec → ActorRef → String → Attributes → TransitionRecord
record_of i t actor now evidence = record {
  aggregate_id = i.aggregate_id;
  loop_id = i.loop_id;
  transition_id = t.id;
  signal = t.signal;
  from_state = i.current_state;
  to_state = t.to;
  actor = actor;
  occurred_at = now;
  evidence = some evidence;
}

abbrev pub entries : Value → List Value
entries (array vs) = items vs
entries _ = []
