-- ===== src/Events.antt =====
-- packages/events: the events, their schemas and their factories (events/src/events.ts, schemas.ts,
-- factory.ts). A factory gets the base that `buildBase` makes, and is `none` where the schema's
-- `parse` throws. Of the checks, those that a value of the declared type can fail are modelled: a
-- text of length 0 and a duration that is no number. The identifier and the time of the base come
-- from the platform in the format that the schema wants.
use loop_engine.Prelude.{
  ℕ, Bool, true, false, ◌&&◌, not, String, Option, none, some, List, all, if◌then◌else◌, ◌==◌,
}
use loop_engine.Core.{ActorRef, Attributes, GuardSeverity, Platform}

pub record EventBase : Type 0 where
  pub event_id : String
  pub loop_id : String
  pub aggregate_id : String
  pub occurred_at : String
  pub correlation_id : Option String

pub record DefinitionRef : Type 0 where
  pub loop_id : String
  pub version : String
  pub name : String

pub record CompletedOutcome : Type 0 where
  pub value_unit : String
  pub metrics : Attributes

pub record ErrorInfo : Type 0 where
  pub code : String
  pub message : String
  pub stack : Option String

pub record GuardFailure : Type 0 where
  pub guard_id : String
  pub message : String

-- What the events about one transition share.
pub record Move : Type 0 where
  pub transition_id : String
  pub from_state : String
  pub actor : ActorRef

pub data LoopEvent : Type 0 where
  loop_started : EventBase → (initial_state : String) → ActorRef → DefinitionRef → LoopEvent
  -- the duration is `none` for `NaN`
  loop_completed :
      EventBase
      → (final_state : String) → ActorRef
      → (duration_ms : Option ℕ) → Option CompletedOutcome
      → LoopEvent
  loop_cancelled :
      EventBase → (from_state : String) → ActorRef → (reason : Option String) → LoopEvent
  loop_failed : EventBase → (from_state : String) → ErrorInfo → LoopEvent
  transition_requested :
      EventBase → Move → (to_state signal : String) → (evidence : Option Attributes) → LoopEvent
  transition_executed :
      EventBase
      → Move
      → (to_state signal : String) → (evidence : Option Attributes)
      → (soft_guard_warnings : List GuardFailure) → LoopEvent
  transition_blocked :
      EventBase
      → Move
      → (attempted_to_state : String) → (guard_failures : List GuardFailure) → LoopEvent
  guard_failed :
      EventBase
      → Move
      → (guard_id : String) → GuardSeverity
      → (message : String) → (metadata : Option Attributes) → LoopEvent
  signal_received :
      EventBase
      → (signal from_state : String) → ActorRef
      → (payload : Option Attributes) → LoopEvent

-- `z.string().min(1)`.
unfoldable pub nonempty : String → Bool
nonempty s = not (s == "")

unfoldable pub accepts_failures : List GuardFailure → Bool
accepts_failures = all (λ f. nonempty f.message)

unfoldable pub accepts_definition : DefinitionRef → Bool
accepts_definition d = nonempty d.version && nonempty d.name

unfoldable pub accepts_outcome : Option CompletedOutcome → Bool
accepts_outcome none = true
accepts_outcome (some o) = nonempty o.value_unit

unfoldable pub accepts_duration : Option ℕ → Bool
accepts_duration none = false
accepts_duration (some ms) = true

-- Whether the event's schema accepts it.
unfoldable pub schema_accepts : LoopEvent → Bool
schema_accepts (loop_started b s a d) = accepts_definition d
schema_accepts (loop_completed b s a ms o) = accepts_duration ms && accepts_outcome o
schema_accepts (loop_cancelled b s a r) = true
schema_accepts (loop_failed b s e) = nonempty e.code && nonempty e.message
schema_accepts (transition_requested b m t s e) = true
schema_accepts (transition_executed b m t s e ws) = accepts_failures ws
schema_accepts (transition_blocked b m t fs) = accepts_failures fs
schema_accepts (guard_failed b m g s msg md) = nonempty msg
schema_accepts (signal_received b s f a p) = true

-- `Schema.parse`.
unfoldable pub parse : LoopEvent → Option LoopEvent
parse e = if schema_accepts e then some e else none

-- `buildBase` with the loop's identifiers; both draws have number `n`.
unfoldable pub build_base :
    Platform → ℕ → (loop_id aggregate_id : String) → Option String → EventBase
build_base p n loop_id aggregate_id correlation_id = record {
  event_id = p.random_uuid n;
  loop_id = loop_id;
  aggregate_id = aggregate_id;
  occurred_at = p.iso_now n;
  correlation_id = correlation_id;
}
