-- ===== src/Core/Schema.antt =====
-- core/src/schemas.ts: actors, guards, transitions, states and loop definitions. Every branded
-- identifier is a text.
use loop_engine.Prelude.{Bool, true, false, String, List, Option}
use loop_engine.Core.Values.{Attributes}

pub data LoopStatus : Type 0 where
  pending active completed failed cancelled suspended : LoopStatus

pub data ActorType : Type 0 where
  human automation ai_agent system : ActorType

pub record ActorRef : Type 0 where
  pub id : String
  pub type : ActorType
  pub display_name : Option String
  pub metadata : Option Attributes

pub data GuardSeverity : Type 0 where
  hard soft : GuardSeverity

pub data GuardSource : Type 0 where
  runtime host_module external : GuardSource

pub record GuardSpec : Type 0 where
  pub id : String
  pub description : String
  pub severity : GuardSeverity
  pub evaluated_by : GuardSource
  pub failure_message : Option String
  pub parameters : Option Attributes

-- The parsed form, in which `signal` is always there.
pub record TransitionSpec : Type 0 where
  pub id : String
  pub from : String
  pub to : String
  pub signal : String
  pub actors : List ActorType
  pub guards : Option (List GuardSpec)
  pub description : Option String
  pub metadata : Option Attributes

pub record StateSpec : Type 0 where
  pub id : String
  pub label : String
  pub is_terminal : Option Bool
  pub is_error : Option Bool
  pub description : Option String

pub record BusinessMetric : Type 0 where
  pub id : String
  pub label : String
  pub unit : String
  pub improvable_by_ai : Option Bool

pub record OutcomeSpec : Type 0 where
  pub id : Option String
  pub description : String
  pub value_unit : String
  pub measurable : Option Bool
  pub business_metrics : List BusinessMetric

pub record LoopDefinition : Type 0 where
  pub id : String
  pub version : String
  pub name : String
  pub description : String
  pub domain : Option String
  pub states : List StateSpec
  pub initial_state : String
  pub transitions : List TransitionSpec
  pub outcome : Option OutcomeSpec
  pub tags : Option (List String)
  pub metadata : Option Attributes

-- `a === b` on the two enumerations that the code compares.
unfoldable pub same_actor_type : ActorType → ActorType → Bool
same_actor_type human human = true
same_actor_type automation automation = true
same_actor_type ai_agent ai_agent = true
same_actor_type system system = true
same_actor_type _ _ = false

unfoldable pub is_active : LoopStatus → Bool
is_active active = true
is_active _ = false

unfoldable pub is_completed : LoopStatus → Bool
is_completed completed = true
is_completed _ = false

-- `flag === true` and the truthiness of an optional Boolean.
unfoldable pub flag : Option Bool → Bool
flag (Option.some b) = b
flag Option.none = false
