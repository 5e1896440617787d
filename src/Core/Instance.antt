-- ===== src/Core/Instance.antt =====
-- core/src/loopInstance.ts: what the store keeps.
use loop_engine.Prelude.{String, Option}
use loop_engine.Core.Values.{Attributes}
use loop_engine.Core.Schema.{LoopStatus, ActorRef}

pub record LoopInstance : Type 0 where
  pub loop_id : String
  pub aggregate_id : String
  pub current_state : String
  pub status : LoopStatus
  pub started_at : String
  pub updated_at : String
  pub correlation_id : Option String
  pub completed_at : Option String
  pub metadata : Option Attributes

pub record TransitionRecord : Type 0 where
  pub aggregate_id : String
  pub loop_id : String
  pub transition_id : String
  pub signal : String
  pub from_state : String
  pub to_state : String
  pub actor : ActorRef
  pub occurred_at : String
  pub evidence : Option Attributes
