-- ===== src/Guards/Types.antt =====
-- guards/src/types.ts. An evaluator is a function of the moment of its call, the context and the
-- parameters; `none` is a rejected promise.
use loop_engine.Prelude.{ℕ, Bool, true, false, String, Option, List}
use loop_engine.Core.{ActorRef, Attributes, GuardSeverity, hard, soft}

pub record GuardContext : Type 0 where
  pub actor : ActorRef
  pub loop_id : String
  pub aggregate_id : String
  pub from_state : String
  pub to_state : String
  pub signal : String
  pub evidence : Option Attributes
  pub loop_data : Option Attributes

pub record GuardResult : Type 0 where
  pub passed : Bool
  pub code : Option String
  pub message : Option String
  pub metadata : Option Attributes

abbrev pub Evaluator : Type 0
Evaluator = ℕ → GuardContext → Option Attributes → Option GuardResult

pub record GuardEvaluationResult : Type 0 where
  pub guard_id : String
  pub severity : GuardSeverity
  pub passed : Bool
  pub code : Option String
  pub message : String
  pub metadata : Option Attributes

pub record GuardEvaluationSummary : Type 0 where
  pub hard_failures : List GuardEvaluationResult
  pub soft_failures : List GuardEvaluationResult
  pub all_passed : Bool

abbrev pub is_hard : GuardSeverity → Bool
is_hard hard = true
is_hard soft = false
