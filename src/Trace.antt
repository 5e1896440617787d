-- ===== src/Trace.antt =====
-- Traces of transitions: packages/observability/src/trace-types.ts, and the order of sequence numbers
-- that every reader of a trace starts with. A `Date` is its time value.
pub mod Sums
pub mod Memory
pub mod Sequence
pub mod Timeline
pub mod Responses
use loop_engine.Prelude.{ℕ, Bool, String, Option, List, [], ◌∷◌, leb, if◌then◌else◌}
use loop_engine.Core.{Value, Number, ActorRef}

pub data TraceEventType : Type 0 where
  started attempted guard_evaluated transition_completed blocked_transition terminal :
      TraceEventType

pub record GuardTraceEntry : Type 0 where
  pub guard_id : String
  pub passed : Bool
  pub reason : String
  pub evaluated_at : Number
  pub duration_ms : Number

pub record TraceRecord : Type 0 where
  pub id : String
  pub loop_run_id : String
  pub loop_id : String
  pub sequence : ℕ
  pub timestamp : Number
  pub type : TraceEventType
  pub from_state : Option String
  pub to_state : Option String
  pub transition_id : Option String
  pub actor : ActorRef
  pub input_hash : String
  pub input : Value
  pub output : Value
  pub guards : List GuardTraceEntry
  pub evidence : Value
  pub duration_ms : Number
  pub blocked : Bool
  pub block_reason : Option String
  pub governed : Bool
  pub tenant_id : String

pub record RunSummary : Type 0 where
  pub loop_run_id : String
  pub loop_id : String
  pub started_at : Number
  pub completed_at : Option Number
  pub terminal_state : Option String
  pub step_count : ℕ
  pub blocked_count : ℕ
  pub governed : Bool
  pub tenant_id : String

-- `.sort((a, b) => a.sequence - b.sequence)`, which is stable: a record goes before the first one
-- with a sequence that is not smaller.
unfoldable pub insert_by_sequence : TraceRecord → List TraceRecord → List TraceRecord
insert_by_sequence r [] = r ∷ []
insert_by_sequence r (s ∷ rs) =
    let rest = insert_by_sequence r rs in if leb r.sequence s.sequence then r ∷ s ∷ rs else s ∷ rest

unfoldable pub sort_by_sequence : List TraceRecord → List TraceRecord
sort_by_sequence [] = []
sort_by_sequence (r ∷ rs) = insert_by_sequence r (sort_by_sequence rs)

-- `r.type === t`.
abbrev pub code_of : TraceEventType → ℕ
code_of started = 0
code_of attempted = 1
code_of guard_evaluated = 2
code_of transition_completed = 3
code_of blocked_transition = 4
code_of terminal = 5
