-- ===== src/Trace/Timeline.antt =====
-- A timeline and its metrics, built from a trace (packages/observability/src/trace-timeline.ts). The
-- records are typed, so the filter `isTraceRecord` keeps them all.
pub mod Metrics
use Prim.Native.String
use Prim.Native.Char.{code}
use loop_engine.Prelude.{
  ℕ, zero, suc, ◌+◌, Bool, true, false, ◌&&◌, ◌||◌, not, String, Option, none, some, List, [], ◌∷◌,
  ◌++◌, map, find, any, length, eqb, if◌then◌else◌, ◌==◌,
}
use loop_engine.Core.{
  Platform, Value, object, Fields, Number, number, number_of_int, ActorType, human, automation,
  ai_agent, system, ActorRef,
}
use loop_engine.Trace.{
  TraceRecord, GuardTraceEntry, TraceEventType, started, terminal, transition_completed,
  blocked_transition, sort_by_sequence,
}
use loop_engine.Trace.Memory.{same_type}

pub record TraceStateResidency : Type 0 where
  pub state : String
  pub entered_at : String
  pub exited_at : Option String
  pub duration_ms : Option Number

pub record TimelineGuard : Type 0 where
  pub guard_id : String
  pub passed : Bool
  pub reason : Option String

pub record TimelineTransition : Type 0 where
  pub from : String
  pub to : String
  pub transition_id : String
  pub actor_id : String
  pub actor_type : String
  pub timestamp : String
  pub evidence : Option Value
  pub guard_results : List TimelineGuard

pub record TraceLoopTimeline : Type 0 where
  pub loop_id : String
  pub instance_id : String
  pub started_at : String
  pub completed_at : Option String
  pub transitions : List TimelineTransition
  pub state_residency : List TraceStateResidency

pub record TraceLoopMetrics : Type 0 where
  pub loop_id : String
  pub instance_id : String
  pub total_duration_ms : Option Number
  pub transition_count : ℕ
  pub guard_block_count : ℕ
  pub human_approval_count : ℕ
  pub terminal_state : Option String
  pub outcome_id : Option String

-- `String(actor.type)`.
unfoldable pub actor_type_text : ActorType → String
actor_type_text human = "human"
actor_type_text automation = "automation"
actor_type_text ai_agent = "ai-agent"
actor_type_text system = "system"

unfoldable pub evidence_to_record : Value → Option Value
evidence_to_record (object fs) = some (object fs)
evidence_to_record _ = none

-- `if (g.reason)`.
unfoldable pub guard_result_of : GuardTraceEntry → TimelineGuard
guard_result_of g = record {
  guard_id = g.guard_id;
  passed = g.passed;
  reason = if g.reason == "" then none else some g.reason;
}

unfoldable pub guard_results_from_trace : List GuardTraceEntry → List TimelineGuard
guard_results_from_trace guards = map guard_result_of guards

abbrev pub text_or_empty : Option String → String
text_or_empty none = ""
text_or_empty (some s) = s

unfoldable pub is_step : TraceRecord → Bool
is_step r = same_type r.type transition_completed || same_type r.type blocked_transition

-- The states of the residency that are left, and the state that is entered, if there is one.
pub record Residing : Type 0 where
  pub out : List TraceStateResidency
  pub current_state : Option String
  pub entered_at : Option Number

-- `if (s)` on a nullable text.
unfoldable pub non_empty : Option String → Option String
non_empty none = none
non_empty (some s) = if s == "" then none else some s

module _ (p : Platform) where
  unfoldable pub transition_of : TraceRecord → TimelineTransition
  transition_of r = record {
    from = text_or_empty r.from_state;
    to = text_or_empty r.to_state;
    transition_id = text_or_empty r.transition_id;
    actor_id = r.actor.id;
    actor_type = actor_type_text r.actor.type;
    timestamp = p.date_iso r.timestamp;
    evidence = evidence_to_record r.evidence;
    guard_results = guard_results_from_trace r.guards;
  }

  -- The loop that builds `transitions`.
  unfoldable pub transitions_of : List TraceRecord → List TimelineTransition
  transitions_of [] = []
  transitions_of (r ∷ rs) =
      let rest = transitions_of rs in if is_step r then transition_of r ∷ rest else rest

  -- `close(exitAt)`.
  unfoldable pub close : Number → Residing → Residing
  close exit_at s = elim s.current_state [
    | none ↦ s
    | some state ↦ elim s.entered_at [
      | none ↦ s
      | some entered ↦ record s {
        out =
            s.out
            ++ record {
              state = state;
              entered_at = p.date_iso entered;
              exited_at = some (p.date_iso exit_at);
              duration_ms = some (p.sub_number exit_at entered);
            }
              ∷ [];
      }
    ]
  ]

  abbrev pub enter : String → Number → Residing → Residing
  enter state at s = record s { current_state = some state; entered_at = some at }

  abbrev pub is_current : String → Residing → Bool
  is_current from s = elim s.current_state [ none ↦ false | some state ↦ state == from ]

  -- A step record with both states.
  unfoldable pub pass : (from to : String) → Number → Residing → Residing
  pass from to at s = enter to at (if is_current from s then close at s else s)

  unfoldable pub reside : TraceRecord → Residing → Residing
  reside r s =
      if same_type r.type started
      then elim (non_empty r.to_state) [ none ↦ s | some to ↦ enter to r.timestamp s ]
      else if is_step r
      then elim (non_empty r.from_state) [
        | none ↦ s
        | some from ↦ elim (non_empty r.to_state) [
          | none ↦ s
          | some to ↦ pass from to r.timestamp s
        ]
      ]
      else if same_type r.type terminal
      then record (close r.timestamp s) { current_state = none; entered_at = none }
      else s

  unfoldable pub reside_all : List TraceRecord → Residing → Residing
  reside_all [] s = s
  reside_all (r ∷ rs) s = reside_all rs (reside r s)

  unfoldable pub last_residency : Residing → List TraceStateResidency
  last_residency s = elim s.current_state [
    | none ↦ s.out
    | some state ↦ elim s.entered_at [
      | none ↦ s.out
      | some entered ↦
          s.out
          ++ record {
            state = state;
            entered_at = p.date_iso entered;
            exited_at = none;
            duration_ms = none;
          }
            ∷ []
    ]
  ]

  unfoldable pub compute_state_residency : List TraceRecord → List TraceStateResidency
  compute_state_residency sorted =
      last_residency
        (reside_all sorted (record { out = []; current_state = none; entered_at = none }))

  -- The timeline of a sorted trace.
  unfoldable pub timeline_of_sorted : List TraceRecord → TraceLoopTimeline
  timeline_of_sorted [] = record {
    loop_id = "";
    instance_id = "";
    started_at = p.date_iso (number 0);
    completed_at = none;
    transitions = [];
    state_residency = [];
  }
  timeline_of_sorted (first ∷ rest) =
      let list = first ∷ rest in
      record {
        loop_id = first.loop_id;
        instance_id = first.loop_run_id;
        started_at = elim (find (λ r. same_type r.type started) list) [
          | none ↦ p.date_iso first.timestamp
          | some r ↦ p.date_iso r.timestamp
        ];
        completed_at = elim (find (λ r. same_type r.type terminal) list) [
          | none ↦ none
          | some r ↦ some (p.date_iso r.timestamp)
        ];
        transitions = transitions_of list;
        state_residency = compute_state_residency list;
      }

  unfoldable pub build_timeline_from_trace : List TraceRecord → TraceLoopTimeline
  build_timeline_from_trace records = timeline_of_sorted (sort_by_sequence records)
