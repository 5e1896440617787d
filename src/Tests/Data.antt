-- ===== src/Tests/Data.antt =====
-- A definition with one governed transition, its engine over the memory store, and the calls of one
-- life of a loop.
use loop_engine.Prelude.{Bool, true, false, String, none, some, [], ◌∷◌}
use loop_engine.Prelude.Int.{pos}
use loop_engine.Core.{
  Platform, Value, undefined, str, boolean, array, object, array_of, object_of, number, ActorRef,
  human, ai_agent, GuardSpec, hard, runtime, StateSpec, TransitionSpec, LoopDefinition,
  LoopInstance, active,
}
use loop_engine.Events.{LoopEvent, EventBase, transition_executed}
use loop_engine.Evidence.Commit.{SnapshotStore}
use loop_engine.Guards.{GuardContext}
use loop_engine.Store.Memory.{MemoryStore, memory_store, empty}
use loop_engine.Runtime.World.{World, Options}
use loop_engine.Runtime.Transition.{TransitionParams, launch_versions, with_snapshots}
use loop_engine.Runtime.Lifecycle.{StartLoopParams}

abbrev pub instant : String
instant = "2026-01-01T00:00:00.000Z"

abbrev pub platform : Platform
platform = record {
  random_uuid = λ n. "u";
  iso_now = λ n. instant;
  now_ms = λ n. number 0;
  parse_date = λ s. some (pos 0);
  to_text = λ v. "t";
  to_number = λ v. number 0;
  sub_number = λ a b. a;
  date_iso = λ t. instant;
  random_suffix = λ n. "abc123";
  is_inherited = λ k. false;
  trim = λ s. s;
  to_lower = λ s. s;
  slice = λ s n. "";
  json_stringify = λ v. some "{}";
  json_number = λ n. "1";
  json_string = λ s. s;
  sha256_hex = λ s. s;
}

abbrev pub operator : ActorRef
operator = record { id = "op"; type = human; display_name = none; metadata = none }

abbrev pub agent : ActorRef
agent = record { id = "bot"; type = ai_agent; display_name = none; metadata = none }

abbrev pub human_guard : GuardSpec
human_guard = record {
  id = "human-only";
  description = "a human decides";
  severity = hard;
  evaluated_by = runtime;
  failure_message = none;
  parameters = none;
}

abbrev pub finish : TransitionSpec
finish = record {
  id = "finish";
  from = "OPEN";
  to = "DONE";
  signal = "finish";
  actors = human ∷ ai_agent ∷ [];
  guards = some (human_guard ∷ []);
  description = none;
  metadata = none;
}

abbrev state : String → Bool → StateSpec
state id terminal = record {
  id = id;
  label = id;
  is_terminal = some terminal;
  is_error = none;
  description = none;
}

abbrev pub definition : LoopDefinition
definition = record {
  id = "deal";
  version = "1";
  name = "Deal";
  description = "a deal";
  domain = none;
  states = state "OPEN" false ∷ state "DONE" true ∷ [];
  initial_state = "OPEN";
  transitions = finish ∷ [];
  outcome = none;
  tags = none;
  metadata = some (("governedEvidence", boolean true) ∷ []);
}

abbrev snapshots_stored : SnapshotStore
snapshots_stored batch = some ("s1" ∷ [])

abbrev pub options : Options MemoryStore
options = record {
  definition_of = λ id. some definition;
  store = memory_store;
  event_bus = some (λ log e. true);
  guard_registry = none;
  snapshot_store = some snapshots_stored;
  now = none;
  platform = platform;
}

abbrev pub fresh : World MemoryStore
fresh = record { store = empty; inserted = []; log = []; moment = 0 }

abbrev pub opening : StartLoopParams
opening = record {
  loop_id = "deal";
  aggregate_id = "a1";
  actor = operator;
  correlation_id = none;
  metadata = none;
}

abbrev pub snapshot : Value
snapshot = object (
    object_of (
      ("snapshotKey", str "k")
      ∷ ("sourceSystem", str "crm")
      ∷ ("capturedAt", str instant)
      ∷ ("capturedBy", str "op")
      ∷ ("values", object (object_of (("price", str "7") ∷ [])))
      ∷ ("versions", launch_versions)
      ∷ []))

abbrev pub finishing : TransitionParams
finishing = record {
  aggregate_id = "a1";
  transition_id = "finish";
  actor = operator;
  evidence = none;
  evidence_snapshots = array (array_of (snapshot ∷ []));
  tenant_id = some "t";
  correlation_id = none;
  constraints = none;
}

-- The same call without evidence.
abbrev pub unproven : TransitionParams
unproven = record finishing { evidence_snapshots = undefined }

abbrev pub base : EventBase
base = record {
  event_id = "u";
  loop_id = "deal";
  aggregate_id = "a1";
  occurred_at = instant;
  correlation_id = none;
}

abbrev pub opened : LoopInstance
opened = record {
  loop_id = "deal";
  aggregate_id = "a1";
  current_state = "OPEN";
  status = active;
  started_at = instant;
  updated_at = instant;
  correlation_id = none;
  completed_at = none;
  metadata = none;
}

abbrev pub finished_event : LoopEvent
finished_event =
    transition_executed base
      (record { transition_id = "finish"; from_state = "OPEN"; actor = operator }) "DONE" "finish"
      (some (with_snapshots ("s1" ∷ []) [])) []

abbrev pub context : GuardContext
context = record {
  actor = operator;
  loop_id = "deal";
  aggregate_id = "a1";
  from_state = "OPEN";
  to_state = "DONE";
  signal = "finish";
  evidence = some [];
  loop_data = none;
}
