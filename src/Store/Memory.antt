-- ===== src/Store/Memory.antt =====
-- `MemoryStore` (packages/adapter-memory/src/index.ts): two maps keyed by aggregate.
use loop_engine.Prelude.{
  ◌≡◌, refl, Bool, ◌&&◌, String, Option, none, some, List, [], ◌∷◌, ◌++◌, ◌==◌, Dict, get, put,
  values, get-put, filter, if◌then◌else◌, arith, eq_iff,
}
use loop_engine.Core.{LoopInstance, TransitionRecord, is_active}
use loop_engine.Store.{LoopStore}

pub record MemoryStore : Type 0 where
  pub loops : Dict LoopInstance
  pub transitions : Dict (List TransitionRecord)

unfoldable pub empty : MemoryStore
empty = record { loops = []; transitions = [] }

unfoldable pub get_instance : MemoryStore → String → Option LoopInstance
get_instance s a = get a s.loops

unfoldable pub save_instance : LoopInstance → MemoryStore → MemoryStore
save_instance i s = record s { loops = put i.aggregate_id i s.loops }

abbrev or_empty : Option (List TransitionRecord) → List TransitionRecord
or_empty none = []
or_empty (some rs) = rs

unfoldable pub get_transition_history : MemoryStore → String → List TransitionRecord
get_transition_history s a = or_empty (get a s.transitions)

unfoldable pub save_transition_record : TransitionRecord → MemoryStore → MemoryStore
unfolding get_transition_history
save_transition_record r s = record s {
  transitions =
      put r.aggregate_id (get_transition_history s r.aggregate_id ++ r ∷ []) s.transitions;
}

abbrev is_open : String → LoopInstance → Bool
is_open loop_id i = i.loop_id == loop_id && is_active i.status

unfoldable pub list_open_instances : MemoryStore → String → List LoopInstance
list_open_instances s loop_id = filter (is_open loop_id) (values s.loops)

pub get-save_instance :
    (s : MemoryStore) (i : LoopInstance) (a : String)
    → get_instance (save_instance i s) a
      ≡ (if i.aggregate_id == a then some i else get_instance s a)
unfolding get_instance save_instance
get-save_instance s i a = get-put i.aggregate_id a i s.loops

pub history-save_transition_record :
    (s : MemoryStore) (r : TransitionRecord) (a : String)
    → get_transition_history (save_transition_record r s) a ≡ (
        if r.aggregate_id == a
        then get_transition_history s a ++ r ∷ []
        else get_transition_history s a)
unfolding get_transition_history save_transition_record
history-save_transition_record s r a = ground (
  arith,
  get-put r.aggregate_id a (get_transition_history s r.aggregate_id ++ r ∷ []) s.transitions,
  eq_iff r.aggregate_id a,
)

pub get-save_transition_record :
    (s : MemoryStore) (r : TransitionRecord) (a : String)
    → get_instance (save_transition_record r s) a ≡ get_instance s a
unfolding get_instance save_transition_record
get-save_transition_record s r a = refl

pub history-save_instance :
    (s : MemoryStore) (i : LoopInstance) (a : String)
    → get_transition_history (save_instance i s) a ≡ get_transition_history s a
unfolding get_transition_history save_instance
history-save_instance s i a = refl

-- The memory store meets the laws of the port.
abbrev pub memory_store : LoopStore MemoryStore
memory_store = record {
  get_instance = get_instance;
  save_instance = save_instance;
  get_transition_history = get_transition_history;
  save_transition_record = save_transition_record;
  list_open_instances = list_open_instances;
  get-save_instance = get-save_instance;
  get-save_transition_record = get-save_transition_record;
  history-save_instance = history-save_instance;
  history-save_transition_record = history-save_transition_record;
}
