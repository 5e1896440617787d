-- ===== src/Store.antt =====
-- The port to persistence (runtime/src/interfaces.ts) and its in-memory implementation
-- (packages/adapter-memory/src/index.ts).
pub mod Memory
use loop_engine.Prelude.{
  ◌≡◌, Bool, ◌&&◌, String, Option, none, some, List, [], ◌∷◌, ◌++◌, ◌==◌, if◌then◌else◌,
}
use loop_engine.Core.{LoopInstance, TransitionRecord}

-- `LoopStore` over a type of stored states, with the laws that the engine relies on.
pub record LoopStore (S : Type 0) : Type 0 where
  pub get_instance : S → String → Option LoopInstance
  pub save_instance : LoopInstance → S → S
  pub get_transition_history : S → String → List TransitionRecord
  pub save_transition_record : TransitionRecord → S → S
  pub list_open_instances : S → String → List LoopInstance
  pub get-save_instance :
      (s : S) (i : LoopInstance) (a : String)
      → get_instance (save_instance i s) a
        ≡ (if i.aggregate_id == a then some i else get_instance s a)
  pub get-save_transition_record :
      (s : S) (r : TransitionRecord) (a : String)
      → get_instance (save_transition_record r s) a ≡ get_instance s a
  pub history-save_instance :
      (s : S) (i : LoopInstance) (a : String)
      → get_transition_history (save_instance i s) a ≡ get_transition_history s a
  pub history-save_transition_record :
      (s : S) (r : TransitionRecord) (a : String)
      → get_transition_history (save_transition_record r s) a ≡ (
          if r.aggregate_id == a
          then get_transition_history s a ++ r ∷ []
          else get_transition_history s a)
