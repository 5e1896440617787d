-- ===== src/Sdk.antt =====
-- `createLoopSystem` (packages/sdk/src/index.ts): the merge of the definitions, their validation, and
-- the options of the engine. `InMemoryEventBus.emit`
-- (events/src/bus.ts) never rejects: it catches the errors of its handlers.
pub mod System
use loop_engine.Prelude.{
  Bool, true, false, String, Option, none, some, List, [], ◌∷◌, Dict, put, values, find, all,
  is_empty, if◌then◌else◌, ◌==◌,
}
use loop_engine.Core.{Platform, LoopDefinition}
use loop_engine.Guards.{GuardRegistry}
use loop_engine.Guards.BuiltIn.{register_built_ins}
use loop_engine.Evidence.Commit.{SnapshotStore}
use loop_engine.Store.{LoopStore}
use loop_engine.Runtime.World.{Options, EventBus}
use loop_engine.Validator.{validate_loop_definition}

-- `CreateLoopSystemOptions`; `registry` is the answer of `registry.list()`, `none` where it rejects.
-- `store` is the store in use: that of a caller who gives none is `memory_store`, over `MemoryStore`.
pub record CreateLoopSystemOptions (S : Type 0) : Type 0 where
  pub loops : List LoopDefinition
  pub store : LoopStore S
  pub guards : Option GuardRegistry
  pub registry : Option (Option (List LoopDefinition))
  pub snapshot_store : Option SnapshotStore

-- One loop of `mergeDefinitions`.
unfoldable pub merge_into : List LoopDefinition → Dict LoopDefinition → Dict LoopDefinition
merge_into [] merged = merged
merge_into (d ∷ ds) merged = merge_into ds (put d.id d merged)

unfoldable pub merge_definitions :
    (registry_loops local_loops : List LoopDefinition) → List LoopDefinition
merge_definitions registry_loops local_loops =
    values (merge_into local_loops (merge_into registry_loops []))

-- `InMemoryLoopRegistry.get`.
unfoldable pub registry_get : List LoopDefinition → String → Option LoopDefinition
registry_get loops id = find (λ d. d.id == id) loops

-- A registry that rejects is left out, with a warning.
unfoldable pub registry_loops : Option (Option (List LoopDefinition)) → List LoopDefinition
registry_loops none = []
registry_loops (some none) = []
registry_loops (some (some loops)) = loops

abbrev pub is_valid : LoopDefinition → Bool
is_valid d = is_empty (validate_loop_definition d)

unfoldable pub in_memory_event_bus : EventBus
in_memory_event_bus log event = true

module _ {S : Type 0} (p : Platform) where
  unfoldable pub engine_options : CreateLoopSystemOptions S → List LoopDefinition → Options S
  engine_options options loops = record {
    definition_of = registry_get loops;
    store = options.store;
    event_bus = some in_memory_event_bus;
    guard_registry = elim options.guards [
      | none ↦ some (register_built_ins p [])
      | some guards ↦ some guards
    ];
    snapshot_store = options.snapshot_store;
    now = none;
    platform = p;
  }

  -- `none` where an invalid definition makes it throw.
  unfoldable pub create_loop_system : CreateLoopSystemOptions S → Option (Options S)
  create_loop_system options =
      let merged = merge_definitions (registry_loops options.registry) options.loops in
      if all is_valid merged then some (engine_options options merged) else none
