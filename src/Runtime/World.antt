-- ===== src/Runtime/World.antt =====
-- What an engine call reads and changes, and its error monad. A thrown error keeps the changes made
-- before it, as an exception does.
use loop_engine.Prelude.{
  ℕ, suc, Bool, String, Option, none, some, List, [], ◌∷◌, ◌++◌, if◌then◌else◌,
}
use loop_engine.Core.{
  Platform, LoopDefinition, Outcome, ok, threw, Failure, schema_rejected, emit_rejected,
}
use loop_engine.Events.{LoopEvent, EventBase, build_base, parse}
use loop_engine.Guards.{GuardRegistry}
use loop_engine.Guards.BuiltIn.{register_built_ins}
use loop_engine.Evidence.Commit.{SnapshotStore, SnapshotStoreInsertInput}
use loop_engine.Store.{LoopStore}

-- `log` is what the event bus was given, and `moment` counts the draws from the platform.
pub record World (S : Type 0) : Type 0 where
  pub store : S
  pub inserted : List SnapshotStoreInsertInput
  pub log : List LoopEvent
  pub moment : ℕ

-- Whether `emit` resolves, given the events before.
abbrev pub EventBus : Type 0
EventBus = List LoopEvent → LoopEvent → Bool

-- `LoopEngineOptions`; `definition_of` is `registry.get`.
pub record Options (S : Type 0) : Type 0 where
  pub definition_of : String → Option LoopDefinition
  pub store : LoopStore S
  pub event_bus : Option EventBus
  pub guard_registry : Option GuardRegistry
  pub snapshot_store : Option SnapshotStore
  pub now : Option (ℕ → String)
  pub platform : Platform

abbrev pub M : Type 0 → Type 0 → Type 0
M S A = World S → Outcome A × World S

module _ {S : Type 0} where
  abbrev pub pure : {A : Type 0} → A → M S A
  pure a w = (ok a, w)

  abbrev pub throw : {A : Type 0} → Failure → M S A
  throw e w = (threw e, w)

  abbrev pub continue : {A B : Type 0} → Outcome A × World S → (A → M S B) → Outcome B × World S
  continue (ok a, w) f = f a w
  continue (threw e, w) f = (threw e, w)

  infixl 5 ◌>>=◌ ◌>>◌
  abbrev pub ◌>>=◌ : {A B : Type 0} → M S A → (A → M S B) → M S B
  ◌>>=◌ m f w = continue (m w) f

  abbrev pub ◌>>◌ : {B : Type 0} → M S (Unit {0}) → M S B → M S B
  m >> k = m >>= λ _. k

  abbrev pub require : {A : Type 0} → Option A → Failure → M S A
  require none e = throw e
  require (some a) e = pure a

  -- A draw from the platform.
  abbrev pub draw : {A : Type 0} → (ℕ → A) → M S A
  draw f w = (ok (f w.moment), record w { moment = suc w.moment })

  abbrev pub read_store : {A : Type 0} → (S → A) → M S A
  read_store f w = (ok (f w.store), w)

  abbrev pub write_store : (S → S) → M S (Unit {0})
  write_store f w = (ok tt, record w { store = f w.store })

  -- `for (const x of xs) await body(x)`.
  unfoldable pub for_each : {A : Type 0} → List A → (A → M S (Unit {0})) → M S (Unit {0})
  for_each [] body = pure tt
  for_each (x ∷ xs) body = do body x; for_each xs body

module _ {S : Type 0} (o : Options S) where
  -- `this.guards`.
  unfoldable pub guards : GuardRegistry
  guards = elim o.guard_registry [ none ↦ register_built_ins o.platform [] | some r ↦ r ]

  -- `this.now()`.
  unfoldable pub time_source : ℕ → String
  time_source = elim o.now [ none ↦ o.platform.iso_now | some f ↦ f ]

  unfoldable pub clock : M S String
  clock = draw time_source

  -- `this.emit(event)`.
  unfoldable pub emit : LoopEvent → M S (Unit {0})
  emit e w = elim o.event_bus [
    | none ↦ (ok tt, w)
    | some bus ↦
        if bus w.log e
        then (ok tt, record w { log = w.log ++ e ∷ [] })
        else (threw emit_rejected, w)
  ]

  -- A factory call: the base of the event is drawn, and the schema checks the event.
  unfoldable pub create :
      (loop_id aggregate_id : String) (correlation_id : Option String)
      (event : EventBase → LoopEvent)
      → M S LoopEvent
  create loop_id aggregate_id correlation_id event = do
    base ← draw (λ n. build_base o.platform n loop_id aggregate_id correlation_id)
    require (parse (event base)) schema_rejected
