-- ===== src/Tests/Plain.antt =====
-- A cancelled loop of a definition without guards that still moves.
use loop_engine.Prelude.{◌≡◌, refl, true, none, some, [], ◌∷◌, get, put, inl, find, any}
use loop_engine.Core.{
  StateSpec, TransitionSpec, LoopDefinition, LoopInstance, cancelled, is_completed, flag, read_opt,
  is_true,
}
use loop_engine.Evidence.Commit.{requires_governed_evidence}
use loop_engine.Store.Memory.{MemoryStore, empty, get_instance, save_instance}
use loop_engine.Runtime.World.{World, Options}
use loop_engine.Runtime.Transition.{TransitionParams, transition, is_terminal_state}
use loop_engine.Runtime.Rules.{durable}
use loop_engine.Runtime.Effect.{is_executed, Advance}
use loop_engine.Runtime.Progress.{transition_executes}
use loop_engine.Tests.Data.{options, fresh, finishing, definition, finish, opened, instant}

abbrev middle : StateSpec
middle = record {
  id = "MID";
  label = "MID";
  is_terminal = none;
  is_error = none;
  description = none;
}

abbrev advance : TransitionSpec
advance = record finish { id = "advance"; to = "MID"; guards = none }

abbrev pub plain : LoopDefinition
plain = record definition {
  states = middle ∷ definition.states;
  transitions = advance ∷ finish ∷ [];
  metadata = none;
}

abbrev pub quiet : Options MemoryStore
quiet = record options { definition_of = λ id. some plain; event_bus = none }

abbrev ended : LoopInstance
ended = record opened { status = cancelled; completed_at = some instant }

abbrev closed : World MemoryStore
closed = record fresh { store = save_instance ended empty }

abbrev advancing : TransitionParams
advancing = record finishing { transition_id = "advance" }

ended_found : get_instance closed.store "a1" ≡ some ended
unfolding get_instance save_instance empty get put
ended_found = refl

transition_executes_example :
    (is_executed (transition quiet advancing closed).0 ≡ true)
    × Advance quiet advancing
        (durable closed)
        (transition quiet advancing closed).0
        (durable (transition quiet advancing closed).1)
unfolding is_completed is_terminal_state any flag find requires_governed_evidence read_opt is_true
transition_executes_example =
    transition_executes quiet advancing closed ended plain advance ended_found refl refl refl refl
      (inl refl) (λ agent needs. needs) refl refl refl refl
