-- ===== src/Observability.antt =====
-- packages/observability: replay and residency of a recorded history (observability/src/replay.ts,
-- timeline.ts).
pub mod Replay
use loop_engine.Prelude.{
  ◌≡◌, Bool, true, false, ◌&&◌, String, Option, none, some, List, [], ◌∷◌, find, is_empty,
  if◌then◌else◌, ◌==◌,
}
use loop_engine.Core.{LoopDefinition, TransitionSpec, TransitionRecord}

-- A record that no transition of the definition explains; `state` is the state it was tried from.
pub record ReplayError : Type 0 where
  pub transition_id : String
  pub state : String
  pub to_state : String

abbrev pub explains : String → TransitionRecord → TransitionSpec → Bool
explains state r t = t.id == r.transition_id && (t.from == state && t.to == r.to_state)

unfoldable pub replay_error : String → TransitionRecord → ReplayError
replay_error state r = record {
  transition_id = r.transition_id;
  state = state;
  to_state = r.to_state;
}

-- The loop of `replayLoop` from `state`: the state at its end and the errors.
unfoldable pub replay_from :
    LoopDefinition → String → List TransitionRecord → String × List ReplayError
replay_from d state [] = (state, [])
replay_from d state (r ∷ rs) =
    let skipped = replay_from d state rs in
    let followed = replay_from d r.to_state rs in
    elim (find (explains state r) d.transitions) [
      | none ↦ (skipped.0, replay_error state r ∷ skipped.1)
      | some t ↦ followed
    ]

-- `replayLoop`: the errors, and whether there is none.
unfoldable pub replay_loop : LoopDefinition → List TransitionRecord → Bool × List ReplayError
replay_loop d history =
    let errors = (replay_from d d.initial_state history).1 in (is_empty errors, errors)
