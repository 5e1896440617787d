-- ===== src/Runtime/Calls.antt =====
-- Runs of the engine: sequences of the four calls that change the world.
use loop_engine.Prelude.{String, Option}
use loop_engine.Core.{ActorRef}
use loop_engine.Events.{ErrorInfo}
use loop_engine.Runtime.World.{World, Options}
use loop_engine.Runtime.Transition.{TransitionParams, transition}
use loop_engine.Runtime.Lifecycle.{StartLoopParams, start, cancel_loop, fail_loop}
use loop_engine.Runtime.Invariant.{
  IsSound, start-IsSound, transition-IsSound, cancel_loop-IsSound, fail_loop-IsSound,
}

pub data Call : Type 0 where
  starts : StartLoopParams → Call
  moves : TransitionParams → Call
  cancels : (aggregate_id : String) → ActorRef → Option String → Call
  fails : (aggregate_id from_state : String) → ErrorInfo → Call

module _ {S : Type 0} (o : Options S) where
  -- The world after a call, whether it returned or threw.
  unfoldable pub run_call : Call → World S → World S
  run_call (starts p) w = (start o p w).1
  run_call (moves p) w = (transition o p w).1
  run_call (cancels a actor reason) w = (cancel_loop o a actor reason w).1
  run_call (fails a from error) w = (fail_loop o a from error w).1

  pub data Reach (w : World S) : World S → Type 0 where
    here : Reach w w
    next : {v : World S} → (c : Call) → Reach w v → Reach w (run_call c v)

  pub run_call-IsSound :
      (c : Call) (w : World S) → IsSound o w.store → IsSound o (run_call c w).store
  unfolding run_call
  run_call-IsSound (starts p) w h = start-IsSound o p w h
  run_call-IsSound (moves p) w h = transition-IsSound o p w h
  run_call-IsSound (cancels a actor reason) w h = cancel_loop-IsSound o a actor reason w h
  run_call-IsSound (fails a from error) w h = fail_loop-IsSound o a from error w h

  -- From a store whose instances stand under their own identifiers and are consistent, whatever
  -- calls are made, errors included, every stored instance stands under its own identifier, a
  -- completed one is in a terminal state of its definition with a time of completion, and an active
  -- one has no such time.
  pub Reach-IsSound : {w v : World S} → Reach w v → IsSound o w.store → IsSound o v.store
  Reach-IsSound here h = h
  Reach-IsSound (next {v} c r) h = run_call-IsSound c v (Reach-IsSound r h)
