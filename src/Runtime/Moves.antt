-- ===== src/Runtime/Moves.antt =====
-- What a result of `transition` says: an executed one, a refused one, or a refused one.
use loop_engine.Prelude.{◌≡◌, ap, subst, inl, inr, false, String, List}
use loop_engine.Core.{Outcome, ok}
use loop_engine.Events.{GuardFailure, LoopEvent}
use loop_engine.Runtime.World.{World, Options}
use loop_engine.Runtime.Transition.{
  TransitionParams, TransitionResult, executed, rejected, transition,
}
use loop_engine.Runtime.Rules.{Durable, durable}
use loop_engine.Runtime.Effect.{is_executed, Reports, Advance, Effect}
use loop_engine.Runtime.Effect.Run.{transition-Effect}

module _ {S : Type 0} (o : Options S) (p : TransitionParams) where
  Advance-of :
      (s : Durable S) (x : Outcome TransitionResult × World S) {from to : String}
      {ws : List GuardFailure} {e : LoopEvent}
      → Effect o p s x
      → x.0 ≡ ok (executed from to ws e)
      → (a : Advance o p s x.0 (durable x.1)) × (a.instance_before.current_state ≡ from)
        × (a.spec.to ≡ to)
  Advance-of s x (inl (idle, kept)) h = cc (ap is_executed h)
  Advance-of s x (inr a) h =
      let reports = subst (Reports a.instance_before.current_state a.spec.to) h a.reports in
      (a, cc reports.0, cc reports.1)

  -- A run that reports `executed` went from the instance's state along a transition that the
  -- definition lists, whose actor was authorized without approval and whose hard guards all passed.
  -- It wrote exactly one moved instance and one record. Where the loop or the transition asks for
  -- governed evidence, a valid batch was added to what the snapshot store had been given before the
  -- run; elsewhere nothing was added.
  pub transition_executed :
      (w : World S) {from to : String} {ws : List GuardFailure} {e : LoopEvent}
      → (transition o p w).0 ≡ ok (executed from to ws e)
      → (a : Advance o p (durable w) (transition o p w).0 (durable (transition o p w).1))
        × (a.instance_before.current_state ≡ from)
        × (a.spec.to ≡ to)
  transition_executed w h = Advance-of (durable w) (transition o p w) (transition-Effect o p w) h

  unmoved :
      (s : Durable S) (x : Outcome TransitionResult × World S) (r : TransitionResult)
      → Effect o p s x
      → x.0 ≡ ok r
      → is_executed (ok r) ≡ false
      → x.1.store ≡ s.0
  unmoved s x r (inl (idle, kept)) h no_move = kept
  unmoved s x (executed from to ws e) (inr a) h no_move = cc
  unmoved s x (rejected from reason) (inr a) h no_move = absurd (subst (Reports _ _) h a.reports)
  unmoved s x r (inr a) h no_move = absurd (subst (Reports _ _) h a.reports)

  -- A run that returns any other result leaves the store as it was.
  pub transition_refused :
      (w : World S) (r : TransitionResult)
      → (transition o p w).0 ≡ ok r
      → is_executed (ok r) ≡ false
      → (transition o p w).1.store ≡ w.store
  transition_refused w r = unmoved (durable w) (transition o p w) r (transition-Effect o p w)
