-- ===== src/Runtime/Effect/Run.antt =====
-- Every run of `transition` has its effect.
use loop_engine.Prelude.{
  ◌≡◌, refl, inl, Bool, true, false, ◌||◌, Option, none, some, find, if◌then◌else◌,
}
use loop_engine.Core.{
  LoopDefinition, TransitionSpec, LoopInstance, is_completed, instance_not_found,
  definition_not_found,
}
use loop_engine.Actors.{can_actor_execute_transition}
use loop_engine.Runtime.World.{World, Options, pure, ◌>>=◌, require}
use loop_engine.Runtime.Transition.{
  TransitionParams, loop_closed, invalid_transition, unauthorized_actor, rejected, pending_approval,
  is_terminal_state, leaves, attempt, authorize, dispatch, transition,
}
use loop_engine.Runtime.Rules.{durable}
use loop_engine.Runtime.Effect.{Effect, LateEffect-Effect}
use loop_engine.Runtime.Effect.Attempt.{attempt-Effect}

module _ {S : Type 0} (o : Options S) (p : TransitionParams) where
  authorize-Effect :
      (d : LoopDefinition) (i : LoopInstance) (t : TransitionSpec) (w : World S)
      → o.store.get_instance w.store p.aggregate_id ≡ some i
      → o.definition_of i.loop_id ≡ some d
      → (is_completed i.status || is_terminal_state d i.current_state) ≡ false
      → find (leaves p.transition_id i.current_state) d.transitions ≡ some t
      → Effect o p (durable w) (authorize o p d i t w)
  unfolding authorize
  authorize-Effect d i t w found defined open_state listed =
      go (can_actor_execute_transition p.actor t p.constraints).authorized
        (can_actor_execute_transition p.actor t p.constraints).requires_approval refl refl
    where
      go :
          (a r : Bool)
          → (can_actor_execute_transition p.actor t p.constraints).authorized ≡ a
          → (can_actor_execute_transition p.actor t p.constraints).requires_approval ≡ r
          → Effect o p (durable w) (
              (if a
                  then (if r then pure (pending_approval i.current_state) else attempt o p d i t)
                  else pure (rejected i.current_state unauthorized_actor))
                w)
      go false r ea er = inl (refl, refl)
      go true true ea er = inl (refl, refl)
      go true false ea er = LateEffect-Effect o p (durable w) (attempt o p d i t w) (
          attempt-Effect o p d i t (durable w) found defined
            (record { open_state = open_state; listed = listed; authorized = ea; approved = er }) w
            refl)

  dispatch-Effect :
      (d : LoopDefinition) (i : LoopInstance) (w : World S)
      → o.store.get_instance w.store p.aggregate_id ≡ some i
      → o.definition_of i.loop_id ≡ some d
      → Effect o p (durable w) (dispatch o p d i w)
  unfolding dispatch
  dispatch-Effect d i w found defined =
      go (is_completed i.status || is_terminal_state d i.current_state)
        (find (leaves p.transition_id i.current_state) d.transitions) refl refl
    where
      go :
          (closed : Bool) (listed : Option TransitionSpec)
          → (is_completed i.status || is_terminal_state d i.current_state) ≡ closed
          → find (leaves p.transition_id i.current_state) d.transitions ≡ listed
          → Effect o p (durable w) (
              (if closed then pure (rejected i.current_state loop_closed) else elim listed [
                | none ↦ pure (rejected i.current_state invalid_transition)
                | some t ↦ authorize o p d i t
              ])
                w)
      go true listed ec el = inl (refl, refl)
      go false none ec el = inl (refl, refl)
      go false (some t) ec el = authorize-Effect d i t w found defined ec el

  -- Every run of `transition` has one of the two effects.
  pub transition-Effect : (w : World S) → Effect o p (durable w) (transition o p w)
  unfolding transition
  transition-Effect w = go (o.store.get_instance w.store p.aggregate_id) refl
    where
      with_instance :
          (i : LoopInstance) (d : Option LoopDefinition)
          → o.store.get_instance w.store p.aggregate_id ≡ some i
          → o.definition_of i.loop_id ≡ d
          → Effect o p
              (durable w)
              ((require d (definition_not_found i.loop_id) >>= λ d'. dispatch o p d' i) w)
      with_instance i none found defined = inl (refl, refl)
      with_instance i (some d) found defined = dispatch-Effect d i w found defined

      go :
          (found : Option LoopInstance)
          → o.store.get_instance w.store p.aggregate_id ≡ found
          → Effect o p (durable w) (
              (require found (instance_not_found p.aggregate_id) >>= λ i.
              (require (o.definition_of i.loop_id) (definition_not_found i.loop_id) >>= λ d.
              dispatch o p d i))
                w)
      go none e = inl (refl, refl)
      go (some i) e = with_instance i (o.definition_of i.loop_id) e refl
