-- ===== src/Runtime/Reasons.antt =====
-- Why `transition` refuses before any effect (runtime/src/engine.ts), without the code's tests.
use loop_engine.Prelude.{
  ◌≡◌, refl, ap, subst, Bool, true, false, ◌||◌, Option, none, some, In, find, if◌then◌else◌,
}
use loop_engine.Core.{
  LoopDefinition, LoopInstance, TransitionSpec, Outcome, ok, is_completed, ai_agent,
}
use loop_engine.Actors.{can_actor_execute_transition}
use loop_engine.Actors.Authorization.{NeedsApproval, can_actor_execute_transition_iff}
use loop_engine.Runtime.World.{World, Options, pure}
use loop_engine.Runtime.Transition.{
  TransitionParams, TransitionResult, rejected, pending_approval, loop_closed, invalid_transition,
  unauthorized_actor, is_terminal_state, leaves, transition, dispatch, authorize, attempt,
}
use loop_engine.Runtime.Rules.{durable}
use loop_engine.Runtime.Effect.{is_late, LateEffect-late}
use loop_engine.Runtime.Effect.Attempt.{attempt-Effect}
use loop_engine.Runtime.Departures.{
  Closed, IsFirst, find-IsFirst, find-none, IsFirst-unique, Closed-iff,
}

module _ {S : Type 0} (o : Options S) (p : TransitionParams) (w : World S) (i : LoopInstance)
    (d : LoopDefinition) where
  abbrev First : TransitionSpec → Type 0
  First = IsFirst p.transition_id i.current_state d.transitions

  -- What `transition` answers, and why.
  data Verdict (x : Outcome TransitionResult × World S) : Type 0 where
    closed : Closed d i → x ≡ (ok (rejected i.current_state loop_closed), w) → Verdict x
    unlisted :
        ¬ Closed d i
        → ((t : TransitionSpec) → ¬ First t)
        → x ≡ (ok (rejected i.current_state invalid_transition), w)
        → Verdict x
    denied :
        ¬ Closed d i
        → (t : TransitionSpec) → First t
        → ¬ In p.actor.type t.actors
        → x ≡ (ok (rejected i.current_state unauthorized_actor), w)
        → Verdict x
    waits :
        ¬ Closed d i
        → (t : TransitionSpec) → First t
        → In p.actor.type t.actors
        → (p.actor.type ≡ ai_agent) × NeedsApproval p.constraints t.id
        → x ≡ (ok (pending_approval i.current_state), w)
        → Verdict x
    late :
        ¬ Closed d i
        → (t : TransitionSpec) → First t
        → In p.actor.type t.actors
        → ¬ ((p.actor.type ≡ ai_agent) × NeedsApproval p.constraints t.id)
        → is_late x.0 ≡ true
        → Verdict x

  module _ (found : o.store.get_instance w.store p.aggregate_id ≡ some i)
      (defined : o.definition_of i.loop_id ≡ some d) where
    authorize-Verdict :
        (t : TransitionSpec)
        → (is_completed i.status || is_terminal_state d i.current_state) ≡ false
        → find (leaves p.transition_id i.current_state) d.transitions ≡ some t
        → Verdict (authorize o p d i t w)
    unfolding authorize
    authorize-Verdict t open_state listed =
        go (can_actor_execute_transition p.actor t p.constraints).authorized
          (can_actor_execute_transition p.actor t p.constraints).requires_approval refl refl
      where
        open_loop : ¬ Closed d i
        open_loop c = cc (open_state, (Closed-iff d i).1 c)

        first : First t
        first = find-IsFirst _ _ d.transitions t listed

        go :
            (a r : Bool)
            → (can_actor_execute_transition p.actor t p.constraints).authorized ≡ a
            → (can_actor_execute_transition p.actor t p.constraints).requires_approval ≡ r
            → Verdict (
                (if a
                    then (if r then pure (pending_approval i.current_state) else attempt o p d i t)
                    else pure (rejected i.current_state unauthorized_actor))
                  w)
        go false r ea er =
            denied open_loop t first
              (λ m. cc (ea, (can_actor_execute_transition_iff p.actor t p.constraints).0.1 m)) refl
        go true true ea er =
            let (m, agent, needs) =
              (can_actor_execute_transition_iff p.actor t p.constraints).1.0 er in
            waits open_loop t first m (agent, needs) refl
        go true false ea er =
            let m = (can_actor_execute_transition_iff p.actor t p.constraints).0.0 ea in
            late open_loop t first m
              (λ (agent, needs). cc (
                er,
                (can_actor_execute_transition_iff p.actor t p.constraints).1.1 (m, agent, needs),
              ))
              (LateEffect-late o p (durable w) (attempt o p d i t w) (
                attempt-Effect o p d i t (durable w) found defined
                  (record {
                    open_state = open_state;
                    listed = listed;
                    authorized = ea;
                    approved = er;
                  })
                  w refl))

    transition-Verdict : Verdict (transition o p w)
    unfolding transition dispatch
    transition-Verdict =
        rw (found, defined)
          (go (is_completed i.status || is_terminal_state d i.current_state)
            (find (leaves p.transition_id i.current_state) d.transitions) refl refl)
      where
        go :
            (b : Bool) (listed : Option TransitionSpec)
            → (is_completed i.status || is_terminal_state d i.current_state) ≡ b
            → find (leaves p.transition_id i.current_state) d.transitions ≡ listed
            → Verdict (
                (if b then pure (rejected i.current_state loop_closed) else elim listed [
                  | none ↦ pure (rejected i.current_state invalid_transition)
                  | some t ↦ authorize o p d i t
                ])
                  w)
        go true listed eb el = closed ((Closed-iff d i).0 eb) refl
        go false none eb el =
            unlisted (λ c. cc (eb, (Closed-iff d i).1 c)) (find-none _ _ d.transitions el) refl
        go false (some t) eb el = authorize-Verdict t eb el

  -- The result is given only for the reason, and then the world is as it was.
  abbrev pub Exactly : Outcome TransitionResult × World S → TransitionResult → Type 0 → Type 0
  Exactly x result Why = (x.0 ≡ ok result → Why) × (Why → x ≡ (ok result, w))

  refuses-Closed :
      (x : Outcome TransitionResult × World S)
      → Verdict x
      → Exactly x (rejected i.current_state loop_closed) (Closed d i)
  refuses-Closed x (closed c e) = (λ h. c, λ c'. e)
  refuses-Closed x (unlisted n u e) = (λ h. cc (ap (λ y. y.0) e, h), λ c. absurd (n c))
  refuses-Closed x (denied n t f m e) = (λ h. cc (ap (λ y. y.0) e, h), λ c. absurd (n c))
  refuses-Closed x (waits n t f m a e) = (λ h. cc (ap (λ y. y.0) e, h), λ c. absurd (n c))
  refuses-Closed x (late n t f m a l) = (λ h. cc (ap is_late h, l), λ c. absurd (n c))

  abbrev pub Unlisted : Type 0
  Unlisted = (¬ Closed d i) × ((t : TransitionSpec) → ¬ First t)

  refuses-Unlisted :
      (x : Outcome TransitionResult × World S)
      → Verdict x
      → Exactly x (rejected i.current_state invalid_transition) Unlisted
  refuses-Unlisted x (closed c e) = (λ h. cc (ap (λ y. y.0) e, h), λ (n, u). absurd (n c))
  refuses-Unlisted x (unlisted n u e) = (λ h. (n, u), λ why. e)
  refuses-Unlisted x (denied n t f m e) = (λ h. cc (ap (λ y. y.0) e, h), λ (n', u). absurd (u t f))
  refuses-Unlisted x (waits n t f m a e) = (λ h. cc (ap (λ y. y.0) e, h), λ (n', u). absurd (u t f))
  refuses-Unlisted x (late n t f m a l) = (λ h. cc (ap is_late h, l), λ (n', u). absurd (u t f))

  abbrev pub Denied : Type 0
  Denied = (¬ Closed d i) × ((t : TransitionSpec) × First t × ¬ In p.actor.type t.actors)

  same_first : (P : TransitionSpec → Type 0) {t u : TransitionSpec} → First t → First u → P t → P u
  same_first P a b x = subst P (IsFirst-unique _ _ d.transitions _ _ a b) x

  refuses-Denied :
      (x : Outcome TransitionResult × World S)
      → Verdict x
      → Exactly x (rejected i.current_state unauthorized_actor) Denied
  refuses-Denied x (closed c e) = (λ h. cc (ap (λ y. y.0) e, h), λ (n, why). absurd (n c))
  refuses-Denied x (unlisted n u e) =
      (λ h. cc (ap (λ y. y.0) e, h), λ (n', (t, f, m)). absurd (u t f))
  refuses-Denied x (denied n t f m e) = (λ h. (n, (t, f, m)), λ why. e)
  refuses-Denied x (waits n t f m a e) = (
    λ h. cc (ap (λ y. y.0) e, h),
    λ (n', (u, g, not_in)). absurd (not_in (same_first (λ v. In p.actor.type v.actors) f g m)),
  )
  refuses-Denied x (late n t f m a l) = (
    λ h. cc (ap is_late h, l),
    λ (n', (u, g, not_in)). absurd (not_in (same_first (λ v. In p.actor.type v.actors) f g m)),
  )

  abbrev pub Waits : Type 0
  Waits =
      (¬ Closed d i)
      × ((t : TransitionSpec) × First t
          × In p.actor.type t.actors
          × (p.actor.type ≡ ai_agent)
          × NeedsApproval p.constraints t.id)

  refuses-Waits :
      (x : Outcome TransitionResult × World S)
      → Verdict x
      → Exactly x (pending_approval i.current_state) Waits
  refuses-Waits x (closed c e) = (λ h. cc (ap (λ y. y.0) e, h), λ (n, why). absurd (n c))
  refuses-Waits x (unlisted n u e) =
      (λ h. cc (ap (λ y. y.0) e, h), λ (n', (t, f, m, agent, needs)). absurd (u t f))
  refuses-Waits x (denied n t f m e) = (
    λ h. cc (ap (λ y. y.0) e, h),
    λ (n', (u, g, is_in, agent, needs)).
        absurd (m (same_first (λ v. In p.actor.type v.actors) g f is_in)),
  )
  refuses-Waits x (waits n t f m (agent, needs) e) = (λ h. (n, (t, f, m, agent, needs)), λ why. e)
  refuses-Waits x (late n t f m a l) = (
    λ h. cc (ap is_late h, l),
    λ (n', (u, g, is_in, agent, needs)).
        absurd (a (agent, same_first (λ v. NeedsApproval p.constraints v.id) g f needs)),
  )

  -- For an instance that is found and its definition, a run answers, and then leaves the world as it
  -- was, the event log included: loop_closed exactly where the loop is completed or in a terminal
  -- state of the definition; invalid_transition exactly where it is open and no transition with the
  -- identifier leaves its state; unauthorized_actor exactly where it is open and the first
  -- transition that does lists not the actor's type; and pending approval exactly where it is open
  -- and that transition lists the actor's type, which is that of AI agents, and the constraints ask
  -- for approval of it.
  pub transition_reasons :
      o.store.get_instance w.store p.aggregate_id ≡ some i
      → o.definition_of i.loop_id ≡ some d
      → Exactly (transition o p w) (rejected i.current_state loop_closed) (Closed d i)
        × Exactly (transition o p w) (rejected i.current_state invalid_transition) Unlisted
        × Exactly (transition o p w) (rejected i.current_state unauthorized_actor) Denied
        × Exactly (transition o p w) (pending_approval i.current_state) Waits
  transition_reasons found defined =
      let v = transition-Verdict found defined in
      (refuses-Closed _ v, refuses-Unlisted _ v, refuses-Denied _ v, refuses-Waits _ v)
