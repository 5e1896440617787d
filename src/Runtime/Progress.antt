-- ===== src/Runtime/Progress.antt =====
-- Where `transition` moves a loop without fail.
use loop_engine.Prelude.{
  ◌≡◌, refl, inl, inr, true, false, none, some, [], find, filter, all, In, Bool-cases,
}
use loop_engine.Core.{LoopDefinition, LoopInstance, TransitionSpec, ai_agent, is_completed}
use loop_engine.Actors.{can_actor_execute_transition}
use loop_engine.Actors.Authorization.{NeedsApproval, can_actor_execute_transition_iff}
use loop_engine.Events.{parse, schema_accepts, accepts_failures}
use loop_engine.Evidence.Commit.{requires_governed_evidence}
use loop_engine.Guards.{evaluate_guards, evaluate_each, summarize}
use loop_engine.Runtime.World.{World, Options, for_each, clock, emit, create}
use loop_engine.Runtime.Transition.{
  TransitionParams, is_terminal_state, leaves, or_list, with_warnings, moved, create_here, request,
  check_guards, announce, report_move, execute, proceed, settle, after_guards, attempt, authorize,
  dispatch, transition,
}
use loop_engine.Runtime.Rules.{durable}
use loop_engine.Runtime.Effect.{is_executed, Advance}
use loop_engine.Runtime.Effect.Run.{transition-Effect}

module _ {S : Type 0} (o : Options S) (p : TransitionParams) (w : World S) (i : LoopInstance)
    (d : LoopDefinition) (t : TransitionSpec) where
  attempt_executes :
      o.event_bus ≡ none
      → or_list t.guards ≡ []
      → requires_governed_evidence d.metadata t.metadata ≡ false
      → is_terminal_state d t.to ≡ false
      → is_completed i.status ≡ false
      → is_executed (attempt o p d i t w).0 ≡ true
  unfolding attempt request create_here create emit parse schema_accepts check_guards
      evaluate_guards evaluate_each summarize filter after_guards for_each settle proceed
      with_warnings execute clock announce accepts_failures all report_move moved
  attempt_executes quiet unguarded free inner open_state =
      rw (quiet, unguarded, free, inner, open_state) refl

  -- A loop that is found, not completed and not in a terminal state, even a cancelled or failed one,
  -- moves along a listed transition that has no guards, asks for no governed evidence and leads to a
  -- state that is not terminal, for an actor of a listed type that needs no approval: without an
  -- event bus the call reports an executed transition, and the store has exactly that move.
  pub transition_executes :
      o.store.get_instance w.store p.aggregate_id ≡ some i
      → o.definition_of i.loop_id ≡ some d
      → is_completed i.status ≡ false
      → is_terminal_state d i.current_state ≡ false
      → find (leaves p.transition_id i.current_state) d.transitions ≡ some t
      → In p.actor.type t.actors
      → (p.actor.type ≡ ai_agent → ¬ NeedsApproval p.constraints t.id)
      → o.event_bus ≡ none
      → or_list t.guards ≡ []
      → requires_governed_evidence d.metadata t.metadata ≡ false
      → is_terminal_state d t.to ≡ false
      → (is_executed (transition o p w).0 ≡ true)
        × Advance o p (durable w) (transition o p w).0 (durable (transition o p w).1)
  unfolding transition dispatch authorize
  transition_executes found defined open_state not_last listed member free_agent quiet unguarded
        free inner =
      let (allowed, waits) = can_actor_execute_transition_iff p.actor t p.constraints in
      let authorized : (can_actor_execute_transition p.actor t p.constraints).authorized ≡ true =
        allowed.1 member in
      let approved : (can_actor_execute_transition p.actor t p.constraints).requires_approval
          ≡ false =
        elim (Bool-cases (can_actor_execute_transition p.actor t p.constraints).requires_approval) [
          | inl asked ↦ let (m, agent, needs) = waits.0 asked in absurd (free_agent agent needs)
          | inr free_now ↦ free_now
        ] in
      let executes : is_executed (transition o p w).0 ≡ true =
        rw (found, defined, open_state, not_last, listed, authorized, approved)
          (attempt_executes quiet unguarded free inner open_state) in
      (
        executes,
        elim (transition-Effect o p w) [ inl (idle, kept) ↦ cc (idle, executes) | inr a ↦ a ],
      )
