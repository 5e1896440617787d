-- ===== src/Runtime/Safety.antt =====
-- What an executed transition guarantees of its actor.
use loop_engine.Prelude.{
  ℕ, ◌≡◌, sym, ap, ◌∙◌, ◌⊎◌, inl, inr, String, some, List, In, find, get, some-injective,
}
use loop_engine.Core.{
  LoopDefinition, LoopInstance, TransitionSpec, GuardSpec, ok, hard, human, ai_agent, Attributes,
}
use loop_engine.Actors.Authorization.{
  NeedsApproval, can_actor_execute_transition_iff, same_actor_type_iff,
}
use loop_engine.Events.{GuardFailure, LoopEvent}
use loop_engine.Guards.{GuardResult, Evaluator}
use loop_engine.Guards.BuiltIn.{human_only}
use loop_engine.Guards.Pipeline.{AllAnswer, evaluate_guards_iff, AllAnswer-In}
use loop_engine.Evidence.Committed.{Asks, IsCommit}
use loop_engine.Runtime.World.{World, Options, guards}
use loop_engine.Runtime.Transition.{
  TransitionParams, executed, transition, leaves, or_list, guard_context, tenant,
}
use loop_engine.Runtime.Moves.{transition_executed}

module _ {S : Type 0} (o : Options S) (p : TransitionParams) where
  -- The transition that a run of `transition` from `w` finds.
  abbrev pub Finds : World S → LoopInstance → LoopDefinition → TransitionSpec → Type 0
  Finds w i d t =
      (o.store.get_instance w.store p.aggregate_id ≡ some i)
      × (o.definition_of i.loop_id ≡ some d)
      × (find (leaves p.transition_id i.current_state) d.transitions ≡ some t)

  -- A transition is executed only for an actor whose type it lists, and never for an AI agent where
  -- the constraints ask for human approval of it.
  pub executed_authorized :
      (w : World S) {from to : String} {ws : List GuardFailure} {e : LoopEvent}
      → (transition o p w).0 ≡ ok (executed from to ws e)
      → (i : LoopInstance) × (d : LoopDefinition) × (t : TransitionSpec) × Finds w i d t
        × In p.actor.type t.actors
        × (p.actor.type ≡ ai_agent → ¬ NeedsApproval p.constraints t.id)
  executed_authorized w h =
      let (a, _, _) = transition_executed o p w h in
      let (allowed, waits) = can_actor_execute_transition_iff p.actor a.spec p.constraints in
      let member = allowed.0 a.cleared.authorized in
      (
        a.instance_before,
        a.definition,
        a.spec,
        (a.found, a.defined, a.cleared.listed),
        member,
        λ agent listed. cc (waits.1 (member, agent, listed), a.cleared.approved),
      )

  -- A transition is executed only where every guard that it lists is registered and answers, and
  -- every hard one passes.
  pub executed_guarded :
      (w : World S) {from to : String} {ws : List GuardFailure} {e : LoopEvent}
      → (transition o p w).0 ≡ ok (executed from to ws e)
      → (i : LoopInstance) × (d : LoopDefinition) × (t : TransitionSpec) × Finds w i d t
        × (now : ℕ) × AllAnswer (guard_context o p d i t) (guards o) now (or_list t.guards)
  executed_guarded w h =
      let (a, _, _) = transition_executed o p w h in
      let (now, summary, e, passed) = a.guarded in
      (
        a.instance_before,
        a.definition,
        a.spec,
        (a.found, a.defined, a.cleared.listed),
        now,
        (evaluate_guards_iff _ _ now _).0 (summary, e, passed),
      )

  -- Where the registry holds the built-in evaluator `human-only`, a transition with a hard guard of
  -- that name is executed for human actors alone.
  pub executed_human_only :
      (w : World S) {from to : String} {ws : List GuardFailure} {e : LoopEvent}
      → get "human-only" (guards o) ≡ some (human_only o.platform)
      → (transition o p w).0 ≡ ok (executed from to ws e)
      → (i : LoopInstance) × (d : LoopDefinition) × (t : TransitionSpec) × Finds w i d t
        × ((g : GuardSpec)
            → In g (or_list t.guards)
            → g.id ≡ "human-only"
            → g.severity ≡ hard
            → p.actor.type ≡ human)
  unfolding human_only guard_context
  executed_human_only w registered h =
      let (i, d, t, finds, now, answers) = executed_guarded w h in
      (
        i,
        d,
        t,
        finds,
        λ g listed named is_hard_guard.
            let (moment, r, (evaluator, found, answered), passes) =
              AllAnswer-In _ _ now _ g answers listed in
            let same : human_only o.platform ≡ evaluator =
              some-injective _ _
                (sym registered ∙ ap (λ k. get k (guards o)) (sym named) ∙ found) in
            let result : some _ ≡ some r =
              ap (λ (f : Evaluator). f moment (guard_context o p d i t) g.parameters) same
              ∙ answered in
            (same_actor_type_iff p.actor.type human).0 (
              ap (λ (x : GuardResult). x.passed) (some-injective _ _ result)
              ∙ passes is_hard_guard),
      )

  -- Where the metadata of the loop or of the transition has `governedEvidence: true`, a transition is
  -- executed only after a commit: a non-empty batch of valid snapshots, each sealed by the hash of its
  -- values, was accepted by the engine's snapshot store, and it is what the run added to the batches
  -- that this store was given before. Elsewhere the run adds none.
  pub executed_governed :
      (w : World S) {from to : String} {ws : List GuardFailure} {e : LoopEvent}
      → (transition o p w).0 ≡ ok (executed from to ws e)
      → (i : LoopInstance) × (d : LoopDefinition) × (t : TransitionSpec) × Finds w i d t
        × (((Asks d.metadata ⊎ Asks t.metadata)
              × ((now : ℕ) × (ids : List String) × (rows : List Attributes) × IsCommit o.platform
                    now o.snapshot_store
                    (tenant o p d i t)
                    p.aggregate_id
                    p.evidence_snapshots
                    w.inserted
                    (transition o p w).1.inserted
                    ids
                    rows))
            ⊎ ((¬ (Asks d.metadata ⊎ Asks t.metadata))
                × ((transition o p w).1.inserted ≡ w.inserted)))
  executed_governed w h =
      let (a, _, _) = transition_executed o p w h in
      (
        a.instance_before,
        a.definition,
        a.spec,
        (a.found, a.defined, a.cleared.listed),
        elim a.evidenced [ inl free ↦ inr free | inr commit ↦ inl commit ],
      )
