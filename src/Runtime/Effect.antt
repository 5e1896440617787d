-- ===== src/Runtime/Effect.antt =====
-- What `transition` does to the store: nothing, or one move with its record.
pub mod Steps
pub mod Attempt
pub mod Run
use loop_engine.Prelude.{
  ℕ, suc, ◌+◌, length, ◌≡◌, refl, sym, ap, ◌∙◌, ◌⊎◌, inl, inr, Bool, true, false, ◌||◌, String,
  Option, none, some, List, [], ◌∷◌, map, arith, find, Option-cases, Bool-cases, if◌then◌else◌,
}
use loop_engine.Core.{
  Attributes, LoopDefinition, TransitionSpec, LoopInstance, Outcome, ok, threw, Failure, hard, soft,
  GuardSeverity, is_completed, instance_not_found, definition_not_found,
}
use loop_engine.Actors.{can_actor_execute_transition}
use loop_engine.Events.{GuardFailure, EventBase, LoopEvent, transition_executed, transition_blocked}
use loop_engine.Evidence.Commit.{
  CommitResult, committed, refused, requires_governed_evidence, commit_governed_evidence_snapshots,
  SnapshotStoreInsertInput,
}
use loop_engine.Evidence.Committed.{Asks, IsCommit}
use loop_engine.Guards.{GuardEvaluationSummary, GuardEvaluationResult, evaluate_guards}
use loop_engine.Runtime.World.{
  World, Options, M, continue, pure, throw, ◌>>=◌, ◌>>◌, require, read_store, write_store, for_each,
  guards, time_source, clock, emit, create,
}
use loop_engine.Runtime.Transition.{
  TransitionParams, TransitionResult, loop_closed, invalid_transition, unauthorized_actor, rejected,
  pending_approval, blocked, executed, is_terminal_state, leaves, or_list, moved, record_of,
  guard_context, create_here, request, check_guards, report_failure, report_move, report_block,
  after_guards, settle_commit, block, move, commit_evidence, announce_completion, announce, execute,
  proceed_governed, proceed, settle, attempt, authorize, dispatch, transition, tenant,
  evidence_refused, with_snapshots, failure_of,
}
use loop_engine.Runtime.Rules.{
  Durable, durable, Quiet, after_quiet, >>=-Quiet, require-Quiet, for_each-Quiet, emit-Quiet,
  clock-Quiet, create-Quiet, announce-Quiet,
}

-- A result that reports no move.
abbrev pub is_executed : Outcome TransitionResult → Bool
is_executed (ok (executed from to warnings event)) = true
is_executed _ = false

-- A result that no check before the first effect gives.
abbrev pub is_late : Outcome TransitionResult → Bool
is_late (ok (rejected from (evidence_refused reason))) = true
is_late (ok (rejected from reason)) = false
is_late (ok (pending_approval from)) = false
is_late _ = true

-- A result that a finished move may have: the move itself, or an error thrown after it.
abbrev pub Reports : (from to : String) → Outcome TransitionResult → Type 0
Reports from to (ok (executed from' to' warnings event)) = (from' ≡ from) × (to' ≡ to)
Reports from to (ok _) = ⊥
Reports from to (threw e) = Unit

module _ {S : Type 0} (o : Options S) (p : TransitionParams) where
  -- Every check that a move has passed.
  pub record Cleared (d : LoopDefinition) (i : LoopInstance) (t : TransitionSpec) : Type 0 where
    pub open_state : (is_completed i.status || is_terminal_state d i.current_state) ≡ false
    pub listed : find (leaves p.transition_id i.current_state) d.transitions ≡ some t
    pub authorized : (can_actor_execute_transition p.actor t p.constraints).authorized ≡ true
    pub approved : (can_actor_execute_transition p.actor t p.constraints).requires_approval ≡ false

  -- The guards were evaluated and no hard one failed.
  abbrev pub Guarded : LoopInstance → TransitionSpec → LoopDefinition → Type 0
  Guarded i t d =
      (now : ℕ) × (summary : GuardEvaluationSummary) × (evaluate_guards now (or_list t.guards)
          (guard_context o p d i t) (guards o)
        ≡ ok summary)
      × (summary.all_passed ≡ true)

  -- Where neither the loop nor the transition asks for evidence, the snapshot store is given nothing;
  -- where one does, the evidence is committed, and `log'` has what the snapshot store was given.
  abbrev pub Evidenced :
      LoopDefinition
      → LoopInstance
      → TransitionSpec
      → (log log' : List SnapshotStoreInsertInput) → Type 0
  Evidenced d i t log log' =
      ((¬ (Asks d.metadata ⊎ Asks t.metadata)) × (log' ≡ log))
      ⊎ ((Asks d.metadata ⊎ Asks t.metadata)
          × ((now : ℕ) × (ids : List String) × (rows : List Attributes) × IsCommit o.platform now
                o.snapshot_store (tenant o p d i t) p.aggregate_id p.evidence_snapshots log log' ids
                rows))

  pub record Advance (s : Durable S) (r : Outcome TransitionResult) (s' : Durable S) : Type 0 where
    pub instance_before : LoopInstance
    pub definition : LoopDefinition
    pub spec : TransitionSpec
    pub now : String
    pub evidence : Attributes
    pub found : o.store.get_instance s.0 p.aggregate_id ≡ some instance_before
    pub defined : o.definition_of instance_before.loop_id ≡ some definition
    pub cleared : Cleared definition instance_before spec
    pub guarded : Guarded instance_before spec definition
    pub evidenced : Evidenced definition instance_before spec s.1 s'.1
    pub stored :
        s'.0
        ≡ o.store.save_transition_record
            (record_of instance_before spec p.actor now evidence)
            (o.store.save_instance (moved definition instance_before spec now) s.0)
    pub reports : Reports instance_before.current_state spec.to r

  abbrev pub Effect : Durable S → Outcome TransitionResult × World S → Type 0
  Effect s x = ((is_executed x.0 ≡ false) × (x.1.store ≡ s.0)) ⊎ Advance s x.0 (durable x.1)

  -- The effect of a run that has passed the checks.
  abbrev pub LateEffect : Durable S → Outcome TransitionResult × World S → Type 0
  LateEffect s x =
      (((is_late x.0 ≡ true) × (is_executed x.0 ≡ false)) × (x.1.store ≡ s.0))
      ⊎ Advance s x.0 (durable x.1)

  pub LateEffect-Effect :
      (s : Durable S) (x : Outcome TransitionResult × World S) → LateEffect s x → Effect s x
  LateEffect-Effect s x (inl ((late, idle), kept)) = inl (idle, kept)
  LateEffect-Effect s x (inr a) = inr a

  Reports-late :
      (from to : String) (r : Outcome TransitionResult) → Reports from to r → is_late r ≡ true
  Reports-late from to (ok (executed from' to' ws e)) h = refl
  Reports-late from to (ok (rejected from' reason)) h = elim h [ ]
  Reports-late from to (ok (pending_approval from')) h = elim h [ ]
  Reports-late from to (ok (blocked from' failures e)) h = elim h [ ]
  Reports-late from to (threw e) h = refl

  pub LateEffect-late :
      (s : Durable S) (x : Outcome TransitionResult × World S) → LateEffect s x → is_late x.0 ≡ true
  LateEffect-late s x (inl ((late, idle), kept)) = late
  LateEffect-late s x (inr a) = Reports-late _ _ x.0 a.reports

  -- Code that leaves the store alone may stand before code with an effect.
  pub Effect-after :
      {A : Type 0} (s : Durable S) (m : M S A) (f : A → M S TransitionResult)
      → Quiet m
      → ((a : A) (w : World S) → durable w ≡ s → LateEffect s (f a w))
      → (w : World S) → durable w ≡ s
      → LateEffect s ((m >>= f) w)
  Effect-after s m f quiet =
      after_quiet (LateEffect s) s m f quiet (λ e w h. inl ((refl, refl), ap (λ x. x.0) h))
