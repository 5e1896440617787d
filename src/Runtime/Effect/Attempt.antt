-- ===== src/Runtime/Effect/Attempt.antt =====
-- The effect of an authorized run of `transition`: from the writes backwards to the request.
use loop_engine.Prelude.{
  ℕ, suc, ◌+◌, length, ◌≡◌, refl, sym, subst, ◌↔◌, ◌⊎◌, ap, ◌∙◌, inl, inr, Bool, true, false, some,
  List, map, if◌then◌else◌,
}
use loop_engine.Core.{
  Attributes, LoopDefinition, TransitionSpec, LoopInstance, Outcome, ok, threw, hard, soft,
}
use loop_engine.Events.{GuardFailure, LoopEvent, transition_blocked}
use loop_engine.Evidence.Commit.{
  CommitResult, committed, refused, requires_governed_evidence, commit_governed_evidence_snapshots,
  SnapshotStoreInsertInput,
}
use loop_engine.Evidence.Committed.{
  Asks, requires_governed_evidence_iff, commit_governed_evidence_snapshots-IsCommit,
}
use loop_engine.Guards.{GuardEvaluationSummary, evaluate_guards}
use loop_engine.Runtime.World.{
  World, Options, M, continue, pure, ◌>>=◌, ◌>>◌, for_each, guards, time_source, clock, emit,
}
use loop_engine.Runtime.Transition.{
  TransitionParams, TransitionResult, blocked, or_list, moved, record_of, guard_context,
  create_here, request, check_guards, report_failure, report_block, after_guards, settle_commit,
  block, move, commit_evidence, execute, proceed_governed, proceed, settle, attempt, tenant,
  evidence, with_warnings, with_snapshots, failure_of,
}
use loop_engine.Runtime.Rules.{Durable, durable, for_each-Quiet, emit-Quiet}
use loop_engine.Runtime.Effect.{Cleared, Guarded, Evidenced, LateEffect, Effect-after}
use loop_engine.Runtime.Effect.Steps.{
  create_here-Quiet, request-Quiet, report_failure-Quiet, announce-Reported,
}

module _ {S : Type 0} (o : Options S) (p : TransitionParams) (d : LoopDefinition) (i : LoopInstance)
    (t : TransitionSpec) where
  module _ (s : Durable S) (found : o.store.get_instance s.0 p.aggregate_id ≡ some i)
      (defined : o.definition_of i.loop_id ≡ some d) (cleared : Cleared o p d i t) where
    execute-Effect :
        (warnings : List GuardFailure) (ev : Attributes)
        → Guarded o p i t d
        → (w : World S) → w.store ≡ s.0
        → Evidenced o p d i t s.1 w.inserted
        → LateEffect o p s (execute o p d i t warnings ev w)
    unfolding execute clock
    execute-Effect warnings ev guarded w h evidenced =
        let now = time_source o w.moment in
        let stores = λ (s' : S).
          o.store.save_transition_record (record_of i t p.actor now ev)
            (o.store.save_instance (moved d i t now) s') in
        let w' : World S = record w { store = stores w.store; moment = suc w.moment } in
        let (kept, reports) = announce-Reported o p d i t warnings ev now w' in
        inr (record {
          instance_before = i;
          definition = d;
          spec = t;
          now = now;
          evidence = ev;
          found = found;
          defined = defined;
          cleared = cleared;
          guarded = guarded;
          evidenced =
              subst (Evidenced o p d i t s.1) (sym (ap (λ (x : Durable S). x.1) kept)) evidenced;
          stored = ap (λ (x : Durable S). x.0) kept ∙ ap stores h;
          reports = reports;
        })

    -- From the result of the commit on.
    committed-Effect :
        (warnings : List GuardFailure) (ev : Attributes)
        → Guarded o p i t d
        → (Asks d.metadata ⊎ Asks t.metadata)
        → (w w' : World S) (result : Outcome CommitResult) → (log : List SnapshotStoreInsertInput)
        → commit_governed_evidence_snapshots o.platform w.moment o.snapshot_store
            (tenant o p d i t)
            p.aggregate_id
            p.evidence_snapshots
            w.inserted
          ≡ (result, log)
        → w.inserted ≡ s.1
        → w'.store ≡ s.0
        → w'.inserted ≡ log
        → LateEffect o p s (continue (result, w') (settle_commit o p d i t warnings ev))
    unfolding settle_commit
    committed-Effect warnings ev guarded asked w w' (threw e) log eq given h done =
        inl ((refl, refl), h)
    committed-Effect warnings ev guarded asked w w' (ok (refused reason)) log eq given h done =
        inl ((refl, refl), h)
    committed-Effect warnings ev guarded asked w w' (ok (committed ids rows)) log eq given h done =
        let commit =
          commit_governed_evidence_snapshots-IsCommit o.platform w.moment o.snapshot_store _
            p.aggregate_id p.evidence_snapshots w.inserted log ids rows eq in
        execute-Effect warnings (with_snapshots ids ev) guarded w' h
          (inr (asked, (w.moment, ids, rows, rw (← given, done) commit)))

    proceed_governed-Effect :
        (warnings : List GuardFailure) (ev : Attributes)
        → Guarded o p i t d
        → (Asks d.metadata ⊎ Asks t.metadata)
        → (w : World S) → durable w ≡ s
        → LateEffect o p s (proceed_governed o p d i t warnings ev w)
    unfolding proceed_governed commit_evidence
    proceed_governed-Effect warnings ev guarded asked w h =
        committed-Effect warnings ev guarded asked w _ _ _ refl (ap (λ (x : Durable S). x.1) h)
          (ap (λ (x : Durable S). x.0) h) refl

    proceed-Effect :
        (warnings : List GuardFailure)
        → Guarded o p i t d
        → (w : World S) → durable w ≡ s
        → LateEffect o p s (proceed o p d i t warnings w)
    unfolding proceed
    proceed-Effect warnings guarded w h = go (requires_governed_evidence d.metadata t.metadata) refl
      where
        asks :
            (requires_governed_evidence d.metadata t.metadata ≡ true)
            ↔ (Asks d.metadata ⊎ Asks t.metadata)
        asks = requires_governed_evidence_iff d.metadata t.metadata

        go :
            (b : Bool)
            → requires_governed_evidence d.metadata t.metadata ≡ b
            → LateEffect o p s (
                (if b
                    then proceed_governed o p d i t warnings
                        (with_warnings warnings (evidence o p d i t))
                    else execute o p d i t warnings (with_warnings warnings (evidence o p d i t)))
                  w)
        go true governed = proceed_governed-Effect warnings _ guarded (asks.0 governed) w h
        go false free =
            execute-Effect warnings _ guarded w (ap (λ (x : Durable S). x.0) h)
              (inl (λ asked. cc (asks.1 asked, free), ap (λ (x : Durable S). x.1) h))

    report_block-Effect :
        (failures : List GuardFailure) (w : World S)
        → durable w ≡ s
        → LateEffect o p s (report_block o p d i t failures w)
    unfolding report_block
    report_block-Effect failures =
        let finish = λ (event : LoopEvent).
          let end : M S TransitionResult = pure (blocked i.current_state failures event) in end in
        Effect-after o p s
          (create_here o p d i t (λ b. transition_blocked b (move o p d i t) t.to failures))
          (λ event. emit o event >> finish event) (create_here-Quiet o p d i t _)
          λ event.
            Effect-after o p s (emit o event) (λ _. finish event) (emit-Quiet o event)
              (λ _ w h. inl ((refl, refl), ap (λ (x : Durable S). x.0) h))

    block-Effect :
        (summary : GuardEvaluationSummary) (w : World S)
        → durable w ≡ s
        → LateEffect o p s (block o p d i t summary w)
    unfolding block
    block-Effect summary =
        Effect-after o p s (for_each summary.hard_failures (report_failure o p d i t hard))
          (λ _. report_block o p d i t (map failure_of summary.hard_failures))
          (for_each-Quiet _ _ (report_failure-Quiet o p d i t hard))
          (λ _. report_block-Effect (map failure_of summary.hard_failures))

    settle-Effect :
        (now : ℕ) (summary : GuardEvaluationSummary)
        → evaluate_guards now (or_list t.guards) (guard_context o p d i t) (guards o) ≡ ok summary
        → (w : World S) → durable w ≡ s
        → LateEffect o p s (settle o p d i t summary w)
    unfolding settle
    settle-Effect now summary e w h = go summary.all_passed refl
      where
        go :
            (b : Bool)
            → summary.all_passed ≡ b
            → LateEffect o p s (
                (if b
                    then proceed o p d i t (map failure_of summary.soft_failures)
                    else block o p d i t summary)
                  w)
        go true passed = proceed-Effect _ (now, summary, e, passed) w h
        go false failed = block-Effect summary w h

    -- From the evaluation of the guards on.
    evaluated-Effect :
        (w : World S)
        → durable w ≡ s
        → LateEffect o p s ((check_guards o p d i t >>= after_guards o p d i t) w)
    unfolding check_guards after_guards
    evaluated-Effect w h =
        go (evaluate_guards w.moment (or_list t.guards) (guard_context o p d i t) (guards o)) refl
      where
        w' : World S
        w' = record w { moment = w.moment + length (or_list t.guards) }

        go :
            (x : Outcome GuardEvaluationSummary)
            → evaluate_guards w.moment (or_list t.guards) (guard_context o p d i t) (guards o) ≡ x
            → LateEffect o p s (continue (x, w') (after_guards o p d i t))
        go (threw e) eq = inl ((refl, refl), ap (λ (x : Durable S). x.0) h)
        go (ok summary) eq =
            Effect-after o p s (for_each summary.soft_failures (report_failure o p d i t soft))
              (λ _. settle o p d i t summary)
              (for_each-Quiet _ _ (report_failure-Quiet o p d i t soft))
              (λ _. settle-Effect w.moment summary eq) w' h

    pub attempt-Effect : (w : World S) → durable w ≡ s → LateEffect o p s (attempt o p d i t w)
    unfolding attempt
    attempt-Effect =
        Effect-after o p s (request o p d i t)
          (λ _. check_guards o p d i t >>= after_guards o p d i t) (request-Quiet o p d i t)
          (λ _. evaluated-Effect)
