-- ===== src/Runtime/Recorded.antt =====
-- The history of an aggregate, over its whole life, is a walk of its definition to its state.
use loop_engine.Prelude.{
  ◌≡◌, refl, sym, ap, subst, ◌∙◌, ◌⊎◌, inl, inr, Bool, true, false, String, some, List, [], ◌∷◌,
  ◌++◌, In, find-some, some-injective, Bool-cases, &&-true, true_&&, ==_refl, eq_of_==,
  if◌then◌else◌, ◌==◌,
}
use loop_engine.Core.{
  Attributes, LoopDefinition, LoopInstance, TransitionSpec, TransitionRecord, Outcome,
}
use loop_engine.Observability.{explains}
use loop_engine.Observability.Replay.{Walk, Walk-append}
use loop_engine.Runtime.World.{World, Options}
use loop_engine.Runtime.Transition.{
  TransitionParams, TransitionResult, transition, moved, record_of, leaves,
}
use loop_engine.Runtime.Lifecycle.{
  StartLoopParams, initial_instance, cancelled_instance, failed_instance, start,
}
use loop_engine.Evidence.Commit.{SnapshotStoreInsertInput}
use loop_engine.Runtime.Effect.{Advance}
use loop_engine.Runtime.Effect.Run.{transition-Effect}
use loop_engine.Runtime.Writes.{
  advanced, get-advanced, history-advanced, moved-loop_id, moved-current_state, start-Starts,
  Closes, cancel_loop-Closes, fail_loop-Closes,
}
use loop_engine.Runtime.Invariant.{IsSound}
use loop_engine.Runtime.Calls.{Call, starts, moves, cancels, fails, run_call}

module _ {S : Type 0} (o : Options S) (a : String) (d : LoopDefinition) where
  -- The aggregate has an instance of the definition, and its history walks to the instance's state.
  pub record Recorded (s : S) : Type 0 where
    pub current : LoopInstance
    pub found : o.store.get_instance s a ≡ some current
    pub defined : o.definition_of current.loop_id ≡ some d
    pub walk : Walk d d.initial_state (o.store.get_transition_history s a) current.current_state

  -- A new reading of the instance and of the history.
  pub Recorded-read :
      (s s' : S) (j : LoopInstance) (history : List TransitionRecord)
      → o.store.get_instance s' a ≡ some j
      → o.store.get_transition_history s' a ≡ history
      → o.definition_of j.loop_id ≡ some d
      → Walk d d.initial_state history j.current_state
      → Recorded s'
  Recorded-read s s' j history found kept defined walk = record {
    current = j;
    found = found;
    defined = defined;
    walk = subst (λ h. Walk d d.initial_state h j.current_state) (sym kept) walk;
  }

  -- A write at another identifier.
  Recorded-elsewhere :
      (s s' : S)
      → o.store.get_instance s' a ≡ o.store.get_instance s a
      → o.store.get_transition_history s' a ≡ o.store.get_transition_history s a
      → Recorded s
      → Recorded s'
  Recorded-elsewhere s s' same_instance same_history r =
      Recorded-read s s' r.current _ (same_instance ∙ r.found) same_history r.defined r.walk

  -- The record of a move is explained by the transition that was found.
  explains-record_of :
      (p : TransitionParams) (i : LoopInstance) (t : TransitionSpec) (now : String)
      (evidence : Attributes)
      → leaves p.transition_id i.current_state t ≡ true
      → explains i.current_state (record_of i t p.actor now evidence) t ≡ true
  unfolding record_of
  explains-record_of p i t now evidence h =
      true_&& (==_refl t.id) (true_&& (&&-true _ _ h).1 (==_refl t.to))

  Advance-Recorded :
      (p : TransitionParams) (s s' : S) {r : Outcome TransitionResult}
      {log log' : List SnapshotStoreInsertInput}
      → IsSound o s
      → Recorded s
      → Advance o p (s, log) r (s', log')
      → Recorded s'
  unfolding record_of
  Advance-Recorded p s s' sound r m =
      subst Recorded (sym m.stored) (go (Bool-cases (i.aggregate_id == a)))
    where
      open m use {instance_before as i, definition, spec as t, now, evidence}

      new : S
      new = advanced o.store s definition i t now p.actor evidence

      reads :
          (b : Bool)
          → (i.aggregate_id == a) ≡ b
          → (o.store.get_instance new a
              ≡ (if b then some (moved definition i t now) else o.store.get_instance s a))
            × (o.store.get_transition_history new a ≡ (
                if b
                then o.store.get_transition_history s a ++ record_of i t p.actor now evidence ∷ []
                else o.store.get_transition_history s a))
      reads b e = (
        get-advanced o.store s definition i t now p.actor evidence a ∙ rw e refl,
        history-advanced o.store s definition i t now p.actor evidence a ∙ rw e refl,
      )

      go : ((i.aggregate_id == a) ≡ true) ⊎ ((i.aggregate_id == a) ≡ false) → Recorded new
      go (inr there) = let (same, kept) = reads false there in Recorded-elsewhere s new same kept r
      go (inl here) =
          let (instance_now, history_now) = reads true here in
          let at_a : p.aggregate_id ≡ a =
            sym (sound p.aggregate_id i m.found).keyed ∙ eq_of_== here in
          let same : r.current ≡ i =
            some-injective _ _ (sym r.found ∙ sym (ap (o.store.get_instance s) at_a) ∙ m.found) in
          let same_definition : definition ≡ d = some-injective _ _ (
            sym m.defined
            ∙ sym (ap (λ (x : LoopInstance). o.definition_of x.loop_id) same)
            ∙ r.defined) in
          let (listed, fits) =
            find-some (leaves p.transition_id i.current_state) _ m.cleared.listed in
          Recorded-read s new (moved definition i t now) _ instance_now history_now
            (ap o.definition_of (moved-loop_id definition i t now)
              ∙ m.defined
              ∙ ap some same_definition)
            (subst
              (Walk d d.initial_state
                (o.store.get_transition_history s a ++ record_of i t p.actor now evidence ∷ []))
              (sym (moved-current_state definition i t now))
              (Walk-append d d.initial_state i.current_state _ (record_of i t p.actor now evidence)
                t
                (subst
                  (λ (x : LoopInstance).
                    Walk d d.initial_state (o.store.get_transition_history s a) x.current_state)
                  same r.walk)
                (subst (λ (x : LoopDefinition). In t x.transitions) same_definition listed)
                (explains-record_of p i t now evidence fits)))

  transition-Recorded :
      (p : TransitionParams) (w : World S)
      → IsSound o w.store
      → Recorded w.store
      → Recorded (transition o p w).1.store
  transition-Recorded p w sound r = elim (transition-Effect o p w) [
    | inl (idle, kept) ↦ subst Recorded (sym kept) r
    | inr m ↦ Advance-Recorded p w.store _ sound r m
  ]

  start-Recorded :
      (p : StartLoopParams) (w : World S)
      → (p.aggregate_id == a) ≡ false
      → Recorded w.store
      → Recorded (start o p w).1.store
  unfolding initial_instance
  start-Recorded p w other r = elim (start-Starts o p w) [
    | inl (failure, thrown, kept) ↦ subst Recorded (sym kept) r
    | inr (d', now, defined, idle, stored) ↦ subst Recorded (sym stored) (
        Recorded-elsewhere w.store _
          (o.store.get-save_instance w.store (initial_instance d' p now) a ∙ rw other refl)
          (o.store.history-save_instance w.store (initial_instance d' p now) a) r)
  ]

  Closes-Recorded :
      (closed : LoopInstance → String → LoopInstance) (b : String) (s s' : S)
      → ((i : LoopInstance) (now : String)
          → ((closed i now).aggregate_id ≡ i.aggregate_id)
            × ((closed i now).loop_id ≡ i.loop_id)
            × ((closed i now).current_state ≡ i.current_state))
      → IsSound o s
      → Recorded s
      → Closes o closed b s s'
      → Recorded s'
  Closes-Recorded closed b s s' same sound r (inl kept) = subst Recorded (sym kept) r
  Closes-Recorded closed b s s' same sound r (inr (i, now, found, stored)) =
      subst Recorded (sym stored) (go (Bool-cases ((closed i now).aggregate_id == a)))
    where
      new : S
      new = o.store.save_instance (closed i now) s

      history_now : o.store.get_transition_history new a ≡ o.store.get_transition_history s a
      history_now = o.store.history-save_instance s (closed i now) a

      go :
          (((closed i now).aggregate_id == a) ≡ true) ⊎ (((closed i now).aggregate_id == a) ≡ false)
          → Recorded new
      go (inr there) =
          Recorded-elsewhere s new (o.store.get-save_instance s (closed i now) a ∙ rw there refl)
            history_now r
      go (inl here) =
          let at_a : b ≡ a = sym (sound b i found).keyed ∙ sym (same i now).0 ∙ eq_of_== here in
          let before : r.current ≡ i =
            some-injective _ _ (sym r.found ∙ sym (ap (o.store.get_instance s) at_a) ∙ found) in
          Recorded-read s new (closed i now) _
            (o.store.get-save_instance s (closed i now) a ∙ rw here refl) history_now
            (ap o.definition_of ((same i now).1 ∙ sym (ap (λ (x : LoopInstance). x.loop_id) before))
              ∙ r.defined)
            (subst (Walk d d.initial_state (o.store.get_transition_history s a))
              (ap (λ (x : LoopInstance). x.current_state) before ∙ sym (same i now).2) r.walk)

  -- Any call but a new start of the aggregate.
  abbrev pub Continues : Call → Type 0
  Continues (starts p) = (p.aggregate_id == a) ≡ false
  Continues _ = Unit

  pub run_call-Recorded :
      (c : Call) (w : World S)
      → Continues c
      → IsSound o w.store
      → Recorded w.store
      → Recorded (run_call o c w).store
  unfolding run_call cancelled_instance failed_instance
  run_call-Recorded (starts p) w other sound r = start-Recorded p w other r
  run_call-Recorded (moves p) w other sound r = transition-Recorded p w sound r
  run_call-Recorded (cancels b actor reason) w other sound r =
      Closes-Recorded cancelled_instance b w.store _ (λ i now. (refl, refl, refl)) sound r
        (cancel_loop-Closes o b actor reason w)
  run_call-Recorded (fails b from error) w other sound r =
      Closes-Recorded failed_instance b w.store _ (λ i now. (refl, refl, refl)) sound r
        (fail_loop-Closes o b from error w)
