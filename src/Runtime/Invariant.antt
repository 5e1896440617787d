-- ===== src/Runtime/Invariant.antt =====
-- The invariant of the store: instances stand under their own identifiers, a completed loop is in a
-- terminal state with its time of completion, and an active one has none. Every call keeps it, so it
-- holds in every world that calls can reach.
use loop_engine.Prelude.{
  ◌≡◌, refl, sym, ap, ◌∙◌, subst, inl, inr, Bool, true, false, String, Option, none, some,
  some-injective, eq_of_==, Bool-cases, ||-false, if◌then◌else◌, ◌==◌,
}
use loop_engine.Core.{
  LoopDefinition, LoopInstance, TransitionSpec, ActorRef, is_active, is_completed, completed,
}
use loop_engine.Events.{ErrorInfo}
use loop_engine.Runtime.World.{World, Options}
use loop_engine.Runtime.Transition.{TransitionParams, transition, moved, is_terminal_state}
use loop_engine.Runtime.Lifecycle.{
  StartLoopParams, initial_instance, cancelled_instance, failed_instance, start, cancel_loop,
  fail_loop,
}
use loop_engine.Runtime.Rules.{durable}
use loop_engine.Runtime.Effect.{Effect}
use loop_engine.Runtime.Rules.{durable}
use loop_engine.Runtime.Effect.Run.{transition-Effect}
use loop_engine.Runtime.Writes.{
  get-advanced, moved-aggregate_id, moved-loop_id, Starts, start-Starts, Closes, cancel_loop-Closes,
  fail_loop-Closes,
}

pub record IsConsistent (d : LoopDefinition) (i : LoopInstance) : Type 0 where
  pub closed : is_completed i.status ≡ true → is_terminal_state d i.current_state ≡ true
  pub stamped : is_completed i.status ≡ true → (now : String) × (i.completed_at ≡ some now)
  pub running : is_active i.status ≡ true → i.completed_at ≡ none

moved-IsConsistent :
    (d : LoopDefinition) (i : LoopInstance) (t : TransitionSpec) (now : String)
    → IsConsistent d i
    → is_completed i.status ≡ false
    → IsConsistent d (moved d i t now)
unfolding moved is_active
moved-IsConsistent d i t now c open_status = go (is_terminal_state d t.to) refl
  where
    go :
        (b : Bool)
        → is_terminal_state d t.to ≡ b
        → IsConsistent d (
            if b
            then record i {
              current_state = t.to;
              updated_at = now;
              status = completed;
              completed_at = some now;
            }
            else record i { current_state = t.to; updated_at = now })
    go true last = record { closed = λ _. last; stamped = λ _. (now, refl); running = λ h. cc }
    go false on = record { closed = λ h. cc; stamped = λ h. cc; running = c.running }

module _ {S : Type 0} (o : Options S) where
  -- What holds of an instance that is read at `a`.
  pub record IsGood (a : String) (i : LoopInstance) : Type 0 where
    pub keyed : i.aggregate_id ≡ a
    pub consistent : (d : LoopDefinition) → o.definition_of i.loop_id ≡ some d → IsConsistent d i

  abbrev pub IsSound : S → Type 0
  IsSound s = (a : String) (i : LoopInstance) → o.store.get_instance s a ≡ some i → IsGood a i

  -- A write that reads back as `j` under its own identifier and as before elsewhere.
  pub IsSound-write :
      (s s' : S) (k : String) (j : LoopInstance)
      → ((a : String)
          → o.store.get_instance s' a ≡ (if k == a then some j else o.store.get_instance s a))
      → IsGood k j
      → IsSound s
      → IsSound s'
  IsSound-write s s' k j reads good sound a i h = elim (Bool-cases (k == a)) [
    | inl here ↦
        subst (λ x. IsGood x i) (eq_of_== here)
          (subst (IsGood k) (some-injective j i (sym (reads a ∙ rw here refl) ∙ h)) good)
    | inr there ↦ sound a i (sym (reads a ∙ rw there refl) ∙ h)
  ]

  pub IsSound-save :
      (s : S) (j : LoopInstance)
      → ((d : LoopDefinition) → o.definition_of j.loop_id ≡ some d → IsConsistent d j)
      → IsSound s
      → IsSound (o.store.save_instance j s)
  IsSound-save s j consistent =
      IsSound-write s _ j.aggregate_id j (o.store.get-save_instance s j)
        (record { keyed = refl; consistent = consistent })

  pub transition-IsSound :
      (p : TransitionParams) (w : World S) → IsSound w.store → IsSound (transition o p w).1.store
  transition-IsSound p w sound = go (transition-Effect o p w)
    where
      go : Effect o p (durable w) (transition o p w) → IsSound (transition o p w).1.store
      go (inl (idle, kept)) = subst IsSound (sym kept) sound
      go (inr a) =
          let i = a.instance_before in
          let good = sound p.aggregate_id i a.found in
          let (open_status, _) = ||-false _ _ a.cleared.open_state in
          subst IsSound (sym a.stored) (
            IsSound-write w.store _ i.aggregate_id _
              (get-advanced o.store w.store a.definition i a.spec a.now p.actor a.evidence)
              (record {
                keyed = moved-aggregate_id a.definition i a.spec a.now;
                consistent = λ d' e.
                    subst (λ d. IsConsistent d (moved a.definition i a.spec a.now))
                      (some-injective _ _
                        (sym a.defined ∙ sym (ap o.definition_of (moved-loop_id _ i _ _)) ∙ e))
                      (moved-IsConsistent a.definition i a.spec a.now
                        (good.consistent a.definition a.defined) open_status);
              })
              sound)

  pub start-IsSound :
      (p : StartLoopParams) (w : World S) → IsSound w.store → IsSound (start o p w).1.store
  unfolding initial_instance is_completed
  start-IsSound p w sound = go (start-Starts o p w)
    where
      go : Starts o p (start o p w).0 w.store (start o p w).1.store → IsSound (start o p w).1.store
      go (inl (failure, thrown, kept)) = subst IsSound (sym kept) sound
      go (inr (d, now, defined, idle, stored)) = subst IsSound (sym stored) (
          IsSound-save w.store (initial_instance d p now)
            (λ d' e. record { closed = λ h. cc; stamped = λ h. cc; running = λ h. refl }) sound)

  Closes-IsSound :
      (closed : LoopInstance → String → LoopInstance) (a : String) (s s' : S)
      → ((i : LoopInstance) (now : String)
          → (is_completed (closed i now).status ≡ false)
            × (is_active (closed i now).status ≡ false))
      → Closes o closed a s s'
      → IsSound s
      → IsSound s'
  Closes-IsSound closed a s s' ended (inl kept) sound = subst IsSound (sym kept) sound
  Closes-IsSound closed a s s' ended (inr (i, now, found, stored)) sound =
      subst IsSound (sym stored) (
        IsSound-save s (closed i now)
          (λ d e. record {
            closed = λ h. cc ((ended i now).0);
            stamped = λ h. cc ((ended i now).0);
            running = λ h. cc ((ended i now).1);
          })
          sound)

  pub cancel_loop-IsSound :
      (a : String) (actor : ActorRef) (reason : Option String) (w : World S)
      → IsSound w.store
      → IsSound (cancel_loop o a actor reason w).1.store
  unfolding cancelled_instance is_completed is_active
  cancel_loop-IsSound a actor reason w =
      Closes-IsSound cancelled_instance a w.store _ (λ i now. (refl, refl))
        (cancel_loop-Closes o a actor reason w)

  pub fail_loop-IsSound :
      (a from_state : String) (error : ErrorInfo) (w : World S)
      → IsSound w.store
      → IsSound (fail_loop o a from_state error w).1.store
  unfolding failed_instance is_completed is_active
  fail_loop-IsSound a from_state error w =
      Closes-IsSound failed_instance a w.store _ (λ i now. (refl, refl))
        (fail_loop-Closes o a from_state error w)
