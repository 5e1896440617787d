-- ===== src/Runtime/Writes.antt =====
-- What is read from the store after the writes of each operation, and what `start`, `cancel_loop`
-- and `fail_loop` write.
use loop_engine.Prelude.{
  ap, ◌≡◌, refl, ◌∙◌, ◌⊎◌, inl, inr, Bool, true, false, String, Option, none, some, [], ◌∷◌, ◌++◌,
  arith, if◌then◌else◌, ◌==◌,
}
use loop_engine.Core.{
  Attributes, LoopDefinition, LoopInstance, TransitionSpec, ActorRef, Outcome, threw, Failure,
  active_loop_exists, definition_not_found, instance_not_found,
}
use loop_engine.Events.{LoopEvent, EventBase, ErrorInfo, loop_cancelled, loop_failed}
use loop_engine.Store.{LoopStore}
use loop_engine.Runtime.World.{
  World, Options, throw, read_store, ◌>>=◌, require, time_source, clock,
}
use loop_engine.Runtime.Transition.{moved, record_of}
use loop_engine.Runtime.Lifecycle.{
  StartLoopParams, initial_instance, cancelled_instance, failed_instance, is_running,
  announce_start, open_loop, start, announce_end, close_loop, cancel_loop, fail_loop,
}
use loop_engine.Runtime.Rules.{Quiet, create-Quiet, announce_return-Quiet}

module _ (d : LoopDefinition) (i : LoopInstance) (t : TransitionSpec) (now : String) where
  pub moved-aggregate_id : (moved d i t now).aggregate_id ≡ i.aggregate_id
  unfolding moved
  moved-aggregate_id = ground arith

  pub moved-loop_id : (moved d i t now).loop_id ≡ i.loop_id
  unfolding moved
  moved-loop_id = ground arith

  pub moved-current_state : (moved d i t now).current_state ≡ t.to
  unfolding moved
  moved-current_state = ground arith

module _ {S : Type 0} (st : LoopStore S) (s : S) (d : LoopDefinition) (i : LoopInstance)
    (t : TransitionSpec) (now : String) (actor : ActorRef) (evidence : Attributes) where
  -- The two writes of a move.
  abbrev pub advanced : S
  advanced =
      st.save_transition_record (record_of i t actor now evidence)
        (st.save_instance (moved d i t now) s)

  pub get-advanced :
      (a : String)
      → st.get_instance advanced a
        ≡ (if i.aggregate_id == a then some (moved d i t now) else st.get_instance s a)
  get-advanced a =
      st.get-save_transition_record _ _ a
      ∙ st.get-save_instance s (moved d i t now) a
      ∙ rw (moved-aggregate_id d i t now) refl

  pub history-advanced :
      (a : String)
      → st.get_transition_history advanced a ≡ (
          if i.aggregate_id == a
          then st.get_transition_history s a ++ record_of i t actor now evidence ∷ []
          else st.get_transition_history s a)
  unfolding record_of
  history-advanced a =
      st.history-save_transition_record _ _ a ∙ rw (st.history-save_instance s (moved d i t now) a)

module _ {S : Type 0} (o : Options S) where
  announce_start-Quiet :
      (d : LoopDefinition) (p : StartLoopParams) (now : String) → Quiet (announce_start o d p now)
  unfolding announce_start
  announce_start-Quiet d p now =
      announce_return-Quiet o _ (λ _. initial_instance d p now) (create-Quiet o _ _ _ _)

  open_loop-store :
      (d : LoopDefinition) (p : StartLoopParams) (w : World S)
      → (open_loop o d p w).1.store
        ≡ o.store.save_instance (initial_instance d p (time_source o w.moment)) w.store
  unfolding open_loop clock
  open_loop-store d p w = ap (λ x. x.0) (announce_start-Quiet d p (time_source o w.moment) _)

  -- What `start` may do to the store, by its result.
  abbrev pub Starts : StartLoopParams → Outcome LoopInstance → S → S → Type 0
  Starts p r s s' =
      ((failure : Failure) × (r ≡ threw failure) × (s' ≡ s))
      ⊎ ((d : LoopDefinition) × (now : String) × (o.definition_of p.loop_id ≡ some d)
          × (is_running (o.store.get_instance s p.aggregate_id) ≡ false)
          × (s' ≡ o.store.save_instance (initial_instance d p now) s))

  pub start-Starts :
      (p : StartLoopParams) (w : World S) → Starts p (start o p w).0 w.store (start o p w).1.store
  unfolding start
  start-Starts p w = go (o.definition_of p.loop_id) refl
    where
      with_definition :
          (d : LoopDefinition) (running : Bool)
          → o.definition_of p.loop_id ≡ some d
          → is_running (o.store.get_instance w.store p.aggregate_id) ≡ running
          → Starts p
              ((if running then throw (active_loop_exists p.aggregate_id) else open_loop o d p) w).0
              w.store
              ((if running then throw (active_loop_exists p.aggregate_id) else open_loop o d p)
                w).1.store
      with_definition d true defined eq = inl (_, refl, refl)
      with_definition d false defined eq = inr (d, _, defined, eq, open_loop-store d p w)

      go :
          (found : Option LoopDefinition)
          → o.definition_of p.loop_id ≡ found
          → Starts p
              ((require found (definition_not_found p.loop_id) >>= λ d.
                  (read_store (λ s. o.store.get_instance s p.aggregate_id) >>= λ existing.
                  if is_running existing
                  then throw (active_loop_exists p.aggregate_id)
                  else open_loop o d p))
                w).0
              w.store
              ((require found (definition_not_found p.loop_id) >>= λ d.
                  (read_store (λ s. o.store.get_instance s p.aggregate_id) >>= λ existing.
                  if is_running existing
                  then throw (active_loop_exists p.aggregate_id)
                  else open_loop o d p))
                w).1.store
      go none e = inl (_, refl, refl)
      go (some d) e =
          with_definition d (is_running (o.store.get_instance w.store p.aggregate_id)) e refl

  -- What `cancel_loop` and `fail_loop` do to the store: nothing, or one write of the instance that
  -- they found, closed by `close`.
  abbrev pub Closes : (LoopInstance → String → LoopInstance) → String → S → S → Type 0
  Closes close a s s' =
      (s' ≡ s)
      ⊎ ((i : LoopInstance) × (now : String) × (o.store.get_instance s a ≡ some i)
          × (s' ≡ o.store.save_instance (close i now) s))

  announce_end-Quiet :
      (i : LoopInstance) (make : EventBase → LoopEvent) → Quiet (announce_end o i make)
  unfolding announce_end
  announce_end-Quiet i make = announce_return-Quiet o _ (λ event. event) (create-Quiet o _ _ _ make)

  close_loop-Closes :
      (closed : LoopInstance → String → LoopInstance) (a : String)
      (make : LoopInstance → EventBase → LoopEvent) (w : World S) (found : Option LoopInstance)
      → o.store.get_instance w.store a ≡ found
      → Closes closed a w.store
          ((require found (instance_not_found a) >>= λ i. close_loop o closed i (make i)) w).1.store
  unfolding close_loop clock
  close_loop-Closes closed a make w none e = inl refl
  close_loop-Closes closed a make w (some i) e =
      inr (i, time_source o w.moment, e, ap (λ x. x.0) (announce_end-Quiet i (make i) _))

  pub cancel_loop-Closes :
      (a : String) (actor : ActorRef) (reason : Option String) (w : World S)
      → Closes cancelled_instance a w.store (cancel_loop o a actor reason w).1.store
  unfolding cancel_loop
  cancel_loop-Closes a actor reason w =
      close_loop-Closes cancelled_instance a (λ i b. loop_cancelled b i.current_state actor reason)
        w _ refl

  pub fail_loop-Closes :
      (a from_state : String) (error : ErrorInfo) (w : World S)
      → Closes failed_instance a w.store (fail_loop o a from_state error w).1.store
  unfolding fail_loop
  fail_loop-Closes a from_state error w =
      close_loop-Closes failed_instance a (λ i b. loop_failed b from_state error) w _ refl
