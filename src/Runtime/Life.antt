-- ===== src/Runtime/Life.antt =====
-- One life of an aggregate: from its start, through any calls but a new start of it.
use loop_engine.Prelude.{◌≡◌, refl, sym, ap, subst, ◌∙◌, inl, inr, true, String, some, [], ==_refl}
use loop_engine.Core.{LoopDefinition, LoopInstance, ok}
use loop_engine.Observability.{replay_loop}
use loop_engine.Observability.Replay.{Walk, replay_loop_iff}
use loop_engine.Runtime.World.{World, Options}
use loop_engine.Runtime.Lifecycle.{StartLoopParams, initial_instance, start}
use loop_engine.Runtime.Writes.{Starts, start-Starts}
use loop_engine.Runtime.Invariant.{IsSound, start-IsSound}
use loop_engine.Runtime.Calls.{Call, run_call, run_call-IsSound}
use loop_engine.Runtime.Recorded.{Recorded, Recorded-read, Continues, run_call-Recorded}

module _ {S : Type 0} (o : Options S) (a : String) (d : LoopDefinition) where
  -- The worlds of one life of the aggregate: its start where it had no history, then any calls but a
  -- new start of it.
  pub data Life : World S → Type 0 where
    born :
        (w : World S) (p : StartLoopParams) (i : LoopInstance)
        → IsSound o w.store
        → p.aggregate_id ≡ a
        → o.store.get_transition_history w.store a ≡ []
        → o.definition_of p.loop_id ≡ some d
        → o.definition_of d.id ≡ some d
        → (start o p w).0 ≡ ok i
        → Life (start o p w).1
    lives : {w : World S} → (c : Call) → Continues o a d c → Life w → Life (run_call o c w)

  start-Recorded_born :
      (w : World S) (p : StartLoopParams) (i : LoopInstance)
      → p.aggregate_id ≡ a
      → o.store.get_transition_history w.store a ≡ []
      → o.definition_of p.loop_id ≡ some d
      → o.definition_of d.id ≡ some d
      → (start o p w).0 ≡ ok i
      → Recorded o a d (start o p w).1.store
  unfolding initial_instance
  start-Recorded_born w p i at_a fresh defined known returned = go (start-Starts o p w)
    where
      go :
          Starts o p (start o p w).0 w.store (start o p w).1.store
          → Recorded o a d (start o p w).1.store
      go (inl (failure, thrown, kept)) = cc
      go (inr (d', now, defined', idle, stored)) =
          let same : d' ≡ d = cc in
          let i' : LoopInstance = initial_instance d' p now in
          subst (Recorded o a d) (sym stored) (
            Recorded-read o a d w.store _ i' []
              (o.store.get-save_instance w.store i' a ∙ rw (at_a, ==_refl a) refl)
              (o.store.history-save_instance w.store i' a ∙ fresh)
              (subst (λ (x : LoopDefinition). o.definition_of x.id ≡ some d) (sym same) known)
              (ap (λ (x : LoopDefinition). x.initial_state) (sym same)))

  Life-IsSound : {w : World S} → Life w → IsSound o w.store
  Life-IsSound (born w p i sound at_a fresh defined known returned) = start-IsSound o p w sound
  Life-IsSound (lives {w} c other l) = run_call-IsSound o c w (Life-IsSound l)

  Life-Recorded : {w : World S} → Life w → Recorded o a d w.store
  Life-Recorded (born w p i sound at_a fresh defined known returned) =
      start-Recorded_born w p i at_a fresh defined known returned
  Life-Recorded (lives {w} c other l) =
      run_call-Recorded o a d c w other (Life-IsSound l) (Life-Recorded l)

  -- In every world of a life of an aggregate, begun by a start where it had no history, of a
  -- definition that is registered under its identifier, the recorded history walks along transitions
  -- of the definition from the initial state to the stored current state, and its replay reports no
  -- error, whatever calls were made in between but a new start of the aggregate.
  pub Life-replays :
      {w : World S}
      → Life w
      → ((i : LoopInstance) × (o.store.get_instance w.store a ≡ some i)
          × Walk d d.initial_state (o.store.get_transition_history w.store a) i.current_state)
        × ((replay_loop d (o.store.get_transition_history w.store a)).0 ≡ true)
  Life-replays l =
      let r = Life-Recorded l in
      ((r.current, r.found, r.walk), (replay_loop_iff d _).1 (r.current.current_state, r.walk))
