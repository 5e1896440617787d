-- ===== src/Service/Mirror.antt =====
-- The rows of the service and the instances of the engine.
use loop_engine.Prelude.{
  suc, ◌≡◌, refl, sym, ap, ◌∙◌, subst, Bool, true, false, String, List, Option, none, some, ==_refl,
  ◌==◌, if◌then◌else◌,
}
use loop_engine.Core.{Value, LoopInstance, Failure, ok}
use loop_engine.Events.{LoopEvent, GuardFailure}
use loop_engine.Runtime.World.{World, Options}
use loop_engine.Runtime.Transition.{
  TransitionParams, TransitionResult, rejected, pending_approval, blocked, executed, transition,
  moved,
}
use loop_engine.Runtime.Moves.{transition_executed}
use loop_engine.Runtime.Writes.{get-advanced, moved-current_state}
use loop_engine.Runtime.Invariant.{IsSound}
use loop_engine.Service.{
  PersistedLoopInstance, UpdateLoopInstanceInput, LoopInstanceRepository, Server, Served, returned,
  return,
}
use loop_engine.Service.Inversion.{change-returned, on_host-returned}
use loop_engine.Service.Traced.{Host, TraceStore, TracedConfig, trace_call, traced_transition}
use loop_engine.Service.Execution.{
  TransitionLoopInput, ExecutedTransition, TransitionLoopOutcome, transition_done,
  transition_rejected, engine_transition, wrapped_transition, transition_params, append_transition,
  record_transition, settle_transition, transition_row, transition_existing, execute_oss_transition,
}

-- An update answers with the row that it has written.
abbrev pub AnswersUpdates : {R : Type 0} → LoopInstanceRepository R → Type 0
AnswersUpdates {R} repo =
    (u : UpdateLoopInstanceInput) (r : R) (row : PersistedLoopInstance)
    → (repo.update_instance_state u r).0 ≡ some row
    → row.current_state ≡ u.current_state

module _ {S T R : Type 0} (o : Options S) (store : TraceStore T) (message_of : Failure → String)
    (event_object : LoopEvent → Value) (trace_enabled : Bool)
    (repo : LoopInstanceRepository R) where
  -- Traced or not, a transition is one of the engine, from the same stored instances.
  pub wrapped_transition_lem :
      (config : TracedConfig) (p : TransitionParams) (h : Host S T)
      → let after =
          wrapped_transition o store message_of event_object trace_enabled repo config p h in
        (w : World S) × (w.store ≡ h.world.store)
        × (after.0 ≡ (transition o p w).0)
        × (after.1.world.store ≡ (transition o p w).1.store)
  unfolding wrapped_transition traced_transition engine_transition trace_call
  wrapped_transition_lem config p h = go trace_enabled
    where
      traced : World S
      traced = record h.world { moment = suc h.world.moment }

      go :
          (b : Bool)
          → let after =
              (if b
                  then traced_transition o store message_of event_object config p
                  else engine_transition o store message_of event_object trace_enabled repo p)
                h in
            (w : World S) × (w.store ≡ h.world.store)
            × (after.0 ≡ (transition o p w).0)
            × (after.1.world.store ≡ (transition o p w).1.store)
      go true = (traced, refl, refl, refl)
      go false = (h.world, refl, refl, refl)

  abbrev pub params : TransitionLoopInput → PersistedLoopInstance → TransitionParams
  params = transition_params o store message_of event_object trace_enabled repo

  append-done :
      (input : TransitionLoopInput) (row updated : PersistedLoopInstance) (s : Server S T R)
      (e : ExecutedTransition)
      → let after =
          append_transition o store message_of event_object trace_enabled repo input row updated
            s in
        after.0 ≡ returned (transition_done e)
        → (e.current_state ≡ updated.current_state) × (after.1.host ≡ s.host)
  unfolding append_transition
  append-done input row updated s e h =
      let (a, answered, rest, final) = change-returned _ _ s h in
      (cc rest, ap (λ (x : Server S T R). x.host) final)

  record-done :
      (input : TransitionLoopInput) (row : PersistedLoopInstance) (to : String) (s : Server S T R)
      (e : ExecutedTransition)
      → AnswersUpdates repo
      → let after =
          record_transition o store message_of event_object trace_enabled repo input row to s in
        after.0 ≡ returned (transition_done e) → (e.current_state ≡ to) × (after.1.host ≡ s.host)
  unfolding record_transition
  record-done input row to s e answers h =
      let (updated, answered, rest, final) = change-returned _ _ s h in
      let (shown, kept) = append-done input row updated _ e rest in
      (shown ∙ answers _ s.repo updated answered, ap (λ (x : Server S T R). x.host) final ∙ kept)

  settle-done :
      (input : TransitionLoopInput) (row : PersistedLoopInstance) (r : TransitionResult)
      (s : Server S T R) (e : ExecutedTransition)
      → AnswersUpdates repo
      → let after =
          settle_transition o store message_of event_object trace_enabled repo input row r s in
        after.0 ≡ returned (transition_done e)
        → ((from to : String) × (ws : List GuardFailure) × (event : LoopEvent) × (r
              ≡ executed from to ws event)
            × (e.current_state ≡ to))
          × (after.1.host ≡ s.host)
  unfolding settle_transition
  settle-done input row (executed from to ws event) s e answers h = go (to == "") h
    where
      go :
          (b : Bool)
          → let after =
              (if b
                  then return (transition_rejected "Transition rejected")
                  else record_transition o store message_of event_object trace_enabled repo input
                      row to)
                s in
            after.0 ≡ returned (transition_done e)
            → ((from' to' : String) × (ws' : List GuardFailure) × (event' : LoopEvent) × (executed
                    from to ws event
                  ≡ executed from' to' ws' event')
                × (e.current_state ≡ to'))
              × (after.1.host ≡ s.host)
      go true bad = cc bad
      go false done =
          let (shown, kept) = record-done input row to s e answers done in
          ((from, to, ws, event, refl, shown), kept)
  settle-done input row (rejected from reason) s e answers h = cc h
  settle-done input row (pending_approval from) s e answers h = cc h
  settle-done input row (blocked from failures event) s e answers h = cc h

  row-done :
      (input : TransitionLoopInput) (row : PersistedLoopInstance) (s : Server S T R)
      (e : ExecutedTransition)
      → AnswersUpdates repo
      → let after = transition_row o store message_of event_object trace_enabled repo input row s in
        after.0 ≡ returned (transition_done e)
        → (w : World S) × (w.store ≡ s.host.world.store)
          × (from to : String) × (ws : List GuardFailure) × (event : LoopEvent) × ((transition o
                (params input row)
                w).0
              ≡ ok (executed from to ws event))
          × (e.current_state ≡ to)
          × (after.1.host.world.store ≡ (transition o (params input row) w).1.store)
  unfolding transition_row
  row-done input row s e answers h =
      let (r, called, rest, final) = on_host-returned _ _ s h in
      let ((from, to, ws, event, reported, shown), kept) =
        settle-done input row r _ e answers rest in
      let (w, same, result, stored) = wrapped_transition_lem _ (params input row) s.host in
      (
        w,
        same,
        from,
        to,
        ws,
        event,
        sym result ∙ called ∙ ap ok reported,
        shown,
        ap (λ (x : Server S T R). x.host.world.store) final
            ∙ ap (λ (x : Host S T). x.world.store) kept
            ∙ stored,
      )

  existing-done :
      (input : TransitionLoopInput) (found : Option PersistedLoopInstance) (s : Server S T R)
      (e : ExecutedTransition)
      → let after =
          transition_existing o store message_of event_object trace_enabled repo input found s in
        after.0 ≡ returned (transition_done e)
        → (row : PersistedLoopInstance) × (found ≡ some row)
          × (after ≡ transition_row o store message_of event_object trace_enabled repo input row s)
  unfolding transition_existing
  existing-done input none s e h = cc h
  existing-done input (some row) s e h = (row, refl, refl)

  -- The call of `transition` on the engine that an execution makes.
  pub record Ran (input : TransitionLoopInput) (s after : Server S T R) (e : ExecutedTransition)
      : Type 0 where
    pub row : PersistedLoopInstance
    pub found :
        repo.find_by_aggregate_id s.repo input.identity.tenant_id input.aggregate_key ≡ some row
    pub world : World S
    pub same_store : world.store ≡ s.host.world.store
    pub from : String
    pub to : String
    pub warnings : List GuardFailure
    pub event : LoopEvent
    pub result : (transition o (params input row) world).0 ≡ ok (executed from to warnings event)
    pub shown : e.current_state ≡ to
    pub stored : after.host.world.store ≡ (transition o (params input row) world).1.store

  pub execution-Ran :
      (input : TransitionLoopInput) (s : Server S T R) (e : ExecutedTransition)
      → AnswersUpdates repo
      → let after =
          execute_oss_transition o store message_of event_object trace_enabled repo input s in
        after.0 ≡ returned (transition_done e) → Ran input s after.1 e
  unfolding execute_oss_transition
  execution-Ran input s e answers h =
      let (row, found, same) = existing-done input _ s e h in
      let (w, kept, from, to, ws, event, result, shown, stored) =
        row-done input row s e answers (sym (ap (λ x. x.0) same) ∙ h) in
      record {
        row = row;
        found = found;
        world = w;
        same_store = kept;
        from = from;
        to = to;
        warnings = ws;
        event = event;
        result = result;
        shown = shown;
        stored =
            ap (λ (x : Served TransitionLoopOutcome × Server S T R). x.1.host.world.store) same
            ∙ stored;
      }

  -- When an update answers with the row that it wrote, and the engine's instances stand under their
  -- own identifiers and are consistent: a transition that the service reports as executed was run on
  -- a row of the caller's tenant, and the engine's instance of that row's aggregate is in the state
  -- that the service reports.
  pub execute_oss_transition_mirrors :
      (input : TransitionLoopInput) (s : Server S T R) (e : ExecutedTransition)
      → AnswersUpdates repo
      → IsSound o s.host.world.store
      → let after =
          execute_oss_transition o store message_of event_object trace_enabled repo input s in
        after.0 ≡ returned (transition_done e)
        → (row : PersistedLoopInstance) × (i : LoopInstance) × (repo.find_by_aggregate_id s.repo
              input.identity.tenant_id input.aggregate_key
            ≡ some row)
          × (o.store.get_instance after.1.host.world.store row.aggregate_id ≡ some i)
          × (i.current_state ≡ e.current_state)
  unfolding transition_params
  execute_oss_transition_mirrors input s e answers sound h =
      let ran = execution-Ran input s e answers h in
      let (a, from_there, to_there) =
        transition_executed o (params input ran.row) ran.world ran.result in
      let before = a.instance_before in
      let key : before.aggregate_id ≡ ran.row.aggregate_id =
        (subst (IsSound o) (sym ran.same_store) sound ran.row.aggregate_id before a.found).keyed in
      let after = moved a.definition before a.spec a.now in
      (
        ran.row,
        after,
        ran.found,
        ap (λ x. o.store.get_instance x ran.row.aggregate_id) (ran.stored ∙ a.stored)
            ∙ get-advanced o.store ran.world.store a.definition before a.spec a.now _ a.evidence
                ran.row.aggregate_id
            ∙ rw (key, ==_refl ran.row.aggregate_id) refl,
        moved-current_state _ _ _ _ ∙ to_there ∙ sym ran.shown,
      )
