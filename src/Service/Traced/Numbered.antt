-- ===== src/Service/Traced/Numbered.antt =====
-- The sequences that the in-process counter gives, in the memory trace store.
use loop_engine.Prelude.{
  ℕ, suc, ◌+◌, ◌≡◌, refl, sym, ap, ◌∙◌, subst, Bool, true, false, String, Option, none, some, List,
  [], ◌∷◌, ◌++◌, Dict, get, put, get-put, length, length-append, arith, if◌then◌else◌, ◌==◌,
  eq_of_==,
}
use loop_engine.Core.{Value, Failure, Outcome}
use loop_engine.Events.{LoopEvent}
use loop_engine.Runtime.World.{World, Options}
use loop_engine.Runtime.Transition.{TransitionParams, TransitionResult, transition}
use loop_engine.Trace.{TraceRecord, sort_by_sequence}
use loop_engine.Trace.Memory.{MemoryTraceStore, cleared, get_run_trace, write, one_if}
use loop_engine.Trace.Sums.{length-sort}
use loop_engine.Trace.Memory.Tally.{get_run_trace-write}
use loop_engine.Trace.Sequence.{
  Counts, Counts-append, sort-Counts, Counts-valid, validate_trace_sequence,
}
use loop_engine.Service.Traced.{
  TracedConfig, Host, memory_trace_store, counter, next_in_process_sequence, next_trace_sequence,
  trace_record, trace_call, traced_transition,
}

-- The trace of every run counts from 0, and the counter of the run is the next number.
abbrev pub IsNumbered : MemoryTraceStore → Dict ℕ → Type 0
IsNumbered traces sequences =
    (run : String)
    → Counts 0 (get_run_trace traces run)
      × (counter run sequences ≡ length (get_run_trace traces run))

counter-put :
    (run k : String) (n : ℕ) (sequences : Dict ℕ)
    → counter run (put k n sequences) ≡ (if k == run then n else counter run sequences)
unfolding counter
counter-put run k n sequences =
    ap (λ (o : Option ℕ). elim o [ none ↦ 0 | some m ↦ m ]) (get-put k run n sequences)
    ∙ push (k == run)
  where
    push :
        (b : Bool)
        → elim (if b then some n else get run sequences) [ none ↦ 0 | some m ↦ m ]
          ≡ (if b then n else elim (get run sequences) [ none ↦ 0 | some m ↦ m ])
    push true = refl
    push false = refl

-- A write of the record with the next number.
write-IsNumbered :
    (traces : MemoryTraceStore) (sequences : Dict ℕ) (r : TraceRecord)
    → r.sequence ≡ counter r.loop_run_id sequences
    → IsNumbered traces sequences
    → IsNumbered
        (write r traces)
        (put r.loop_run_id (counter r.loop_run_id sequences + 1) sequences)
write-IsNumbered traces sequences r e h run =
    rw
      (
        get_run_trace-write r traces run,
        counter-put run r.loop_run_id (counter r.loop_run_id sequences + 1) sequences,
      )
      (go (r.loop_run_id == run))
  where
    old : List TraceRecord
    old = get_run_trace traces r.loop_run_id

    counts : Counts 0 (old ++ r ∷ [])
    counts = Counts-append 0 old r (h r.loop_run_id).0 (e ∙ (h r.loop_run_id).1 ∙ omega arith)

    go :
        (b : Bool)
        → Counts 0 (if b then sort_by_sequence (old ++ r ∷ []) else get_run_trace traces run)
          × ((if b then counter r.loop_run_id sequences + 1 else counter run sequences)
              ≡ length (if b then sort_by_sequence (old ++ r ∷ []) else get_run_trace traces run))
    go true =
        let sorted = sort-Counts 0 (old ++ r ∷ []) counts in
        (
          subst (Counts 0) (sym sorted) counts,
          (omega (arith, (h r.loop_run_id).1, length-append old (r ∷ []))) ∙ ap length (sym sorted),
        )
    go false = h run

length-write :
    (r : TraceRecord) (traces : MemoryTraceStore) (run : String)
    → length (get_run_trace (write r traces) run)
      ≡ one_if (r.loop_run_id == run) + length (get_run_trace traces run)
length-write r traces run =
    ap length (get_run_trace-write r traces run) ∙ go (r.loop_run_id == run) refl
  where
    go :
        (b : Bool)
        → (r.loop_run_id == run) ≡ b
        → length (
            if b
            then sort_by_sequence (get_run_trace traces r.loop_run_id ++ r ∷ [])
            else get_run_trace traces run)
          ≡ one_if b + length (get_run_trace traces run)
    go true e =
        let old = get_run_trace traces r.loop_run_id in
        let same : r.loop_run_id ≡ run = eq_of_== e in
        let held = ap (λ a. length (get_run_trace traces a)) same in
        omega (arith, length-sort (old ++ r ∷ []), length-append old (r ∷ []), held)
    go false e = omega arith

module _ {S : Type 0} (o : Options S) (message_of : Failure → String)
    (event_object : LoopEvent → Value) where
  -- The host after traced calls.
  unfoldable pub run_traced :
      List (TracedConfig × TransitionParams) → Host S MemoryTraceStore → Host S MemoryTraceStore
  run_traced [] h = h
  run_traced ((config, p) ∷ calls) h =
      run_traced calls (traced_transition o memory_trace_store message_of event_object config p h).1

  abbrev pub IsNumberedHost : Host S MemoryTraceStore → Type 0
  IsNumberedHost h = IsNumbered h.traces h.sequences

  trace_call-IsNumbered :
      (config : TracedConfig) (p : TransitionParams) (start : ℕ)
      (x : Outcome TransitionResult × World S) (h : Host S MemoryTraceStore)
      → IsNumberedHost h
      → IsNumberedHost
          (trace_call o memory_trace_store message_of event_object config p start x h).1
  unfolding trace_call next_trace_sequence next_in_process_sequence memory_trace_store trace_record
  trace_call-IsNumbered config p start (r, w) h numbered =
      write-IsNumbered h.traces h.sequences _ refl numbered

  run_traced-IsNumbered :
      (calls : List (TracedConfig × TransitionParams)) (h : Host S MemoryTraceStore)
      → IsNumberedHost h
      → IsNumberedHost (run_traced calls h)
  unfolding run_traced traced_transition
  run_traced-IsNumbered [] h numbered = numbered
  run_traced-IsNumbered ((config, p) ∷ calls) h numbered =
      run_traced-IsNumbered calls _ (trace_call-IsNumbered config p _ _ h numbered)

  -- The number of calls for a run.
  abbrev pub calls_of : String → List (TracedConfig × TransitionParams) → ℕ
  calls_of run [] = 0
  calls_of run ((config, p) ∷ calls) = one_if (p.aggregate_id == run) + calls_of run calls

  trace_call-length :
      (config : TracedConfig) (p : TransitionParams) (start : ℕ)
      (x : Outcome TransitionResult × World S) (h : Host S MemoryTraceStore) (run : String)
      → length (
          get_run_trace
            (trace_call o memory_trace_store message_of event_object config p start x h).1.traces
            run)
        ≡ one_if (p.aggregate_id == run) + length (get_run_trace h.traces run)
  unfolding trace_call next_trace_sequence next_in_process_sequence memory_trace_store trace_record
  trace_call-length config p start (r, w) h run = length-write _ h.traces run

  run_traced-length :
      (calls : List (TracedConfig × TransitionParams)) (h : Host S MemoryTraceStore) (run : String)
      → length (get_run_trace (run_traced calls h).traces run)
        ≡ calls_of run calls + length (get_run_trace h.traces run)
  unfolding run_traced traced_transition
  run_traced-length [] h run = omega arith
  run_traced-length ((config, p) ∷ calls) h run =
      run_traced-length calls _ run
      ∙ omega (
        arith,
        trace_call-length config p h.world.moment
            (transition o p (record h.world { moment = suc h.world.moment })) h run,
      )

  -- After any traced transitions, executed, refused or throwing, from an empty memory trace store and
  -- no counters, the trace of every run has one record for each of its calls, and it passes the check
  -- of its sequence numbers.
  pub run_traced-valid :
      (calls : List (TracedConfig × TransitionParams)) (w : World S) (run : String)
      → let after = run_traced calls (record { world = w; traces = cleared; sequences = [] }) in
        (length (get_run_trace after.traces run) ≡ calls_of run calls)
        × ((validate_trace_sequence (get_run_trace after.traces run)).sequence_valid ≡ true)
  unfolding cleared get_run_trace counter get
  run_traced-valid calls w run = (
    run_traced-length calls _ run ∙ omega arith,
    Counts-valid _ (run_traced-IsNumbered calls _ (λ r. (tt, refl)) run).0,
  )
