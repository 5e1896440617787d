-- ===== src/Trace/Memory/Tally.antt =====
-- The counts in the summaries of the memory trace store.
use loop_engine.Prelude.{
  ℕ, ◌+◌, ◌≡◌, refl, ap, ◌∙◌, Bool, true, false, String, Option, none, some, List, [], ◌∷◌, ◌++◌,
  length, length-append, get, get-put, arith, if◌then◌else◌, ◌==◌,
}
use loop_engine.Trace.{TraceRecord, RunSummary, sort_by_sequence}
use loop_engine.Trace.Sums.{total, length-sort, total-append, total-sort}
use loop_engine.Trace.Memory.{MemoryTraceStore, get_run_trace, one_if, next_summary, write}

-- The number of blocked records.
abbrev pub blocked_in : List TraceRecord → ℕ
blocked_in = total (λ r. one_if r.blocked)

-- The counts of a summary, 0 where there is none.
abbrev pub Tallies : Option RunSummary → List TraceRecord → Type 0
Tallies none rs = rs ≡ []
Tallies (some s) rs = (s.step_count ≡ length rs) × (s.blocked_count ≡ blocked_in rs)

abbrev pub IsTallied : MemoryTraceStore → Type 0
IsTallied s = (run : String) → Tallies (get run s.summaries) (get_run_trace s run)

-- The counts of a trace with a record more.
grown :
    (r : TraceRecord) (rs : List TraceRecord)
    → (length (sort_by_sequence (rs ++ r ∷ [])) ≡ length rs + 1)
      × (blocked_in (sort_by_sequence (rs ++ r ∷ [])) ≡ blocked_in rs + one_if r.blocked)
unfolding total
grown r rs =
    let after = rs ++ r ∷ [] in
    (
      omega (arith, length-sort after, length-append rs (r ∷ [])),
      omega (
        arith,
        total-sort (λ r. one_if r.blocked) after,
        total-append (λ r. one_if r.blocked) rs (r ∷ []),
      ),
    )

next_summary-Tallies :
    (o : Option RunSummary) (r : TraceRecord) (rs : List TraceRecord)
    → Tallies o rs
    → Tallies (some (next_summary o r)) (sort_by_sequence (rs ++ r ∷ []))
unfolding next_summary total
next_summary-Tallies none r rs h =
    let (l, b) = grown r rs in
    let e = ap length h in let f = ap blocked_in h in (omega arith, omega arith)
next_summary-Tallies (some s) r rs (p, q) = let (l, b) = grown r rs in (omega arith, omega arith)

pub get_run_trace-write :
    (r : TraceRecord) (s : MemoryTraceStore) (run : String)
    → get_run_trace (write r s) run ≡ (
        if r.loop_run_id == run
        then sort_by_sequence (get_run_trace s r.loop_run_id ++ r ∷ [])
        else get_run_trace s run)
unfolding write get_run_trace
get_run_trace-write r s run =
    let written = sort_by_sequence (get_run_trace s r.loop_run_id ++ r ∷ []) in
    ap (λ (o : Option (List TraceRecord)). elim o [ none ↦ [] | some rs ↦ rs ])
      (get-put r.loop_run_id run written s.records)
    ∙ push (r.loop_run_id == run) written
  where
    push :
        (b : Bool) (written : List TraceRecord)
        → elim (if b then some written else get run s.records) [ none ↦ [] | some rs ↦ rs ]
          ≡ (if b then written else elim (get run s.records) [ none ↦ [] | some rs ↦ rs ])
    push true written = refl
    push false written = refl

summary-write :
    (r : TraceRecord) (s : MemoryTraceStore) (run : String)
    → get run (write r s).summaries ≡ (
        if r.loop_run_id == run
        then some (next_summary (get r.loop_run_id s.summaries) r)
        else get run s.summaries)
unfolding write
summary-write r s run =
    get-put r.loop_run_id run (next_summary (get r.loop_run_id s.summaries) r) s.summaries

-- When the summary of every run counts its records and its blocked ones, it does so after a write.
pub write-IsTallied : (r : TraceRecord) (s : MemoryTraceStore) → IsTallied s → IsTallied (write r s)
write-IsTallied r s h run =
    rw (summary-write r s run, get_run_trace-write r s run) (go (r.loop_run_id == run))
  where
    go :
        (b : Bool)
        → Tallies
            (if b
              then some (next_summary (get r.loop_run_id s.summaries) r)
              else get run s.summaries)
            (if b
              then sort_by_sequence (get_run_trace s r.loop_run_id ++ r ∷ [])
              else get_run_trace s run)
    go true = next_summary-Tallies _ r _ (h r.loop_run_id)
    go false = h run
