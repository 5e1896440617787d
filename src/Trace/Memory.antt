-- ===== src/Trace/Memory.antt =====
-- `MemoryTraceStore` (packages/observability/src/memory-trace-store.ts).
pub mod Compare
pub mod Tally
use loop_engine.Prelude.{
  ℕ, zero, suc, ◌+◌, Bool, true, false, ◌&&◌, ◌||◌, not, String, Option, none, some, List, [], ◌∷◌,
  ◌++◌, Dict, get, put, values, filter, find, eqb, ltb, leb, if◌then◌else◌, ◌==◌,
}
use loop_engine.Core.{Number, ge_number}
use loop_engine.Guards.BuiltIn.{gt_number}
use loop_engine.Trace.{TraceRecord, RunSummary, TraceEventType, terminal, code_of, sort_by_sequence}

pub record MemoryTraceStore : Type 0 where
  pub records : Dict (List TraceRecord)
  pub summaries : Dict RunSummary

-- A new store, and the store after `clear()`.
unfoldable pub cleared : MemoryTraceStore
cleared = record { records = []; summaries = [] }

unfoldable pub get_run_trace : MemoryTraceStore → String → List TraceRecord
get_run_trace s run = elim (get run s.records) [ none ↦ [] | some rs ↦ rs ]

unfoldable pub same_type : TraceEventType → TraceEventType → Bool
same_type a b = eqb (code_of a) (code_of b)

unfoldable pub is_terminal_record : TraceRecord → Bool
is_terminal_record r = same_type r.type terminal

abbrev pub one_if : Bool → ℕ
one_if true = 1
one_if false = 0

-- The summary that `write` stores, from the one that is there.
unfoldable pub next_summary : Option RunSummary → TraceRecord → RunSummary
next_summary none r = record {
  loop_run_id = r.loop_run_id;
  loop_id = r.loop_id;
  started_at = r.timestamp;
  completed_at = if is_terminal_record r then some r.timestamp else none;
  terminal_state = if is_terminal_record r then r.to_state else none;
  step_count = 1;
  blocked_count = one_if r.blocked;
  governed = r.governed;
  tenant_id = r.tenant_id;
}
next_summary (some current) r = record {
  loop_run_id = r.loop_run_id;
  loop_id = r.loop_id;
  started_at = current.started_at;
  completed_at = if is_terminal_record r then some r.timestamp else current.completed_at;
  terminal_state = if is_terminal_record r then r.to_state else current.terminal_state;
  step_count = current.step_count + 1;
  blocked_count = current.blocked_count + one_if r.blocked;
  governed = current.governed || r.governed;
  tenant_id = r.tenant_id;
}

unfoldable pub write : TraceRecord → MemoryTraceStore → MemoryTraceStore
write r s = record {
  records =
      put r.loop_run_id (sort_by_sequence (get_run_trace s r.loop_run_id ++ r ∷ [])) s.records;
  summaries = put r.loop_run_id (next_summary (get r.loop_run_id s.summaries) r) s.summaries;
}

pub record ListRunsOpts : Type 0 where
  pub limit : Option ℕ
  pub after : Option Number
  pub before : Option Number
  pub governed : Option Bool

unfoldable pub newest_first : RunSummary → List RunSummary → List RunSummary
newest_first r [] = r ∷ []
newest_first r (s ∷ rs) =
    let rest = newest_first r rs in
    if ge_number r.started_at s.started_at then r ∷ s ∷ rs else s ∷ rest

unfoldable pub sort_newest_first : List RunSummary → List RunSummary
sort_newest_first [] = []
sort_newest_first (r ∷ rs) = newest_first r (sort_newest_first rs)

abbrev pub same_flag : Bool → Bool → Bool
same_flag true b = b
same_flag false b = not b

-- The four filters of `listRuns`.
unfoldable pub is_listed : String → ListRunsOpts → RunSummary → Bool
is_listed loop_id opts s =
    s.loop_id == loop_id
    && (elim opts.governed [ none ↦ true | some g ↦ same_flag s.governed g ]
        && (elim opts.after [ none ↦ true | some t ↦ gt_number s.started_at t ]
            && elim opts.before [ none ↦ true | some t ↦ gt_number t s.started_at ]))

unfoldable pub take : {A : Type 0} → ℕ → List A → List A
take zero xs = []
take (suc n) [] = []
take (suc n) (x ∷ xs) = x ∷ take n xs

-- A limit of 0 is no limit.
unfoldable pub limited : {A : Type 0} → Option ℕ → List A → List A
limited none xs = xs
limited (some zero) xs = xs
limited (some (suc n)) xs = take (suc n) xs

unfoldable pub list_runs : MemoryTraceStore → String → ListRunsOpts → List RunSummary
list_runs s loop_id opts =
    limited opts.limit (sort_newest_first (filter (is_listed loop_id opts) (values s.summaries)))

pub record ComparedStep : Type 0 where
  pub sequence : ℕ
  pub in_a : Option TraceRecord
  pub in_b : Option TraceRecord
  pub equivalent : Bool

pub record RunComparison : Type 0 where
  pub run_a : RunSummary
  pub run_b : RunSummary
  pub steps : List ComparedStep
  pub divergence_point : Option ℕ

-- `Math.max` of the sequences and -1, plus 1: the number of steps compared.
unfoldable pub steps_needed : List TraceRecord → ℕ
steps_needed [] = 0
steps_needed (r ∷ rs) =
    let rest = steps_needed rs in if ltb r.sequence rest then rest else suc r.sequence

unfoldable pub at_sequence : ℕ → List TraceRecord → Option TraceRecord
at_sequence n rs = find (λ r. eqb r.sequence n) rs

unfoldable pub same_text : Option String → Option String → Bool
same_text none none = true
same_text none (some t) = false
same_text (some s) none = false
same_text (some s) (some t) = s == t

-- A missing record reads as `undefined` in the three fields, which no record's field is.
unfoldable pub is_equivalent : Option TraceRecord → Option TraceRecord → Bool
is_equivalent none none = true
is_equivalent none (some b) = false
is_equivalent (some a) none = false
is_equivalent (some a) (some b) =
    same_type a.type b.type && (same_text a.to_state b.to_state && same_flag a.blocked b.blocked)

unfoldable pub compared_step : List TraceRecord → List TraceRecord → ℕ → ComparedStep
compared_step a b n = record {
  sequence = n;
  in_a = at_sequence n a;
  in_b = at_sequence n b;
  equivalent = is_equivalent (at_sequence n a) (at_sequence n b);
}

-- The loop over the sequences from `n` on, `count` of them.
unfoldable pub compared_steps :
    List TraceRecord → List TraceRecord → (n count : ℕ) → List ComparedStep
compared_steps a b n zero = []
compared_steps a b n (suc count) = compared_step a b n ∷ compared_steps a b (suc n) count

-- `divergencePoint` when the loop ends: the first step that is not equivalent.
unfoldable pub divergence : List ComparedStep → Option ℕ
divergence [] = none
divergence (s ∷ steps) =
    let rest = divergence steps in if s.equivalent then rest else some s.sequence

unfoldable pub larger : ℕ → ℕ → ℕ
larger a b = if ltb a b then b else a

-- `none` where `compareRuns` throws.
unfoldable pub compare_runs : MemoryTraceStore → (run_a run_b : String) → Option RunComparison
compare_runs s run_a run_b =
    let a = get_run_trace s run_a in
    let b = get_run_trace s run_b in
    let steps = compared_steps a b 0 (larger (steps_needed a) (steps_needed b)) in
    elim (get run_a s.summaries) [
      | none ↦ none
      | some summary_a ↦ elim (get run_b s.summaries) [
        | none ↦ none
        | some summary_b ↦ some (record {
          run_a = summary_a;
          run_b = summary_b;
          steps = steps;
          divergence_point = divergence steps;
        })
      ]
    ]
