-- ===== src/Trace/Memory/Compare.antt =====
-- What `compareRuns` finds.
use loop_engine.Prelude.{
  ℕ, zero, suc, ◌+◌, ◌≤◌, ◌<◌, ◌≡◌, refl, sym, ap, subst, ◌⊎◌, inl, inr, Bool, true, false, String,
  Option, none, some, List, [], ◌∷◌, find, get, some-injective, arith, if◌then◌else◌,
}
use loop_engine.Trace.{TraceRecord, RunSummary}
use loop_engine.Trace.Memory.{
  MemoryTraceStore, RunComparison, get_run_trace, steps_needed, at_sequence, is_equivalent,
  compared_step, compared_steps, divergence, larger, compare_runs,
}

-- The two traces do the same at a sequence.
abbrev pub Agree : List TraceRecord → List TraceRecord → ℕ → Type 0
Agree a b n = is_equivalent (at_sequence n a) (at_sequence n b) ≡ true

-- Where two traces part first, if they do.
abbrev pub Parts : List TraceRecord → List TraceRecord → Option ℕ → Type 0
Parts a b none = (n : ℕ) → Agree a b n
Parts a b (some n) = (¬ Agree a b n) × ((m : ℕ) → m < n → Agree a b m)

at_sequence-beyond : (n : ℕ) (rs : List TraceRecord) → steps_needed rs ≤ n → at_sequence n rs ≡ none
unfolding at_sequence steps_needed find
at_sequence-beyond n [] h = refl
at_sequence-beyond n (r ∷ rs) h = ground (arith, at_sequence-beyond n rs)

Agree-beyond :
    (a b : List TraceRecord) (n : ℕ) → larger (steps_needed a) (steps_needed b) ≤ n → Agree a b n
unfolding larger is_equivalent
Agree-beyond a b n h =
    rw (at_sequence-beyond n a (ground arith), at_sequence-beyond n b (ground arith)) refl

module _ (a b : List TraceRecord) where
  -- What holds of the loop's answer: it starts at `n`.
  abbrev PartsFrom : (n count : ℕ) → Option ℕ → Type 0
  PartsFrom n count none = (m : ℕ) → n ≤ m → m < n + count → Agree a b m
  PartsFrom n count (some k) = (¬ Agree a b k) × ((m : ℕ) → n ≤ m → m < k → Agree a b m)

  step_on :
      (n count : ℕ) (found : Option ℕ)
      → Agree a b n
      → PartsFrom (suc n) count found
      → PartsFrom n (suc count) found
  step_on n count none here later = λ m low high. elim (order m low) [
    | inl same ↦ subst (Agree a b) (sym same) here
    | inr above ↦ later m above (omega arith)
  ]
    where
      order : (m : ℕ) → n ≤ m → (m ≡ n) ⊎ (suc n ≤ m)
      order m low = omega arith
  step_on n count (some k) here (apart, before) = (
    apart,
    λ m low high. elim (order m low) [
      | inl same ↦ subst (Agree a b) (sym same) here
      | inr above ↦ before m above high
    ],
  )
    where
      order : (m : ℕ) → n ≤ m → (m ≡ n) ⊎ (suc n ≤ m)
      order m low = omega arith

  compared_steps_lem : (n count : ℕ) → PartsFrom n count (divergence (compared_steps a b n count))
  unfolding compared_steps divergence compared_step
  compared_steps_lem n zero = λ m low high. ground arith
  compared_steps_lem n (suc count) =
      go (is_equivalent (at_sequence n a) (at_sequence n b)) refl (compared_steps_lem (suc n) count)
    where
      go :
          (same : Bool)
          → is_equivalent (at_sequence n a) (at_sequence n b) ≡ same
          → PartsFrom (suc n) count (divergence (compared_steps a b (suc n) count))
          → PartsFrom n
              (suc count)
              (if same then divergence (compared_steps a b (suc n) count) else some n)
      go true e later = step_on n count _ e later
      go false e later = (λ h. ground arith, λ m low high. ground arith)

  divergence_lem :
      Parts a b (divergence (compared_steps a b 0 (larger (steps_needed a) (steps_needed b))))
  divergence_lem = conclude _ (compared_steps_lem 0 (larger (steps_needed a) (steps_needed b)))
    where
      conclude :
          (found : Option ℕ)
          → PartsFrom 0 (larger (steps_needed a) (steps_needed b)) found
          → Parts a b found
      conclude none h = λ n. elim (order n) [
        | inl low ↦ h n (omega arith) (omega arith)
        | inr high ↦ Agree-beyond a b n high
      ]
        where
          order :
              (n : ℕ)
              → (n < larger (steps_needed a) (steps_needed b))
                ⊎ (larger (steps_needed a) (steps_needed b) ≤ n)
          order n = omega arith
      conclude (some k) (apart, before) = (apart, λ m high. before m (omega arith) high)

-- `compareRuns` of two runs reports the least sequence at which the traces differ in the type, the
-- target state or the blocking of their records, a missing record included, and reports none when
-- they differ at no sequence at all.
pub compare_runs_lem :
    (s : MemoryTraceStore) (run_a run_b : String) (c : RunComparison)
    → compare_runs s run_a run_b ≡ some c
    → Parts (get_run_trace s run_a) (get_run_trace s run_b) c.divergence_point
unfolding compare_runs
compare_runs_lem s run_a run_b c h = go (get run_a s.summaries) (get run_b s.summaries) h
  where
    go :
        (x y : Option RunSummary)
        → elim x [
          | none ↦ none
          | some summary_a ↦ elim y [
            | none ↦ none
            | some summary_b ↦ some (record {
              run_a = summary_a;
              run_b = summary_b;
              steps = compared_steps (get_run_trace s run_a) (get_run_trace s run_b) 0 (
                  larger
                    (steps_needed (get_run_trace s run_a))
                    (steps_needed (get_run_trace s run_b)));
              divergence_point = divergence (
                  compared_steps (get_run_trace s run_a) (get_run_trace s run_b) 0 (
                    larger
                      (steps_needed (get_run_trace s run_a))
                      (steps_needed (get_run_trace s run_b))));
            })
          ]
        ]
          ≡ some c
        → Parts (get_run_trace s run_a) (get_run_trace s run_b) c.divergence_point
    go none y h = ground arith
    go (some x) none h = ground arith
    go (some x) (some y) h =
        subst (λ o. Parts (get_run_trace s run_a) (get_run_trace s run_b) o)
          (ap (λ (x : RunComparison). x.divergence_point) (some-injective _ _ h))
          (divergence_lem (get_run_trace s run_a) (get_run_trace s run_b))
