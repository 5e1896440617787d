-- ===== src/Trace/Sequence.antt =====
-- `validateTraceSequence` (packages/runtime-core/src/build-run-responses.ts).
use loop_engine.Prelude.{
  ℕ, suc, ◌+◌, ◌≡◌, refl, sym, ap, ◌∙◌, subst, Bool, true, false, Option, none, some, List, [], ◌∷◌,
  ◌++◌, length, eqb, arith, if◌then◌else◌,
}
use loop_engine.Trace.{TraceRecord, insert_by_sequence, sort_by_sequence}

pub record SequenceCheck : Type 0 where
  pub sequence_valid : Bool
  pub invalid_at_sequence : Option ℕ

-- The loop at index `i`.
unfoldable pub check_from : ℕ → List TraceRecord → SequenceCheck
check_from i [] = record { sequence_valid = true; invalid_at_sequence = none }
check_from i (r ∷ rs) =
    let rest = check_from (suc i) rs in
    if eqb r.sequence i
    then rest
    else record { sequence_valid = false; invalid_at_sequence = some r.sequence }

unfoldable pub validate_trace_sequence : List TraceRecord → SequenceCheck
validate_trace_sequence trace = check_from 0 (sort_by_sequence trace)

-- The sequences are i, i + 1, and so on.
abbrev pub Counts : ℕ → List TraceRecord → Type 0
Counts i [] = Unit
Counts i (r ∷ rs) = (r.sequence ≡ i) × Counts (suc i) rs

check_from_lem :
    (i : ℕ) (rs : List TraceRecord) → Counts i rs → (check_from i rs).sequence_valid ≡ true
unfolding check_from
check_from_lem i [] h = refl
check_from_lem i (r ∷ rs) (e, h) = ground (arith, check_from_lem (suc i) rs h)

pub Counts-append :
    (i : ℕ) (rs : List TraceRecord) (r : TraceRecord)
    → Counts i rs
    → r.sequence ≡ i + length rs
    → Counts i (rs ++ r ∷ [])
Counts-append i [] r h e = (omega arith, tt)
Counts-append i (s ∷ rs) r (e0, h) e = (e0, Counts-append (suc i) rs r h (omega arith))

insert-Counts :
    (r : TraceRecord) (rs : List TraceRecord)
    → Counts (suc r.sequence) rs
    → insert_by_sequence r rs ≡ r ∷ rs
unfolding insert_by_sequence
insert-Counts r [] h = refl
insert-Counts r (s ∷ rs) (e, h) = ground arith

-- A trace that counts is in order.
pub sort-Counts : (i : ℕ) (rs : List TraceRecord) → Counts i rs → sort_by_sequence rs ≡ rs
unfolding sort_by_sequence
sort-Counts i [] h = refl
sort-Counts i (r ∷ rs) (e, h) =
    ap (insert_by_sequence r) (sort-Counts (suc i) rs h)
    ∙ insert-Counts r rs (subst (λ n. Counts (suc n) rs) (sym e) h)

pub Counts-valid :
    (rs : List TraceRecord) → Counts 0 rs → (validate_trace_sequence rs).sequence_valid ≡ true
unfolding validate_trace_sequence
Counts-valid rs h =
    ap (λ x. (check_from 0 x).sequence_valid) (sort-Counts 0 rs h) ∙ check_from_lem 0 rs h
