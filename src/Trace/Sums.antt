-- ===== src/Trace/Sums.antt =====
-- Sums over the records of a trace.
use loop_engine.Prelude.{ℕ, ◌+◌, ◌≡◌, refl, List, [], ◌∷◌, ◌++◌, length, arith}
use loop_engine.Trace.{TraceRecord, insert_by_sequence, sort_by_sequence}

unfoldable pub total : (TraceRecord → ℕ) → List TraceRecord → ℕ
total f [] = 0
total f (r ∷ rs) = f r + total f rs

pub total-length : (rs : List TraceRecord) → total (λ r. 1) rs ≡ length rs
unfolding total
total-length [] = refl
total-length (r ∷ rs) = omega (arith, total-length rs)

pub total-same :
    (f g : TraceRecord → ℕ)
    → ((r : TraceRecord) → f r ≡ g r)
    → (rs : List TraceRecord) → total f rs ≡ total g rs
unfolding total
total-same f g same [] = refl
total-same f g same (r ∷ rs) = omega (arith, same r, total-same f g same rs)

module _ (f : TraceRecord → ℕ) where
  pub total-append : (rs ss : List TraceRecord) → total f (rs ++ ss) ≡ total f rs + total f ss
  unfolding total
  total-append [] ss = omega arith
  total-append (r ∷ rs) ss = omega (arith, total-append rs ss)

  total-insert :
      (r : TraceRecord) (rs : List TraceRecord)
      → total f (insert_by_sequence r rs) ≡ f r + total f rs
  unfolding insert_by_sequence total
  total-insert r [] = refl
  total-insert r (s ∷ rs) = ground (arith, total-insert r rs)

  pub total-sort : (rs : List TraceRecord) → total f (sort_by_sequence rs) ≡ total f rs
  unfolding sort_by_sequence total
  total-sort [] = refl
  total-sort (r ∷ rs) = omega (arith, total-insert r (sort_by_sequence rs), total-sort rs)

pub length-sort : (rs : List TraceRecord) → length (sort_by_sequence rs) ≡ length rs
length-sort rs =
    omega (arith, total-length (sort_by_sequence rs), total-sort (λ r. 1) rs, total-length rs)
