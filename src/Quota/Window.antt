-- ===== src/Quota/Window.antt =====
-- Lemmas on the hits in a window (entitlements-iface/src/quota.ts).
use loop_engine.Prelude.{
  ℕ, ◌≤◌, ◌≡◌, refl, inl, inr, Bool, List, [], ◌∷◌, ◌++◌, filter, length, arith, Bool-cases,
}
use loop_engine.Quota.{is_recent}

pub filter-append :
    (p : ℕ → Bool) (xs ys : List ℕ) → filter p (xs ++ ys) ≡ filter p xs ++ filter p ys
unfolding filter
filter-append p [] ys = refl
filter-append p (x ∷ xs) ys = elim (Bool-cases (p x)) [
  | inl keep ↦ rw (keep, filter-append p xs ys) refl
  | inr drop ↦ rw (drop, filter-append p xs ys) refl
]

pub length-filter : (p : ℕ → Bool) (xs : List ℕ) → length (filter p xs) ≤ length xs
unfolding filter
length-filter p [] = omega arith
length-filter p (x ∷ xs) = ground (arith, length-filter p xs)

-- A later filter makes an earlier one superfluous.
pub filter-filter :
    (now later : ℕ) (xs : List ℕ)
    → now ≤ later
    → filter (is_recent later) (filter (is_recent now) xs) ≡ filter (is_recent later) xs
unfolding filter
filter-filter now later [] h = refl
filter-filter now later (x ∷ xs) h = ground (arith, filter-filter now later xs h)
