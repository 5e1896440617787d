-- ===== src/Validator/Cycles.antt =====
-- When `checkSignalCycles` reports nothing (loop-definition/src/validator.ts).
use loop_engine.Prelude.{
  append_nil_iff, ℕ, zero, suc, ◌+◌, ◌≡◌, ◌≢◌, refl, subst, ◌↔◌, Bool, true, false, ◌&&◌, not, List,
  [], ◌∷◌, arith, eqb, eq_iff,
}
use loop_engine.Core.{TransitionSpec}
use loop_engine.Validator.{cycles_with, cycles_from, reverses}
use loop_engine.Validator.Checks.{report_iff}

-- The transition at a position.
abbrev pub At : List TransitionSpec → ℕ → TransitionSpec → Type 0
At [] i t = ⊥
At (x ∷ xs) zero t = x ≡ t
At (x ∷ xs) (suc i) t = At xs i t

-- `b` leads back along the signal of `a`.
abbrev pub Reverses : TransitionSpec → TransitionSpec → Type 0
Reverses a b = (b.signal ≡ a.signal) × (b.from ≡ a.to) × (b.to ≡ a.from)

reverses_iff : (a b : TransitionSpec) → (reverses a b ≡ true) ↔ Reverses a b
reverses_iff a b = ground (arith, eq_iff b.signal a.signal, eq_iff b.from a.to, eq_iff b.to a.from)

eqb_iff : (i j : ℕ) → (eqb i j ≡ true) ↔ (i ≡ j)
eqb_iff i j = ground arith

other_iff :
    (i j : ℕ) (a b : TransitionSpec)
    → ((not (eqb i j) && reverses a b) ≡ false) ↔ (i ≢ j → ¬ Reverses a b)
other_iff i j a b =
    let (to_back, of_back) = reverses_iff a b in
    let (to_same, of_same) = eqb_iff i j in
    go (eqb i j) (reverses a b) to_same of_same to_back of_back
  where
    go :
        (same back : Bool)
        → (same ≡ true → i ≡ j)
        → (i ≡ j → same ≡ true)
        → (back ≡ true → Reverses a b)
        → (Reverses a b → back ≡ true)
        → ((not same && back) ≡ false) ↔ (i ≢ j → ¬ Reverses a b)
    go true back to_same of_same to_back of_back = (λ h apart r. apart (to_same refl), λ h. refl)
    go false true to_same of_same to_back of_back =
        (λ h. cc, λ h. absurd (h (λ e. cc (of_same e)) (to_back refl)))
    go false false to_same of_same to_back of_back = (λ h apart r. cc (of_back r), λ h. refl)

cycles_with_iff :
    (a : TransitionSpec) (i j : ℕ) (bs : List TransitionSpec)
    → (cycles_with a i j bs ≡ [])
      ↔ ((k : ℕ) (b : TransitionSpec) → At bs k b → i ≢ k + j → ¬ Reverses a b)
unfolding cycles_with
cycles_with_iff a i j [] = (λ h k b m. elim m [ ], λ h. refl)
cycles_with_iff a i j (b ∷ bs) = (
  λ h.
      let (e, h') = (append_nil_iff _ _).0 h in
      onward ((other_iff i j a b).0 ((report_iff _ _ _).0 e))
        ((cycles_with_iff a i (suc j) bs).0 h'),
  λ h. (append_nil_iff _ _).1 (
    (report_iff _ _ _).1
        ((other_iff i j a b).1 (λ apart. h zero b refl (λ same. apart (omega (arith, same))))),
    (cycles_with_iff a i (suc j) bs).1
        (λ k b' m apart. h (suc k) b' m (λ same. apart (omega (arith, same)))),
  ),
)
  where
    onward :
        (i ≢ j → ¬ Reverses a b)
        → ((k : ℕ) (b' : TransitionSpec) → At bs k b' → i ≢ k + suc j → ¬ Reverses a b')
        → (k : ℕ) (b' : TransitionSpec) → At (b ∷ bs) k b'
        → i ≢ k + j
        → ¬ Reverses a b'
    onward here rest zero b' m apart =
        subst (λ x. ¬ Reverses a x) m (here (λ same. apart (omega (arith, same))))
    onward here rest (suc k) b' m apart = rest k b' m (λ same. apart (omega (arith, same)))

-- No transition has its signal led back by another one.
abbrev pub NoCycle : List TransitionSpec → Type 0
NoCycle ts = (i j : ℕ) (a b : TransitionSpec) → At ts i a → At ts j b → i ≢ j → ¬ Reverses a b

cycles_from_iff :
    (ts : List TransitionSpec) (i : ℕ) (rest : List TransitionSpec)
    → (cycles_from ts i rest ≡ []) ↔ (
        (k : ℕ) (a : TransitionSpec)
        → At rest k a
        → (j : ℕ) (b : TransitionSpec) → At ts j b
        → k + i ≢ j
        → ¬ Reverses a b)
unfolding cycles_from
cycles_from_iff ts i [] = (λ h k a m. elim m [ ], λ h. refl)
cycles_from_iff ts i (a ∷ rest) = (
  λ h.
      let (e, h') = (append_nil_iff _ _).0 h in
      onward ((cycles_with_iff a i 0 ts).0 e) ((cycles_from_iff ts (suc i) rest).0 h'),
  λ h. (append_nil_iff _ _).1 (
    (cycles_with_iff a i 0 ts).1
        (λ k b m apart. h zero a refl k b m (λ same. apart (omega (arith, same)))),
    (cycles_from_iff ts (suc i) rest).1
        (λ k a' m j b m' apart. h (suc k) a' m j b m' (λ same. apart (omega (arith, same)))),
  ),
)
  where
    onward :
        ((k : ℕ) (b : TransitionSpec) → At ts k b → i ≢ k + 0 → ¬ Reverses a b)
        → ((k : ℕ) (a' : TransitionSpec)
            → At rest k a'
            → (j : ℕ) (b : TransitionSpec) → At ts j b
            → k + suc i ≢ j
            → ¬ Reverses a' b)
        → (k : ℕ) (a' : TransitionSpec) → At (a ∷ rest) k a'
        → (j : ℕ) (b : TransitionSpec) → At ts j b
        → k + i ≢ j
        → ¬ Reverses a' b
    onward here later zero a' m j b m' apart =
        subst (λ x. ¬ Reverses x b) m (here j b m' (λ same. apart (omega (arith, same))))
    onward here later (suc k) a' m j b m' apart =
        later k a' m j b m' (λ same. apart (omega (arith, same)))

pub cycles_iff : (ts : List TransitionSpec) → (cycles_from ts 0 ts ≡ []) ↔ NoCycle ts
cycles_iff ts = (
  λ h i j a b m m' apart.
      (cycles_from_iff ts 0 ts).0 h i a m j b m' (λ same. apart (omega (arith, same))),
  λ h.
      (cycles_from_iff ts 0 ts).1
        (λ k a m j b m' apart. h k j a b m m' (λ same. apart (omega (arith, same)))),
)
