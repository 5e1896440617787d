-- ===== src/Runtime/Departures.antt =====
-- When a loop is closed, and which transition leaves its state (runtime/src/engine.ts), without the
-- code's tests.
use loop_engine.Prelude.{
  ◌≡◌, refl, sym, ap, ◌∙◌, ◌↔◌, ◌⊎◌, inl, inr, Bool, true, false, ◌&&◌, ◌||◌, String, none, some,
  List, [], ◌∷◌, In, find, any, arith, ||-true, true_||, &&-true, true_&&, eq_of_==, ==_refl,
  some-injective, if◌then◌else◌, ◌==◌,
}
use loop_engine.Core.{
  LoopDefinition, LoopInstance, TransitionSpec, StateSpec, completed, LoopStatus, is_completed,
  flag,
}
use loop_engine.Validator.Graph.{IsTerminal}
use loop_engine.Runtime.Transition.{is_terminal_state, leaves}

-- A loop that takes no more transitions.
abbrev pub Closed : LoopDefinition → LoopInstance → Type 0
Closed d i = (i.status ≡ completed) ⊎ IsTerminal d i.current_state

-- `t` has the identifier and leaves the state.
abbrev Departs : (id from : String) → TransitionSpec → Type 0
Departs id from t = (t.id ≡ id) × (t.from ≡ from)

-- `t` is the first of the transitions that does.
abbrev pub IsFirst : (id from : String) → List TransitionSpec → TransitionSpec → Type 0
IsFirst id from [] t = ⊥
IsFirst id from (x ∷ xs) t =
    (Departs id from x × (x ≡ t)) ⊎ ((¬ Departs id from x) × IsFirst id from xs t)

leaves-Departs :
    (id from : String) (t : TransitionSpec) → (leaves id from t ≡ true) ↔ Departs id from t
leaves-Departs id from t = (
  λ h. let (a, b) = &&-true _ _ h in (eq_of_== a, eq_of_== b),
  λ (a, b). rw (a, b) (true_&& (==_refl id) (==_refl from)),
)

pub find-IsFirst :
    (id from : String) (ts : List TransitionSpec) (t : TransitionSpec)
    → find (leaves id from) ts ≡ some t
    → IsFirst id from ts t
unfolding find
find-IsFirst id from [] t h = cc
find-IsFirst id from (x ∷ xs) t h = go (find-IsFirst id from xs t) (leaves id from x) refl h
  where
    go :
        (find (leaves id from) xs ≡ some t → IsFirst id from xs t)
        → (b : Bool) → leaves id from x ≡ b
        → (if b then some x else find (leaves id from) xs) ≡ some t
        → IsFirst id from (x ∷ xs) t
    go later true e h' = inl ((leaves-Departs id from x).0 e, some-injective _ _ h')
    go later false e h' = inr (λ departs. cc (e, (leaves-Departs id from x).1 departs), later h')

pub find-none :
    (id from : String) (ts : List TransitionSpec)
    → find (leaves id from) ts ≡ none
    → (t : TransitionSpec) → ¬ IsFirst id from ts t
unfolding find
find-none id from [] h t first = first
find-none id from (x ∷ xs) h t first =
    go (λ h'. find-none id from xs h' t) (leaves id from x) refl h first
  where
    go :
        (find (leaves id from) xs ≡ none → ¬ IsFirst id from xs t)
        → (b : Bool) → leaves id from x ≡ b
        → (if b then some x else find (leaves id from) xs) ≡ none
        → ¬ IsFirst id from (x ∷ xs) t
    go later true e h' first' = cc
    go later false e h' (inl (here, same)) = cc (e, (leaves-Departs id from x).1 here)
    go later false e h' (inr (there, first')) = later h' first'

pub IsFirst-unique :
    (id from : String) (ts : List TransitionSpec) (t u : TransitionSpec)
    → IsFirst id from ts t
    → IsFirst id from ts u
    → t ≡ u
IsFirst-unique id from [] t u a b = elim a [ ]
IsFirst-unique id from (x ∷ xs) t u (inl (here, e)) (inl (here', e')) = sym e ∙ e'
IsFirst-unique id from (x ∷ xs) t u (inl (here, e)) (inr (there, b)) = absurd (there here)
IsFirst-unique id from (x ∷ xs) t u (inr (there, a)) (inl (here, e)) = absurd (there here)
IsFirst-unique id from (x ∷ xs) t u (inr (there, a)) (inr (there', b)) =
    IsFirst-unique id from xs t u a b

is_completed_iff : (s : LoopStatus) → (is_completed s ≡ true) ↔ (s ≡ completed)
unfolding is_completed
is_completed_iff s = ground arith

is_terminal_state_iff :
    (d : LoopDefinition) (s : String) → (is_terminal_state d s ≡ true) ↔ IsTerminal d s
unfolding is_terminal_state any
is_terminal_state_iff d s = go d.states
  where
    go :
        (xs : List StateSpec)
        → (any (λ x. x.id == s && flag x.is_terminal) xs ≡ true)
          ↔ ((x : StateSpec) × In x xs × (x.id ≡ s) × (flag x.is_terminal ≡ true))
    go [] = (λ h. cc, λ (x, m, e, last). elim m [ ])
    go (y ∷ xs) =
        let rest = go xs in
        (
          λ h. elim (||-true _ _ h) [
            | inl here ↦ let (same, last) = &&-true _ _ here in (y, inl refl, eq_of_== same, last)
            | inr later ↦ let (x, m, e, last) = rest.0 later in (x, inr m, e, last)
          ],
          λ (x, m, e, last). elim m [
            | inl here ↦
                rw
                  (
                    ap (λ (z : StateSpec). z.id) here ∙ e,
                    ==_refl s,
                    ap (λ (z : StateSpec). flag z.is_terminal) here ∙ last,
                  )
                  refl
            | inr m' ↦ true_|| _ (rest.1 (x, m', e, last))
          ],
        )

pub Closed-iff :
    (d : LoopDefinition) (i : LoopInstance)
    → ((is_completed i.status || is_terminal_state d i.current_state) ≡ true) ↔ Closed d i
Closed-iff d i = (
  λ h. elim (||-true _ _ h) [
    | inl done ↦ inl ((is_completed_iff i.status).0 done)
    | inr last ↦ inr ((is_terminal_state_iff d i.current_state).0 last)
  ],
  λ c. elim c [
    | inl done ↦ rw ((is_completed_iff i.status).1 done) refl
    | inr last ↦ true_|| _ ((is_terminal_state_iff d i.current_state).1 last)
  ],
)
