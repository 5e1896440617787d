-- ===== src/Observability/Replay.antt =====
-- The history that the engine records replays without errors to the state of the instance.
use loop_engine.Prelude.{
  ◌≡◌, refl, sym, ap, subst, ◌↔◌, inl, inr, Bool, true, String, Option, none, some, List, [], ◌∷◌,
  ◌++◌, In, find, find-some, Bool-cases, is_empty,
}
use loop_engine.Core.{LoopDefinition, TransitionSpec, TransitionRecord}
use loop_engine.Observability.{ReplayError, explains, replay_error, replay_from, replay_loop}

-- A transition of the list that passes the test is found, or one before it.
find-In :
    (test : TransitionSpec → Bool) (t : TransitionSpec) (ts : List TransitionSpec)
    → In t ts
    → test t ≡ true
    → (t' : TransitionSpec) × (find test ts ≡ some t')
unfolding find
find-In test t [] m h = elim m [ ]
find-In test t (x ∷ ts) (inl e) h = (x, rw (subst (λ y. test y ≡ true) (sym e) h) refl)
find-In test t (x ∷ ts) (inr m) h = elim (Bool-cases (test x)) [
  | inl here ↦ (x, rw here refl)
  | inr on ↦ let (t', e) = find-In test t ts m h in (t', rw on e)
]

-- A history that walks along transitions of the definition from `state` to `final`.
abbrev pub Walk : LoopDefinition → String → List TransitionRecord → String → Type 0
Walk d state [] final = state ≡ final
Walk d state (r ∷ rs) final =
    ((t : TransitionSpec) × In t d.transitions × (explains state r t ≡ true))
    × Walk d r.to_state rs final

pub Walk-append :
    (d : LoopDefinition) (state final : String) (history : List TransitionRecord)
    (r : TransitionRecord) (t : TransitionSpec)
    → Walk d state history final
    → In t d.transitions
    → explains final r t ≡ true
    → Walk d state (history ++ r ∷ []) r.to_state
Walk-append d state final [] r t h m e =
    ((t, m, subst (λ s. explains s r t ≡ true) (sym h) e), refl)
Walk-append d state final (x ∷ history) r t (step, h) m e =
    (step, Walk-append d x.to_state final history r t h m e)

replay_complete :
    (d : LoopDefinition) (state final : String) (history : List TransitionRecord)
    → Walk d state history final
    → replay_from d state history ≡ (final, [])
unfolding replay_from
replay_complete d state final [] h = ap (λ s. (s, [])) h
replay_complete d state final (r ∷ rs) ((t, m, e), h) =
    let (t', found) = find-In (explains state r) t d.transitions m e in
    rw (found, replay_from) (replay_complete d r.to_state final rs h)

replay_sound :
    (d : LoopDefinition) (state : String) (history : List TransitionRecord)
    → (replay_from d state history).1 ≡ []
    → Walk d state history (replay_from d state history).0
unfolding replay_from
replay_sound d state [] h = refl
replay_sound d state (r ∷ rs) h0 =
    go (replay_sound d r.to_state rs) (find (explains state r) d.transitions) refl h0
  where
    result : Option TransitionSpec → String × List ReplayError
    result found = elim found [
      | none ↦ ((replay_from d state rs).0, replay_error state r ∷ (replay_from d state rs).1)
      | some t ↦ replay_from d r.to_state rs
    ]

    go :
        ((replay_from d r.to_state rs).1 ≡ []
          → Walk d r.to_state rs (replay_from d r.to_state rs).0)
        → (found : Option TransitionSpec) → find (explains state r) d.transitions ≡ found
        → (result found).1 ≡ []
        → Walk d state (r ∷ rs) (result found).0
    go ih none e h = cc
    go ih (some t) e h =
        let (m, fits) = find-some (explains state r) d.transitions e in ((t, m, fits), ih h)

-- Replay reports no error exactly for the histories that walk along transitions of the definition
-- from its initial state, and then its state is the end of the walk.
pub replay_loop_iff :
    (d : LoopDefinition) (history : List TransitionRecord)
    → ((replay_loop d history).0 ≡ true) ↔ ((final : String) × Walk d d.initial_state history final)
unfolding replay_loop
replay_loop_iff d history = (
  λ valid. (
    (replay_from d d.initial_state history).0,
    replay_sound d d.initial_state history (nothing _ valid),
  ),
  λ (final, walk). ap (λ x. is_empty x.1) (replay_complete d d.initial_state final history walk),
)
  where
    nothing : (errors : List ReplayError) → is_empty errors ≡ true → errors ≡ []
    nothing [] h = refl
    nothing (e ∷ errors) h = cc
