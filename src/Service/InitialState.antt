-- ===== src/Service/InitialState.antt =====
-- `parseInitialState` and `initialStateFromXStateLike` (packages/runtime-core/src/loop-execution.ts).
use loop_engine.Prelude.{
  ◌≡◌, refl, subst, ◌⊎◌, inl, inr, In, contains_iff, some-injective, Bool, true, false, ◌&&◌, not,
  String, Option, none, some, List, [], ◌∷◌, contains, if◌then◌else◌, ◌==◌,
}
use loop_engine.Core.{Platform, Value, str, array, object, cons, Attributes, fields, read, or_else}

module _ (p : Platform) where
  -- `typeof v === "string" && v.trim().length > 0`, and the trimmed text.
  unfoldable pub trimmed : Value → Option String
  trimmed (str s) = if p.trim s == "" then none else some (p.trim s)
  trimmed _ = none

  -- The inner loop over the values of `on`. A set of texts is a list.
  unfoldable pub add_targets : Attributes → List String → List String
  add_targets [] targets = targets
  add_targets ((k, v) ∷ on) targets = elim (trimmed v) [
    | none ↦ add_targets on targets
    | some to ↦ add_targets on (to ∷ targets)
  ]

  unfoldable pub spec_targets : Value → List String → List String
  spec_targets (object spec) targets = elim (read "on" (fields spec)) [
    | object on ↦ add_targets (fields on) targets
    | _ ↦ targets
  ]
  spec_targets _ targets = targets

  -- The outer loop over the states.
  unfoldable pub all_targets : Attributes → List String → List String
  all_targets [] targets = targets
  all_targets ((k, spec) ∷ states) targets = all_targets states (spec_targets spec targets)

  unfoldable pub keys_of : Attributes → List String
  keys_of [] = []
  keys_of ((k, v) ∷ m) = k ∷ keys_of m

  -- The last loop: the first state that is no target.
  unfoldable pub first_source : List String → (targets : List String) → Option String
  first_source [] targets = none
  first_source (k ∷ ks) targets =
      let rest = first_source ks targets in if contains k targets then rest else some k

  abbrev first_key : List String → Option String
  first_key [] = none
  first_key (k ∷ ks) = some k

  unfoldable pub initial_state_from_xstate_like : Attributes → Option String
  initial_state_from_xstate_like states =
      let targets = all_targets states [] in
      if contains "idle" (keys_of states) && not (contains "idle" targets)
      then some "idle"
      else elim (first_source (keys_of states) targets) [
        | none ↦ first_key (keys_of states)
        | some k ↦ some k
      ]

  -- The first element of an array of states.
  unfoldable pub first_state : Value → Option String
  first_state (str s) = trimmed (str s)
  first_state (object row) =
      trimmed (or_else (read "stateId" (fields row)) (read "id" (fields row)))
  first_state _ = none

  unfoldable pub state_of_states : Value → Option String
  state_of_states (array (cons first rest)) = first_state first
  state_of_states (object states) = initial_state_from_xstate_like (fields states)
  state_of_states _ = none

  unfoldable pub parse_initial_state : Value → Option String
  parse_initial_state (object definition) =
      elim (trimmed (read "initialState" (fields definition))) [
        | some s ↦ some s
        | none ↦ state_of_states (read "states" (fields definition))
      ]
  parse_initial_state _ = none

-- The first text of a list that is not among the targets, if there is one.
abbrev Found : List String → (targets : List String) → Option String → Type 0
Found ks targets none = (k : String) → In k ks → In k targets
Found ks targets (some k) = In k ks × (¬ In k targets)

first_source-Found :
    (p : Platform) (ks targets : List String) → Found ks targets (first_source p ks targets)
unfolding first_source
first_source-Found p [] targets = λ k h. elim h [ ]
first_source-Found p (k ∷ ks) targets =
    go (contains k targets) refl (first_source p ks targets) (first_source-Found p ks targets)
  where
    later : (o : Option String) → In k targets → Found ks targets o → Found (k ∷ ks) targets o
    later none member h =
        λ j m. elim m [ inl same ↦ subst (λ x. In x targets) same member | inr there ↦ h j there ]
    later (some j) member (there, free) = (inr there, free)

    go :
        (b : Bool)
        → contains k targets ≡ b
        → (o : Option String) → Found ks targets o
        → Found (k ∷ ks) targets (if b then o else some k)
    go true e o h = later o ((contains_iff k targets).0 e) h
    go false e o h = (inl refl, λ m. cc ((contains_iff k targets).1 m))

-- The initial state that is read off a map of states is one of its keys, and a key that is the target
-- of no transition of the map, unless every key is the target of one.
pub initial_state_from_xstate_like_lem :
    (p : Platform) (states : Attributes) (initial : String)
    → initial_state_from_xstate_like p states ≡ some initial
    → In initial (keys_of p states)
      × ((¬ In initial (all_targets p states []))
          ⊎ ((k : String) → In k (keys_of p states) → In k (all_targets p states [])))
unfolding initial_state_from_xstate_like
initial_state_from_xstate_like_lem p states initial h =
    idle_first (contains "idle" keys) refl (contains "idle" targets) refl h
  where
    keys : List String
    keys = keys_of p states

    targets : List String
    targets = all_targets p states []

    Good : String → Type 0
    Good s = In s keys × ((¬ In s targets) ⊎ ((k : String) → In k keys → In k targets))

    from_source :
        (o : Option String)
        → Found keys targets o
        → (ks : List String) → ks ≡ keys
        → (elim o [ none ↦ first_key p ks | some k ↦ some k ]) ≡ some initial
        → Good initial
    from_source none all [] e bad = cc bad
    from_source none all (k ∷ ks) e same =
        (subst (In initial) e (inl (some-injective _ _ same)), inr all)
    from_source (some k) (member, free) ks e same =
        let named = some-injective _ _ same in
        (subst (λ x. In x keys) named member, inl (subst (λ x. ¬ In x targets) named free))

    idle_first :
        (b : Bool)
        → contains "idle" keys ≡ b
        → (c : Bool) → contains "idle" targets ≡ c
        → (if b && not c
            then some "idle"
            else elim (first_source p keys targets) [ none ↦ first_key p keys | some k ↦ some k ])
          ≡ some initial
        → Good initial
    idle_first true e false f g =
        let named = some-injective _ _ g in
        (
          subst (λ x. In x keys) named ((contains_iff "idle" keys).0 e),
          inl (subst (λ x. ¬ In x targets) named (λ m. cc ((contains_iff "idle" targets).1 m))),
        )
    idle_first true e true f g =
        from_source (first_source p keys targets) (first_source-Found p keys targets) keys refl g
    idle_first false e c f g =
        from_source (first_source p keys targets) (first_source-Found p keys targets) keys refl g
