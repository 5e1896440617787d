-- ===== src/Validator/Graph.antt =====
-- What `hasPathToTerminal` means for a definition.
use loop_engine.Prelude.{
  ◌≡◌, refl, sym, ap, subst, ◌∙◌, ◌↔◌, ◌⊎◌, inl, inr, Bool, true, false, String, some, List, [],
  ◌∷◌, ◌++◌, In, contains, contains_iff, Bool-cases, Dict, get, put, get-put, if◌then◌else◌, ◌==◌,
  eq_iff, eq_of_==,
}
use loop_engine.Core.{LoopDefinition, TransitionSpec, StateSpec, flag}
use loop_engine.Validator.{
  add, terminal_states, next_in, neighbours, graph_from, sources, has_path_to_terminal,
}
use loop_engine.Validator.Search.{In-append, Reaches, stop, step}
use loop_engine.Validator.Decides.{search_iff}

-- A transition from `x` to `y`.
abbrev pub Edge : List TransitionSpec → String → String → Type 0
Edge ts x y = (t : TransitionSpec) × In t ts × (t.from ≡ x) × (t.to ≡ y)

-- A path of transitions of the definition.
pub data PathIn (d : LoopDefinition) (x : String) : String → Type 0 where
  origin : PathIn d x x
  onward : {y z : String} → PathIn d x y → Edge d.transitions y z → PathIn d x z

-- A terminal state of the definition.
abbrev pub IsTerminal : LoopDefinition → String → Type 0
IsTerminal d s = (x : StateSpec) × In x d.states × (x.id ≡ s) × (flag x.is_terminal ≡ true)

pub terminal_states_iff :
    (ss : List StateSpec) (s : String)
    → In s (terminal_states ss)
      ↔ ((x : StateSpec) × In x ss × (x.id ≡ s) × (flag x.is_terminal ≡ true))
unfolding terminal_states
terminal_states_iff [] s = (λ m. elim m [ ], λ (x, m, e, e'). elim m [ ])
terminal_states_iff (x ∷ ss) s = go (terminal_states_iff ss s) (flag x.is_terminal) refl
  where
    go :
        In s (terminal_states ss)
          ↔ ((x' : StateSpec) × In x' ss × (x'.id ≡ s) × (flag x'.is_terminal ≡ true))
        → (b : Bool) → flag x.is_terminal ≡ b
        → In s (if b then x.id ∷ terminal_states ss else terminal_states ss)
          ↔ ((x' : StateSpec) × In x' (x ∷ ss) × (x'.id ≡ s) × (flag x'.is_terminal ≡ true))
    go ih true e = (
      λ m. elim m [
        | inl same ↦ (x, inl refl, same, e)
        | inr m' ↦ let (x', listed, named, last) = ih.0 m' in (x', inr listed, named, last)
      ],
      λ (x', listed, named, last). elim listed [
        | inl same ↦ inl (ap (λ (y : StateSpec). y.id) same ∙ named)
        | inr m ↦ inr (ih.1 (x', m, named, last))
      ],
    )
    go ih false e = (
      λ m. let (x', listed, named, last) = ih.0 m in (x', inr listed, named, last),
      λ (x', listed, named, last). elim listed [
        | inl same ↦ cc (ap (λ (y : StateSpec). flag y.is_terminal) same)
        | inr m ↦ ih.1 (x', m, named, last)
      ],
    )

pub In-add : (y k : String) (ks : List String) → In y (add k ks) ↔ (In y ks ⊎ (k ≡ y))
unfolding add
In-add y k ks = go (contains k ks) refl
  where
    go :
        (b : Bool) → contains k ks ≡ b → In y (if b then ks else ks ++ k ∷ []) ↔ (In y ks ⊎ (k ≡ y))
    go true e = (
      inl,
      λ h. elim h [ inl m ↦ m | inr same ↦ subst (λ z. In z ks) same ((contains_iff k ks).0 e) ],
    )
    go false e = (
      λ m. elim ((In-append y ks (k ∷ [])).0 m) [
        | inl m' ↦ inl m'
        | inr (inl same) ↦ inr same
        | inr (inr e') ↦ elim e' [ ]
      ],
      λ h. elim h [
        | inl m ↦ (In-append y ks (k ∷ [])).1 (inl m)
        | inr same ↦ (In-append y ks (k ∷ [])).1 (inr (inl same))
      ],
    )

-- The neighbours after one edge was entered.
next_in-put :
    (graph : Dict (List String)) (x k : String) (c y : String)
    → In y (next_in (put x (add k (next_in graph x)) graph) c)
      ↔ (In y (next_in graph c) ⊎ ((x ≡ c) × (k ≡ y)))
next_in-put graph x k c y = go (Bool-cases (x == c))
  where
    read_back :
        get c (put x (add k (next_in graph x)) graph)
        ≡ (if x == c then some (add k (next_in graph x)) else get c graph)
    read_back = get-put x c (add k (next_in graph x)) graph

    go :
        ((x == c) ≡ true) ⊎ ((x == c) ≡ false)
        → In y (next_in (put x (add k (next_in graph x)) graph) c)
          ↔ (In y (next_in graph c) ⊎ ((x ≡ c) × (k ≡ y)))
    go (inl here) =
        let same : x ≡ c = eq_of_== here in
        let now : next_in (put x (add k (next_in graph x)) graph) c ≡ add k (next_in graph x) =
          ap neighbours read_back ∙ rw here refl in
        (
          λ m. elim ((In-add y k (next_in graph x)).0 (subst (In y) now m)) [
            | inl m' ↦ inl (subst (λ z. In y (next_in graph z)) same m')
            | inr e ↦ inr (same, e)
          ],
          λ h. subst (In y) (sym now) (
              (In-add y k (next_in graph x)).1 (elim h [
                | inl m ↦ inl (subst (λ z. In y (next_in graph z)) (sym same) m)
                | inr (e, e') ↦ inr e'
              ])),
        )
    go (inr there) =
        let now : next_in (put x (add k (next_in graph x)) graph) c ≡ next_in graph c =
          ap neighbours read_back ∙ rw there refl in
        (
          λ m. inl (subst (In y) now m),
          λ h. elim h [
            | inl m ↦ subst (In y) (sym now) m
            | inr (e, e') ↦ cc ((eq_iff x c).1 e, there)
          ],
        )

graph_from_iff :
    (graph : Dict (List String)) (ts : List TransitionSpec) (c y : String)
    → In y (next_in (graph_from graph ts) c) ↔ (In y (next_in graph c) ⊎ Edge ts c y)
unfolding graph_from
graph_from_iff graph [] c y = (inl, λ h. elim h [ inl m ↦ m | inr (t, m, e, e') ↦ elim m [ ] ])
graph_from_iff graph (t ∷ ts) c y =
    let entered = next_in-put graph t.from t.to c y in
    let rest = graph_from_iff (put t.from (add t.to (next_in graph t.from)) graph) ts c y in
    (
      λ m. elim (rest.0 m) [
        | inl m' ↦ elim (entered.0 m') [
          | inl old ↦ inl old
          | inr (e, e') ↦ inr (t, inl refl, e, e')
        ]
        | inr (t', m', e, e') ↦ inr (t', inr m', e, e')
      ],
      λ h. elim h [
        | inl old ↦ rest.1 (inl (entered.1 (inl old)))
        | inr (t', inl same, e, e') ↦ rest.1 (
            inl (
              entered.1 (
                inr (
                  ap (λ (z : TransitionSpec). z.from) same ∙ e,
                  ap (λ (z : TransitionSpec). z.to) same ∙ e',
                ))))
        | inr (t', inr m, e, e') ↦ rest.1 (inr (t', m, e, e'))
      ],
    )

-- Every state with a neighbour is the source of a transition.
sources-cover :
    (ts : List TransitionSpec) (c : String)
    → In c (sources ts) ⊎ (next_in (graph_from [] ts) c ≡ [])
unfolding get
sources-cover ts c = go (next_in (graph_from [] ts) c) refl
  where
    source : (us : List TransitionSpec) {y : String} → Edge us c y → In c (sources us)
    source [] (t, m, e, e') = elim m [ ]
    source (u ∷ us) (t, inl same, e, e') = inl (ap (λ (z : TransitionSpec). z.from) same ∙ e)
    source (u ∷ us) (t, inr m, e, e') = inr (source us (t, m, e, e'))

    go :
        (ys : List String)
        → next_in (graph_from [] ts) c ≡ ys
        → In c (sources ts) ⊎ (next_in (graph_from [] ts) c ≡ [])
    go [] e = inr e
    go (y ∷ ys) e = elim ((graph_from_iff [] ts c y).0 (subst (In y) (sym e) (inl refl))) [
      | inl m ↦ elim m [ ]
      | inr edge ↦ inl (source ts edge)
    ]

module _ (d : LoopDefinition) where
  neighbours_iff :
      (x y : String) → In y (next_in (graph_from [] d.transitions) x) ↔ Edge d.transitions x y
  unfolding get
  neighbours_iff x y = (
    λ m. elim ((graph_from_iff [] d.transitions x y).0 m) [ inl e ↦ elim e [ ] | inr e ↦ e ],
    λ e. (graph_from_iff [] d.transitions x y).1 (inr e),
  )

  as_path : {x y : String} → Reaches (next_in (graph_from [] d.transitions)) x y → PathIn d x y
  as_path stop = origin
  as_path (step r m) = onward (as_path r) ((neighbours_iff _ _).0 m)

  as_search : {x y : String} → PathIn d x y → Reaches (next_in (graph_from [] d.transitions)) x y
  as_search origin = stop
  as_search (onward r e) = step (as_search r) ((neighbours_iff _ _).1 e)

  -- The search of the validator, with the fuel that it is given, succeeds exactly where a path of
  -- transitions leads from the initial state to a terminal state.
  pub has_path_to_terminal_iff :
      (has_path_to_terminal d (terminal_states d.states) ≡ true)
      ↔ ((s : String) × PathIn d d.initial_state s × IsTerminal d s)
  unfolding has_path_to_terminal
  has_path_to_terminal_iff =
      let found =
        search_iff (next_in (graph_from [] d.transitions)) (terminal_states d.states)
          (sources d.transitions) d.initial_state (sources-cover d.transitions) in
      (
        λ h. let (s, r, m) = found.0 h in (s, as_path r, (terminal_states_iff d.states s).0 m),
        λ (s, r, m). found.1 (s, as_search r, (terminal_states_iff d.states s).1 m),
      )
