-- ===== src/Validator/Decides.antt =====
-- The loop of `hasPathToTerminal` decides whether a terminal state can be reached.
use loop_engine.Prelude.{
  ℕ, zero, suc, ◌+◌, ◌≤◌, ◌<◌, ◌≡◌, refl, sym, ap, subst, ◌↔◌, ◌⊎◌, inl, inr, Bool, true, false,
  not, String, List, [], ◌∷◌, ◌++◌, arith, In, filter, contains, contains_iff, length,
  length-append, Bool-cases, if◌then◌else◌,
}
use loop_engine.Validator.{search, weight}
use loop_engine.Validator.Search.{
  In-append, In-filter, length-filter, Reaches, stop, step, weight_less, weight_drop, search_sound,
}

module _ (next : String → List String) (terminals : List String) where
  -- No visited state is terminal, and each neighbour of one is visited or waits in the queue.
  abbrev Closed : List String → List String → Type 0
  Closed visited queue =
      (v : String)
      → In v visited
      → (¬ In v terminals) × ((y : String) → In y (next v) → In y visited ⊎ In y queue)

  -- A closed set that holds the visited and the waiting states.
  abbrev Explored : List String → List String → Type 0
  Explored visited queue =
      (all_visited : List String) × Closed all_visited []
      × ((v : String) → In v visited → In v all_visited)
      × ((v : String) → In v queue → In v all_visited)

  Closed-Reaches :
      (visited : List String) {s t : String}
      → Closed visited []
      → In s visited
      → Reaches next s t
      → In t visited
  Closed-Reaches visited closed m stop = m
  Closed-Reaches visited closed m (step r m') =
      elim ((closed _ (Closed-Reaches visited closed m r)).1 _ m') [
        | inl seen ↦ seen
        | inr e ↦ elim e [ ]
      ]

  visited_again :
      (c : String) (visited queue : List String)
      → In c visited
      → Closed visited (c ∷ queue)
      → Closed visited queue
  visited_again c visited queue seen closed v m =
      let (open_state, onward) = closed v m in
      (
        open_state,
        λ y m'. elim (onward y m') [
          | inl w ↦ inl w
          | inr (inl same) ↦ inl (subst (λ z. In z visited) same seen)
          | inr (inr q) ↦ inr q
        ],
      )

  visited_now :
      (c : String) (visited queue : List String)
      → ¬ In c terminals
      → Closed visited (c ∷ queue)
      → Closed (c ∷ visited) (queue ++ filter (λ k. not (contains k (c ∷ visited))) (next c))
  visited_now c visited queue open_state closed v (inl same) = (
    subst (λ z. ¬ In z terminals) same open_state,
    λ y m.
        pushed y (subst (λ z. In y (next z)) (sym same) m) (Bool-cases (contains y (c ∷ visited))),
  )
    where
      pushed :
          (y : String)
          → In y (next c)
          → (contains y (c ∷ visited) ≡ true) ⊎ (contains y (c ∷ visited) ≡ false)
          → In y (c ∷ visited)
            ⊎ In y (queue ++ filter (λ k. not (contains k (c ∷ visited))) (next c))
      pushed y m (inl seen) = inl ((contains_iff y (c ∷ visited)).0 seen)
      pushed y m (inr unseen) =
          inr ((In-append y queue _).1 (inr ((In-filter _ y (next c)).1 (m, ap not unseen))))
  visited_now c visited queue open_state closed v (inr m) =
      let (open_v, onward) = closed v m in
      (
        open_v,
        λ y m'. elim (onward y m') [
          | inl w ↦ inl (inr w)
          | inr (inl same) ↦ inl (inl same)
          | inr (inr q) ↦ inr ((In-append y queue _).1 (inl q))
        ],
      )

  -- The states that have neighbours are listed.
  abbrev Covers : List String → Type 0
  Covers ks = (c : String) → In c ks ⊎ (next c ≡ [])

  pushed_weight :
      (ks : List String) (c : String) (visited queue : List String)
      → Covers ks
      → contains c visited ≡ false
      → length (queue ++ filter (λ k. not (contains k (c ∷ visited))) (next c))
          + weight next (c ∷ visited) ks
        ≤ length queue + weight next visited ks
  pushed_weight ks c visited queue covers unseen = elim (covers c) [
    | inl m ↦ omega (arith, short, sum, weight_drop next c visited ks unseen m)
    | inr none_left ↦
        let nothing : length (next c) ≡ 0 = ap (λ xs. length xs) none_left in
        omega (arith, short, sum, nothing, weight_less next c visited ks)
  ]
    where
      short : length (filter (λ k. not (contains k (c ∷ visited))) (next c)) ≤ length (next c)
      short = length-filter _ (next c)

      sum :
          length (queue ++ filter (λ k. not (contains k (c ∷ visited))) (next c))
          ≡ length queue + length (filter (λ k. not (contains k (c ∷ visited))) (next c))
      sum = length-append queue _

  search_complete :
      (ks : List String) (fuel : ℕ) (visited queue : List String)
      → Covers ks
      → length queue + weight next visited ks < fuel
      → Closed visited queue
      → search fuel next terminals visited queue ≡ false
      → Explored visited queue
  unfolding search
  search_complete ks zero visited queue covers enough closed h = absurd (omega (arith, enough))
  search_complete ks (suc n) visited [] covers enough closed h =
      (visited, closed, λ v m. m, λ v m. elim m [ ])
  search_complete ks (suc n) visited (c ∷ queue) covers enough closed h0 =
      go (search_complete ks n visited queue covers) (search_complete ks n (c ∷ visited) _ covers)
        (contains c terminals) (contains c visited) refl refl h0
    where
      onward : List String
      onward = queue ++ filter (λ k. not (contains k (c ∷ visited))) (next c)

      go :
          (length queue + weight next visited ks < n
            → Closed visited queue
            → search n next terminals visited queue ≡ false
            → Explored visited queue)
          → (length onward + weight next (c ∷ visited) ks < n
              → Closed (c ∷ visited) onward
              → search n next terminals (c ∷ visited) onward ≡ false
              → Explored (c ∷ visited) onward)
          → (last seen : Bool) → contains c terminals ≡ last
          → contains c visited ≡ seen
          → (if last
              then true
              else if seen
              then search n next terminals visited queue
              else search n next terminals (c ∷ visited) onward)
            ≡ false
          → Explored visited (c ∷ queue)
      go skipped deeper true seen e1 e2 h = cc
      go skipped deeper false true e1 e2 h =
          let here : In c visited = (contains_iff c visited).0 e2 in
          let (vs, done, keep, rest) =
            skipped (omega (arith, enough)) (visited_again c visited queue here closed) h in
          (
            vs,
            done,
            keep,
            λ v m. elim m [ inl same ↦ subst (λ z. In z vs) same (keep c here) | inr q ↦ rest v q ],
          )
      go skipped deeper false false e1 e2 h =
          let open_state : ¬ In c terminals = λ m. cc ((contains_iff c terminals).1 m, e1) in
          let (vs, done, keep, rest) =
            deeper (omega (arith, enough, pushed_weight ks c visited queue covers e2))
              (visited_now c visited queue open_state closed) h in
          (
            vs,
            done,
            λ v m. keep v (inr m),
            λ v m. elim m [
              | inl same ↦ keep v (inl same)
              | inr q ↦ rest v ((In-append v queue _).1 (inl q))
            ],
          )

  -- With fuel above the number of pushes, the search from a state succeeds exactly where a terminal
  -- state can be reached.
  pub search_iff :
      (ks : List String) (s : String)
      → ((c : String) → In c ks ⊎ (next c ≡ []))
      → (search (2 + weight next [] ks) next terminals [] (s ∷ []) ≡ true)
        ↔ ((t : String) × Reaches next s t × In t terminals)
  search_iff ks s covers = (
    λ h.
        let (s', m, found) = search_sound next terminals _ [] (s ∷ []) h in
        elim m [
          | inl same ↦
              subst (λ z. (t : String) × Reaches next z t × In t terminals) (sym same) found
          | inr e ↦ elim e [ ]
        ],
    λ (t, r, last). elim (Bool-cases (search (2 + weight next [] ks) next terminals [] (s ∷ []))) [
      | inl h ↦ h
      | inr h ↦
          let (vs, closed, keep, rest) =
            search_complete ks _ [] (s ∷ []) covers (omega arith) (λ v m. elim m [ ]) h in
          absurd ((closed t (Closed-Reaches vs closed (rest s (inl refl)) r)).0 last)
    ],
  )
