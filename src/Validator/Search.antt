-- ===== src/Validator/Search.antt =====
-- The loop of `hasPathToTerminal`: what it pushes, and that what it finds can be reached.
use loop_engine.Prelude.{
  ℕ, zero, suc, ◌+◌, ◌≤◌, ◌≡◌, refl, sym, ap, subst, ◌↔◌, ◌⊎◌, inl, inr, Bool, true, false, not,
  String, List, [], ◌∷◌, ◌++◌, arith, In, filter, contains, contains_iff, length, if◌then◌else◌,
  ◌==◌, eq_iff,
}
use loop_engine.Validator.{search, weight}

pub In-append : (k : String) (xs ys : List String) → In k (xs ++ ys) ↔ (In k xs ⊎ In k ys)
In-append k [] ys = (inr, λ h. elim h [ inl m ↦ elim m [ ] | inr m ↦ m ])
In-append k (x ∷ xs) ys = ground (arith, In-append k xs ys)

pub In-filter :
    (p : String → Bool) (k : String) (xs : List String)
    → In k (filter p xs) ↔ (In k xs × (p k ≡ true))
unfolding filter
In-filter p k [] = (λ h. elim h [ ], λ (h, e). elim h [ ])
In-filter p k (x ∷ xs) = go (In-filter p k xs) (p x) refl
  where
    go :
        In k (filter p xs) ↔ (In k xs × (p k ≡ true))
        → (b : Bool) → p x ≡ b
        → In k (if b then x ∷ filter p xs else filter p xs) ↔ (In k (x ∷ xs) × (p k ≡ true))
    go ih true e = (
      λ h. elim h [
        | inl same ↦ (inl same, subst (λ y. p y ≡ true) same e)
        | inr m ↦ let (m', pk) = ih.0 m in (inr m', pk)
      ],
      λ (h, pk). elim h [ inl same ↦ inl same | inr m ↦ inr (ih.1 (m, pk)) ],
    )
    go ih false e = (
      λ h. let (m, pk) = ih.0 h in (inr m, pk),
      λ (h, pk). elim h [ inl same ↦ cc (subst (λ y. p y ≡ false) same e) | inr m ↦ ih.1 (m, pk) ],
    )

pub length-filter : (p : String → Bool) (xs : List String) → length (filter p xs) ≤ length xs
unfolding filter
length-filter p [] = omega arith
length-filter p (x ∷ xs) = ground (arith, length-filter p xs)

module _ (next : String → List String) where
  -- `s` reaches a state along neighbours.
  pub data Reaches (s : String) : String → Type 0 where
    stop : Reaches s s
    step : {x y : String} → Reaches s x → In y (next x) → Reaches s y

  Reaches-before : {x y t : String} → In y (next x) → Reaches y t → Reaches x t
  Reaches-before m stop = step stop m
  Reaches-before m (step r m') = step (Reaches-before m r) m'

  pub weight_less :
      (c : String) (visited ks : List String)
      → weight next (c ∷ visited) ks ≤ weight next visited ks
  unfolding weight contains
  weight_less c visited [] = omega arith
  weight_less c visited (k ∷ ks) = ground (arith, weight_less c visited ks)

  pub weight_drop :
      (c : String) (visited ks : List String)
      → contains c visited ≡ false
      → In c ks
      → weight next (c ∷ visited) ks + length (next c) ≤ weight next visited ks
  unfolding weight contains
  weight_drop c visited [] h m = elim m [ ]
  weight_drop c visited (k ∷ ks) h (inl same) =
      let tested : (c == k) ≡ true = (eq_iff c k).1 (sym same) in
      let unseen : contains k visited ≡ false =
        subst (λ z. contains z visited ≡ false) (sym same) h in
      let same_length : length (next k) ≡ length (next c) = ap (λ z. length (next z)) same in
      ground (arith, weight_less c visited ks, tested, unseen, same_length)
  weight_drop c visited (k ∷ ks) h (inr m) = ground (arith, weight_drop c visited ks h m)

  module _ (terminals : List String) where
    -- A terminal state that one of the states reaches.
    abbrev pub Finds : List String → Type 0
    Finds queue = (s : String) × In s queue × ((t : String) × Reaches s t × In t terminals)

    pub search_sound :
        (fuel : ℕ) (visited queue : List String)
        → search fuel next terminals visited queue ≡ true
        → Finds queue
    unfolding search
    search_sound zero visited queue h = cc
    search_sound (suc n) visited [] h = cc
    search_sound (suc n) visited (c ∷ queue) h0 =
        go (search_sound n visited queue) (search_sound n (c ∷ visited) _) (contains c terminals)
          (contains c visited) refl h0
      where
        fresh : String → Bool
        fresh k = not (contains k (c ∷ visited))

        go :
            (search n next terminals visited queue ≡ true → Finds queue)
            → (search n next terminals (c ∷ visited) (queue ++ filter fresh (next c)) ≡ true
                → Finds (queue ++ filter fresh (next c)))
            → (last seen : Bool) → contains c terminals ≡ last
            → (if last
                then true
                else if seen
                then search n next terminals visited queue
                else search n next terminals (c ∷ visited) (queue ++ filter fresh (next c)))
              ≡ true
            → Finds (c ∷ queue)
        go skipped deeper true seen e h = (c, inl refl, (c, stop, (contains_iff c terminals).0 e))
        go skipped deeper false true e h = let (s, m, found) = skipped h in (s, inr m, found)
        go skipped deeper false false e h =
            let (s, m, (t, r, last)) = deeper h in
            elim ((In-append s queue _).0 m) [
              | inl waiting ↦ (s, inr waiting, (t, r, last))
              | inr pushed ↦ (
                c,
                inl refl,
                (t, Reaches-before ((In-filter fresh s (next c)).0 pushed).0 r, last),
              )
            ]
