-- ===== src/Validator/Checks.antt =====
-- When each check of the validator reports nothing (loop-definition/src/validator.ts).
use loop_engine.Prelude.{
  append_nil_iff, Distinct, ℕ, suc, ◌≡◌, refl, sym, ap, subst, ◌↔◌, inl, inr, Bool, true, false,
  not, String, Option, none, some, List, [], ◌∷◌, map, arith, In, contains, contains_iff, is_empty,
  if◌then◌else◌,
}
use loop_engine.Core.{TransitionSpec, GuardSpec}
use loop_engine.Validator.{
  ErrorCode, Place, report, add, duplicates, has_duplicates, transition_errors,
}
use loop_engine.Validator.Graph.{In-add}

pub report_iff :
    (wrong : Bool) (c : ErrorCode) (path : Place) → (report wrong c path ≡ []) ↔ (wrong ≡ false)
report_iff true c path = (λ h. cc, λ h. cc)
report_iff false c path = (λ h. refl, λ h. refl)

abbrev pub ids : List GuardSpec → List String
ids gs = map (λ (g : GuardSpec). g.id) gs

abbrev pub DistinctGuards : Option (List GuardSpec) → Type 0
DistinctGuards none = Unit
DistinctGuards (some gs) = Distinct (ids gs)

-- No identifier of the list was seen before.
abbrev Unseen : List String → List String → Type 0
Unseen seen ks = (k : String) → In k ks → ¬ In k seen

duplicates_kept :
    (gs : List GuardSpec) (seen dups : List String)
    → is_empty dups ≡ false
    → is_empty (duplicates seen dups gs) ≡ false
unfolding duplicates add
duplicates_kept [] seen dups h = h
duplicates_kept (g ∷ gs) seen dups h =
    duplicates_kept gs (add g.id seen) _ (go dups (contains g.id seen) h)
  where
    go :
        (ds : List String) (b : Bool)
        → is_empty ds ≡ false
        → is_empty (if b then add g.id ds else ds) ≡ false
    go [] b h' = cc
    go (d ∷ ds) true h' = ground arith
    go (d ∷ ds) false h' = h'

duplicates_iff :
    (gs : List GuardSpec) (seen : List String)
    → (is_empty (duplicates seen [] gs) ≡ true) ↔ (Distinct (ids gs) × Unseen seen (ids gs))
unfolding duplicates add contains
duplicates_iff [] seen = (λ h. (tt, λ k m. elim m [ ]), λ h. refl)
duplicates_iff (g ∷ gs) seen = go (duplicates_iff gs (add g.id seen)) (contains g.id seen) refl
  where
    go :
        (is_empty (duplicates (add g.id seen) [] gs) ≡ true)
          ↔ (Distinct (ids gs) × Unseen (add g.id seen) (ids gs))
        → (b : Bool) → contains g.id seen ≡ b
        → (is_empty (duplicates (add g.id seen) (if b then add g.id [] else []) gs) ≡ true)
          ↔ (Distinct (ids (g ∷ gs)) × Unseen seen (ids (g ∷ gs)))
    go ih true e = (
      λ h. cc (duplicates_kept gs (add g.id seen) (g.id ∷ []) refl, h),
      λ (distinct, unseen). absurd (unseen g.id (inl refl) ((contains_iff g.id seen).0 e)),
    )
    go ih false e = (
      λ h.
          let (distinct, unseen) = ih.0 h in
          (
            (λ m. unseen g.id m ((In-add g.id g.id seen).1 (inr refl)), distinct),
            λ k m seen_k. elim m [
              | inl same ↦ cc ((contains_iff k seen).1 seen_k, e, same)
              | inr m' ↦ unseen k m' ((In-add k g.id seen).1 (inl seen_k))
            ],
          ),
      λ ((fresh, distinct), unseen). ih.1 (
        distinct,
        λ k m seen_k. elim ((In-add k g.id seen).0 seen_k) [
          | inl old ↦ unseen k (inr m) old
          | inr same ↦ fresh (subst (λ z. In z (ids gs)) (sym same) m)
        ],
      ),
    )

has_duplicates_iff :
    (gs : Option (List GuardSpec)) → (has_duplicates gs ≡ false) ↔ DistinctGuards gs
unfolding has_duplicates
has_duplicates_iff none = (λ h. tt, λ h. refl)
has_duplicates_iff (some gs) =
    let checked = duplicates_iff gs [] in
    (λ h. (checked.0 (ground arith)).0, λ distinct. ap not (checked.1 (distinct, λ k m e. e)))

-- The states of the transition are declared, and its guards have distinct identifiers.
abbrev pub IsTransition : List String → TransitionSpec → Type 0
IsTransition state_ids t = In t.from state_ids × In t.to state_ids × DistinctGuards t.guards

declared_iff : (k : String) (ks : List String) → (not (contains k ks) ≡ false) ↔ In k ks
declared_iff k ks =
    (λ h. (contains_iff k ks).0 (ground arith), λ m. ap not ((contains_iff k ks).1 m))

pub transition_errors_iff :
    (state_ids : List String) (i : ℕ) (ts : List TransitionSpec)
    → (transition_errors state_ids i ts ≡ [])
      ↔ ((t : TransitionSpec) → In t ts → IsTransition state_ids t)
unfolding transition_errors
transition_errors_iff state_ids i [] = (λ h t m. elim m [ ], λ h. refl)
transition_errors_iff state_ids i (t ∷ ts) = (
  λ h.
      let (e1, h1) = (append_nil_iff _ _).0 h in
      let (e2, h2) = (append_nil_iff _ _).0 h1 in
      let (e3, h3) = (append_nil_iff _ _).0 h2 in
      let own : IsTransition state_ids t = (
        (declared_iff t.from state_ids).0 ((report_iff _ _ _).0 e1),
        (declared_iff t.to state_ids).0 ((report_iff _ _ _).0 e2),
        (has_duplicates_iff t.guards).0 ((report_iff _ _ _).0 e3),
      ) in
      λ t' m. elim m [
        | inl same ↦ subst (IsTransition state_ids) same own
        | inr m' ↦ (transition_errors_iff state_ids (suc i) ts).0 h3 t' m'
      ],
  λ h.
      let (from_in, to_in, distinct) = h t (inl refl) in
      (append_nil_iff _ _).1 (
        (report_iff _ _ _).1 ((declared_iff t.from state_ids).1 from_in),
        (append_nil_iff _ _).1 (
          (report_iff _ _ _).1 ((declared_iff t.to state_ids).1 to_in),
          (append_nil_iff _ _).1 (
            (report_iff _ _ _).1 ((has_duplicates_iff t.guards).1 distinct),
            (transition_errors_iff state_ids (suc i) ts).1 (λ t' m. h t' (inr m)),
          ),
        ),
      ),
)
