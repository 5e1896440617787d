-- ===== src/Evidence/Batch.antt =====
-- What the validation of a batch of snapshots accepts (evidence/src/validate-evidence-snapshot.ts).
use loop_engine.Prelude.{
  ℕ, suc, ◌≡◌, refl, sym, subst, ◌↔◌, inl, inr, Bool, true, false, not, String, Option, none, some,
  List, [], ◌∷◌, ◌++◌, In, All, Distinct, append_nil_iff, contains, contains_iff, if◌then◌else◌,
}
use loop_engine.Core.{Platform, Value, array, items}
use loop_engine.Evidence.Validate.{
  index, fail, unless, child, key_of, validate_from, validate_commit_batch, duplicate_snapshot_key,
}
use loop_engine.Evidence.Snapshots.{IsSnapshot, validate_commit_input_iff}

module _ (p : Platform) where
  abbrev with_key : Option String → List String → List String
  with_key none ks = ks
  with_key (some k) ks = k ∷ ks

  -- The keys of the snapshots that have one.
  abbrev pub snapshot_keys : List Value → List String
  snapshot_keys [] = []
  snapshot_keys (v ∷ vs) = with_key (key_of p v) (snapshot_keys vs)

  -- A batch of complete snapshots with distinct keys.
  abbrev pub AreSnapshots : Value → Type 0
  AreSnapshots (array vs) = All (IsSnapshot p) (items vs) × Distinct (snapshot_keys (items vs))
  AreSnapshots _ = ⊥

  -- The snapshots are complete and their keys distinct, also from those seen before.
  abbrev AreNew : List String → List Value → Type 0
  AreNew seen vs =
      All (IsSnapshot p) vs
      × Distinct (snapshot_keys vs)
      × ((k : String) → In k (snapshot_keys vs) → ¬ In k seen)

  -- The rest of the batch after a snapshot with the key `k`.
  rest_iff :
      (i : ℕ) (vs : List Value) (seen : List String) (k : Option String)
      → ((seen' : List String) → (validate_from p (suc i) vs seen' ≡ []) ↔ AreNew seen' vs)
      → (elim k [
        | none ↦ validate_from p (suc i) vs seen
        | some j ↦
            unless
              (not (contains j seen))
              (fail duplicate_snapshot_key (child (index i ∷ []) "snapshotKey"))
            ++ validate_from p (suc i) vs (if contains j seen then seen else j ∷ seen)
      ]
          ≡ [])
        ↔ (All (IsSnapshot p) vs
            × Distinct (with_key k (snapshot_keys vs))
            × ((j : String) → In j (with_key k (snapshot_keys vs)) → ¬ In j seen))
  rest_iff i vs seen none ih = ih seen
  rest_iff i vs seen (some k) ih = go (contains k seen) refl
    where
      go :
          (b : Bool)
          → contains k seen ≡ b
          → (unless (not b) (fail duplicate_snapshot_key (child (index i ∷ []) "snapshotKey"))
                ++ validate_from p (suc i) vs (if b then seen else k ∷ seen)
              ≡ [])
            ↔ (All (IsSnapshot p) vs
                × Distinct (k ∷ snapshot_keys vs)
                × ((j : String) → In j (k ∷ snapshot_keys vs) → ¬ In j seen))
      go true e = (
        λ h. cc,
        λ (all_rest, distinct, unseen). absurd (unseen k (inl refl) ((contains_iff k seen).0 e)),
      )
      go false e = (
        λ h.
            let (all_rest, distinct, unseen) = (ih (k ∷ seen)).0 h in
            (
              all_rest,
              (λ m. unseen k m (inl refl), distinct),
              λ j m seen_j. elim m [
                | inl same ↦ cc ((contains_iff j seen).1 seen_j, e, same)
                | inr m' ↦ unseen j m' (inr seen_j)
              ],
            ),
        λ (all_rest, (fresh, distinct), unseen). (ih (k ∷ seen)).1 (
          all_rest,
          distinct,
          λ j m seen_j. elim seen_j [
            | inl same ↦ fresh (subst (λ z. In z (snapshot_keys vs)) (sym same) m)
            | inr old ↦ unseen j (inr m) old
          ],
        ),
      )

  from_iff :
      (i : ℕ) (vs : List Value) (seen : List String)
      → (validate_from p i vs seen ≡ []) ↔ AreNew seen vs
  unfolding validate_from
  from_iff i [] seen = (λ h. (tt, tt, λ k m. elim m [ ]), λ h. refl)
  from_iff i (v ∷ vs) seen =
      let step = rest_iff i vs seen (key_of p v) (from_iff (suc i) vs) in
      (
        λ h.
            let (own, rest) = (append_nil_iff _ _).0 h in
            let (all_rest, distinct, unseen) = step.0 rest in
            (((validate_commit_input_iff p v _).0 own, all_rest), distinct, unseen),
        λ ((own, all_rest), distinct, unseen).
            (append_nil_iff _ _).1
              ((validate_commit_input_iff p v _).1 own, step.1 (all_rest, distinct, unseen)),
      )

  -- The validation of a batch reports no error exactly where the batch is an array of complete
  -- snapshots with distinct keys.
  pub validate_commit_batch_iff : (v : Value) → (validate_commit_batch p v ≡ []) ↔ AreSnapshots v
  unfolding validate_commit_batch
  validate_commit_batch_iff (array vs) = (
    λ h. let (complete, distinct, unseen) = (from_iff 0 (items vs) []).0 h in (complete, distinct),
    λ (complete, distinct). (from_iff 0 (items vs) []).1 (complete, distinct, λ k m e. e),
  )
  validate_commit_batch_iff v = (λ h. cc, λ h. elim h [ ])
