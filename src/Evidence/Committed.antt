-- ===== src/Evidence/Committed.antt =====
-- What a commit of governed evidence means (evidence/src/governed-evidence-commit.ts).
use loop_engine.Prelude.{
  ℕ, suc, ◌≡◌, refl, sym, ap, subst, ◌∙◌, Bool, true, false, not, String, Option, none, some, List,
  [], ◌∷◌, ◌++◌, get, put, is_empty, ◌↔◌, ◌⊎◌, arith, if◌then◌else◌, some-injective, All,
}
use loop_engine.Core.{
  Platform, Value, undefined, null, boolean, num, object, is_true, read_opt, str, array, Items,
  items, Attributes, read, read-put, snapshot_store_rejected, Outcome, ok, threw,
}
use loop_engine.Canonical.{sha256_canonical_hex}
use loop_engine.Evidence.Validate.{
  Errors, fail, ErrorCode, key, validate_commit_batch, validate_governed_evidence_present,
}
use loop_engine.Evidence.Commit.{
  RejectionReason, invalid_evidence_snapshot, SnapshotStore, SnapshotStoreInsertInput, CommitResult,
  committed, refused, requires_governed_evidence, attributes_of, mismatches, persist, persist_all,
  insert, commit_governed_evidence_snapshots,
}

-- Metadata that asks for governed evidence.
abbrev pub Asks : Option Attributes → Type 0
Asks none = ⊥
Asks (some metadata) = get "governedEvidence" metadata ≡ some (boolean true)

is_true-Asks : (m : Option Attributes) → (is_true (read_opt "governedEvidence" m) ≡ true) ↔ Asks m
unfolding is_true read_opt read
is_true-Asks none = ((λ h. cc), λ h. elim h [ ])
is_true-Asks (some m) = go (get "governedEvidence" m)
  where
    go :
        (x : Option Value)
        → (is_true (elim x [ none ↦ undefined | some v ↦ v ]) ≡ true) ↔ (x ≡ some (boolean true))
    go none = (λ h. cc, λ h. cc)
    go (some (boolean true)) = (λ h. refl, λ h. refl)
    go (some (boolean false)) = (λ h. cc, λ h. cc)
    go (some undefined) = (λ h. cc, λ h. cc)
    go (some null) = (λ h. cc, λ h. cc)
    go (some (num n)) = (λ h. cc, λ h. cc)
    go (some (str s)) = (λ h. cc, λ h. cc)
    go (some (array vs)) = (λ h. cc, λ h. cc)
    go (some (object fs)) = (λ h. cc, λ h. cc)

-- Evidence is required where the loop or the transition asks for it.
pub requires_governed_evidence_iff :
    (loop transition : Option Attributes)
    → (requires_governed_evidence loop transition ≡ true) ↔ (Asks loop ⊎ Asks transition)
unfolding requires_governed_evidence
requires_governed_evidence_iff loop transition =
    let own = is_true-Asks loop in let other = is_true-Asks transition in ground (arith, own, other)

module _ (p : Platform) where
  -- The stored hash is that of the stored values.
  abbrev pub Sealed : Attributes → Type 0
  Sealed row =
      (hash : String) × (sha256_canonical_hex p (read "values" row) ≡ some hash)
      × (read "contentSha256" row ≡ str hash)

  abbrev seal : ℕ → Attributes → String → Attributes
  seal n snapshot hash = put "contentSha256" (str hash) (put "id" (str (p.random_uuid n)) snapshot)

  seal-Sealed :
      (n : ℕ) (snapshot : Attributes) (hash : String)
      → sha256_canonical_hex p (read "values" snapshot) ≡ some hash
      → Sealed (seal n snapshot hash)
  seal-Sealed n snapshot hash h = (
    hash,
    ap (sha256_canonical_hex p) (
          read-put "values" "contentSha256" (str hash) _
          ∙ read-put "values" "id" (str (p.random_uuid n)) snapshot)
        ∙ h,
    read-put "contentSha256" "contentSha256" (str hash) _,
  )

  persist-Sealed :
      (n : ℕ) (snapshot row : Attributes) → persist p n snapshot ≡ some row → Sealed row
  unfolding persist
  persist-Sealed n snapshot row = go (sha256_canonical_hex p (read "values" snapshot)) refl
    where
      matched :
          (hash : String) (b : Bool)
          → sha256_canonical_hex p (read "values" snapshot) ≡ some hash
          → (if b then none else some (seal n snapshot hash)) ≡ some row
          → Sealed row
      matched hash true e h = cc
      matched hash false e h = subst Sealed (some-injective _ _ h) (seal-Sealed n snapshot hash e)

      go :
          (x : Option String)
          → sha256_canonical_hex p (read "values" snapshot) ≡ x
          → elim x [
            | none ↦ none
            | some hash ↦
                if mismatches (read "contentSha256" snapshot) hash
                then none
                else some (seal n snapshot hash)
          ]
            ≡ some row
          → Sealed row
      go none e h = cc
      go (some hash) e h = matched hash _ e h

  persist_all-Sealed :
      (n : ℕ) (vs : List Value) (rows : List Attributes)
      → persist_all p n vs ≡ some rows
      → All Sealed rows
  unfolding persist_all
  persist_all-Sealed n [] rows h = subst (All Sealed) (some-injective _ _ h) tt
  persist_all-Sealed n (v ∷ vs) rows h =
      go (persist_all-Sealed (suc n) vs) (persist p n (attributes_of v)) refl h
    where
      rest :
          (row : Attributes) (x : Option (List Attributes))
          → Sealed row
          → persist_all p (suc n) vs ≡ x
          → ((rs : List Attributes) → persist_all p (suc n) vs ≡ some rs → All Sealed rs)
          → elim x [ none ↦ none | some rs ↦ some (row ∷ rs) ] ≡ some rows
          → All Sealed rows
      rest row none sealed e ih h' = cc
      rest row (some rs) sealed e ih h' =
          subst (All Sealed) (some-injective _ _ h') (sealed, ih rs e)

      go :
          ((rs : List Attributes) → persist_all p (suc n) vs ≡ some rs → All Sealed rs)
          → (x : Option Attributes) → persist p n (attributes_of v) ≡ x
          → elim x [
            | none ↦ none
            | some row ↦ elim (persist_all p (suc n) vs) [ none ↦ none | some rs ↦ some (row ∷ rs) ]
          ]
            ≡ some rows
          → All Sealed rows
      go ih none e h' = cc
      go ih (some row) e h' = rest row _ (persist-Sealed n _ row e) refl ih h'

  -- What a commit that succeeds has checked and done.
  pub record IsCommit (n : ℕ) (store : Option SnapshotStore) (tenant_id aggregate_id : String)
      (snapshots : Value) (log log' : List SnapshotStoreInsertInput) (ids : List String)
      (rows : List Attributes) : Type 0 where
    pub vs : Items
    pub is_array : snapshots ≡ array vs
    pub present : is_empty (items vs) ≡ false
    pub valid : validate_commit_batch p snapshots ≡ []
    pub hashed : persist_all p n (items vs) ≡ some rows
    pub sealed : All Sealed rows
    pub insert_snapshots : SnapshotStore
    pub has_store : store ≡ some insert_snapshots
    pub answered :
        insert_snapshots
          (record { tenant_id = tenant_id; aggregate_id = aggregate_id; snapshots = rows })
        ≡ some ids
    pub logged :
        log'
        ≡ log
          ++ record { tenant_id = tenant_id; aggregate_id = aggregate_id; snapshots = rows } ∷ []

  -- The last steps of a commit: the insertion of the rows.
  insert-IsCommit :
      (n : ℕ) (store : Option SnapshotStore) (tenant_id aggregate_id : String) (vs : Items)
      (log log' : List SnapshotStoreInsertInput) (ids : List String) (rows rows' : List Attributes)
      → is_empty (items vs) ≡ false
      → validate_commit_batch p (array vs) ≡ []
      → persist_all p n (items vs) ≡ some rows'
      → insert p store
          (record { tenant_id = tenant_id; aggregate_id = aggregate_id; snapshots = rows' })
          log
        ≡ (ok (committed ids rows), log')
      → IsCommit n store tenant_id aggregate_id (array vs) log log' ids rows
  unfolding insert
  insert-IsCommit n none tenant_id aggregate_id vs log log' ids rows rows' e v h r =
      cc (ap (λ x. x.0) r)
  insert-IsCommit n (some st) tenant_id aggregate_id vs log log' ids rows rows' e v h r =
      go (st batch) refl r
    where
      batch : SnapshotStoreInsertInput
      batch = record { tenant_id = tenant_id; aggregate_id = aggregate_id; snapshots = rows' }

      go :
          (x : Option (List String))
          → st batch ≡ x
          → ◌≡◌ {A = Outcome CommitResult × List SnapshotStoreInsertInput}
              (elim x [
                | none ↦ (threw snapshot_store_rejected, log)
                | some ids' ↦ (ok (committed ids' rows'), log ++ batch ∷ [])
              ])
              (ok (committed ids rows), log')
          → IsCommit n (some st) tenant_id aggregate_id (array vs) log log' ids rows
      go none a r' = cc (ap (λ x. x.0) r')
      go (some ids') a r' =
          let same : rows' ≡ rows = cc (ap (λ x. x.0) r') in
          let same_ids : ids' ≡ ids = cc (ap (λ x. x.0) r') in
          record {
            vs = vs;
            is_array = refl;
            present = e;
            valid = v;
            hashed = h ∙ ap some same;
            sealed = subst (All Sealed) same (persist_all-Sealed n (items vs) rows' h);
            insert_snapshots = st;
            has_store = refl;
            answered = rw (← same) (a ∙ ap some same_ids);
            logged = rw (← same) (sym (ap (λ x. x.1) r'));
          }

  -- A commit succeeds only for a non-empty array of snapshots that validation accepts, each stored
  -- with the hash of its values; the batch is given to the store once, and the store's identifiers
  -- are returned.
  pub commit_governed_evidence_snapshots-IsCommit :
      (n : ℕ) (store : Option SnapshotStore) (tenant_id aggregate_id : String) (snapshots : Value)
      (log log' : List SnapshotStoreInsertInput) (ids : List String) (rows : List Attributes)
      → commit_governed_evidence_snapshots p n store tenant_id aggregate_id snapshots log
        ≡ (ok (committed ids rows), log')
      → IsCommit n store tenant_id aggregate_id snapshots log log' ids rows
  unfolding commit_governed_evidence_snapshots validate_governed_evidence_present
  commit_governed_evidence_snapshots-IsCommit n store tenant_id aggregate_id (array vs) log log' ids
        rows h =
      go (is_empty (items vs)) (validate_commit_batch p (array vs)) (persist_all p n (items vs))
        refl refl refl h
    where
      go :
          (e : Bool) (v : Errors) (x : Option (List Attributes))
          → is_empty (items vs) ≡ e
          → validate_commit_batch p (array vs) ≡ v
          → persist_all p n (items vs) ≡ x
          → ◌≡◌ {A = Outcome CommitResult × List SnapshotStoreInsertInput}
              (if not (
                  is_empty (
                    if e
                    then fail ErrorCode.evidence_required (key "evidenceSnapshots" ∷ [])
                    else []))
                then (ok (refused RejectionReason.evidence_required), log)
                else if not (is_empty v)
                then (ok (refused invalid_evidence_snapshot), log)
                else elim x [
                  | none ↦ (ok (refused invalid_evidence_snapshot), log)
                  | some rows' ↦
                      insert p store
                        (record {
                          tenant_id = tenant_id;
                          aggregate_id = aggregate_id;
                          snapshots = rows';
                        })
                        log
                ])
              (ok (committed ids rows), log')
          → IsCommit n store tenant_id aggregate_id (array vs) log log' ids rows
      go true v x e1 e2 e3 h = cc (ap (λ x. x.0) h)
      go false (err ∷ errs) x e1 e2 e3 h = cc (ap (λ x. x.0) h)
      go false [] none e1 e2 e3 h = cc (ap (λ x. x.0) h)
      go false [] (some rows') e1 e2 e3 h =
          insert-IsCommit n store tenant_id aggregate_id vs log log' ids rows rows' e1 e2 e3 h
  commit_governed_evidence_snapshots-IsCommit n store tenant_id aggregate_id v log log' ids rows h =
      cc (ap (λ x. x.0) h)
