-- ===== src/Evidence/Commit.antt =====
-- evidence/src/governed-evidence-commit.ts: validation, hashing and insertion of the snapshots of a
-- governed transition. A snapshot store is the function that answers an insertion, with `none` for a
-- rejected promise; the batches that it was given are logged.
use loop_engine.Prelude.{
  ℕ, suc, Bool, true, false, ◌||◌, not, String, Option, none, some, List, [], ◌∷◌, ◌++◌, put,
  if◌then◌else◌, ◌==◌, is_empty,
}
use loop_engine.Core.{
  Platform, Value, undefined, str, array, object, items, fields, Attributes, read, read_opt,
  is_true, Outcome, ok, threw, snapshot_store_rejected,
}
use loop_engine.Canonical.{sha256_canonical_hex}
use loop_engine.Evidence.Validate.{validate_commit_batch, validate_governed_evidence_present}

pub data RejectionReason : Type 0 where
  evidence_required invalid_evidence_snapshot snapshot_store_required : RejectionReason

pub record SnapshotStoreInsertInput : Type 0 where
  pub tenant_id : String
  pub aggregate_id : String
  pub snapshots : List Attributes

abbrev pub SnapshotStore : Type 0
SnapshotStore = SnapshotStoreInsertInput → Option (List String)

pub data CommitResult : Type 0 where
  committed : (snapshot_ids : List String) (persisted : List Attributes) → CommitResult
  refused : RejectionReason → CommitResult

-- `requiresGovernedEvidence`.
unfoldable pub requires_governed_evidence : (loop transition : Option Attributes) → Bool
requires_governed_evidence loop transition =
    is_true (read_opt "governedEvidence" loop) || is_true (read_opt "governedEvidence" transition)

-- A validated snapshot is an object.
unfoldable pub attributes_of : Value → Attributes
attributes_of (object fs) = fields fs
attributes_of _ = []

-- `snapshot.contentSha256 !== undefined && snapshot.contentSha256 !== hash`.
unfoldable pub mismatches : Value → String → Bool
mismatches undefined hash = false
mismatches (str s) hash = not (s == hash)
mismatches _ hash = true

module _ (p : Platform) where
  -- One round of the loop that fills `persisted`; `none` is an invalid snapshot.
  unfoldable pub persist : ℕ → Attributes → Option Attributes
  persist n snapshot = elim (sha256_canonical_hex p (read "values" snapshot)) [
    | none ↦ none
    | some hash ↦
        if mismatches (read "contentSha256" snapshot) hash
        then none
        else some (put "contentSha256" (str hash) (put "id" (str (p.random_uuid n)) snapshot))
  ]

  unfoldable pub persist_all : ℕ → List Value → Option (List Attributes)
  persist_all n [] = some []
  persist_all n (v ∷ vs) = elim (persist n (attributes_of v)) [
    | none ↦ none
    | some row ↦ elim (persist_all (suc n) vs) [ none ↦ none | some rows ↦ some (row ∷ rows) ]
  ]

  -- `snapshotStore.insertSnapshots`, if there is a store.
  unfoldable pub insert :
      Option SnapshotStore
      → SnapshotStoreInsertInput
      → List SnapshotStoreInsertInput
      → Outcome CommitResult × List SnapshotStoreInsertInput
  insert none batch log = (ok (refused snapshot_store_required), log)
  insert (some store) batch log = elim (store batch) [
    | none ↦ (threw snapshot_store_rejected, log)
    | some ids ↦ (ok (committed ids batch.snapshots), log ++ batch ∷ [])
  ]

  unfoldable pub commit_governed_evidence_snapshots :
      ℕ
      → Option SnapshotStore
      → (tenant_id aggregate_id : String) → (snapshots : Value) → List SnapshotStoreInsertInput
      → Outcome CommitResult × List SnapshotStoreInsertInput
  commit_governed_evidence_snapshots n store tenant_id aggregate_id (array vs) log =
      if not (is_empty (validate_governed_evidence_present (array vs)))
      then (ok (refused evidence_required), log)
      else if not (is_empty (validate_commit_batch p (array vs)))
      then (ok (refused invalid_evidence_snapshot), log)
      else elim (persist_all n (items vs)) [
        | none ↦ (ok (refused invalid_evidence_snapshot), log)
        | some rows ↦
            insert store
              (record { tenant_id = tenant_id; aggregate_id = aggregate_id; snapshots = rows }) log
      ]
  commit_governed_evidence_snapshots n store tenant_id aggregate_id _ log =
      (ok (refused evidence_required), log)
