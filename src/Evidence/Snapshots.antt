-- ===== src/Evidence/Snapshots.antt =====
-- What the validation of one snapshot accepts (evidence/src/validate-evidence-snapshot.ts).
use loop_engine.Prelude.{
  ℕ, suc, ◌≡◌, refl, ◌↔◌, Bool, true, false, ◌||◌, not, String, List, [], ◌∷◌, All, append_nil_iff,
  if◌then◌else◌, ◌==◌,
}
use loop_engine.Core.{Platform, Value, undefined, array, object, items, fields, Attributes, read}
use loop_engine.Evidence.Validate.{
  ErrorCode, Step, fail, unless, child, is_version, is_text, is_undefined, is_sequence,
  is_sha256_hex, nonempty_text, is_timestamp, validate_decision_record_versions,
  validate_lineage_ref, validate_lineage_refs, validate_lineage, validate_required, validate_values,
  validate_fields, validate_commit_input,
}

pub unless_iff :
    (b : Bool) (c : ErrorCode) (path : List Step) → (unless b (fail c path) ≡ []) ↔ (b ≡ true)
unless_iff true c path = (λ h. refl, λ h. refl)
unless_iff false c path = (λ h. cc, λ h. cc)

-- The three versions are 1.
abbrev pub IsVersions : Value → Type 0
IsVersions (object fs) =
    (is_version 1 (read "decisionRecordVersion" (fields fs)) ≡ true)
    × (is_version 1 (read "invariantVersion" (fields fs)) ≡ true)
    × (is_version 1 (read "canonicalVersion" (fields fs)) ≡ true)
IsVersions _ = ⊥

validate_decision_record_versions_iff :
    (v : Value) (path : List Step) → (validate_decision_record_versions v path ≡ []) ↔ IsVersions v
unfolding validate_decision_record_versions
validate_decision_record_versions_iff (object fs) path = (
  λ h.
      let (e1, h1) = (append_nil_iff _ _).0 h in
      let (e2, e3) = (append_nil_iff _ _).0 h1 in
      ((unless_iff _ _ _).0 e1, (unless_iff _ _ _).0 e2, (unless_iff _ _ _).0 e3),
  λ (a, b, c). (append_nil_iff _ _).1 (
    (unless_iff _ _ _).1 a,
    (append_nil_iff _ _).1 ((unless_iff _ _ _).1 b, (unless_iff _ _ _).1 c),
  ),
)
validate_decision_record_versions_iff v path = (λ h. cc, λ h. elim h [ ])

abbrev pub IsObject : Value → Type 0
IsObject (object fs) = Unit
IsObject _ = ⊥

validate_values_iff :
    (p : Platform) (v : Value) (path : List Step) → (validate_values p v path ≡ []) ↔ IsObject v
unfolding validate_values
validate_values_iff p (object fs) path = (λ h. tt, λ h. refl)
validate_values_iff p v path = (λ h. cc, λ h. elim h [ ])

module _ (p : Platform) where
  abbrev pub IsLineageRef : Value → Type 0
  IsLineageRef (object fs) =
      ((is_text "source" (read "kind" (fields fs))
          || is_text "derived-input" (read "kind" (fields fs)))
        ≡ true)
      × (nonempty_text p (read "ref" (fields fs)) ≡ true)
  IsLineageRef _ = ⊥

  validate_lineage_ref_iff :
      (v : Value) (path : List Step) → (validate_lineage_ref p v path ≡ []) ↔ IsLineageRef v
  unfolding validate_lineage_ref
  validate_lineage_ref_iff (object fs) path = (
    λ h.
        let (e1, e2) = (append_nil_iff _ _).0 h in
        ((unless_iff _ _ _).0 e1, (unless_iff _ _ _).0 e2),
    λ (a, b). (append_nil_iff _ _).1 ((unless_iff _ _ _).1 a, (unless_iff _ _ _).1 b),
  )
  validate_lineage_ref_iff v path = (λ h. cc, λ h. elim h [ ])

  validate_lineage_refs_iff :
      (i : ℕ) (vs : List Value) (path : List Step)
      → (validate_lineage_refs p i vs path ≡ []) ↔ All IsLineageRef vs
  unfolding validate_lineage_refs
  validate_lineage_refs_iff i [] path = (λ h. tt, λ h. refl)
  validate_lineage_refs_iff i (v ∷ vs) path = (
    λ h.
        let (e, h') = (append_nil_iff _ _).0 h in
        ((validate_lineage_ref_iff v _).0 e, (validate_lineage_refs_iff (suc i) vs path).0 h'),
    λ (a, b).
        (append_nil_iff _ _).1
          ((validate_lineage_ref_iff v _).1 a, (validate_lineage_refs_iff (suc i) vs path).1 b),
  )

  -- A lineage is absent or an array of references.
  abbrev pub IsLineage : Value → Type 0
  IsLineage undefined = Unit
  IsLineage (array vs) = All IsLineageRef (items vs)
  IsLineage _ = ⊥

  validate_lineage_iff :
      (v : Value) (path : List Step) → (validate_lineage p v path ≡ []) ↔ IsLineage v
  unfolding validate_lineage
  validate_lineage_iff undefined path = (λ h. tt, λ h. refl)
  validate_lineage_iff (array vs) path = validate_lineage_refs_iff 0 (items vs) path
  validate_lineage_iff v path = (λ h. cc, λ h. elim h [ ])

  -- A required text, which for the time of capture is a time.
  abbrev pub IsRequired : Attributes → String → Type 0
  IsRequired snapshot k =
      (nonempty_text p (read k snapshot) ≡ true)
      × ((k == "capturedAt") ≡ true → is_timestamp p (read k snapshot) ≡ true)

  validate_required_iff :
      (snapshot : Attributes) (path : List Step) (k : String)
      → (validate_required p snapshot path k ≡ []) ↔ IsRequired snapshot k
  unfolding validate_required
  validate_required_iff snapshot path k =
      go (nonempty_text p (read k snapshot)) (k == "capturedAt") (is_timestamp p (read k snapshot))
    where
      go :
          (present timed valid : Bool)
          → ((if present
                then unless
                    (not timed || valid)
                    (fail ErrorCode.invalid_captured_at (child path "capturedAt"))
                else fail ErrorCode.missing_provenance (child path k))
              ≡ [])
            ↔ ((present ≡ true) × (timed ≡ true → valid ≡ true))
      go true true true = (λ h. (refl, λ e. refl), λ h. refl)
      go true true false = (λ h. cc, λ (e, h). cc (h refl))
      go true false valid = (λ h. (refl, λ e. cc), λ h. refl)
      go false timed valid = (λ h. cc, λ (e, h). cc)

  abbrev pub IsOptional : (Value → Bool) → Value → Type 0
  IsOptional test v = (is_undefined v || test v) ≡ true

  -- What a snapshot has to have.
  pub record IsSnapshotFields (snapshot : Attributes) : Type 0 where
    pub snapshot_key : IsRequired snapshot "snapshotKey"
    pub source_system : IsRequired snapshot "sourceSystem"
    pub captured_at : IsRequired snapshot "capturedAt"
    pub captured_by : IsRequired snapshot "capturedBy"
    pub values : IsObject (read "values" snapshot)
    pub versions : IsVersions (read "versions" snapshot)
    pub lineage : IsLineage (read "lineage" snapshot)
    pub sequence : IsOptional is_sequence (read "sequence" snapshot)
    pub content_hash : IsOptional is_sha256_hex (read "contentSha256" snapshot)

  validate_fields_iff :
      (snapshot : Attributes) (path : List Step)
      → (validate_fields p snapshot path ≡ []) ↔ IsSnapshotFields snapshot
  unfolding validate_fields
  validate_fields_iff snapshot path = (
    λ h.
        let (e1, h1) = (append_nil_iff _ _).0 h in
        let (e2, h2) = (append_nil_iff _ _).0 h1 in
        let (e3, h3) = (append_nil_iff _ _).0 h2 in
        let (e4, h4) = (append_nil_iff _ _).0 h3 in
        let (e5, h5) = (append_nil_iff _ _).0 h4 in
        let (e6, h6) = (append_nil_iff _ _).0 h5 in
        let (e7, h7) = (append_nil_iff _ _).0 h6 in
        let (e8, e9) = (append_nil_iff _ _).0 h7 in
        record {
          snapshot_key = (validate_required_iff snapshot path "snapshotKey").0 e1;
          source_system = (validate_required_iff snapshot path "sourceSystem").0 e2;
          captured_at = (validate_required_iff snapshot path "capturedAt").0 e3;
          captured_by = (validate_required_iff snapshot path "capturedBy").0 e4;
          values = (validate_values_iff p _ _).0 e5;
          versions = (validate_decision_record_versions_iff _ _).0 e6;
          lineage = (validate_lineage_iff _ _).0 e7;
          sequence = (unless_iff _ _ _).0 e8;
          content_hash = (unless_iff _ _ _).0 e9;
        },
    λ s. (append_nil_iff _ _).1 (
      (validate_required_iff snapshot path "snapshotKey").1 s.snapshot_key,
      (append_nil_iff _ _).1 (
        (validate_required_iff snapshot path "sourceSystem").1 s.source_system,
        (append_nil_iff _ _).1 (
          (validate_required_iff snapshot path "capturedAt").1 s.captured_at,
          (append_nil_iff _ _).1 (
            (validate_required_iff snapshot path "capturedBy").1 s.captured_by,
            (append_nil_iff _ _).1 (
              (validate_values_iff p _ _).1 s.values,
              (append_nil_iff _ _).1 (
                (validate_decision_record_versions_iff _ _).1 s.versions,
                (append_nil_iff _ _).1 (
                  (validate_lineage_iff _ _).1 s.lineage,
                  (append_nil_iff _ _).1
                      ((unless_iff _ _ _).1 s.sequence, (unless_iff _ _ _).1 s.content_hash),
                ),
              ),
            ),
          ),
        ),
      ),
    ),
  )

  abbrev pub IsSnapshot : Value → Type 0
  IsSnapshot (object fs) = IsSnapshotFields (fields fs)
  IsSnapshot _ = ⊥

  pub validate_commit_input_iff :
      (v : Value) (path : List Step) → (validate_commit_input p v path ≡ []) ↔ IsSnapshot v
  unfolding validate_commit_input
  validate_commit_input_iff (object fs) path = validate_fields_iff (fields fs) path
  validate_commit_input_iff v path = (λ h. cc, λ h. elim h [ ])
