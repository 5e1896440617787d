-- ===== src/Evidence/Validate.antt =====
-- Structural validation of a batch of evidence snapshots
-- (evidence/src/validate-evidence-snapshot.ts). A path is its list of steps from the root, and the
-- messages are left out. `merge` is concatenation, and a result is valid where its list is empty.
use Prim.Native.Char.{code}
use loop_engine.Prelude.{
  ℕ, suc, Bool, true, false, ◌&&◌, ◌||◌, not, String, Option, none, some, List, [], ◌∷◌, ◌++◌, leb,
  eqb, if◌then◌else◌, ◌==◌, is_empty, contains,
}
use loop_engine.Prelude.Int.{pos}
use loop_engine.Core.{
  Platform, Value, undefined, num, str, array, object, items, fields, fin, ge_number, number,
  Attributes, read,
}
use loop_engine.Canonical.{is_integer}

pub data ErrorCode : Type 0 where
  invalid_versions unsupported_decision_record_version unsupported_invariant_version : ErrorCode
  unsupported_canonical_version invalid_lineage_ref invalid_lineage_kind : ErrorCode
  missing_lineage_ref invalid_snapshot missing_provenance invalid_captured_at : ErrorCode
  invalid_values invalid_lineage invalid_sequence invalid_content_sha256 : ErrorCode
  invalid_snapshot_batch duplicate_snapshot_key evidence_required : ErrorCode

pub data Step : Type 0 where
  key : String → Step
  index : ℕ → Step

pub record EvidenceValidationError : Type 0 where
  pub code : ErrorCode
  pub path : List Step

abbrev pub Errors : Type 0
Errors = List EvidenceValidationError

abbrev pub fail : ErrorCode → List Step → Errors
fail c path = record { code = c; path = path } ∷ []

abbrev pub unless : Bool → Errors → Errors
unless b es = if b then [] else es

-- `childPath`.
abbrev pub child : List Step → String → List Step
child path k = path ++ key k ∷ []

-- `v === n` for a version number.
unfoldable pub is_version : ℕ → Value → Bool
is_version n (num a) = ge_number a (number n) && ge_number (number n) a
is_version n _ = false

unfoldable pub is_text : String → Value → Bool
is_text s (str t) = t == s
is_text s _ = false

unfoldable pub is_undefined : Value → Bool
is_undefined undefined = true
is_undefined _ = false

-- `SHA256_HEX_RE`: 64 characters of 0-9 and a-f.
unfoldable pub is_hex_digit : ℕ → Bool
is_hex_digit c = (leb b'0' c && leb c b'9') || (leb b'a' c && leb c b'f')

unfoldable pub all_hex : String → Bool
all_hex String.[] = true
all_hex (String.◌∷◌ c s) = is_hex_digit (code c) && all_hex s

unfoldable pub count_chars : String → ℕ
count_chars String.[] = 0
count_chars (String.◌∷◌ c s) = suc (count_chars s)

unfoldable pub is_sha256_hex : Value → Bool
is_sha256_hex (str s) = eqb (count_chars s) 64 && all_hex s
is_sha256_hex _ = false

-- A non-negative integer.
unfoldable pub is_sequence : Value → Bool
is_sequence (num (fin (pos n))) = is_integer (pos n)
is_sequence _ = false

unfoldable pub validate_decision_record_versions : Value → List Step → Errors
validate_decision_record_versions (object fs) path =
    let versions = fields fs in
    unless (is_version 1 (read "decisionRecordVersion" versions))
      (fail unsupported_decision_record_version (child path "decisionRecordVersion"))
    ++ (unless (is_version 1 (read "invariantVersion" versions))
          (fail unsupported_invariant_version (child path "invariantVersion"))
        ++ unless (is_version 1 (read "canonicalVersion" versions))
            (fail unsupported_canonical_version (child path "canonicalVersion")))
validate_decision_record_versions _ path = fail invalid_versions path

module _ (p : Platform) where
  -- `nonEmptyString`.
  unfoldable pub nonempty_text : Value → Bool
  nonempty_text (str s) = not (p.trim s == "")
  nonempty_text _ = false

  -- `isIso8601Timestamp`.
  unfoldable pub is_timestamp : Value → Bool
  is_timestamp (str s) = elim (p.parse_date s) [ none ↦ false | some t ↦ true ]
  is_timestamp _ = false

  unfoldable pub validate_lineage_ref : Value → List Step → Errors
  validate_lineage_ref (object fs) path =
      let ref = fields fs in
      unless (is_text "source" (read "kind" ref) || is_text "derived-input" (read "kind" ref))
        (fail invalid_lineage_kind (child path "kind"))
      ++ unless (nonempty_text (read "ref" ref)) (fail missing_lineage_ref (child path "ref"))
  validate_lineage_ref _ path = fail invalid_lineage_ref path

  unfoldable pub validate_lineage_refs : ℕ → List Value → List Step → Errors
  validate_lineage_refs i [] path = []
  validate_lineage_refs i (v ∷ vs) path =
      validate_lineage_ref v (path ++ index i ∷ []) ++ validate_lineage_refs (suc i) vs path

  unfoldable pub validate_lineage : Value → List Step → Errors
  validate_lineage undefined path = []
  validate_lineage (array vs) path = validate_lineage_refs 0 (items vs) path
  validate_lineage _ path = fail invalid_lineage path

  -- One round of the loop over `requiredStrings`.
  unfoldable pub validate_required : Attributes → List Step → String → Errors
  validate_required snapshot path k =
      if nonempty_text (read k snapshot)
      then unless (not (k == "capturedAt") || is_timestamp (read k snapshot))
          (fail invalid_captured_at (child path "capturedAt"))
      else fail missing_provenance (child path k)

  unfoldable pub validate_values : Value → List Step → Errors
  validate_values (object fs) path = []
  validate_values _ path = fail invalid_values path

  unfoldable pub validate_fields : Attributes → List Step → Errors
  validate_fields snapshot path =
      validate_required snapshot path "snapshotKey"
      ++ (validate_required snapshot path "sourceSystem"
          ++ (validate_required snapshot path "capturedAt"
              ++ (validate_required snapshot path "capturedBy"
                  ++ (validate_values (read "values" snapshot) (child path "values")
                      ++ (validate_decision_record_versions (read "versions" snapshot)
                            (child path "versions")
                          ++ (validate_lineage (read "lineage" snapshot) (child path "lineage")
                              ++ (unless
                                    (is_undefined (read "sequence" snapshot)
                                      || is_sequence (read "sequence" snapshot))
                                    (fail invalid_sequence (child path "sequence"))
                                  ++ unless
                                      (is_undefined (read "contentSha256" snapshot)
                                        || is_sha256_hex (read "contentSha256" snapshot))
                                      (fail invalid_content_sha256
                                        (child path "contentSha256")))))))))

  unfoldable pub validate_commit_input : Value → List Step → Errors
  validate_commit_input (object fs) path = validate_fields (fields fs) path
  validate_commit_input _ path = fail invalid_snapshot path

  -- The key of a snapshot that counts for uniqueness.
  unfoldable pub key_of : Value → Option String
  key_of (object fs) = elim (read "snapshotKey" (fields fs)) [
    | str s ↦ if nonempty_text (str s) then some s else none
    | _ ↦ none
  ]
  key_of _ = none

  -- The loop of the batch validation from position `i`; `keys` are those seen before.
  unfoldable pub validate_from : ℕ → List Value → List String → Errors
  validate_from i [] keys = []
  validate_from i (v ∷ vs) keys =
      let path : List Step = index i ∷ [] in
      let own = validate_commit_input v path in
      let skipped = validate_from (suc i) vs keys in
      own ++ elim (key_of v) [
        | none ↦ skipped
        | some k ↦
            let rest = validate_from (suc i) vs (if contains k keys then keys else k ∷ keys) in
            unless (not (contains k keys)) (fail duplicate_snapshot_key (child path "snapshotKey"))
            ++ rest
      ]

  unfoldable pub validate_commit_batch : Value → Errors
  validate_commit_batch (array vs) = validate_from 0 (items vs) []
  validate_commit_batch _ = fail invalid_snapshot_batch []

unfoldable pub validate_governed_evidence_present : Value → Errors
validate_governed_evidence_present (array vs) =
    if is_empty (items vs) then fail evidence_required (key "evidenceSnapshots" ∷ []) else []
validate_governed_evidence_present _ = fail evidence_required (key "evidenceSnapshots" ∷ [])
