-- ===== src/Canon.antt =====
-- packages/canon: the evaluation of a policy's evidence requirements (canon/src/evaluate.ts,
-- freshness.ts, types.ts), and the rungs that it compares (evidence/src/qualification.ts). Messages
-- are left out.
pub mod Requirements
pub mod Policy
use loop_engine.Prelude.{
  ℕ, Bool, true, false, ◌&&◌, ◌||◌, not, String, Option, none, some, List, [], ◌∷◌, ◌++◌, map, all,
  Dict, get, leb, is_empty, if◌then◌else◌, ◌==◌,
}
use loop_engine.Prelude.Int.{ℤ, monus}
use loop_engine.Core.{Platform, Number, pos_inf, number, ge_number}

pub data ProvenanceRung : Type 0 where
  unknown system_attested origin_attested : ProvenanceRung

pub data DefinitionRung : Type 0 where
  not_applicable unreviewed certified governed : DefinitionRung

pub data FreshnessBindingClock : Type 0 where
  snapshot_frozen_at value_as_of source_data_freshness : FreshnessBindingClock

-- An applicable `FreshnessQualification`; one that is not applicable is `none`.
pub record Freshness : Type 0 where
  pub frozen_at : String
  pub as_of : String
  pub source_freshness : Option String
  pub binding_clock : Option FreshnessBindingClock

pub record QualificationVector : Type 0 where
  pub provenance : ProvenanceRung
  pub definition : DefinitionRung
  pub freshness : Option Freshness

-- The index in `PROVENANCE_ORDER` and in `DEFINITION_ORDER`.
unfoldable pub provenance_index : ProvenanceRung → ℕ
provenance_index unknown = 0
provenance_index system_attested = 1
provenance_index origin_attested = 2

unfoldable pub definition_index : DefinitionRung → ℕ
definition_index not_applicable = 0
definition_index unreviewed = 1
definition_index certified = 2
definition_index governed = 3

unfoldable pub provenance_meets_minimum : (actual required : ProvenanceRung) → Bool
provenance_meets_minimum actual required = leb (provenance_index required) (provenance_index actual)

unfoldable pub is_not_applicable : DefinitionRung → Bool
is_not_applicable not_applicable = true
is_not_applicable _ = false

unfoldable pub definition_meets_minimum : (actual required : DefinitionRung) → Bool
definition_meets_minimum actual required =
    if is_not_applicable actual || is_not_applicable required
    then true
    else leb (definition_index required) (definition_index actual)

-- An applicable `CanonFreshnessRequirement`; one that is not applicable asks for nothing.
pub data CanonFreshnessRequirement : Type 0 where
  no_freshness : CanonFreshnessRequirement
  max_age : Number → Option FreshnessBindingClock → CanonFreshnessRequirement

pub record EvidenceRoleRequirement : Type 0 where
  pub role : String
  pub provenance : Option ProvenanceRung
  pub definition : Option DefinitionRung
  pub freshness : Option CanonFreshnessRequirement
  pub requires_conformant_provider : Option Bool

pub record CanonPolicyDocument : Type 0 where
  pub decision_system : String
  pub requires_evidence : List EvidenceRoleRequirement

pub data FailureCode : Type 0 where
  provenance_below_minimum definition_below_minimum freshness_required freshness_stale : FailureCode
  provider_not_conformant role_snapshot_missing : FailureCode

pub record CanonEvaluationFailure : Type 0 where
  pub code : FailureCode
  pub role : String

pub record RoleEvaluationInput : Type 0 where
  pub qualification : QualificationVector
  pub provider_id : Option String
  pub conformance_suite_version : Option String
  pub provider_conformant : Option Bool
  pub evaluated_at : Option String

pub record RoleEvaluationResult : Type 0 where
  pub role : String
  pub satisfied : Bool
  pub failures : List CanonEvaluationFailure

pub record CanonPolicyEvaluationResult : Type 0 where
  pub decision_system : String
  pub satisfied : Bool
  pub roles : List RoleEvaluationResult

abbrev pub or_text : Option String → String → String
or_text none b = b
or_text (some a) b = a

unfoldable pub clock_or :
    Option FreshnessBindingClock → Option FreshnessBindingClock → FreshnessBindingClock
clock_or none none = value_as_of
clock_or none (some own) = own
clock_or (some clock) own = clock

unfoldable pub freshness_binding_timestamp : Freshness → Option FreshnessBindingClock → String
freshness_binding_timestamp f clock = elim (clock_or clock f.binding_clock) [
  | snapshot_frozen_at ↦ f.frozen_at
  | source_data_freshness ↦ or_text f.source_freshness f.as_of
  | value_as_of ↦ f.as_of
]

-- `Math.max(0, evaluated - binding)`, which is infinite where a date does not parse.
unfoldable pub age_between : Option ℤ → Option ℤ → Number
age_between (some evaluated) (some binding) = number (monus evaluated binding)
age_between _ _ = pos_inf

unfoldable pub freshness_age_ms :
    Platform → Freshness → (evaluated_at : String) → Option FreshnessBindingClock → Number
freshness_age_ms p f evaluated_at clock =
    age_between (p.parse_date evaluated_at) (p.parse_date (freshness_binding_timestamp f clock))

-- The truthiness of an optional text.
unfoldable pub is_present : Option String → Bool
is_present none = false
is_present (some s) = not (s == "")

unfoldable pub is_conformant_provider : RoleEvaluationInput → Bool
is_conformant_provider input = elim input.provider_conformant [
  | some b ↦ b
  | none ↦ is_present input.provider_id && is_present input.conformance_suite_version
]

abbrev pub failure : Bool → FailureCode → String → List CanonEvaluationFailure
failure fine c role = if fine then [] else record { code = c; role = role } ∷ []

unfoldable pub evaluate_provenance :
    String → Option ProvenanceRung → ProvenanceRung → List CanonEvaluationFailure
evaluate_provenance role none actual = []
evaluate_provenance role (some required) actual =
    failure (provenance_meets_minimum actual required) provenance_below_minimum role

unfoldable pub evaluate_definition :
    String → Option DefinitionRung → DefinitionRung → List CanonEvaluationFailure
evaluate_definition role none actual = []
evaluate_definition role (some required) actual =
    failure (definition_meets_minimum actual required) definition_below_minimum role

unfoldable pub evaluate_freshness :
    Platform
    → String
    → Option CanonFreshnessRequirement
    → (evaluated_at : Option String) → Option Freshness
    → List CanonEvaluationFailure
evaluate_freshness p role none evaluated_at actual = []
evaluate_freshness p role (some no_freshness) evaluated_at actual = []
evaluate_freshness p role (some (max_age ms clock)) evaluated_at none =
    failure false freshness_required role
evaluate_freshness p role (some (max_age ms clock)) evaluated_at (some f) =
    failure (ge_number ms (freshness_age_ms p f (or_text evaluated_at f.frozen_at) clock))
      freshness_stale role

abbrev pub is_flagged : Option Bool → Bool
is_flagged none = false
is_flagged (some b) = b

unfoldable pub evaluate_conformance :
    String → Option Bool → RoleEvaluationInput → List CanonEvaluationFailure
evaluate_conformance role required input =
    failure (not (is_flagged required) || is_conformant_provider input) provider_not_conformant role

unfoldable pub evaluate_role_requirement :
    Platform → EvidenceRoleRequirement → RoleEvaluationInput → RoleEvaluationResult
evaluate_role_requirement p r input =
    let q = input.qualification in
    let failures =
      evaluate_provenance r.role r.provenance q.provenance
      ++ (evaluate_definition r.role r.definition q.definition
          ++ (evaluate_freshness p r.role r.freshness input.evaluated_at q.freshness
              ++ evaluate_conformance r.role r.requires_conformant_provider input)) in
    record { role = r.role; satisfied = is_empty failures; failures = failures }

unfoldable pub evaluate_requirement :
    Platform → Dict RoleEvaluationInput → EvidenceRoleRequirement → RoleEvaluationResult
evaluate_requirement p snapshots_by_role r = elim (get r.role snapshots_by_role) [
  | none ↦ record {
    role = r.role;
    satisfied = false;
    failures = failure false role_snapshot_missing r.role;
  }
  | some input ↦ evaluate_role_requirement p r input
]

unfoldable pub evaluate_canon_policy :
    Platform → CanonPolicyDocument → Dict RoleEvaluationInput → CanonPolicyEvaluationResult
evaluate_canon_policy p policy snapshots_by_role =
    let roles = map (evaluate_requirement p snapshots_by_role) policy.requires_evidence in
    record {
      decision_system = policy.decision_system;
      satisfied = all (λ (r : RoleEvaluationResult). r.satisfied) roles;
      roles = roles;
    }
