-- ===== src/Canon/Policy.antt =====
-- When a policy is satisfied (canon/src/evaluate.ts).
use loop_engine.Prelude.{
  ◌≡◌, refl, sym, subst, ◌↔◌, inl, inr, Bool, true, false, String, Option, none, some, List, [],
  ◌∷◌, map, all, Dict, get, is_empty, append_nil_iff, In, &&-true, true_&&, some-injective,
}
use loop_engine.Core.{Platform, Number, ge_number}
use loop_engine.Canon.{
  FreshnessBindingClock, Freshness, CanonFreshnessRequirement, no_freshness, max_age,
  EvidenceRoleRequirement, CanonPolicyDocument, FailureCode, CanonEvaluationFailure,
  RoleEvaluationInput, RoleEvaluationResult, freshness_binding_timestamp, freshness_age_ms, or_text,
  is_conformant_provider, failure, evaluate_freshness, evaluate_conformance,
  evaluate_role_requirement, evaluate_requirement, evaluate_canon_policy, role_snapshot_missing,
}
use loop_engine.Canon.Requirements.{
  iff_trans, failure_iff, MeetsProvenance, evaluate_provenance_iff, MeetsDefinition,
  evaluate_definition_iff, CountsFrom, freshness_binding_timestamp_iff, IsConformant,
  is_conformant_provider_iff, Fresh, age_between_iff,
}

module _ (p : Platform) where
  -- The snapshot has a freshness, and is fresh enough at the time of evaluation.
  abbrev pub MeetsFreshness :
      Option CanonFreshnessRequirement → (evaluated_at : Option String) → Option Freshness → Type 0
  MeetsFreshness none evaluated_at actual = Unit
  MeetsFreshness (some no_freshness) evaluated_at actual = Unit
  MeetsFreshness (some (max_age ms clock)) evaluated_at none = ⊥
  MeetsFreshness (some (max_age ms clock)) evaluated_at (some f) =
      (t : String) × CountsFrom clock f.binding_clock f t
      × Fresh p ms (or_text evaluated_at f.frozen_at) t

  age_iff :
      (ms : Number) (clock : Option FreshnessBindingClock) (evaluated : String) (f : Freshness)
      → (ge_number ms (freshness_age_ms p f evaluated clock) ≡ true)
        ↔ ((t : String) × CountsFrom clock f.binding_clock f t × Fresh p ms evaluated t)
  unfolding freshness_age_ms
  age_iff ms clock evaluated f =
      let parsed = λ (t : String). age_between_iff p ms (p.parse_date evaluated) (p.parse_date t) in
      (
        λ h. (
          freshness_binding_timestamp f clock,
          (freshness_binding_timestamp_iff f clock _).0 refl,
          (parsed _).0 h,
        ),
        λ (t, from, fresh). (parsed _).1 (
            subst (Fresh p ms evaluated) ((freshness_binding_timestamp_iff f clock t).1 from)
              fresh),
      )

  evaluate_freshness_iff :
      (role : String) (required : Option CanonFreshnessRequirement) (evaluated_at : Option String)
      (actual : Option Freshness)
      → (evaluate_freshness p role required evaluated_at actual ≡ [])
        ↔ MeetsFreshness required evaluated_at actual
  unfolding evaluate_freshness
  evaluate_freshness_iff role none evaluated_at actual = (λ h. tt, λ h. refl)
  evaluate_freshness_iff role (some no_freshness) evaluated_at actual = (λ h. tt, λ h. refl)
  evaluate_freshness_iff role (some (max_age ms clock)) evaluated_at none =
      (λ h. cc, λ h. elim h [ ])
  evaluate_freshness_iff role (some (max_age ms clock)) evaluated_at (some f) =
      iff_trans (failure_iff _ _ role) (age_iff ms clock (or_text evaluated_at f.frozen_at) f)

  -- The snapshot meets every requirement of the role.
  pub record Meets (r : EvidenceRoleRequirement) (input : RoleEvaluationInput) : Type 0 where
    pub provenance : MeetsProvenance r.provenance input.qualification.provenance
    pub definition : MeetsDefinition r.definition input.qualification.definition
    pub freshness : MeetsFreshness r.freshness input.evaluated_at input.qualification.freshness
    pub conformance : r.requires_conformant_provider ≡ some true → IsConformant input

  empty_iff : (fs : List CanonEvaluationFailure) → (is_empty fs ≡ true) ↔ (fs ≡ [])
  empty_iff [] = (λ h. refl, λ h. refl)
  empty_iff (f ∷ fs) = (λ h. cc, λ h. cc)

  evaluate_conformance_iff :
      (role : String) (required : Option Bool) (input : RoleEvaluationInput)
      → (evaluate_conformance role required input ≡ [])
        ↔ (required ≡ some true → IsConformant input)
  unfolding evaluate_conformance
  evaluate_conformance_iff role none input = (λ h e. cc, λ h. refl)
  evaluate_conformance_iff role (some false) input = (λ h e. cc, λ h. refl)
  evaluate_conformance_iff role (some true) input =
      let conformant = is_conformant_provider_iff input in
      let passes =
        failure_iff (is_conformant_provider input) FailureCode.provider_not_conformant role in
      (λ h e. conformant.0 (passes.0 h), λ h. passes.1 (conformant.1 (h refl)))

  role_iff :
      (r : EvidenceRoleRequirement) (input : RoleEvaluationInput)
      → ((evaluate_role_requirement p r input).satisfied ≡ true) ↔ Meets r input
  unfolding evaluate_role_requirement
  role_iff r input = (
    λ h.
        let (e1, h1) = (append_nil_iff _ _).0 ((empty_iff _).0 h) in
        let (e2, h2) = (append_nil_iff _ _).0 h1 in
        let (e3, e4) = (append_nil_iff _ _).0 h2 in
        record {
          provenance = (evaluate_provenance_iff r.role _ _).0 e1;
          definition = (evaluate_definition_iff r.role _ _).0 e2;
          freshness = (evaluate_freshness_iff r.role _ _ _).0 e3;
          conformance = (evaluate_conformance_iff r.role _ _).0 e4;
        },
    λ m. (empty_iff _).1 (
        (append_nil_iff _ _).1 (
          (evaluate_provenance_iff r.role _ _).1 m.provenance,
          (append_nil_iff _ _).1 (
            (evaluate_definition_iff r.role _ _).1 m.definition,
            (append_nil_iff _ _).1 (
              (evaluate_freshness_iff r.role _ _ _).1 m.freshness,
              (evaluate_conformance_iff r.role _ _).1 m.conformance,
            ),
          ),
        )),
  )

  module _ (snapshots_by_role : Dict RoleEvaluationInput) where
    requirement_iff :
        (r : EvidenceRoleRequirement)
        → ((evaluate_requirement p snapshots_by_role r).satisfied ≡ true) ↔ (
            (input : RoleEvaluationInput) × (get r.role snapshots_by_role ≡ some input)
            × Meets r input)
    unfolding evaluate_requirement
    requirement_iff r = go (get r.role snapshots_by_role)
      where
        result : Option RoleEvaluationInput → RoleEvaluationResult
        result found = elim found [
          | none ↦ record {
            role = r.role;
            satisfied = false;
            failures = failure false role_snapshot_missing r.role;
          }
          | some input ↦ evaluate_role_requirement p r input
        ]

        go :
            (found : Option RoleEvaluationInput)
            → ((result found).satisfied ≡ true)
              ↔ ((input : RoleEvaluationInput) × (found ≡ some input) × Meets r input)
        go none = (λ h. cc, λ (input, e, m). cc)
        go (some input) = (
          λ h. (input, refl, (role_iff r input).0 h),
          λ (input', e, m). (role_iff r input).1 (subst (Meets r) (sym (some-injective _ _ e)) m),
        )

    all_iff :
        (rs : List EvidenceRoleRequirement)
        → (all
              (λ (x : RoleEvaluationResult). x.satisfied)
              (map (evaluate_requirement p snapshots_by_role) rs)
            ≡ true)
          ↔ ((r : EvidenceRoleRequirement)
              → In r rs
              → (input : RoleEvaluationInput) × (get r.role snapshots_by_role ≡ some input)
                × Meets r input)
    unfolding all
    all_iff [] = (λ h r m. elim m [ ], λ h. refl)
    all_iff (x ∷ rs) = (
      λ h.
          let (own, rest) = &&-true _ _ h in
          λ r m. elim m [
            | inl same ↦
                subst
                  (λ (y : EvidenceRoleRequirement).
                    (input : RoleEvaluationInput) × (get y.role snapshots_by_role ≡ some input)
                    × Meets y input)
                  same ((requirement_iff x).0 own)
            | inr m' ↦ (all_iff rs).0 rest r m'
          ],
      λ h. true_&& ((requirement_iff x).1 (h x (inl refl))) ((all_iff rs).1 (λ r m. h r (inr m))),
    )

    -- A policy is satisfied exactly where each role that it names has a snapshot that meets the
    -- requirement, as far as the requirement speaks of it: its provenance is on the required rung or
    -- above; its definition is too, or it or the required one is not applicable; it is fresh enough;
    -- and its provider is conformant.
    pub evaluate_canon_policy_iff :
        (policy : CanonPolicyDocument)
        → ((evaluate_canon_policy p policy snapshots_by_role).satisfied ≡ true) ↔ (
            (r : EvidenceRoleRequirement)
            → In r policy.requires_evidence
            → (input : RoleEvaluationInput) × (get r.role snapshots_by_role ≡ some input)
              × Meets r input)
    unfolding evaluate_canon_policy
    evaluate_canon_policy_iff policy = all_iff policy.requires_evidence
