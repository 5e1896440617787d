-- ===== src/Canon/Requirements.antt =====
-- What a requirement asks of a snapshot, without the code's tests (canon/src/evaluate.ts,
-- canon/src/freshness.ts, evidence/src/qualification.ts).
use loop_engine.Prelude.{
  ◌≡◌, refl, sym, ap, ◌∙◌, ◌↔◌, ◌⊎◌, inl, inr, Bool, true, false, ◌&&◌, String, Option, none, some,
  [], &&-true, true_&&, some-injective, Bool-cases, eq_iff, ◌==◌,
}
use loop_engine.Prelude.Int.{ℤ, monus}
use loop_engine.Core.{Platform, Number, nan, pos_inf, neg_inf, fin, number, ge_number}
use loop_engine.Canon.{
  ProvenanceRung, unknown, system_attested, origin_attested, DefinitionRung, not_applicable,
  unreviewed, certified, governed, FreshnessBindingClock, snapshot_frozen_at, value_as_of,
  source_data_freshness, Freshness, FailureCode, RoleEvaluationInput, provenance_index,
  definition_index, provenance_meets_minimum, is_not_applicable, definition_meets_minimum, clock_or,
  freshness_binding_timestamp, age_between, or_text, is_present, is_conformant_provider, failure,
  evaluate_provenance, evaluate_definition,
}

pub iff_trans : {A B C : Type 0} → A ↔ B → B ↔ C → A ↔ C
iff_trans f g = (λ a. g.0 (f.0 a), λ c. f.1 (g.1 c))

pub failure_iff :
    (fine : Bool) (c : FailureCode) (role : String) → (failure fine c role ≡ []) ↔ (fine ≡ true)
failure_iff true c role = (λ h. refl, λ h. refl)
failure_iff false c role = (λ h. cc, λ h. cc)

-- `actual` is on the rung `required` or above.
abbrev Reaches : (required actual : ProvenanceRung) → Type 0
Reaches unknown actual = Unit
Reaches system_attested actual = ¬ (actual ≡ unknown)
Reaches origin_attested actual = actual ≡ origin_attested

provenance_meets_minimum_iff :
    (required actual : ProvenanceRung)
    → (provenance_meets_minimum actual required ≡ true) ↔ Reaches required actual
unfolding provenance_meets_minimum provenance_index
provenance_meets_minimum_iff unknown unknown = (λ h. tt, λ h. refl)
provenance_meets_minimum_iff unknown system_attested = (λ h. tt, λ h. refl)
provenance_meets_minimum_iff unknown origin_attested = (λ h. tt, λ h. refl)
provenance_meets_minimum_iff system_attested unknown = (λ h. cc, λ h. absurd (h refl))
provenance_meets_minimum_iff system_attested system_attested = (λ h e. cc, λ h. refl)
provenance_meets_minimum_iff system_attested origin_attested = (λ h e. cc, λ h. refl)
provenance_meets_minimum_iff origin_attested unknown = (λ h. cc, λ h. cc)
provenance_meets_minimum_iff origin_attested system_attested = (λ h. cc, λ h. cc)
provenance_meets_minimum_iff origin_attested origin_attested = (λ h. refl, λ h. refl)

abbrev pub MeetsProvenance : Option ProvenanceRung → ProvenanceRung → Type 0
MeetsProvenance none actual = Unit
MeetsProvenance (some required) actual = Reaches required actual

pub evaluate_provenance_iff :
    (role : String) (required : Option ProvenanceRung) (actual : ProvenanceRung)
    → (evaluate_provenance role required actual ≡ []) ↔ MeetsProvenance required actual
unfolding evaluate_provenance
evaluate_provenance_iff role none actual = (λ h. tt, λ h. refl)
evaluate_provenance_iff role (some required) actual =
    iff_trans (failure_iff _ _ role) (provenance_meets_minimum_iff required actual)

-- A definition that is not applicable is accepted for every rung, and so is every one where the rung
-- asked for is not applicable; otherwise `actual` is on the rung or above.
abbrev Accepts : (required actual : DefinitionRung) → Type 0
Accepts not_applicable actual = Unit
Accepts unreviewed actual = Unit
Accepts certified actual = ¬ (actual ≡ unreviewed)
Accepts governed actual = (actual ≡ governed) ⊎ (actual ≡ not_applicable)

definition_meets_minimum_iff :
    (required actual : DefinitionRung)
    → (definition_meets_minimum actual required ≡ true) ↔ Accepts required actual
unfolding definition_meets_minimum is_not_applicable definition_index
definition_meets_minimum_iff not_applicable not_applicable = (λ h. tt, λ h. refl)
definition_meets_minimum_iff not_applicable unreviewed = (λ h. tt, λ h. refl)
definition_meets_minimum_iff not_applicable certified = (λ h. tt, λ h. refl)
definition_meets_minimum_iff not_applicable governed = (λ h. tt, λ h. refl)
definition_meets_minimum_iff unreviewed not_applicable = (λ h. tt, λ h. refl)
definition_meets_minimum_iff unreviewed unreviewed = (λ h. tt, λ h. refl)
definition_meets_minimum_iff unreviewed certified = (λ h. tt, λ h. refl)
definition_meets_minimum_iff unreviewed governed = (λ h. tt, λ h. refl)
definition_meets_minimum_iff certified not_applicable = (λ h e. cc, λ h. refl)
definition_meets_minimum_iff certified unreviewed = (λ h. cc, λ h. absurd (h refl))
definition_meets_minimum_iff certified certified = (λ h e. cc, λ h. refl)
definition_meets_minimum_iff certified governed = (λ h e. cc, λ h. refl)
definition_meets_minimum_iff governed not_applicable = (λ h. inr refl, λ h. refl)
definition_meets_minimum_iff governed unreviewed =
    (λ h. cc, λ h. elim h [ inl e ↦ cc | inr e ↦ cc ])
definition_meets_minimum_iff governed certified = (λ h. cc, λ h. elim h [ inl e ↦ cc | inr e ↦ cc ])
definition_meets_minimum_iff governed governed = (λ h. inl refl, λ h. refl)

abbrev pub MeetsDefinition : Option DefinitionRung → DefinitionRung → Type 0
MeetsDefinition none actual = Unit
MeetsDefinition (some required) actual = Accepts required actual

pub evaluate_definition_iff :
    (role : String) (required : Option DefinitionRung) (actual : DefinitionRung)
    → (evaluate_definition role required actual ≡ []) ↔ MeetsDefinition required actual
unfolding evaluate_definition
evaluate_definition_iff role none actual = (λ h. tt, λ h. refl)
evaluate_definition_iff role (some required) actual =
    iff_trans (failure_iff _ _ role) (definition_meets_minimum_iff required actual)

-- The instant of a clock.
abbrev IsTimeOf : FreshnessBindingClock → Freshness → String → Type 0
IsTimeOf snapshot_frozen_at f t = t ≡ f.frozen_at
IsTimeOf value_as_of f t = t ≡ f.as_of
IsTimeOf source_data_freshness f t =
    (f.source_freshness ≡ some t) ⊎ ((f.source_freshness ≡ none) × (t ≡ f.as_of))

-- The instant that the freshness counts from: that of the clock that the requirement names, else of
-- the clock that the freshness names, else of the value.
abbrev pub CountsFrom : (asked own : Option FreshnessBindingClock) → Freshness → String → Type 0
CountsFrom (some clock) own f t = IsTimeOf clock f t
CountsFrom none (some clock) f t = IsTimeOf clock f t
CountsFrom none none f t = t ≡ f.as_of

or_text_iff :
    (a : Option String) (b t : String) → (t ≡ or_text a b) ↔ ((a ≡ some t) ⊎ ((a ≡ none) × (t ≡ b)))
or_text_iff none b t = (λ h. inr (refl, h), λ h. elim h [ inl bad ↦ cc | inr (e, same) ↦ same ])
or_text_iff (some a) b t =
    (λ h. inl (ap some (sym h)), λ h. elim h [ inl same ↦ cc | inr (bad, same) ↦ cc ])

pub freshness_binding_timestamp_iff :
    (f : Freshness) (asked : Option FreshnessBindingClock) (t : String)
    → (t ≡ freshness_binding_timestamp f asked) ↔ CountsFrom asked f.binding_clock f t
unfolding clock_or freshness_binding_timestamp
freshness_binding_timestamp_iff f asked t = go asked f.binding_clock
  where
    go :
        (asked own : Option FreshnessBindingClock)
        → (t ≡ elim (clock_or asked own) [
          | snapshot_frozen_at ↦ f.frozen_at
          | source_data_freshness ↦ or_text f.source_freshness f.as_of
          | value_as_of ↦ f.as_of
        ])
          ↔ CountsFrom asked own f t
    go none none = (λ h. h, λ h. h)
    go none (some snapshot_frozen_at) = (λ h. h, λ h. h)
    go none (some value_as_of) = (λ h. h, λ h. h)
    go none (some source_data_freshness) = or_text_iff f.source_freshness f.as_of t
    go (some snapshot_frozen_at) own = (λ h. h, λ h. h)
    go (some value_as_of) own = (λ h. h, λ h. h)
    go (some source_data_freshness) own = or_text_iff f.source_freshness f.as_of t

-- A provider is conformant when the snapshot says so, or says nothing and names a provider and a
-- version of the conformance suite, neither empty.
abbrev Names : Option String → Type 0
Names text = (s : String) × (text ≡ some s) × ¬ (s ≡ "")

abbrev pub IsConformant : RoleEvaluationInput → Type 0
IsConformant input =
    (input.provider_conformant ≡ some true)
    ⊎ ((input.provider_conformant ≡ none)
        × Names input.provider_id
        × Names input.conformance_suite_version)

is_present_iff : (text : Option String) → (is_present text ≡ true) ↔ Names text
unfolding is_present
is_present_iff none = (λ h. cc, λ (s, e, solid). cc)
is_present_iff (some s) = (
  λ h. (s, refl, λ empty. cc (h, (eq_iff s "").1 empty)),
  λ (s', e, solid). elim (Bool-cases (s == "")) [
    | inl empty ↦ absurd (solid (sym (some-injective _ _ e) ∙ (eq_iff s "").0 empty))
    | inr full ↦ rw full refl
  ],
)

pub is_conformant_provider_iff :
    (input : RoleEvaluationInput) → (is_conformant_provider input ≡ true) ↔ IsConformant input
unfolding is_conformant_provider
is_conformant_provider_iff input = go input.provider_conformant
  where
    named : (is_present input.provider_id ≡ true) ↔ Names input.provider_id
    named = is_present_iff input.provider_id

    versioned :
        (is_present input.conformance_suite_version ≡ true) ↔ Names input.conformance_suite_version
    versioned = is_present_iff input.conformance_suite_version

    go :
        (said : Option Bool)
        → (elim said [
          | some b ↦ b
          | none ↦ is_present input.provider_id && is_present input.conformance_suite_version
        ]
            ≡ true)
          ↔ ((said ≡ some true)
              ⊎ ((said ≡ none) × Names input.provider_id × Names input.conformance_suite_version))
    go (some b) = (λ h. inl (ap some h), λ h. elim h [ inl e ↦ cc | inr (e, n, v) ↦ cc ])
    go none = (
      λ h. let (a, b) = &&-true _ _ h in inr (refl, named.0 a, versioned.0 b),
      λ h. elim h [ inl e ↦ cc | inr (e, n, v) ↦ true_&& (named.1 n) (versioned.1 v) ],
    )

infinite_iff : (ms : Number) → (ge_number ms pos_inf ≡ true) ↔ (ms ≡ pos_inf)
unfolding ge_number
infinite_iff nan = (λ h. cc, λ h. cc)
infinite_iff pos_inf = (λ h. refl, λ h. refl)
infinite_iff neg_inf = (λ h. cc, λ h. cc)
infinite_iff (fin a) = (λ h. cc, λ h. cc)

module _ (p : Platform) where
  -- `ms` is infinite, or both instants are dates and the first is at most `ms` after the second.
  abbrev pub Fresh : (ms : Number) → (evaluated : String) → (binding : String) → Type 0
  Fresh ms evaluated binding =
      (ms ≡ pos_inf)
      ⊎ ((a b : ℤ) × (p.parse_date evaluated ≡ some a)
          × (p.parse_date binding ≡ some b)
          × (ge_number ms (number (monus a b)) ≡ true))

  pub age_between_iff :
      (ms : Number) (evaluated binding : Option ℤ)
      → (ge_number ms (age_between evaluated binding) ≡ true) ↔ (
          (ms ≡ pos_inf)
          ⊎ ((a b : ℤ) × (evaluated ≡ some a)
              × (binding ≡ some b)
              × (ge_number ms (number (monus a b)) ≡ true)))
  unfolding age_between ge_number number
  age_between_iff ms (some a) (some b) = (
    λ h. inr (a, b, refl, refl, h),
    λ h. elim h [
      | inl e ↦ rw e refl
      | inr (a', b', ea, eb, within) ↦ rw (some-injective _ _ ea, some-injective _ _ eb) within
    ],
  )
  age_between_iff ms none b = (
    λ h. inl ((infinite_iff ms).0 h),
    λ h. elim h [ inl e ↦ (infinite_iff ms).1 e | inr (a', b', ea, eb, within) ↦ cc ],
  )
  age_between_iff ms (some a) none = (
    λ h. inl ((infinite_iff ms).0 h),
    λ h. elim h [ inl e ↦ (infinite_iff ms).1 e | inr (a', b', ea, eb, within) ↦ cc ],
  )
