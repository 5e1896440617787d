-- ===== src/Tests/Checks.antt =====
-- Quotas, policies, redaction and keys on concrete inputs.
use Prim.Native.Char.{code}
use loop_engine.Prelude.{
  zero, suc, ◌<◌, ◌⊎◌, Bool-cases, inl, inr, ltb, if◌then◌else◌, ℕ, ◌≤◌, ◌≡◌, ◌↔◌, refl, true,
  String, none, some, [], ◌∷◌, In, get, contains, arith,
}
use loop_engine.Prelude.Int.{leb_ℤ}
use loop_engine.Core.{Platform, str, number, ge_number, object, object_of, Attributes}
use loop_engine.Canonical.{utf16, code_units}
use loop_engine.Quota.{
  EntitlementsSnapshot, transitions_per_minute_for_tier, record_transition_within_limit,
}
use loop_engine.Quota.Sliding.{
  Request, answers, expected, answers-eq-expected, IsBounded, record_transition-IsBounded,
}
use loop_engine.Canon.{
  CanonPolicyDocument, EvidenceRoleRequirement, RoleEvaluationInput, evaluate_canon_policy,
  origin_attested, certified, source_data_freshness, max_age,
}
use loop_engine.Canon.Policy.{Meets, evaluate_canon_policy_iff}
use loop_engine.Redaction.{text_length, truncated, guard_evidence, lower_code}
use loop_engine.Redaction.Safe.{truncated_lem}
use loop_engine.Redaction.Masked.{Clean, Kept, Masked, Harmless, guard_evidence_lem}
use loop_engine.Auth.{
  MemoryApiKeyRecord, MemoryAuth, register_api_key, authenticate, identified, identity_of, hex_body,
  is_hex, generate_plain_loop_api_key,
}
use loop_engine.Auth.RoundTrip.{bearer, register_api_key-authenticates}
use loop_engine.Tests.Data.{platform}

abbrev entitled : EntitlementsSnapshot
entitled = record {
  organization_id = "acme";
  pack_key = "self-host";
  pack_version = number 1;
  snapshot_json = object (object_of []);
  tier = number 2;
}

abbrev call : ℕ → Request
call n = record { tenant_id = "acme"; snapshot = entitled; now = n }

answers-eq-expected_example :
    answers (call 5 ∷ call 70000 ∷ []) [] ≡ expected (call 5 ∷ call 70000 ∷ []) []
answers-eq-expected_example =
    answers-eq-expected (call 5 ∷ call 70000 ∷ []) (ground arith, (ground arith, tt))

tier_limit : transitions_per_minute_for_tier entitled.tier ≤ 300
unfolding transitions_per_minute_for_tier ge_number leb_ℤ number
tier_limit = ground arith

no_calls : IsBounded 300 []
unfolding get
no_calls tenant = ground arith

record_transition-IsBounded_example :
    IsBounded 300 (record_transition_within_limit "acme" entitled [] 5).1
record_transition-IsBounded_example =
    record_transition-IsBounded 300 (call 5) [] tier_limit no_calls

abbrev seen : RoleEvaluationInput
seen = record {
  qualification = record {
    provenance = origin_attested;
    definition = certified;
    freshness = some (record {
      frozen_at = "2026-01-02";
      as_of = "2026-01-01";
      source_freshness = none;
      binding_clock = some source_data_freshness;
    });
  };
  provider_id = some "bureau";
  conformance_suite_version = some "1";
  provider_conformant = none;
  evaluated_at = none;
}

abbrev wanted : EvidenceRoleRequirement
wanted = record {
  role = "income";
  provenance = some origin_attested;
  definition = some certified;
  freshness = some (max_age (number 5) none);
  requires_conformant_provider = some true;
}

abbrev policy : CanonPolicyDocument
policy = record { decision_system = "credit"; requires_evidence = wanted ∷ [] }

evaluate_canon_policy_iff_example :
    ((evaluate_canon_policy platform policy (("income", seen) ∷ [])).satisfied ≡ true) ↔ (
      (r : EvidenceRoleRequirement)
      → In r (wanted ∷ [])
      → (input : RoleEvaluationInput) × (get r.role (("income", seen) ∷ []) ≡ some input)
        × Meets platform r input)
evaluate_canon_policy_iff_example =
    evaluate_canon_policy_iff platform (("income", seen) ∷ []) policy

abbrev noted : Attributes
noted = ("email", str "a@b") ∷ ("note", str "hi") ∷ []

-- `slice(0, n)` on the code units of a text; half of a surrogate pair is shown as a question mark.
abbrev first_units : String → ℕ → String
first_units String.[] n = ""
first_units (String.◌∷◌ c s) zero = ""
first_units (String.◌∷◌ c s) (suc zero) = if ltb (code c) 0x10000 then String.◌∷◌ c "" else "?"
first_units (String.◌∷◌ c s) (suc (suc n)) =
    let one = first_units s (suc n) in
    let two = first_units s n in if ltb (code c) 0x10000 then String.◌∷◌ c one else String.◌∷◌ c two

first_units_length : (s : String) (n : ℕ) → n ≤ text_length s → text_length (first_units s n) ≡ n
unfolding text_length utf16 code_units
first_units_length String.[] n h = ground arith
first_units_length (String.◌∷◌ c s) zero h = refl
first_units_length (String.◌∷◌ c s) (suc zero) h = elim (Bool-cases (ltb (code c) 0x10000)) [
  | inl e ↦ rw (e, e) refl
  | inr e ↦ rw e refl
]
first_units_length (String.◌∷◌ c s) (suc (suc n)) h =
    ground (arith, first_units_length s (suc n), first_units_length s n)

abbrev cutting : Platform
cutting = record platform { slice = first_units }

abbrev repeated : ℕ → String
repeated zero = ""
repeated (suc n) = String.◌∷◌ "x" (repeated n)

truncated_lem_example :
    ((text_length (repeated 600) ≤ 512) × (truncated cutting (repeated 600) ≡ repeated 600))
    ⊎ ((512 < text_length (repeated 600)) × (text_length (truncated cutting (repeated 600)) ≡ 524))
truncated_lem_example = truncated_lem cutting first_units_length (repeated 600)

abbrev mask : String → String
mask s = if contains s ("sk-1" ∷ []) then "[REDACTED]" else s

guard_evidence_lem_example :
    Clean
      (Kept platform ("email" ∷ []) (mask ∷ []))
      (Masked platform ("email" ∷ []) (mask ∷ []))
      (guard_evidence platform ("email" ∷ []) (mask ∷ []) (object (object_of noted)))
    × (Clean
          (Kept platform ("email" ∷ []) (mask ∷ []))
          (Harmless platform ("email" ∷ []) (mask ∷ []))
          (object (object_of noted))
        → guard_evidence platform ("email" ∷ []) (mask ∷ []) (object (object_of noted))
          ≡ object (object_of noted))
guard_evidence_lem_example =
    guard_evidence_lem platform ("email" ∷ []) (mask ∷ []) (object (object_of noted))

abbrev digits : String
digits = "0123456789abcdef0123456789abcdef"

abbrev key_record : MemoryApiKeyRecord
key_record = record {
  token = generate_plain_loop_api_key platform digits;
  tenant_id = "acme";
  api_key_id = "k1";
  actor_id = none;
}

digits_fit : hex_body 32 digits ≡ true
unfolding hex_body is_hex lower_code
digits_fit = refl

register_api_key-authenticates_example :
    (after : MemoryAuth) × (register_api_key platform key_record [] ≡ some after)
    × (authenticate platform after (some (bearer key_record.token))
        ≡ identified (identity_of key_record))
register_api_key-authenticates_example =
    register_api_key-authenticates platform digits key_record [] (λ s solid. refl) digits_fit refl
