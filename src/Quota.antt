-- ===== src/Quota.antt =====
-- packages/entitlements-iface: the checks of a tenant's entitlements
-- (entitlements-iface/src/quota.ts, types.ts, memory-adapter.ts). Times are whole milliseconds, so
-- `ts >= now - 60_000` is written without subtraction. A denied call is `false`.
pub mod Window
pub mod Sliding
use loop_engine.Prelude.{
  ℕ, ◌+◌, Bool, true, false, ◌&&◌, not, String, Option, none, some, List, [], ◌∷◌, ◌++◌, Dict, get,
  put, filter, leb, ltb, length, if◌then◌else◌,
}
use loop_engine.Core.{Number, number, ge_number, Value, object, boolean, object_of}

-- `EntitlementsSnapshot`, without its two dates.
pub record EntitlementsSnapshot : Type 0 where
  pub organization_id : String
  pub pack_key : String
  pub pack_version : Number
  pub snapshot_json : Value
  pub tier : Number

-- `Partial<EntitlementsSnapshot>`.
pub record Override : Type 0 where
  pub organization_id : Option String
  pub pack_key : Option String
  pub pack_version : Option Number
  pub snapshot_json : Option Value
  pub tier : Option Number

-- `MemoryEntitlementsAdapter`, with its defaults filled in.
pub record MemoryEntitlements : Type 0 where
  pub tier : Number
  pub pack_key : String
  pub pack_version : Number
  pub overrides : Dict Override

abbrev pub default_of {ℓ} : {A : Type ℓ} → A → Option A → A
default_of a none = a
default_of a (some b) = b

unfoldable pub memory_entitlements :
    (tier : Option Number)
    → (pack_key : Option String) → (pack_version : Option Number)
    → (overrides : Option (Dict Override)) → MemoryEntitlements
memory_entitlements tier pack_key pack_version overrides = record {
  tier = default_of (number 1) tier;
  pack_key = default_of "self-host" pack_key;
  pack_version = default_of (number 1) pack_version;
  overrides = default_of [] overrides;
}

unfoldable pub overridden : EntitlementsSnapshot → Option Override → EntitlementsSnapshot
overridden s none = s
overridden s (some v) = record {
  organization_id = default_of s.organization_id v.organization_id;
  pack_key = default_of s.pack_key v.pack_key;
  pack_version = default_of s.pack_version v.pack_version;
  snapshot_json = default_of s.snapshot_json v.snapshot_json;
  tier = default_of s.tier v.tier;
}

-- `getEntitlements`.
unfoldable pub get_entitlements : MemoryEntitlements → (tenant_id : String) → EntitlementsSnapshot
get_entitlements m tenant_id =
    overridden
      (record {
        organization_id = tenant_id;
        pack_key = m.pack_key;
        pack_version = m.pack_version;
        snapshot_json = object (
            object_of
              (("features", object (object_of (("hosted_loops", boolean true) ∷ []))) ∷ []));
        tier = m.tier;
      })
      (get tenant_id m.overrides)

-- `assertRuntimeAllowed`: false where it throws.
unfoldable pub runtime_allowed : EntitlementsSnapshot → Bool
runtime_allowed s = not (ge_number (number 0) s.tier)

-- `tier === n`.
abbrev same_number : Number → Number → Bool
same_number a b = ge_number a b && ge_number b a

unfoldable pub transitions_per_minute_for_tier : Number → ℕ
transitions_per_minute_for_tier tier =
    if ge_number tier (number 3) then 1000 else if same_number tier (number 2) then 300 else 60

abbrev pub Windows : Type 0
Windows = Dict (List ℕ)

abbrev pub hits : Option (List ℕ) → List ℕ
hits none = []
hits (some ts) = ts

-- The hits of a tenant.
abbrev pub window : String → Windows → List ℕ
window tenant windows = hits (get tenant windows)

-- `ts >= windowStart` for a call at `now`.
abbrev pub is_recent : ℕ → ℕ → Bool
is_recent now ts = leb now (ts + 60000)

unfoldable pub record_transition_within_limit :
    (tenant_id : String) → EntitlementsSnapshot → Windows → (now : ℕ) → Bool × Windows
record_transition_within_limit tenant_id snapshot windows now =
    let recent = filter (is_recent now) (window tenant_id windows) in
    if leb (transitions_per_minute_for_tier snapshot.tier) (length recent)
    then (false, put tenant_id recent windows)
    else (true, put tenant_id (recent ++ now ∷ []) windows)
