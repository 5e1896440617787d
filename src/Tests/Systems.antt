-- ===== src/Tests/Systems.antt =====
-- Keys in a database, the gate of the writes, initial states and a created system on concrete inputs.
use loop_engine.Prelude.{
  ℕ, ◌<◌, ◌≡◌, ◌⊎◌, refl, Bool, true, false, String, Option, none, some, [], ◌∷◌, In, arith, filter,
  any, all, contains, get, put, values, if◌then◌else◌, subst, some-injective,
}
use loop_engine.Prelude.Int.{leb_ℤ}
use loop_engine.Core.{
  str, object, object_of, fields, read, number, ge_number, Attributes, LoopDefinition, LoopInstance,
  flag,
}
use loop_engine.Auth.{
  identified, extract_bearer_token, token_of, before_space, after_space, nonblank,
  is_loop_engine_api_key_token, key_body, hex_body, is_hex, normalize_loop_api_key_token,
  hash_loop_api_key, loop_engine_api_key_prefix,
}
use loop_engine.Auth.{RuntimeIdentity}
use loop_engine.Redaction.{lower_code}
use loop_engine.Quota.{
  EntitlementsSnapshot, runtime_allowed, record_transition_within_limit,
  transitions_per_minute_for_tier,
}
use loop_engine.Service.{returned}
use loop_engine.Service.DbAuth.{
  LoopEngineApiKey, ApiKeyTable, FindsMatches, Backs, hash_of, is_primary, grace_expired,
  accept_primary, accept_key, db_authenticate_token, db_authenticate, answered, identity_from_row,
  db_authenticate_lem,
}
use loop_engine.Service.InitialState.{
  initial_state_from_xstate_like, all_targets, spec_targets, add_targets, trimmed, keys_of,
  first_source, initial_state_from_xstate_like_lem,
}
use loop_engine.Routes.{
  error, Request, given, WriteContext, Site, Handler, within_quota, after_quota, run_handler,
  with_entitlements, with_identity, with_persisted_run_write,
}
use loop_engine.Routes.Gate.{status_of}
use loop_engine.Routes.Limit.{Write, perform, run, successes, with_persisted_run_write_admits}
use loop_engine.Runtime.World.{World, Options}
use loop_engine.Runtime.Life.{Life}
use loop_engine.Store.Memory.{MemoryStore, memory_store}
use loop_engine.Trace.Memory.{MemoryTraceStore}
use loop_engine.Service.{PersistedLoopInstance}
use loop_engine.Service.Traced.{memory_trace_store}
use loop_engine.Validator.{
  add, terminal_states, graph_from, weight, search, has_path_to_terminal, cycles_with, cycles_from,
  duplicates, has_duplicates, transition_errors, completion_errors, lacks_metrics,
  validate_loop_definition,
}
use loop_engine.Validator.Valid.{declared}
use loop_engine.Sdk.{
  CreateLoopSystemOptions, create_loop_system, engine_options, merge_definitions, merge_into,
  registry_loops,
}
use loop_engine.Sdk.System.{last_of, preferring, create_loop_system_lem}
use loop_engine.Tests.Data.{platform, definition}
use loop_engine.Tests.Plain.{quiet}
use loop_engine.Tests.Serving.{identity, server, one_row}

abbrev plain_key : String
plain_key = "le_0123456789abcdef0123456789abcdef"

abbrev key_row : LoopEngineApiKey
key_row = record {
  id = "k1";
  tenant_id = "acme";
  status = "ACTIVE";
  key_hash = plain_key;
  grace_key_hash = none;
  grace_expires_at = none;
}

abbrev keys : ApiKeyTable Bool
keys = record {
  find_first = λ test d. if test key_row then some key_row else none;
  clear_grace = λ id d. (true, d);
  touch = λ id at d. d;
}

keys-match : FindsMatches platform keys
keys-match test d row h = go (test key_row) refl h
  where
    go :
        (b : Bool)
        → test key_row ≡ b
        → (if b then some key_row else none) ≡ some row
        → test row ≡ true
    go true e same = subst (λ x. test x ≡ true) (some-injective key_row row same) e
    go false e same = cc same

identified_key :
    (db_authenticate platform keys
      (some "Bearer le_0123456789abcdef0123456789abcdef")
      (number 0)
      (number 0)
      false).0
    ≡ answered (identified (identity_from_row key_row))
unfolding db_authenticate db_authenticate_token accept_key accept_primary grace_expired is_primary
    hash_of hash_loop_api_key normalize_loop_api_key_token is_loop_engine_api_key_token key_body
    hex_body is_hex lower_code loop_engine_api_key_prefix extract_bearer_token token_of before_space
    after_space nonblank identity_from_row
identified_key = refl

db_authenticate_lem_example :
    (token : String) × (extract_bearer_token platform
        (some "Bearer le_0123456789abcdef0123456789abcdef")
      ≡ some token)
    × (is_loop_engine_api_key_token platform token ≡ true)
    × Backs platform keys (hash_of platform keys token) (number 0) (identity_from_row key_row)
db_authenticate_lem_example =
    db_authenticate_lem platform keys (some "Bearer le_0123456789abcdef0123456789abcdef") (number 0)
      (number 0) false (identity_from_row key_row) keys-match identified_key

abbrev entitled : EntitlementsSnapshot
entitled = record {
  organization_id = "acme";
  pack_key = "self-host";
  pack_version = number 1;
  snapshot_json = object (object_of []);
  tier = number 1;
}

abbrev ctx : WriteContext MemoryStore MemoryTraceStore (Option PersistedLoopInstance)
ctx = record {
  authenticate = λ header. given identity;
  entitlements_of = λ tenant. given entitled;
  loop_instance_repository = one_row;
  engine_for_tenant = λ tenant. quiet;
  trace_store_for_tenant = λ tenant. memory_trace_store;
  resolve_loop_definition = λ tenant loop_id. none;
}

abbrev get_request : Request
get_request = record { authorization = none; json = none }

abbrev site : Site MemoryStore MemoryTraceStore (Option PersistedLoopInstance)
site = record { server = server; windows = [] }

abbrev handler : Handler MemoryStore MemoryTraceStore (Option PersistedLoopInstance)
handler caller s = (returned (error 200 "done"), s)

abbrev denial : EntitlementsSnapshot → String
denial s = "denied"

abbrev write_at : ℕ → Write MemoryStore MemoryTraceStore (Option PersistedLoopInstance)
write_at n = record { request = get_request; now = n; handler = handler }

low :
    status_of (perform ctx denial (write_at 5) (run ctx denial (write_at 3 ∷ []) site []).0).0 < 400
unfolding with_persisted_run_write with_identity with_entitlements within_quota after_quota
    run_handler record_transition_within_limit runtime_allowed transitions_per_minute_for_tier
    ge_number number leb_ℤ get filter put perform
low = ground arith

with_persisted_run_write_admits_example :
    let before = run ctx denial (write_at 3 ∷ []) site [] in
    (caller : RuntimeIdentity) × (snapshot : EntitlementsSnapshot) × (given identity ≡ given caller)
    × (given entitled ≡ given snapshot)
    × (ge_number (number 0) snapshot.tier ≡ false)
    × (successes caller.tenant_id 5 before.1 < transitions_per_minute_for_tier snapshot.tier)
    × (
      (perform ctx denial (write_at 5) before.0).0,
      (perform ctx denial (write_at 5) before.0).1.server,
    )
      ≡ handler caller before.0.server
with_persisted_run_write_admits_example =
    with_persisted_run_write_admits ctx denial (write_at 3 ∷ []) (write_at 5) site refl
      (ground arith, ground arith) low

abbrev machine : Attributes
machine =
    ("done", object (object_of []))
    ∷ ("new", object (object_of (("on", object (object_of (("finish", str "done") ∷ []))) ∷ [])))
    ∷ []

enters_new : initial_state_from_xstate_like platform machine ≡ some "new"
unfolding initial_state_from_xstate_like all_targets spec_targets add_targets trimmed keys_of
    first_source fields object_of read get contains
enters_new = refl

initial_state_from_xstate_like_lem_example :
    In "new" (keys_of platform machine)
    × ((¬ In "new" (all_targets platform machine []))
        ⊎ ((k : String) → In k (keys_of platform machine) → In k (all_targets platform machine [])))
initial_state_from_xstate_like_lem_example =
    initial_state_from_xstate_like_lem platform machine "new" enters_new

abbrev system_options : CreateLoopSystemOptions MemoryStore
system_options = record {
  loops = definition ∷ [];
  store = memory_store;
  guards = none;
  registry = none;
  snapshot_store = none;
}

abbrev system : Options MemoryStore
system = engine_options platform system_options (definition ∷ [])

created : create_loop_system platform system_options ≡ some system
unfolding create_loop_system merge_definitions merge_into registry_loops values all add
    terminal_states graph_from weight search has_path_to_terminal cycles_with cycles_from duplicates
    has_duplicates transition_errors completion_errors lacks_metrics validate_loop_definition
    contains get put any flag filter
created = refl

create_loop_system_lem_example :
    ((id : String)
      → system.definition_of id
        ≡ preferring (last_of id (definition ∷ [])) (last_of id (registry_loops none)))
    × ((a : String) (d : LoopDefinition) (w : World MemoryStore) (i : LoopInstance)
        → Life system a d w
        → system.store.get_instance w.store a ≡ some i
        → In i.current_state (declared d))
create_loop_system_lem_example = create_loop_system_lem platform system_options system created
