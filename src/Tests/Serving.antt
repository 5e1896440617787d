-- ===== src/Tests/Serving.antt =====
-- The service on concrete inputs: a loop whose row belongs to the tenant `acme`.
use loop_engine.Prelude.{
  ◌≡◌, refl, [], ◌∷◌, some, find, any, all, filter, contains, get, put, values,
}
use loop_engine.Prelude.Int.{monus, leb_ℤ}
use loop_engine.Core.{
  str, same_actor_type, is_active, is_completed, flag, number, number_of_int, ge_number, items,
  fields, array_of, object_of, read, read_opt, is_true, or_else,
}
use loop_engine.Store.Memory.{
  MemoryStore, empty, get_instance, save_instance, get_transition_history, save_transition_record,
  list_open_instances,
}
use loop_engine.Runtime.World.{for_each, guards, time_source, clock, emit, create}
use loop_engine.Runtime.Lifecycle.{
  truthy, is_running, initial_instance, announce_start, open_loop, start,
}
use loop_engine.Events.{
  nonempty, accepts_failures, accepts_definition, accepts_outcome, accepts_duration, schema_accepts,
  parse, build_base,
}
use loop_engine.Runtime.Transition.{
  is_terminal_state, warning_value, with_warnings, launch_versions, with_snapshots, duration_ms,
  completed_outcome, moved, record_of, correlation, move, create_here, evidence, guard_context,
  request, check_guards, report_failure, report_block, block, tenant, commit_evidence,
  announce_completion, report_move, announce, execute, settle_commit, proceed_governed, proceed,
  settle, after_guards, attempt, authorize, dispatch, transition,
}
use loop_engine.Guards.{
  register, evaluation_result, evaluated, evaluate_with, evaluate_one, evaluate_each, is_failure_of,
  summarize, evaluate_guards,
}
use loop_engine.Guards.BuiltIn.{human_only, register_built_ins}
use loop_engine.Actors.{includes_actor, lists, lists_transition, can_actor_execute_transition}
use loop_engine.Evidence.Validate.{
  is_version, is_text, is_undefined, is_hex_digit, all_hex, count_chars, is_sha256_hex, is_sequence,
  validate_decision_record_versions, nonempty_text, is_timestamp, validate_lineage_ref,
  validate_lineage_refs, validate_lineage, validate_required, validate_values, validate_fields,
  validate_commit_input, key_of, validate_from, validate_commit_batch,
  validate_governed_evidence_present,
}
use loop_engine.Evidence.Commit.{
  requires_governed_evidence, attributes_of, mismatches, persist, persist_all, insert,
  commit_governed_evidence_snapshots,
}
use loop_engine.Canonical.{
  is_integer, exceeds_safe, canonical_number, canonicalizable, canonicalizable_items,
  canonicalizable_fields, code_units, utf16, leb_units, insert_key, sort_keys, commas, key_parts,
  serialize, serialize_items, serialize_fields, canonicalize, sha256_canonical_hex,
}
use loop_engine.Prelude.{sym, ap, eq_iff, some-injective, Option, none, true, false}
use loop_engine.Core.{LoopInstance, LoopDefinition, TransitionSpec, object}
use loop_engine.Auth.{RuntimeIdentity, api}
use loop_engine.Redaction.{sanitize_evidence}
use loop_engine.Runtime.Transition.{leaves}
use loop_engine.Runtime.Invariant.{IsSound, start-IsSound}
use loop_engine.Trace.Memory.{MemoryTraceStore, cleared}
use loop_engine.Service.{
  PersistedLoopInstance, UpdateLoopInstanceInput, LoopInstanceRepository, CreateAnswer, created_row,
  Server, returned, change, on_host, to_loop_instance_dto,
}
use loop_engine.Service.Traced.{
  Host, memory_trace_store, traced_transition, trace_call, next_trace_sequence,
  next_in_process_sequence, counter,
}
use loop_engine.Service.InitialState.{parse_initial_state, trimmed}
use loop_engine.Service.Provision.{
  ProvisionLoopInstanceInput, created, idempotent_replay, trimmed_key, create_input, insert_row,
  find_key, find_replay, settle_create, provision_at, answer_existing, provision_oss_loop_instance,
}
use loop_engine.Service.Execution.{
  TransitionLoopInput, ExecutedTransition, human_actor, transition_done, not_found,
  transition_not_found, cancel_not_found, execute_oss_start, execute_oss_transition,
  execute_oss_cancel, transition_existing, transition_row, record_transition, append_transition,
  settle_transition, wrapped_transition, transition_params, engine_actor_type, event_actor_type,
}
use loop_engine.Service.Prisma.{LoopInstanceTable, made, prisma_loop_instance_repository}
use loop_engine.Service.Isolation.{other_tenant_refused}
use loop_engine.Service.Replay.{KeepsKeys, provision_oss_loop_instance_replays}
use loop_engine.Service.Mirror.{AnswersUpdates, execute_oss_transition_mirrors}
use loop_engine.Service.Ungoverned.{execute_oss_transition_ungoverned}
use loop_engine.Tests.Data.{platform, fresh, opening, instant}
use loop_engine.Tests.Plain.{plain, quiet}
use loop_engine.Tests.Traces.{failure_text, event_object}

abbrev pub stored_row : PersistedLoopInstance
stored_row = record {
  id = "i1";
  aggregate_id = "a1";
  loop_id = "deal";
  tenant_id = "acme";
  idempotency_key = some "key";
  current_state = "OPEN";
  status = "OPEN";
  context = object (object_of []);
  created_at = number 0;
  updated_at = number 0;
}

-- A repository with at most one row.
abbrev pub updated_row : UpdateLoopInstanceInput → PersistedLoopInstance
updated_row u = record stored_row { current_state = u.current_state; status = u.status }

abbrev pub one_row : LoopInstanceRepository (Option PersistedLoopInstance)
one_row = record {
  find_by_aggregate_id = λ r tenant a. r;
  find_by_idempotency_key = λ r tenant key. r;
  create_instance = λ c r. (created_row stored_row, some stored_row);
  update_instance_state = λ u r. (some (updated_row u), some (updated_row u));
  append_event = λ e r. (some tt, r);
}

one_row-answers : AnswersUpdates one_row
one_row-answers u r row h =
    ap (λ (x : PersistedLoopInstance). x.current_state) (sym (some-injective (updated_row u) row h))

abbrev row_of : CreateAnswer → PersistedLoopInstance
row_of (created_row row) = row
row_of _ = stored_row

one_row-keeps : KeepsKeys one_row
one_row-keeps c r key row keyed h = ap some (ap row_of h)

abbrev pub identity : RuntimeIdentity
identity = record {
  tenant_id = "acme";
  api_key_id = none;
  actor_id = "op";
  role = "API_KEY";
  source = api;
}

abbrev pub host : Host MemoryStore MemoryTraceStore
host = record { world = (start quiet opening fresh).1; traces = cleared; sequences = [] }

abbrev pub server : Server MemoryStore MemoryTraceStore (Option PersistedLoopInstance)
server = record { host = host; repo = some stored_row }

abbrev asked : TransitionLoopInput
asked = record {
  identity = identity;
  aggregate_key = "a1";
  signal_id = "advance";
  evidence = none;
  actor = record { id = "op"; type = human_actor };
  governed = none;
}

abbrev result : ExecutedTransition
result = record {
  aggregate_id = "a1";
  previous_state = "OPEN";
  current_state = "MID";
  status = "OPEN";
  transitioned_at_iso = instant;
}

ran :
    (execute_oss_transition quiet memory_trace_store failure_text event_object true one_row asked
      server).0
    ≡ returned (transition_done result)
unfolding for_each guards time_source clock emit create is_terminal_state warning_value
    with_warnings launch_versions with_snapshots duration_ms completed_outcome moved record_of
    correlation move create_here evidence guard_context request check_guards report_failure
    report_block block tenant commit_evidence announce_completion report_move announce execute
    settle_commit proceed_governed proceed settle after_guards attempt authorize dispatch transition
    register evaluation_result evaluated evaluate_with evaluate_one evaluate_each is_failure_of
    summarize evaluate_guards register_built_ins human_only includes_actor lists lists_transition
    can_actor_execute_transition is_version is_text is_undefined is_hex_digit all_hex count_chars
    is_sha256_hex is_sequence validate_decision_record_versions nonempty_text is_timestamp
    validate_lineage_ref validate_lineage_refs validate_lineage validate_required validate_values
    validate_fields validate_commit_input key_of validate_from validate_commit_batch
    validate_governed_evidence_present requires_governed_evidence attributes_of mismatches persist
    persist_all insert commit_governed_evidence_snapshots is_integer exceeds_safe canonical_number
    canonicalizable canonicalizable_items canonicalizable_fields code_units utf16 leb_units
    insert_key sort_keys commas key_parts serialize serialize_items serialize_fields canonicalize
    sha256_canonical_hex nonempty accepts_failures accepts_definition accepts_outcome
    accepts_duration schema_accepts parse build_base same_actor_type is_active is_completed flag
    number number_of_int ge_number items fields array_of object_of read read_opt is_true or_else
    find any all filter contains monus leb_ℤ get put values empty get_instance save_instance
    get_transition_history save_transition_record list_open_instances start open_loop announce_start
    is_running initial_instance truthy execute_oss_transition transition_existing transition_row
    record_transition append_transition settle_transition wrapped_transition transition_params
    engine_actor_type event_actor_type sanitize_evidence change on_host traced_transition trace_call
    next_trace_sequence next_in_process_sequence counter memory_trace_store
ran = refl

quiet-IsSound : IsSound quiet empty
unfolding empty get_instance get
quiet-IsSound a i h = cc

execute_oss_transition_mirrors_example :
    let after =
      execute_oss_transition quiet memory_trace_store failure_text event_object true one_row asked
        server in
    (row : PersistedLoopInstance) × (i : LoopInstance) × (some stored_row ≡ some row)
    × (get_instance after.1.host.world.store row.aggregate_id ≡ some i)
    × (i.current_state ≡ "MID")
execute_oss_transition_mirrors_example =
    execute_oss_transition_mirrors quiet memory_trace_store failure_text event_object true one_row
      asked server result one_row-answers (start-IsSound quiet opening fresh quiet-IsSound) ran

execute_oss_transition_ungoverned_example :
    (row : PersistedLoopInstance) × (i : LoopInstance) × (d : LoopDefinition) × (t : TransitionSpec)
    × (some stored_row ≡ some row)
    × (get_instance server.host.world.store row.aggregate_id ≡ some i)
    × (some plain ≡ some d)
    × (find (leaves "advance" i.current_state) d.transitions ≡ some t)
    × (requires_governed_evidence d.metadata t.metadata ≡ false)
execute_oss_transition_ungoverned_example =
    execute_oss_transition_ungoverned quiet memory_trace_store failure_text event_object true
      one_row asked server result one_row-answers ran

abbrev ordered : ProvisionLoopInstanceInput
ordered = record {
  identity = identity;
  loop_id = "deal";
  payload = [];
  idempotency_key = some "key";
  definition = object (object_of (("initialState", str "OPEN") ∷ []));
}

abbrev vacant : Server MemoryStore MemoryTraceStore (Option PersistedLoopInstance)
vacant = record { host = host; repo = none }

provisioned :
    (provision_oss_loop_instance platform one_row ordered vacant).0
    ≡ returned (created (to_loop_instance_dto platform stored_row))
unfolding provision_oss_loop_instance answer_existing provision_at insert_row create_input
    settle_create find_replay find_key trimmed_key parse_initial_state trimmed fields object_of read
    get to_loop_instance_dto
provisioned = refl

keyed : trimmed_key platform ordered ≡ some "key"
unfolding trimmed_key
keyed = refl

provision_oss_loop_instance_replays_example :
    let after = (provision_oss_loop_instance platform one_row ordered vacant).1 in
    provision_oss_loop_instance platform one_row ordered after
    ≡ (returned (idempotent_replay (to_loop_instance_dto platform stored_row)), after)
provision_oss_loop_instance_replays_example =
    provision_oss_loop_instance_replays platform one_row ordered ordered vacant
      (to_loop_instance_dto platform stored_row) "key" one_row-keeps keyed keyed refl provisioned

abbrev table : LoopInstanceTable (Option PersistedLoopInstance)
table = record {
  find_unique = λ r a. r;
  find_unique_key = λ r tenant key. r;
  create = λ c r. (made stored_row, some stored_row);
  update = λ id state status r. (some stored_row, r);
  create_event = λ e r. (some tt, r);
}

abbrev foreign : TransitionLoopInput
foreign = record asked { identity = record identity { tenant_id = "other" } }

other_tenant : ¬ (stored_row.tenant_id ≡ "other")
other_tenant e = cc ((eq_iff stored_row.tenant_id "other").1 e)

other_tenant_refused_example :
    let repo = prisma_loop_instance_repository table in
    (execute_oss_start quiet memory_trace_store failure_text event_object true repo foreign.identity
        "a1" server
      ≡ (returned not_found, server))
    × (execute_oss_transition quiet memory_trace_store failure_text event_object true repo foreign
          server
        ≡ (returned transition_not_found, server))
    × (execute_oss_cancel quiet memory_trace_store failure_text event_object true repo
          foreign.identity "a1" server
        ≡ (returned cancel_not_found, server))
other_tenant_refused_example =
    other_tenant_refused quiet memory_trace_store failure_text event_object true table foreign
      server stored_row refl other_tenant
