-- ===== src/Tests/Runs.antt =====
-- The runs that the examples rest on: the opening of a loop and its governed transition.
use loop_engine.Prelude.{
  ◌≡◌, refl, [], ◌∷◌, some, find, any, all, filter, contains, get, put, values,
}
use loop_engine.Prelude.Int.{monus, leb_ℤ}
use loop_engine.Core.{
  Attributes, str, ok, same_actor_type, is_active, is_completed, flag, number, number_of_int,
  ge_number, items, fields, array_of, object_of, read, read_opt, is_true, or_else,
}
use loop_engine.Store.Memory.{
  MemoryStore, empty, get_instance, save_instance, get_transition_history, save_transition_record,
  list_open_instances,
}
use loop_engine.Runtime.World.{World, for_each, guards, time_source, clock, emit, create}
use loop_engine.Runtime.Lifecycle.{
  truthy, is_running, initial_instance, announce_start, open_loop, start,
}
use loop_engine.Events.{
  nonempty, accepts_failures, accepts_definition, accepts_outcome, accepts_duration, schema_accepts,
  parse, build_base,
}
use loop_engine.Runtime.Transition.{
  executed, rejected, evidence_refused, is_terminal_state, warning_value, with_warnings,
  launch_versions, with_snapshots, duration_ms, completed_outcome, moved, record_of, correlation,
  move, create_here, evidence, guard_context, request, check_guards, report_failure, report_block,
  block, tenant, commit_evidence, announce_completion, report_move, announce, execute,
  settle_commit, proceed_governed, proceed, settle, after_guards, attempt, authorize, dispatch,
  transition,
}
use loop_engine.Guards.{
  register, evaluation_result, evaluated, evaluate_with, evaluate_one, evaluate_each, is_failure_of,
  summarize, evaluate_guards,
}
use loop_engine.Guards.BuiltIn.{human_only, register_built_ins}
use loop_engine.Actors.{includes_actor, lists, lists_transition, can_actor_execute_transition}
use loop_engine.Evidence.Validate.{
  is_version, is_text, is_undefined, is_hex_digit, all_hex, count_chars, is_sha256_hex, is_sequence,
  validate_decision_record_versions, nonempty_text, is_timestamp, validate_lineage_ref,
  validate_lineage_refs, validate_lineage, validate_required, validate_values, validate_fields,
  validate_commit_input, key_of, validate_from, validate_commit_batch,
  validate_governed_evidence_present,
}
use loop_engine.Evidence.Commit.{
  RejectionReason, SnapshotStoreInsertInput, committed, requires_governed_evidence, attributes_of,
  mismatches, persist, persist_all, insert, commit_governed_evidence_snapshots,
}
use loop_engine.Canonical.{
  is_integer, exceeds_safe, canonical_number, canonicalizable, canonicalizable_items,
  canonicalizable_fields, code_units, utf16, leb_units, insert_key, sort_keys, commas, key_parts,
  serialize, serialize_items, serialize_fields, canonicalize, sha256_canonical_hex,
}
use loop_engine.Tests.Data.{
  snapshot, options, fresh, opening, opened, finishing, unproven, finished_event, platform,
}

abbrev pub started : World MemoryStore
started = (start options opening fresh).1

pub started_ok : (start options opening fresh).0 ≡ ok opened
unfolding empty get_instance save_instance get_transition_history save_transition_record
    list_open_instances start open_loop announce_start is_running initial_instance truthy clock
    time_source emit create parse schema_accepts accepts_definition nonempty build_base get put
    is_active
started_ok = refl

pub finished :
    (transition options finishing started).0 ≡ ok (executed "OPEN" "DONE" [] finished_event)
unfolding for_each guards time_source clock emit create is_terminal_state warning_value
    with_warnings launch_versions with_snapshots duration_ms completed_outcome moved record_of
    correlation move create_here evidence guard_context request check_guards report_failure
    report_block block tenant commit_evidence announce_completion report_move announce execute
    settle_commit proceed_governed proceed settle after_guards attempt authorize dispatch transition
    register evaluation_result evaluated evaluate_with evaluate_one evaluate_each is_failure_of
    summarize evaluate_guards register_built_ins human_only includes_actor lists lists_transition
    can_actor_execute_transition is_version is_text is_undefined is_hex_digit all_hex count_chars
    is_sha256_hex is_sequence validate_decision_record_versions nonempty_text is_timestamp
    validate_lineage_ref validate_lineage_refs validate_lineage validate_required validate_values
    validate_fields validate_commit_input key_of validate_from validate_commit_batch
    validate_governed_evidence_present requires_governed_evidence attributes_of mismatches persist
    persist_all insert commit_governed_evidence_snapshots is_integer exceeds_safe canonical_number
    canonicalizable canonicalizable_items canonicalizable_fields code_units utf16 leb_units
    insert_key sort_keys commas key_parts serialize serialize_items serialize_fields canonicalize
    sha256_canonical_hex nonempty accepts_failures accepts_definition accepts_outcome
    accepts_duration schema_accepts parse build_base same_actor_type is_active is_completed flag
    number number_of_int ge_number items fields array_of object_of read read_opt is_true or_else
    find any all filter contains monus leb_ℤ get put values empty get_instance save_instance
    get_transition_history save_transition_record list_open_instances start open_loop announce_start
    is_running initial_instance truthy
finished = refl

-- The governed transition without evidence is refused.
pub refused_unproven :
    (transition options unproven started).0
    ≡ ok (rejected "OPEN" (evidence_refused RejectionReason.evidence_required))
unfolding for_each guards time_source clock emit create is_terminal_state warning_value
    with_warnings launch_versions with_snapshots duration_ms completed_outcome moved record_of
    correlation move create_here evidence guard_context request check_guards report_failure
    report_block block tenant commit_evidence announce_completion report_move announce execute
    settle_commit proceed_governed proceed settle after_guards attempt authorize dispatch transition
    register evaluation_result evaluated evaluate_with evaluate_one evaluate_each is_failure_of
    summarize evaluate_guards register_built_ins human_only includes_actor lists lists_transition
    can_actor_execute_transition is_version is_text is_undefined is_hex_digit all_hex count_chars
    is_sha256_hex is_sequence validate_decision_record_versions nonempty_text is_timestamp
    validate_lineage_ref validate_lineage_refs validate_lineage validate_required validate_values
    validate_fields validate_commit_input key_of validate_from validate_commit_batch
    validate_governed_evidence_present requires_governed_evidence attributes_of mismatches persist
    persist_all insert commit_governed_evidence_snapshots is_integer exceeds_safe canonical_number
    canonicalizable canonicalizable_items canonicalizable_fields code_units utf16 leb_units
    insert_key sort_keys commas key_parts serialize serialize_items serialize_fields canonicalize
    sha256_canonical_hex nonempty accepts_failures accepts_definition accepts_outcome
    accepts_duration schema_accepts parse build_base same_actor_type is_active is_completed flag
    number number_of_int ge_number items fields array_of object_of read read_opt is_true or_else
    find any all filter contains monus leb_ℤ get put values empty get_instance save_instance
    get_transition_history save_transition_record list_open_instances start open_loop announce_start
    is_running initial_instance truthy
refused_unproven = refl

pub started_found : get_instance started.store "a1" ≡ some opened
unfolding empty get_instance save_instance get_transition_history save_transition_record
    list_open_instances start open_loop announce_start is_running initial_instance truthy clock
    time_source emit create parse schema_accepts accepts_definition nonempty build_base get put
    is_active
started_found = refl

pub built_in : get "human-only" (guards options) ≡ some (human_only platform)
unfolding guards register_built_ins register get put
built_in = refl

abbrev pub row : Attributes
row = put "contentSha256" (str "{price:7}") (put "id" (str "u") (attributes_of snapshot))

abbrev pub batch : SnapshotStoreInsertInput
batch = record { tenant_id = "t"; aggregate_id = "a1"; snapshots = row ∷ [] }

pub stored_batch :
    commit_governed_evidence_snapshots platform 0 options.snapshot_store "t" "a1"
      finishing.evidence_snapshots []
    ≡ (ok (committed ("s1" ∷ []) (row ∷ [])), batch ∷ [])
unfolding for_each guards time_source clock emit create is_terminal_state warning_value
    with_warnings launch_versions with_snapshots duration_ms completed_outcome moved record_of
    correlation move create_here evidence guard_context request check_guards report_failure
    report_block block tenant commit_evidence announce_completion report_move announce execute
    settle_commit proceed_governed proceed settle after_guards attempt authorize dispatch transition
    register evaluation_result evaluated evaluate_with evaluate_one evaluate_each is_failure_of
    summarize evaluate_guards register_built_ins human_only includes_actor lists lists_transition
    can_actor_execute_transition is_version is_text is_undefined is_hex_digit all_hex count_chars
    is_sha256_hex is_sequence validate_decision_record_versions nonempty_text is_timestamp
    validate_lineage_ref validate_lineage_refs validate_lineage validate_required validate_values
    validate_fields validate_commit_input key_of validate_from validate_commit_batch
    validate_governed_evidence_present requires_governed_evidence attributes_of mismatches persist
    persist_all insert commit_governed_evidence_snapshots is_integer exceeds_safe canonical_number
    canonicalizable canonicalizable_items canonicalizable_fields code_units utf16 leb_units
    insert_key sort_keys commas key_parts serialize serialize_items serialize_fields canonicalize
    sha256_canonical_hex nonempty accepts_failures accepts_definition accepts_outcome
    accepts_duration schema_accepts parse build_base same_actor_type is_active is_completed flag
    number number_of_int ge_number items fields array_of object_of read read_opt is_true or_else
    find any all filter contains monus leb_ℤ get put values empty get_instance save_instance
    get_transition_history save_transition_record list_open_instances start open_loop announce_start
    is_running initial_instance truthy
stored_batch = refl
