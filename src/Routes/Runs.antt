-- ===== src/Routes/Runs.antt =====
-- The read handlers (packages/runtime-routes/src/runs.ts, with-persisted-run-read.ts) over the rows
-- of a read repository (runtime-core/src/trace-repository.ts, postgres-trace-store.ts). The columns
-- that the code casts are typed here as the casts say.
use loop_engine.Prelude.{ℕ, Bool, true, false, String, Option, none, some, List, map, if◌then◌else◌}
use loop_engine.Core.{Platform, Value, Number, ActorType}
use loop_engine.Auth.{RuntimeIdentity}
use loop_engine.Quota.{
  EntitlementsSnapshot, Windows, runtime_allowed, record_transition_within_limit,
}
use loop_engine.Trace.{TraceRecord, TraceEventType, GuardTraceEntry, RunSummary}
use loop_engine.Trace.Responses.{
  RunDetailReadResponse, RunHistoryReadResponse, RunEvidenceReadResponse, RunTimelineReadResponse,
  RunReplaySummaryReadResponse, build_run_detail_response, build_run_history_response,
  build_run_evidence_response, build_run_timeline_response, build_run_replay_summary_response,
}
use loop_engine.Routes.{Answer, given, denied, broken}

pub record PersistedTraceRow : Type 0 where
  pub id : String
  pub loop_run_id : String
  pub loop_id : String
  pub tenant_id : String
  pub sequence : ℕ
  pub timestamp : Number
  pub type : TraceEventType
  pub from_state : Option String
  pub to_state : Option String
  pub transition_id : Option String
  pub actor_type : ActorType
  pub actor_id : String
  pub input_hash : String
  pub input : Value
  pub output : Value
  pub guards : List GuardTraceEntry
  pub evidence : Value
  pub duration_ms : Number
  pub blocked : Bool
  pub block_reason : Option String
  pub governed : Bool

unfoldable pub row_to_trace_record : PersistedTraceRow → TraceRecord
row_to_trace_record row = record {
  id = row.id;
  loop_run_id = row.loop_run_id;
  loop_id = row.loop_id;
  sequence = row.sequence;
  timestamp = row.timestamp;
  type = row.type;
  from_state = row.from_state;
  to_state = row.to_state;
  transition_id = row.transition_id;
  actor = record { id = row.actor_id; type = row.actor_type; display_name = none; metadata = none };
  input_hash = row.input_hash;
  input = row.input;
  output = row.output;
  guards = row.guards;
  evidence = row.evidence;
  duration_ms = row.duration_ms;
  blocked = row.blocked;
  block_reason = row.block_reason;
  governed = row.governed;
  tenant_id = row.tenant_id;
}

pub record PersistedRunSummaryRow : Type 0 where
  pub tenant_id : String
  pub loop_run_id : String
  pub loop_id : String
  pub started_at : Number
  pub completed_at : Option Number
  pub terminal_state : Option String
  pub step_count : ℕ
  pub blocked_count : ℕ
  pub governed : Bool
  pub updated_at : Number

unfoldable pub summary_row_to_run_summary : PersistedRunSummaryRow → RunSummary
summary_row_to_run_summary row = record {
  loop_run_id = row.loop_run_id;
  loop_id = row.loop_id;
  started_at = row.started_at;
  completed_at = row.completed_at;
  terminal_state = row.terminal_state;
  step_count = row.step_count;
  blocked_count = row.blocked_count;
  governed = row.governed;
  tenant_id = row.tenant_id;
}

-- `TraceReadRepository`.
pub record TraceReadRepository : Type 0 where
  pub get_run_summary : (loop_run_id tenant_id : String) → Option PersistedRunSummaryRow
  pub get_run_trace : (loop_run_id tenant_id : String) → List PersistedTraceRow

pub record RuntimeContext : Type 0 where
  pub authenticate : Option String → Answer RuntimeIdentity
  pub entitlements_of : (tenant_id : String) → Answer EntitlementsSnapshot
  pub trace_repository : TraceReadRepository
  pub trace_read_enabled : Bool

-- A response: what the builder made, or an error with its status.
pub data ReadResponse (A : Type 0) : Type 0 where
  built : A → ReadResponse A
  failed : (status : ℕ) → (message : String) → ReadResponse A

module _ {A : Type 0} (ctx : RuntimeContext) (denied_message : EntitlementsSnapshot → String)
    (build : RunSummary → List TraceRecord → A) where
  unfoldable pub read_run :
      (run_id : String) → RuntimeIdentity → Option PersistedRunSummaryRow → ReadResponse A
  read_run run_id identity none = failed 404 "Run not found"
  read_run run_id identity (some row) = built (
      build (summary_row_to_run_summary row)
        (map row_to_trace_record (ctx.trace_repository.get_run_trace run_id identity.tenant_id)))

  unfoldable pub read_limited :
      (run_id : String) → RuntimeIdentity → Bool × Windows → ReadResponse A × Windows
  read_limited run_id identity (true, windows) = (
    read_run run_id identity (ctx.trace_repository.get_run_summary run_id identity.tenant_id),
    windows,
  )
  read_limited run_id identity (false, windows) =
      (failed 429 "Transition rate limit exceeded. Retry in 60 seconds.", windows)

  unfoldable pub read_entitled :
      (run_id : String)
      → RuntimeIdentity
      → (now : ℕ) → Answer EntitlementsSnapshot
      → Windows
      → ReadResponse A × Windows
  read_entitled run_id identity now (given snapshot) windows =
      if runtime_allowed snapshot
      then read_limited run_id identity
          (record_transition_within_limit identity.tenant_id snapshot windows now)
      else (failed 403 (denied_message snapshot), windows)
  read_entitled run_id identity now (denied message) windows = (failed 403 message, windows)
  read_entitled run_id identity now broken windows =
      (failed 500 "Entitlements lookup failed", windows)

  unfoldable pub read_identified :
      (run_id : String) → (now : ℕ) → Answer RuntimeIdentity → Windows → ReadResponse A × Windows
  read_identified run_id now (given identity) windows =
      read_entitled run_id identity now (ctx.entitlements_of identity.tenant_id) windows
  read_identified run_id now (denied message) windows = (failed 401 message, windows)
  read_identified run_id now broken windows = (failed 500 "Auth lookup failed", windows)

  unfoldable pub with_persisted_run_read :
      (authorization : Option String)
      → (run_id : String) → (now : ℕ) → Windows
      → ReadResponse A × Windows
  with_persisted_run_read authorization run_id now windows =
      if ctx.trace_read_enabled
      then read_identified run_id now (ctx.authenticate authorization) windows
      else (failed 503 "Trace API disabled", windows)

module _ (p : Platform) (ctx : RuntimeContext) (denied_message : EntitlementsSnapshot → String)
    (authorization : Option String) (id : String) (now : ℕ) where
  unfoldable pub run_detail_handler : Windows → ReadResponse RunDetailReadResponse × Windows
  run_detail_handler =
      with_persisted_run_read ctx denied_message (build_run_detail_response p) authorization id now

  unfoldable pub run_history_handler : Windows → ReadResponse RunHistoryReadResponse × Windows
  run_history_handler =
      with_persisted_run_read ctx denied_message (build_run_history_response p) authorization id now

  unfoldable pub run_evidence_handler : Windows → ReadResponse RunEvidenceReadResponse × Windows
  run_evidence_handler =
      with_persisted_run_read ctx denied_message (build_run_evidence_response p) authorization id
        now

  unfoldable pub run_timeline_handler : Windows → ReadResponse RunTimelineReadResponse × Windows
  run_timeline_handler =
      with_persisted_run_read ctx denied_message (build_run_timeline_response p) authorization id
        now

  unfoldable pub run_replay_summary_handler :
      Windows → ReadResponse RunReplaySummaryReadResponse × Windows
  run_replay_summary_handler =
      with_persisted_run_read ctx denied_message (build_run_replay_summary_response p) authorization
        id now
