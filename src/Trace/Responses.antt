-- ===== src/Trace/Responses.antt =====
-- The read responses of a run (packages/runtime-core/src/build-run-responses.ts).
use loop_engine.Prelude.{
  ℕ, Bool, true, false, ◌&&◌, not, String, Option, none, some, List, [], ◌∷◌, map, all, is_empty,
  length, contains, if◌then◌else◌,
}
use loop_engine.Core.{
  Platform, Value, undefined, array, object, nil, cons, Attributes, fields, read, ActorRef,
}
use loop_engine.Canonical.{◌<>◌}
use loop_engine.Trace.{TraceRecord, RunSummary, TraceEventType, sort_by_sequence}
use loop_engine.Trace.Sequence.{validate_trace_sequence}
use loop_engine.Trace.Timeline.{TraceLoopTimeline, TraceLoopMetrics, build_timeline_from_trace}
use loop_engine.Trace.Timeline.Metrics.{compute_metrics_from_trace}

unfoldable pub evidence_as_record : Value → Attributes
evidence_as_record (object fs) = fields fs
evidence_as_record _ = []

unfoldable pub trace_status_metadata_keys : List String
trace_status_metadata_keys =
    "transitionStatus" ∷ "fromState" ∷ "toState" ∷ "rejectionReason" ∷ "guardFailures" ∷ []

unfoldable pub has_snapshot_refs : Attributes → Bool
has_snapshot_refs payload = elim (read "snapshotIds" payload) [
  | array vs ↦ elim vs [ nil ↦ false | cons v rest ↦ true ]
  | _ ↦ false
]

unfoldable pub snapshot_ref_payload : Attributes → Attributes
snapshot_ref_payload payload =
    let ids : String × Value = ("snapshotIds", read "snapshotIds" payload) in
    elim (read "versions" payload) [
      | undefined ↦ ids ∷ []
      | _ ↦ ids ∷ ("versions", read "versions" payload) ∷ []
    ]

unfoldable pub is_status_entry : String × Value → Bool
is_status_entry (k, v) = contains k trace_status_metadata_keys

unfoldable pub is_transition_status_metadata : Attributes → Bool
is_transition_status_metadata payload = not (is_empty payload) && all is_status_entry payload

unfoldable pub submitted_evidence_for_rt05 : TraceRecord → Attributes
submitted_evidence_for_rt05 r =
    let input = evidence_as_record r.input in
    let legacy_evidence = evidence_as_record r.evidence in
    if has_snapshot_refs input
    then snapshot_ref_payload input
    else if not (is_empty input)
    then input
    else if has_snapshot_refs legacy_evidence
    then snapshot_ref_payload legacy_evidence
    else if is_transition_status_metadata legacy_evidence
    then []
    else legacy_evidence

pub record RunReadSummaryDto : Type 0 where
  pub loop_run_id : String
  pub loop_id : String
  pub started_at : String
  pub completed_at : Option String
  pub terminal_state : Option String
  pub step_count : ℕ
  pub blocked_count : ℕ
  pub governed : Bool

pub record RunAuditEventDto : Type 0 where
  pub event_id : String
  pub sequence : ℕ
  pub type : TraceEventType
  pub from_state : Option String
  pub to_state : Option String
  pub transition_id : Option String
  pub actor : ActorRef
  pub evidence : Attributes
  pub occurred_at : String
  pub blocked : Bool
  pub block_reason : Option String

pub record RunEvidenceItemDto : Type 0 where
  pub sequence : ℕ
  pub event_id : String
  pub transition_id : Option String
  pub type : TraceEventType
  pub occurred_at : String
  pub evidence : Attributes

pub record ReadSurfaces : Type 0 where
  pub history : String
  pub evidence : String
  pub timeline : String
  pub replay_summary : String
  pub legacy_trace : String

-- The responses leave out the contract's version, which is a constant.
pub record RunDetailReadResponse : Type 0 where
  pub run : RunReadSummaryDto
  pub trace_step_count : ℕ
  pub read_surfaces : ReadSurfaces

pub record RunHistoryReadResponse : Type 0 where
  pub loop_run_id : String
  pub loop_id : String
  pub events : List RunAuditEventDto

pub record RunEvidenceReadResponse : Type 0 where
  pub loop_run_id : String
  pub loop_id : String
  pub items : List RunEvidenceItemDto

pub record RunTimelineReadResponse : Type 0 where
  pub loop_run_id : String
  pub timeline : TraceLoopTimeline

-- The four fields that repeat fields of `metrics` are left out.
pub record RunReplaySummaryReadResponse : Type 0 where
  pub loop_run_id : String
  pub loop_id : String
  pub metrics : TraceLoopMetrics
  pub sequence_valid : Bool
  pub invalid_at_sequence : Option ℕ

module _ (p : Platform) where
  unfoldable pub to_run_read_summary_dto : RunSummary → RunReadSummaryDto
  to_run_read_summary_dto s = record {
    loop_run_id = s.loop_run_id;
    loop_id = s.loop_id;
    started_at = p.date_iso s.started_at;
    completed_at = elim s.completed_at [ none ↦ none | some t ↦ some (p.date_iso t) ];
    terminal_state = s.terminal_state;
    step_count = s.step_count;
    blocked_count = s.blocked_count;
    governed = s.governed;
  }

  unfoldable pub audit_event : TraceRecord → RunAuditEventDto
  audit_event r = record {
    event_id = r.id;
    sequence = r.sequence;
    type = r.type;
    from_state = r.from_state;
    to_state = r.to_state;
    transition_id = r.transition_id;
    actor = record { id = r.actor.id; type = r.actor.type; display_name = none; metadata = none };
    evidence = evidence_as_record r.evidence;
    occurred_at = p.date_iso r.timestamp;
    blocked = r.blocked;
    block_reason = r.block_reason;
  }

  unfoldable pub trace_to_audit_events : List TraceRecord → List RunAuditEventDto
  trace_to_audit_events trace = map audit_event (sort_by_sequence trace)

  unfoldable pub evidence_item : TraceRecord → RunEvidenceItemDto
  evidence_item r = record {
    sequence = r.sequence;
    event_id = r.id;
    transition_id = r.transition_id;
    type = r.type;
    occurred_at = p.date_iso r.timestamp;
    evidence = submitted_evidence_for_rt05 r;
  }

  unfoldable pub trace_to_evidence_items : List TraceRecord → List RunEvidenceItemDto
  trace_to_evidence_items trace = map evidence_item (sort_by_sequence trace)

  unfoldable pub build_run_detail_response : RunSummary → List TraceRecord → RunDetailReadResponse
  build_run_detail_response s trace =
      let base = "/api/v1/runs/" <> s.loop_run_id in
      record {
        run = to_run_read_summary_dto s;
        trace_step_count = length trace;
        read_surfaces = record {
          history = base <> "/history";
          evidence = base <> "/evidence";
          timeline = base <> "/timeline";
          replay_summary = base <> "/replay-summary";
          legacy_trace = "/api/v1/loops/runs/" <> s.loop_run_id;
        };
      }

  unfoldable pub build_run_history_response : RunSummary → List TraceRecord → RunHistoryReadResponse
  build_run_history_response s trace = record {
    loop_run_id = s.loop_run_id;
    loop_id = s.loop_id;
    events = trace_to_audit_events trace;
  }

  unfoldable pub build_run_evidence_response :
      RunSummary → List TraceRecord → RunEvidenceReadResponse
  build_run_evidence_response s trace = record {
    loop_run_id = s.loop_run_id;
    loop_id = s.loop_id;
    items = trace_to_evidence_items trace;
  }

  unfoldable pub build_run_timeline_response :
      RunSummary → List TraceRecord → RunTimelineReadResponse
  build_run_timeline_response s trace = record {
    loop_run_id = s.loop_run_id;
    timeline = build_timeline_from_trace p trace;
  }

  unfoldable pub build_run_replay_summary_response :
      RunSummary → List TraceRecord → RunReplaySummaryReadResponse
  build_run_replay_summary_response s trace =
      let check = validate_trace_sequence trace in
      record {
        loop_run_id = s.loop_run_id;
        loop_id = s.loop_id;
        metrics = compute_metrics_from_trace p (build_timeline_from_trace p trace);
        sequence_valid = check.sequence_valid;
        invalid_at_sequence = check.invalid_at_sequence;
      }
