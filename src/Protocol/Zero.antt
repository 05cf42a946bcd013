-- ===== src/Protocol/Zero.antt =====
-- The zero event of Go, which a missing key of a map of events gives.
use agent_action_visualizer.Protocol.Value.{Fields}
use agent_action_visualizer.Protocol.Event.{Event, SourceType, Confidence, EventType}
use agent_action_visualizer.Prelude.{none, [], pos}

-- protocol.Event{}
abbrev pub zero_event : Event
zero_event = record {
  schema_version = [];
  event_id = [];
  session_id = [];
  project_id = [];
  agent_id = [];
  agent_type = [];
  adapter_id = [];
  adapter_version = [];
  source_type = SourceType.other [];
  source_confidence = Confidence.other [];
  event_type = EventType.other [];
  operation = [];
  status = [];
  timestamp = 0;
  monotonic_timestamp = pos 0;
  correlation_id = [];
  parent_event_id = [];
  process_id = pos 0;
  thread_id = [];
  turn_id = [];
  tool_name = [];
  command = [];
  project_root = [];
  path = [];
  previous_path = [];
  node_id = [];
  is_directory = none;
  is_binary = none;
  duration_ms = none;
  lines_added = none;
  lines_deleted = none;
  bytes_before = none;
  bytes_after = none;
  content_hash_before = [];
  content_hash_after = [];
  phase_id = [];
  slice_id = [];
  action_label = [];
  metadata = Fields.end;
}
