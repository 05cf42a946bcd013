-- ===== src/Protocol/Samples.antt =====
-- Events for the tests of the other modules.
use agent_action_visualizer.Prelude.{ℕ, none, [], Text, bytes, pos}
use agent_action_visualizer.Protocol.Event.{Event, EventType, Confidence, SourceType}
use agent_action_visualizer.Protocol.Value.{Fields}

abbrev pub sample : EventType → Confidence → Text → ℕ → Event
sample event_type confidence path timestamp = record {
  schema_version = bytes "1.0";
  event_id = bytes "e";
  session_id = bytes "s";
  project_id = [];
  agent_id = [];
  agent_type = [];
  adapter_id = [];
  adapter_version = [];
  source_type = SourceType.native_hook;
  source_confidence = confidence;
  event_type = event_type;
  operation = bytes "edit";
  status = [];
  timestamp = timestamp;
  monotonic_timestamp = pos 0;
  correlation_id = [];
  parent_event_id = [];
  process_id = pos 0;
  thread_id = [];
  turn_id = [];
  tool_name = [];
  command = [];
  project_root = [];
  path = path;
  previous_path = [];
  node_id = [];
  is_directory = none;
  is_binary = none;
  duration_ms = none;
  lines_added = none;
  lines_deleted = none;
  bytes_before = none;
  bytes_after = none;
  content_hash_before = [];
  content_hash_after = [];
  phase_id = [];
  slice_id = [];
  action_label = [];
  metadata = Fields.end;
}
