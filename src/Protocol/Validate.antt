-- ===== src/Protocol/Validate.antt =====
-- Event.Validate and validateMetadata (protocol/go/event.go). encoding/json is a parameter: what it
-- encodes a metadata map as, if it can, and what it decodes a payload into.
pub mod Accepted
use agent_action_visualizer.Prelude.{
  ℕ, suc, Bool, true, false, not, ◌&&◌, Option, none, some, List, [], ◌∷◌, leb, ◌==◌, if◌then◌else◌,
  Result, ok, err, guard, length, Text, bytes, is_empty, text_eq, ℤ, negsuc, ◌>>◌,
}
use agent_action_visualizer.Protocol.Event.{Event, EventType, Confidence, SourceType}
use agent_action_visualizer.Protocol.Value.{Value, Fields, end}
use agent_action_visualizer.Protocol.Metadata.{InvalidMetadata, valid_string, validate_value}

pub record Json : Type 0 where
  pub marshal : Fields → Option Text
  pub unmarshal : Text → Option Value

pub data InvalidEvent : Type 0 where
  unsupported_schema_version event_id_required unsupported_event_type : InvalidEvent
  unsupported_source_type unsupported_source_confidence timestamp_required : InvalidEvent
  negative_monotonic negative_process_id invalid_field negative_number : InvalidEvent
  metadata_not_json metadata_too_large : InvalidEvent
  metadata_refused : InvalidMetadata → InvalidEvent

abbrev pub max_metadata_bytes : ℕ
max_metadata_bytes = 65536

-- validEventTypes, validSources and validConfidences hold every constant.
unfoldable pub valid_event_type : EventType → Bool
valid_event_type (EventType.other s) = false
valid_event_type _ = true

unfoldable pub valid_source : SourceType → Bool
valid_source (SourceType.other s) = false
valid_source _ = true

unfoldable pub valid_confidence : Confidence → Bool
valid_confidence (Confidence.other s) = false
valid_confidence _ = true

-- The table of string fields with their limits.
unfoldable pub limited_fields : Event → List (Text × ℕ)
limited_fields ev =
    (ev.event_id, 128)
    ∷ (ev.session_id, 128)
    ∷ (ev.project_id, 128)
    ∷ (ev.agent_id, 128)
    ∷ (ev.agent_type, 64)
    ∷ (ev.adapter_id, 128)
    ∷ (ev.adapter_version, 64)
    ∷ (ev.operation, 64)
    ∷ (ev.status, 64)
    ∷ (ev.correlation_id, 128)
    ∷ (ev.parent_event_id, 128)
    ∷ (ev.thread_id, 128)
    ∷ (ev.turn_id, 128)
    ∷ (ev.tool_name, 256)
    ∷ (ev.command, 4096)
    ∷ (ev.project_root, 4096)
    ∷ (ev.path, 4096)
    ∷ (ev.previous_path, 4096)
    ∷ (ev.node_id, 128)
    ∷ (ev.content_hash_before, 256)
    ∷ (ev.content_hash_after, 256)
    ∷ (ev.phase_id, 64)
    ∷ (ev.slice_id, 64)
    ∷ (ev.action_label, 256)
    ∷ []

unfoldable pub valid_strings : List (Text × ℕ) → Bool
valid_strings [] = true
valid_strings ((value, limit) ∷ fields) =
    let rest = valid_strings fields in if valid_string value limit then rest else false

-- value != nil && *value < 0, for none of the numbers.
unfoldable pub non_negative : Option ℤ → Bool
non_negative (some (negsuc n)) = false
non_negative _ = true

unfoldable pub valid_numbers : Event → Bool
unfolding non_negative
valid_numbers ev =
    non_negative ev.duration_ms
    && (non_negative ev.lines_added
        && (non_negative ev.lines_deleted
            && (non_negative ev.bytes_before && non_negative ev.bytes_after)))

unfoldable pub validate_decoded : Option Value → Result InvalidEvent (Unit {0})
validate_decoded none = err metadata_not_json
validate_decoded (some value) = elim (validate_value 0 0 value) [
  | ok entries ↦ ok tt
  | err e ↦ err (metadata_refused e)
]

unfoldable pub validate_payload : Json → Option Text → Result InvalidEvent (Unit {0})
unfolding validate_decoded
validate_payload json none = err metadata_not_json
validate_payload json (some payload) =
    guard (leb (length payload) max_metadata_bytes) metadata_too_large
    >> validate_decoded (json.unmarshal payload)

unfoldable pub validate_metadata : Json → Fields → Result InvalidEvent (Unit {0})
unfolding validate_payload
validate_metadata json end = ok tt
validate_metadata json metadata = validate_payload json (json.marshal metadata)

unfoldable pub validate : Json → Event → Result InvalidEvent (Unit {0})
validate json ev =
    guard (text_eq ev.schema_version (bytes "1.0")) unsupported_schema_version
    >> (guard (not (is_empty ev.event_id)) event_id_required
        >> (guard (valid_event_type ev.event_type) unsupported_event_type
            >> (guard (valid_source ev.source_type) unsupported_source_type
                >> (guard (valid_confidence ev.source_confidence) unsupported_source_confidence
                    >> (guard (not (ev.timestamp == 0)) timestamp_required
                        >> (guard (non_negative (some ev.monotonic_timestamp)) negative_monotonic
                            >> (guard (non_negative (some ev.process_id)) negative_process_id
                                >> (guard (valid_strings (limited_fields ev)) invalid_field
                                    >> (guard (valid_numbers ev) negative_number
                                        >> validate_metadata json ev.metadata)))))))))
