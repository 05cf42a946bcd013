-- ===== src/Protocol/Tests.antt =====
-- Metadata at the limits.
use agent_action_visualizer.Protocol.Validate.Accepted.{IsAccepted, validate-IsAccepted}
use agent_action_visualizer.Protocol.Validate.{
  Json, validate, valid_event_type, valid_source, timestamp_required, valid_confidence,
  limited_fields, valid_strings, non_negative, valid_numbers, validate_decoded, validate_payload,
  validate_metadata,
}
use agent_action_visualizer.Protocol.Samples.{sample}
use agent_action_visualizer.Protocol.Metadata.Limits.{
  height, size, valid_keys, validate_value-ok_iff,
}
use agent_action_visualizer.Protocol.Metadata.{
  validate_value, valid_string, within_entries, checked_key,
}
use agent_action_visualizer.Prelude.Utf8.{utf8_valid}
use agent_action_visualizer.Protocol.Event.{Event, EventType, Confidence}
use agent_action_visualizer.Prelude.{
  some, ◌≤◌, ◌≡◌, refl, ◌↔◌, true, ok, bytes, has_byte, text_eq, err,
}
use agent_action_visualizer.Protocol.Value.{Value, null, text, array, object, nil, cons, end, field}

-- {"paths": ["a", null]}
abbrev nested : Value
nested = object (field (bytes "paths") (array (cons (text (bytes "a")) (cons null nil))) end)

metadata_code : Unit {0}
unfolding utf8_valid has_byte valid_string within_entries checked_key validate_value height size
    valid_keys
metadata_code = tt

counts_three : validate_value 0 0 nested ≡ ok 3
unfolding metadata_code
counts_three = refl

validate_value-ok_iff_example :
    (validate_value 0 0 nested ≡ ok 3)
    ↔ ((height nested ≤ 8) × (size nested ≤ 1024) × (valid_keys nested ≡ true) × (3 ≡ size nested))
validate_value-ok_iff_example = validate_value-ok_iff nested 3

abbrev event : Event
event = record (sample EventType.file_read Confidence.exact (bytes "a") 7) {
  metadata = field (bytes "k") (text (bytes "v")) end;
}

-- A coder that encodes every map as `{}` and decodes it to the map of the event.
abbrev coder : Json
coder = record {
  marshal = λ fields. some (bytes "{}");
  unmarshal = λ payload. some (object (field (bytes "k") (text (bytes "v")) end));
}

validate_code : Unit {0}
unfolding metadata_code text_eq valid_event_type valid_source valid_confidence limited_fields
    valid_strings non_negative valid_numbers validate_decoded validate_payload validate_metadata
    validate
validate_code = tt

accepts_event : validate coder event ≡ ok tt
unfolding validate_code
accepts_event = refl

refuses_time : validate coder (record event { timestamp = 0 }) ≡ err timestamp_required
unfolding validate_code
refuses_time = refl

validate-IsAccepted_example : IsAccepted coder event
validate-IsAccepted_example = validate-IsAccepted coder event accepts_event
