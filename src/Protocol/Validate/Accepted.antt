-- ===== src/Protocol/Validate/Accepted.antt =====
-- What an event that Event.Validate accepts is like (protocol/go/event.go).
use agent_action_visualizer.Prelude.Utf8.{utf8_valid}
use agent_action_visualizer.Protocol.Metadata.Limits.{
  height, size, valid_keys, validate_value-ok_iff,
}
use agent_action_visualizer.Protocol.Validate.{
  Json, valid_strings, validate_decoded, validate_metadata, valid_event_type, validate_payload,
  valid_source, valid_confidence, limited_fields, valid_numbers, non_negative, max_metadata_bytes,
  validate, metadata_too_large, unsupported_schema_version, event_id_required,
  unsupported_event_type, unsupported_source_type, unsupported_source_confidence,
  timestamp_required, negative_monotonic, negative_process_id, invalid_field, negative_number,
}
use agent_action_visualizer.Prelude.{
  guard-ok, ℕ, ◌≤◌, ◌≡◌, refl, sym, ap, ◌∙◌, inl, inr, true, false, not, Option, none, some, List,
  [], ◌∷◌, arith, leb, ◌==◌, Option-cases, ok, length, All, Text, bytes, is_empty, has_byte,
  Result-cases, text_eq, text_eq_iff, ℤ, pos, negsuc, ◌≤ℤ◌, ◌≢◌, subst,
}
use agent_action_visualizer.Protocol.Event.{Event, EventType, SourceType, Confidence}
use agent_action_visualizer.Protocol.Value.{Value, Fields, end, field}
use agent_action_visualizer.Protocol.Metadata.{valid_string, validate_value}

-- The metadata is empty, or its payload is small and decodes to a value within the limits.
abbrev pub IsSmall : Json → Fields → Type 0
IsSmall json end = Unit {0}
IsSmall json (field k v fields) =
    (payload : Text) × (json.marshal (field k v fields) ≡ some payload)
    × (length payload ≤ 65536)
    × ((value : Value) × (json.unmarshal payload ≡ some value)
        × (height value ≤ 8)
        × (size value ≤ 1024)
        × (valid_keys value ≡ true))

-- Valid UTF-8 without NUL, and at most so many bytes.
abbrev pub IsText : Text × ℕ → Type 0
IsText f = (utf8_valid f.0 ≡ true) × (has_byte 0 f.0 ≡ false) × (length f.0 ≤ f.1)

-- The strings of an event, and how many bytes each may have.
abbrev pub string_limits : Event → List (Text × ℕ)
string_limits ev =
    (ev.event_id, 128)
    ∷ (ev.session_id, 128)
    ∷ (ev.project_id, 128)
    ∷ (ev.agent_id, 128)
    ∷ (ev.agent_type, 64)
    ∷ (ev.adapter_id, 128)
    ∷ (ev.adapter_version, 64)
    ∷ (ev.operation, 64)
    ∷ (ev.status, 64)
    ∷ (ev.correlation_id, 128)
    ∷ (ev.parent_event_id, 128)
    ∷ (ev.thread_id, 128)
    ∷ (ev.turn_id, 128)
    ∷ (ev.tool_name, 256)
    ∷ (ev.command, 4096)
    ∷ (ev.project_root, 4096)
    ∷ (ev.path, 4096)
    ∷ (ev.previous_path, 4096)
    ∷ (ev.node_id, 128)
    ∷ (ev.content_hash_before, 256)
    ∷ (ev.content_hash_after, 256)
    ∷ (ev.phase_id, 64)
    ∷ (ev.slice_id, 64)
    ∷ (ev.action_label, 256)
    ∷ []

-- A number that is given is not negative.
abbrev pub IsNatural : Option ℤ → Type 0
IsNatural given = (n : ℤ) → given ≡ some n → pos 0 ≤ℤ n

pub record IsAccepted (json : Json) (ev : Event) : Type 0 where
  pub schema : ev.schema_version ≡ bytes "1.0"
  pub identified : is_empty ev.event_id ≡ false
  -- The type, the source and the confidence are constants.
  pub known_type : (s : Text) → ev.event_type ≢ EventType.other s
  pub known_source : (s : Text) → ev.source_type ≢ SourceType.other s
  pub known_confidence : (s : Text) → ev.source_confidence ≢ Confidence.other s
  pub timed : 1 ≤ ev.timestamp
  pub monotonic : pos 0 ≤ℤ ev.monotonic_timestamp
  pub process : pos 0 ≤ℤ ev.process_id
  pub strings : All IsText (string_limits ev)
  pub duration : IsNatural ev.duration_ms
  pub lines : IsNatural ev.lines_added × IsNatural ev.lines_deleted
  pub sizes : IsNatural ev.bytes_before × IsNatural ev.bytes_after
  pub small : IsSmall json ev.metadata

known_type-other : (t : EventType) (s : Text) → valid_event_type t ≡ true → t ≢ EventType.other s
unfolding valid_event_type
known_type-other t s h same = ground (arith, subst (λ u. valid_event_type u ≡ true) same h)

known_source-other : (t : SourceType) (s : Text) → valid_source t ≡ true → t ≢ SourceType.other s
unfolding valid_source
known_source-other t s h same = ground (arith, subst (λ u. valid_source u ≡ true) same h)

known_confidence-other :
    (t : Confidence) (s : Text) → valid_confidence t ≡ true → t ≢ Confidence.other s
unfolding valid_confidence
known_confidence-other t s h same = ground (arith, subst (λ u. valid_confidence u ≡ true) same h)

non_negative-pos : (n : ℤ) → non_negative (some n) ≡ true → pos 0 ≤ℤ n
unfolding non_negative
non_negative-pos (pos n) h = omega arith
non_negative-pos (negsuc n) h = cc

non_negative-IsNatural : (given : Option ℤ) → non_negative given ≡ true → IsNatural given
unfolding non_negative
non_negative-IsNatural given h n same =
    non_negative-pos n (subst (λ g. non_negative g ≡ true) same h)

valid_strings-All : (fields : List (Text × ℕ)) → valid_strings fields ≡ true → All IsText fields
unfolding valid_strings valid_string
valid_strings-All [] h = tt
valid_strings-All ((value, limit) ∷ fields) h =
    (ground arith, valid_strings-All fields (ground arith))

numbers_of :
    (ev : Event)
    → valid_numbers ev ≡ true
    → IsNatural ev.duration_ms
      × (IsNatural ev.lines_added × IsNatural ev.lines_deleted)
      × (IsNatural ev.bytes_before × IsNatural ev.bytes_after)
unfolding valid_numbers
numbers_of ev h = (
  non_negative-IsNatural ev.duration_ms (ground (arith, h)),
  (
    non_negative-IsNatural ev.lines_added (ground (arith, h)),
    non_negative-IsNatural ev.lines_deleted (ground (arith, h)),
  ),
  (
    non_negative-IsNatural ev.bytes_before (ground (arith, h)),
    non_negative-IsNatural ev.bytes_after (ground (arith, h)),
  ),
)

validate_decoded-ok :
    (o : Option Value)
    → validate_decoded o ≡ ok tt
    → (value : Value) × (o ≡ some value)
      × (height value ≤ 8)
      × (size value ≤ 1024)
      × (valid_keys value ≡ true)
unfolding validate_decoded
validate_decoded-ok none h = cc
validate_decoded-ok (some value) h = elim (Result-cases (validate_value 0 0 value)) [
  | inl (n, good) ↦
      let limits = (validate_value-ok_iff value n).0 good in
      (value, refl, limits.0, limits.1, limits.2)
  | inr (e, bad) ↦ absurd (ground (arith, bad, h))
]

validate_payload-ok :
    (json : Json) (payload : Text)
    → validate_payload json (some payload) ≡ ok tt
    → (length payload ≤ 65536) × (validate_decoded (json.unmarshal payload) ≡ ok tt)
unfolding validate_payload
validate_payload-ok json payload h =
    let parts =
      guard-ok (leb (length payload) max_metadata_bytes) metadata_too_large
        (validate_decoded (json.unmarshal payload)) tt h in
    (ground (arith, parts.0), parts.1)

validate_metadata-IsSmall :
    (json : Json) (fields : Fields) → validate_metadata json fields ≡ ok tt → IsSmall json fields
unfolding validate_metadata
validate_metadata-IsSmall json end h = tt
validate_metadata-IsSmall json (field k v fields) h =
    elim (Option-cases (json.marshal (field k v fields))) [
      | inl failed ↦ absurd (unfold validate_payload in ground (arith, failed, h))
      | inr (payload, made) ↦
          let parts =
            validate_payload-ok json payload (sym (ap (validate_payload json) made) ∙ h) in
          (payload, made, parts.0, validate_decoded-ok (json.unmarshal payload) parts.1)
    ]

-- An event that Validate accepts has the schema version 1.0, an id, a type, a source and a
-- confidence that are not strings unknown to the protocol, and a time. None of its monotonic
-- timestamp, process id, duration, line counts and sizes is negative. Each of its string fields is
-- valid UTF-8 without NUL and within the limit that the table gives for it. Its metadata is empty,
-- or its payload has at most 65536 bytes and decodes to a value within the limits of depth, entries
-- and keys.
pub validate-IsAccepted : (json : Json) (ev : Event) → validate json ev ≡ ok tt → IsAccepted json ev
unfolding validate non_negative
validate-IsAccepted json ev h =
    let schema =
      guard-ok (text_eq ev.schema_version (bytes "1.0")) unsupported_schema_version _ tt h in
    let identified = guard-ok (not (is_empty ev.event_id)) event_id_required _ tt schema.1 in
    let event_type =
      guard-ok (valid_event_type ev.event_type) unsupported_event_type _ tt identified.1 in
    let source = guard-ok (valid_source ev.source_type) unsupported_source_type _ tt event_type.1 in
    let confidence =
      guard-ok (valid_confidence ev.source_confidence) unsupported_source_confidence _ tt
        source.1 in
    let timed = guard-ok (not (ev.timestamp == 0)) timestamp_required _ tt confidence.1 in
    let monotonic =
      guard-ok (non_negative (some ev.monotonic_timestamp)) negative_monotonic _ tt timed.1 in
    let process =
      guard-ok (non_negative (some ev.process_id)) negative_process_id _ tt monotonic.1 in
    let strings = guard-ok (valid_strings (limited_fields ev)) invalid_field _ tt process.1 in
    let numbers = guard-ok (valid_numbers ev) negative_number _ tt strings.1 in
    let natural = numbers_of ev numbers.0 in
    record {
      schema = (text_eq_iff ev.schema_version (bytes "1.0")).0 schema.0;
      identified = ground (arith, identified.0);
      known_type = λ s. known_type-other ev.event_type s event_type.0;
      known_source = λ s. known_source-other ev.source_type s source.0;
      known_confidence = λ s. known_confidence-other ev.source_confidence s confidence.0;
      timed = ground (arith, timed.0);
      monotonic = non_negative-pos ev.monotonic_timestamp monotonic.0;
      process = non_negative-pos ev.process_id process.0;
      strings = unfold limited_fields in valid_strings-All (string_limits ev) strings.0;
      duration = natural.0;
      lines = natural.1;
      sizes = natural.2;
      small = validate_metadata-IsSmall json ev.metadata numbers.1;
    }
