-- ===== src/Protocol/Metadata.antt =====
-- The limits on an event's metadata: validateString and validateMetadataValue
-- (protocol/go/event.go).
pub mod Limits
use agent_action_visualizer.Prelude.Utf8.{utf8_valid}
use agent_action_visualizer.Prelude.{
  leb, ℕ, ◌+◌, Bool, not, ◌&&◌, ltb, leb, if◌then◌else◌, Result, ok, err, ◌>>=◌, length, Text,
  has_byte, ◌>>◌,
}
use agent_action_visualizer.Protocol.Value.{
  Value, Items, Fields, null, bool, int, float, text, texts, array, object, nil, cons, end, field,
}

abbrev pub max_metadata_depth : ℕ
max_metadata_depth = 8

abbrev pub max_metadata_entries : ℕ
max_metadata_entries = 1024

pub data InvalidMetadata : Type 0 where
  too_deep too_many_entries invalid_key : InvalidMetadata

-- Whether validateString returns no error.
unfoldable pub valid_string : Text → ℕ → Bool
valid_string value limit = utf8_valid value && (not (has_byte 0 value) && leb (length value) limit)

-- What a loop does once its entry is counted, or counts one too many.
unfoldable pub within_entries : ℕ → Result InvalidMetadata ℕ → Result InvalidMetadata ℕ
within_entries entries rest =
    if ltb max_metadata_entries entries then err too_many_entries else rest

unfoldable pub checked_key : Text → Result InvalidMetadata ℕ → Result InvalidMetadata ℕ
checked_key key rest = if valid_string key 128 then rest else err invalid_key

-- The loops go on from the entries that the value of this entry leaves.
unfoldable mutual
  unfolding within_entries checked_key

  pub validate_value : ℕ → ℕ → Value → Result InvalidMetadata ℕ
  validate_value depth entries (array items) =
      if ltb max_metadata_depth depth then err too_deep else validate_items depth entries items
  validate_value depth entries (object fields) =
      if ltb max_metadata_depth depth then err too_deep else validate_fields depth entries fields
  validate_value depth entries _ = if ltb max_metadata_depth depth then err too_deep else ok entries

  pub validate_items : ℕ → ℕ → Items → Result InvalidMetadata ℕ
  validate_items depth entries nil = ok entries
  validate_items depth entries (cons v items) =
      within_entries (entries + 1)
        (validate_value (depth + 1) (entries + 1) v >>= λ n. validate_items depth n items)

  pub validate_fields : ℕ → ℕ → Fields → Result InvalidMetadata ℕ
  validate_fields depth entries end = ok entries
  validate_fields depth entries (field key v fields) = within_entries (entries + 1) (
      checked_key key
        (validate_value (depth + 1) (entries + 1) v >>= λ n. validate_fields depth n fields))
