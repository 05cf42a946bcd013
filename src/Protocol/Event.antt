-- ===== src/Protocol/Event.antt =====
-- The event record and its enumerations (protocol/go/event.go). A string that is none of an
-- enumeration's constants is `other`. A time is a number of nanoseconds since Go's zero time.
use agent_action_visualizer.Prelude.{
  ℕ, ◌≡◌, refl, ◌↔◌, Bool, true, ◌&&◌, Option, [], arith, ◌==◌, if◌then◌else◌, Text, text_eq,
  text_eq_iff, text_eq_refl, ℤ,
}
use agent_action_visualizer.Protocol.Value.{Fields}

pub data Confidence : Type 0 where
  exact correlated observed inferred : Confidence
  other : Text → Confidence

pub data SourceType : Type 0 where
  native_hook structured_stream editor filesystem git wrapper synthetic : SourceType
  other : Text → SourceType

pub data EventType : Type 0 where
  session_started session_stopped agent_started agent_stopped : EventType
  tool_started tool_completed file_focused file_read file_created : EventType
  file_modified file_patched file_renamed file_moved file_deleted : EventType
  directory_created directory_renamed directory_deleted : EventType
  command_started command_completed : EventType
  access_interval_opened access_interval_closed diff_calculated : EventType
  project_rescanned adapter_connected adapter_disconnected : EventType
  adapter_warning event_dropped_or_coalesced : EventType
  other : Text → EventType

-- Go compares the strings; here each constant has a number, and other strings are compared.
unfoldable pub type_tag : EventType → ℕ
type_tag session_started = 0
type_tag session_stopped = 1
type_tag agent_started = 2
type_tag agent_stopped = 3
type_tag tool_started = 4
type_tag tool_completed = 5
type_tag file_focused = 6
type_tag file_read = 7
type_tag file_created = 8
type_tag file_modified = 9
type_tag file_patched = 10
type_tag file_renamed = 11
type_tag file_moved = 12
type_tag file_deleted = 13
type_tag directory_created = 14
type_tag directory_renamed = 15
type_tag directory_deleted = 16
type_tag command_started = 17
type_tag command_completed = 18
type_tag access_interval_opened = 19
type_tag access_interval_closed = 20
type_tag diff_calculated = 21
type_tag project_rescanned = 22
type_tag adapter_connected = 23
type_tag adapter_disconnected = 24
type_tag adapter_warning = 25
type_tag event_dropped_or_coalesced = 26
type_tag (EventType.other s) = 27

unfoldable pub type_text : EventType → Text
type_text (EventType.other s) = s
type_text _ = []

unfoldable pub same_type : EventType → EventType → Bool
same_type a b = type_tag a == type_tag b && text_eq (type_text a) (type_text b)

type_of : ℕ → Text → EventType
type_of tag s =
    if tag == 0
    then session_started
    else if tag == 1
    then session_stopped
    else if tag == 2
    then agent_started
    else if tag == 3
    then agent_stopped
    else if tag == 4
    then tool_started
    else if tag == 5
    then tool_completed
    else if tag == 6
    then file_focused
    else if tag == 7
    then file_read
    else if tag == 8
    then file_created
    else if tag == 9
    then file_modified
    else if tag == 10
    then file_patched
    else if tag == 11
    then file_renamed
    else if tag == 12
    then file_moved
    else if tag == 13
    then file_deleted
    else if tag == 14
    then directory_created
    else if tag == 15
    then directory_renamed
    else if tag == 16
    then directory_deleted
    else if tag == 17
    then command_started
    else if tag == 18
    then command_completed
    else if tag == 19
    then access_interval_opened
    else if tag == 20
    then access_interval_closed
    else if tag == 21
    then diff_calculated
    else if tag == 22
    then project_rescanned
    else if tag == 23
    then adapter_connected
    else if tag == 24
    then adapter_disconnected
    else if tag == 25
    then adapter_warning
    else if tag == 26
    then event_dropped_or_coalesced
    else EventType.other s

type_of-type_tag : (t : EventType) → type_of (type_tag t) (type_text t) ≡ t
unfolding type_of type_tag type_text
type_of-type_tag session_started = refl
type_of-type_tag session_stopped = refl
type_of-type_tag agent_started = refl
type_of-type_tag agent_stopped = refl
type_of-type_tag tool_started = refl
type_of-type_tag tool_completed = refl
type_of-type_tag file_focused = refl
type_of-type_tag file_read = refl
type_of-type_tag file_created = refl
type_of-type_tag file_modified = refl
type_of-type_tag file_patched = refl
type_of-type_tag file_renamed = refl
type_of-type_tag file_moved = refl
type_of-type_tag file_deleted = refl
type_of-type_tag directory_created = refl
type_of-type_tag directory_renamed = refl
type_of-type_tag directory_deleted = refl
type_of-type_tag command_started = refl
type_of-type_tag command_completed = refl
type_of-type_tag access_interval_opened = refl
type_of-type_tag access_interval_closed = refl
type_of-type_tag diff_calculated = refl
type_of-type_tag project_rescanned = refl
type_of-type_tag adapter_connected = refl
type_of-type_tag adapter_disconnected = refl
type_of-type_tag adapter_warning = refl
type_of-type_tag event_dropped_or_coalesced = refl
type_of-type_tag (EventType.other s) = refl

pub same_type_refl : (a : EventType) → same_type a a ≡ true
unfolding same_type
same_type_refl a = ground (arith, text_eq_refl (type_text a))

same_type-parts :
    (a b : EventType)
    → same_type a b ≡ true
    → (type_tag a ≡ type_tag b) × (type_text a ≡ type_text b)
unfolding same_type
same_type-parts a b e = ground (arith, text_eq_iff (type_text a) (type_text b), e)

pub same_type_iff : (a b : EventType) → (same_type a b ≡ true) ↔ (a ≡ b)
same_type_iff a b = (λ e. same (same_type-parts a b e), λ e. rw e (same_type_refl b))
  where
    same : (type_tag a ≡ type_tag b) × (type_text a ≡ type_text b) → a ≡ b
    same h = cc (type_of-type_tag a, type_of-type_tag b, h.0, h.1)

pub record Event : Type 0 where
  pub schema_version : Text
  pub event_id : Text
  pub session_id : Text
  pub project_id : Text
  pub agent_id : Text
  pub agent_type : Text
  pub adapter_id : Text
  pub adapter_version : Text
  pub source_type : SourceType
  pub source_confidence : Confidence
  pub event_type : EventType
  pub operation : Text
  pub status : Text
  pub timestamp : ℕ
  pub monotonic_timestamp : ℤ
  pub correlation_id : Text
  pub parent_event_id : Text
  pub process_id : ℤ
  pub thread_id : Text
  pub turn_id : Text
  pub tool_name : Text
  pub command : Text
  pub project_root : Text
  pub path : Text
  pub previous_path : Text
  pub node_id : Text
  pub is_directory : Option Bool
  pub is_binary : Option Bool
  pub duration_ms : Option ℤ
  pub lines_added : Option ℤ
  pub lines_deleted : Option ℤ
  pub bytes_before : Option ℤ
  pub bytes_after : Option ℤ
  pub content_hash_before : Text
  pub content_hash_after : Text
  pub phase_id : Text
  pub slice_id : Text
  pub action_label : Text
  -- A nil map is `end`.
  pub metadata : Fields
