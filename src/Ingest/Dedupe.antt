-- ===== src/Ingest/Dedupe.antt =====
-- The duplicate filter (internal/ingest/dedupe.go). Duplicate holds the filter's mutex.
pub mod Window
use agent_action_visualizer.Prelude.{
  ℕ, suc, ◌+◌, ◌-◌, ◌*◌, ◌^◌, Bool, true, false, not, Option, none, some, [], ◌∷◌, ◌++◌, ltb,
  if◌then◌else◌, Text, bytes, is_empty, ℤ, pos, negsuc, leb_ℤ, ltb_ℤ,
}
use agent_action_visualizer.Prelude.Dict.{Dict, lookup, put, retain}
use agent_action_visualizer.Prelude.Time.{sub_time}
use agent_action_visualizer.Protocol.Event.{Event, EventType}

pub record Deduper : Type 0 where
  pub window : ℤ
  pub seen : Dict ℕ

unfoldable pub new_deduper : ℤ → Deduper
new_deduper window = record { window = window; seen = [] }

-- d.window*2 on an int64, which wraps.
unfoldable pub double : ℤ → ℤ
double (pos n) = if ltb (2 * n) (2 ^ 63) then pos (2 * n) else negsuc (2 ^ 64 - 2 * n - 1)
double (negsuc n) =
    if ltb (2 * n + 1) (2 ^ 63) then negsuc (2 * n + 1) else pos (2 ^ 64 - 2 * n - 2)

-- string(eventType)
unfoldable pub type_name : EventType → Text
type_name EventType.session_started = bytes "session_started"
type_name EventType.session_stopped = bytes "session_stopped"
type_name EventType.agent_started = bytes "agent_started"
type_name EventType.agent_stopped = bytes "agent_stopped"
type_name EventType.tool_started = bytes "tool_started"
type_name EventType.tool_completed = bytes "tool_completed"
type_name EventType.file_focused = bytes "file_focused"
type_name EventType.file_read = bytes "file_read"
type_name EventType.file_created = bytes "file_created"
type_name EventType.file_modified = bytes "file_modified"
type_name EventType.file_patched = bytes "file_patched"
type_name EventType.file_renamed = bytes "file_renamed"
type_name EventType.file_moved = bytes "file_moved"
type_name EventType.file_deleted = bytes "file_deleted"
type_name EventType.directory_created = bytes "directory_created"
type_name EventType.directory_renamed = bytes "directory_renamed"
type_name EventType.directory_deleted = bytes "directory_deleted"
type_name EventType.command_started = bytes "command_started"
type_name EventType.command_completed = bytes "command_completed"
type_name EventType.access_interval_opened = bytes "access_interval_opened"
type_name EventType.access_interval_closed = bytes "access_interval_closed"
type_name EventType.diff_calculated = bytes "diff_calculated"
type_name EventType.project_rescanned = bytes "project_rescanned"
type_name EventType.adapter_connected = bytes "adapter_connected"
type_name EventType.adapter_disconnected = bytes "adapter_disconnected"
type_name EventType.adapter_warning = bytes "adapter_warning"
type_name EventType.event_dropped_or_coalesced = bytes "event_dropped_or_coalesced"
type_name (EventType.other s) = s

unfoldable pub key_of : Event → Text
key_of ev =
    if is_empty ev.event_id
    then type_name ev.event_type ++ (0 ∷ ev.session_id ++ (0 ∷ ev.path ++ (0 ∷ ev.correlation_id)))
    else ev.event_id

unfoldable pub is_recent : ℤ → ℕ → Option ℕ → Bool
is_recent window now none = false
is_recent window now (some seen) = leb_ℤ (sub_time now seen) window

-- Notes the key, and forgets the keys that were last noted more than two windows ago.
unfoldable pub note : Deduper → Text → ℕ → Deduper
note d key now = record d {
  seen = retain (λ seen. not (ltb_ℤ (double d.window) (sub_time now seen))) (put key now d.seen);
}

unfoldable pub duplicate : Deduper → Event → ℕ → Deduper × Bool
duplicate d ev now =
    if is_recent d.window now (lookup (key_of ev) d.seen)
    then (d, true)
    else (note d (key_of ev) now, false)
