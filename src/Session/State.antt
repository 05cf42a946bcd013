-- ===== src/Session/State.antt =====
-- The state of one session and what Apply does to a session that has started
-- (internal/session/engine.go).
pub mod Invariant
pub mod Timeline
pub mod Focus
use agent_action_visualizer.Prelude.Sort.{sort}
use agent_action_visualizer.Prelude.{
  ℕ, ◌+◌, Text, Bool, false, not, ◌&&◌, ◌||◌, Option, none, some, List, [], ◌∷◌, ltb, ◌==◌, text_eq,
  text_lt, is_empty, is_some, bytes, length, ◌++◌, if◌then◌else◌,
}
use agent_action_visualizer.Protocol.Event.{
  Confidence, SourceType, EventType, Event, same_type, exact, correlated, observed,
}
use agent_action_visualizer.Protocol.Value.{
  Value, Items, Fields, nil, cons, get_field, text, texts, array,
}
use agent_action_visualizer.Session.Interval.{
  AccessInterval, current, set_current, close, contains, append_unique, merge_delta, open_interval,
}

pub record State : Type 0 where
  pub session_id : Text
  pub started_at : ℕ
  pub stopped_at : Option ℕ
  pub paused : Bool
  pub active_path : Text
  pub active_node_id : Text
  pub previous_path : Text
  pub previous_node_id : Text
  pub secondary_paths : List Text
  pub active_operation : Text
  pub active_source : SourceType
  pub active_confidence : Confidence
  pub active_timestamp : ℕ
  pub intervals : List AccessInterval
  pub current_priority : ℕ
  pub current_timestamp : ℕ

-- The literal of a session that starts.
unfoldable pub start : Event → State
start ev = record {
  session_id = ev.session_id;
  started_at = ev.timestamp;
  stopped_at = none;
  paused = false;
  active_path = [];
  active_node_id = [];
  previous_path = [];
  previous_node_id = [];
  secondary_paths = [];
  active_operation = [];
  active_source = SourceType.other [];
  active_confidence = Confidence.other [];
  active_timestamp = 0;
  intervals = [];
  current_priority = 0;
  current_timestamp = ev.timestamp;
}

-- closeCurrent: an open current interval is closed, a closed one stays as it is.
unfoldable pub close_if_open : ℕ → ℕ → AccessInterval → AccessInterval
close_if_open idle at c = if is_some c.ended_at then c else close idle at c

unfoldable pub close_current : ℕ → State → ℕ → State
close_current idle s at = record s { intervals = set_current (close_if_open idle at) s.intervals }

unfoldable pub confidence_priority : Confidence → ℕ
confidence_priority exact = 30
confidence_priority correlated = 20
confidence_priority observed = 10
confidence_priority _ = 0

unfoldable pub operation_priority : EventType → Option ℕ
operation_priority EventType.file_created = some 9
operation_priority EventType.file_patched = some 8
operation_priority EventType.file_modified = some 8
operation_priority EventType.file_renamed = some 7
operation_priority EventType.file_moved = some 7
operation_priority EventType.file_deleted = some 6
operation_priority EventType.file_focused = some 5
operation_priority EventType.file_read = some 3
operation_priority _ = none

-- `none` is the result `(0, false)`.
unfoldable pub focus_priority : Event → Option ℕ
unfolding confidence_priority operation_priority
focus_priority ev = elim (operation_priority ev.event_type) [
  | none ↦ none
  | some operation ↦ some (confidence_priority ev.source_confidence + operation)
]

unfoldable pub text_items : Items → List Text
text_items nil = []
text_items (cons (text path) vs) =
    let rest = text_items vs in if is_empty path then rest else path ∷ rest
text_items (cons _ vs) = text_items vs

-- The loop of compactPaths, over the paths seen so far.
unfoldable pub compact_from : List Text → List Text → List Text
unfolding contains
compact_from seen [] = []
compact_from seen (path ∷ paths) =
    let skip = compact_from seen paths in
    let take = path ∷ compact_from (path ∷ seen) paths in
    if not (is_empty path) && not (contains path seen) then take else skip

unfoldable pub compact_paths : List Text → List Text
unfolding compact_from
compact_paths paths = compact_from [] paths

unfoldable pub raw_paths : Value → List Text
unfolding text_items
raw_paths (texts raw) = raw
raw_paths (array raw) = text_items raw
raw_paths _ = []

unfoldable pub secondary_paths : Fields → List Text
unfolding get_field raw_paths compact_paths sort
secondary_paths metadata = elim (get_field (bytes "secondary_paths") metadata) [
  | none ↦ []
  | some value ↦ sort text_lt (compact_paths (raw_paths value))
]

-- A rename or move of the active file carries the focus and the current interval along.
unfoldable pub follow_rename : State → Event → State
follow_rename s ev =
    if (same_type ev.event_type EventType.file_renamed
        || same_type ev.event_type EventType.file_moved)
      && (text_eq s.active_path ev.previous_path && not (is_empty ev.path))
    then record s {
      active_path = ev.path;
      intervals = set_current (λ c. record c { path = ev.path }) s.intervals;
    }
    else s

-- The fields that every focusing event writes.
unfoldable pub note_event : State → ℕ → Event → State
unfolding secondary_paths
note_event s priority ev = record s {
  current_priority = priority;
  current_timestamp = ev.timestamp;
  active_operation = ev.operation;
  active_source = ev.source_type;
  active_confidence = ev.source_confidence;
  active_timestamp = ev.timestamp;
  secondary_paths = secondary_paths ev.metadata;
}

unfoldable pub append_interval : State → Event → State
append_interval s ev = record s {
  intervals = s.intervals ++ open_interval (length s.intervals + 1) ev ∷ [];
}

abbrev is_open : Option AccessInterval → Bool
is_open none = false
is_open (some c) = not (is_some c.ended_at)

unfoldable pub touch : Event → AccessInterval → AccessInterval
unfolding append_unique merge_delta
touch ev c = merge_delta (record c { operations = append_unique c.operations ev.operation }) ev

-- An event on the file that is active already.
unfoldable pub continue_focus : State → ℕ → Event → State
continue_focus s priority ev =
    if is_open (current s.intervals)
    then note_event (record s { intervals = set_current (touch ev) s.intervals }) priority ev
    else append_interval (note_event s priority ev) ev

-- The current interval is closed, and the event's file becomes the active one.
unfoldable pub refocus : ℕ → State → Event → State
refocus idle s ev = record (close_current idle s ev.timestamp) {
  previous_path = s.active_path;
  previous_node_id = s.active_node_id;
  active_path = ev.path;
  active_node_id = ev.node_id;
}

-- An event on another file.
unfoldable pub switch_focus : ℕ → State → ℕ → Event → State
switch_focus idle s priority ev = append_interval (note_event (refocus idle s ev) priority ev) ev

unfoldable pub focus : ℕ → State → ℕ → Event → State
focus idle s priority ev =
    if is_empty ev.path
    then s
    else if ev.timestamp == s.current_timestamp && ltb priority s.current_priority
    then s
    else if text_eq s.active_path ev.path
    then continue_focus s priority ev
    else switch_focus idle s priority ev

unfoldable pub focus_if_active : ℕ → State → Option ℕ → Event → State
focus_if_active idle s none ev = s
focus_if_active idle s (some priority) ev = focus idle s priority ev

-- Apply, from the test for late events on.
unfoldable pub step : ℕ → State → Event → State
step idle s ev =
    if ltb ev.timestamp s.current_timestamp
    then s
    else if same_type ev.event_type EventType.session_stopped
    then record (close_current idle s ev.timestamp) { stopped_at = some ev.timestamp }
    else if is_some s.stopped_at || s.paused
    then s
    else focus_if_active idle (follow_rename s ev) (focus_priority ev) ev
