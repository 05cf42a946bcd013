-- ===== src/Filesystem/Events.antt =====
-- The event of a change and of a rename (internal/adapters/filesystem/observer.go).
use agent_action_visualizer.Prelude.Path.{directory_of}
use agent_action_visualizer.Protocol.Value.{field, end, text, int}
use agent_action_visualizer.Protocol.Zero.{zero_event}
use agent_action_visualizer.Filesystem.Renames.{RenamePair, rel_or_empty}
use agent_action_visualizer.Filesystem.Change.{PendingChange, byte_pointer}
use agent_action_visualizer.Protocol.Event.{EventType, Event, Confidence, SourceType}
use agent_action_visualizer.Prelude.Dict.{Dict, lookup}
use agent_action_visualizer.Prelude.{
  ℕ, zero, suc, ◌+◌, ◌-◌, ◌/◌, ◌%◌, Bool, true, false, not, ◌&&◌, ◌||◌, Option, none, some, [], ◌∷◌,
  ◌++◌, ltb, if◌then◌else◌, length, Text, bytes, text_eq, ℤ, pos,
}

-- In adapter/go/wrapper/wrapper.go.
pub record Observation : Type 0 where
  pub session_id : Text
  pub project_root : Text
  pub agent_type : Text
  pub process_id : ℤ

pub record GitStatus : Type 0 where
  pub index : ℕ
  pub worktree : ℕ

-- GitDelta of git.go
pub record FileDelta : Type 0 where
  pub added : ℤ
  pub deleted : ℤ
  pub binary : Bool

pub record GitEvidence : Type 0 where
  pub status : Dict GitStatus
  pub renames : Dict Text
  pub deltas : Dict FileDelta

unfoldable pub digits : ℕ → ℕ → Text → Text
digits zero n shown = shown
digits (suc fuel) n shown =
    let rest = digits fuel (n / 10) ((48 + n % 10) ∷ shown) in
    if ltb n 10 then (48 + n) ∷ shown else rest

abbrev pub zeros_before : ℕ → Text → Text
zeros_before zero s = s
zeros_before (suc n) s = 48 ∷ zeros_before n s

-- fmt.Sprintf("%s:filesystem:%08d", session, n) for a uint64, which has at most 20 digits.
unfoldable pub filesystem_id : Text → ℕ → Text
unfolding digits
filesystem_id session n =
    let shown = digits 20 n [] in
    session ++ (bytes ":filesystem:" ++ zeros_before (8 - length shown) shown)

unfoldable pub base_filesystem_event : Observation → EventType → Text → Text → ℕ → Bool → Event
base_filesystem_event observation event_type operation_name path at directory = record zero_event {
  schema_version = bytes "1.0";
  session_id = observation.session_id;
  agent_type = observation.agent_type;
  adapter_id = bytes "generic-wrapper";
  adapter_version = bytes "1.0";
  source_type = SourceType.filesystem;
  source_confidence = Confidence.observed;
  event_type = event_type;
  operation = operation_name;
  timestamp = at;
  process_id = observation.process_id;
  project_root = observation.project_root;
  path = path;
  is_directory = some directory;
}

-- The event type and the operation's name, if the change is one to report.
unfoldable pub change_kind : PendingChange → Bool → Option (EventType × Text)
change_kind item directory =
    if item.after.exists && not item.before.exists
    then some
        (if directory then EventType.directory_created else EventType.file_created, bytes "create")
    else if not item.after.exists && item.before.exists
    then some
        (if directory then EventType.directory_deleted else EventType.file_deleted, bytes "delete")
    else if item.after.exists && (item.op.op_write || item.op.op_create)
    then (if directory then none else some (EventType.file_modified, bytes "modify"))
    else none

unfoldable pub with_status : Option GitStatus → Event → Event
with_status none ev = ev
with_status (some s) ev = record ev {
  metadata = field (bytes "git_status") (text (s.index ∷ s.worktree ∷ [])) ev.metadata;
}

unfoldable pub with_delta : Option FileDelta → Bool → Event → Event
with_delta none directory ev = ev
with_delta (some delta) true ev = ev
with_delta (some delta) false ev =
    let noted =
      field (bytes "work_source") (text (bytes "git_numstat"))
        (field (bytes "work_confidence") (text (bytes "correlated")) ev.metadata) in
    if delta.binary then record ev { metadata = noted; is_binary = some true } else record ev {
      metadata = noted;
      lines_added = some delta.added;
      lines_deleted = some delta.deleted;
    }

unfoldable pub is_directory_change : PendingChange → Bool
is_directory_change item = if item.after.exists then item.after.directory else item.before.directory

unfoldable pub describe_change :
    Observation → Text → PendingChange → GitEvidence → EventType → Text → Event
unfolding base_filesystem_event with_status with_delta byte_pointer rel_or_empty is_directory_change
describe_change observation root item evidence event_type operation_name =
    let directory = is_directory_change item in
    let relative = rel_or_empty root item.path in
    with_delta (lookup relative evidence.deltas) directory (
      with_status (lookup relative evidence.status)
        (record (base_filesystem_event observation event_type operation_name item.path item.last
          directory) {
            bytes_before = byte_pointer item.before;
            bytes_after = byte_pointer item.after;
            metadata =
                field (bytes "coalesced_events") (int item.count)
                  (field (bytes "evidence") (text (bytes "filesystem_notification")) end);
          }))

unfoldable pub change_event : Observation → Text → PendingChange → GitEvidence → Option Event
unfolding describe_change change_kind
change_event observation root item evidence = elim (change_kind item (is_directory_change item)) [
  | none ↦ none
  | some kind ↦ some (describe_change observation root item evidence kind.0 kind.1)
]

unfoldable pub rename_type : RenamePair → EventType
rename_type pair =
    if pair.old.before.directory
    then EventType.directory_renamed
    else if not (text_eq (directory_of pair.old.path) (directory_of pair.new.path))
    then EventType.file_moved
    else EventType.file_renamed

unfoldable pub rename_event : Observation → ℕ → RenamePair → Event
unfolding base_filesystem_event filesystem_id rename_type byte_pointer
rename_event observation sequence pair =
    record (base_filesystem_event observation (rename_type pair) (bytes "rename") pair.new.path
      pair.new.last pair.old.before.directory) {
        event_id = filesystem_id observation.session_id sequence;
        previous_path = pair.old.path;
        bytes_before = byte_pointer pair.old.before;
        bytes_after = byte_pointer pair.new.after;
        source_confidence = Confidence.correlated;
        metadata =
            field (bytes "evidence") (text (bytes "unique_filesystem_or_git_correlation")) end;
      }

unfoldable pub dropped_event : Observation → ℕ → ℕ → ℕ → Event
unfolding base_filesystem_event filesystem_id
dropped_event observation sequence at lost =
    record (base_filesystem_event observation EventType.event_dropped_or_coalesced (bytes "drop") []
      at false) {
        event_id = filesystem_id observation.session_id sequence;
        source_confidence = Confidence.inferred;
        is_directory = none;
        metadata =
            field (bytes "dropped_events") (int (pos lost))
              (field (bytes "reason") (text (bytes "filesystem_queue_or_pending_capacity")) end);
      }
