-- ===== src/Filesystem/Batch.antt =====
-- The events of a batch of changes (internal/adapters/filesystem/observer.go).
pub mod Ids
pub mod Numbers
use agent_action_visualizer.Filesystem.Events.{
  rename_event, filesystem_id, change_event, Observation, GitEvidence,
}
use agent_action_visualizer.Prelude.Keys.{has_key}
use agent_action_visualizer.Protocol.Zero.{zero_event}
use agent_action_visualizer.Wrapper.Stream.{next_sequence}
use agent_action_visualizer.Filesystem.Renames.{RenamePair, correlate_renames, rel_or_empty}
use agent_action_visualizer.Filesystem.Change.{PendingChange, byte_pointer}
use agent_action_visualizer.Protocol.Event.{EventType, Event, Confidence, SourceType}
use agent_action_visualizer.Prelude.Dict.{Dict, lookup}
use agent_action_visualizer.Prelude.{
  ℕ, zero, ◌+◌, Option, none, some, List, [], ◌∷◌, ◌++◌, if◌then◌else◌, Text,
}

unfoldable pub rename_events : Observation → ℕ → List RenamePair → List Event × ℕ
unfolding rename_event next_sequence
rename_events observation sequence [] = ([], sequence)
rename_events observation sequence (pair ∷ pairs) =
    let next = next_sequence sequence in
    let rest = rename_events observation next pairs in
    (rename_event observation next pair ∷ rest.0, rest.1)

abbrev pub with_change : Text → Option Event → ℕ → (ℕ → List Event × ℕ) → List Event × ℕ
with_change session none sequence rest = rest sequence
with_change session (some ev) sequence rest =
    let events = rest (next_sequence sequence) in
    (record ev { event_id = filesystem_id session (next_sequence sequence) } ∷ events.0, events.1)

unfoldable pub change_events :
    Observation → Text → GitEvidence → List Text → List PendingChange → ℕ → List Event × ℕ
unfolding change_event
change_events observation root evidence consumed [] sequence = ([], sequence)
change_events observation root evidence consumed (item ∷ batch) sequence =
    with_change observation.session_id
      (if has_key item.path consumed then none else change_event observation root item evidence)
      sequence (change_events observation root evidence consumed batch)

unfoldable pub events_for_batch :
    Observation → Text → List PendingChange → GitEvidence → ℕ → List Event × ℕ
unfolding rename_events change_events correlate_renames
events_for_batch observation root batch evidence sequence =
    let (pairs, consumed) = correlate_renames root batch evidence.renames in
    let (renamed, next) = rename_events observation sequence pairs in
    let (changed, last) = change_events observation root evidence consumed batch next in
    (renamed ++ changed, last)
