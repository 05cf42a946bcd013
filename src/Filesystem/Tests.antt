-- ===== src/Filesystem/Tests.antt =====
-- A rename and a write as one batch, and the theorems of the observer there.
use agent_action_visualizer.Prelude.Int.{next_int}
use agent_action_visualizer.Prelude.Time.{sub_time}
use agent_action_visualizer.Filesystem.Ready.Settled.{ready_changes-IsTakenWhenDue}
use agent_action_visualizer.Filesystem.Ready.Due.{IsTakenWhenDue, IsDue}
use agent_action_visualizer.Filesystem.Accept.Counted.{
  IsAccounted, observed_changes, accept_change-IsAccounted,
}
use agent_action_visualizer.Filesystem.Accept.{
  Watch, accept_change, observed_path, note_change, touch_change, new_change, note_state, join_op,
}
use agent_action_visualizer.Wrapper.Stream.{next_sequence}
use agent_action_visualizer.Prelude.Sort.{sort, insert_sorted}
use agent_action_visualizer.Prelude.Path.{rel, render, directory_of, clean, absolute, join, is_abs}
use agent_action_visualizer.Prelude.Keys.{has_key}
use agent_action_visualizer.Filesystem.Renames.Disjoint.{correlate_renames-IsDisjoint}
use agent_action_visualizer.Filesystem.Renames.Apart.{IsDisjoint}
use agent_action_visualizer.Filesystem.Renames.{
  correlate_renames, correlate, relative_dict, match_git, match_prints, match_old, pair_match,
  pair_up, find_match, is_candidate, created, renamed_away, rel_or_empty,
}
use agent_action_visualizer.Protocol.Event.{Event, EventType}
use agent_action_visualizer.Filesystem.Batch.Ids.{
  IsUnrepeated, after_ids, events_for_batch-IsUnrepeated,
}
use agent_action_visualizer.Filesystem.Renames.Match.{IsRename}
use agent_action_visualizer.Filesystem.Ready.{
  ready_changes, is_ready, latest_rename_change, ready_keys, take_ready,
}
use agent_action_visualizer.Filesystem.Batch.{events_for_batch, rename_events, change_events}
use agent_action_visualizer.Prelude.Dict.{Dict, IsDistinct, lookup, put, delete}
use agent_action_visualizer.Filesystem.Events.{
  Observation, GitEvidence, rename_event, change_event, describe_change, change_kind,
  is_directory_change, with_status, with_delta, rename_type, base_filesystem_event, filesystem_id,
}
use agent_action_visualizer.Filesystem.Change.{
  Operation, FileState, PendingChange, same_fingerprint, needs_rename_window,
}
use agent_action_visualizer.Prelude.{
  ℕ, ◌≤◌, ◌≡◌, refl, true, false, [], ◌∷◌, map, arith, length, keep, All, bytes, text_eq, pos, none,
  has_prefix, take, some,
}

abbrev nothing_done : Operation
nothing_done = record {
  op_create = false;
  op_write = false;
  op_remove = false;
  op_rename = false;
  op_chmod = false;
}

abbrev gone : FileState
gone = record { exists = false; directory = false; size = pos 0; mod_time = pos 0 }

abbrev file_of : ℕ → FileState
file_of size = record { exists = true; directory = false; size = pos size; mod_time = pos 7 }

abbrev moved_from : PendingChange
moved_from = record {
  path = bytes "/p/a";
  op = record nothing_done { op_rename = true };
  before = file_of 3;
  after = gone;
  first = 10;
  last = 10;
  count = pos 1;
}

abbrev moved_to : PendingChange
moved_to = record moved_from {
  path = bytes "/p/d/a";
  op = record nothing_done { op_create = true };
  before = gone;
  after = file_of 3;
}

abbrev written : PendingChange
written = record moved_from {
  path = bytes "/p/b";
  op = record nothing_done { op_write = true };
  before = file_of 4;
  after = file_of 5;
}

abbrev observed : Observation
observed = record {
  session_id = bytes "s";
  project_root = bytes "/p";
  agent_type = [];
  process_id = pos 1;
}

abbrev no_evidence : GitEvidence
no_evidence = record { status = []; renames = []; deltas = [] }

abbrev waiting : Dict PendingChange
waiting = (bytes "/p/a", moved_from) ∷ (bytes "/p/b", written) ∷ (bytes "/p/d/a", moved_to) ∷ []

moves :
    map
      (λ (ev : Event). ev.event_type)
      (events_for_batch observed
        (bytes "/p")
        (moved_from ∷ written ∷ moved_to ∷ [])
        no_evidence
        0).0
    ≡ EventType.file_moved ∷ EventType.file_modified ∷ []
unfolding events_for_batch correlate_renames correlate relative_dict match_git match_prints
    match_old pair_match pair_up find_match is_candidate same_fingerprint created renamed_away
    rel_or_empty rename_events rename_event change_events change_event describe_change change_kind
    is_directory_change with_status with_delta lookup put has_key keep rel render text_eq
    rename_type directory_of clean sort insert_sorted next_sequence base_filesystem_event
    filesystem_id
moves = refl

two_events :
    length
      (events_for_batch observed
        (bytes "/p")
        (moved_from ∷ written ∷ moved_to ∷ [])
        no_evidence
        0).0
    ≡ 2
unfolding events_for_batch correlate_renames correlate relative_dict match_git match_prints
    match_old pair_match pair_up find_match is_candidate same_fingerprint created renamed_away
    rel_or_empty rename_events rename_event change_events change_event describe_change change_kind
    is_directory_change with_status with_delta lookup put has_key keep rel render text_eq
    rename_type directory_of clean sort insert_sorted next_sequence base_filesystem_event
    filesystem_id
two_events = refl

waiting-IsDistinct : IsDistinct waiting
waiting-IsDistinct = unfold lookup text_eq in (refl, (refl, (refl, tt)))

-- The write has settled; the two halves of a rename have not.
ready_changes-IsTakenWhenDue_example :
    (length (ready_changes waiting 100 (pos 75) (pos 150) false 2).0 ≤ 2)
    × IsTakenWhenDue
        (IsDue waiting 100 75 150 false written)
        2
        (ready_changes waiting 100 (pos 75) (pos 150) false 2).0
        (lookup (bytes "/p/b") (ready_changes waiting 100 (pos 75) (pos 150) false 2).1)
        written
ready_changes-IsTakenWhenDue_example =
    ready_changes-IsTakenWhenDue waiting 100 75 150 false 2 (bytes "/p/b") written
      waiting-IsDistinct (omega arith) (omega arith) (unfold lookup text_eq in refl)

takes_write : (ready_changes waiting 100 (pos 75) (pos 150) false 2).0 ≡ written ∷ []
unfolding ready_changes is_ready latest_rename_change ready_keys take_ready needs_rename_window
    sub_time sort insert_sorted take lookup delete text_eq
takes_write = refl

correlate_renames-IsDisjoint_example :
    All
      (IsRename
        (bytes "/p")
        (moved_from ∷ moved_to ∷ [])
        []
        (correlate_renames (bytes "/p") (moved_from ∷ moved_to ∷ []) []).0)
      (correlate_renames (bytes "/p") (moved_from ∷ moved_to ∷ []) []).0
    × IsDisjoint (correlate_renames (bytes "/p") (moved_from ∷ moved_to ∷ []) []).0
correlate_renames-IsDisjoint_example =
    correlate_renames-IsDisjoint (bytes "/p") (moved_from ∷ moved_to ∷ []) []

events_for_batch-IsUnrepeated_example :
    IsUnrepeated (
      map
        (λ (ev : Event). ev.event_id)
        (events_for_batch observed
          (bytes "/p")
          (moved_from ∷ written ∷ moved_to ∷ [])
          no_evidence
          0).0)
    × ((events_for_batch observed
          (bytes "/p")
          (moved_from ∷ written ∷ moved_to ∷ [])
          no_evidence
          0).1
        ≡ after_ids 0 (
            length
              (events_for_batch observed
                (bytes "/p")
                (moved_from ∷ written ∷ moved_to ∷ [])
                no_evidence
                0).0))
events_for_batch-IsUnrepeated_example =
    events_for_batch-IsUnrepeated observed (bytes "/p") (moved_from ∷ written ∷ moved_to ∷ [])
      no_evidence 0 (omega (arith, two_events))

abbrev watching : Watch
watching = record {
  max_pending = 1;
  states = (bytes "/p/b", file_of 4) ∷ [];
  pending = [];
  dropped = 0;
}

abbrev writes : Operation
writes = record nothing_done { op_write = true }

accept_change-IsAccounted_example :
    IsAccounted 0 watching
      (accept_change
        (some (bytes "/"))
        (λ relative. false)
        (bytes "/p")
        watching
        (bytes "p//b")
        writes
        10
        (file_of 5)
        false
        none)
      (observed_changes
        (observed_path (some (bytes "/")) (λ relative. false) (bytes "/p") (bytes "p//b"))
        false)
accept_change-IsAccounted_example =
    accept_change-IsAccounted (some (bytes "/")) (λ relative. false) (bytes "/p") watching
      (bytes "p//b") writes 10 (file_of 5) false none 0 (omega arith) (omega arith) (omega arith) tt

accepts_write :
    length
      (accept_change
        (some (bytes "/"))
        (λ relative. false)
        (bytes "/p")
        watching
        (bytes "p//b")
        writes
        10
        (file_of 5)
        false
        none).pending
    ≡ 1
unfolding accept_change observed_path absolute join clean is_abs next_int note_change touch_change
    new_change rel render text_eq has_prefix lookup put note_state join_op
accepts_write = refl
