-- ===== src/Replay/Reconstruct.antt =====
-- Reconstruct and applyDiff (internal/replay/replay.go), over the session engine.
pub mod Determined
pub mod Stored
pub mod Closed
use agent_action_visualizer.Replay.{canonical_events}
use agent_action_visualizer.Protocol.Event.{Event, same_type, EventType}
use agent_action_visualizer.Session.Engine.{
  Engine, Error, Work, set_work_result, pause, new_engine, apply,
}
use agent_action_visualizer.Protocol.Value.{Value, int, get_field, float}
use agent_action_visualizer.Session.State.{State}
use agent_action_visualizer.Protocol.Validate.{InvalidEvent, Json, validate}
use agent_action_visualizer.Prelude.{
  ℕ, zero, suc, ◌-◌, max, not, ◌&&◌, Option, none, some, List, [], ◌∷◌, leb, ◌==◌, if◌then◌else◌,
  is_some, Result, ok, err, ◌>>=◌, length, Text, bytes, is_empty, text_eq, ℤ, pos, negsuc, ltb_ℤ,
  ◌>>◌,
}
use agent_action_visualizer.Diff.Kinds.{Status, Source}

pub data ReplayError : Type 0 where
  invalid_event : InvalidEvent → ReplayError
  not_applied : Error → ReplayError
  access_sequence_required start_missing : ReplayError

-- The state is `none` for State{}.
pub record ReplaySnapshot : Type 0 where
  pub state : Option State
  pub cursor : ℤ
  pub cursor_at : ℕ
  pub event_count : ℕ

unfoldable pub metadata_int : Option Value → Option ℤ
metadata_int (some (int n)) = some n
metadata_int (some (float n s)) = n
metadata_int _ = none

-- workdiff.Status(s), with "" replaced.
unfoldable pub diff_status : Text → Status
diff_status s =
    if is_empty s
    then Status.unknown
    else if text_eq s (bytes "known")
    then Status.known
    else if text_eq s (bytes "empty")
    then Status.empty
    else if text_eq s (bytes "unknown")
    then Status.unknown
    else if text_eq s (bytes "binary")
    then Status.binary
    else if text_eq s (bytes "unsupported_encoding")
    then Status.unsupported_encoding
    else if text_eq s (bytes "pending")
    then Status.pending
    else Status.other s

-- workdiff.Source(s), with "" replaced.
unfoldable pub diff_source : Text → Source
diff_source s =
    if is_empty s
    then Source.unknown
    else if text_eq s (bytes "structured_patch")
    then Source.structured_patch
    else if text_eq s (bytes "correlated_snapshot")
    then Source.correlated_snapshot
    else if text_eq s (bytes "git_numstat")
    then Source.git_numstat
    else if text_eq s (bytes "unknown")
    then Source.unknown
    else Source.other s

unfoldable pub wrap_error : Engine × Result Error State → Engine × Result ReplayError State
wrap_error (e, ok s) = (e, ok s)
wrap_error (e, err f) = (e, err (not_applied f))

unfoldable pub diff_work : Event → Work
unfolding diff_status diff_source
diff_work ev = record {
  added = ev.lines_added;
  deleted = ev.lines_deleted;
  status = diff_status ev.status;
  source = diff_source ev.operation;
  confidence = ev.source_confidence;
}

unfoldable pub apply_sequence : Engine → Event → Option ℤ → Engine × Result ReplayError State
unfolding diff_work wrap_error
apply_sequence e ev none = (e, err access_sequence_required)
apply_sequence e ev (some sequence) =
    if ltb_ℤ sequence (pos 1)
    then (e, err access_sequence_required)
    else wrap_error (set_work_result e ev.session_id sequence (diff_work ev))

unfoldable pub apply_diff : Engine → Event → Engine × Result ReplayError State
unfolding apply_sequence metadata_int
apply_diff e ev =
    apply_sequence e ev (metadata_int (get_field (bytes "access_sequence") ev.metadata))

unfoldable pub apply_event : Engine → Event → Engine × Result ReplayError State
unfolding apply_diff
apply_event e ev =
    if same_type ev.event_type EventType.diff_calculated
    then apply_diff e ev
    else wrap_error (apply e ev)

-- The loop over the events up to the cursor, with the engine, the last state and cursorAt.
unfoldable pub replay :
    Engine → Option State → ℕ → List Event → Result ReplayError (Engine × Option State × ℕ)
unfolding apply_event
replay e s at [] = ok (e, s, at)
replay e s at (ev ∷ events) = elim ((apply_event e ev).1) [
  | ok s' ↦ replay (apply_event e ev).0 (some s') (max at ev.timestamp) events
  | err f ↦ err f
]

unfoldable pub take_events : ℕ → List Event → List Event
take_events zero events = []
take_events (suc n) [] = []
take_events (suc n) (ev ∷ events) = ev ∷ take_events n events

abbrev or_zero : Result Error State → Option State
or_zero (ok s) = some s
or_zero (err e) = none

-- What follows the loop.
unfoldable pub finish : Engine × Option State × ℕ → Result ReplayError (Option State)
finish (e, none, at) = err start_missing
finish (e, some s, at) =
    if is_empty s.session_id
    then err start_missing
    else if not (is_some s.stopped_at) && not (at == 0)
    then ok (or_zero (pause e s.session_id at).1)
    else ok (some s)

unfoldable pub replay_to : ℕ → ℤ → List Event → Result ReplayError ReplaySnapshot
unfolding replay take_events finish
replay_to last idle events =
    replay (new_engine idle) none 0 (take_events (suc last) events) >>= λ end.
    finish end >>= λ state.
    ok (record { state = state; cursor = pos last; cursor_at = end.2; event_count = length events })

-- Reconstruct on the canonical list.
unfoldable pub reconstruct_canonical : List Event → ℤ → ℤ → Result ReplayError ReplaySnapshot
unfolding replay_to
reconstruct_canonical [] cursor idle =
    ok (record { state = none; cursor = negsuc 0; cursor_at = 0; event_count = 0 })
reconstruct_canonical events (negsuc n) idle =
    ok (record { state = none; cursor = negsuc 0; cursor_at = 0; event_count = length events })
reconstruct_canonical events (pos n) idle =
    if leb (length events) n
    then replay_to (length events - 1) idle events
    else replay_to n idle events

unfoldable pub validate_all : Json → List Event → Result ReplayError (Unit {0})
validate_all json [] = ok tt
validate_all json (ev ∷ events) = elim (validate json ev) [
  | ok _ ↦ validate_all json events
  | err e ↦ err (invalid_event e)
]

unfoldable pub reconstruct : Json → List Event → ℤ → ℤ → Result ReplayError ReplaySnapshot
unfolding validate_all reconstruct_canonical
reconstruct json events cursor idle =
    validate_all json events >> reconstruct_canonical (canonical_events events) cursor idle
