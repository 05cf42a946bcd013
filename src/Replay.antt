-- ===== src/Replay.antt =====
-- internal/replay: the order in which stored events are applied again.
pub mod Order
pub mod Canonical
pub mod Reconstruct
mod Tests
use agent_action_visualizer.Protocol.Event.{EventType, Event}
use agent_action_visualizer.Prelude.{
  ℕ, Bool, true, false, not, List, [], ◌∷◌, ltb, ◌==◌, if◌then◌else◌, Text, text_lt, ℤ, pos, ltb_ℤ,
  eqb_ℤ,
}
use agent_action_visualizer.Prelude.Keys.{has_key}
use agent_action_visualizer.Prelude.Sort.{sort}

unfoldable pub replay_rank : EventType → ℕ
replay_rank EventType.session_started = 0
replay_rank EventType.session_stopped = 2
replay_rank _ = 1

-- The comparison of monotonic timestamps, which are not equal: a zero comes last.
unfoldable pub monotonic_before : ℤ → ℤ → Bool
monotonic_before left right =
    if eqb_ℤ left (pos 0) then false else if eqb_ℤ right (pos 0) then true else ltb_ℤ left right

-- The order of sort.Slice.
unfoldable pub replays_before : Event → Event → Bool
unfolding replay_rank monotonic_before
replays_before left right =
    if not (replay_rank left.event_type == replay_rank right.event_type)
    then ltb (replay_rank left.event_type) (replay_rank right.event_type)
    else if not (left.timestamp == right.timestamp)
    then ltb left.timestamp right.timestamp
    else if not (eqb_ℤ left.monotonic_timestamp right.monotonic_timestamp)
    then monotonic_before left.monotonic_timestamp right.monotonic_timestamp
    else text_lt left.event_id right.event_id

-- The first event of each id, from the ids seen on. The code takes them out of a map, in any order.
unfoldable pub unique_events : List Text → List Event → List Event
unfolding has_key
unique_events seen [] = []
unique_events seen (ev ∷ events) =
    let skip = unique_events seen events in
    let take = ev ∷ unique_events (ev.event_id ∷ seen) events in
    if has_key ev.event_id seen then skip else take

unfoldable pub canonical_events : List Event → List Event
unfolding sort replays_before unique_events
canonical_events events = sort replays_before (unique_events [] events)
