-- ===== src/Ingest/Queue.antt =====
-- The bounded event queue (internal/ingest/queue.go). Each method holds the queue's mutex, so a
-- history is a sequence of calls.
pub mod HighValue
pub mod Delivery
pub mod Bounds
use agent_action_visualizer.Prelude.Int.{inc}
use agent_action_visualizer.Prelude.{
  ℕ, ◌+◌, Bool, true, false, ◌&&◌, ◌||◌, Option, none, some, List, [], ◌∷◌, ◌++◌, ◌==◌,
  if◌then◌else◌, length, text_eq, ℤ, pos, pos_part, ltb_ℤ,
}
use agent_action_visualizer.Protocol.Event.{Event, EventType, same_type}

pub record QueueStats : Type 0 where
  pub accepted : ℕ
  pub dropped : ℕ
  pub coalesced : ℕ

pub record Queue : Type 0 where
  pub capacity : ℕ
  pub items : List Event
  pub stats : QueueStats

unfoldable pub new_queue : ℤ → Queue
new_queue capacity = record {
  capacity = if ltb_ℤ capacity (pos 1) then 1 else pos_part capacity;
  items = [];
  stats = record { accepted = 0; dropped = 0; coalesced = 0 };
}

unfoldable pub is_coalescible : EventType → Bool
is_coalescible t = same_type t EventType.file_read || same_type t EventType.file_focused

unfoldable pub high_value : EventType → Bool
high_value EventType.file_created = true
high_value EventType.file_modified = true
high_value EventType.file_patched = true
high_value EventType.file_renamed = true
high_value EventType.file_moved = true
high_value EventType.file_deleted = true
high_value EventType.directory_created = true
high_value EventType.directory_renamed = true
high_value EventType.directory_deleted = true
high_value EventType.session_started = true
high_value EventType.session_stopped = true
high_value _ = false

unfoldable pub same_target : Event → Event → Bool
same_target queued ev =
    same_type queued.event_type ev.event_type
    && (text_eq queued.path ev.path && text_eq queued.session_id ev.session_id)

-- The loop from the back: the last match is overwritten.
unfoldable pub overwrite_last : Event → List Event → Option (List Event)
overwrite_last ev [] = none
overwrite_last ev (queued ∷ items) = elim (overwrite_last ev items) [
  | some items' ↦ some (queued ∷ items')
  | none ↦ if same_target queued ev then some (ev ∷ items) else none
]

unfoldable pub coalesce : Event → List Event → Option (List Event)
coalesce ev items = if is_coalescible ev.event_type then overwrite_last ev items else none

-- The loop from the front: the first event that is not of high value is taken out.
unfoldable pub drop_low : List Event → Option (List Event)
drop_low [] = none
drop_low (queued ∷ items) =
    if high_value queued.event_type
    then elim (drop_low items) [ none ↦ none | some items' ↦ some (queued ∷ items') ]
    else some items

unfoldable pub push : Queue → Event → Queue × Bool
push q ev = (
  record q {
    items = q.items ++ ev ∷ [];
    stats = record (q.stats) { accepted = inc q.stats.accepted };
  },
  true,
)

unfoldable pub note_dropped : Queue → Queue
note_dropped q = record q { stats = record (q.stats) { dropped = inc q.stats.dropped } }

-- Offer where nothing was coalesced.
unfoldable pub offer_new : Queue → Event → Queue × Bool
unfolding push note_dropped
offer_new q ev =
    if length q.items == q.capacity
    then if high_value ev.event_type
      then elim (drop_low q.items) [
        | none ↦ (note_dropped q, false)
        | some items ↦ push (note_dropped (record q { items = items })) ev
      ]
      else (note_dropped q, false)
    else push q ev

unfoldable pub offer : Queue → Event → Queue × Bool
unfolding offer_new
offer q ev = elim (coalesce ev q.items) [
  | some items ↦ (
    record q { items = items; stats = record (q.stats) { coalesced = inc q.stats.coalesced } },
    true,
  )
  | none ↦ offer_new q ev
]

unfoldable pub pop_items : Queue → List Event → Option (Event × Queue)
pop_items q [] = none
pop_items q (ev ∷ items) = some (ev, record q { items = items })

-- `none` is the result `(Event{}, false)`, which changes nothing.
unfoldable pub pop : Queue → Option (Event × Queue)
unfolding pop_items
pop q = pop_items q q.items
