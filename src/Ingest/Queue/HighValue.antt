-- ===== src/Ingest/Queue/HighValue.antt =====
-- Events of high value are never evicted and stay in order (internal/ingest/queue.go): seen through
-- them alone the queue is a first-in first-out queue.
use agent_action_visualizer.Prelude.{
  ◌≡◌, refl, ◌⊎◌, inl, inr, Bool, true, false, none, some, List, [], ◌∷◌, ◌++◌, arith,
  if◌then◌else◌, Bool-cases, Option-cases, length, keep, keep-append,
}
use mathlib.Core.List.{append-nil}
use agent_action_visualizer.Protocol.Event.{Event, EventType, same_type, same_type_iff}
use agent_action_visualizer.Ingest.Queue.{
  Queue, is_coalescible, high_value, same_target, overwrite_last, coalesce, drop_low, push,
  note_dropped, offer_new, offer, pop_items, pop,
}

abbrev pub is_high : Event → Bool
is_high ev = high_value ev.event_type

unfoldable pub high_events : List Event → List Event
high_events = keep is_high

coalescible-low : (t : EventType) → is_coalescible t ≡ true → high_value t ≡ false
unfolding is_coalescible
coalescible-low t e = elim (Bool-cases (same_type t EventType.file_read)) [
  | inl read ↦ rw ((same_type_iff t EventType.file_read).0 read) (unfold high_value in refl)
  | inr other ↦
      rw ((same_type_iff t EventType.file_focused).0 (ground (arith, other, e)))
        (unfold high_value in refl)
]

same_target-high :
    (queued ev : Event)
    → same_target queued ev ≡ true
    → is_coalescible ev.event_type ≡ true
    → is_high queued ≡ false
unfolding same_target
same_target-high queued ev e c =
    ground
      (arith, same_type_iff queued.event_type ev.event_type, coalescible-low ev.event_type c, e)

-- Coalescing overwrites one event of low value by another.
high_events-overwrite_last :
    (ev : Event) (items items' : List Event)
    → is_coalescible ev.event_type ≡ true
    → overwrite_last ev items ≡ some items'
    → high_events items' ≡ high_events items
unfolding overwrite_last high_events keep
high_events-overwrite_last ev [] items' c e = cc
high_events-overwrite_last ev (queued ∷ items) items' c e =
    elim (Option-cases (overwrite_last ev items)) [
      | inl missed ↦
          ground (arith, missed, e, coalescible-low ev.event_type c, same_target-high queued ev)
      | inr (rest, found) ↦
          ground (arith, found, e, high_events-overwrite_last ev items rest c found)
    ]

high_events-drop_low :
    (items items' : List Event)
    → drop_low items ≡ some items'
    → high_events items' ≡ high_events items
unfolding drop_low high_events keep
high_events-drop_low [] items' e = cc
high_events-drop_low (queued ∷ items) items' e = elim (Option-cases (drop_low items)) [
  | inl missed ↦ ground (arith, missed, e)
  | inr (rest, found) ↦ ground (arith, found, e, high_events-drop_low items rest found)
]

-- Nothing can be dropped exactly when every queued event is of high value.
high_events-drop_none : (items : List Event) → drop_low items ≡ none → high_events items ≡ items
unfolding drop_low high_events keep
high_events-drop_none [] e = refl
high_events-drop_none (queued ∷ items) e = ground (arith, high_events-drop_none items, e)

high_events-append :
    (items : List Event) (ev : Event)
    → high_events (items ++ ev ∷ []) ≡ high_events items ++ (if is_high ev then ev ∷ [] else [])
unfolding high_events keep
high_events-append items ev = keep-append is_high items (ev ∷ [])

coalesce-high_events :
    (ev : Event) (items items' : List Event)
    → coalesce ev items ≡ some items'
    → (high_events items' ≡ high_events items) × (is_high ev ≡ false)
unfolding coalesce
coalesce-high_events ev items items' e = elim (Bool-cases (is_coalescible ev.event_type)) [
  | inl c ↦ (
    high_events-overwrite_last ev items items' c (ground (arith, c, e)),
    coalescible-low ev.event_type c,
  )
  | inr other ↦ absurd (ground (arith, other, e))
]

abbrev pub IsAppended : Queue → Event → Queue × Bool → Type 0
IsAppended q ev r =
    (high_events r.0.items ≡ high_events q.items ++ ev ∷ []) × (is_high ev ≡ true) × (r.1 ≡ true)

abbrev pub IsKept : Queue → Event → Queue × Bool → Type 0
IsKept q ev r =
    (high_events r.0.items ≡ high_events q.items)
    × ((is_high ev ≡ false)
        ⊎ ((r.1 ≡ false) × (high_events q.items ≡ q.items) × (length q.items ≡ q.capacity)))

offer_new-high_events :
    (q : Queue) (ev : Event) → IsAppended q ev (offer_new q ev) ⊎ IsKept q ev (offer_new q ev)
unfolding offer_new push note_dropped
offer_new-high_events q ev = elim (Bool-cases (high_value ev.event_type)) [
  | inl high ↦ elim (Option-cases (drop_low q.items)) [
    | inl all ↦
        ground (arith, high, all, high_events-drop_none q.items all, high_events-append q.items ev)
    | inr (items, found) ↦ ground (
      arith,
      high,
      found,
      high_events-drop_low q.items items found,
      high_events-append q.items ev,
      high_events-append items ev,
    )
  ]
  | inr low ↦ ground (arith, low, high_events-append q.items ev, append-nil (high_events q.items))
]

-- Seen through the events of high value, Offer appends or refuses, and it refuses such an event
-- only when the queue is full of them; nothing of high value is lost or moved.
pub offer-high_events :
    (q : Queue) (ev : Event) → IsAppended q ev (offer q ev) ⊎ IsKept q ev (offer q ev)
unfolding offer
offer-high_events q ev = elim (Option-cases (coalesce ev q.items)) [
  | inl new ↦ rw (new, offer) (offer_new-high_events q ev)
  | inr (items, found) ↦
      rw (found, offer)
        (let kept = coalesce-high_events ev q.items items found in inr (kept.0, inl kept.1))
]

split :
    (q q' : Queue) (ev : Event) (items : List Event)
    → pop_items q items ≡ some (ev, q')
    → high_events items ≡ (if is_high ev then ev ∷ [] else []) ++ high_events q'.items
unfolding pop_items high_events keep
split q q' ev [] e = cc
split q q' ev (x ∷ items) e = ground (arith, e)

-- Pop takes the oldest event; of high value it takes the oldest or none.
pub pop-high_events :
    (q q' : Queue) (ev : Event)
    → pop q ≡ some (ev, q')
    → high_events q.items ≡ (if is_high ev then ev ∷ [] else []) ++ high_events q'.items
unfolding pop
pop-high_events q q' ev e = split q q' ev q.items e
