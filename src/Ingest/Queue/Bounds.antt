-- ===== src/Ingest/Queue/Bounds.antt =====
-- The queue never holds more than its capacity (internal/ingest/queue.go).
use agent_action_visualizer.Prelude.{
  ◌+◌, ◌≤◌, ◌<◌, ◌≡◌, refl, ap, inl, inr, some, List, [], ◌∷◌, arith, Option-cases, length,
  length-append, ℤ, pos, negsuc,
}
use agent_action_visualizer.Protocol.Event.{Event}
use agent_action_visualizer.Ingest.Queue.{
  Queue, new_queue, overwrite_last, coalesce, drop_low, push, note_dropped, offer_new, offer,
  pop_items, pop,
}

pub record IsBounded (q : Queue) : Type 0 where
  pub positive : 0 < q.capacity
  pub within : length q.items ≤ q.capacity

pub new_queue-IsBounded : (capacity : ℤ) → IsBounded (new_queue capacity)
unfolding new_queue
new_queue-IsBounded (pos n) = ground arith
new_queue-IsBounded (negsuc n) = ground arith

length-overwrite_last :
    (ev : Event) (items items' : List Event)
    → overwrite_last ev items ≡ some items'
    → length items' ≡ length items
unfolding overwrite_last
length-overwrite_last ev [] items' e = cc
length-overwrite_last ev (queued ∷ items) items' e = elim (Option-cases (overwrite_last ev items)) [
  | inl missed ↦ ground (arith, missed, e)
  | inr (rest, found) ↦ ground (arith, found, e, length-overwrite_last ev items rest found)
]

length-coalesce :
    (ev : Event) (items items' : List Event)
    → coalesce ev items ≡ some items'
    → length items' ≡ length items
unfolding coalesce
length-coalesce ev items items' e = ground (arith, length-overwrite_last ev items items', e)

length-drop_low :
    (items items' : List Event) → drop_low items ≡ some items' → length items ≡ length items' + 1
unfolding drop_low
length-drop_low [] items' e = cc
length-drop_low (queued ∷ items) items' e = elim (Option-cases (drop_low items)) [
  | inl missed ↦ ground (arith, missed, e)
  | inr (rest, found) ↦ ground (arith, found, e, length-drop_low items rest found)
]

offer_new-IsBounded : (q : Queue) (ev : Event) → IsBounded q → IsBounded (offer_new q ev).0
unfolding offer_new push note_dropped
offer_new-IsBounded q ev b = elim (Option-cases (drop_low q.items)) [
  | inl all ↦ ground (arith, all, length-append q.items (ev ∷ []))
  | inr (items, found) ↦ ground (
    arith,
    found,
    length-drop_low q.items items found,
    length-append q.items (ev ∷ []),
    length-append items (ev ∷ []),
  )
]

pub offer-IsBounded : (q : Queue) (ev : Event) → IsBounded q → IsBounded (offer q ev).0
unfolding offer
offer-IsBounded q ev b = elim (Option-cases (coalesce ev q.items)) [
  | inl new ↦ rw (new, offer) (offer_new-IsBounded q ev b)
  | inr (items, found) ↦
      rw (found, offer)
        (record {
          positive = b.positive;
          within = omega (arith, length-coalesce ev q.items items found, b.within);
        })
]

pop_items-IsBounded :
    (q q' : Queue) (ev : Event) (items : List Event)
    → items ≡ q.items
    → pop_items q items ≡ some (ev, q')
    → IsBounded q
    → IsBounded q'
unfolding pop_items
pop_items-IsBounded q q' ev [] same e b = cc
pop_items-IsBounded q q' ev (x ∷ items) same e b = ground (arith, e, ap length same)

pub pop-IsBounded : (q q' : Queue) (ev : Event) → pop q ≡ some (ev, q') → IsBounded q → IsBounded q'
unfolding pop
pop-IsBounded q q' ev e b = pop_items-IsBounded q q' ev q.items refl e b
