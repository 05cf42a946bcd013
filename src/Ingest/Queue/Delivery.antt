-- ===== src/Ingest/Queue/Delivery.antt =====
-- Runs of the queue (internal/ingest/queue.go, and collector.go, whose Submit and drain make these
-- calls): what was accepted and what was handed out.
use agent_action_visualizer.Prelude.{
  ◌≡◌, refl, sym, ap, inl, inr, Option, none, some, List, [], ◌∷◌, ◌++◌, arith, if◌then◌else◌,
  Option-cases, keep, ℤ, keep-append,
}
use mathlib.Core.List.{append-nil, append_assoc}
use mathlib.Core.Path.{◌≡⟨◌⟩◌, ◌∎}
use agent_action_visualizer.Protocol.Event.{Event}
use agent_action_visualizer.Ingest.Queue.{Queue, new_queue, offer, pop}
use agent_action_visualizer.Ingest.Queue.HighValue.{
  is_high, high_events, offer-high_events, pop-high_events,
}
use agent_action_visualizer.Ingest.Queue.Bounds.{
  IsBounded, new_queue-IsBounded, offer-IsBounded, pop-IsBounded,
}

pub data Call : Type 0 where
  offers : Event → Call
  pops : Call

-- The event that a Pop hands out, and the queue that it leaves.
abbrev popped : Queue → Option (Event × Queue) → Queue × List Event
popped q none = (q, [])
popped q (some (ev, q')) = (q', ev ∷ [])

unfoldable pub call : Queue → Call → Queue
call q (offers ev) = (offer q ev).0
call q pops = (popped q (pop q)).0

unfoldable pub accepts : Queue → Call → List Event
accepts q (offers ev) = if (offer q ev).1 then ev ∷ [] else []
accepts q pops = []

unfoldable pub delivers : Queue → Call → List Event
delivers q (offers ev) = []
delivers q pops = (popped q (pop q)).1

unfoldable pub run : Queue → List Call → Queue
run q [] = q
run q (c ∷ cs) = run (call q c) cs

unfoldable pub accepted : Queue → List Call → List Event
accepted q [] = []
accepted q (c ∷ cs) = accepts q c ++ accepted (call q c) cs

unfoldable pub delivered : Queue → List Call → List Event
delivered q [] = []
delivered q (c ∷ cs) = delivers q c ++ delivered (call q c) cs

high_events-append :
    (xs ys : List Event) → high_events (xs ++ ys) ≡ high_events xs ++ high_events ys
unfolding high_events
high_events-append xs ys = keep-append is_high xs ys

high_events_none : high_events [] ≡ []
unfolding high_events keep
high_events_none = refl

high_events_one : (ev : Event) → high_events (ev ∷ []) ≡ (if is_high ev then ev ∷ [] else [])
unfolding high_events keep
high_events_one ev = refl

call-high_events :
    (q : Queue) (c : Call)
    → high_events (delivers q c) ++ high_events (call q c).items
      ≡ high_events q.items ++ high_events (accepts q c)
unfolding call delivers accepts
call-high_events q (offers ev) = elim (offer-high_events q ev) [
  | inl added ↦ ground (arith, added.0, added.1, added.2, high_events_one ev, high_events_none)
  | inr (same, inl low) ↦
      ground
        (arith, same, low, high_events_one ev, high_events_none, append-nil (high_events q.items))
  | inr (same, inr full) ↦
      ground (arith, same, full.0, high_events_none, append-nil (high_events q.items))
]
call-high_events q pops = elim (Option-cases (pop q)) [
  | inl nothing ↦ ground (arith, nothing, high_events_none, append-nil (high_events q.items))
  | inr ((ev, q'), e) ↦ ground (
    arith,
    e,
    high_events_none,
    high_events_one ev,
    pop-high_events q q' ev e,
    append-nil (high_events q.items),
  )
]

-- Whatever is offered and popped, the events of high value that came out, followed by those still
-- queued, are those queued at first, followed by those that Offer accepted: none is lost, doubled
-- or overtaken.
pub run-high_events :
    (q : Queue) (cs : List Call)
    → high_events (delivered q cs) ++ high_events (run q cs).items
      ≡ high_events q.items ++ high_events (accepted q cs)
unfolding run accepted delivered
run-high_events q [] = unfold high_events keep in sym (append-nil (high_events q.items))
run-high_events q (c ∷ cs) =
    high_events (delivers q c ++ delivered (call q c) cs) ++ high_events (run (call q c) cs).items
    ≡⟨ (simp (high_events-append, append_assoc)) ⟩
      high_events (delivers q c)
      ++ (high_events (delivered (call q c) cs) ++ high_events (run (call q c) cs).items)
    ≡⟨ ap (λ z. high_events (delivers q c) ++ z) (run-high_events (call q c) cs) ⟩
      high_events (delivers q c)
      ++ (high_events (call q c).items ++ high_events (accepted (call q c) cs))
    ≡⟨ sym (
        append_assoc (high_events (delivers q c)) (high_events (call q c).items)
          (high_events (accepted (call q c) cs))) ⟩
      (high_events (delivers q c) ++ high_events (call q c).items)
      ++ high_events (accepted (call q c) cs)
    ≡⟨ ap (λ z. z ++ high_events (accepted (call q c) cs)) (call-high_events q c) ⟩
      (high_events q.items ++ high_events (accepts q c)) ++ high_events (accepted (call q c) cs)
    ≡⟨ (simp (high_events-append, append_assoc)) ⟩
      high_events q.items ++ high_events (accepts q c ++ accepted (call q c) cs) ∎

call-IsBounded : (q : Queue) (c : Call) → IsBounded q → IsBounded (call q c)
unfolding call
call-IsBounded q (offers ev) b = offer-IsBounded q ev b
call-IsBounded q pops b = elim (Option-cases (pop q)) [
  | inl nothing ↦ rw (nothing, call) b
  | inr ((ev, q'), e) ↦ rw (e, call) (pop-IsBounded q q' ev e b)
]

run-IsBounded : (q : Queue) (cs : List Call) → IsBounded q → IsBounded (run q cs)
unfolding run
run-IsBounded q [] b = b
run-IsBounded q (c ∷ cs) b = run-IsBounded (call q c) cs (call-IsBounded q c b)

-- A new queue, whatever capacity is asked for, has room for at least one event and never holds more
-- events than its capacity.
pub run-new_queue-IsBounded :
    (capacity : ℤ) (cs : List Call) → IsBounded (run (new_queue capacity) cs)
run-new_queue-IsBounded capacity cs =
    run-IsBounded (new_queue capacity) cs (new_queue-IsBounded capacity)
