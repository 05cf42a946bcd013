-- ===== src/Ingest/Collector/Wakeup.antt =====
-- No event waits in the queue of a worker that nobody will wake (internal/ingest/collector.go).
use agent_action_visualizer.Ingest.Queue.{
  pop_items, Queue, offer, pop, offer_new, note_dropped, push,
}
use agent_action_visualizer.Ingest.Collector.{
  Collector, submit, new_collector, signal, CollectorReaches, drain_step, moved, CollectorStep,
  submits, signals, drains, wakes, times_out, unmoved,
}
use agent_action_visualizer.Protocol.Event.{Event}
use agent_action_visualizer.Prelude.{
  inl, inr, ◌≡◌, refl, true, false, List, [], ◌∷◌, arith, ℤ, ◌⊎◌, Bool-cases, ◌≤◌, ltb,
}

-- Where the worker waits and no token is there or on its way, the queue is empty.
abbrev IsCalm : Collector → Type 0
IsCalm c = c.draining ≡ false → c.wake ≡ false → c.signalling ≡ 0 → c.queue.items ≡ []

-- An event that is not accepted leaves the queue as it was.
offer-refused : (q : Queue) (ev : Event) → (offer q ev).1 ≡ false → (offer q ev).0.items ≡ q.items
unfolding offer offer_new note_dropped push
offer-refused q ev h = ground arith

pop-items : (q : Queue) (items : List Event) → q.items ≡ items → pop q ≡ pop_items q items
unfolding pop
pop-items q items e = rw e refl

drain_step-IsCalm :
    (c : Collector) (items : List Event)
    → c.queue.items ≡ items
    → c.draining ≡ true
    → IsCalm (drain_step c)
unfolding drain_step pop_items
drain_step-IsCalm c [] e busy = λ waits quiet none_left. ground (arith, pop-items c.queue [] e, e)
drain_step-IsCalm c (ev ∷ items) e busy =
    λ waits quiet none_left. ground (arith, pop-items c.queue (ev ∷ items) e, busy, waits)

Step-IsCalm : {c d : Collector} → CollectorStep c d → IsCalm c → IsCalm d
unfolding submit signal
Step-IsCalm (submits c ev) a =
    λ waits quiet none_left. ground (arith, a, waits, quiet, none_left, offer-refused c.queue ev)
Step-IsCalm (signals c n e) a = λ waits quiet none_left. cc
Step-IsCalm (drains c e) a = drain_step-IsCalm c c.queue.items refl e
Step-IsCalm (wakes c e f) a = λ waits quiet none_left. cc
Step-IsCalm (times_out c e) a = λ waits quiet none_left. cc

Reaches-IsCalm :
    (capacity : ℤ) (c : Collector) → CollectorReaches (new_collector capacity) c → IsCalm c
unfolding new_collector
Reaches-IsCalm capacity c unmoved = λ waits quiet none_left. cc
Reaches-IsCalm capacity c (moved {d = d} reached step) =
    Step-IsCalm step (Reaches-IsCalm capacity d reached)

-- The worker drains, or a token is there or on its way, or nothing is queued.
abbrev pub IsAlert : Collector → Type 0
IsAlert c = (c.draining ≡ true) ⊎ (c.wake ≡ true) ⊎ (1 ≤ c.signalling) ⊎ (c.queue.items ≡ [])

-- Whatever steps of its callers and its worker lead from a new collector, no wakeup is lost: the
-- worker drains, or its channel holds a token, or a call of Submit has yet to send one, or nothing
-- is queued.
pub Reaches-IsAlert :
    (capacity : ℤ) (c : Collector) → CollectorReaches (new_collector capacity) c → IsAlert c
Reaches-IsAlert capacity c reached = elim (Bool-cases c.draining) [
  | inl busy ↦ inl busy
  | inr waits ↦ elim (Bool-cases c.wake) [
    | inl token ↦ inr (inl token)
    | inr quiet ↦ elim (Bool-cases (ltb 0 c.signalling)) [
      | inl coming ↦ inr (inr (inl (ground arith)))
      | inr none_left ↦
          inr (inr (inr (Reaches-IsCalm capacity c reached waits quiet (ground arith))))
    ]
  ]
]
