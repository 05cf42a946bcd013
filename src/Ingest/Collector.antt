-- ===== src/Ingest/Collector.antt =====
-- The collector's worker and its callers (internal/ingest/collector.go), as a step relation.
pub mod Wakeup
use agent_action_visualizer.Protocol.Event.{Event}
use agent_action_visualizer.Prelude.{
  ℕ, suc, ◌+◌, ◌≡◌, Bool, true, false, none, some, List, [], ◌∷◌, if◌then◌else◌, ℤ,
}
use agent_action_visualizer.Ingest.Queue.{Queue, new_queue, offer, pop}

-- `wake` tells whether the channel holds its one token, `signalling` counts the calls of Submit
-- whose event is accepted and which have yet to send one, and `draining` tells whether the worker is
-- in drain or waits in its select. `handled` holds what the handler was given, the last first.
pub record Collector : Type 0 where
  pub queue : Queue
  pub wake : Bool
  pub signalling : ℕ
  pub draining : Bool
  pub handled : List Event

-- NewCollector, and Start, whose worker drains first.
unfoldable pub new_collector : ℤ → Collector
new_collector capacity = record {
  queue = new_queue capacity;
  wake = false;
  signalling = 0;
  draining = true;
  handled = [];
}

-- Submit up to its select.
unfoldable pub submit : Collector → Event → Collector × Bool
submit c ev =
    let (queue, accepted) = offer c.queue ev in
    if accepted
    then (record c { queue = queue; signalling = c.signalling + 1 }, true)
    else (record c { queue = queue }, false)

-- The select of Submit, after which `n` other calls have yet to reach theirs.
unfoldable pub signal : Collector → ℕ → Collector
signal c n = record c { wake = true; signalling = n }

-- A round of drain's loop, or its end.
unfoldable pub drain_step : Collector → Collector
drain_step c = elim (pop c.queue) [
  | none ↦ record c { draining = false }
  | some (ev, queue) ↦ record c { queue = queue; handled = ev ∷ c.handled }
]

pub data CollectorStep : Collector → Collector → Type 0 where
  submits : (c : Collector) (ev : Event) → CollectorStep c (submit c ev).0
  signals : (c : Collector) (n : ℕ) → c.signalling ≡ suc n → CollectorStep c (signal c n)
  drains : (c : Collector) → c.draining ≡ true → CollectorStep c (drain_step c)
  wakes :
      (c : Collector)
      → c.draining ≡ false
      → c.wake ≡ true
      → CollectorStep c (record c { wake = false; draining = true })
  times_out : (c : Collector) → c.draining ≡ false → CollectorStep c (record c { draining = true })

pub data CollectorReaches (c : Collector) : Collector → Type 0 where
  unmoved : CollectorReaches c c
  moved : {d e : Collector} → CollectorReaches c d → CollectorStep d e → CollectorReaches c e
