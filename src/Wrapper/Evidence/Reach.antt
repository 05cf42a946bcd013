-- ===== src/Wrapper/Evidence/Reach.antt =====
-- The runs of the evidence gate: Emit from any goroutine, and the worker, interleaved
-- (adapter/go/wrapper/evidence.go).
use agent_action_visualizer.Wrapper.Evidence.{
  EvidenceGate, new_evidence_gate, emit, process, tick, flush_evidence,
}
use agent_action_visualizer.Protocol.Event.{Event}
use agent_action_visualizer.Prelude.{ℕ, ◌≤◌, ◌≡◌, Bool, true, List, [], ◌∷◌, ℤ, max}

-- The events that the worker has received, the last first, with the times.
abbrev pub History : Type 0
History = List (Event × ℕ)

abbrev pub receive : List Event → ℕ → History → History
receive [] now h = h
receive (ev ∷ batch) now h = receive batch now ((ev, now) ∷ h)

-- The gates that are reached, with what the worker has received and the latest time it has seen.
-- It reads the clock for a batch, but a tick carries the time at which the ticker fired, which may
-- be before the last batch.
-- When it stops, the worker empties the queue by `receives` and then hands over all that is pending.
pub data Reaches (capacity window : ℤ) : EvidenceGate → History → ℕ → Type 0 where
  begins : Reaches capacity window (new_evidence_gate capacity window) [] 0
  emits :
      (g : EvidenceGate) (h : History) (clock : ℕ) (stopped cancelled : Bool) (batch : List Event)
      → Reaches capacity window g h clock
      → Reaches capacity window (emit stopped cancelled g batch) h clock
  receives :
      (g : EvidenceGate) (h : History) (clock now : ℕ) (batch : List Event)
      (rest : List (List Event))
      → Reaches capacity window g h clock
      → g.queue ≡ batch ∷ rest
      → clock ≤ now
      → Reaches capacity window
          (process (record g { queue = rest }) batch now)
          (receive batch now h)
          now
  ticks :
      (g : EvidenceGate) (h : History) (clock now : ℕ)
      → Reaches capacity window g h clock
      → Reaches capacity window (tick g now) h (max clock now)
  stops :
      (g : EvidenceGate) (h : History) (clock now : ℕ)
      → Reaches capacity window g h clock
      → clock ≤ now
      → g.queue ≡ []
      → Reaches capacity window (flush_evidence g now true) h now
