-- ===== src/Wrapper/Evidence/Bounds.antt =====
-- The evidence gate holds a bounded number of batches and of pending events
-- (adapter/go/wrapper/evidence.go).
use agent_action_visualizer.Protocol.Event.{Event}
use agent_action_visualizer.Wrapper.Evidence.Reach.{
  History, Reaches, begins, emits, receives, ticks, stops,
}
use agent_action_visualizer.Prelude.Dict.{Dict, length-put, delete, length-delete-le}
use agent_action_visualizer.Wrapper.Evidence.{
  EvidenceGate, process_fallback, process_keyed, take_due, hand_over_due, flush_evidence, emit,
  is_full, process_strong, process, hand_over, sort_strings, enqueue, PendingEvidence, due_keys,
  is_fallback_evidence, evidence_key, or_default, default_evidence_queue, new_evidence_gate, tick,
}
use agent_action_visualizer.Prelude.{
  ℕ, ◌+◌, ◌≤◌, ◌≡◌, refl, ap, inl, inr, Bool, true, false, List, [], ◌∷◌, arith, Bool-cases, length,
  length-append, Text, is_empty, ℤ,
}

abbrev pub IsWithin : ℕ → EvidenceGate → Type 0
IsWithin capacity g =
    (g.capacity ≡ capacity) × (length g.queue ≤ capacity) × (length g.pending ≤ capacity)

process_fallback-IsWithin :
    (n : ℕ) (g : EvidenceGate) (key : Text) (ev : Event) (now : ℕ)
    → IsWithin n g
    → IsWithin n (process_fallback g key ev now)
unfolding process_fallback is_full
process_fallback-IsWithin n g key ev now h = ground (
  arith,
  h.0,
  h.1,
  h.2,
  length-put key (record { event = ev; expires = now + g.window }) g.pending,
)

process_keyed-IsWithin :
    (n : ℕ) (g : EvidenceGate) (key : Text) (ev : Event) (now : ℕ)
    → IsWithin n g
    → IsWithin n (process_keyed g key ev now)
unfolding process_keyed process_strong hand_over
process_keyed-IsWithin n g key ev now h = elim (Bool-cases (is_empty key)) [
  | inl none_such ↦ rw (none_such, process_keyed) h
  | inr named ↦ elim (Bool-cases (is_fallback_evidence ev)) [
    | inl fallback ↦
        rw (named, process_keyed)
          (rw (fallback, process_keyed) (process_fallback-IsWithin n g key ev now h))
    | inr strong ↦
        rw (named, process_keyed)
          (rw (strong, process_keyed)
            (h.0, h.1, ground (arith, length-delete-le key g.pending, h.2)))
  ]
]

process-IsWithin :
    (n : ℕ) (g : EvidenceGate) (batch : List Event) (now : ℕ)
    → IsWithin n g
    → IsWithin n (process g batch now)
unfolding process
process-IsWithin n g [] now h = h
process-IsWithin n g (ev ∷ batch) now h =
    process-IsWithin n (process_keyed g (evidence_key ev) ev now) batch now
      (process_keyed-IsWithin n g (evidence_key ev) ev now h)

take_due-length :
    (pending : Dict PendingEvidence) (keys : List Text)
    → length (take_due pending keys).1 ≤ length pending
unfolding take_due
take_due-length pending [] = omega arith
take_due-length pending (key ∷ keys) =
    ground (arith, take_due-length (delete key pending) keys, length-delete-le key pending)

hand_over_due-IsWithin :
    (n : ℕ) (g : EvidenceGate) (keys : List Text) → IsWithin n g → IsWithin n (hand_over_due g keys)
unfolding hand_over_due hand_over
hand_over_due-IsWithin n g [] h = h
hand_over_due-IsWithin n g (key ∷ keys) h =
    (h.0, h.1, ground (arith, take_due-length g.pending (key ∷ keys), h.2))

flush_evidence-IsWithin :
    (n : ℕ) (g : EvidenceGate) (now : ℕ) (everything : Bool)
    → IsWithin n g
    → IsWithin n (flush_evidence g now everything)
unfolding flush_evidence
flush_evidence-IsWithin n g now everything =
    hand_over_due-IsWithin n g (sort_strings (due_keys now everything g.pending))

emit-IsWithin :
    (n : ℕ) (stopped cancelled : Bool) (g : EvidenceGate) (batch : List Event)
    → IsWithin n g
    → IsWithin n (emit stopped cancelled g batch)
unfolding emit enqueue hand_over
emit-IsWithin n stopped cancelled g [] h = h
emit-IsWithin n stopped cancelled g (ev ∷ batch) h =
    ground (arith, h.0, h.1, h.2, length-append g.queue ((ev ∷ batch) ∷ []))

tick-IsWithin : (n : ℕ) (g : EvidenceGate) (now : ℕ) → IsWithin n g → IsWithin n (tick g now)
unfolding tick
tick-IsWithin n g now = flush_evidence-IsWithin n g now false

-- After any steps of Emit and the worker, the gate has the capacity that it was made with, or the
-- default, and neither more queued batches nor more pending keys than that.
pub Reaches-IsWithin :
    (capacity window : ℤ) (g : EvidenceGate) (h : History) (clock : ℕ)
    → Reaches capacity window g h clock
    → IsWithin (or_default default_evidence_queue capacity) g
Reaches-IsWithin capacity window g h clock begins =
    unfold new_evidence_gate in (refl, ground arith, ground arith)
Reaches-IsWithin capacity window g h clock (emits g' h' c' stopped cancelled batch r) =
    emit-IsWithin (or_default default_evidence_queue capacity) stopped cancelled g' batch
      (Reaches-IsWithin capacity window g' h' c' r)
Reaches-IsWithin capacity window g h clock (receives g' h' c' now batch rest r queued later) =
    let (same, queue_fits, pending_fits) = Reaches-IsWithin capacity window g' h' c' r in
    process-IsWithin (or_default default_evidence_queue capacity) (record g' { queue = rest }) batch
      now (same, ground (arith, queue_fits, ap length queued), pending_fits)
Reaches-IsWithin capacity window g h clock (ticks g' h' c' now r) =
    tick-IsWithin (or_default default_evidence_queue capacity) g' now
      (Reaches-IsWithin capacity window g' h' c' r)
Reaches-IsWithin capacity window g h clock (stops g' h' c' now r later done) =
    flush_evidence-IsWithin (or_default default_evidence_queue capacity) g' now true
      (Reaches-IsWithin capacity window g' h' c' r)
