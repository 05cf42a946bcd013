-- ===== src/Wrapper/Evidence/Distinct.antt =====
-- No key of the pending events has two entries (adapter/go/wrapper/evidence.go).
use agent_action_visualizer.Protocol.Event.{Event}
use agent_action_visualizer.Prelude.Dict.{
  Dict, IsDistinct, delete, delete-IsDistinct, lookup, put-IsDistinct,
}
use agent_action_visualizer.Wrapper.Evidence.{
  process_keyed, take_due, hand_over_due, flush_evidence, tick, emit, new_evidence_gate,
  EvidenceGate, process_fallback, process, hand_over, enqueue, process_strong, PendingEvidence,
  sort_strings, is_fallback_evidence, evidence_key, due_keys, is_covered, is_full,
}
use agent_action_visualizer.Prelude.{
  ℕ, ◌+◌, ◌≡◌, refl, sym, subst, Bool, true, false, ◌||◌, List, [], ◌∷◌, arith, Text, is_empty,
  if-elim, ℤ,
}
use agent_action_visualizer.Wrapper.Evidence.Reach.{
  History, Reaches, begins, emits, receives, ticks, stops,
}

process_keyed-IsDistinct :
    (g : EvidenceGate) (key : Text) (ev : Event) (now : ℕ)
    → IsDistinct g.pending
    → IsDistinct (process_keyed g key ev now).pending
unfolding process_keyed process_fallback process_strong hand_over
process_keyed-IsDistinct g key ev now d =
    if-elim (λ (g' : EvidenceGate). IsDistinct g'.pending) (is_empty key) _ _ (λ _. d)
      (λ _.
        if-elim (λ (g' : EvidenceGate). IsDistinct g'.pending) (is_fallback_evidence ev) _ _
          (λ _.
            if-elim (λ (g' : EvidenceGate). IsDistinct g'.pending)
              (is_covered g.window now (lookup key g.recent_strong) || is_full g key) _ _ (λ _. d)
              (λ _.
                put-IsDistinct key (record { event = ev; expires = now + g.window }) g.pending d))
          (λ _. delete-IsDistinct key g.pending d))

process-IsDistinct :
    (g : EvidenceGate) (batch : List Event) (now : ℕ)
    → IsDistinct g.pending
    → IsDistinct (process g batch now).pending
unfolding process
process-IsDistinct g [] now d = d
process-IsDistinct g (ev ∷ batch) now d =
    process-IsDistinct (process_keyed g (evidence_key ev) ev now) batch now
      (process_keyed-IsDistinct g (evidence_key ev) ev now d)

take_due-IsDistinct :
    (pending : Dict PendingEvidence) (keys : List Text)
    → IsDistinct pending
    → IsDistinct (take_due pending keys).1
unfolding take_due
take_due-IsDistinct pending [] d = d
take_due-IsDistinct pending (key ∷ keys) d =
    take_due-IsDistinct (delete key pending) keys (delete-IsDistinct key pending d)

hand_over_due-IsDistinct :
    (g : EvidenceGate) (keys : List Text)
    → IsDistinct g.pending
    → IsDistinct (hand_over_due g keys).pending
unfolding hand_over_due hand_over
hand_over_due-IsDistinct g [] d = d
hand_over_due-IsDistinct g (key ∷ keys) d = take_due-IsDistinct g.pending (key ∷ keys) d

flush_evidence-IsDistinct :
    (g : EvidenceGate) (now : ℕ) (everything : Bool)
    → IsDistinct g.pending
    → IsDistinct (flush_evidence g now everything).pending
unfolding flush_evidence
flush_evidence-IsDistinct g now everything =
    hand_over_due-IsDistinct g (sort_strings (due_keys now everything g.pending))

tick-IsDistinct :
    (g : EvidenceGate) (now : ℕ) → IsDistinct g.pending → IsDistinct (tick g now).pending
unfolding tick
tick-IsDistinct g now = flush_evidence-IsDistinct g now false

emit-pending :
    (stopped cancelled : Bool) (g : EvidenceGate) (batch : List Event)
    → (emit stopped cancelled g batch).pending ≡ g.pending
unfolding emit enqueue hand_over
emit-pending stopped cancelled g [] = refl
emit-pending stopped cancelled g (ev ∷ batch) = ground arith

new_evidence_gate-IsDistinct :
    (capacity window : ℤ) → IsDistinct (new_evidence_gate capacity window).pending
unfolding new_evidence_gate
new_evidence_gate-IsDistinct capacity window = tt

pub Reaches-IsDistinct :
    (capacity window : ℤ) (g : EvidenceGate) (h : History) (clock : ℕ)
    → Reaches capacity window g h clock
    → IsDistinct g.pending
Reaches-IsDistinct capacity window g h clock begins = new_evidence_gate-IsDistinct capacity window
Reaches-IsDistinct capacity window g h clock (emits g' h' c' stopped cancelled batch r) =
    subst IsDistinct (sym (emit-pending stopped cancelled g' batch))
      (Reaches-IsDistinct capacity window g' h' c' r)
Reaches-IsDistinct capacity window g h clock (receives g' h' c' now batch rest r queued later) =
    process-IsDistinct (record g' { queue = rest }) batch now
      (Reaches-IsDistinct capacity window g' h' c' r)
Reaches-IsDistinct capacity window g h clock (ticks g' h' c' now r) =
    tick-IsDistinct g' now (Reaches-IsDistinct capacity window g' h' c' r)
Reaches-IsDistinct capacity window g h clock (stops g' h' c' now r later done) =
    flush_evidence-IsDistinct g' now true (Reaches-IsDistinct capacity window g' h' c' r)
