-- ===== src/Wrapper/Evidence/Quiet.antt =====
-- Fallback evidence that the gate hands over has no strong evidence beside it
-- (adapter/go/wrapper/evidence.go).
use agent_action_visualizer.Wrapper.Evidence.Kept.{
  flush_evidence-window, new_evidence_gate-Knows, emit-Knows, tick-Knows, flush_evidence-Knows,
}
use agent_action_visualizer.Wrapper.Evidence.Distinct.{Reaches-IsDistinct}
use agent_action_visualizer.Wrapper.Evidence.Received.{process-Knows}
use agent_action_visualizer.Prelude.Sort.Sorted.{Has}
use agent_action_visualizer.Wrapper.Evidence.Due.{All-take_due, sort_strings-IsHeld}
use agent_action_visualizer.Wrapper.Evidence.Fresh.{Knows, IsQuiet, Knows-later}
use agent_action_visualizer.Protocol.Event.{Event}
use agent_action_visualizer.Prelude.Dict.{}
use agent_action_visualizer.Wrapper.Evidence.{
  EvidenceGate, tick, emit, new_evidence_gate, hand_over, sort_strings, enqueue, process,
  or_default, is_fallback_evidence, due_keys, process_keyed, default_evidence_window,
  process_fallback, take_due, evidence_key, process_strong,
}
use agent_action_visualizer.Prelude.{
  ℕ, ◌*◌, ◌^◌, ◌<◌, ◌≡◌, refl, sym, ◌∙◌, subst, Bool, true, false, List, [], ◌∷◌, arith, All, ℤ,
  max,
}
use agent_action_visualizer.Wrapper.Evidence.Reach.{
  History, Reaches, begins, emits, receives, ticks, stops,
}

process-window :
    (g : EvidenceGate) (batch : List Event) (now : ℕ) → (process g batch now).window ≡ g.window
unfolding process process_keyed process_fallback process_strong hand_over
process-window g [] now = refl
process-window g (ev ∷ batch) now =
    process-window (process_keyed g (evidence_key ev) ev now) batch now ∙ ground arith

emit-window :
    (stopped cancelled : Bool) (g : EvidenceGate) (batch : List Event)
    → (emit stopped cancelled g batch).window ≡ g.window
unfolding emit enqueue hand_over
emit-window stopped cancelled g [] = refl
emit-window stopped cancelled g (ev ∷ batch) = ground arith

tick-window : (g : EvidenceGate) (now : ℕ) → (tick g now).window ≡ g.window
unfolding tick
tick-window g now = flush_evidence-window g now false

new_evidence_gate-window :
    (capacity window : ℤ)
    → (new_evidence_gate capacity window).window ≡ or_default default_evidence_window window
unfolding new_evidence_gate
new_evidence_gate-window capacity window = refl

pub Reaches-window :
    (capacity window : ℤ) (g : EvidenceGate) (h : History) (clock : ℕ)
    → Reaches capacity window g h clock
    → g.window ≡ or_default default_evidence_window window
Reaches-window capacity window g h clock begins = new_evidence_gate-window capacity window
Reaches-window capacity window g h clock (emits g' h' c' stopped cancelled batch r) =
    emit-window stopped cancelled g' batch ∙ Reaches-window capacity window g' h' c' r
Reaches-window capacity window g h clock (receives g' h' c' now batch rest r queued later) =
    process-window (record g' { queue = rest }) batch now
    ∙ Reaches-window capacity window g' h' c' r
Reaches-window capacity window g h clock (ticks g' h' c' now r) =
    tick-window g' now ∙ Reaches-window capacity window g' h' c' r
Reaches-window capacity window g h clock (stops g' h' c' now r later done) =
    flush_evidence-window g' now true ∙ Reaches-window capacity window g' h' c' r

pub Reaches-Knows :
    (capacity window : ℤ) (g : EvidenceGate) (h : History) (clock : ℕ)
    → 2 * or_default default_evidence_window window < 2 ^ 63
    → Reaches capacity window g h clock
    → Knows g h clock
Reaches-Knows capacity window g h clock small begins = new_evidence_gate-Knows capacity window
Reaches-Knows capacity window g h clock small (emits g' h' c' stopped cancelled batch r) =
    emit-Knows stopped cancelled g' batch h' c' (Reaches-Knows capacity window g' h' c' small r)
Reaches-Knows capacity window g h clock small (receives g' h' c' now batch rest r queued later) =
    process-Knows (record g' { queue = rest }) h' batch now
      (Knows-later g' h' c' now later (Reaches-Knows capacity window g' h' c' small r))
Reaches-Knows capacity window g h clock small (ticks g' h' c' now r) =
    tick-Knows g' h' now (max c' now)
      (subst (λ w. 2 * w < 2 ^ 63) (sym (Reaches-window capacity window g' h' c' r)) small)
      (omega arith)
      (Knows-later g' h' c' (max c' now) (omega arith)
        (Reaches-Knows capacity window g' h' c' small r))
Reaches-Knows capacity window g h clock small (stops g' h' c' now r later done) =
    flush_evidence-Knows g' h' now now true
      (Knows-later g' h' c' now later (Reaches-Knows capacity window g' h' c' small r))

-- The event was received as fallback evidence, and all strong evidence of its key that was received
-- until now came more than a window before it.
abbrev pub IsUnopposed : ℕ → History → Event → Type 0
IsUnopposed window h ev =
    (is_fallback_evidence ev ≡ true)
    × ((arrival : ℕ) × Has (ev, arrival) h × IsQuiet window (evidence_key ev) arrival h)

-- Let twice the window fit in a Duration, and let Emit and the worker have taken any steps in any
-- order, in which a tick may carry a time before that of the last batch. Then each event that a
-- flush hands over was received as fallback evidence, and every strong event of its key that the
-- worker has received came more than a window before it.
pub flush-IsUnopposed :
    (capacity window : ℤ) (g : EvidenceGate) (h : History) (clock now : ℕ) (everything : Bool)
    → 2 * or_default default_evidence_window window < 2 ^ 63
    → Reaches capacity window g h clock
    → All
        (IsUnopposed (or_default default_evidence_window window) h)
        (take_due g.pending (sort_strings (due_keys now everything g.pending))).0
flush-IsUnopposed capacity window g h clock now everything small r =
    All-take_due (IsUnopposed (or_default default_evidence_window window) h) g.pending
      (sort_strings (due_keys now everything g.pending))
      (sort_strings-IsHeld now everything g.pending
        (Reaches-IsDistinct capacity window g h clock r))
      (λ key item found.
        let (named, keyed, fallback, (arrival, has, expires, quiet)) =
          (Reaches-Knows capacity window g h clock small r).0 key item found in
        (
          fallback,
          (
            arrival,
            has,
            subst (λ k. IsQuiet (or_default default_evidence_window window) k arrival h) (sym keyed)
                (subst (λ w. IsQuiet w key arrival h) (Reaches-window capacity window g h clock r)
                  quiet),
          ),
        ))
