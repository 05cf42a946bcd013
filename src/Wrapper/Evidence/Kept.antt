-- ===== src/Wrapper/Evidence/Kept.antt =====
-- What the evidence gate knows is kept by a flush, a tick and Emit
-- (adapter/go/wrapper/evidence.go).
use agent_action_visualizer.Wrapper.Evidence.Due.{take_due-lookup}
use agent_action_visualizer.Prelude.Time.{sub_time}
use agent_action_visualizer.Wrapper.Evidence.Fresh.{Knows, IsNoted, IsKept}
use agent_action_visualizer.Protocol.Event.{Event}
use agent_action_visualizer.Prelude.Dict.{
  Dict, IsDistinct, retain, lookup, retain-IsDistinct, filter_value, lookup-retain,
}
use agent_action_visualizer.Ingest.Dedupe.{double}
use agent_action_visualizer.Wrapper.Evidence.{
  hand_over_due, flush_evidence, EvidenceGate, tick, emit, new_evidence_gate, hand_over,
  sort_strings, enqueue, due_keys, evidence_key,
}
use agent_action_visualizer.Prelude.{
  ℕ, ◌+◌, ◌*◌, ◌^◌, ◌<◌, ◌≡◌, refl, sym, subst, inl, inr, Bool, false, not, ◌||◌, Option, none,
  some, List, [], ◌∷◌, arith, ltb, if◌then◌else◌, Bool-cases, length, All, Text, if-elim, All-imply,
  ℤ, pos, ltb_ℤ, ◌≤◌,
}
use agent_action_visualizer.Wrapper.Evidence.Reach.{History}

hand_over_due-Knows :
    (g : EvidenceGate) (keys : List Text) (h : History) (now : ℕ)
    → Knows g h now
    → Knows (hand_over_due g keys) h now
unfolding hand_over_due hand_over
hand_over_due-Knows g [] h now known = known
hand_over_due-Knows g (key ∷ keys) h now (fresh, distinct, kept, early) = (
  λ k item found. fresh k item (take_due-lookup g.pending (key ∷ keys) k item found),
  distinct,
  kept,
  early,
)

pub flush_evidence-Knows :
    (g : EvidenceGate) (h : History) (now clock : ℕ) (everything : Bool)
    → Knows g h clock
    → Knows (flush_evidence g now everything) h clock
unfolding flush_evidence
flush_evidence-Knows g h now clock everything =
    hand_over_due-Knows g (sort_strings (due_keys now everything g.pending)) h clock

abbrev stays : ℕ → ℕ → ℕ → Bool
stays window now seen = not (ltb_ℤ (double (pos window)) (sub_time now seen))

IsNoted-filter :
    (window now clock : ℕ) (seen : Option ℕ) (time : ℕ)
    → 2 * window < 2 ^ 63
    → now ≤ clock
    → IsNoted window clock seen time
    → IsNoted window clock (filter_value (stays window now) seen) time
unfolding double sub_time
IsNoted-filter window now clock none time small past n = n
IsNoted-filter window now clock (some seen) time small past n =
    elim (Bool-cases (stays window now seen)) [
      | inl kept ↦
          subst (λ b. IsNoted window clock (if b then some seen else none) time) (sym kept) n
      | inr forgotten ↦
          let late : seen + 2 * window < now = ground (arith, forgotten, small) in
          subst (λ b. IsNoted window clock (if b then some seen else none) time) (sym forgotten)
            (elim n [ inl early ↦ omega (arith, early, late, past) | inr old ↦ old ])
    ]

retain-IsKept :
    (window now clock : ℕ) (recent : Dict ℕ) (h : History)
    → 2 * window < 2 ^ 63
    → now ≤ clock
    → IsDistinct recent
    → All (IsKept window clock recent) h
    → All (IsKept window clock (retain (stays window now) recent)) h
retain-IsKept window now clock recent h small past distinct =
    All-imply (IsKept window clock recent) (IsKept window clock (retain (stays window now) recent))
      h
      (λ entry kept named strong.
        subst (λ o. IsNoted window clock o entry.1)
          (sym (lookup-retain (stays window now) (evidence_key entry.0) recent distinct))
          (IsNoted-filter window now clock (lookup (evidence_key entry.0) recent) entry.1 small past
            (kept named strong)))

hand_over_due-window :
    (g : EvidenceGate) (keys : List Text) → (hand_over_due g keys).window ≡ g.window
unfolding hand_over_due hand_over
hand_over_due-window g [] = refl
hand_over_due-window g (key ∷ keys) = refl

pub flush_evidence-window :
    (g : EvidenceGate) (now : ℕ) (everything : Bool)
    → (flush_evidence g now everything).window ≡ g.window
unfolding flush_evidence
flush_evidence-window g now everything =
    hand_over_due-window g (sort_strings (due_keys now everything g.pending))

forget : EvidenceGate → ℕ → ℕ → EvidenceGate
forget g window now = record g { recent_strong = retain (stays window now) g.recent_strong }

forget-Knows :
    (g : EvidenceGate) (h : History) (window now clock : ℕ)
    → 2 * window < 2 ^ 63
    → now ≤ clock
    → g.window ≡ window
    → Knows g h clock
    → Knows (forget g window now) h clock
unfolding forget
forget-Knows g h window now clock small past same (fresh, distinct, kept, early) = (
  fresh,
  retain-IsDistinct (stays window now) g.recent_strong distinct,
  subst (λ w. All (IsKept w clock (retain (stays window now) g.recent_strong)) h) (sym same)
      (retain-IsKept window now clock g.recent_strong h small past distinct
        (subst (λ w. All (IsKept w clock g.recent_strong) h) same kept)),
  early,
)

pub tick-Knows :
    (g : EvidenceGate) (h : History) (now clock : ℕ)
    → 2 * g.window < 2 ^ 63
    → now ≤ clock
    → Knows g h clock
    → Knows (tick g now) h clock
unfolding tick forget
tick-Knows g h now clock small past known =
    forget-Knows (flush_evidence g now false) h g.window now clock small past
      (flush_evidence-window g now false) (flush_evidence-Knows g h now clock false known)

pub emit-Knows :
    (stopped cancelled : Bool) (g : EvidenceGate) (batch : List Event) (h : History) (clock : ℕ)
    → Knows g h clock
    → Knows (emit stopped cancelled g batch) h clock
unfolding emit enqueue hand_over
emit-Knows stopped cancelled g [] h clock known = known
emit-Knows stopped cancelled g (ev ∷ batch) h clock known =
    if-elim (λ g'. Knows g' h clock) (stopped || cancelled) _ _ (λ _. known)
      (λ _.
        if-elim (λ g'. Knows g' h clock) (ltb (length g.queue) g.capacity) _ _ (λ _. known)
          (λ _. known))

pub new_evidence_gate-Knows : (capacity window : ℤ) → Knows (new_evidence_gate capacity window) [] 0
unfolding new_evidence_gate lookup
new_evidence_gate-Knows capacity window =
    (λ key item found. absurd (ground (arith, found)), tt, tt, tt)
