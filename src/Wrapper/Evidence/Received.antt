-- ===== src/Wrapper/Evidence/Received.antt =====
-- What the evidence gate knows is kept by every event it receives (adapter/go/wrapper/evidence.go).
use agent_action_visualizer.Wrapper.Evidence.Fresh.{IsNoted-later, IsFresh-receive, kept-IsQuiet}
use agent_action_visualizer.Prelude.Sort.Sorted.{here}
use agent_action_visualizer.Protocol.Event.{Event}
use agent_action_visualizer.Wrapper.Evidence.Reach.{History, receive}
use agent_action_visualizer.Wrapper.Evidence.Fresh.{IsNoted, IsKept, Knows, IsStrong, IsFresh}
use agent_action_visualizer.Wrapper.Evidence.{
  EvidenceGate, process_fallback, process_strong, process_keyed, hand_over, process, evidence_key,
  is_fallback_evidence, is_covered, is_full,
}
use agent_action_visualizer.Prelude.Dict.{
  Dict, lookup, put, lookup-put, lookup-delete, put-IsDistinct,
}
use agent_action_visualizer.Prelude.{
  ℕ, ◌+◌, ◌≤◌, ◌≡◌, refl, sym, ap, subst, ◌⊎◌, inl, inr, true, false, ◌||◌, some, List, [], ◌∷◌,
  arith, Bool-cases, All, Text, is_empty, text_eq, text_eq_iff, text_eq_refl, if-elim,
}

IsNoted-put :
    (window clock now : ℕ) (recent : Dict ℕ) (key k : Text) (time : ℕ)
    → clock ≤ now
    → time ≤ clock
    → IsNoted window clock (lookup k recent) time
    → IsNoted window now (lookup k (put key now recent)) time
IsNoted-put window clock now recent key k time later early n = elim (Bool-cases (text_eq key k)) [
  | inl same ↦
      let found : lookup k (put key now recent) ≡ some now =
        ground (arith, lookup-put key k now recent, same) in
      subst (λ o. IsNoted window now o time) (sym found) (inl (omega (arith, later, early)))
  | inr other ↦
      let found : lookup k (put key now recent) ≡ lookup k recent =
        ground (arith, lookup-put key k now recent, other) in
      subst (λ o. IsNoted window now o time) (sym found)
        (IsNoted-later window clock now (lookup k recent) time later n)
]

put-IsKept :
    (window clock now : ℕ) (recent : Dict ℕ) (key : Text) (h : History)
    → clock ≤ now
    → All (λ entry. entry.1 ≤ clock) h
    → All (IsKept window clock recent) h
    → All (IsKept window now (put key now recent)) h
put-IsKept window clock now recent key [] later early kept = tt
put-IsKept window clock now recent key (entry ∷ h) later early kept = (
  λ named strong.
      IsNoted-put window clock now recent key (evidence_key entry.0) entry.1 later early.0
        (kept.0 named strong),
  put-IsKept window clock now recent key h later early.1 kept.1,
)

-- What stays known of an event that leaves the gate as it is.
receive-Knows :
    (g : EvidenceGate) (h : History) (ev : Event) (now : ℕ)
    → (is_empty (evidence_key ev) ≡ true) ⊎ (is_fallback_evidence ev ≡ true)
    → Knows g h now
    → Knows g ((ev, now) ∷ h) now
receive-Knows g h ev now weak (fresh, distinct, kept, early) = (
  λ key item found.
      let known = fresh key item found in
      IsFresh-receive g.window h key item ev now (λ strong. opposed key known.0 strong weak) known,
  distinct,
  (λ named strong. absurd (opposed (evidence_key ev) named (strong, refl) weak), kept),
  (omega arith, early),
)
  where
    opposed :
        (key : Text)
        → is_empty key ≡ false
        → IsStrong key ev
        → (is_empty (evidence_key ev) ≡ true) ⊎ (is_fallback_evidence ev ≡ true)
        → ⊥
    opposed key named strong (inl nameless) = ground (arith, ap is_empty strong.1, named, nameless)
    opposed key named strong (inr fallback) = ground (arith, strong.0, fallback)

-- Fallback evidence becomes pending.
store-Knows :
    (g : EvidenceGate) (h : History) (ev : Event) (now : ℕ)
    → is_empty (evidence_key ev) ≡ false
    → is_fallback_evidence ev ≡ true
    → is_covered g.window now (lookup (evidence_key ev) g.recent_strong) ≡ false
    → Knows g h now
    → Knows
        (record g {
          pending =
              put (evidence_key ev) (record { event = ev; expires = now + g.window }) g.pending;
        })
        ((ev, now) ∷ h)
        now
store-Knows g h ev now named fallback uncovered (fresh, distinct, kept, early) = (
  λ key item found. elim (Bool-cases (text_eq (evidence_key ev) key)) [
    | inl same ↦
        let key_is = (text_eq_iff (evidence_key ev) key).0 same in
        let item_is : item ≡ record { event = ev; expires = now + g.window } = ground (
          arith,
          lookup-put (evidence_key ev) key (record { event = ev; expires = now + g.window })
              g.pending,
          same,
          found,
        ) in
        subst (λ k. IsFresh g.window ((ev, now) ∷ h) k item) key_is
          (subst (IsFresh g.window ((ev, now) ∷ h) (evidence_key ev)) (sym item_is) (
            named,
            refl,
            fallback,
            (
              now,
              here refl,
              refl,
              (
                λ strong. absurd (ground (arith, strong.0, fallback)),
                kept-IsQuiet g.window now g.recent_strong (evidence_key ev) now h named uncovered
                    (omega arith) kept,
              ),
            ),
          ))
    | inr other ↦
        let before : lookup key g.pending ≡ some item = ground (
          arith,
          lookup-put (evidence_key ev) key (record { event = ev; expires = now + g.window })
              g.pending,
          other,
          found,
        ) in
        IsFresh-receive g.window h key item ev now (λ strong. ground (arith, strong.0, fallback))
          (fresh key item before)
  ],
  distinct,
  (λ _ strong. absurd (ground (arith, strong, fallback)), kept),
  (omega arith, early),
)

process_fallback-Knows :
    (g : EvidenceGate) (h : History) (ev : Event) (now : ℕ)
    → is_empty (evidence_key ev) ≡ false
    → is_fallback_evidence ev ≡ true
    → Knows g h now
    → Knows (process_fallback g (evidence_key ev) ev now) ((ev, now) ∷ h) now
unfolding process_fallback
process_fallback-Knows g h ev now named fallback known =
    if-elim (λ g'. Knows g' ((ev, now) ∷ h) now)
      (is_covered g.window now (lookup (evidence_key ev) g.recent_strong)
        || is_full g (evidence_key ev))
      _ _ (λ dropped. receive-Knows g h ev now (inr fallback) known)
      (λ stored. store-Knows g h ev now named fallback (ground (arith, stored)) known)

process_strong-Knows :
    (g : EvidenceGate) (h : History) (ev : Event) (now : ℕ)
    → is_fallback_evidence ev ≡ false
    → Knows g h now
    → Knows (process_strong g (evidence_key ev) ev now) ((ev, now) ∷ h) now
unfolding process_strong hand_over
process_strong-Knows g h ev now strong (fresh, distinct, kept, early) = (
  λ key item found. elim (Bool-cases (text_eq (evidence_key ev) key)) [
    | inl same ↦ absurd (ground (arith, lookup-delete (evidence_key ev) key g.pending, same, found))
    | inr other ↦
        let before : lookup key g.pending ≡ some item =
          ground (arith, lookup-delete (evidence_key ev) key g.pending, other, found) in
        IsFresh-receive g.window h key item ev now
          (λ s. ground (arith, (text_eq_iff (evidence_key ev) key).1 s.1, other))
          (fresh key item before)
  ],
  put-IsDistinct (evidence_key ev) now g.recent_strong distinct,
  (
    λ _ _.
        let found : lookup (evidence_key ev) (put (evidence_key ev) now g.recent_strong)
            ≡ some now =
          ground (
            arith,
            lookup-put (evidence_key ev) (evidence_key ev) now g.recent_strong,
            text_eq_refl (evidence_key ev),
          ) in
        subst (λ o. IsNoted g.window now o now) (sym found) (inl (omega arith)),
    put-IsKept g.window now now g.recent_strong (evidence_key ev) h (omega arith) early kept,
  ),
  (omega arith, early),
)

process_keyed-Knows :
    (g : EvidenceGate) (h : History) (ev : Event) (now : ℕ)
    → Knows g h now
    → Knows (process_keyed g (evidence_key ev) ev now) ((ev, now) ∷ h) now
unfolding process_keyed hand_over
process_keyed-Knows g h ev now known =
    if-elim (λ g'. Knows g' ((ev, now) ∷ h) now) (is_empty (evidence_key ev)) _ _
      (λ nameless. receive-Knows g h ev now (inl nameless) known)
      (λ named.
        if-elim (λ g'. Knows g' ((ev, now) ∷ h) now) (is_fallback_evidence ev) _ _
          (λ fallback. process_fallback-Knows g h ev now named fallback known)
          (λ strong. process_strong-Knows g h ev now strong known))

pub process-Knows :
    (g : EvidenceGate) (h : History) (batch : List Event) (now : ℕ)
    → Knows g h now
    → Knows (process g batch now) (receive batch now h) now
unfolding process
process-Knows g h [] now known = known
process-Knows g h (ev ∷ batch) now known =
    process-Knows (process_keyed g (evidence_key ev) ev now) ((ev, now) ∷ h) batch now
      (process_keyed-Knows g h ev now known)
