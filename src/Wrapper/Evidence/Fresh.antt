-- ===== src/Wrapper/Evidence/Fresh.antt =====
-- What the evidence gate knows of the events it received (adapter/go/wrapper/evidence.go).
use agent_action_visualizer.Prelude.Time.{sub_time}
use agent_action_visualizer.Prelude.Dict.{Dict, lookup, IsDistinct}
use agent_action_visualizer.Wrapper.Evidence.{
  PendingEvidence, EvidenceGate, is_covered, is_fallback_evidence, evidence_key,
}
use agent_action_visualizer.Protocol.Event.{Event}
use agent_action_visualizer.Prelude.{
  ℕ, ◌+◌, ◌*◌, ◌≤◌, ◌<◌, ◌≡◌, sym, ap, ◌∙◌, subst, ◌⊎◌, inl, inr, true, false, Option, none, some,
  ◌∷◌, arith, All, Text, is_empty, All-imply,
}
use agent_action_visualizer.Wrapper.Evidence.Reach.{History}
use agent_action_visualizer.Prelude.Sort.Sorted.{Has, there}

-- The event is no fallback evidence and has the key.
abbrev pub IsStrong : Text → Event → Type 0
IsStrong key ev = (is_fallback_evidence ev ≡ false) × (evidence_key ev ≡ key)

-- All strong evidence for the key came more than a window before `arrival`.
abbrev pub IsQuiet : ℕ → Text → ℕ → History → Type 0
IsQuiet window key arrival = All (λ entry. IsStrong key entry.0 → entry.1 + window < arrival)

abbrev pub IsFresh : ℕ → History → Text → PendingEvidence → Type 0
IsFresh window h key item =
    (is_empty key ≡ false)
    × (evidence_key item.event ≡ key)
    × (is_fallback_evidence item.event ≡ true)
    × ((arrival : ℕ) × Has (item.event, arrival) h
        × (item.expires ≡ arrival + window)
        × IsQuiet window key arrival h)

-- The time of strong evidence is noted, or it is more than two windows ago.
abbrev pub IsNoted : ℕ → ℕ → Option ℕ → ℕ → Type 0
IsNoted window clock none time = time + 2 * window < clock
IsNoted window clock (some seen) time = (time ≤ seen) ⊎ (time + 2 * window < clock)

abbrev pub IsKept : ℕ → ℕ → Dict ℕ → Event × ℕ → Type 0
IsKept window clock recent entry =
    (is_empty (evidence_key entry.0) ≡ false)
    → (is_fallback_evidence entry.0 ≡ false)
    → IsNoted window clock (lookup (evidence_key entry.0) recent) entry.1

-- The pending events are fresh, and the times of strong evidence are noted.
abbrev pub Knows : EvidenceGate → History → ℕ → Type 0
Knows g h clock =
    ((key : Text) (item : PendingEvidence)
      → lookup key g.pending ≡ some item
      → IsFresh g.window h key item)
    × IsDistinct g.recent_strong
    × All (IsKept g.window clock g.recent_strong) h
    × All (λ entry. entry.1 ≤ clock) h

pub IsNoted-later :
    (window clock now : ℕ) (seen : Option ℕ) (time : ℕ)
    → clock ≤ now
    → IsNoted window clock seen time
    → IsNoted window now seen time
IsNoted-later window clock now none time h n = omega (arith, h, n)
IsNoted-later window clock now (some seen) time h (inl early) = inl early
IsNoted-later window clock now (some seen) time h (inr old) = inr (omega (arith, h, old))

-- Time that passes forgets nothing.
pub Knows-later :
    (g : EvidenceGate) (h : History) (clock now : ℕ) → clock ≤ now → Knows g h clock → Knows g h now
Knows-later g h clock now later (fresh, distinct, kept, early) = (
  fresh,
  distinct,
  All-imply (IsKept g.window clock g.recent_strong) (IsKept g.window now g.recent_strong) h
      (λ entry k a b.
        IsNoted-later g.window clock now (lookup (evidence_key entry.0) g.recent_strong) entry.1
          later (k a b))
      kept,
  All-imply (λ entry. entry.1 ≤ clock) (λ entry. entry.1 ≤ now) h
      (λ entry e. omega (arith, later, e)) early,
)

-- An event that is not strong evidence for the key leaves the pending event fresh.
pub IsFresh-receive :
    (window : ℕ) (h : History) (key : Text) (item : PendingEvidence) (ev : Event) (now : ℕ)
    → (IsStrong key ev → ⊥)
    → IsFresh window h key item
    → IsFresh window ((ev, now) ∷ h) key item
IsFresh-receive window h key item ev now other
      (named, keyed, fallback, (arrival, has, expires, quiet)) =
    (
      named,
      keyed,
      fallback,
      (arrival, there has, expires, (λ strong. absurd (other strong), quiet)),
    )

IsNoted-quiet :
    (window clock now : ℕ) (seen : Option ℕ) (time : ℕ)
    → is_covered window now seen ≡ false
    → clock ≤ now
    → IsNoted window clock seen time
    → time + window < now
unfolding is_covered sub_time
IsNoted-quiet window clock now none time c later n = omega (arith, later, n)
IsNoted-quiet window clock now (some seen) time c later (inl early) =
    ground (arith, later, early, c)
IsNoted-quiet window clock now (some seen) time c later (inr old) = omega (arith, later, old)

pub kept-IsQuiet :
    (window clock : ℕ) (recent : Dict ℕ) (key : Text) (now : ℕ) (h : History)
    → is_empty key ≡ false
    → is_covered window now (lookup key recent) ≡ false
    → clock ≤ now
    → All (IsKept window clock recent) h
    → IsQuiet window key now h
kept-IsQuiet window clock recent key now h named c later =
    All-imply (IsKept window clock recent) (λ entry. IsStrong key entry.0 → entry.1 + window < now)
      h
      (λ entry kept strong.
        let at = λ (k : Text). is_covered window now (lookup k recent) ≡ false in
        IsNoted-quiet window clock now (lookup (evidence_key entry.0) recent) entry.1
          (subst at (sym strong.1) c) later (kept (ap is_empty strong.1 ∙ named) strong.0))
