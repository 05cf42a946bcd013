-- ===== src/Session/Interval/Chain.antt =====
-- The interval list of a session (internal/session/engine.go): what a closed interval satisfies,
-- and what writes through the pointer to the current interval and appends keep.
use mathlib.Core.Option
use agent_action_visualizer.Prelude.Time.{max_duration, sub_time_exact}
use agent_action_visualizer.Prelude.{
  ℕ, suc, ◌+◌, ◌-◌, ◌≤◌, ◌≡◌, refl, ap, ◌∙◌, ◌⊎◌, inl, inr, pos, none, some, List, [], ◌∷◌, ◌++◌,
  arith, length, is_some, true,
}
use agent_action_visualizer.Session.Interval.{
  AccessInterval, current, set_current, closing_time, close,
}

pub record IsClosed (idle : ℕ) (c : AccessInterval) : Type 0 where
  pub end : ℕ
  pub ended : c.ended_at ≡ some end
  pub not_before : c.started_at ≤ end
  pub not_after : end ≤ c.started_at + idle
  pub measured : c.duration ≡ pos (end - c.started_at)

abbrev pub IsOpen : AccessInterval → Type 0
IsOpen c = (c.ended_at ≡ none) × (c.duration ≡ pos 0)

-- Numbered from `k`, and closed but perhaps for the last.
abbrev pub IsChain : ℕ → ℕ → List AccessInterval → Type 0
IsChain idle k [] = Unit {0}
IsChain idle k (c ∷ []) = (c.sequence ≡ k) × (IsOpen c ⊎ IsClosed idle c)
IsChain idle k (c ∷ d ∷ cs) = (c.sequence ≡ k) × IsClosed idle c × IsChain idle (suc k) (d ∷ cs)

pub closing_time_bounds :
    (idle started at : ℕ)
    → (started ≤ closing_time idle started at) × (closing_time idle started at ≤ started + idle)
unfolding closing_time
closing_time_bounds idle started at = ground arith

pub close-IsClosed :
    (idle at : ℕ) (c : AccessInterval) → idle ≤ max_duration → IsClosed idle (close idle at c)
unfolding close
close-IsClosed idle at c h =
    let bounds = closing_time_bounds idle c.started_at at in
    record {
      end = closing_time idle c.started_at at;
      ended = refl;
      not_before = bounds.0;
      not_after = bounds.1;
      measured =
          sub_time_exact (closing_time idle c.started_at at) c.started_at bounds.0 (omega arith);
    }

pub IsChain-cons :
    (idle k : ℕ) (c : AccessInterval) (cs : List AccessInterval)
    → c.sequence ≡ k
    → IsClosed idle c
    → IsChain idle (suc k) cs
    → IsChain idle k (c ∷ cs)
IsChain-cons idle k c [] e h hs = (e, inr h)
IsChain-cons idle k c (d ∷ cs) e h hs = (e, h, hs)

module _ (idle : ℕ) (f : AccessInterval → AccessInterval) where
  -- A write that keeps the number, and an open or closed interval open or closed, keeps the chain.
  pub set_current-IsChain :
      (k : ℕ) (cs : List AccessInterval)
      → ((c : AccessInterval) → (f c).sequence ≡ c.sequence)
      → ((c : AccessInterval) → IsOpen c ⊎ IsClosed idle c → IsOpen (f c) ⊎ IsClosed idle (f c))
      → IsChain idle k cs
      → IsChain idle k (set_current f cs)
  unfolding set_current
  set_current-IsChain k [] same good h = tt
  set_current-IsChain k (c ∷ []) same good h = (same c ∙ h.0, good c h.1)
  set_current-IsChain k (c ∷ d ∷ cs) same good h =
      IsChain-cons idle k c (set_current f (d ∷ cs)) h.0 h.1
        (set_current-IsChain (suc k) (d ∷ cs) same good h.2)

  pub length-set_current : (cs : List AccessInterval) → length (set_current f cs) ≡ length cs
  unfolding set_current
  length-set_current [] = refl
  length-set_current (c ∷ []) = refl
  length-set_current (c ∷ d ∷ cs) = ap suc (length-set_current (d ∷ cs))

  pub current-set_current :
      (cs : List AccessInterval) → current (set_current f cs) ≡ Option.map f (current cs)
  unfolding set_current current
  current-set_current [] = refl
  current-set_current (c ∷ []) = refl
  current-set_current (c ∷ d ∷ []) = refl
  current-set_current (c ∷ d ∷ e ∷ cs) = current-set_current (d ∷ e ∷ cs)

pub current-append :
    (cs : List AccessInterval) (c : AccessInterval) → current (cs ++ c ∷ []) ≡ some c
unfolding current
current-append [] c = refl
current-append (d ∷ []) c = refl
current-append (d ∷ e ∷ cs) c = current-append (e ∷ cs) c

-- An interval of the next number fits behind a chain whose current interval is not open.
pub append-IsChain :
    (idle k : ℕ) (cs : List AccessInterval) (c : AccessInterval)
    → IsChain idle k cs
    → ((d : AccessInterval) → current cs ≡ some d → is_some d.ended_at ≡ true)
    → c.sequence ≡ k + length cs
    → IsOpen c
    → IsChain idle k (cs ++ c ∷ [])
unfolding current
append-IsChain idle k [] c h done e o = (omega arith, inl o)
append-IsChain idle k (d ∷ []) c h done e o =
    (h.0, ground (arith, done d refl), (omega arith, inl o))
append-IsChain idle k (d ∷ d' ∷ cs) c h done e o =
    IsChain-cons idle k d ((d' ∷ cs) ++ c ∷ []) h.0 h.1
      (append-IsChain idle (suc k) (d' ∷ cs) c h.2 done (omega arith) o)
