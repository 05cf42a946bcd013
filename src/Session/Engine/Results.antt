-- ===== src/Session/Engine/Results.antt =====
-- SetWorkResult (internal/session/engine.go): which interval it writes, and what it keeps.
use agent_action_visualizer.Prelude.{
  ℕ, suc, ◌+◌, ◌≤◌, ◌<◌, ◌≡◌, refl, ◌⊎◌, inl, inr, none, some, List, [], ◌∷◌, map, arith,
  if◌then◌else◌, length, ℤ, pos, eqb_ℤ, negsuc, Bool-cases, leb, ltb, ltb_ℤ, true, ◌≤ℤ◌,
}
use mathlib.Core.Option
use agent_action_visualizer.Session.Engine.{Work, write_work, set_work}
use agent_action_visualizer.Session.Interval.{AccessInterval, current}
use agent_action_visualizer.Session.Interval.Chain.{IsClosed, IsOpen, IsChain}

-- The write on the interval of that number alone.
unfoldable pub write_at : ℤ → Work → AccessInterval → AccessInterval
write_at sequence w c = if eqb_ℤ (pos c.sequence) sequence then write_work w c else c

write_at-IsClosed :
    (idle : ℕ) (sequence : ℤ) (w : Work) (c : AccessInterval)
    → IsClosed idle c
    → IsClosed idle (write_at sequence w c)
unfolding write_at write_work
write_at-IsClosed idle sequence w c h = record {
  end = h.end;
  ended = ground (arith, h.ended);
  not_before = ground (arith, h.not_before);
  not_after = ground (arith, h.not_after);
  measured = ground (arith, h.measured);
}

write_at-good :
    (idle : ℕ) (sequence : ℤ) (w : Work) (c : AccessInterval)
    → IsOpen c ⊎ IsClosed idle c
    → IsOpen (write_at sequence w c) ⊎ IsClosed idle (write_at sequence w c)
write_at-good idle sequence w c (inl o) =
    inl (unfold write_at write_work in ground arith, unfold write_at write_work in ground arith)
write_at-good idle sequence w c (inr h) = inr (write_at-IsClosed idle sequence w c h)

IsChain-tail :
    (idle k : ℕ) (c : AccessInterval) (cs : List AccessInterval)
    → IsChain idle k (c ∷ cs)
    → IsChain idle (suc k) cs
IsChain-tail idle k c [] h = tt
IsChain-tail idle k c (d ∷ cs) h = h.2

IsChain-sequence :
    (idle k : ℕ) (c : AccessInterval) (cs : List AccessInterval)
    → IsChain idle k (c ∷ cs)
    → c.sequence ≡ k
IsChain-sequence idle k c [] h = h.0
IsChain-sequence idle k c (d ∷ cs) h = h.0

-- Numbers rise along the chain, so behind the written interval nothing has its number.
map-write_at :
    (idle k n : ℕ) (w : Work) (cs : List AccessInterval)
    → IsChain idle k cs
    → n < k
    → map (write_at (pos n) w) cs ≡ cs
map-write_at idle k n w [] h lt = refl
map-write_at idle k n w (c ∷ cs) h lt =
    let e : write_at (pos n) w c ≡ c =
      unfold write_at in ground (arith, IsChain-sequence idle k c cs h) in
    cc (e, map-write_at idle (suc k) n w cs (IsChain-tail idle k c cs h) (omega arith))

-- In a chain of intervals numbered upward from `k`, as a valid session keeps them, SetWorkResult
-- with one of those numbers finds an interval and writes exactly the one of that number.
pub set_work-map :
    (idle k n : ℕ) (w : Work) (cs : List AccessInterval)
    → IsChain idle k cs
    → k ≤ n
    → n < k + length cs
    → set_work (pos n) w cs ≡ some (map (write_at (pos n) w) cs)
unfolding set_work write_at
set_work-map idle k n w [] h lo hi = absurd (omega arith)
set_work-map idle k n w (c ∷ cs) h lo hi = ground (
  arith,
  IsChain-sequence idle k c cs h,
  map-write_at idle (suc k) n w cs (IsChain-tail idle k c cs h),
  set_work-map idle (suc k) n w cs (IsChain-tail idle k c cs h),
)

set_work_pos-none :
    (idle k n : ℕ) (w : Work) (cs : List AccessInterval)
    → IsChain idle k cs
    → (n < k) ⊎ (k + length cs ≤ n)
    → set_work (pos n) w cs ≡ none
unfolding set_work
set_work_pos-none idle k n w [] h out = refl
set_work_pos-none idle k n w (c ∷ cs) h out = ground (
  arith,
  IsChain-sequence idle k c cs h,
  set_work_pos-none idle (suc k) n w cs (IsChain-tail idle k c cs h),
)

set_work-negsuc : (n : ℕ) (w : Work) (cs : List AccessInterval) → set_work (negsuc n) w cs ≡ none
unfolding set_work
set_work-negsuc n w [] = refl
set_work-negsuc n w (c ∷ cs) = ground (arith, set_work-negsuc n w cs)

-- In a chain of intervals numbered upward from `k` any number, an int that may be negative, is
-- refused when it is below `k` or past the last one.
pub set_work-none :
    (idle k : ℕ) (sequence : ℤ) (w : Work) (cs : List AccessInterval)
    → IsChain idle k cs
    → (ltb_ℤ sequence (pos k) ≡ true) ⊎ (pos (k + length cs) ≤ℤ sequence)
    → set_work sequence w cs ≡ none
set_work-none idle k (pos n) w cs h (inl below) =
    set_work_pos-none idle k n w cs h (inl (ground (arith, below)))
set_work-none idle k (pos n) w cs h (inr past) =
    set_work_pos-none idle k n w cs h (inr (omega (arith, past)))
set_work-none idle k (negsuc n) w cs h out = set_work-negsuc n w cs

-- The write keeps a chain.
pub map-write_at-IsChain :
    (idle k : ℕ) (sequence : ℤ) (w : Work) (cs : List AccessInterval)
    → IsChain idle k cs
    → IsChain idle k (map (write_at sequence w) cs)
map-write_at-IsChain idle k sequence w [] h = tt
map-write_at-IsChain idle k sequence w (c ∷ []) h =
    (unfold write_at write_work in ground (arith, h.0), write_at-good idle sequence w c h.1)
map-write_at-IsChain idle k sequence w (c ∷ d ∷ cs) h = (
  unfold write_at write_work in ground (arith, h.0),
  write_at-IsClosed idle sequence w c h.1,
  map-write_at-IsChain idle (suc k) sequence w (d ∷ cs) h.2,
)

pub current-map-write_at :
    (sequence : ℤ) (w : Work) (cs : List AccessInterval)
    → current (map (write_at sequence w) cs) ≡ Option.map (write_at sequence w) (current cs)
unfolding current
current-map-write_at sequence w [] = refl
current-map-write_at sequence w (c ∷ []) = refl
current-map-write_at sequence w (c ∷ d ∷ cs) = current-map-write_at sequence w (d ∷ cs)

-- Whatever the number, a list that comes back is the old one with that interval written.
pub set_work-some :
    (idle : ℕ) (sequence : ℤ) (w : Work) (cs ds : List AccessInterval)
    → IsChain idle 1 cs
    → set_work sequence w cs ≡ some ds
    → ds ≡ map (write_at sequence w) cs
set_work-some idle (negsuc n) w cs ds h e = cc (set_work-negsuc n w cs)
set_work-some idle (pos n) w cs ds h e = ground (
  arith,
  set_work-map idle 1 n w cs h,
  set_work_pos-none idle 1 n w cs h,
  Bool-cases (leb 1 n),
  Bool-cases (ltb n (1 + length cs)),
)
