-- ===== src/Session/Interval/Order.antt =====
-- Intervals in time (internal/session/engine.go): each ends before the next one starts, and the time
-- that they add up to.
use agent_action_visualizer.Prelude.{
  ℕ, ◌+◌, ◌-◌, ◌≤◌, ◌≡◌, refl, none, some, List, [], ◌∷◌, ◌++◌, map, arith,
}
use agent_action_visualizer.Session.Interval.{AccessInterval, current, set_current}

-- An open interval has no length yet.
abbrev pub end_of : AccessInterval → ℕ
end_of c = elim c.ended_at [ none ↦ c.started_at | some end ↦ end ]

abbrev pub IsOrdered : List AccessInterval → Type 0
IsOrdered [] = Unit {0}
IsOrdered (c ∷ []) = Unit {0}
IsOrdered (c ∷ d ∷ cs) = (end_of c ≤ d.started_at) × IsOrdered (d ∷ cs)

pub set_current-IsOrdered :
    (f : AccessInterval → AccessInterval) (cs : List AccessInterval)
    → ((c : AccessInterval) → (f c).started_at ≡ c.started_at)
    → IsOrdered cs
    → IsOrdered (set_current f cs)
unfolding set_current
set_current-IsOrdered f [] same h = tt
set_current-IsOrdered f (c ∷ []) same h = tt
set_current-IsOrdered f (c ∷ d ∷ []) same h = (omega (arith, same d), tt)
set_current-IsOrdered f (c ∷ d ∷ e ∷ cs) same h =
    (h.0, set_current-IsOrdered f (d ∷ e ∷ cs) same h.1)

pub map-IsOrdered :
    (f : AccessInterval → AccessInterval) (cs : List AccessInterval)
    → ((c : AccessInterval) → (f c).started_at ≡ c.started_at)
    → ((c : AccessInterval) → (f c).ended_at ≡ c.ended_at)
    → IsOrdered cs
    → IsOrdered (map f cs)
map-IsOrdered f [] same ends h = tt
map-IsOrdered f (c ∷ []) same ends h = tt
map-IsOrdered f (c ∷ d ∷ cs) same ends h =
    (ground (arith, h.0, same c, same d, ends c), map-IsOrdered f (d ∷ cs) same ends h.1)

pub append-IsOrdered :
    (cs : List AccessInterval) (c : AccessInterval)
    → IsOrdered cs
    → ((d : AccessInterval) → current cs ≡ some d → end_of d ≤ c.started_at)
    → IsOrdered (cs ++ c ∷ [])
unfolding current
append-IsOrdered [] c h before = tt
append-IsOrdered (d ∷ []) c h before = (before d refl, tt)
append-IsOrdered (d ∷ e ∷ cs) c h before = (h.0, append-IsOrdered (e ∷ cs) c h.1 before)

-- The time spent in the intervals.
unfoldable pub total_time : List AccessInterval → ℕ
total_time [] = 0
total_time (c ∷ cs) = (end_of c - c.started_at) + total_time cs

abbrev pub EndsInOrder : List AccessInterval → Type 0
EndsInOrder [] = Unit {0}
EndsInOrder (c ∷ cs) = (c.started_at ≤ end_of c) × EndsInOrder cs

-- Disjoint intervals add up to no more than the span from the first start to the last end.
pub total_time-le :
    (c d : AccessInterval) (cs : List AccessInterval)
    → IsOrdered (c ∷ cs)
    → EndsInOrder (c ∷ cs)
    → current (c ∷ cs) ≡ some d
    → c.started_at + total_time (c ∷ cs) ≤ end_of d
unfolding current total_time
total_time-le c d [] h ends e = ground (arith, ends.0)
total_time-le c d (c' ∷ cs) h ends e =
    omega (arith, total_time-le c' d cs h.1 ends.1 e, h.0, ends.0)
