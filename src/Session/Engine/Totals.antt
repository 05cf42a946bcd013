-- ===== src/Session/Engine/Totals.antt =====
-- What disjoint intervals mean for the time that a session reports (internal/session/engine.go).
use agent_action_visualizer.Prelude.{
  ℕ, suc, ◌+◌, ◌≤◌, ◌≡◌, subst, inl, inr, some, List, [], ◌∷◌, arith, Text, ℤ, pos, ◌≤ℤ◌,
}
use agent_action_visualizer.Prelude.Time.{max_duration}
use agent_action_visualizer.Prelude.Dict.{lookup}
use agent_action_visualizer.Session.Interval.{AccessInterval, current}
use agent_action_visualizer.Session.Interval.Chain.{IsChain}
use agent_action_visualizer.Session.Interval.Order.{
  end_of, IsOrdered, total_time, EndsInOrder, total_time-le,
}
use agent_action_visualizer.Session.State.{State}
use agent_action_visualizer.Session.Engine.{new_engine}
use agent_action_visualizer.Session.Engine.History.{
  Call, run, new_engine-IsSound, run-new_engine-IsSound,
}
use agent_action_visualizer.Session.Engine.Timeline.{
  IsTimely, run-AllTimelines, new_engine-AllTimelines,
}

IsChain-EndsInOrder : (idle k : ℕ) (cs : List AccessInterval) → IsChain idle k cs → EndsInOrder cs
IsChain-EndsInOrder idle k [] h = tt
IsChain-EndsInOrder idle k (c ∷ []) h = elim h.1 [
  | inl running ↦ (ground (arith, running.0), tt)
  | inr shut ↦ (ground (arith, shut.ended, shut.not_before), tt)
]
IsChain-EndsInOrder idle k (c ∷ d ∷ cs) h =
    (ground (arith, h.1.ended, h.1.not_before), IsChain-EndsInOrder idle (suc k) (d ∷ cs) h.2)

module _ (d : ℤ) (calls : List Call) (id : Text) (s : State) where
  -- Take any calls on a new engine, whose timeout is a Go duration, in which no event is older than
  -- a Pause or an Advance before it. In each stored session every interval ends no later than the
  -- next one starts.
  pub run-IsOrdered :
      d ≤ℤ pos max_duration
      → IsTimely 0 calls
      → lookup id (run (new_engine d) calls).sessions ≡ some s
      → IsOrdered s.intervals
  run-IsOrdered h timely at =
      let (clock, timelines) =
        run-AllTimelines 0 (new_engine d) calls (new_engine-IsSound d h) (new_engine-AllTimelines d)
          timely in
      (timelines id s at).ordered

  -- Take any calls on a new engine, whose timeout is a Go duration, in which no event is older than
  -- a Pause or an Advance before it. The time spent in all the intervals of a session that has any
  -- is at most the span from the start of its first interval to the end of its last.
  pub run-total_time-le :
      (c l : AccessInterval) (cs : List AccessInterval)
      → d ≤ℤ pos max_duration
      → IsTimely 0 calls
      → lookup id (run (new_engine d) calls).sessions ≡ some s
      → s.intervals ≡ c ∷ cs
      → current s.intervals ≡ some l
      → c.started_at + total_time s.intervals ≤ end_of l
  run-total_time-le c l cs h timely at e last = rw e (
      total_time-le c l cs (subst IsOrdered e (run-IsOrdered h timely at))
        (subst EndsInOrder e (
          IsChain-EndsInOrder (run (new_engine d) calls).idle_timeout 1 s.intervals
            ((run-new_engine-IsSound d calls h).valid id s at).chain))
        (subst (λ ds. current ds ≡ some l) e last))
