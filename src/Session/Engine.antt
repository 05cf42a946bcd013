-- ===== src/Session/Engine.antt =====
-- The session engine (internal/session/engine.go). Each method holds the engine's mutex from its
-- first line to its return, so a history is a sequence of calls. A method returns the new engine
-- beside its result; clone copies what it returns, and values here are copies.
pub mod Results
pub mod History
pub mod Timeline
pub mod Totals
use agent_action_visualizer.Diff.Kinds.{Status, Source}
use agent_action_visualizer.Prelude.Dict.{Dict, lookup, put}
use agent_action_visualizer.Prelude.Time.{sub_time}
use agent_action_visualizer.Prelude.{
  ℕ, suc, ◌+◌, ℤ, pos, leb_ℤ, eqb_ℤ, Text, true, false, Option, none, some, List, [], ◌∷◌, is_empty,
  Result, ok, err, if◌then◌else◌,
}
use agent_action_visualizer.Protocol.Event.{Confidence, EventType, Event, same_type}
use agent_action_visualizer.Session.Interval.{AccessInterval, current}
use agent_action_visualizer.Session.State.{State, start, step, close_current}

pub record Engine : Type 0 where
  pub idle_timeout : ℕ
  pub sessions : Dict State

pub data Error : Type 0 where
  session_id_required not_started unknown_session unknown_interval : Error

-- Two minutes, in nanoseconds.
abbrev pub default_idle_timeout : ℕ
default_idle_timeout = 120000000000

unfoldable pub new_engine : ℤ → Engine
new_engine (pos (suc n)) = record { idle_timeout = suc n; sessions = [] }
new_engine _ = record { idle_timeout = default_idle_timeout; sessions = [] }

-- Stores the session's new state and returns a copy of it.
unfoldable pub commit : Engine → Text → State → Engine × Result Error State
commit e id s = (record e { sessions = put id s e.sessions }, ok s)

unfoldable pub apply_to : Engine → Event → Option State → Engine × Result Error State
apply_to e ev none =
    if same_type ev.event_type EventType.session_started
    then commit e ev.session_id (start ev)
    else (e, err not_started)
apply_to e ev (some s) =
    if same_type ev.event_type EventType.session_started
    then (e, ok s)
    else commit e ev.session_id (step e.idle_timeout s ev)

unfoldable pub apply : Engine → Event → Engine × Result Error State
unfolding apply_to commit
apply e ev =
    if is_empty ev.session_id
    then (e, err session_id_required)
    else apply_to e ev (lookup ev.session_id e.sessions)

-- The shape of the methods that look a session up and change it.
unfoldable pub update : Engine → Text → (State → State) → Engine × Result Error State
unfolding commit
update e id f = elim (lookup id e.sessions) [
  | none ↦ (e, err unknown_session)
  | some s ↦ commit e id (f s)
]

unfoldable pub pause : Engine → Text → ℕ → Engine × Result Error State
unfolding update
pause e id at = update e id (λ s. record (close_current e.idle_timeout s at) { paused = true })

unfoldable pub resume : Engine → Text → Engine × Result Error State
unfolding update
resume e id = update e id (λ s. record s { paused = false })

unfoldable pub expire : ℕ → ℕ → State → Option AccessInterval → State
expire idle now s none = s
expire idle now s (some c) = elim c.ended_at [
  | some _ ↦ s
  | none ↦
      if leb_ℤ (pos idle) (sub_time now c.started_at)
      then close_current idle s (c.started_at + idle)
      else s
]

unfoldable pub advance : Engine → Text → ℕ → Engine × Result Error State
unfolding update expire
advance e id now = update e id (λ s. expire e.idle_timeout now s (current s.intervals))

pub record Work : Type 0 where
  pub added : Option ℤ
  pub deleted : Option ℤ
  pub status : Status
  pub source : Source
  pub confidence : Confidence

unfoldable pub write_work : Work → AccessInterval → AccessInterval
write_work w c = record c {
  lines_added = w.added;
  lines_deleted = w.deleted;
  work_status = w.status;
  work_source = w.source;
  work_confidence = w.confidence;
}

-- The loop of SetWorkResult: the first interval of that sequence is written.
unfoldable pub set_work : ℤ → Work → List AccessInterval → Option (List AccessInterval)
unfolding write_work
set_work sequence w [] = none
set_work sequence w (c ∷ cs) =
    let rest = set_work sequence w cs in
    if eqb_ℤ (pos c.sequence) sequence
    then some (write_work w c ∷ cs)
    else elim rest [ none ↦ none | some cs' ↦ some (c ∷ cs') ]

unfoldable pub set_work_result : Engine → Text → ℤ → Work → Engine × Result Error State
unfolding set_work commit
set_work_result e id sequence w = elim (lookup id e.sessions) [
  | none ↦ (e, err unknown_session)
  | some s ↦ elim (set_work sequence w s.intervals) [
    | none ↦ (e, err unknown_interval)
    | some cs ↦ commit e id (record s { intervals = cs })
  ]
]

unfoldable pub state : Engine → Text → Result Error State
state e id = elim (lookup id e.sessions) [ none ↦ err unknown_session | some s ↦ ok s ]
