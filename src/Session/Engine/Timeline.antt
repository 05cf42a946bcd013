-- ===== src/Session/Engine/Timeline.antt =====
-- Histories of the engine in which no event is older than a Pause or an Advance before it
-- (internal/session/engine.go): the intervals of each session are disjoint.
use agent_action_visualizer.Prelude.{
  ℕ, ◌+◌, ◌≤◌, max, ◌≡◌, sym, ◌∙◌, subst, inl, inr, true, Option, none, some, List, [], ◌∷◌, map,
  arith, Bool-cases, Text, text_eq, ℤ, pos, map-eq-some, leb_ℤ, Option-cases, is_empty, false, refl,
  suc, negsuc, zero,
}
use agent_action_visualizer.Prelude.Time.{max_duration, sub_time}
use agent_action_visualizer.Prelude.Dict.{lookup, lookup-put}
use agent_action_visualizer.Protocol.Event.{Event, same_type, EventType}
use agent_action_visualizer.Session.Interval.{AccessInterval, current}
use agent_action_visualizer.Session.Interval.Order.{map-IsOrdered}
use agent_action_visualizer.Session.State.{State, start, close_current}
use agent_action_visualizer.Session.State.Invariant.{IsValid}
use agent_action_visualizer.Session.State.Timeline.{
  IsTimeline, close_current-IsOrdered, end_of-close_current, end_of-close_if_open, step-IsTimeline,
}
use agent_action_visualizer.Session.Engine.{
  Engine, Work, commit, expire, write_work, update, apply_to, apply, set_work_result, new_engine,
  set_work, step, pause, resume, advance,
}
use agent_action_visualizer.Session.Engine.Results.{write_at, current-map-write_at, set_work-some}
use agent_action_visualizer.Session.Engine.History.{
  IsSound, Call, applies, pauses, resumes, advances, sets_work, run, call, call-IsSound,
}

-- No event is older than `clock` or a Pause or Advance before it.
abbrev pub IsTimely : ℕ → List Call → Type 0
IsTimely clock [] = Unit {0}
IsTimely clock (applies ev ∷ cs) = (clock ≤ ev.timestamp) × IsTimely clock cs
IsTimely clock (pauses id at ∷ cs) = IsTimely (max clock at) cs
IsTimely clock (resumes id ∷ cs) = IsTimely clock cs
IsTimely clock (advances id now ∷ cs) = IsTimely (max clock now) cs
IsTimely clock (sets_work id sequence w ∷ cs) = IsTimely clock cs

abbrev pub AllTimelines : ℕ → Engine → Type 0
AllTimelines clock e = (id : Text) (s : State) → lookup id e.sessions ≡ some s → IsTimeline clock s

IsTimeline-mono : (m n : ℕ) (s : State) → m ≤ n → IsTimeline m s → IsTimeline n s
IsTimeline-mono m n s h t = record {
  ordered = t.ordered;
  ended = λ c l e. omega (arith, t.ended c l e);
}

start-IsTimeline : (clock : ℕ) (ev : Event) → IsTimeline clock (start ev)
unfolding start current
start-IsTimeline clock ev = record { ordered = tt; ended = λ c l e. cc }

pause-IsTimeline :
    (idle clock at : ℕ) (s : State)
    → IsValid idle s
    → IsTimeline clock s
    → IsTimeline (max clock at) (close_current idle s at)
pause-IsTimeline idle clock at s v t = record {
  ordered = close_current-IsOrdered idle at s t.ordered;
  ended = λ c l e.
      let (d, found, eq) = end_of-close_current idle at s c e in
      unfold close_current in
      rw eq (omega (arith, end_of-close_if_open idle at d, v.started d found, t.ended d l found));
}

timed_out :
    (idle now started : ℕ) → leb_ℤ (pos idle) (sub_time now started) ≡ true → started + idle ≤ now
unfolding sub_time
timed_out idle now started e = ground arith

expire-IsTimeline :
    (idle clock now : ℕ) (s : State) (o : Option AccessInterval)
    → idle ≤ max_duration
    → IsValid idle s
    → IsTimeline clock s
    → IsTimeline (max clock now) (expire idle now s o)
unfolding expire
expire-IsTimeline idle clock now s none h v t =
    IsTimeline-mono clock (max clock now) s (omega arith) t
expire-IsTimeline idle clock now s (some c) h v t = ground (
  arith,
  timed_out idle now c.started_at,
  IsTimeline-mono clock (max clock now) s (omega arith) t,
  IsTimeline-mono (max clock (c.started_at + idle)) (max clock now)
      (close_current idle s (c.started_at + idle)),
  pause-IsTimeline idle clock (c.started_at + idle) s v t,
)

write-IsTimeline :
    (clock : ℕ) (sequence : ℤ) (w : Work) (s : State) (cs : List AccessInterval)
    → cs ≡ map (write_at sequence w) s.intervals
    → IsTimeline clock s
    → IsTimeline clock (record s { intervals = cs })
write-IsTimeline clock sequence w s cs e t = rw e (record {
  ordered =
      map-IsOrdered (write_at sequence w) s.intervals
        (λ c. unfold write_at write_work in ground arith)
        (λ c. unfold write_at write_work in ground arith) t.ordered;
  ended = λ c l at.
      let (d, before, eq) =
        map-eq-some (write_at sequence w) (current s.intervals) c
          (sym (current-map-write_at sequence w s.intervals) ∙ at) in
      unfold write_at write_work in ground (arith, t.ended d l before, eq);
})

-- What a commit leaves in the sessions.
commit-AllTimelines :
    (clock clock' : ℕ) (e : Engine) (id : Text) (s : State)
    → clock ≤ clock'
    → AllTimelines clock e
    → IsTimeline clock' s
    → AllTimelines clock' (commit e id s).0
unfolding commit
commit-AllTimelines clock clock' e id s h old new j t at = elim (Bool-cases (text_eq id j)) [
  | inl same ↦
      subst (λ u. IsTimeline clock' u) (ground (arith, lookup-put id j s e.sessions, at)) new
  | inr differs ↦
      IsTimeline-mono clock clock' t h (old j t (ground (arith, lookup-put id j s e.sessions, at)))
]

AllTimelines-mono : (m n : ℕ) (e : Engine) → m ≤ n → AllTimelines m e → AllTimelines n e
AllTimelines-mono m n e h old id s at = IsTimeline-mono m n s h (old id s at)

update-AllTimelines :
    (clock clock' : ℕ) (e : Engine) (id : Text) (f : State → State)
    → clock ≤ clock'
    → IsSound e
    → ((s : State) → IsValid e.idle_timeout s → IsTimeline clock s → IsTimeline clock' (f s))
    → AllTimelines clock e
    → AllTimelines clock' (update e id f).0
unfolding update
update-AllTimelines clock clock' e id f h sound keeps old =
    elim (Option-cases (lookup id e.sessions)) [
      | inl missing ↦ rw (missing, update) (AllTimelines-mono clock clock' e h old)
      | inr (s, at) ↦
          rw (at, update)
            (commit-AllTimelines clock clock' e id (f s) h old
              (keeps s (sound.valid id s at) (old id s at)))
    ]

apply_to-AllTimelines :
    (clock : ℕ) (e : Engine) (ev : Event) (o : Option State)
    → lookup ev.session_id e.sessions ≡ o
    → IsSound e
    → AllTimelines clock e
    → clock ≤ ev.timestamp
    → AllTimelines clock (apply_to e ev o).0
unfolding apply_to
apply_to-AllTimelines clock e ev none at sound old timely =
    elim (Bool-cases (same_type ev.event_type EventType.session_started)) [
      | inl starts ↦
          rw (starts, apply_to)
            (commit-AllTimelines clock clock e ev.session_id (start ev) (omega arith) old
              (start-IsTimeline clock ev))
      | inr other ↦ rw (other, apply_to) old
    ]
apply_to-AllTimelines clock e ev (some s) at sound old timely =
    elim (Bool-cases (same_type ev.event_type EventType.session_started)) [
      | inl starts ↦ rw (starts, apply_to) old
      | inr other ↦
          rw (other, apply_to)
            (commit-AllTimelines clock clock e ev.session_id (step e.idle_timeout s ev)
              (omega arith) old
              (step-IsTimeline e.idle_timeout clock s ev (sound.valid ev.session_id s at)
                (old ev.session_id s at) timely))
    ]

apply-AllTimelines :
    (clock : ℕ) (e : Engine) (ev : Event)
    → IsSound e
    → AllTimelines clock e
    → clock ≤ ev.timestamp
    → AllTimelines clock (apply e ev).0
unfolding apply
apply-AllTimelines clock e ev sound old timely = elim (Bool-cases (is_empty ev.session_id)) [
  | inl nameless ↦ rw (nameless, apply) old
  | inr named ↦
      rw (named, apply)
        (apply_to-AllTimelines clock e ev (lookup ev.session_id e.sessions) refl sound old timely)
]

set_work_result-AllTimelines :
    (clock : ℕ) (e : Engine) (id : Text) (sequence : ℤ) (w : Work)
    → IsSound e
    → AllTimelines clock e
    → AllTimelines clock (set_work_result e id sequence w).0
unfolding set_work_result
set_work_result-AllTimelines clock e id sequence w sound old =
    elim (Option-cases (lookup id e.sessions)) [
      | inl missing ↦ rw (missing, set_work_result) old
      | inr (s, at) ↦ elim (Option-cases (set_work sequence w s.intervals)) [
        | inl unknown ↦ rw (at, set_work_result) (rw (unknown, set_work_result) old)
        | inr (cs, found) ↦
            rw (at, set_work_result)
              (rw (found, set_work_result)
                (commit-AllTimelines clock clock e id (record s { intervals = cs }) (omega arith)
                  old
                  (write-IsTimeline clock sequence w s cs
                    (set_work-some e.idle_timeout sequence w s.intervals cs
                      (sound.valid id s at).chain found)
                    (old id s at))))
      ]
    ]

pub run-AllTimelines :
    (clock : ℕ) (e : Engine) (cs : List Call)
    → IsSound e
    → AllTimelines clock e
    → IsTimely clock cs
    → (clock' : ℕ) × AllTimelines clock' (run e cs)
unfolding run
run-AllTimelines clock e [] sound old h = (clock, old)
run-AllTimelines clock e (applies ev ∷ cs) sound old h =
    run-AllTimelines clock (call e (applies ev)).0 cs (call-IsSound e (applies ev) sound)
      (unfold call in apply-AllTimelines clock e ev sound old h.0) h.1
run-AllTimelines clock e (pauses id at ∷ cs) sound old h =
    run-AllTimelines (max clock at) (call e (pauses id at)).0 cs
      (call-IsSound e (pauses id at) sound)
      (unfold call pause in
        update-AllTimelines clock (max clock at) e id
          (λ s. record (close_current e.idle_timeout s at) { paused = true }) (omega arith) sound
          (λ s v t.
            let closed = pause-IsTimeline e.idle_timeout clock at s v t in
            record { ordered = closed.ordered; ended = closed.ended })
          old)
      h
run-AllTimelines clock e (resumes id ∷ cs) sound old h =
    run-AllTimelines clock (call e (resumes id)).0 cs (call-IsSound e (resumes id) sound)
      (unfold call resume in
        update-AllTimelines clock clock e id (λ s. record s { paused = false }) (omega arith) sound
          (λ s v t. record { ordered = t.ordered; ended = t.ended }) old)
      h
run-AllTimelines clock e (advances id now ∷ cs) sound old h =
    run-AllTimelines (max clock now) (call e (advances id now)).0 cs
      (call-IsSound e (advances id now) sound)
      (unfold call advance in
        update-AllTimelines clock (max clock now) e id
          (λ s. expire e.idle_timeout now s (current s.intervals)) (omega arith) sound
          (λ s v t.
            expire-IsTimeline e.idle_timeout clock now s (current s.intervals) sound.timeout v t)
          old)
      h
run-AllTimelines clock e (sets_work id sequence w ∷ cs) sound old h =
    run-AllTimelines clock (call e (sets_work id sequence w)).0 cs
      (call-IsSound e (sets_work id sequence w) sound)
      (unfold call in set_work_result-AllTimelines clock e id sequence w sound old) h

pub new_engine-AllTimelines : (d : ℤ) → AllTimelines 0 (new_engine d)
unfolding new_engine lookup
new_engine-AllTimelines (pos zero) id s e = cc
new_engine-AllTimelines (pos (suc n)) id s e = cc
new_engine-AllTimelines (negsuc n) id s e = cc
