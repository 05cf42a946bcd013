-- ===== src/Session/Engine/History.antt =====
-- The engine's methods keep every session valid (internal/session/engine.go).
use agent_action_visualizer.Prelude.{
  ℕ, zero, suc, ◌+◌, ◌≤◌, ◌≡◌, refl, sym, ◌∙◌, inl, inr, true, false, Option, none, some, List, [],
  ◌∷◌, map, arith, Option-cases, Result, Text, text_eq_iff, ℤ, pos, negsuc, ◌≤ℤ◌, map-eq-some,
}
use agent_action_visualizer.Prelude.Time.{max_duration}
use agent_action_visualizer.Prelude.Dict.{lookup, lookup-put}
use agent_action_visualizer.Protocol.Event.{Event}
use agent_action_visualizer.Session.Interval.{AccessInterval, current}
use agent_action_visualizer.Session.State.{
  State, start, step, close_current, focus_if_active, focus, continue_focus, switch_focus,
  append_interval, note_event, refocus, follow_rename,
}
use agent_action_visualizer.Session.State.Invariant.{
  IsValid, start-IsValid, step-IsValid, close_current-IsValid,
}
use agent_action_visualizer.Session.Engine.{
  Engine, Error, Work, new_engine, commit, apply_to, apply, update, pause, resume, expire, advance,
  set_work, set_work_result, write_work,
}
use agent_action_visualizer.Session.Engine.Results.{
  write_at, set_work-some, map-write_at-IsChain, current-map-write_at,
}

-- Every session is valid and is stored under its own id.
pub record IsSound (e : Engine) : Type 0 where
  pub timeout : e.idle_timeout ≤ max_duration
  pub valid : (id : Text) (s : State) → lookup id e.sessions ≡ some s → IsValid e.idle_timeout s
  pub named : (id : Text) (s : State) → lookup id e.sessions ≡ some s → s.session_id ≡ id

pub new_engine-IsSound : (d : ℤ) → d ≤ℤ pos max_duration → IsSound (new_engine d)
unfolding new_engine lookup
new_engine-IsSound (pos zero) h = record {
  timeout = omega arith;
  valid = λ id s e. cc;
  named = λ id s e. cc;
}
new_engine-IsSound (pos (suc n)) h = record {
  timeout = omega arith;
  valid = λ id s e. cc;
  named = λ id s e. cc;
}
new_engine-IsSound (negsuc n) h = record {
  timeout = omega arith;
  valid = λ id s e. cc;
  named = λ id s e. cc;
}

commit-IsSound :
    (e : Engine) (id : Text) (s : State)
    → IsSound e
    → IsValid e.idle_timeout s
    → s.session_id ≡ id
    → IsSound (commit e id s).0
unfolding commit
commit-IsSound e id s sound v name = record {
  timeout = sound.timeout;
  valid = λ j t at. ground (arith, lookup-put id j s e.sessions, sound.valid j t);
  named = λ j t at. ground (arith, lookup-put id j s e.sessions, sound.named j t, text_eq_iff id j);
}

pub session_id-step :
    (idle : ℕ) (s : State) (ev : Event) → (step idle s ev).session_id ≡ s.session_id
unfolding step focus_if_active focus continue_focus switch_focus append_interval note_event refocus
    close_current follow_rename
session_id-step idle s ev = ground arith

session_id-start : (ev : Event) → (start ev).session_id ≡ ev.session_id
unfolding start
session_id-start ev = refl

apply_to-IsSound :
    (e : Engine) (ev : Event) (o : Option State)
    → lookup ev.session_id e.sessions ≡ o
    → IsSound e
    → IsSound (apply_to e ev o).0
unfolding apply_to
apply_to-IsSound e ev none at sound = ground (
  arith,
  commit-IsSound e ev.session_id (start ev) sound (start-IsValid e.idle_timeout ev)
      (session_id-start ev),
)
apply_to-IsSound e ev (some s) at sound = ground (
  arith,
  commit-IsSound e ev.session_id (step e.idle_timeout s ev) sound
      (step-IsValid e.idle_timeout s ev sound.timeout (sound.valid ev.session_id s at))
      (session_id-step e.idle_timeout s ev ∙ sound.named ev.session_id s at),
)

pub apply-IsSound : (e : Engine) (ev : Event) → IsSound e → IsSound (apply e ev).0
unfolding apply
apply-IsSound e ev sound =
    ground (arith, apply_to-IsSound e ev (lookup ev.session_id e.sessions) refl sound)

update-IsSound :
    (e : Engine) (id : Text) (f : State → State)
    → ((s : State) → IsValid e.idle_timeout s → IsValid e.idle_timeout (f s))
    → ((s : State) → (f s).session_id ≡ s.session_id)
    → IsSound e
    → IsSound (update e id f).0
unfolding update
update-IsSound e id f keeps names sound = elim (Option-cases (lookup id e.sessions)) [
  | inl missing ↦ rw (missing, update) sound
  | inr (s, at) ↦
      rw (at, update)
        (commit-IsSound e id (f s) sound (keeps s (sound.valid id s at))
          (names s ∙ sound.named id s at))
]

pub pause-IsSound : (e : Engine) (id : Text) (at : ℕ) → IsSound e → IsSound (pause e id at).0
unfolding pause
pause-IsSound e id at sound =
    update-IsSound e id (λ s. record (close_current e.idle_timeout s at) { paused = true })
      (λ s v.
        let closed = close_current-IsValid e.idle_timeout at s sound.timeout v in
        record { chain = closed.chain; active = closed.active; started = closed.started })
      (λ s. unfold close_current in refl) sound

pub resume-IsSound : (e : Engine) (id : Text) → IsSound e → IsSound (resume e id).0
unfolding resume
resume-IsSound e id sound =
    update-IsSound e id (λ s. record s { paused = false })
      (λ s v. record { chain = v.chain; active = v.active; started = v.started }) (λ s. refl) sound

expire-IsValid :
    (idle now : ℕ) (s : State) (o : Option AccessInterval)
    → idle ≤ max_duration
    → IsValid idle s
    → IsValid idle (expire idle now s o)
unfolding expire
expire-IsValid idle now s none h v = v
expire-IsValid idle now s (some c) h v =
    ground (arith, close_current-IsValid idle (c.started_at + idle) s h v)

session_id-expire :
    (idle now : ℕ) (s : State) (o : Option AccessInterval)
    → (expire idle now s o).session_id ≡ s.session_id
unfolding expire close_current
session_id-expire idle now s none = refl
session_id-expire idle now s (some c) = ground arith

pub advance-IsSound : (e : Engine) (id : Text) (now : ℕ) → IsSound e → IsSound (advance e id now).0
unfolding advance
advance-IsSound e id now sound =
    update-IsSound e id (λ s. expire e.idle_timeout now s (current s.intervals))
      (λ s v. expire-IsValid e.idle_timeout now s (current s.intervals) sound.timeout v)
      (λ s. session_id-expire e.idle_timeout now s (current s.intervals)) sound

write-IsValid :
    (idle : ℕ) (sequence : ℤ) (w : Work) (s : State) (cs : List AccessInterval)
    → cs ≡ map (write_at sequence w) s.intervals
    → IsValid idle s
    → IsValid idle (record s { intervals = cs })
write-IsValid idle sequence w s cs e v = rw e (record {
  chain = map-write_at-IsChain idle 1 sequence w s.intervals v.chain;
  active = λ c at.
      let (d, before, eq) = written c at in
      unfold write_at write_work in ground (arith, v.active d before, eq);
  started = λ c at.
      let (d, before, eq) = written c at in
      unfold write_at write_work in ground (arith, v.started d before, eq);
})
  where
    written :
        (c : AccessInterval)
        → current (map (write_at sequence w) s.intervals) ≡ some c
        → (d : AccessInterval) × (current s.intervals ≡ some d) × (write_at sequence w d ≡ c)
    written c at =
        map-eq-some (write_at sequence w) (current s.intervals) c
          (sym (current-map-write_at sequence w s.intervals) ∙ at)

pub set_work_result-IsSound :
    (e : Engine) (id : Text) (sequence : ℤ) (w : Work)
    → IsSound e
    → IsSound (set_work_result e id sequence w).0
unfolding set_work_result
set_work_result-IsSound e id sequence w sound = elim (Option-cases (lookup id e.sessions)) [
  | inl missing ↦ rw (missing, set_work_result) sound
  | inr (s, at) ↦ elim (Option-cases (set_work sequence w s.intervals)) [
    | inl unknown ↦ rw (at, set_work_result) (rw (unknown, set_work_result) sound)
    | inr (cs, found) ↦
        rw (at, set_work_result)
          (rw (found, set_work_result)
            (commit-IsSound e id (record s { intervals = cs }) sound
              (write-IsValid e.idle_timeout sequence w s cs
                (set_work-some e.idle_timeout sequence w s.intervals cs (sound.valid id s at).chain
                  found)
                (sound.valid id s at))
              (sound.named id s at)))
  ]
]

pub data Call : Type 0 where
  applies : Event → Call
  pauses : Text → ℕ → Call
  resumes : Text → Call
  advances : Text → ℕ → Call
  sets_work : Text → ℤ → Work → Call

unfoldable pub call : Engine → Call → Engine × Result Error State
unfolding apply pause resume advance set_work_result
call e (applies ev) = apply e ev
call e (pauses id at) = pause e id at
call e (resumes id) = resume e id
call e (advances id now) = advance e id now
call e (sets_work id sequence w) = set_work_result e id sequence w

unfoldable pub run : Engine → List Call → Engine
run e [] = e
run e (c ∷ cs) = run (call e c).0 cs

pub call-IsSound : (e : Engine) (c : Call) → IsSound e → IsSound (call e c).0
unfolding call
call-IsSound e (applies ev) sound = apply-IsSound e ev sound
call-IsSound e (pauses id at) sound = pause-IsSound e id at sound
call-IsSound e (resumes id) sound = resume-IsSound e id sound
call-IsSound e (advances id now) sound = advance-IsSound e id now sound
call-IsSound e (sets_work id sequence w) sound = set_work_result-IsSound e id sequence w sound

run-IsSound : (e : Engine) (cs : List Call) → IsSound e → IsSound (run e cs)
unfolding run
run-IsSound e [] sound = sound
run-IsSound e (c ∷ cs) sound = run-IsSound (call e c).0 cs (call-IsSound e c sound)

-- After any calls of its methods on a new engine whose timeout is a Go duration, every stored
-- session has its id for key; its intervals are numbered 1, 2, 3, ...; all but perhaps the last are
-- closed, none ends before it starts or lasts longer than the timeout, and the duration of a closed
-- one is its end less its start; the current interval is on the active file and starts no later
-- than the last event applied.
pub run-new_engine-IsSound :
    (d : ℤ) (cs : List Call) → d ≤ℤ pos max_duration → IsSound (run (new_engine d) cs)
run-new_engine-IsSound d cs h = run-IsSound (new_engine d) cs (new_engine-IsSound d h)
