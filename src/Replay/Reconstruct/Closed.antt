-- ===== src/Replay/Reconstruct/Closed.antt =====
-- A reconstructed session is sound, and its intervals are closed (internal/replay/replay.go).
use agent_action_visualizer.Replay.Reconstruct.Stored.{
  apply_event-IsKept, IsStored, idle-apply_event,
}
use agent_action_visualizer.Replay.{canonical_events}
use agent_action_visualizer.Protocol.Validate.{Json}
use agent_action_visualizer.Prelude.Time.{max_duration}
use agent_action_visualizer.Session.Interval.{AccessInterval, current}
use agent_action_visualizer.Session.State.Invariant.{
  IsValid, close_current-IsValid, close_current-ended,
}
use agent_action_visualizer.Prelude.Dict.{lookup}
use agent_action_visualizer.Protocol.Event.{Event}
use agent_action_visualizer.Session.State.{State, close_current}
use agent_action_visualizer.Replay.Reconstruct.{
  apply_event, ReplayError, replay, finish, or_zero, replay_to, ReplaySnapshot, take_events,
  reconstruct_canonical, reconstruct, validate_all,
}
use agent_action_visualizer.Session.Engine.{Engine, commit, pause, update, new_engine}
use agent_action_visualizer.Prelude.{
  ok_inj, some_inj, ◌≡◌, refl, ap, ◌∙◌, inl, inr, Option, none, some, arith, Bool-cases, ok, Text,
  is_empty, ℤ, pos, ℕ, List, ◌∷◌, Result-cases, [], subst, is_some, max, true, sym, ◌⊎◌, ◌≤◌, not,
  ◌&&◌, ◌==◌, ◌≤ℤ◌, suc, ◌>>=◌, length, negsuc, leb, ◌-◌,
}
use agent_action_visualizer.Session.Engine.History.{IsSound, new_engine-IsSound}

-- The last state is stored.
abbrev IsHeld : Engine × Option State → Type 0
IsHeld (e, none) = Unit {0}
IsHeld (e, some s) = lookup s.session_id e.sessions ≡ some s

replay-IsHeld :
    (e : Engine) (o : Option State) (at : ℕ) (events : List Event) (end : Engine × Option State × ℕ)
    → IsSound e
    → IsHeld (e, o)
    → replay e o at events ≡ ok end
    → IsSound end.0 × IsHeld (end.0, end.1) × (end.0.idle_timeout ≡ e.idle_timeout)
unfolding replay
replay-IsHeld e o at [] end sound held h =
    let eq : (e, o, at) ≡ end = cc in
    subst
      (λ (r : Engine × Option State × ℕ).
        IsSound r.0 × IsHeld (r.0, r.1) × (r.0.idle_timeout ≡ e.idle_timeout))
      eq (sound, held, refl)
replay-IsHeld e o at (ev ∷ events) end sound held h = elim (Result-cases (apply_event e ev).1) [
  | inl (s, good) ↦
      let kept = apply_event-IsKept e ev sound in
      let stored = subst (λ x. IsStored ((apply_event e ev).0, x)) good kept.1 in
      let rest =
        replay-IsHeld (apply_event e ev).0 (some s) (max at ev.timestamp) events end kept.0 stored
          (sym (rw (good, replay) refl) ∙ h) in
      (rest.0, rest.1, rest.2 ∙ idle-apply_event e ev)
  | inr (f, bad) ↦ absurd (ground (arith, bad, h))
]

-- The session has stopped, or nothing was ever timed, or its current interval has an end.
abbrev pub IsOver : State → ℕ → Type 0
IsOver s at =
    (is_some s.stopped_at ≡ true)
    ⊎ (at ≡ 0)
    ⊎ ((c : AccessInterval) → current s.intervals ≡ some c → is_some c.ended_at ≡ true)

pause-paused :
    (e : Engine) (id : Text) (at : ℕ) (s : State)
    → lookup id e.sessions ≡ some s
    → (pause e id at).1 ≡ ok (record (close_current e.idle_timeout s at) { paused = true })
unfolding pause update commit
pause-paused e id at s found = rw (found, update, pause) refl

paused-IsOver :
    (idle at : ℕ) (s : State)
    → idle ≤ max_duration
    → IsValid idle s
    → IsValid idle (record (close_current idle s at) { paused = true })
      × IsOver (record (close_current idle s at) { paused = true }) at
paused-IsOver idle at s h v =
    let closed = close_current-IsValid idle at s h v in
    (
      record { chain = closed.chain; active = closed.active; started = closed.started },
      inr (inr (λ c e. close_current-ended idle at s c e)),
    )

finish-IsOver :
    (e : Engine) (s t : State) (at : ℕ)
    → IsSound e
    → lookup s.session_id e.sessions ≡ some s
    → finish (e, some s, at) ≡ ok (some t)
    → IsValid e.idle_timeout t × IsOver t at
unfolding finish
finish-IsOver e s t at sound found h = elim (Bool-cases (is_empty s.session_id)) [
  | inl unnamed ↦ absurd (ground (arith, unnamed, h))
  | inr named ↦ elim (Bool-cases (not (is_some s.stopped_at) && not (at == 0))) [
    | inl open_end ↦
        let result : finish (e, some s, at) ≡ ok (or_zero (pause e s.session_id at).1) =
          rw (named, finish) (rw (open_end, finish) refl) in
        let eq : record (close_current e.idle_timeout s at) { paused = true } ≡ t = some_inj (
          ok_inj {E = ReplayError} _ _ (
            sym (ap (λ r. ok (or_zero r)) (pause-paused e s.session_id at s found))
            ∙ sym result
            ∙ h)) in
        subst (λ x. IsValid e.idle_timeout x × IsOver x at) eq
          (paused-IsOver e.idle_timeout at s sound.timeout (sound.valid s.session_id s found))
    | inr shut ↦
        let result : finish (e, some s, at) ≡ ok (some s) =
          rw (named, finish) (rw (shut, finish) refl) in
        let eq : s ≡ t = some_inj (ok_inj {E = ReplayError} _ _ (sym result ∙ h)) in
        subst (λ x. IsValid e.idle_timeout x × IsOver x at) eq
          (sound.valid s.session_id s found, ground (arith, shut))
  ]
]

snapshot-IsOver :
    (last count : ℕ) (e : Engine) (o : Option State) (end : ℕ) (snap : ReplaySnapshot) (t : State)
    → IsSound e
    → IsHeld (e, o)
    → (finish (e, o, end) >>= λ state.
        ok (record { state = state; cursor = pos last; cursor_at = end; event_count = count }))
      ≡ ok snap
    → snap.state ≡ some t
    → IsValid e.idle_timeout t × IsOver t snap.cursor_at
snapshot-IsOver last count e none end snap t sound held made at = absurd (unfold finish in cc)
snapshot-IsOver last count e (some s) end snap t sound held made at =
    elim (Result-cases (finish (e, some s, end))) [
      | inl (state, good) ↦
          let kept : record {
            state = state;
            cursor = pos last;
            cursor_at = end;
            event_count = count;
          }
              ≡ snap =
            ok_inj {E = ReplayError} _ _ (sym (rw good refl) ∙ made) in
          let found = ap (λ (x : ReplaySnapshot). x.state) kept ∙ at in
          subst (λ n. IsValid e.idle_timeout t × IsOver t n)
            (ap (λ (x : ReplaySnapshot). x.cursor_at) kept)
            (finish-IsOver e s t end sound held (good ∙ ap ok found))
      | inr (f, bad) ↦ absurd (ground (arith, bad, made))
    ]

replay_to-IsOver :
    (last : ℕ) (idle : ℤ) (events : List Event) (snap : ReplaySnapshot) (t : State)
    → idle ≤ℤ pos max_duration
    → replay_to last idle events ≡ ok snap
    → snap.state ≡ some t
    → IsValid (new_engine idle).idle_timeout t × IsOver t snap.cursor_at
unfolding replay_to
replay_to-IsOver last idle events snap t h made at =
    elim (Result-cases (replay (new_engine idle) none 0 (take_events (suc last) events))) [
      | inl ((e, o, end), good) ↦
          let (sound, held, same) =
            replay-IsHeld (new_engine idle) none 0 (take_events (suc last) events) (e, o, end)
              (new_engine-IsSound idle h) tt good in
          subst (λ d. IsValid d t × IsOver t snap.cursor_at) same
            (snapshot-IsOver last (length events) e o end snap t sound held
              (sym (rw (good, replay_to) refl) ∙ made) at)
      | inr (f, bad) ↦ absurd (ground (arith, bad, made))
    ]

reconstruct_canonical-IsOver :
    (events : List Event) (cursor idle : ℤ) (snap : ReplaySnapshot) (t : State)
    → idle ≤ℤ pos max_duration
    → reconstruct_canonical events cursor idle ≡ ok snap
    → snap.state ≡ some t
    → IsValid (new_engine idle).idle_timeout t × IsOver t snap.cursor_at
unfolding reconstruct_canonical
reconstruct_canonical-IsOver [] cursor idle snap t h made at = absurd cc
reconstruct_canonical-IsOver (ev ∷ events) (negsuc n) idle snap t h made at = absurd cc
reconstruct_canonical-IsOver (ev ∷ events) (pos n) idle snap t h made at =
    elim (Bool-cases (leb (length (ev ∷ events)) n)) [
      | inl past ↦
          replay_to-IsOver (length (ev ∷ events) - 1) idle (ev ∷ events) snap t h
            (sym (rw (past, reconstruct_canonical) refl) ∙ made) at
      | inr within ↦
          replay_to-IsOver n idle (ev ∷ events) snap t h
            (sym (rw (within, reconstruct_canonical) refl) ∙ made) at
    ]

-- With a timeout that is a Go duration, the state of a reconstructed snapshot satisfies the
-- invariant of a session, and the session has stopped, or the cursor has no time, or the current
-- interval has an end.
pub reconstruct-IsOver :
    (json : Json) (events : List Event) (cursor idle : ℤ) (snap : ReplaySnapshot) (t : State)
    → idle ≤ℤ pos max_duration
    → reconstruct json events cursor idle ≡ ok snap
    → snap.state ≡ some t
    → IsValid (new_engine idle).idle_timeout t × IsOver t snap.cursor_at
unfolding reconstruct
reconstruct-IsOver json events cursor idle snap t h made at =
    elim (Result-cases (validate_all json events)) [
      | inl (u, good) ↦
          reconstruct_canonical-IsOver (canonical_events events) cursor idle snap t h
            (sym (rw (good, reconstruct) refl) ∙ made) at
      | inr (f, bad) ↦ absurd (ground (arith, bad, made))
    ]
