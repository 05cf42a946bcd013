-- ===== src/Session/State/Invariant.antt =====
-- The invariant of one session (internal/session/engine.go), and the writes that keep it.
use agent_action_visualizer.Prelude.Time.{max_duration}
use agent_action_visualizer.Prelude.{
  ℕ, ◌≤◌, ◌≡◌, refl, sym, ap, ◌∙◌, ◌⊎◌, Option, none, some, arith, Text, inl, inr, is_some, true,
  length, ◌+◌, Bool-cases, text_eq_iff, ltb, map-eq-some,
}
use agent_action_visualizer.Protocol.Event.{Event}
use agent_action_visualizer.Session.Interval.{
  AccessInterval, current, set_current, open_interval, close, merge_delta,
}
use agent_action_visualizer.Session.Interval.Chain.{
  IsClosed, IsOpen, IsChain, set_current-IsChain, current-set_current, append-IsChain,
  current-append, close-IsClosed,
}
use agent_action_visualizer.Session.State.{
  State, start, close_if_open, touch, close_current, follow_rename, append_interval, note_event,
  continue_focus, switch_focus, is_open, refocus, focus_if_active, step, focus, focus_priority,
}

pub record IsValid (idle : ℕ) (s : State) : Type 0 where
  pub chain : IsChain idle 1 s.intervals
  -- The file of the current interval is the active file.
  pub active : (c : AccessInterval) → current s.intervals ≡ some c → c.path ≡ s.active_path
  -- No interval starts after the last event that was applied.
  pub started :
      (c : AccessInterval) → current s.intervals ≡ some c → c.started_at ≤ s.current_timestamp

pub start-IsValid : (idle : ℕ) (ev : Event) → IsValid idle (start ev)
unfolding start current
start-IsValid idle ev = record { chain = tt; active = λ c e. cc; started = λ c e. cc }

-- A write to the current interval keeps the invariant if it keeps these fields and closed intervals.
record IsTame (idle : ℕ) (f : AccessInterval → AccessInterval) : Type 0 where
  sequence : (c : AccessInterval) → (f c).sequence ≡ c.sequence
  started : (c : AccessInterval) → (f c).started_at ≡ c.started_at
  good : (c : AccessInterval) → IsOpen c ⊎ IsClosed idle c → IsOpen (f c) ⊎ IsClosed idle (f c)

module _ (idle : ℕ) (f : AccessInterval → AccessInterval) (s : State) (v : IsValid idle s) where
  current-write :
      (c : AccessInterval)
      → current (set_current f s.intervals) ≡ some c
      → (d : AccessInterval) × (current s.intervals ≡ some d) × (f d ≡ c)
  current-write c e =
      map-eq-some f (current s.intervals) c (sym (current-set_current idle f s.intervals) ∙ e)

  write-IsValid :
      (path : Text)
      → IsTame idle f
      → ((c : AccessInterval) → c.path ≡ s.active_path → (f c).path ≡ path)
      → IsValid idle (record s { intervals = set_current f s.intervals; active_path = path })
  write-IsValid path tame follows = record {
    chain = set_current-IsChain idle f 1 s.intervals tame.sequence tame.good v.chain;
    active = λ c e.
        let (d, at, eq) = current-write c e in
        ap (λ (x : AccessInterval). x.path) (sym eq) ∙ follows d (v.active d at);
    started = λ c e.
        let (d, at, eq) = current-write c e in
        omega (arith, v.started d at, tame.started d, ap (λ (x : AccessInterval). x.started_at) eq);
  }

close_if_open-IsTame : (idle at : ℕ) → idle ≤ max_duration → IsTame idle (close_if_open idle at)
unfolding close_if_open
close_if_open-IsTame idle at h = record {
  sequence = λ c. unfold close in ground arith;
  started = λ c. unfold close in ground arith;
  good = λ c g. elim (Bool-cases (is_some c.ended_at)) [
    | inl shut ↦ rw (shut, close_if_open) g
    | inr running ↦ rw (running, close_if_open) (inr (close-IsClosed idle at c h))
  ];
}

rename-IsTame : (idle : ℕ) (path : Text) → IsTame idle (λ c. record c { path = path })
rename-IsTame idle path = record {
  sequence = λ c. refl;
  started = λ c. refl;
  good = λ c g. elim g [
    | inl o ↦ inl o
    | inr h ↦ inr (record {
      end = h.end;
      ended = h.ended;
      not_before = h.not_before;
      not_after = h.not_after;
      measured = h.measured;
    })
  ];
}

touch-IsTame : (idle : ℕ) (ev : Event) → IsTame idle (touch ev)
unfolding touch
touch-IsTame idle ev = record {
  sequence = λ c. refl;
  started = λ c. refl;
  good = λ c g. elim g [
    | inl o ↦ inl o
    | inr h ↦ inr (record {
      end = h.end;
      ended = h.ended;
      not_before = h.not_before;
      not_after = h.not_after;
      measured = h.measured;
    })
  ];
}

pub close_current-IsValid :
    (idle at : ℕ) (s : State)
    → idle ≤ max_duration
    → IsValid idle s
    → IsValid idle (close_current idle s at)
unfolding close_current
close_current-IsValid idle at s h v =
    write-IsValid idle (close_if_open idle at) s v s.active_path (close_if_open-IsTame idle at h)
      (λ c e. unfold close_if_open close in ground arith)

-- Closing leaves no open interval.
pub close_current-ended :
    (idle at : ℕ) (s : State) (c : AccessInterval)
    → current (close_current idle s at).intervals ≡ some c
    → is_some c.ended_at ≡ true
unfolding close_current
close_current-ended idle at s c e =
    let (d, _, eq) =
      map-eq-some (close_if_open idle at) (current s.intervals) c
        (sym (current-set_current idle (close_if_open idle at) s.intervals) ∙ e) in
    unfold close_if_open close in ground arith

module _ (idle : ℕ) (s : State) (ev : Event) (v : IsValid idle s) where
  pub follow_rename-IsValid : IsValid idle (follow_rename s ev)
  unfolding follow_rename
  follow_rename-IsValid =
      let renamed =
        write-IsValid idle (λ c. record c { path = ev.path }) s v ev.path
          (rename-IsTame idle ev.path) (λ c e. refl) in
      ground (arith, renamed)

  note_event-IsValid :
      (priority : ℕ) → s.current_timestamp ≤ ev.timestamp → IsValid idle (note_event s priority ev)
  unfolding note_event
  note_event-IsValid priority h = record {
    chain = v.chain;
    active = v.active;
    started = λ c e. omega (arith, v.started c e);
  }

-- Once the current interval is closed, the event's own interval may follow.
append_interval-IsValid :
    (idle : ℕ) (s : State) (ev : Event)
    → IsChain idle 1 s.intervals
    → ((c : AccessInterval) → current s.intervals ≡ some c → is_some c.ended_at ≡ true)
    → s.active_path ≡ ev.path
    → s.current_timestamp ≡ ev.timestamp
    → IsValid idle (append_interval s ev)
unfolding append_interval open_interval
append_interval-IsValid idle s ev chain ended path time =
    let opened = open_interval (length s.intervals + 1) ev in
    record {
      chain = append-IsChain idle 1 s.intervals opened chain ended (omega arith) (refl, refl);
      active = λ c e. ground (arith, current-append s.intervals opened);
      started = λ c e. ground (arith, current-append s.intervals opened);
    }

continue_focus-IsValid :
    (idle : ℕ) (s : State) (priority : ℕ) (ev : Event)
    → IsValid idle s
    → s.current_timestamp ≤ ev.timestamp
    → s.active_path ≡ ev.path
    → IsValid idle (continue_focus s priority ev)
unfolding continue_focus
continue_focus-IsValid idle s priority ev v late path =
    let touched =
      write-IsValid idle (touch ev) s v s.active_path (touch-IsTame idle ev)
        (λ c e. unfold touch merge_delta in e) in
    let follows =
      append_interval-IsValid idle (note_event s priority ev) ev (unfold note_event in v.chain) in
    elim (Bool-cases (is_open (current s.intervals))) [
      | inl running ↦
          rw (running, continue_focus)
            (note_event-IsValid idle (record s { intervals = set_current (touch ev) s.intervals })
              ev touched priority late)
      | inr shut ↦
          rw (shut, continue_focus)
            (follows (λ c e. unfold note_event in ground (arith, shut, e))
              (unfold note_event in path) (unfold note_event in refl))
    ]

switch_focus-IsValid :
    (idle : ℕ) (s : State) (priority : ℕ) (ev : Event)
    → idle ≤ max_duration
    → IsValid idle s
    → IsValid idle (switch_focus idle s priority ev)
unfolding switch_focus
switch_focus-IsValid idle s priority ev h v =
    append_interval-IsValid idle (note_event (refocus idle s ev) priority ev) ev
      (unfold note_event refocus in (close_current-IsValid idle ev.timestamp s h v).chain)
      (λ c e. unfold note_event refocus in close_current-ended idle ev.timestamp s c e)
      (unfold note_event refocus in refl) (unfold note_event refocus in refl)

focus-IsValid :
    (idle : ℕ) (s : State) (o : Option ℕ) (ev : Event)
    → idle ≤ max_duration
    → IsValid idle s
    → s.current_timestamp ≤ ev.timestamp
    → IsValid idle (focus_if_active idle s o ev)
unfolding focus_if_active focus
focus-IsValid idle s none ev h v late = v
focus-IsValid idle s (some priority) ev h v late = ground (
  arith,
  text_eq_iff s.active_path ev.path,
  continue_focus-IsValid idle s priority ev v late,
  switch_focus-IsValid idle s priority ev h v,
)

pub time-follow_rename :
    (s : State) (ev : Event) → (follow_rename s ev).current_timestamp ≡ s.current_timestamp
unfolding follow_rename
time-follow_rename s ev = ground arith

stop-IsValid :
    (idle at : ℕ) (s : State)
    → IsValid idle (close_current idle s at)
    → IsValid idle (record (close_current idle s at) { stopped_at = some at })
stop-IsValid idle at s v = record { chain = v.chain; active = v.active; started = v.started }

-- Whatever the event, a valid session stays valid.
pub step-IsValid :
    (idle : ℕ) (s : State) (ev : Event)
    → idle ≤ max_duration
    → IsValid idle s
    → IsValid idle (step idle s ev)
unfolding step
step-IsValid idle s ev h v = elim (Bool-cases (ltb ev.timestamp s.current_timestamp)) [
  | inl late ↦ rw (late, step) v
  | inr fresh ↦ ground (
    arith,
    fresh,
    stop-IsValid idle ev.timestamp s (close_current-IsValid idle ev.timestamp s h v),
    time-follow_rename s ev,
    focus-IsValid idle (follow_rename s ev) (focus_priority ev) ev h
        (follow_rename-IsValid idle s ev v),
  )
]
