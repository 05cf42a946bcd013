-- ===== src/Session/State/Timeline.antt =====
-- The intervals of a session do not overlap (internal/session/engine.go), as long as no event is
-- older than a Pause or an Advance before it.
use agent_action_visualizer.Prelude.{
  ℕ, ◌+◌, ◌≤◌, max, ◌≡◌, refl, sym, ◌∙◌, inl, inr, Option, none, some, arith, ltb, Bool-cases,
  length, map-eq-some,
}
use agent_action_visualizer.Protocol.Event.{Event}
use agent_action_visualizer.Session.Interval.{
  AccessInterval, current, set_current, close, closing_time, merge_delta, open_interval,
}
use agent_action_visualizer.Session.Interval.Chain.{current-set_current, current-append}
use agent_action_visualizer.Session.Interval.Order.{
  end_of, IsOrdered, set_current-IsOrdered, append-IsOrdered,
}
use agent_action_visualizer.Session.State.{
  State, close_if_open, close_current, follow_rename, note_event, append_interval, touch, is_open,
  refocus, continue_focus, switch_focus, focus, focus_if_active, step, focus_priority,
}
use agent_action_visualizer.Session.State.Invariant.{
  IsValid, follow_rename-IsValid, time-follow_rename,
}

-- `clock` is the latest time of a Pause or an Advance so far.
pub record IsTimeline (clock : ℕ) (s : State) : Type 0 where
  pub ordered : IsOrdered s.intervals
  pub ended :
      (c : AccessInterval)
      → s.stopped_at ≡ none
      → current s.intervals ≡ some c
      → end_of c ≤ max s.current_timestamp clock

pub started-close_if_open :
    (idle at : ℕ) (c : AccessInterval) → (close_if_open idle at c).started_at ≡ c.started_at
unfolding close_if_open close
started-close_if_open idle at c = ground arith

-- Closing does not end an interval later than the time given, its start or its old end.
pub end_of-close_if_open :
    (idle at : ℕ) (c : AccessInterval)
    → end_of (close_if_open idle at c) ≤ max (max at c.started_at) (end_of c)
unfolding close_if_open close closing_time
end_of-close_if_open idle at c = ground arith

pub close_current-IsOrdered :
    (idle at : ℕ) (s : State)
    → IsOrdered s.intervals
    → IsOrdered (close_current idle s at).intervals
unfolding close_current
close_current-IsOrdered idle at s h =
    set_current-IsOrdered (close_if_open idle at) s.intervals (started-close_if_open idle at) h

-- Where the current interval ends after a closing.
pub end_of-close_current :
    (idle at : ℕ) (s : State) (c : AccessInterval)
    → current (close_current idle s at).intervals ≡ some c
    → (d : AccessInterval) × (current s.intervals ≡ some d) × (c ≡ close_if_open idle at d)
unfolding close_current
end_of-close_current idle at s c e =
    let (d, found, eq) =
      map-eq-some (close_if_open idle at) (current s.intervals) c
        (sym (current-set_current idle (close_if_open idle at) s.intervals) ∙ e) in
    (d, found, sym eq)

module _ (idle clock : ℕ) (s : State) (ev : Event) (v : IsValid idle s) (t : IsTimeline clock s)
    (live : s.stopped_at ≡ none) (fresh : s.current_timestamp ≤ ev.timestamp)
    (timely : clock ≤ ev.timestamp) where
  switch_focus-IsTimeline : (priority : ℕ) → IsTimeline clock (switch_focus idle s priority ev)
  unfolding switch_focus append_interval note_event refocus
  switch_focus-IsTimeline priority =
      let opened = open_interval (length (close_current idle s ev.timestamp).intervals + 1) ev in
      record {
        ordered =
            append-IsOrdered (close_current idle s ev.timestamp).intervals opened
              (close_current-IsOrdered idle ev.timestamp s t.ordered)
              (λ c e.
                let (d, found, eq) = end_of-close_current idle ev.timestamp s c e in
                unfold open_interval in
                rw eq (
                  omega (
                    arith,
                    end_of-close_if_open idle ev.timestamp d,
                    v.started d found,
                    t.ended d live found,
                  )));
        ended = λ c l e.
            unfold open_interval in
            ground (arith, current-append (close_current idle s ev.timestamp).intervals opened);
      }

  touched-IsTimeline :
      IsTimeline clock (record s { intervals = set_current (touch ev) s.intervals })
  touched-IsTimeline = record {
    ordered =
        set_current-IsOrdered (touch ev) s.intervals (λ c. unfold touch merge_delta in refl)
          t.ordered;
    ended = λ c l e.
        let (d, found, eq) =
          map-eq-some (touch ev) (current s.intervals) c
            (sym (current-set_current idle (touch ev) s.intervals) ∙ e) in
        unfold touch merge_delta in ground (arith, t.ended d live found, eq);
  }

  continue_focus-IsTimeline : (priority : ℕ) → IsTimeline clock (continue_focus s priority ev)
  unfolding continue_focus append_interval note_event
  continue_focus-IsTimeline priority =
      let opened = open_interval (length s.intervals + 1) ev in
      elim (Bool-cases (is_open (current s.intervals))) [
        | inl running ↦
            rw (running, continue_focus)
              (record {
                ordered = touched-IsTimeline.ordered;
                ended = λ c l e. omega (arith, touched-IsTimeline.ended c l e);
              })
        | inr shut ↦
            rw (shut, continue_focus)
              (record {
                ordered =
                    append-IsOrdered s.intervals opened t.ordered
                      (λ c e. unfold open_interval in omega (arith, t.ended c live e));
                ended = λ c l e.
                    unfold open_interval in ground (arith, current-append s.intervals opened);
              })
      ]

  focus-IsTimeline : (o : Option ℕ) → IsTimeline clock (focus_if_active idle s o ev)
  unfolding focus_if_active focus
  focus-IsTimeline none = t
  focus-IsTimeline (some priority) =
      ground (arith, continue_focus-IsTimeline priority, switch_focus-IsTimeline priority)

follow_rename-IsTimeline :
    (clock : ℕ) (s : State) (ev : Event)
    → IsTimeline clock s
    → IsTimeline clock (follow_rename s ev)
unfolding follow_rename
follow_rename-IsTimeline clock s ev t =
    let renamed : IsTimeline clock (record s {
      active_path = ev.path;
      intervals = set_current (λ c. record c { path = ev.path }) s.intervals;
    }) =
      record {
        ordered =
            set_current-IsOrdered (λ c. record c { path = ev.path }) s.intervals (λ c. refl)
              t.ordered;
        ended = λ c l e.
            let (d, found, eq) =
              map-eq-some (λ (c : AccessInterval). record c { path = ev.path })
                (current s.intervals) c
                (sym (current-set_current 0 (λ c. record c { path = ev.path }) s.intervals) ∙ e) in
            ground (arith, t.ended d l found, eq);
      } in
    ground (arith, renamed)

focus_live :
    (idle clock : ℕ) (s : State) (ev : Event) (o : Option ℕ)
    → IsValid idle s
    → IsTimeline clock s
    → s.stopped_at ≡ none
    → s.current_timestamp ≤ ev.timestamp
    → clock ≤ ev.timestamp
    → IsTimeline clock (focus_if_active idle s o ev)
focus_live idle clock s ev o v t live fresh timely =
    focus-IsTimeline idle clock s ev v t live fresh timely o

stopped-follow_rename : (s : State) (ev : Event) → (follow_rename s ev).stopped_at ≡ s.stopped_at
unfolding follow_rename
stopped-follow_rename s ev = ground arith

stop-IsTimeline :
    (idle clock at : ℕ) (s : State)
    → IsTimeline clock s
    → IsTimeline clock (record (close_current idle s at) { stopped_at = some at })
stop-IsTimeline idle clock at s t = record {
  ordered = close_current-IsOrdered idle at s t.ordered;
  ended = λ c l e. cc;
}

-- Applying an event that is not older than the clock keeps the intervals disjoint.
pub step-IsTimeline :
    (idle clock : ℕ) (s : State) (ev : Event)
    → IsValid idle s
    → IsTimeline clock s
    → clock ≤ ev.timestamp
    → IsTimeline clock (step idle s ev)
unfolding step
step-IsTimeline idle clock s ev v t timely =
    elim (Bool-cases (ltb ev.timestamp s.current_timestamp)) [
      | inl late ↦ rw (late, step) t
      | inr fresh ↦ ground (
        arith,
        fresh,
        stop-IsTimeline idle clock ev.timestamp s t,
        time-follow_rename s ev,
        stopped-follow_rename s ev,
        focus_live idle clock (follow_rename s ev) ev (focus_priority ev)
            (follow_rename-IsValid idle s ev v) (follow_rename-IsTimeline clock s ev t),
      )
    ]
