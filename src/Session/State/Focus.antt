-- ===== src/Session/State/Focus.antt =====
-- Which file has the focus after an event (internal/session/engine.go, Apply).
use agent_action_visualizer.Prelude.{
  ℕ, ◌+◌, ◌≤◌, ◌<◌, ◌≡◌, refl, ◌∙◌, inl, inr, true, false, ◌&&◌, Option, none, some, arith, ltb,
  ◌==◌, Bool-cases, length, is_empty, text_eq, text_eq_iff,
}
use agent_action_visualizer.Protocol.Event.{Event, same_type, EventType}
use agent_action_visualizer.Session.Interval.{AccessInterval, current, merge_delta, open_interval}
use agent_action_visualizer.Session.Interval.Chain.{current-set_current, current-append}
use agent_action_visualizer.Session.State.{
  State, close_current, follow_rename, note_event, append_interval, touch, is_open, refocus,
  continue_focus, switch_focus, focus, focus_if_active, step, focus_priority,
}
use agent_action_visualizer.Session.State.Invariant.{
  IsValid, follow_rename-IsValid, time-follow_rename,
}

-- A session that listens to events.
abbrev pub IsLive : State → Type 0
IsLive s = (s.stopped_at ≡ none) × (s.paused ≡ false)

-- The event neither stops the session nor renames a file.
abbrev pub IsPlain : Event → Type 0
IsPlain ev =
    (same_type ev.event_type EventType.session_stopped ≡ false)
    × (same_type ev.event_type EventType.file_renamed ≡ false)
    × (same_type ev.event_type EventType.file_moved ≡ false)

step-plain :
    (idle : ℕ) (s : State) (ev : Event)
    → IsLive s
    → IsPlain ev
    → s.current_timestamp ≤ ev.timestamp
    → step idle s ev ≡ focus_if_active idle s (focus_priority ev) ev
unfolding step follow_rename
step-plain idle s ev live plain fresh = ground arith

IsLive-focus : (idle : ℕ) (s : State) (p : ℕ) (ev : Event) → IsLive s → IsLive (focus idle s p ev)
unfolding focus continue_focus switch_focus append_interval note_event refocus close_current
IsLive-focus idle s p ev live = ground arith

-- A focusing event that is not outranked at its timestamp wins the focus.
focus-wins :
    (idle : ℕ) (s : State) (p : ℕ) (ev : Event)
    → is_empty ev.path ≡ false
    → (ev.timestamp == s.current_timestamp && ltb p s.current_priority) ≡ false
    → let t = focus idle s p ev in
      (t.active_path ≡ ev.path) × (t.current_timestamp ≡ ev.timestamp) × (t.current_priority ≡ p)
unfolding focus continue_focus switch_focus append_interval note_event refocus close_current
focus-wins idle s p ev full wins = ground (arith, text_eq_iff s.active_path ev.path)

focus-loses :
    (idle : ℕ) (s : State) (p : ℕ) (ev : Event)
    → (ev.timestamp == s.current_timestamp && ltb p s.current_priority) ≡ true
    → focus idle s p ev ≡ s
unfolding focus
focus-loses idle s p ev loses = ground arith

first_event :
    (idle : ℕ) (s : State) (ev : Event) (p : ℕ)
    → IsLive s
    → IsPlain ev
    → focus_priority ev ≡ some p
    → s.current_timestamp ≤ ev.timestamp
    → step idle s ev ≡ focus idle s p ev
unfolding focus_if_active
first_event idle s ev p live plain e fresh =
    step-plain idle s ev live plain fresh ∙ rw (e, focus_if_active) refl

-- Two events that can take the focus, with one timestamp and different priorities, come to a
-- session that is neither stopped nor paused and has applied only earlier ones. In whichever order
-- they are applied, the file of the higher priority is the active one at the end. Neither event
-- stops the session or renames a file.
pub focus_order :
    (idle : ℕ) (s : State) (low high : Event) (p q : ℕ)
    → IsLive s
    → IsPlain low
    → IsPlain high
    → focus_priority low ≡ some p
    → focus_priority high ≡ some q
    → p < q
    → is_empty low.path ≡ false
    → is_empty high.path ≡ false
    → low.timestamp ≡ high.timestamp
    → s.current_timestamp < high.timestamp
    → ((step idle (step idle s low) high).active_path ≡ high.path)
      × ((step idle (step idle s high) low).active_path ≡ high.path)
focus_order idle s low high p q live pl ph el eh less fl fh same fresh =
    let won = focus-wins idle s p low fl (ground arith) in
    let top = focus-wins idle s q high fh (ground arith) in
    (
      rw (first_event idle s low p live pl el (omega arith)) (
          rw
            (first_event idle (focus idle s p low) high q (IsLive-focus idle s p low live) ph eh
              (omega (arith, won.1)))
            (focus-wins idle (focus idle s p low) q high fh (ground (arith, won.1, won.2))).0),
      rw (first_event idle s high q live ph eh (omega arith)) (
          rw
            (first_event idle (focus idle s q high) low p (IsLive-focus idle s q high live) pl el
              (omega (arith, top.1)))
            (rw (focus-loses idle (focus idle s q high) p low (ground (arith, top.1, top.2)))
              top.0)),
    )

abbrev pub HasFocus : State → Event → Type 0
HasFocus s ev =
    (s.active_path ≡ ev.path)
    × ((c : AccessInterval) × (current s.intervals ≡ some c)
        × (c.path ≡ ev.path)
        × (c.ended_at ≡ none))

append_interval-HasFocus :
    (s : State) (ev : Event) → s.active_path ≡ ev.path → HasFocus (append_interval s ev) ev
unfolding append_interval
append_interval-HasFocus s ev e = (
  e,
  (
    open_interval (length s.intervals + 1) ev,
    current-append s.intervals (open_interval (length s.intervals + 1) ev),
    unfold open_interval in refl,
    unfold open_interval in refl,
  ),
)

open_interval_exists :
    (o : Option AccessInterval)
    → is_open o ≡ true
    → (c : AccessInterval) × (o ≡ some c) × (c.ended_at ≡ none)
open_interval_exists none e = cc
open_interval_exists (some c) e = (c, refl, ground arith)

continue_focus-HasFocus :
    (idle : ℕ) (s : State) (p : ℕ) (ev : Event)
    → IsValid idle s
    → s.active_path ≡ ev.path
    → HasFocus (continue_focus s p ev) ev
unfolding continue_focus
continue_focus-HasFocus idle s p ev v same = elim (Bool-cases (is_open (current s.intervals))) [
  | inl running ↦
      let (d, found, still) = open_interval_exists (current s.intervals) running in
      rw (running, continue_focus)
        (unfold note_event in
          (
            same,
            (
              touch ev d,
              current-set_current idle (touch ev) s.intervals ∙ rw found,
              unfold touch merge_delta in (v.active d found ∙ same),
              unfold touch merge_delta in still,
            ),
          ))
  | inr shut ↦
      rw (shut, continue_focus)
        (append_interval-HasFocus (note_event s p ev) ev (unfold note_event in same))
]

switch_focus-HasFocus :
    (idle : ℕ) (s : State) (p : ℕ) (ev : Event) → HasFocus (switch_focus idle s p ev) ev
unfolding switch_focus
switch_focus-HasFocus idle s p ev =
    append_interval-HasFocus (note_event (refocus idle s ev) p ev) ev
      (unfold note_event refocus in refl)

module _ (idle : ℕ) (s : State) (p : ℕ) (ev : Event) (full : is_empty ev.path ≡ false)
    (fresh : s.current_timestamp < ev.timestamp) where
  focus-same : text_eq s.active_path ev.path ≡ true → focus idle s p ev ≡ continue_focus s p ev
  unfolding focus
  focus-same same = ground arith

  focus-other : text_eq s.active_path ev.path ≡ false → focus idle s p ev ≡ switch_focus idle s p ev
  unfolding focus
  focus-other other = ground arith

step-fresh :
    (idle : ℕ) (s : State) (ev : Event)
    → IsLive s
    → same_type ev.event_type EventType.session_stopped ≡ false
    → s.current_timestamp ≤ ev.timestamp
    → step idle s ev ≡ focus_if_active idle (follow_rename s ev) (focus_priority ev) ev
unfolding step
step-fresh idle s ev live runs fresh = ground arith

focus-HasFocus :
    (idle : ℕ) (s : State) (p : ℕ) (ev : Event)
    → IsValid idle s
    → is_empty ev.path ≡ false
    → s.current_timestamp < ev.timestamp
    → HasFocus (focus idle s p ev) ev
focus-HasFocus idle s p ev v full fresh = elim (Bool-cases (text_eq s.active_path ev.path)) [
  | inl same ↦
      rw (focus-same idle s p ev full fresh same)
        (continue_focus-HasFocus idle s p ev v ((text_eq_iff s.active_path ev.path).0 same))
  | inr other ↦ rw (focus-other idle s p ev full fresh other) (switch_focus-HasFocus idle s p ev)
]

-- In a valid session that is neither stopped nor paused, take an event that can take the focus,
-- names a file and is later than the last one. After it its file is active, and the current
-- interval is on that file and open.
pub step-focuses :
    (idle : ℕ) (s : State) (ev : Event) (p : ℕ)
    → IsValid idle s
    → IsLive s
    → same_type ev.event_type EventType.session_stopped ≡ false
    → focus_priority ev ≡ some p
    → is_empty ev.path ≡ false
    → s.current_timestamp < ev.timestamp
    → HasFocus (step idle s ev) ev
step-focuses idle s ev p v live plain e full fresh =
    rw (step-fresh idle s ev live plain (omega arith)) (
      rw e (
        unfold focus_if_active in
        focus-HasFocus idle (follow_rename s ev) p ev (follow_rename-IsValid idle s ev v) full
          (omega (arith, time-follow_rename s ev))))
