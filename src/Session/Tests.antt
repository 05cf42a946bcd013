-- ===== src/Session/Tests.antt =====
-- Runs of the session engine at concrete inputs, and its theorems there.
use agent_action_visualizer.Session.Interval.Chain.{IsChain, close-IsClosed}
use agent_action_visualizer.Session.State.Invariant.{start-IsValid}
use agent_action_visualizer.Session.Engine.Results.{set_work-map, write_at, set_work-none}
use agent_action_visualizer.Protocol.Value.{get_field}
use agent_action_visualizer.Prelude.Time.{sub_time}
use agent_action_visualizer.Session.Interval.Order.{IsOrdered, total_time}
use agent_action_visualizer.Session.Interval.{
  AccessInterval, close, open_interval, current, set_current, closing_time, contains, append_unique,
  merge_delta,
}
use agent_action_visualizer.Prelude.Sort.{insert_sorted, sort}
use agent_action_visualizer.Prelude.{
  ◌+◌, ◌≤◌, ◌≡◌, refl, inr, Option, none, some, List, [], ◌∷◌, map, arith, bytes, text_eq, text_lt,
  pos,
}
use agent_action_visualizer.Diff.Kinds.{Status, Source}
use agent_action_visualizer.Prelude.Dict.{lookup, put}
use agent_action_visualizer.Protocol.Samples.{sample}
use agent_action_visualizer.Protocol.Event.{
  Event, EventType, Confidence, same_type, type_tag, type_text,
}
use agent_action_visualizer.Session.Engine.History.{
  Call, applies, pauses, IsSound, run, call, run-new_engine-IsSound,
}
use agent_action_visualizer.Session.Engine.{
  new_engine, apply, commit, apply_to, update, pause, resume, expire, advance, write_work, set_work,
  Work, set_work_result,
}
use agent_action_visualizer.Session.Engine.Totals.{run-IsOrdered, run-total_time-le}
use agent_action_visualizer.Session.State.Focus.{focus_order, step-focuses, HasFocus}
use agent_action_visualizer.Session.State.{
  State, start, step, close_if_open, close_current, confidence_priority, operation_priority,
  focus_priority, text_items, compact_from, compact_paths, raw_paths, secondary_paths,
  follow_rename, note_event, append_interval, touch, continue_focus, refocus, switch_focus, focus,
  focus_if_active,
}

abbrev starts : Event
starts = sample EventType.session_started Confidence.exact [] 10

abbrev reads : Event
reads = sample EventType.file_read Confidence.exact (bytes "a") 20

abbrev edits : Event
edits = sample EventType.file_modified Confidence.exact (bytes "b") 50

abbrev history : List Call
history = applies starts ∷ applies reads ∷ applies edits ∷ pauses (bytes "s") 60 ∷ []

abbrev last_state : Option State → State
last_state none = start starts
last_state (some s) = s

-- Unfolding this unfolds the engine.
code : Unit {0}
unfolding text_eq text_lt insert_sorted sort sub_time get_field lookup put same_type type_tag
    type_text new_engine commit apply_to apply update pause resume expire advance write_work
    set_work set_work_result call run current set_current closing_time close contains append_unique
    merge_delta open_interval start close_if_open close_current confidence_priority
    operation_priority focus_priority text_items compact_from compact_paths raw_paths
    secondary_paths follow_rename note_event append_interval touch continue_focus refocus
    switch_focus focus focus_if_active step
code = tt

final : State
unfolding code
final = last_state (lookup (bytes "s") (run (new_engine (pos 100)) history).sessions)

durations : map (λ (c : AccessInterval). c.duration) final.intervals ≡ pos 30 ∷ pos 10 ∷ []
unfolding final
durations = refl

found : lookup (bytes "s") (run (new_engine (pos 100)) history).sessions ≡ some final
unfolding final
found = refl

run-new_engine-IsSound_example : IsSound (run (new_engine (pos 100)) history)
run-new_engine-IsSound_example = run-new_engine-IsSound (pos 100) history (omega arith)

run-IsOrdered_example : IsOrdered final.intervals
run-IsOrdered_example =
    run-IsOrdered (pos 100) history (bytes "s") final (omega arith) (omega arith) found

abbrev interval_or : AccessInterval → Option AccessInterval → AccessInterval
interval_or c none = c
interval_or c (some d) = d

first_interval : AccessInterval
unfolding code
first_interval = close 100 50 (open_interval 1 reads)

last_interval : AccessInterval
unfolding code
last_interval = close 100 60 (open_interval 2 edits)

run-total_time-le_example : 20 + total_time final.intervals ≤ 60
unfolding final first_interval last_interval
run-total_time-le_example =
    run-total_time-le (pos 100) history (bytes "s") final first_interval last_interval
      (last_interval ∷ []) (omega arith) (omega arith) found refl refl

session : State
unfolding code
session = start starts

abbrev tied_edit : Event
tied_edit = sample EventType.file_modified Confidence.exact (bytes "b") 20

focus_order_example :
    ((step 100 (step 100 session reads) tied_edit).active_path ≡ bytes "b")
    × ((step 100 (step 100 session tied_edit) reads).active_path ≡ bytes "b")
unfolding session
focus_order_example =
    focus_order 100 session reads tied_edit 33 38 (refl, refl) (refl, refl, refl) (refl, refl, refl)
      refl refl (omega arith) refl refl refl (omega arith)

step-focuses_example : HasFocus (step 100 session reads) reads
unfolding session
step-focuses_example =
    step-focuses 100 session reads 33 (start-IsValid 100 starts) (refl, refl) refl refl refl
      (omega arith)

one_interval : List AccessInterval
unfolding code
one_interval = first_interval ∷ []

abbrev measured : Work
measured = record {
  added = some (pos 3);
  deleted = none;
  status = Status.known;
  source = Source.structured_patch;
  confidence = Confidence.exact;
}

one_interval-IsChain : IsChain 100 1 one_interval
unfolding one_interval first_interval
one_interval-IsChain = (refl, inr (close-IsClosed 100 50 (open_interval 1 reads) (omega arith)))

set_work-map_example :
    set_work (pos 1) measured one_interval ≡ some (map (write_at (pos 1) measured) one_interval)
set_work-map_example =
    set_work-map 100 1 1 measured one_interval one_interval-IsChain (omega arith)
      (unfold one_interval in omega arith)

set_work-none_example : set_work (pos 2) measured one_interval ≡ none
set_work-none_example =
    set_work-none 100 1 (pos 2) measured one_interval one_interval-IsChain
      (inr (unfold one_interval in omega arith))
