-- ===== src/Replay/Tests.antt =====
-- The canonical order at concrete events, and its theorems there.
use agent_action_visualizer.Session.Interval.{
  current, set_current, closing_time, close, contains, append_unique, merge_delta, open_interval,
}
use agent_action_visualizer.Prelude.Dict.{lookup, put}
use agent_action_visualizer.Protocol.Value.{get_field}
use agent_action_visualizer.Prelude.Time.{sub_time}
use agent_action_visualizer.Replay.Reconstruct.Closed.{IsOver, reconstruct-IsOver}
use agent_action_visualizer.Session.Engine.{new_engine, commit, apply_to, apply, update, pause}
use agent_action_visualizer.Session.State.Invariant.{IsValid}
use agent_action_visualizer.Replay.Reconstruct.Determined.{reconstruct-determined}
use agent_action_visualizer.Protocol.Metadata.{valid_string}
use agent_action_visualizer.Prelude.Utf8.{utf8_valid}
use agent_action_visualizer.Session.State.{
  State, start, close_if_open, close_current, confidence_priority, operation_priority,
  focus_priority, text_items, compact_from, compact_paths, raw_paths, secondary_paths,
  follow_rename, note_event, append_interval, touch, continue_focus, refocus, switch_focus, focus,
  focus_if_active, step,
}
use agent_action_visualizer.Replay.Reconstruct.{
  reconstruct, ReplaySnapshot, ReplayError, invalid_event, metadata_int, diff_status, diff_source,
  wrap_error, diff_work, apply_sequence, apply_diff, apply_event, replay, take_events, finish,
  replay_to, reconstruct_canonical, validate_all,
}
use agent_action_visualizer.Protocol.Validate.{
  Json, validate, InvalidEvent, valid_event_type, valid_source, valid_confidence, limited_fields,
  valid_strings, non_negative, valid_numbers, validate_metadata,
}
use agent_action_visualizer.Prelude.Sort.{insert_sorted, sort}
use agent_action_visualizer.Replay.Canonical.{
  IsIdentified, canonical_events-IsSorted, canonical_events-determined,
}
use agent_action_visualizer.Replay.{
  canonical_events, replays_before, replay_rank, monotonic_before, unique_events,
}
use agent_action_visualizer.Prelude.Keys.{has_key}
use agent_action_visualizer.Protocol.Samples.{sample}
use agent_action_visualizer.Prelude.{
  ◌≡◌, refl, sym, ap, ◌∙◌, subst, ◌↔◌, List, [], ◌∷◌, if◌then◌else◌, Text, bytes, text_eq, text_lt,
  text_eq_iff, pos, none, ◌⊎◌, Result, Option, has_byte, some, negsuc, err, ok, arith,
}
use agent_action_visualizer.Prelude.Sort.Sorted.{Has, here, there, IsSorted}
use agent_action_visualizer.Protocol.Event.{
  Event, EventType, Confidence, same_type, type_tag, type_text,
}

abbrev started : Event
started = record (sample EventType.session_started Confidence.exact [] 5) { event_id = bytes "z" }

abbrev reads : Event
reads = record (sample EventType.file_read Confidence.exact (bytes "a") 3) { event_id = bytes "r" }

abbrev edits : Event
edits = record (sample EventType.file_modified Confidence.exact (bytes "b") 3) {
  event_id = bytes "e";
  monotonic_timestamp = pos 7;
}

abbrev delivered : List Event
delivered = reads ∷ started ∷ edits ∷ reads ∷ []

abbrev stored : List Event
stored = edits ∷ reads ∷ started ∷ []

replay_code : Unit {0}
unfolding text_eq text_lt has_key insert_sorted sort replay_rank monotonic_before replays_before
    unique_events canonical_events
replay_code = tt

orders : canonical_events delivered ≡ started ∷ edits ∷ reads ∷ []
unfolding replay_code
orders = refl

canonical_events-IsSorted_example : IsSorted replays_before (canonical_events delivered)
canonical_events-IsSorted_example = canonical_events-IsSorted delivered

delivered-stored : (x : Event) → Has x delivered ↔ Has x stored
delivered-stored x = (there_and, back)
  where
    there_and : Has x delivered → Has x stored
    there_and (here e) = there (here e)
    there_and (there (here e)) = there (there (here e))
    there_and (there (there (here e))) = here e
    there_and (there (there (there (here e)))) = there (here e)
    there_and (there (there (there (there h)))) = elim h [ ]

    back : Has x stored → Has x delivered
    back (here e) = there (there (here e))
    back (there (here e)) = here e
    back (there (there (here e))) = there (here e)
    back (there (there (there h))) = elim h [ ]

abbrev named : Text → Event
named id =
    if text_eq id (bytes "e") then edits else if text_eq id (bytes "r") then reads else started

stored-named : (a : Event) → Has a stored → a ≡ named a.event_id
unfolding text_eq
stored-named a (here e) = subst (λ x. x ≡ named x.event_id) (sym e) refl
stored-named a (there (here e)) = subst (λ x. x ≡ named x.event_id) (sym e) refl
stored-named a (there (there (here e))) = subst (λ x. x ≡ named x.event_id) (sym e) refl
stored-named a (there (there (there h))) = elim h [ ]

stored-IsIdentified : IsIdentified stored
stored-IsIdentified a b m n same =
    stored-named a m
    ∙ ap named ((text_eq_iff a.event_id b.event_id).0 same)
    ∙ sym (stored-named b n)

canonical_events-determined_example : canonical_events stored ≡ canonical_events delivered
canonical_events-determined_example =
    canonical_events-determined stored delivered stored-IsIdentified
      (λ x. let both = delivered-stored x in (both.1, both.0))

no_json : Json
no_json = record { marshal = λ fields. none; unmarshal = λ payload. none }

reconstruct_code : Unit {0}
unfolding replay_code no_json utf8_valid has_byte valid_string valid_event_type valid_source
    valid_confidence limited_fields valid_strings non_negative valid_numbers validate_metadata
    validate metadata_int diff_status diff_source wrap_error diff_work apply_sequence apply_diff
    apply_event replay take_events finish replay_to reconstruct_canonical validate_all reconstruct
    sub_time get_field lookup put same_type type_tag type_text new_engine commit apply_to apply
    update pause current set_current closing_time close contains append_unique merge_delta
    open_interval start close_if_open close_current confidence_priority operation_priority
    focus_priority text_items compact_from compact_paths raw_paths secondary_paths follow_rename
    note_event append_interval touch continue_focus refocus switch_focus focus focus_if_active step
reconstruct_code = tt

reconstruct-determined_example :
    (reconstruct no_json stored (pos 2) (pos 100) ≡ reconstruct no_json delivered (pos 2) (pos 100))
    ⊎ ((e f : InvalidEvent) × (reconstruct no_json stored (pos 2) (pos 100) ≡ err (invalid_event e))
        × (reconstruct no_json delivered (pos 2) (pos 100) ≡ err (invalid_event f)))
reconstruct-determined_example =
    reconstruct-determined no_json stored delivered (pos 2) (pos 100) stored-IsIdentified
      (λ x. let both = delivered-stored x in (both.1, both.0))

session : Event
session = record started { timestamp = 2 }

session_events : List Event
session_events = session ∷ reads ∷ []

-- What the run below reaches.
snapshot_or : ReplaySnapshot → Result ReplayError ReplaySnapshot → ReplaySnapshot
snapshot_or s (ok t) = t
snapshot_or s (err e) = s

state_or : State → Option State → State
state_or s none = s
state_or s (some t) = t

no_snapshot : ReplaySnapshot
no_snapshot = record { state = none; cursor = negsuc 0; cursor_at = 0; event_count = 0 }

snapshot : ReplaySnapshot
unfolding reconstruct_code
snapshot = snapshot_or no_snapshot (reconstruct no_json session_events (pos 9) (pos 100))

final : State
unfolding snapshot
final = state_or (start session) snapshot.state

reconstructed : reconstruct no_json session_events (pos 9) (pos 100) ≡ ok snapshot
unfolding snapshot session_events session snapshot_or
reconstructed = refl

final-state : snapshot.state ≡ some final
unfolding snapshot final session_events reconstruct_code snapshot_or session state_or
final-state = refl

reconstruct-IsOver_example :
    IsValid (new_engine (pos 100)).idle_timeout final × IsOver final snapshot.cursor_at
reconstruct-IsOver_example =
    reconstruct-IsOver no_json session_events (pos 9) (pos 100) snapshot final (omega arith)
      reconstructed final-state
