-- ===== src/Ingest/Tests.antt =====
-- The queue and the duplicate filter at concrete inputs, and their theorems there.
use agent_action_visualizer.Ingest.Collector.Wakeup.{IsAlert, Reaches-IsAlert}
use agent_action_visualizer.Ingest.Collector.{
  moved, unmoved, drains, submits, new_collector, submit, CollectorReaches, drain_step, Collector,
}
use agent_action_visualizer.Prelude.Time.{sub_time}
use agent_action_visualizer.Ingest.Dedupe.{
  new_deduper, double, type_name, key_of, is_recent, note, duplicate,
}
use agent_action_visualizer.Ingest.Dedupe.Window.{answers, ideal_answers, answers-ideal_answers}
use agent_action_visualizer.Prelude.Dict.{lookup, put, retain}
use agent_action_visualizer.Ingest.Queue.Bounds.{IsBounded}
use agent_action_visualizer.Ingest.Queue.HighValue.{
  high_events, IsAppended, IsKept, offer-high_events,
}
use agent_action_visualizer.Prelude.{
  ℕ, ◌≡◌, refl, ◌⊎◌, true, false, none, List, [], ◌∷◌, ◌++◌, arith, keep, bytes, text_eq, pos,
}
use agent_action_visualizer.Protocol.Samples.{sample}
use agent_action_visualizer.Protocol.Event.{
  Event, EventType, Confidence, same_type, type_tag, type_text,
}
use agent_action_visualizer.Prelude.Int.{inc}
use agent_action_visualizer.Ingest.Queue.{
  new_queue, offer, is_coalescible, high_value, same_target, overwrite_last, coalesce, drop_low,
  push, note_dropped, offer_new, pop_items, pop,
}
use agent_action_visualizer.Ingest.Queue.Delivery
use agent_action_visualizer.Ingest.Queue.Delivery.{
  Call, offers, pops, call, accepts, delivers, accepted, delivered, run-high_events,
  run-new_queue-IsBounded,
}

abbrev edit : Event
edit = sample EventType.file_modified Confidence.exact (bytes "a") 1

abbrev look : Event
look = sample EventType.file_read Confidence.exact (bytes "b") 2

abbrev stops : Event
stops = sample EventType.session_stopped Confidence.exact [] 3

abbrev traffic : List Call
traffic = offers look ∷ offers edit ∷ offers stops ∷ pops ∷ []

-- Unfolding this unfolds the queue.
queue_code : Unit {0}
unfolding text_eq same_type type_tag type_text inc new_queue is_coalescible high_value same_target
    overwrite_last coalesce drop_low push note_dropped offer_new offer pop_items pop call accepts
    delivers Delivery.run accepted delivered high_events keep
queue_code = tt

-- The read is evicted for the stop, and the edit comes out first.
evicts_read : delivered (new_queue (pos 2)) traffic ≡ edit ∷ []
unfolding queue_code
evicts_read = refl

run-high_events_example :
    high_events (delivered (new_queue (pos 2)) traffic)
      ++ high_events (Delivery.run (new_queue (pos 2)) traffic).items
    ≡ high_events (new_queue (pos 2)).items ++ high_events (accepted (new_queue (pos 2)) traffic)
run-high_events_example = run-high_events (new_queue (pos 2)) traffic

run-new_queue-IsBounded_example : IsBounded (Delivery.run (new_queue (pos 2)) traffic)
run-new_queue-IsBounded_example = run-new_queue-IsBounded (pos 2) traffic

offer-high_events_example :
    IsAppended (new_queue (pos 2)) edit (offer (new_queue (pos 2)) edit)
    ⊎ IsKept (new_queue (pos 2)) edit (offer (new_queue (pos 2)) edit)
offer-high_events_example = offer-high_events (new_queue (pos 2)) edit

abbrev stream : List (Event × ℕ)
stream = (edit, 1) ∷ (edit, 5) ∷ (edit, 40) ∷ []

filter_code : Unit {0}
unfolding text_eq lookup put retain sub_time new_deduper double type_name key_of is_recent note
    duplicate answers ideal_answers
filter_code = tt

repeats_once : answers (new_deduper (pos 10)) stream ≡ false ∷ true ∷ false ∷ []
unfolding filter_code
repeats_once = refl

answers-ideal_answers_example :
    answers (new_deduper (pos 10)) stream ≡ ideal_answers 10 (λ k. none) stream
answers-ideal_answers_example = answers-ideal_answers 10 stream (omega arith) (omega arith)

waiting : Collector
unfolding queue_code new_collector drain_step
waiting = drain_step (new_collector (pos 2))

submitted : Collector
unfolding queue_code submit
submitted = (submit waiting edit).0

submitted-reached : CollectorReaches (new_collector (pos 2)) submitted
unfolding waiting submitted
submitted-reached =
    moved (moved unmoved (drains (new_collector (pos 2)) refl)) (submits waiting edit)

-- The worker waits, with no token yet, and a call is about to send one.
waits_for_signal : submitted.signalling ≡ 1
unfolding submitted waiting
waits_for_signal = refl

Reaches-IsAlert_example : IsAlert submitted
Reaches-IsAlert_example = Reaches-IsAlert (pos 2) submitted submitted-reached
