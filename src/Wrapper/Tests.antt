-- ===== src/Wrapper/Tests.antt =====
-- The evidence gate, the tap and the delivery queue at concrete events, and their theorems there.
use agent_action_visualizer.Protocol.Metadata.{valid_string}
use agent_action_visualizer.Prelude.Utf8.{utf8_valid}
use agent_action_visualizer.Wrapper.Delivery.Acks.{Delivers-IsClean}
use agent_action_visualizer.Wrapper.Delivery.Owned.{IsClean, IsDelivered}
use agent_action_visualizer.Protocol.Validate.{
  Json, validate, valid_event_type, valid_source, valid_confidence, limited_fields, valid_strings,
  non_negative, valid_numbers, validate_metadata,
}
use agent_action_visualizer.Wrapper.Delivery.{
  opens, finishes, works, takes, sending, answering, run_worker, run_task, Delivery, DeliveryBatch,
  emit_final, new_dispatcher, valid_events, is_valid_event, offer_batch, spawn_unless, Delivers,
  send_events, close_ack,
}
use agent_action_visualizer.Protocol.Value.{object, end}
use agent_action_visualizer.Wrapper.Stream.Pieces.{concat, IsPiece, offer_pieces, offer_data-pieces}
use agent_action_visualizer.Wrapper.Stream.Complete.{unbroken_complete}
use agent_action_visualizer.Wrapper.Stream.{
  starts, numbers, sends, parses, stdout, StreamTap, take_number, new_stream_tap, send_chunk,
  parse_chunk, number_chunk, TapReaches, mark_chunk, final_chunks, next_sequence, offer_data,
}
use agent_action_visualizer.Prelude.Dict.{lookup, put, delete}
use agent_action_visualizer.Prelude.Time.{sub_time}
use agent_action_visualizer.Prelude.Path.{clean}
use agent_action_visualizer.Protocol.Samples.{sample}
use agent_action_visualizer.Wrapper.Evidence.Quiet.{IsUnopposed, flush-IsUnopposed}
use agent_action_visualizer.Wrapper.Evidence.Bounds.{IsWithin, Reaches-IsWithin}
use agent_action_visualizer.Wrapper.Evidence.{
  EvidenceGate, new_evidence_gate, emit, process, take_due, enqueue, process_keyed, sort_strings,
  evidence_key, due_keys, process_fallback, process_strong, is_covered, canonical_evidence_path,
  event_family, hand_over, is_fallback_evidence, event_at, is_full,
}
use agent_action_visualizer.Protocol.Event.{Event, EventType, Confidence, SourceType}
use agent_action_visualizer.Prelude.{
  ◌≡◌, refl, false, [], ◌∷◌, arith, All, bytes, text_eq, pos, List, Text, true, some, has_byte,
  keep, take,
}
use agent_action_visualizer.Wrapper.Evidence.Reach.{Reaches, begins, emits, receives, receive}

abbrev watched : Event
watched = record (sample EventType.file_modified Confidence.observed (bytes "a") 3) {
  source_type = SourceType.filesystem;
}

abbrev hooked : Event
hooked = sample EventType.file_patched Confidence.exact (bytes "a") 3

abbrev offered : EvidenceGate
offered = emit false false (new_evidence_gate (pos 2) (pos 10)) (hooked ∷ watched ∷ [])

abbrev processed : EvidenceGate
processed = process (record offered { queue = [] }) (hooked ∷ watched ∷ []) 5

processed-Reaches : Reaches (pos 2) (pos 10) processed (receive (hooked ∷ watched ∷ []) 5 []) 5
processed-Reaches =
    receives offered [] 0 5 (hooked ∷ watched ∷ []) []
      (emits (new_evidence_gate (pos 2) (pos 10)) [] 0 false false (hooked ∷ watched ∷ []) begins)
      (unfold emit enqueue new_evidence_gate in refl) (omega arith)

Reaches-IsWithin_example : IsWithin 2 processed
Reaches-IsWithin_example =
    Reaches-IsWithin (pos 2) (pos 10) processed (receive (hooked ∷ watched ∷ []) 5 []) 5
      processed-Reaches

-- The file system's report of the write is dropped.
drops_fallback : processed.pending ≡ []
unfolding process new_evidence_gate process_keyed evidence_key process_fallback process_strong emit
    enqueue is_covered text_eq clean canonical_evidence_path event_family hand_over sub_time lookup
    put delete is_fallback_evidence
drops_fallback = refl

abbrev watched_first : EvidenceGate
watched_first = emit false false (new_evidence_gate (pos 2) (pos 10)) (watched ∷ [])

abbrev pending_first : EvidenceGate
pending_first = process (record watched_first { queue = [] }) (watched ∷ []) 5

pending_first-Reaches : Reaches (pos 2) (pos 10) pending_first ((watched, 5) ∷ []) 5
pending_first-Reaches =
    receives watched_first [] 0 5 (watched ∷ []) []
      (emits (new_evidence_gate (pos 2) (pos 10)) [] 0 false false (watched ∷ []) begins)
      (unfold emit enqueue new_evidence_gate in refl) (omega arith)

flush-IsUnopposed_example :
    All
      (IsUnopposed 10 ((watched, 5) ∷ []))
      (take_due pending_first.pending (sort_strings (due_keys 15 false pending_first.pending))).0
flush-IsUnopposed_example =
    flush-IsUnopposed (pos 2) (pos 10) pending_first ((watched, 5) ∷ []) 5 15 false (omega arith)
      pending_first-Reaches

hands_over_pending :
    (take_due pending_first.pending (sort_strings (due_keys 15 false pending_first.pending))).0
    ≡ watched ∷ []
unfolding process new_evidence_gate process_keyed evidence_key process_fallback process_strong emit
    enqueue is_covered text_eq clean canonical_evidence_path event_family hand_over sub_time lookup
    put delete is_fallback_evidence take_due sort_strings due_keys event_at is_full
hands_over_pending = refl

abbrev one_numbered : StreamTap
one_numbered = take_number (new_stream_tap 1) stdout (bytes "line")

abbrev one_sent : StreamTap
one_sent = send_chunk one_numbered (number_chunk (new_stream_tap 1) stdout (bytes "line")) []

abbrev one_parsed : StreamTap
one_parsed = parse_chunk one_sent (number_chunk (new_stream_tap 1) stdout (bytes "line")) []

one_parsed-TapReaches : TapReaches 1 one_parsed
unfolding take_number send_chunk new_stream_tap
one_parsed-TapReaches =
    parses one_sent (number_chunk (new_stream_tap 1) stdout (bytes "line")) []
      (sends one_numbered [] [] (number_chunk (new_stream_tap 1) stdout (bytes "line"))
        (numbers (new_stream_tap 1) stdout (bytes "line") starts) refl)
      refl

unbroken_complete_example : one_parsed.parsed ≡ one_parsed.offered
unbroken_complete_example =
    unbroken_complete 1 one_parsed one_parsed-TapReaches
      (unfold parse_chunk send_chunk take_number new_stream_tap in omega arith)
      (unfold parse_chunk mark_chunk final_chunks send_chunk take_number number_chunk new_stream_tap
          next_sequence in
        (refl, (refl, (refl, tt))))

offer_data-pieces_example :
    (pieces : List Text) × (concat pieces ≡ bytes "line")
    × All IsPiece pieces
    × (offer_data true false (new_stream_tap 1) stdout (bytes "line")
        ≡ some (offer_pieces (new_stream_tap 1) stdout pieces))
offer_data-pieces_example = offer_data-pieces (new_stream_tap 1) stdout (bytes "line")

-- A coder of maps that are empty.
abbrev plain : Json
plain = record { marshal = λ fields. some (bytes "{}"); unmarshal = λ payload. some (object end) }

abbrev final_queued : Delivery
final_queued = emit_final plain (new_dispatcher true 1) (hooked ∷ []) 7

abbrev final_batch : DeliveryBatch
final_batch = record { events = valid_events plain (hooked ∷ []); ack = some 7 }

abbrev final_taken : Delivery
final_taken = record final_queued { queue = []; worker = some (sending final_batch) }

abbrev final_sent : Delivery
final_sent = run_worker (sending final_batch) final_taken

abbrev final_answered : Delivery
final_answered = run_worker (answering final_batch) final_sent

final_answered-Delivers : Delivers plain true 1 final_answered
unfolding emit_final valid_events is_valid_event validate valid_event_type valid_source
    valid_confidence limited_fields valid_strings non_negative valid_numbers validate_metadata
    text_eq offer_batch new_dispatcher spawn_unless has_byte utf8_valid valid_string keep take
    run_worker run_task send_events close_ack
final_answered-Delivers =
    works final_sent (answering final_batch)
      (works final_taken (sending final_batch)
        (takes final_queued final_batch [] (finishes (new_dispatcher true 1) (hooked ∷ []) 7 opens)
          refl refl)
        refl)
      refl

sends_final : final_answered.sent ≡ (hooked ∷ []) ∷ []
unfolding emit_final valid_events is_valid_event validate valid_event_type valid_source
    valid_confidence limited_fields valid_strings non_negative valid_numbers validate_metadata
    text_eq offer_batch new_dispatcher spawn_unless has_byte utf8_valid valid_string keep take
    run_worker run_task send_events close_ack
sends_final = refl

answers_final : final_answered.closed ≡ 7 ∷ []
unfolding emit_final valid_events is_valid_event validate valid_event_type valid_source
    valid_confidence limited_fields valid_strings non_negative valid_numbers validate_metadata
    text_eq offer_batch new_dispatcher spawn_unless has_byte utf8_valid valid_string keep take
    run_worker run_task send_events close_ack
answers_final = refl

Delivers-IsClean_example :
    All (IsClean plain) final_answered.sent
    × All (IsDelivered true final_answered.finals final_answered.sent) final_answered.closed
Delivers-IsClean_example = Delivers-IsClean plain true 1 final_answered final_answered-Delivers
