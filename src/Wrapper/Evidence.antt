-- ===== src/Wrapper/Evidence.antt =====
-- The evidence gate (adapter/go/wrapper/evidence.go), on Unix. One goroutine runs the gate; what it
-- hands to the target is the list of batches `emitted`.
pub mod Reach
pub mod Bounds
pub mod Fresh
pub mod Received
pub mod Due
pub mod Distinct
pub mod Kept
pub mod Quiet
use agent_action_visualizer.Protocol.Zero.{zero_event}
use agent_action_visualizer.Ingest.Dedupe.{double}
use agent_action_visualizer.Prelude.Dict.{lookup, Dict, retain, put, delete}
use agent_action_visualizer.Prelude.Time.{sub_time}
use agent_action_visualizer.Prelude.Path.{clean, onto, is_abs, join_byte, join}
use agent_action_visualizer.Protocol.Event.{EventType, Event, SourceType}
use agent_action_visualizer.Prelude.{
  ℕ, zero, suc, ◌+◌, Bool, true, false, not, ◌&&◌, ◌||◌, Option, none, some, List, [], ◌∷◌, ◌++◌,
  ltb, leb, if◌then◌else◌, is_some, length, keep, Text, bytes, is_empty, text_lt, ℤ, pos, negsuc,
  leb_ℤ, ltb_ℤ,
}

unfoldable pub event_family : EventType → Text
event_family EventType.file_modified = bytes "file_write"
event_family EventType.file_patched = bytes "file_write"
event_family EventType.file_created = bytes "file_create"
event_family EventType.file_deleted = bytes "file_delete"
event_family EventType.file_renamed = bytes "file_move"
event_family EventType.file_moved = bytes "file_move"
event_family EventType.directory_created = bytes "directory_create"
event_family EventType.directory_deleted = bytes "directory_delete"
event_family EventType.directory_renamed = bytes "directory_move"
event_family _ = []

unfoldable pub canonical_evidence_path : Text → Text → Text
canonical_evidence_path root path =
    if is_empty path
    then []
    else clean (if not (is_abs path) && not (is_empty root) then join root path else path)

unfoldable pub evidence_key : Event → Text
unfolding event_family canonical_evidence_path
evidence_key ev =
    if is_empty (event_family ev.event_type) || is_empty ev.path
    then []
    else join_byte 0 (
        ev.session_id
        ∷ event_family ev.event_type
        ∷ canonical_evidence_path ev.project_root ev.path
        ∷ canonical_evidence_path ev.project_root ev.previous_path
        ∷ [])

unfoldable pub is_fallback_evidence : Event → Bool
is_fallback_evidence ev = is_observed ev.source_type
  where
    is_observed : SourceType → Bool
    is_observed SourceType.filesystem = true
    is_observed SourceType.git = true
    is_observed _ = false

pub record PendingEvidence : Type 0 where
  pub event : Event
  pub expires : ℕ

-- The channel `queue` has room for `capacity` batches; a window is a positive duration.
pub record EvidenceGate : Type 0 where
  pub window : ℕ
  pub capacity : ℕ
  pub queue : List (List Event)
  pub pending : Dict PendingEvidence
  pub recent_strong : Dict ℕ
  pub emitted : List (List Event)

abbrev pub default_evidence_queue : ℕ
default_evidence_queue = 128

abbrev pub default_evidence_window : ℕ
default_evidence_window = 100000000

-- The default in place of a value that is not positive.
abbrev pub or_default : ℕ → ℤ → ℕ
or_default default (pos zero) = default
or_default default (pos (suc n)) = suc n
or_default default (negsuc n) = default

unfoldable pub new_evidence_gate : ℤ → ℤ → EvidenceGate
new_evidence_gate capacity window = record {
  window = or_default default_evidence_window window;
  capacity = or_default default_evidence_queue capacity;
  queue = [];
  pending = [];
  recent_strong = [];
  emitted = [];
}

unfoldable pub hand_over : EvidenceGate → List Event → EvidenceGate
hand_over g batch = record g { emitted = g.emitted ++ batch ∷ [] }

-- What Emit does with a batch once its tests are passed.
unfoldable pub enqueue : EvidenceGate → List Event → EvidenceGate
unfolding hand_over
enqueue g batch =
    if ltb (length g.queue) g.capacity
    then record g { queue = g.queue ++ batch ∷ [] }
    else hand_over g (keep (λ ev. not (is_fallback_evidence ev)) batch)

-- `stopped` is the flag that stop sets, and `cancelled` tells whether the context is done.
unfoldable pub emit : Bool → Bool → EvidenceGate → List Event → EvidenceGate
unfolding enqueue
emit stopped cancelled g [] = g
emit stopped cancelled g (ev ∷ batch) = if stopped || cancelled then g else enqueue g (ev ∷ batch)

-- Whether strong evidence was seen within the window.
unfoldable pub is_covered : ℕ → ℕ → Option ℕ → Bool
is_covered window now none = false
is_covered window now (some seen) = leb_ℤ (sub_time now seen) (pos window)

-- Whether there is no room for a new key.
unfoldable pub is_full : EvidenceGate → Text → Bool
is_full g key = leb g.capacity (length g.pending) && not (is_some (lookup key g.pending))

unfoldable pub process_fallback : EvidenceGate → Text → Event → ℕ → EvidenceGate
process_fallback g key ev now =
    if is_covered g.window now (lookup key g.recent_strong) || is_full g key
    then g
    else record g { pending = put key (record { event = ev; expires = now + g.window }) g.pending }

unfoldable pub process_strong : EvidenceGate → Text → Event → ℕ → EvidenceGate
process_strong g key ev now =
    hand_over
      (record g { pending = delete key g.pending; recent_strong = put key now g.recent_strong })
      (ev ∷ [])

unfoldable pub process_keyed : EvidenceGate → Text → Event → ℕ → EvidenceGate
process_keyed g key ev now =
    if is_empty key
    then hand_over g (ev ∷ [])
    else if is_fallback_evidence ev
    then process_fallback g key ev now
    else process_strong g key ev now

unfoldable pub process : EvidenceGate → List Event → ℕ → EvidenceGate
process g [] now = g
process g (ev ∷ batch) now = process (process_keyed g (evidence_key ev) ev now) batch now

unfoldable pub due_keys : ℕ → Bool → Dict PendingEvidence → List Text
due_keys now everything [] = []
due_keys now everything ((key, item) ∷ pending) =
    let keys = due_keys now everything pending in
    if everything || not (ltb now item.expires) then key ∷ keys else keys

-- One pass of the inner loop of sortStrings, over the values before, the last of them first.
unfoldable pub sink : Text → List Text → List Text
sink value [] = value ∷ []
sink value (before ∷ rest) =
    let below = sink value rest in
    if text_lt value before then before ∷ below else value ∷ before ∷ rest

abbrev pub sink_all : List Text → List Text → List Text
sink_all before [] = before
sink_all before (value ∷ values) = sink_all (sink value before) values

unfoldable pub sort_strings : List Text → List Text
unfolding sink
sort_strings values = onto (sink_all [] values) []

-- pending[key].event, which is the zero event when there is no such key.
unfoldable pub event_at : Option PendingEvidence → Event
event_at none = zero_event
event_at (some item) = item.event

unfoldable pub take_due : Dict PendingEvidence → List Text → List Event × Dict PendingEvidence
take_due pending [] = ([], pending)
take_due pending (key ∷ keys) =
    let rest = take_due (delete key pending) keys in
    (event_at (lookup key pending) ∷ rest.0, rest.1)

unfoldable pub hand_over_due : EvidenceGate → List Text → EvidenceGate
hand_over_due g [] = g
hand_over_due g (key ∷ keys) =
    let taken = take_due g.pending (key ∷ keys) in
    hand_over (record g { pending = taken.1 }) taken.0

unfoldable pub flush_evidence : EvidenceGate → ℕ → Bool → EvidenceGate
unfolding hand_over_due
flush_evidence g now everything = hand_over_due g (sort_strings (due_keys now everything g.pending))

unfoldable pub tick : EvidenceGate → ℕ → EvidenceGate
tick g now =
    let flushed = flush_evidence g now false in
    record flushed {
      recent_strong =
          retain (λ seen. not (ltb_ℤ (double (pos g.window)) (sub_time now seen)))
            flushed.recent_strong;
    }
