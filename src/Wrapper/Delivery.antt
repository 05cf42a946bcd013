-- ===== src/Wrapper/Delivery.antt =====
-- The delivery of events to the collector (adapter/go/wrapper/delivery.go). A channel `ack` is a
-- number, and `closed` has those that are closed.
pub mod Owned
pub mod Acks
use agent_action_visualizer.Protocol.Validate.{Json, validate}
use agent_action_visualizer.Protocol.Event.{Event}
use agent_action_visualizer.Prelude.{
  ℕ, ◌+◌, ◌≡◌, Bool, true, false, not, ◌||◌, Option, none, some, List, [], ◌∷◌, ◌++◌, ltb,
  if◌then◌else◌, ok, err, length, keep, take,
}

pub record DeliveryBatch : Type 0 where
  pub events : List Event
  pub ack : Option ℕ

-- What a goroutine with a batch does next: it calls send, or send has returned.
pub data Task : Type 0 where
  sending answering : DeliveryBatch → Task

-- `has_collector` is false where the collector is nil. `worker` is the task of the worker, and
-- `spawned` has those of the goroutines that emitFinal starts; `finals` has what each call of
-- emitFinal was to deliver, and `sent` what the collector was sent, the last first.
pub record Delivery : Type 0 where
  pub has_collector : Bool
  pub queue_size : ℕ
  pub queue : List DeliveryBatch
  pub worker : Option Task
  pub spawned : List Task
  pub finals : List (ℕ × List Event)
  pub closed : List ℕ
  pub sent : List (List Event)

unfoldable pub new_dispatcher : Bool → ℕ → Delivery
new_dispatcher has_collector queue_size = record {
  has_collector = has_collector;
  queue_size = queue_size;
  queue = [];
  worker = none;
  spawned = [];
  finals = [];
  closed = [];
  sent = [];
}

-- DefaultMaxEvents, in adapter/go/adapter.go.
abbrev pub default_max_events : ℕ
default_max_events = 128

-- event.Validate() == nil
unfoldable pub is_valid_event : Json → Event → Bool
is_valid_event json ev = elim (validate json ev) [ ok _ ↦ true | err _ ↦ false ]

unfoldable pub valid_events : Json → List Event → List Event
unfolding is_valid_event
valid_events json events = keep (is_valid_event json) (take default_max_events events)

-- Whether the batch was queued.
unfoldable pub offer_batch : Delivery → DeliveryBatch → Delivery × Bool
offer_batch d batch =
    if is_none_of batch.events || not (ltb (length d.queue) d.queue_size)
    then (d, false)
    else (record d { queue = d.queue ++ batch ∷ [] }, true)
  where
    is_none_of : List Event → Bool
    is_none_of [] = true
    is_none_of (ev ∷ events) = false

-- Emit, for a context that is done or not.
unfoldable pub emit_events : Json → Bool → Delivery → List Event → Delivery
unfolding valid_events offer_batch
emit_events json cancelled d events =
    if cancelled
    then d
    else (offer_batch d (record { events = valid_events json events; ack = none })).0

unfoldable pub spawn_unless : Bool → DeliveryBatch → Delivery → Delivery
spawn_unless true batch d = d
spawn_unless false batch d = record d { spawned = sending batch ∷ d.spawned }

-- emitFinal, with the channel that it makes.
unfoldable pub emit_final : Json → Delivery → List Event → ℕ → Delivery
unfolding valid_events offer_batch spawn_unless
emit_final json d events ack =
    let batch : DeliveryBatch = record { events = valid_events json events; ack = some ack } in
    let offered = offer_batch (record d { finals = (ack, batch.events) ∷ d.finals }) batch in
    spawn_unless offered.1 batch offered.0

-- send, whose call of the collector may fail or panic and then changes nothing here.
unfoldable pub send_events : List Event → Delivery → Delivery
send_events [] d = d
send_events (ev ∷ events) d =
    if not d.has_collector then d else record d { sent = (ev ∷ events) ∷ d.sent }

unfoldable pub close_ack : Option ℕ → Delivery → Delivery
close_ack none d = d
close_ack (some ack) d = record d { closed = ack ∷ d.closed }

-- One step of a task, and the task that is left.
unfoldable pub run_task : Task → Delivery → Option Task × Delivery
unfolding send_events close_ack
run_task (sending batch) d = (some (answering batch), send_events batch.events d)
run_task (answering batch) d = (none, close_ack batch.ack d)

unfoldable pub run_worker : Task → Delivery → Delivery
unfolding run_task
run_worker task d = let ran = run_task task d in record ran.1 { worker = ran.0 }

abbrev pub put_back : List Task → Option Task → List Task → List Task
put_back before none after = before ++ after
put_back before (some task) after = before ++ task ∷ after

unfoldable pub run_spawned : List Task → Task → List Task → Delivery → Delivery
unfolding run_task
run_spawned before task after d =
    let ran = run_task task d in record ran.1 { spawned = put_back before ran.0 after }

-- Emit and emitFinal from any goroutine, the worker, and the goroutines of emitFinal, interleaved:
-- sending a batch and closing its channel are two steps. Where the worker has stopped it takes none.
pub data Delivers (json : Json) (has_collector : Bool) (queue_size : ℕ) : Delivery → Type 0 where
  opens : Delivers json has_collector queue_size (new_dispatcher has_collector queue_size)
  queues :
      (d : Delivery) (cancelled : Bool) (events : List Event)
      → Delivers json has_collector queue_size d
      → Delivers json has_collector queue_size (emit_events json cancelled d events)
  finishes :
      (d : Delivery) (events : List Event) (ack : ℕ)
      → Delivers json has_collector queue_size d
      → Delivers json has_collector queue_size (emit_final json d events ack)
  takes :
      (d : Delivery) (batch : DeliveryBatch) (rest : List DeliveryBatch)
      → Delivers json has_collector queue_size d
      → d.worker ≡ none
      → d.queue ≡ batch ∷ rest
      → Delivers json has_collector queue_size
          (record d { queue = rest; worker = some (sending batch) })
  works :
      (d : Delivery) (task : Task)
      → Delivers json has_collector queue_size d
      → d.worker ≡ some task
      → Delivers json has_collector queue_size (run_worker task d)
  flies :
      (d : Delivery) (before after : List Task) (task : Task)
      → Delivers json has_collector queue_size d
      → d.spawned ≡ before ++ task ∷ after
      → Delivers json has_collector queue_size (run_spawned before task after d)
