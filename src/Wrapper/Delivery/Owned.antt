-- ===== src/Wrapper/Delivery/Owned.antt =====
-- The batches that Emit and emitFinal queue, and the channels they answer to
-- (adapter/go/wrapper/delivery.go).
use agent_action_visualizer.Wrapper.Delivery.{
  Task, is_valid_event, valid_events, offer_batch, spawn_unless, emit_events, emit_final,
  DeliveryBatch, sending, Delivery, default_max_events, answering,
}
use agent_action_visualizer.Protocol.Event.{Event}
use agent_action_visualizer.Protocol.Validate.{Json, validate}
use agent_action_visualizer.Prelude.{
  ℕ, ◌≤◌, ◌≡◌, sym, subst, ◌⊎◌, inl, inr, Bool, true, false, Option, none, some, List, [], ◌∷◌,
  arith, ok, length, keep, All, keep-All, if-elim, take, length-take, some_inj, Result-cases,
  All-imply, length-keep-le, All-append,
}
use agent_action_visualizer.Prelude.Sort.Sorted.{Has, here, there}

abbrev pub IsClean : Json → List Event → Type 0
IsClean json events = (length events ≤ 128) × All (λ ev. validate json ev ≡ ok tt) events

-- The batch is clean, and its channel is that of a call of emitFinal with these events.
abbrev pub IsOwned : Json → List (ℕ × List Event) → DeliveryBatch → Type 0
IsOwned json finals batch =
    IsClean json batch.events × ((ack : ℕ) → batch.ack ≡ some ack → Has (ack, batch.events) finals)

-- The events were sent, unless there are none or there is no collector.
abbrev pub IsSent : Bool → List (List Event) → List Event → Type 0
IsSent has_collector sent events = (events ≡ []) ⊎ ((has_collector ≡ false) ⊎ Has events sent)

-- What emitFinal was to deliver under the channel was sent.
abbrev pub IsDelivered : Bool → List (ℕ × List Event) → List (List Event) → ℕ → Type 0
IsDelivered has_collector finals sent ack =
    (events : List Event) × Has (ack, events) finals × IsSent has_collector sent events

abbrev pub IsTask : Json → Bool → List (ℕ × List Event) → List (List Event) → Task → Type 0
IsTask json has_collector finals sent (sending batch) = IsOwned json finals batch
IsTask json has_collector finals sent (answering batch) =
    IsOwned json finals batch × IsSent has_collector sent batch.events

abbrev pub IsIdleOr : (Task → Type 0) → Option Task → Type 0
IsIdleOr P none = Unit {0}
IsIdleOr P (some task) = P task

abbrev pub IsProper : Json → Bool → Delivery → Type 0
IsProper json c d =
    (d.has_collector ≡ c)
    × All (IsOwned json d.finals) d.queue
    × IsIdleOr (IsTask json c d.finals d.sent) d.worker
    × All (IsTask json c d.finals d.sent) d.spawned
    × All (IsClean json) d.sent
    × All (IsDelivered c d.finals d.sent) d.closed

is_valid_event-ok :
    (json : Json) (ev : Event) → is_valid_event json ev ≡ true → validate json ev ≡ ok tt
unfolding is_valid_event
is_valid_event-ok json ev h = elim (Result-cases (validate json ev)) [
  | inl (u, good) ↦ good
  | inr (e, bad) ↦ absurd (ground (arith, bad, h))
]

valid_events-IsClean : (json : Json) (events : List Event) → IsClean json (valid_events json events)
unfolding valid_events
valid_events-IsClean json events = (
  omega (
    arith,
    length-keep-le (is_valid_event json) (take default_max_events events),
    length-take default_max_events events,
  ),
  All-imply (λ ev. is_valid_event json ev ≡ true) (λ ev. validate json ev ≡ ok tt)
      (keep (is_valid_event json) (take default_max_events events)) (is_valid_event-ok json)
      (keep-All (is_valid_event json) (take default_max_events events)),
)

offer_batch-IsProper :
    (json : Json) (c : Bool) (d : Delivery) (batch : DeliveryBatch)
    → IsOwned json d.finals batch
    → IsProper json c d
    → IsProper json c (offer_batch d batch).0
unfolding offer_batch
offer_batch-IsProper json c d batch owned (same, queue, worker, spawned, sent, closed) =
    if-elim (λ (r : Delivery × Bool). IsProper json c r.0) _ _ _
      (λ _. (same, queue, worker, spawned, sent, closed))
      (λ _. (
        same,
        All-append (IsOwned json d.finals) d.queue (batch ∷ []) queue (owned, tt),
        worker,
        spawned,
        sent,
        closed,
      ))

IsOwned-later :
    (json : Json) (finals : List (ℕ × List Event)) (final : ℕ × List Event) (batch : DeliveryBatch)
    → IsOwned json finals batch
    → IsOwned json (final ∷ finals) batch
IsOwned-later json finals final batch h = (h.0, λ ack e. there (h.1 ack e))

IsTask-later :
    (json : Json) (c : Bool) (finals : List (ℕ × List Event)) (final : ℕ × List Event)
    (sent : List (List Event)) (task : Task)
    → IsTask json c finals sent task
    → IsTask json c (final ∷ finals) sent task
IsTask-later json c finals final sent (sending batch) h = IsOwned-later json finals final batch h
IsTask-later json c finals final sent (answering batch) h =
    (IsOwned-later json finals final batch h.0, h.1)

pub IsIdleOr-imply :
    (P Q : Task → Type 0) (worker : Option Task)
    → ((task : Task) → P task → Q task)
    → IsIdleOr P worker
    → IsIdleOr Q worker
IsIdleOr-imply P Q none f h = tt
IsIdleOr-imply P Q (some task) f h = f task h

offer_batch-finals :
    (d : Delivery) (batch : DeliveryBatch) → (offer_batch d batch).0.finals ≡ d.finals
unfolding offer_batch
offer_batch-finals d batch = ground arith

spawn_unless-IsProper :
    (json : Json) (c queued : Bool) (batch : DeliveryBatch) (d : Delivery)
    → IsOwned json d.finals batch
    → IsProper json c d
    → IsProper json c (spawn_unless queued batch d)
unfolding spawn_unless
spawn_unless-IsProper json c true batch d owned proper = proper
spawn_unless-IsProper json c false batch d owned (same, queue, worker, spawned, sent, closed) =
    (same, queue, worker, (owned, spawned), sent, closed)

pub emit_events-IsProper :
    (json : Json) (c cancelled : Bool) (d : Delivery) (events : List Event)
    → IsProper json c d
    → IsProper json c (emit_events json cancelled d events)
unfolding emit_events
emit_events-IsProper json c true d events proper = proper
emit_events-IsProper json c false d events proper =
    offer_batch-IsProper json c d (record { events = valid_events json events; ack = none })
      (valid_events-IsClean json events, λ ack e. absurd (ground (arith, e))) proper

pub emit_final-IsProper :
    (json : Json) (c : Bool) (d : Delivery) (events : List Event) (ack : ℕ)
    → IsProper json c d
    → IsProper json c (emit_final json d events ack)
unfolding emit_final
emit_final-IsProper json c d events ack (same, queue, worker, spawned, sent, closed) =
    let final : ℕ × List Event = (ack, valid_events json events) in
    let batch : DeliveryBatch = record { events = valid_events json events; ack = some ack } in
    let d' : Delivery = record d { finals = final ∷ d.finals } in
    let owned : IsOwned json d'.finals batch =
      (valid_events-IsClean json events, λ a e. here (cc (some_inj e))) in
    let task_later = IsTask-later json c d.finals final d.sent in
    let proper : IsProper json c d' = (
      same,
      All-imply (IsOwned json d.finals) (IsOwned json d'.finals) d.queue
          (IsOwned-later json d.finals final) queue,
      IsIdleOr-imply (IsTask json c d.finals d.sent) (IsTask json c d'.finals d.sent) d.worker
          task_later worker,
      All-imply (IsTask json c d.finals d.sent) (IsTask json c d'.finals d.sent) d.spawned
          task_later spawned,
      sent,
      All-imply (IsDelivered c d.finals d.sent) (IsDelivered c d'.finals d.sent) d.closed
          (λ a (delivered, has, was_sent). (delivered, there has, was_sent)) closed,
    ) in
    spawn_unless-IsProper json c (offer_batch d' batch).1 batch (offer_batch d' batch).0
      (subst (λ f. IsOwned json f batch) (sym (offer_batch-finals d' batch)) owned)
      (offer_batch-IsProper json c d' batch owned proper)
