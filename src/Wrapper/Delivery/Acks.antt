-- ===== src/Wrapper/Delivery/Acks.antt =====
-- The collector is sent valid events in bounded batches, and an acknowledged batch was sent
-- (adapter/go/wrapper/delivery.go).
use agent_action_visualizer.Wrapper.Delivery.Owned.{
  IsSent, IsTask, IsIdleOr, IsProper, IsClean, IsOwned, emit_events-IsProper, IsDelivered,
  emit_final-IsProper, IsIdleOr-imply,
}
use agent_action_visualizer.Protocol.Validate.{Json}
use agent_action_visualizer.Protocol.Event.{Event}
use agent_action_visualizer.Prelude.{
  ℕ, ◌≡◌, refl, sym, ◌∙◌, subst, inl, inr, Bool, not, Option, none, some, List, [], ◌∷◌, ◌++◌,
  arith, All, All-take_out, if-elim, All-imply,
}
use agent_action_visualizer.Prelude.Sort.Sorted.{Has, here, there}
use agent_action_visualizer.Wrapper.Delivery.{
  opens, queues, finishes, takes, works, flies, send_events, close_ack, run_task, run_worker, Task,
  run_spawned, new_dispatcher, Delivery, sending, put_back, Delivers, answering,
}

IsSent-later :
    (c : Bool) (sent : List (List Event)) (next events : List Event)
    → IsSent c sent events
    → IsSent c (next ∷ sent) events
IsSent-later c sent next events (inl nothing) = inl nothing
IsSent-later c sent next events (inr (inl nobody)) = inr (inl nobody)
IsSent-later c sent next events (inr (inr has)) = inr (inr (there has))

IsTask-sent :
    (json : Json) (c : Bool) (finals : List (ℕ × List Event)) (sent : List (List Event))
    (next : List Event) (task : Task)
    → IsTask json c finals sent task
    → IsTask json c finals (next ∷ sent) task
IsTask-sent json c finals sent next (sending batch) h = h
IsTask-sent json c finals sent next (answering batch) h =
    (h.0, IsSent-later c sent next batch.events h.1)

-- send keeps what is known, and then the events are sent.
send_events-IsProper :
    (json : Json) (c : Bool) (events : List Event) (d : Delivery)
    → IsClean json events
    → IsProper json c d
    → IsProper json c (send_events events d) × IsSent c (send_events events d).sent events
unfolding send_events
send_events-IsProper json c [] d clean proper = (proper, inl refl)
send_events-IsProper json c (ev ∷ events) d clean (same, queue, worker, spawned, sent, closed) =
    let more = IsTask-sent json c d.finals d.sent (ev ∷ events) in
    if-elim (λ d'. IsProper json c d' × IsSent c d'.sent (ev ∷ events)) (not d.has_collector) _ _
      (λ nobody.
        ((same, queue, worker, spawned, sent, closed), inr (inl (ground (arith, same, nobody)))))
      (λ _. (
        (
          same,
          queue,
          IsIdleOr-imply (IsTask json c d.finals d.sent)
              (IsTask json c d.finals ((ev ∷ events) ∷ d.sent)) d.worker more worker,
          All-imply (IsTask json c d.finals d.sent)
              (IsTask json c d.finals ((ev ∷ events) ∷ d.sent)) d.spawned more spawned,
          (clean, sent),
          All-imply (IsDelivered c d.finals d.sent)
              (IsDelivered c d.finals ((ev ∷ events) ∷ d.sent)) d.closed
              (λ a (delivered, has, was_sent).
                (delivered, has, IsSent-later c d.sent (ev ∷ events) delivered was_sent))
              closed,
        ),
        inr (inr (here refl)),
      ))

close_ack-IsProper :
    (json : Json) (c : Bool) (ack : Option ℕ) (events : List Event) (d : Delivery)
    → ((a : ℕ) → ack ≡ some a → Has (a, events) d.finals)
    → IsSent c d.sent events
    → IsProper json c d
    → IsProper json c (close_ack ack d)
unfolding close_ack
close_ack-IsProper json c none events d owned was_sent proper = proper
close_ack-IsProper json c (some ack) events d owned was_sent
      (same, queue, worker, spawned, sent, closed) =
    (same, queue, worker, spawned, sent, ((events, owned ack refl, was_sent), closed))

send_events_rest :
    (events : List Event) (d : Delivery)
    → ((send_events events d).finals ≡ d.finals) × ((send_events events d).spawned ≡ d.spawned)
unfolding send_events
send_events_rest [] d = (refl, refl)
send_events_rest (ev ∷ events) d =
    if-elim (λ (d' : Delivery). (d'.finals ≡ d.finals) × (d'.spawned ≡ d.spawned))
      (not d.has_collector) _ _ (λ _. (refl, refl)) (λ _. (refl, refl))

run_task-spawned : (task : Task) (d : Delivery) → (run_task task d).1.spawned ≡ d.spawned
unfolding run_task close_ack
run_task-spawned (sending batch) d = (send_events_rest batch.events d).1
run_task-spawned (answering batch) d =
    elim batch.ack as (λ ack. (close_ack ack d).spawned ≡ d.spawned) [
      | none ↦ refl
      | some ack ↦ refl
    ]

run_task-IsProper :
    (json : Json) (c : Bool) (task : Task) (d : Delivery)
    → IsTask json c d.finals d.sent task
    → IsProper json c d
    → IsProper json c (run_task task d).1
      × IsIdleOr
          (IsTask json c (run_task task d).1.finals (run_task task d).1.sent)
          (run_task task d).0
unfolding run_task
run_task-IsProper json c (sending batch) d owned proper =
    let (next, was_sent) = send_events-IsProper json c batch.events d owned.0 proper in
    let still : IsOwned json (send_events batch.events d).finals batch =
      subst (λ f. IsOwned json f batch) (sym (send_events_rest batch.events d).0) owned in
    (next, (still, was_sent))
run_task-IsProper json c (answering batch) d (owned, was_sent) proper =
    (close_ack-IsProper json c batch.ack batch.events d owned.1 was_sent proper, tt)

run_worker-IsProper :
    (json : Json) (c : Bool) (task : Task) (d : Delivery)
    → d.worker ≡ some task
    → IsProper json c d
    → IsProper json c (run_worker task d)
unfolding run_worker
run_worker-IsProper json c task d busy (same, queue, worker, spawned, sent, closed) =
    let known = subst (IsIdleOr (IsTask json c d.finals d.sent)) busy worker in
    let ((same', queue', worker', spawned', sent', closed'), left) =
      run_task-IsProper json c task d known (same, queue, worker, spawned, sent, closed) in
    (same', queue', left, spawned', sent', closed')

All-put_back :
    (P : Task → Type 0) (before : List Task) (left : Option Task) (after : List Task)
    → All P (before ++ after)
    → IsIdleOr P left
    → All P (put_back before left after)
All-put_back P before none after h k = h
All-put_back P [] (some task) after h k = (k, h)
All-put_back P (b ∷ before) (some task) after h k =
    (h.0, All-put_back P before (some task) after h.1 k)

run_spawned-IsProper :
    (json : Json) (c : Bool) (before : List Task) (task : Task) (after : List Task) (d : Delivery)
    → d.spawned ≡ before ++ task ∷ after
    → IsProper json c d
    → IsProper json c (run_spawned before task after d)
unfolding run_spawned
run_spawned-IsProper json c before task after d flying
      (same, queue, worker, spawned, sent, closed) =
    let known =
      All-take_out (IsTask json c d.finals d.sent) before task after
        (subst (All (IsTask json c d.finals d.sent)) flying spawned) in
    let ((same', queue', worker', spawned', sent', closed'), left) =
      run_task-IsProper json c task d known.0 (same, queue, worker, spawned, sent, closed) in
    let task_of = IsTask json c (run_task task d).1.finals (run_task task d).1.sent in
    let others =
      All-take_out task_of before task after
        (subst (All task_of) (run_task-spawned task d ∙ flying) spawned') in
    (
      same',
      queue',
      worker',
      All-put_back task_of before (run_task task d).0 after others.1 left,
      sent',
      closed',
    )

new_dispatcher-IsProper : (json : Json) (c : Bool) (n : ℕ) → IsProper json c (new_dispatcher c n)
unfolding new_dispatcher
new_dispatcher-IsProper json c n = (refl, tt, tt, tt, tt, tt)

Delivers-IsProper :
    (json : Json) (c : Bool) (n : ℕ) (d : Delivery) → Delivers json c n d → IsProper json c d
Delivers-IsProper json c n d opens = new_dispatcher-IsProper json c n
Delivers-IsProper json c n d (queues d' cancelled events r) =
    emit_events-IsProper json c cancelled d' events (Delivers-IsProper json c n d' r)
Delivers-IsProper json c n d (finishes d' events ack r) =
    emit_final-IsProper json c d' events ack (Delivers-IsProper json c n d' r)
Delivers-IsProper json c n d (takes d' batch rest r idle queue_is) =
    let (same, queue, worker, spawned, sent, closed) = Delivers-IsProper json c n d' r in
    let (owned, behind) = subst (All (IsOwned json d'.finals)) queue_is queue in
    (same, behind, owned, spawned, sent, closed)
Delivers-IsProper json c n d (works d' task r busy) =
    run_worker-IsProper json c task d' busy (Delivers-IsProper json c n d' r)
Delivers-IsProper json c n d (flies d' before after task r flying) =
    run_spawned-IsProper json c before task after d' flying (Delivers-IsProper json c n d' r)

-- After any steps of Emit, emitFinal, the worker and the goroutines of emitFinal, sending a batch
-- and closing its channel being two steps, every batch that the collector was sent has at most 128
-- events, all of them accepted by Validate; and for every channel that was closed there is a call
-- of emitFinal with it, whose valid events were sent to the collector, unless there are none of
-- them or the collector is nil.
pub Delivers-IsClean :
    (json : Json) (has_collector : Bool) (queue_size : ℕ) (d : Delivery)
    → Delivers json has_collector queue_size d
    → All (IsClean json) d.sent × All (IsDelivered has_collector d.finals d.sent) d.closed
Delivers-IsClean json has_collector queue_size d r =
    let (same, queue, worker, spawned, sent, closed) =
      Delivers-IsProper json has_collector queue_size d r in
    (sent, closed)
