-- ===== src/Filesystem/Batch/Ids.antt =====
-- The ids of a batch's events are numbered on (internal/adapters/filesystem/observer.go).
use agent_action_visualizer.Filesystem.Batch.Numbers.{filesystem_id_inj}
use agent_action_visualizer.Prelude.Keys.{has_key}
use agent_action_visualizer.Filesystem.Change.{PendingChange}
use agent_action_visualizer.Filesystem.Renames.{RenamePair, correlate_renames}
use agent_action_visualizer.Filesystem.Batch.{
  rename_events, change_events, events_for_batch, with_change,
}
use agent_action_visualizer.Protocol.Event.{Event}
use agent_action_visualizer.Wrapper.Stream.{next_sequence}
use agent_action_visualizer.Filesystem.Events.{
  filesystem_id, rename_event, Observation, GitEvidence, change_event,
}
use agent_action_visualizer.Prelude.{
  ℕ, zero, suc, ◌+◌, ◌^◌, ◌≤◌, ◌<◌, ◌≡◌, refl, sym, ap, subst, ◌≢◌, Option, none, some, List, [],
  ◌∷◌, ◌++◌, map, arith, if◌then◌else◌, length, All, Text,
}

-- The ids of the next events.
abbrev pub next_ids : Text → ℕ → ℕ → List Text
next_ids session sequence zero = []
next_ids session sequence (suc n) =
    filesystem_id session (next_sequence sequence) ∷ next_ids session (next_sequence sequence) n

abbrev pub after_ids : ℕ → ℕ → ℕ
after_ids sequence zero = sequence
after_ids sequence (suc n) = after_ids (next_sequence sequence) n

-- The list has the next ids, and ends at the last number.
abbrev pub IsNumberedOn : Text → ℕ → List Event × ℕ → Type 0
IsNumberedOn session sequence events =
    (map (λ (ev : Event). ev.event_id) events.0 ≡ next_ids session sequence (length events.0))
    × (events.1 ≡ after_ids sequence (length events.0))

rename_events-IsNumberedOn :
    (observation : Observation) (sequence : ℕ) (pairs : List RenamePair)
    → IsNumberedOn observation.session_id sequence (rename_events observation sequence pairs)
unfolding rename_events rename_event
rename_events-IsNumberedOn observation sequence [] = (refl, refl)
rename_events-IsNumberedOn observation sequence (pair ∷ pairs) =
    let rest = rename_events-IsNumberedOn observation (next_sequence sequence) pairs in
    (ap (◌∷◌ (filesystem_id observation.session_id (next_sequence sequence))) rest.0, rest.1)

with_change-IsNumberedOn :
    (session : Text) (found : Option Event) (sequence : ℕ) (rest : ℕ → List Event × ℕ)
    → ((n : ℕ) → IsNumberedOn session n (rest n))
    → IsNumberedOn session sequence (with_change session found sequence rest)
with_change-IsNumberedOn session none sequence rest h = h sequence
with_change-IsNumberedOn session (some ev) sequence rest h =
    let (ids, last) = h (next_sequence sequence) in
    (ap (◌∷◌ (filesystem_id session (next_sequence sequence))) ids, last)

change_events-IsNumberedOn :
    (observation : Observation) (root : Text) (evidence : GitEvidence) (consumed : List Text)
    (batch : List PendingChange) (sequence : ℕ)
    → IsNumberedOn observation.session_id sequence
        (change_events observation root evidence consumed batch sequence)
unfolding change_events
change_events-IsNumberedOn observation root evidence consumed [] sequence = (refl, refl)
change_events-IsNumberedOn observation root evidence consumed (item ∷ batch) sequence =
    with_change-IsNumberedOn observation.session_id
      (if has_key item.path consumed then none else change_event observation root item evidence)
      sequence (change_events observation root evidence consumed batch)
      (λ n. change_events-IsNumberedOn observation root evidence consumed batch n)

append-IsNumberedOn :
    (session : Text) (sequence : ℕ) (xs ys : List Event) (middle last : ℕ)
    → IsNumberedOn session sequence (xs, middle)
    → IsNumberedOn session middle (ys, last)
    → IsNumberedOn session sequence (xs ++ ys, last)
append-IsNumberedOn session sequence [] ys middle last (hx, hm) hy =
    subst (λ n. IsNumberedOn session n (ys, last)) hm hy
append-IsNumberedOn session sequence (x ∷ xs) ys middle last (hx, hm) hy =
    let first : x.event_id ≡ filesystem_id session (next_sequence sequence) = ground (arith, hx) in
    let behind : map (λ (ev : Event). ev.event_id) xs
        ≡ next_ids session (next_sequence sequence) (length xs) =
      ground (arith, hx) in
    let (ids, end_at) =
      append-IsNumberedOn session (next_sequence sequence) xs ys middle last (behind, hm) hy in
    (cc (first, ids), end_at)

pub events_for_batch-IsNumberedOn :
    (observation : Observation) (root : Text) (batch : List PendingChange) (evidence : GitEvidence)
    (sequence : ℕ)
    → IsNumberedOn observation.session_id sequence
        (events_for_batch observation root batch evidence sequence)
unfolding events_for_batch
events_for_batch-IsNumberedOn observation root batch evidence sequence =
    append-IsNumberedOn observation.session_id sequence _ _ _ _
      (rename_events-IsNumberedOn observation sequence
        (correlate_renames root batch evidence.renames).0)
      (change_events-IsNumberedOn observation root evidence
        (correlate_renames root batch evidence.renames).1 batch
        (rename_events observation sequence (correlate_renames root batch evidence.renames).0).1)

next_sequence_small : (n : ℕ) → n + 1 < 2 ^ 64 → next_sequence n ≡ suc n
unfolding next_sequence
next_sequence_small n small = omega (arith, small)

abbrev pub IsUnrepeated : List Text → Type 0
IsUnrepeated [] = Unit
IsUnrepeated (id ∷ ids) = All (λ other. id ≢ other) ids × IsUnrepeated ids

next_ids-later :
    (session : Text) (m sequence n : ℕ)
    → m ≤ sequence
    → sequence + n < 2 ^ 64
    → All (λ id. filesystem_id session m ≢ id) (next_ids session sequence n)
next_ids-later session m sequence zero before small = tt
next_ids-later session m sequence (suc n) before small =
    let next : next_sequence sequence ≡ suc sequence =
      next_sequence_small sequence (omega (arith, small)) in
    (
      λ same.
          let alike =
            filesystem_id_inj session m (next_sequence sequence) (omega (arith, before, small))
              (omega (arith, next, small)) same in
          omega (arith, alike, next, before),
      next_ids-later session m (next_sequence sequence) n (omega (arith, next, before))
          (omega (arith, next, small)),
    )

next_ids-IsUnrepeated :
    (session : Text) (sequence n : ℕ)
    → sequence + n < 2 ^ 64
    → IsUnrepeated (next_ids session sequence n)
next_ids-IsUnrepeated session sequence zero small = tt
next_ids-IsUnrepeated session sequence (suc n) small =
    let next : next_sequence sequence ≡ suc sequence =
      next_sequence_small sequence (omega (arith, small)) in
    (
      next_ids-later session (next_sequence sequence) (next_sequence sequence) n (omega arith)
          (omega (arith, next, small)),
      next_ids-IsUnrepeated session (next_sequence sequence) n (omega (arith, next, small)),
    )

-- Where the sequence number does not reach 2^64, the events of a batch have pairwise different ids,
-- and the sequence number goes on by one for each of them.
pub events_for_batch-IsUnrepeated :
    (observation : Observation) (root : Text) (batch : List PendingChange) (evidence : GitEvidence)
    (sequence : ℕ)
    → sequence + length (events_for_batch observation root batch evidence sequence).0 < 2 ^ 64
    → IsUnrepeated (
        map
          (λ (ev : Event). ev.event_id)
          (events_for_batch observation root batch evidence sequence).0)
      × ((events_for_batch observation root batch evidence sequence).1
          ≡ after_ids sequence
              (length (events_for_batch observation root batch evidence sequence).0))
events_for_batch-IsUnrepeated observation root batch evidence sequence small =
    let (ids, last) = events_for_batch-IsNumberedOn observation root batch evidence sequence in
    (
      subst IsUnrepeated (sym ids) (
          next_ids-IsUnrepeated observation.session_id sequence
            (length (events_for_batch observation root batch evidence sequence).0) small),
      last,
    )
