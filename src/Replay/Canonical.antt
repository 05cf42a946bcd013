-- ===== src/Replay/Canonical.antt =====
-- The canonical order does not depend on how the events came (internal/replay/replay.go).
use agent_action_visualizer.Replay.Order.{
  replays_before_irrefl, replays_before_trans, replays_before_connex,
}
use agent_action_visualizer.Prelude.Sort.{sort}
use agent_action_visualizer.Prelude.Keys.{has_key}
use agent_action_visualizer.Replay.{unique_events, replays_before, canonical_events}
use agent_action_visualizer.Protocol.Event.{Event}
use agent_action_visualizer.Prelude.{
  All-imply, ◌≡◌, refl, sym, ap, ◌∙◌, subst, ◌↔◌, inl, inr, true, false, List, [], ◌∷◌, arith,
  Bool-cases, All, Text, text_eq,
}
use agent_action_visualizer.Prelude.Sort.Sorted.{
  Has, here, there, Has-cons, All-sort, Has-sort, sort-Has, IsSorted, insert_sorted-IsSorted,
  IsSorted-unique,
}

-- An id belongs to one event.
abbrev pub IsIdentified : List Event → Type 0
IsIdentified events =
    (a b : Event) → Has a events → Has b events → text_eq a.event_id b.event_id ≡ true → a ≡ b

unseen_cons :
    (k j : Text) (seen : List Text)
    → has_key k (j ∷ seen) ≡ false
    → (text_eq j k ≡ false) × (has_key k seen ≡ false)
unfolding has_key
unseen_cons k j seen h = ground (arith, h)

unique_events-unseen :
    (seen : List Text) (events : List Event)
    → All (λ ev. has_key ev.event_id seen ≡ false) (unique_events seen events)
unfolding unique_events
unique_events-unseen seen [] = tt
unique_events-unseen seen (ev ∷ events) = elim (Bool-cases (has_key ev.event_id seen)) [
  | inl known ↦ rw known (unique_events-unseen seen events)
  | inr new ↦ rw new (
    new,
    All-imply (λ u. has_key u.event_id (ev.event_id ∷ seen) ≡ false)
        (λ u. has_key u.event_id seen ≡ false) (unique_events (ev.event_id ∷ seen) events)
        (λ u h. (unseen_cons u.event_id ev.event_id seen h).1)
        (unique_events-unseen (ev.event_id ∷ seen) events),
  )
]

sort-IsSorted :
    (seen : List Text) (events : List Event)
    → IsSorted replays_before (sort replays_before (unique_events seen events))
unfolding unique_events sort
sort-IsSorted seen [] = tt
sort-IsSorted seen (ev ∷ events) = elim (Bool-cases (has_key ev.event_id seen)) [
  | inl known ↦ rw known (sort-IsSorted seen events)
  | inr new ↦ rw new (
      insert_sorted-IsSorted replays_before replays_before_irrefl replays_before_trans ev
        (sort replays_before (unique_events (ev.event_id ∷ seen) events))
        (All-sort replays_before (λ b. replays_before b ev ≡ false → replays_before ev b ≡ true)
          (unique_events (ev.event_id ∷ seen) events)
          (All-imply (λ u. has_key u.event_id (ev.event_id ∷ seen) ≡ false)
            (λ b. replays_before b ev ≡ false → replays_before ev b ≡ true)
            (unique_events (ev.event_id ∷ seen) events)
            (λ u h. replays_before_connex ev u (unseen_cons u.event_id ev.event_id seen h).0)
            (unique_events-unseen (ev.event_id ∷ seen) events)))
        (sort-IsSorted (ev.event_id ∷ seen) events))
]

unique_events-Has :
    (x : Event) (seen : List Text) (events : List Event)
    → Has x (unique_events seen events)
    → Has x events
unfolding unique_events
unique_events-Has x seen [] h = h
unique_events-Has x seen (ev ∷ events) h = elim (Bool-cases (has_key ev.event_id seen)) [
  | inl known ↦ there (unique_events-Has x seen events (subst (Has x) (rw known refl) h))
  | inr new ↦ elim (Has-cons (subst (Has x) (rw new refl) h)) [
    | inl same ↦ here same
    | inr behind ↦ there (unique_events-Has x (ev.event_id ∷ seen) events behind)
  ]
]

Has-unique_events :
    (x : Event) (seen : List Text) (events : List Event)
    → IsIdentified events
    → has_key x.event_id seen ≡ false
    → Has x events
    → Has x (unique_events seen events)
unfolding unique_events has_key
Has-unique_events x seen [] ids fresh h = h
Has-unique_events x seen (ev ∷ events) ids fresh (here e) =
    rw (sym (ap (λ a. has_key a.event_id seen) e) ∙ fresh) (here e)
Has-unique_events x seen (ev ∷ events) ids fresh (there h) =
    let rest : IsIdentified events = λ a b m n. ids a b (there m) (there n) in
    elim (Bool-cases (has_key ev.event_id seen)) [
      | inl known ↦ rw known (Has-unique_events x seen events rest fresh h)
      | inr new ↦ rw new (elim (Bool-cases (text_eq ev.event_id x.event_id)) [
        | inl same ↦ here (sym (ids ev x (here refl) (there h) same))
        | inr apart ↦
            there
              (Has-unique_events x (ev.event_id ∷ seen) events rest (rw (apart, has_key) fresh) h)
      ])
    ]

module _ (events : List Event) where
  -- The canonical list of any events is sorted strictly by the order of replay: every event comes
  -- before all that are behind it.
  pub canonical_events-IsSorted : IsSorted replays_before (canonical_events events)
  unfolding canonical_events
  canonical_events-IsSorted = sort-IsSorted [] events

  canonical_events-same :
      IsIdentified events → (x : Event) → Has x (canonical_events events) ↔ Has x events
  unfolding canonical_events has_key
  canonical_events-same ids x = (
    λ h. unique_events-Has x [] events (sort-Has replays_before x (unique_events [] events) h),
    λ h.
        Has-sort replays_before x (unique_events [] events)
          (Has-unique_events x [] events ids refl h),
  )

-- Two lists of events with the same elements, in which an id belongs to one event, have the same
-- canonical order, however they are ordered and however often an event is repeated.
pub canonical_events-determined :
    (xs ys : List Event)
    → IsIdentified xs
    → ((x : Event) → Has x xs ↔ Has x ys)
    → canonical_events xs ≡ canonical_events ys
canonical_events-determined xs ys ids same =
    let ids' : IsIdentified ys = λ a b m n. ids a b ((same a).1 m) ((same b).1 n) in
    IsSorted-unique replays_before replays_before_irrefl replays_before_trans (canonical_events xs)
      (canonical_events ys) (canonical_events-IsSorted xs) (canonical_events-IsSorted ys)
      (λ x.
        let left = canonical_events-same xs ids x in
        let right = canonical_events-same ys ids' x in
        (λ h. right.1 ((same x).0 (left.0 h)), λ h. left.1 ((same x).1 (right.0 h))))
