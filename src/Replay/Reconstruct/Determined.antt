-- ===== src/Replay/Reconstruct/Determined.antt =====
-- What Reconstruct returns does not depend on how the events came (internal/replay/replay.go).
use agent_action_visualizer.Replay.Canonical.{IsIdentified, canonical_events-determined}
use agent_action_visualizer.Protocol.Event.{Event}
use agent_action_visualizer.Protocol.Validate.{Json, validate, InvalidEvent}
use agent_action_visualizer.Replay.Reconstruct.{validate_all, reconstruct, invalid_event}
use agent_action_visualizer.Prelude.{
  ◌≡◌, refl, ap, ◌∙◌, ◌↔◌, ◌⊎◌, inl, inr, List, [], ◌∷◌, arith, ok, err, Result-cases, ℤ,
}
use agent_action_visualizer.Prelude.Sort.Sorted.{Has, here, there, Has-cons}

validate_all-Has :
    (json : Json) (events : List Event)
    → validate_all json events ≡ ok tt
    → (ev : Event) → Has ev events
    → validate json ev ≡ ok tt
unfolding validate_all
validate_all-Has json [] h ev at = elim at [ ]
validate_all-Has json (first ∷ events) h ev at = elim (Result-cases (validate json first)) [
  | inl (u, good) ↦ elim (Has-cons at) [
    | inl same ↦ ap (validate json) same ∙ good
    | inr behind ↦ validate_all-Has json events (ground (arith, good, h)) ev behind
  ]
  | inr (e, bad) ↦ absurd (ground (arith, bad, h))
]

Has-validate_all :
    (json : Json) (events : List Event)
    → ((ev : Event) → Has ev events → validate json ev ≡ ok tt)
    → validate_all json events ≡ ok tt
unfolding validate_all
Has-validate_all json [] h = refl
Has-validate_all json (first ∷ events) h =
    rw (h first (here refl), validate_all) (Has-validate_all json events (λ ev at. h ev (there at)))

-- The list is accepted, or an event of it is not.
validate_all-cases :
    (json : Json) (events : List Event)
    → (validate_all json events ≡ ok tt)
      ⊎ ((e : InvalidEvent) × (validate_all json events ≡ err (invalid_event e)))
unfolding validate_all
validate_all-cases json [] = inl refl
validate_all-cases json (first ∷ events) = elim (Result-cases (validate json first)) [
  | inl (u, good) ↦ rw (good, validate_all) (validate_all-cases json events)
  | inr (e, bad) ↦ inr (e, rw (bad, validate_all) refl)
]

module _ (json : Json) (xs ys : List Event) (same : (ev : Event) → Has ev xs ↔ Has ev ys) where
  same-accepted : validate_all json xs ≡ ok tt → validate_all json ys ≡ ok tt
  same-accepted h =
      Has-validate_all json ys (λ ev at. validate_all-Has json xs h ev ((same ev).1 at))

-- Two lists of events with the same elements, in which an id belongs to one event, are
-- reconstructed alike at every cursor and timeout, however they are ordered and repeated, or both
-- are refused for an invalid event.
pub reconstruct-determined :
    (json : Json) (xs ys : List Event) (cursor idle : ℤ)
    → IsIdentified xs
    → ((ev : Event) → Has ev xs ↔ Has ev ys)
    → (reconstruct json xs cursor idle ≡ reconstruct json ys cursor idle)
      ⊎ ((e f : InvalidEvent) × (reconstruct json xs cursor idle ≡ err (invalid_event e))
          × (reconstruct json ys cursor idle ≡ err (invalid_event f)))
unfolding reconstruct
reconstruct-determined json xs ys cursor idle ids same = elim (validate_all-cases json xs) [
  | inl good ↦ inl (
      rw (good, same-accepted json xs ys same good, canonical_events-determined xs ys ids same)
        refl)
  | inr (e, bad) ↦ elim (validate_all-cases json ys) [
    | inl good ↦
        let back = same-accepted json ys xs (λ ev. ((same ev).1, (same ev).0)) good in
        absurd (ground (arith, bad, back))
    | inr (f, worse) ↦ inr (e, f, rw bad refl, rw worse refl)
  ]
]
