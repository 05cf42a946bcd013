-- ===== src/Replay/Reconstruct/Stored.antt =====
-- What a replayed event leaves in the engine, and that it keeps its timeout
-- (internal/replay/replay.go).
use agent_action_visualizer.Session.State.Invariant.{}
use agent_action_visualizer.Protocol.Value.{get_field}
use agent_action_visualizer.Prelude.Dict.{lookup, lookup-put}
use agent_action_visualizer.Protocol.Event.{Event, same_type, EventType}
use agent_action_visualizer.Session.State.{State, start, step}
use agent_action_visualizer.Replay.Reconstruct.{
  wrap_error, apply_sequence, apply_event, ReplayError, apply_diff, diff_work, metadata_int,
}
use agent_action_visualizer.Session.Engine.{
  Engine, commit, apply_to, apply, set_work_result, Work, Error, set_work,
}
use agent_action_visualizer.Prelude.{
  ◌≡◌, refl, ap, ◌∙◌, inl, inr, Option, none, some, arith, Bool-cases, Option-cases, Result, ok,
  err, Text, bytes, is_empty, text_eq_refl, ℤ, pos, ltb_ℤ,
}
use agent_action_visualizer.Session.Engine.History.{
  IsSound, apply-IsSound, set_work_result-IsSound, session_id-step,
}

-- What a method returns is stored under its id.
abbrev pub IsStored {ℓ} : {E : Type ℓ} → Engine × Result E State → Type 0
IsStored (e, ok s) = lookup s.session_id e.sessions ≡ some s
IsStored (e, err f) = Unit {0}

commit-IsStored :
    (e : Engine) (id : Text) (s : State) → s.session_id ≡ id → IsStored (commit e id s)
unfolding commit
commit-IsStored e id s name =
    ground (arith, lookup-put id s.session_id s e.sessions, name, text_eq_refl id)

apply_to-IsStored :
    (e : Engine) (ev : Event) (o : Option State)
    → lookup ev.session_id e.sessions ≡ o
    → IsSound e
    → IsStored (apply_to e ev o)
unfolding apply_to
apply_to-IsStored e ev none at sound =
    elim (Bool-cases (same_type ev.event_type EventType.session_started)) [
      | inl begins ↦
          rw (begins, apply_to) (commit-IsStored e ev.session_id (start ev) (unfold start in refl))
      | inr other ↦ rw (other, apply_to) tt
    ]
apply_to-IsStored e ev (some s) at sound =
    let name = sound.named ev.session_id s at in
    elim (Bool-cases (same_type ev.event_type EventType.session_started)) [
      | inl begins ↦ rw (begins, apply_to) (ap (λ id. lookup id e.sessions) name ∙ at)
      | inr other ↦
          rw (other, apply_to)
            (commit-IsStored e ev.session_id (step e.idle_timeout s ev)
              (session_id-step e.idle_timeout s ev ∙ name))
    ]

apply-IsStored : (e : Engine) (ev : Event) → IsSound e → IsStored (apply e ev)
unfolding apply
apply-IsStored e ev sound = elim (Bool-cases (is_empty ev.session_id)) [
  | inl unnamed ↦ rw (unnamed, apply) tt
  | inr named ↦
      rw (named, apply) (apply_to-IsStored e ev (lookup ev.session_id e.sessions) refl sound)
]

set_work_result-IsStored :
    (e : Engine) (id : Text) (sequence : ℤ) (w : Work)
    → IsSound e
    → IsStored (set_work_result e id sequence w)
unfolding set_work_result
set_work_result-IsStored e id sequence w sound = elim (Option-cases (lookup id e.sessions)) [
  | inl missing ↦ rw (missing, set_work_result) tt
  | inr (s, at) ↦ elim (Option-cases (set_work sequence w s.intervals)) [
    | inl unknown ↦ rw (at, set_work_result) (rw (unknown, set_work_result) tt)
    | inr (cs, found) ↦
        rw (at, set_work_result)
          (rw (found, set_work_result)
            (commit-IsStored e id (record s { intervals = cs }) (sound.named id s at)))
  ]
]

-- A call with its error wrapped.
abbrev IsKept : Engine × Result ReplayError State → Type 0
IsKept r = IsSound r.0 × IsStored r

wrap_error-IsKept :
    (r : Engine × Result Error State) → IsSound r.0 → IsStored r → IsKept (wrap_error r)
unfolding wrap_error
wrap_error-IsKept (e, ok s) sound stored = (sound, stored)
wrap_error-IsKept (e, err f) sound stored = (sound, tt)

apply_sequence-IsKept :
    (e : Engine) (ev : Event) (o : Option ℤ) → IsSound e → IsKept (apply_sequence e ev o)
unfolding apply_sequence
apply_sequence-IsKept e ev none sound = (sound, tt)
apply_sequence-IsKept e ev (some n) sound = elim (Bool-cases (ltb_ℤ n (pos 1))) [
  | inl low ↦ rw (low, apply_sequence) (sound, tt)
  | inr high ↦
      rw (high, apply_sequence)
        (wrap_error-IsKept (set_work_result e ev.session_id n (diff_work ev))
          (set_work_result-IsSound e ev.session_id n (diff_work ev) sound)
          (set_work_result-IsStored e ev.session_id n (diff_work ev) sound))
]

pub apply_event-IsKept : (e : Engine) (ev : Event) → IsSound e → IsKept (apply_event e ev)
unfolding apply_event apply_diff
apply_event-IsKept e ev sound =
    elim (Bool-cases (same_type ev.event_type EventType.diff_calculated)) [
      | inl diff ↦
          rw (diff, apply_event)
            (apply_sequence-IsKept e ev
              (metadata_int (get_field (bytes "access_sequence") ev.metadata)) sound)
      | inr other ↦
          rw (other, apply_event)
            (wrap_error-IsKept (apply e ev) (apply-IsSound e ev sound) (apply-IsStored e ev sound))
    ]

idle-wrap_error : (r : Engine × Result Error State) → (wrap_error r).0 ≡ r.0
unfolding wrap_error
idle-wrap_error (e, ok s) = refl
idle-wrap_error (e, err f) = refl

idle-apply_to :
    (e : Engine) (ev : Event) (o : Option State) → (apply_to e ev o).0.idle_timeout ≡ e.idle_timeout
unfolding apply_to commit
idle-apply_to e ev none = ground arith
idle-apply_to e ev (some s) = ground arith

idle-set_work_result :
    (e : Engine) (id : Text) (sequence : ℤ) (w : Work)
    → (set_work_result e id sequence w).0.idle_timeout ≡ e.idle_timeout
unfolding set_work_result commit
idle-set_work_result e id sequence w = ground arith

idle-apply : (e : Engine) (ev : Event) → (apply e ev).0.idle_timeout ≡ e.idle_timeout
unfolding apply
idle-apply e ev = elim (Bool-cases (is_empty ev.session_id)) [
  | inl unnamed ↦ rw (unnamed, apply) refl
  | inr named ↦ rw (named, apply) (idle-apply_to e ev (lookup ev.session_id e.sessions))
]

idle-apply_sequence :
    (e : Engine) (ev : Event) (o : Option ℤ)
    → (apply_sequence e ev o).0.idle_timeout ≡ e.idle_timeout
unfolding apply_sequence
idle-apply_sequence e ev none = refl
idle-apply_sequence e ev (some n) = elim (Bool-cases (ltb_ℤ n (pos 1))) [
  | inl low ↦ rw (low, apply_sequence) refl
  | inr high ↦
      rw (high, apply_sequence)
        (ap (λ (x : Engine). x.idle_timeout)
            (idle-wrap_error (set_work_result e ev.session_id n (diff_work ev)))
          ∙ idle-set_work_result e ev.session_id n (diff_work ev))
]

pub idle-apply_event :
    (e : Engine) (ev : Event) → (apply_event e ev).0.idle_timeout ≡ e.idle_timeout
unfolding apply_event apply_diff
idle-apply_event e ev = elim (Bool-cases (same_type ev.event_type EventType.diff_calculated)) [
  | inl diff ↦
      rw (diff, apply_event)
        (idle-apply_sequence e ev (metadata_int (get_field (bytes "access_sequence") ev.metadata)))
  | inr other ↦
      rw (other, apply_event)
        (ap (λ (x : Engine). x.idle_timeout) (idle-wrap_error (apply e ev)) ∙ idle-apply e ev)
]
