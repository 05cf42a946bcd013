-- ===== src/Wrapper/Evidence/Due.antt =====
-- What a flush of the evidence gate takes from the pending events, each of them once
-- (adapter/go/wrapper/evidence.go).
use agent_action_visualizer.Prelude.Held.{count-cons, IsHeld, held, IsHeld-delete}
use agent_action_visualizer.Protocol.Event.{Event}
use agent_action_visualizer.Prelude.Path.{onto}
use agent_action_visualizer.Prelude.Dict.{Dict, lookup, IsDistinct, delete, lookup-delete}
use agent_action_visualizer.Wrapper.Evidence.{
  PendingEvidence, sink, sink_all, sort_strings, due_keys, take_due, event_at,
}
use agent_action_visualizer.Prelude.{
  ℕ, ◌+◌, ◌≤◌, ◌≡◌, sym, ap, ◌∙◌, subst, inl, inr, Bool, some, List, [], ◌∷◌, arith, Bool-cases,
  Option-cases, All, Text, text_eq, text_eq_iff, text_eq_refl,
}
use agent_action_visualizer.Prelude.Keys.{count, hit}

count-sink :
    (k value : Text) (before : List Text)
    → count k (sink value before) ≡ hit value k + count k before
unfolding sink count
count-sink k value [] = ground arith
count-sink k value (b ∷ rest) = ground (arith, count-sink k value rest)

count-sink_all :
    (k : Text) (before values : List Text)
    → count k (sink_all before values) ≡ count k before + count k values
unfolding count
count-sink_all k before [] = omega arith
count-sink_all k before (value ∷ values) =
    ground (arith, count-sink_all k (sink value before) values, count-sink k value before)

count-onto : (k : Text) (xs ys : List Text) → count k (onto xs ys) ≡ count k xs + count k ys
unfolding count
count-onto k [] ys = omega arith
count-onto k (x ∷ xs) ys = ground (arith, count-onto k xs (x ∷ ys), count-cons k x ys)

-- sortStrings keeps every string as often as it occurs.
pub count-sort_strings :
    (k : Text) (values : List Text) → count k (sort_strings values) ≡ count k values
unfolding sort_strings count
count-sort_strings k values =
    omega (arith, count-onto k (sink_all [] values) [], count-sink_all k [] values)

count-due_keys :
    (now : ℕ) (everything : Bool) (pending : Dict PendingEvidence)
    → IsDistinct pending
    → IsHeld pending (due_keys now everything pending)
unfolding due_keys count lookup
count-due_keys now everything [] distinct k = omega arith
count-due_keys now everything ((key, item) ∷ pending) distinct k =
    elim (Bool-cases (text_eq key k)) [
      | inl same ↦
          let absent : count k (due_keys now everything pending) ≤ 0 =
            subst (λ o. count k (due_keys now everything pending) ≤ held o)
              (ap (λ j. lookup j pending) (sym ((text_eq_iff key k).0 same)) ∙ distinct.0)
              (count-due_keys now everything pending distinct.1 k) in
          ground (arith, same, absent)
      | inr other ↦ ground (arith, other, count-due_keys now everything pending distinct.1 k)
    ]

pub sort_strings-IsHeld :
    (now : ℕ) (everything : Bool) (pending : Dict PendingEvidence)
    → IsDistinct pending
    → IsHeld pending (sort_strings (due_keys now everything pending))
sort_strings-IsHeld now everything pending distinct k = omega (
  arith,
  count-sort_strings k (due_keys now everything pending),
  count-due_keys now everything pending distinct k,
)

pub take_due-lookup :
    (pending : Dict PendingEvidence) (keys : List Text) (k : Text) (item : PendingEvidence)
    → lookup k (take_due pending keys).1 ≡ some item
    → lookup k pending ≡ some item
unfolding take_due
take_due-lookup pending [] k item found = found
take_due-lookup pending (key ∷ keys) k item found =
    ground
      (arith, take_due-lookup (delete key pending) keys k item found, lookup-delete key k pending)

-- What holds of every pending event holds of those that are taken.
pub All-take_due {κ} :
    (P : Event → Type κ) (pending : Dict PendingEvidence) (keys : List Text)
    → IsHeld pending keys
    → ((key : Text) (item : PendingEvidence) → lookup key pending ≡ some item → P item.event)
    → All P (take_due pending keys).0
unfolding take_due event_at
All-take_due P pending [] h all = tt
All-take_due P pending (key ∷ keys) h all = elim (Option-cases (lookup key pending)) [
  | inl absent ↦ absurd (ground (arith, h key, count-cons key key keys, text_eq_refl key, absent))
  | inr (item, present) ↦ (
    subst (λ o. P (event_at o)) (sym present) (all key item present),
    All-take_due P (delete key pending) keys (IsHeld-delete pending key keys h)
        (λ k it found. all k it (ground (arith, lookup-delete key k pending, found))),
  )
]
