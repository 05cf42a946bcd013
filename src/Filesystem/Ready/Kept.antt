-- ===== src/Filesystem/Ready/Kept.antt =====
-- A change whose key is taken was ready, and no other is lost (internal/adapters/filesystem/observer.go).
use agent_action_visualizer.Prelude.Sort.{sort}
use agent_action_visualizer.Prelude.Dict.{lookup, Dict, delete, IsDistinct, lookup-delete}
use agent_action_visualizer.Filesystem.Change.{PendingChange}
use agent_action_visualizer.Filesystem.Ready.{take_ready, ready_keys}
use agent_action_visualizer.Prelude.{
  ℕ, zero, suc, ◌≤◌, ◌≡◌, refl, ap, ◌∙◌, ◌⊎◌, inl, inr, Bool, true, Option, none, some, List, [],
  ◌∷◌, arith, Bool-cases, Option-cases, length, All, Text, if-elim, take, All-imply, text_eq,
  text_eq_iff, text_eq_refl, text_lt, some_inj, sym,
}
use agent_action_visualizer.Prelude.Sort.Sorted.{Has, here, there, All-sort}

pub take_ready-none :
    (pending : Dict PendingChange) (keys : List Text) (k : Text)
    → lookup k pending ≡ none
    → lookup k (take_ready pending keys).1 ≡ none
unfolding take_ready
take_ready-none pending [] k absent = absent
take_ready-none pending (path ∷ keys) k absent =
    let gone =
      take_ready-none (delete path pending) keys k
        (ground (arith, lookup-delete path k pending, absent)) in
    elim (Option-cases (lookup path pending)) [
      | inl nil ↦ ground (arith, nil, gone)
      | inr (item, found) ↦ ground (arith, found, gone)
    ]

-- The change under the key stays, or it is handed over and was ready.
abbrev pub IsTaken :
    (PendingChange → Bool) → List PendingChange → Option PendingChange → PendingChange → Type 0
IsTaken ready taken left item =
    (left ≡ some item) ⊎ ((left ≡ none) × Has item taken × (ready item ≡ true))

IsTaken-front :
    (ready : PendingChange → Bool) (path : Text) (pending : Dict PendingChange) (keys : List Text)
    (k : Text) (item : PendingChange)
    → IsTaken ready
        (take_ready (delete path pending) keys).0
        (lookup k (take_ready (delete path pending) keys).1)
        item
    → IsTaken ready
        (take_ready pending (path ∷ keys)).0
        (lookup k (take_ready pending (path ∷ keys)).1)
        item
unfolding take_ready
IsTaken-front ready path pending keys k item h = elim (Option-cases (lookup path pending)) [
  | inl nil ↦ rw nil h
  | inr (x, found) ↦
      rw found
        (elim h [ inl left ↦ inl left | inr (gone, has, settled) ↦ inr (gone, there has, settled) ])
]

-- The key stands for a change that is ready.
abbrev pub IsKeyOf : (PendingChange → Bool) → Dict PendingChange → Text → Type 0
IsKeyOf ready pending path =
    (item : PendingChange) → lookup path pending ≡ some item → ready item ≡ true

IsKeyOf-delete :
    (ready : PendingChange → Bool) (path : Text) (pending : Dict PendingChange) (keys : List Text)
    → All (IsKeyOf ready pending) keys
    → All (IsKeyOf ready (delete path pending)) keys
IsKeyOf-delete ready path pending keys =
    All-imply (IsKeyOf ready pending) (IsKeyOf ready (delete path pending)) keys
      (λ k h item found. h item (ground (arith, lookup-delete path k pending, found)))

pub take_ready-IsTaken :
    (ready : PendingChange → Bool) (pending : Dict PendingChange) (keys : List Text) (k : Text)
    (item : PendingChange)
    → All (IsKeyOf ready pending) keys
    → lookup k pending ≡ some item
    → IsTaken ready (take_ready pending keys).0 (lookup k (take_ready pending keys).1) item
unfolding take_ready
take_ready-IsTaken ready pending [] k item settled held = inl held
take_ready-IsTaken ready pending (path ∷ keys) k item settled held =
    elim (Bool-cases (text_eq path k)) [
      | inl same ↦
          let found : lookup path pending ≡ some item =
            ap (λ j. lookup j pending) ((text_eq_iff path k).0 same) ∙ held in
          rw found (
            inr (
              take_ready-none (delete path pending) keys k
                  (ground (arith, lookup-delete path k pending, same)),
              here refl,
              settled.0 item found,
            ))
      | inr other ↦ IsTaken-front ready path pending keys k item (
          take_ready-IsTaken ready (delete path pending) keys k item
            (IsKeyOf-delete ready path pending keys settled.1)
            (ground (arith, lookup-delete path k pending, other, held)))
    ]

pub lookup-behind :
    (k path : Text) (item x : PendingChange) (pending : Dict PendingChange)
    → lookup path pending ≡ none
    → lookup k pending ≡ some x
    → lookup k ((path, item) ∷ pending) ≡ some x
unfolding lookup
lookup-behind k path item x pending absent found = elim (Bool-cases (text_eq path k)) [
  | inl same ↦
      absurd
        (ground (arith, ap (λ j. lookup j pending) ((text_eq_iff path k).0 same), absent, found))
  | inr other ↦ ground (arith, other, found)
]

ready_keys-IsKeyOf :
    (ready : PendingChange → Bool) (pending : Dict PendingChange)
    → IsDistinct pending
    → All
        (λ path. (item : PendingChange) × (lookup path pending ≡ some item) × (ready item ≡ true))
        (ready_keys ready pending)
unfolding ready_keys
ready_keys-IsKeyOf ready [] d = tt
ready_keys-IsKeyOf ready ((path, item) ∷ pending) d =
    let behind =
      All-imply (λ k. (x : PendingChange) × (lookup k pending ≡ some x) × (ready x ≡ true))
        (λ k. (x : PendingChange) × (lookup k ((path, item) ∷ pending) ≡ some x) × (ready x ≡ true))
        (ready_keys ready pending)
        (λ k (x, found, settled). (x, lookup-behind k path item x pending d.0 found, settled))
        (ready_keys-IsKeyOf ready pending d.1) in
    if-elim
      (All (λ k.
        (x : PendingChange) × (lookup k ((path, item) ∷ pending) ≡ some x) × (ready x ≡ true)))
      (ready item) _ _
      (λ settled. ((item, unfold lookup in ground (arith, text_eq_refl path), settled), behind))
      (λ _. behind)

pub length-take_ready :
    (pending : Dict PendingChange) (keys : List Text)
    → length (take_ready pending keys).0 ≤ length keys
unfolding take_ready
length-take_ready pending [] = omega arith
length-take_ready pending (path ∷ keys) = elim (Option-cases (lookup path pending)) [
  | inl nil ↦ ground (arith, nil, length-take_ready (delete path pending) keys)
  | inr (item, found) ↦ ground (arith, found, length-take_ready (delete path pending) keys)
]

All-take {κ} : {A : Type 0} (P : A → Type κ) (n : ℕ) (xs : List A) → All P xs → All P (take n xs)
unfolding take
All-take P zero xs h = tt
All-take P (suc n) [] h = tt
All-take P (suc n) (x ∷ xs) h = (h.0, All-take P n xs h.1)

-- The keys that readyChanges takes stand for changes that are ready.
pub keys-IsKeyOf :
    (ready : PendingChange → Bool) (pending : Dict PendingChange) (limit : ℕ)
    → IsDistinct pending
    → All (IsKeyOf ready pending) (take limit (sort text_lt (ready_keys ready pending)))
keys-IsKeyOf ready pending limit distinct =
    let keys = sort text_lt (ready_keys ready pending) in
    All-take (IsKeyOf ready pending) limit keys (
      All-imply (λ k. (x : PendingChange) × (lookup k pending ≡ some x) × (ready x ≡ true))
        (IsKeyOf ready pending) keys
        (λ k (x, found, settled) item held. ap ready (some_inj (sym held ∙ found)) ∙ settled)
        (All-sort text_lt _ (ready_keys ready pending) (ready_keys-IsKeyOf ready pending distinct)))
