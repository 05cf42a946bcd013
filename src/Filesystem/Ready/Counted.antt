-- ===== src/Filesystem/Ready/Counted.antt =====
-- A change that is ready stays only when as many are taken as there is room for
-- (internal/adapters/filesystem/observer.go).
use agent_action_visualizer.Filesystem.Ready.Kept.{take_ready-none}
use agent_action_visualizer.Prelude.Held.{IsHeld, held, count-cons, IsHeld-delete}
use agent_action_visualizer.Prelude.Dict.{lookup, Dict, IsDistinct, delete, lookup-delete}
use agent_action_visualizer.Filesystem.Change.{PendingChange}
use agent_action_visualizer.Filesystem.Ready.{ready_keys, take_ready, with_held}
use agent_action_visualizer.Prelude.Sort.{insert_sorted, sort}
use agent_action_visualizer.Prelude.{
  ℕ, zero, suc, ◌+◌, ◌≤◌, ◌<◌, ◌≡◌, refl, sym, ap, ◌∙◌, subst, ◌⊎◌, inl, inr, Bool, true, Option,
  none, some, List, [], ◌∷◌, arith, ltb, Bool-cases, Option-cases, length, Text, if-elim, take,
  some_inj, text_eq, text_lt, text_eq_iff, text_eq_refl,
}
use agent_action_visualizer.Prelude.Keys.{count, hit}

count-insert_sorted :
    (k a : Text) (xs : List Text) → count k (insert_sorted text_lt a xs) ≡ hit a k + count k xs
unfolding insert_sorted count
count-insert_sorted k a [] = ground arith
count-insert_sorted k a (b ∷ xs) =
    if-elim (λ ys. count k ys ≡ hit a k + count k (b ∷ xs)) (text_lt b a) _ _
      (λ _. ground (arith, count-insert_sorted k a xs)) (λ _. ground arith)

count-sort : (k : Text) (xs : List Text) → count k (sort text_lt xs) ≡ count k xs
unfolding sort count
count-sort k [] = refl
count-sort k (a ∷ xs) = ground (arith, count-insert_sorted k a (sort text_lt xs), count-sort k xs)

count-ready_keys :
    (ready : PendingChange → Bool) (pending : Dict PendingChange)
    → IsDistinct pending
    → IsHeld pending (ready_keys ready pending)
unfolding ready_keys count lookup
count-ready_keys ready [] distinct k = omega arith
count-ready_keys ready ((path, item) ∷ pending) distinct k = elim (Bool-cases (text_eq path k)) [
  | inl same ↦
      let absent : count k (ready_keys ready pending) ≤ 0 =
        subst (λ o. count k (ready_keys ready pending) ≤ held o)
          (ap (λ j. lookup j pending) (sym ((text_eq_iff path k).0 same)) ∙ distinct.0)
          (count-ready_keys ready pending distinct.1 k) in
      ground (arith, same, absent)
  | inr other ↦ ground (arith, other, count-ready_keys ready pending distinct.1 k)
]

-- The key of a change that is ready is listed.
ready_keys-listed :
    (ready : PendingChange → Bool) (pending : Dict PendingChange) (k : Text) (item : PendingChange)
    → lookup k pending ≡ some item
    → ready item ≡ true
    → 0 < count k (ready_keys ready pending)
unfolding ready_keys count lookup
ready_keys-listed ready [] k item found is_ready = absurd (ground (arith, found))
ready_keys-listed ready ((path, x) ∷ pending) k item found is_ready =
    elim (Bool-cases (text_eq path k)) [
      | inl same ↦
          let x_ready : ready x ≡ true =
            ap ready (some_inj (ground (arith, same, found))) ∙ is_ready in
          ground (arith, same, x_ready)
      | inr other ↦
          let rest =
            ready_keys-listed ready pending k item (ground (arith, other, found)) is_ready in
          if-elim (λ keys. 0 < count k keys) (ready x) _ _ (λ _. ground (arith, rest)) (λ _. rest)
    ]

-- A key that is listed is taken from the map.
take_ready-gone :
    (pending : Dict PendingChange) (keys : List Text) (k : Text)
    → 0 < count k keys
    → lookup k (take_ready pending keys).1 ≡ none
unfolding take_ready count
take_ready-gone pending [] k listed = absurd (omega (arith, listed))
take_ready-gone pending (path ∷ keys) k listed =
    let gone : lookup k (take_ready (delete path pending) keys).1 ≡ none =
      elim (Bool-cases (text_eq path k)) [
        | inl same ↦
            take_ready-none (delete path pending) keys k
              (ground (arith, lookup-delete path k pending, same))
        | inr other ↦ take_ready-gone (delete path pending) keys k (ground (arith, listed, other))
      ] in
    with_held-gone (lookup path pending) (take_ready (delete path pending) keys) k gone
  where
    with_held-gone :
        (found : Option PendingChange) (rest : List PendingChange × Dict PendingChange) (j : Text)
        → lookup j rest.1 ≡ none
        → lookup j (with_held found rest).1 ≡ none
    with_held-gone none rest j h = h
    with_held-gone (some x) rest j h = h

-- As many changes are taken as there are keys that are held.
length-take_ready-held :
    (pending : Dict PendingChange) (keys : List Text)
    → IsHeld pending keys
    → length (take_ready pending keys).0 ≡ length keys
unfolding take_ready
length-take_ready-held pending [] h = refl
length-take_ready-held pending (path ∷ keys) h = elim (Option-cases (lookup path pending)) [
  | inl absent ↦
      absurd (ground (arith, h path, count-cons path path keys, text_eq_refl path, absent))
  | inr (item, present) ↦
      let rest =
        length-take_ready-held (delete path pending) keys (IsHeld-delete pending path keys h) in
      ground (arith, present, rest)
]

count-take-le : (k : Text) (n : ℕ) (xs : List Text) → count k (take n xs) ≤ count k xs
unfolding take count
count-take-le k zero xs = omega arith
count-take-le k (suc n) [] = omega arith
count-take-le k (suc n) (x ∷ xs) = ground (arith, count-take-le k n xs)

-- A listed key that is cut off has as many before it.
length-take-cut :
    (k : Text) (n : ℕ) (xs : List Text)
    → 0 < count k xs
    → count k (take n xs) ≡ 0
    → length (take n xs) ≡ n
unfolding take count
length-take-cut k zero xs listed cut = refl
length-take-cut k (suc n) [] listed cut = absurd (omega (arith, listed))
length-take-cut k (suc n) (x ∷ xs) listed cut = elim (Bool-cases (text_eq x k)) [
  | inl same ↦ absurd (ground (arith, cut, same))
  | inr other ↦
      let rest =
        length-take-cut k n xs (ground (arith, listed, other)) (ground (arith, cut, other)) in
      ap suc rest
]

-- A change that is ready is taken, or there was no room for it.
pub take_ready-full :
    (ready : PendingChange → Bool) (pending : Dict PendingChange) (limit : ℕ) (k : Text)
    (item : PendingChange)
    → IsDistinct pending
    → lookup k pending ≡ some item
    → ready item ≡ true
    → (lookup k (take_ready pending (take limit (sort text_lt (ready_keys ready pending)))).1
        ≡ none)
      ⊎ (length (take_ready pending (take limit (sort text_lt (ready_keys ready pending)))).0
          ≡ limit)
take_ready-full ready pending limit k item distinct found is_ready =
    let keys = sort text_lt (ready_keys ready pending) in
    let listed : 0 < count k keys = ground (
      arith,
      count-sort k (ready_keys ready pending),
      ready_keys-listed ready pending k item found is_ready,
    ) in
    elim (Bool-cases (ltb 0 (count k (take limit keys)))) [
      | inl within ↦ inl (take_ready-gone pending (take limit keys) k (ground (arith, within)))
      | inr cut ↦
          let few : IsHeld pending (take limit keys) = λ j. omega (
            arith,
            count-take-le j limit keys,
            count-sort j (ready_keys ready pending),
            count-ready_keys ready pending distinct j,
          ) in
          inr (
            length-take_ready-held pending (take limit keys) few
            ∙ length-take-cut k limit keys listed (ground (arith, cut)))
    ]
