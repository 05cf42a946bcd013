-- ===== src/Filesystem/Ready/Due.antt =====
-- When a pending change has settled, in times
-- (internal/adapters/filesystem/observer.go).
use agent_action_visualizer.Filesystem.Ready.Kept.{lookup-behind}
use agent_action_visualizer.Filesystem.Ready.{latest_rename_change}
use agent_action_visualizer.Prelude.Time.{sub_time}
use agent_action_visualizer.Prelude.Dict.{Dict, lookup, IsDistinct}
use agent_action_visualizer.Filesystem.Change.{PendingChange, needs_rename_window}
use agent_action_visualizer.Prelude.{
  ℕ, ◌+◌, ◌^◌, ◌≤◌, ◌<◌, ◌≡◌, ap, ◌∙◌, ◌↔◌, ◌⊎◌, inl, inr, Bool, true, false, Option, none, some,
  List, [], ◌∷◌, arith, Bool-cases, length, Text, if-elim, some_inj, text_eq, text_eq_refl, pos,
  leb_ℤ,
}
use agent_action_visualizer.Prelude.Sort.Sorted.{Has}

-- The change may be one half of a rename.
abbrev pub MayBeRename : PendingChange → Type 0
MayBeRename item =
    (item.op.op_rename ≡ true)
    ⊎ ((item.op.op_remove ≡ true) ⊎ ((item.op.op_create ≡ true) × (item.before.exists ≡ false)))

-- No change for the debounce; for one that may be a rename, both times have passed since the last
-- change of any pending one that may be.
abbrev pub HasSettled : Dict PendingChange → ℕ → ℕ → ℕ → PendingChange → Type 0
HasSettled pending now debounce rename_window item =
    ((MayBeRename item → ⊥) × (item.last + debounce ≤ now))
    ⊎ (MayBeRename item
        × ((k : Text) (other : PendingChange)
            → lookup k pending ≡ some other
            → MayBeRename other
            → (other.last + debounce ≤ now) × (other.last + rename_window ≤ now)))

-- All are asked for, or the change has settled.
abbrev pub IsDue : Dict PendingChange → ℕ → ℕ → ℕ → Bool → PendingChange → Type 0
IsDue pending now debounce rename_window everything item =
    (everything ≡ true) ⊎ HasSettled pending now debounce rename_window item

-- The change is taken if it is due and there is room.
abbrev pub IsTakenWhenDue :
    Type 0 → ℕ → List PendingChange → Option PendingChange → PendingChange → Type 0
IsTakenWhenDue due limit taken left item =
    ((left ≡ some item) × ((due → ⊥) ⊎ (length taken ≡ limit)))
    ⊎ ((left ≡ none) × Has item taken × due)

pub needs-MayBeRename :
    (item : PendingChange) → (needs_rename_window item ≡ true) ↔ MayBeRename item
unfolding needs_rename_window
needs-MayBeRename item = (forth, back)
  where
    forth : needs_rename_window item ≡ true → MayBeRename item
    forth h = elim (Bool-cases item.op.op_rename) [
      | inl renamed ↦ inl renamed
      | inr not_renamed ↦ elim (Bool-cases item.op.op_remove) [
        | inl removed ↦ inr (inl removed)
        | inr not_removed ↦ inr (
            inr (
              ground (arith, h, not_renamed, not_removed),
              ground (arith, h, not_renamed, not_removed),
            ))
      ]
    ]

    back : MayBeRename item → needs_rename_window item ≡ true
    back (inl renamed) = ground (arith, renamed)
    back (inr (inl removed)) = ground (arith, removed)
    back (inr (inr (made, new))) = ground (arith, made, new)

-- A duration has passed since a time.
pub elapsed_iff :
    (d now t : ℕ) → d < 2 ^ 63 → (leb_ℤ (pos d) (sub_time now t) ≡ true) ↔ (t + d ≤ now)
unfolding sub_time
elapsed_iff d now t small = (λ h. ground (arith, h, small), λ h. ground (arith, h, small))

pub latest-upper :
    (pending : Dict PendingChange) (k : Text) (other : PendingChange)
    → lookup k pending ≡ some other
    → needs_rename_window other ≡ true
    → other.last ≤ latest_rename_change pending
unfolding latest_rename_change lookup
latest-upper [] k other found needs = absurd (ground (arith, found))
latest-upper ((path, x) ∷ pending) k other found needs = elim (Bool-cases (text_eq path k)) [
  | inl same ↦
      let x_is : x ≡ other = some_inj (ground (arith, same, found)) in
      let x_needs : needs_rename_window x ≡ true = ap needs_rename_window x_is ∙ needs in
      let times = ap (λ (i : PendingChange). i.last) x_is in ground (arith, x_needs, times)
  | inr other_path ↦
      let rest = latest-upper pending k other (ground (arith, other_path, found)) needs in
      if-elim (λ n. other.last ≤ n) (needs_rename_window x) _ _ (λ _. omega (arith, rest))
        (λ _. rest)
]

pub latest-least :
    (pending : Dict PendingChange) (d now : ℕ)
    → IsDistinct pending
    → d ≤ now
    → ((k : Text) (other : PendingChange)
        → lookup k pending ≡ some other
        → needs_rename_window other ≡ true
        → other.last + d ≤ now)
    → latest_rename_change pending + d ≤ now
unfolding latest_rename_change
latest-least [] d now distinct short all = omega (arith, short)
latest-least ((path, x) ∷ pending) d now distinct short all =
    let rest =
      latest-least pending d now distinct.1 short
        (λ k other found. all k other (lookup-behind k path x other pending distinct.0 found)) in
    if-elim (λ n. n + d ≤ now) (needs_rename_window x) _ _
      (λ needs.
        let first = all path x (unfold lookup in ground (arith, text_eq_refl path)) needs in
        omega (arith, first, rest))
      (λ _. rest)
