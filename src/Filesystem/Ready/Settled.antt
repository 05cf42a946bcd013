-- ===== src/Filesystem/Ready/Settled.antt =====
-- readyChanges takes the changes that have settled, as many as it may
-- (internal/adapters/filesystem/observer.go).
use agent_action_visualizer.Filesystem.Ready.Due.{
  IsDue, IsTakenWhenDue, needs-MayBeRename, elapsed_iff, latest-upper, latest-least,
}
use agent_action_visualizer.Filesystem.Ready.Counted.{take_ready-full}
use agent_action_visualizer.Prelude.Sort.{sort}
use agent_action_visualizer.Filesystem.Ready.Kept.{
  length-take_ready, take_ready-IsTaken, keys-IsKeyOf,
}
use agent_action_visualizer.Filesystem.Ready.{
  latest_rename_change, is_ready, ready_changes, ready_keys,
}
use agent_action_visualizer.Prelude.Dict.{Dict, lookup, IsDistinct}
use agent_action_visualizer.Filesystem.Change.{PendingChange, needs_rename_window}
use agent_action_visualizer.Prelude.{
  ℕ, ◌^◌, ◌≤◌, ◌<◌, ◌≡◌, inl, inr, Bool, true, some, arith, Bool-cases, length, Text, take,
  length-take, text_lt, pos,
}

module _ (pending : Dict PendingChange) (now debounce rename_window : ℕ) (everything : Bool)
    (distinct : IsDistinct pending) (small : debounce < 2 ^ 63)
    (small_window : rename_window < 2 ^ 63) where
  ready_of : PendingChange → Bool
  ready_of =
      is_ready now (pos debounce) (pos rename_window) (latest_rename_change pending) everything

  ready-IsDue :
      (item : PendingChange)
      → ready_of item ≡ true
      → IsDue pending now debounce rename_window everything item
  unfolding ready_of is_ready
  ready-IsDue item h = elim (Bool-cases everything) [
    | inl asked ↦ inl asked
    | inr not_asked ↦ elim (Bool-cases (needs_rename_window item)) [
      | inr plain ↦ inr (
          inl (
            λ may. ground (arith, (needs-MayBeRename item).1 may, plain),
            (elapsed_iff debounce now item.last small).0 (ground (arith, not_asked, plain, h)),
          ))
      | inl needs ↦
          let latest = latest_rename_change pending in
          let debounced =
            (elapsed_iff debounce now latest small).0 (ground (arith, not_asked, needs, h)) in
          let waited =
            (elapsed_iff rename_window now latest small_window).0
              (ground (arith, not_asked, needs, h)) in
          inr (
            inr (
              (needs-MayBeRename item).0 needs,
              λ k other found may.
                  let before =
                    latest-upper pending k other found ((needs-MayBeRename other).1 may) in
                  (omega (arith, before, debounced), omega (arith, before, waited)),
            ))
    ]
  ]

  IsDue-ready :
      (k : Text) (item : PendingChange)
      → lookup k pending ≡ some item
      → IsDue pending now debounce rename_window everything item
      → ready_of item ≡ true
  unfolding ready_of is_ready
  IsDue-ready k item found (inl asked) = ground (arith, asked)
  IsDue-ready k item found (inr (inl (plain, debounced))) =
      let long = (elapsed_iff debounce now item.last small).1 debounced in
      elim (Bool-cases (needs_rename_window item)) [
        | inl needs ↦ absurd (plain ((needs-MayBeRename item).0 needs))
        | inr no_need ↦ ground (arith, no_need, long)
      ]
  IsDue-ready k item found (inr (inr (may, all))) =
      let own = all k item found may in
      let latest = latest_rename_change pending in
      let debounced = (elapsed_iff debounce now latest small).1 (
        latest-least pending debounce now distinct (omega (arith, own.0)) (λ j other there_is needs.
          (all j other there_is ((needs-MayBeRename other).0 needs)).0)) in
      let waited = (elapsed_iff rename_window now latest small_window).1 (
        latest-least pending rename_window now distinct (omega (arith, own.1))
          (λ j other there_is needs.
            (all j other there_is ((needs-MayBeRename other).0 needs)).1)) in
      ground (arith, (needs-MayBeRename item).1 may, debounced, waited)

-- Let no path have two pending changes, and let the debounce and the rename window be natural
-- numbers below 2^63. Then readyChanges returns at most `limit` changes. Each pending change either
-- stays pending as it is, and then it is not due or `limit` changes are returned, or it is removed
-- and returned, and then it is due. A change is due when all are asked for; or when it cannot be
-- half of a rename and at least the debounce has passed since its last notification; or when it can
-- be one and both the debounce and the rename window have passed since the last notification of
-- every pending change that can be one.
pub ready_changes-IsTakenWhenDue :
    (pending : Dict PendingChange) (now debounce rename_window : ℕ) (everything : Bool) (limit : ℕ)
    (k : Text) (item : PendingChange)
    → IsDistinct pending
    → debounce < 2 ^ 63
    → rename_window < 2 ^ 63
    → lookup k pending ≡ some item
    → (length (ready_changes pending now (pos debounce) (pos rename_window) everything limit).0
        ≤ limit)
      × IsTakenWhenDue
          (IsDue pending now debounce rename_window everything item)
          limit
          (ready_changes pending now (pos debounce) (pos rename_window) everything limit).0
          (lookup k
            (ready_changes pending now (pos debounce) (pos rename_window) everything limit).1)
          item
unfolding ready_changes ready_of
ready_changes-IsTakenWhenDue pending now debounce rename_window everything limit k item distinct
      small small_window found =
    let ready =
      ready_of pending now debounce rename_window everything distinct small small_window in
    let keys = take limit (sort text_lt (ready_keys ready pending)) in
    (
      omega (
        arith,
        length-take_ready pending keys,
        length-take limit (sort text_lt (ready_keys ready pending)),
      ),
      elim (take_ready-IsTaken ready pending keys k item (keys-IsKeyOf ready pending limit distinct)
          found) [
            | inr (gone, has, is_ready) ↦ inr (
              gone,
              has,
              ready-IsDue pending now debounce rename_window everything distinct small small_window
                  item is_ready,
            )
            | inl stays ↦ elim (Bool-cases (ready item)) [
              | inr not_ready ↦ inl (
                stays,
                inl (λ due. ground (
                  arith,
                  not_ready,
                  IsDue-ready pending now debounce rename_window everything distinct small
                      small_window k item found due,
                )),
              )
              | inl is_ready ↦
                  elim (take_ready-full ready pending limit k item distinct found is_ready) [
                    | inl gone ↦ absurd (ground (arith, gone, stays))
                    | inr full ↦ inl (stays, inr full)
                  ]
            ]
          ],
    )
