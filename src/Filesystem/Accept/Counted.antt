-- ===== src/Filesystem/Accept/Counted.antt =====
-- Every observed change is counted once (internal/adapters/filesystem/observer.go).
use agent_action_visualizer.Prelude.Int.{next_int}
use agent_action_visualizer.Filesystem.Change.{PendingChange, Operation, FileState}
use agent_action_visualizer.Filesystem.Accept.{
  Watch, note_change, note_lost, touch_change, new_change, accept_change, state_or_none,
  observed_path, add_states, note_state, pos,
}
use agent_action_visualizer.Prelude.Dict.{Dict, lookup, put, length-put}
use agent_action_visualizer.Prelude.{
  ℕ, ◌+◌, ◌^◌, ◌≤◌, ◌<◌, ◌≡◌, refl, ap, inl, inr, none, some, [], ◌∷◌, arith, Bool-cases,
  Option-cases, length, Text, text_eq, Option, Bool, true, if◌then◌else◌, false, ◌&&◌, pos_part,
  All, neg_part, if-elim, subst, ℤ, leb, negsuc,
}

-- How many changes the pending ones stand for.
abbrev pub changes_in : Dict PendingChange → ℕ
changes_in [] = 0
changes_in ((path, item) ∷ pending) = pos_part item.count + changes_in pending

changes_in-put-new :
    (path : Text) (item : PendingChange) (pending : Dict PendingChange)
    → lookup path pending ≡ none
    → changes_in (put path item pending) ≡ pos_part item.count + changes_in pending
unfolding lookup put
changes_in-put-new path item [] absent = refl
changes_in-put-new path item ((j, x) ∷ pending) absent = elim (Bool-cases (text_eq j path)) [
  | inl same ↦ absurd (ground (arith, same, absent))
  | inr other ↦
      let rest = changes_in-put-new path item pending (ground (arith, other, absent)) in
      ground (arith, other, rest)
]

changes_in-put-old :
    (path : Text) (old item : PendingChange) (pending : Dict PendingChange)
    → lookup path pending ≡ some old
    → changes_in (put path item pending) + pos_part old.count
      ≡ pos_part item.count + changes_in pending
unfolding lookup put
changes_in-put-old path old item [] found = absurd (ground (arith, found))
changes_in-put-old path old item ((j, x) ∷ pending) found = elim (Bool-cases (text_eq j path)) [
  | inl same ↦
      let x_is : x ≡ old = ground (arith, same, found) in
      let counted = ap (λ (i : PendingChange). i.count) x_is in ground (arith, same, counted)
  | inr other ↦
      let rest = changes_in-put-old path old item pending (ground (arith, other, found)) in
      ground (arith, other, rest)
]

-- Each change counts at least 0 and at most the bound.
abbrev pub IsCounting : ℕ → Dict PendingChange → Type 0
IsCounting bound pending =
    All (λ entry. (neg_part entry.1.count ≡ 0) × (pos_part entry.1.count ≤ bound)) pending

IsCounting-more :
    (bound : ℕ) (pending : Dict PendingChange)
    → IsCounting bound pending
    → IsCounting (bound + 1) pending
IsCounting-more bound [] h = tt
IsCounting-more bound ((j, x) ∷ pending) h =
    ((h.0.0, omega arith), IsCounting-more bound pending h.1)

IsCounting-put :
    (bound : ℕ) (path : Text) (item : PendingChange) (pending : Dict PendingChange)
    → IsCounting bound pending
    → neg_part item.count ≡ 0
    → pos_part item.count ≤ bound + 1
    → IsCounting (bound + 1) (put path item pending)
unfolding put
IsCounting-put bound path item [] h low high = ((low, omega arith), tt)
IsCounting-put bound path item ((j, x) ∷ pending) h low high =
    let rest = IsCounting-put bound path item pending h.1 low high in
    let others = IsCounting-more bound pending h.1 in
    if-elim (IsCounting (bound + 1)) (text_eq j path) _ _ (λ _. ((low, omega arith), others))
      (λ _. ((h.0.0, omega arith), rest))

IsCounting-lookup :
    (bound : ℕ) (path : Text) (item : PendingChange) (pending : Dict PendingChange)
    → IsCounting bound pending
    → lookup path pending ≡ some item
    → (neg_part item.count ≡ 0) × (pos_part item.count ≤ bound)
unfolding lookup
IsCounting-lookup bound path item [] h found = absurd (ground (arith, found))
IsCounting-lookup bound path item ((j, x) ∷ pending) h found = elim (Bool-cases (text_eq j path)) [
  | inl same ↦
      let x_is : x ≡ item = ground (arith, same, found) in
      subst (λ (i : PendingChange). (neg_part i.count ≡ 0) × (pos_part i.count ≤ bound)) x_is h.0
  | inr other ↦ IsCounting-lookup bound path item pending h.1 (ground (arith, other, found))
]

next_int_lem :
    (n : ℤ)
    → neg_part n ≡ 0
    → pos_part n + 1 < 2 ^ 63
    → (neg_part (next_int n) ≡ 0) × (pos_part (next_int n) ≡ pos_part n + 1)
unfolding next_int
next_int_lem (pos n) low high = ground (arith, high)
next_int_lem (negsuc n) low high = absurd (omega arith)

-- One more change on a counter that is not negative and does not wrap.
touch_change-count :
    (op : Operation) (after : FileState) (at : ℕ) (item : PendingChange)
    → neg_part item.count ≡ 0
    → pos_part item.count + 1 < 2 ^ 63
    → (neg_part (touch_change op after at item).count ≡ 0)
      × (pos_part (touch_change op after at item).count ≡ pos_part item.count + 1)
unfolding touch_change
touch_change-count op after at item low high = next_int_lem item.count low high

-- The bound holds, no counter wrapped, and the change is pending or dropped.
abbrev pub IsAccounted : ℕ → Watch → Watch → ℕ → Type 0
IsAccounted bound before after n =
    (IsCounting (bound + 1) after.pending)
    × (after.max_pending ≡ before.max_pending)
    × (length after.pending ≤ after.max_pending)
    × (changes_in after.pending + after.dropped ≡ changes_in before.pending + before.dropped + n)

note_change-IsAccounted :
    (w : Watch) (path : Text) (op : Operation) (before after : FileState) (at : ℕ) (bound : ℕ)
    → length w.pending ≤ w.max_pending
    → w.dropped + 1 < 2 ^ 64
    → bound + 1 < 2 ^ 63
    → IsCounting bound w.pending
    → IsAccounted bound w (note_change w path op before after at) 1
unfolding note_change note_lost new_change
note_change-IsAccounted w path op before after at bound fits small room counting =
    elim (Option-cases (lookup path w.pending)) [
      | inr (item, found) ↦
          let touched = touch_change op after at item in
          let sum = changes_in-put-old path item touched w.pending found in
          let size = length-put path touched w.pending in
          let held = IsCounting-lookup bound path item w.pending counting found in
          let one = touch_change-count op after at item held.0 (omega arith) in
          let kept = IsCounting-put bound path touched w.pending counting one.0 (omega arith) in
          rw (found, note_change)
            (kept, refl, ground (arith, found, size, fits), omega (arith, sum, one.1))
      | inl absent ↦
          let touched = touch_change op after at (new_change path before at) in
          let sum = changes_in-put-new path touched w.pending absent in
          let size = length-put path touched w.pending in
          let one = touch_change-count op after at (new_change path before at) refl (omega arith) in
          rw (absent, note_change)
            (if-elim (λ w'. IsAccounted bound w w' 1) (leb w.max_pending (length w.pending)) _ _
              (λ full.
                (IsCounting-more bound w.pending counting, refl, fits, ground (arith, small)))
              (λ room_left. (
                IsCounting-put bound path touched w.pending counting one.0 (omega arith),
                refl,
                ground (arith, absent, size, room_left),
                omega (arith, sum, one.1),
              )))
    ]

-- 1 for a change that is observed, and 0 for one that is passed over.
abbrev pub observed_changes : Option Text → Bool → ℕ
observed_changes none linked = 0
observed_changes (some path) true = 0
observed_changes (some path) false = 1

abbrev take_in : Watch → Operation → ℕ → FileState → Option (Dict FileState) → Text → Watch
take_in w op at after added path =
    let before = state_or_none (lookup path w.states) in
    let grown = if op.op_create && after.directory then add_states added w.states else w.states in
    note_change (record w { states = note_state grown path before after }) path op before after at

-- Let the pending changes be within their bound, each counting at least 0 and at most some number
-- that, like the counter of dropped changes, is not about to wrap. After acceptChange the bound
-- still holds and each pending change counts at least 0 and at most one more than that number. The
-- changes that the pending ones count, together with the dropped ones, are one more if the change
-- is observed, and as many as before if it is passed over.
pub accept_change-IsAccounted :
    (working_directory : Option Text) (ignored : Text → Bool) (root : Text) (w : Watch)
    (candidate : Text) (op : Operation) (at : ℕ) (after : FileState) (symlink : Bool)
    (added : Option (Dict FileState)) (bound : ℕ)
    → length w.pending ≤ w.max_pending
    → w.dropped + 1 < 2 ^ 64
    → bound + 1 < 2 ^ 63
    → IsCounting bound w.pending
    → IsAccounted bound w
        (accept_change working_directory ignored root w candidate op at after symlink added)
        (observed_changes
          (observed_path working_directory ignored root candidate)
          (after.exists && symlink))
unfolding accept_change
accept_change-IsAccounted working_directory ignored root w candidate op at after symlink added bound
      fits small room counting =
    by_path (observed_path working_directory ignored root candidate) (after.exists && symlink)
  where
    by_path :
        (found : Option Text) (linked : Bool)
        → IsAccounted bound w
            (elim found [
              | none ↦ w
              | some path ↦ if linked then w else take_in w op at after added path
            ])
            (observed_changes found linked)
    by_path none linked = (IsCounting-more bound w.pending counting, refl, fits, omega arith)
    by_path (some path) true = (IsCounting-more bound w.pending counting, refl, fits, omega arith)
    by_path (some path) false =
        let before = state_or_none (lookup path w.states) in
        let grown =
          if op.op_create && after.directory then add_states added w.states else w.states in
        note_change-IsAccounted (record w { states = note_state grown path before after }) path op
          before after at bound fits small room counting
