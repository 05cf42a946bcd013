-- ===== src/Diff/Batch/Counts.antt =====
-- What countPatch and countSnapshots return (internal/diff/pipeline.go).
use agent_action_visualizer.Diff.Batch.{}
use agent_action_visualizer.Prelude.Utf8.{utf8_valid}
use agent_action_visualizer.Diff.Lines.{split_newline, replace_crlf, split_lines}
use agent_action_visualizer.Diff.Snapshot.{count_lines, max_snapshot_cells, count_snapshots}
use agent_action_visualizer.Diff.Patch.{patch_status, count_patch, tally}
use agent_action_visualizer.Diff.Snapshot.Minimal.{summary, count_lines_attained}
use agent_action_visualizer.Diff.Request.{is_counted}
use agent_action_visualizer.Prelude.{
  has_part, has_byte, ℕ, ◌-◌, ◌*◌, ◌≤◌, ◌≡◌, refl, sym, subst, ◌⊎◌, inl, inr, true, false, not,
  ◌&&◌, ◌||◌, List, arith, ltb, ◌==◌, Bool-cases, length, Text, bytes, ℤ, pos,
}
use agent_action_visualizer.Diff.Kinds.{Status}

-- Counts with their status, as countPatch and countSnapshots return them.
abbrev pub IsCounts : ℤ × ℤ × Status → Type 0
IsCounts (a, b, s) =
    ((m n : ℕ) × (a ≡ pos m) × (b ≡ pos n) × (s ≡ summary m n)) ⊎ (is_counted s ≡ false)

patch_status-IsCounts : (counts : ℕ × ℕ) → IsCounts (patch_status counts)
unfolding patch_status
patch_status-IsCounts (added, deleted) = elim (Bool-cases (added == 0 && deleted == 0)) [
  | inl zero_both ↦ rw zero_both (inl (0, 0, refl, refl, refl))
  | inr more ↦ rw more (inl (added, deleted, refl, refl, ground arith))
]

pub count_patch-IsCounts : (patch : Text) → IsCounts (count_patch patch)
unfolding count_patch is_counted
count_patch-IsCounts patch =
    elim (Bool-cases (has_byte 0 patch || has_part patch (bytes "Binary files "))) [
      | inl binary ↦ rw binary (inr refl)
      | inr text ↦ rw text (elim (Bool-cases (utf8_valid patch)) [
        | inl valid ↦
            rw valid (patch_status-IsCounts (tally false 0 0 (split_newline (replace_crlf patch))))
        | inr invalid ↦ rw invalid (inr refl)
      ])
    ]

small-IsCounts :
    (left right : List Text)
    → length left * length right ≤ max_snapshot_cells
    → IsCounts (count_lines left right)
small-IsCounts left right small =
    let (zs, p, q, e) = count_lines_attained left right small in
    subst IsCounts (sym e)
      (inl (length right - length zs, length left - length zs, refl, refl, refl))

large-IsCounts :
    (left right : List Text)
    → ltb max_snapshot_cells (length left * length right) ≡ true
    → IsCounts (count_lines left right)
unfolding count_lines is_counted
large-IsCounts left right large = rw large (inr refl)

count_lines-IsCounts : (left right : List Text) → IsCounts (count_lines left right)
count_lines-IsCounts left right =
    elim (Bool-cases (ltb max_snapshot_cells (length left * length right))) [
      | inl large ↦ large-IsCounts left right large
      | inr small ↦ small-IsCounts left right (ground arith)
    ]

pub count_snapshots-IsCounts : (before after : Text) → IsCounts (count_snapshots before after)
unfolding count_snapshots is_counted
count_snapshots-IsCounts before after = elim (Bool-cases (has_byte 0 before || has_byte 0 after)) [
  | inl binary ↦ rw binary (inr refl)
  | inr text ↦ rw text (elim (Bool-cases (not (utf8_valid before) || not (utf8_valid after))) [
    | inl invalid ↦ rw invalid (inr refl)
    | inr valid ↦ rw valid (count_lines-IsCounts (split_lines before) (split_lines after))
  ])
]
