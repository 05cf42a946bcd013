-- ===== src/Diff/Snapshot.antt =====
-- countSnapshots (internal/diff/pipeline.go): the lines added and deleted between two snapshots, by
-- the table of longest common subsequences kept as two rows.
pub mod Lcs
pub mod Table
pub mod Minimal
use agent_action_visualizer.Prelude.Int.{sub_ℕ}
use agent_action_visualizer.Prelude.{
  has_byte, ℕ, zero, suc, ◌+◌, ◌*◌, max, not, ◌&&◌, ◌||◌, List, [], ◌∷◌, ltb, if◌then◌else◌, length,
  Text, text_eq, ℤ, pos, eqb_ℤ,
}
use agent_action_visualizer.Prelude.Utf8.{utf8_valid}
use agent_action_visualizer.Diff.Kinds.{Status}
use agent_action_visualizer.Diff.Lines.{split_lines}

abbrev pub max_snapshot_cells : ℕ
max_snapshot_cells = 1000000

abbrev pub head_or_zero : List ℕ → ℕ
head_or_zero [] = 0
head_or_zero (n ∷ ns) = n

-- The inner loop: the cells of the current row behind the first, from the previous row from the
-- index on and the cell to the left.
unfoldable pub fill : Text → List Text → List ℕ → ℕ → List ℕ
fill line [] previous left = []
fill line (r ∷ right) [] left = []
fill line (r ∷ right) (p ∷ previous) left =
    let cell = (if text_eq line r then p + 1 else max left (head_or_zero previous)) in
    cell ∷ fill line right previous cell

-- The outer loop: every line of the left side makes the previous row anew.
unfoldable pub fill_rows : List Text → List Text → List ℕ → List ℕ
unfolding fill
fill_rows [] right previous = previous
fill_rows (line ∷ left) right previous = fill_rows left right (0 ∷ fill line right previous 0)

-- make([]int, n)
unfoldable pub zeros : ℕ → List ℕ
zeros zero = []
zeros (suc n) = 0 ∷ zeros n

unfoldable pub cell_at : ℕ → List ℕ → ℕ
cell_at n [] = 0
cell_at zero (c ∷ cs) = c
cell_at (suc n) (c ∷ cs) = cell_at n cs

unfoldable pub common_lines : List Text → List Text → ℕ
unfolding fill_rows zeros cell_at
common_lines left right = cell_at (length right) (fill_rows left right (zeros (suc (length right))))

-- The counts from the length of the common part.
unfoldable pub delta : ℕ → ℕ → ℕ → ℤ × ℤ × Status
delta left right common =
    let added = sub_ℕ right common in
    let deleted = sub_ℕ left common in
    if eqb_ℤ added (pos 0) && eqb_ℤ deleted (pos 0)
    then (pos 0, pos 0, Status.empty)
    else (added, deleted, Status.known)

unfoldable pub count_lines : List Text → List Text → ℤ × ℤ × Status
unfolding common_lines delta
count_lines left right =
    if ltb max_snapshot_cells (length left * length right)
    then (pos 0, pos 0, Status.unknown)
    else delta (length left) (length right) (common_lines left right)

unfoldable pub count_snapshots : Text → Text → ℤ × ℤ × Status
count_snapshots before after =
    if has_byte 0 before || has_byte 0 after
    then (pos 0, pos 0, Status.binary)
    else if not (utf8_valid before) || not (utf8_valid after)
    then (pos 0, pos 0, Status.unsupported_encoding)
    else count_lines (split_lines before) (split_lines after)
