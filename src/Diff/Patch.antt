-- ===== src/Diff/Patch.antt =====
-- The line counts of a patch text: countPatch (internal/diff/pipeline.go).
pub mod Lines
pub mod Render
use agent_action_visualizer.Prelude.Utf8.{utf8_valid}
use agent_action_visualizer.Diff.Lines.{split_newline, replace_crlf}
use agent_action_visualizer.Prelude.{
  has_prefix, has_part, has_byte, ℕ, ◌+◌, Bool, true, false, not, ◌&&◌, ◌||◌, List, [], ◌∷◌, ◌==◌,
  if◌then◌else◌, Text, bytes, ℤ, pos,
}
use agent_action_visualizer.Diff.Kinds.{Status}

-- The lines that the loop counts. A counter stays below 2^63, since a text has fewer lines than
-- bytes.
unfoldable pub is_added : Text → Bool
is_added line = has_prefix line (bytes "+") && not (has_prefix line (bytes "+++"))

unfoldable pub is_deleted : Text → Bool
is_deleted line = has_prefix line (bytes "-") && not (has_prefix line (bytes "---"))

unfoldable pub is_file_header : Text → Bool
is_file_header line = has_prefix line (bytes "+++") || has_prefix line (bytes "---")

unfoldable pub bump : Bool → ℕ → ℕ
bump test n = if test then n + 1 else n

-- The loop, from the flag inHunk and the two counters on.
unfoldable pub tally : Bool → ℕ → ℕ → List Text → ℕ × ℕ
unfolding bump
tally in_hunk added deleted [] = (added, deleted)
tally in_hunk added deleted (line ∷ lines) =
    let hunk = tally true added deleted lines in
    let header = tally in_hunk added deleted lines in
    let counted =
      tally in_hunk (bump (is_added line) added) (bump (is_deleted line) deleted) lines in
    if has_prefix line (bytes "@@")
    then hunk
    else if not in_hunk && is_file_header line
    then header
    else counted

unfoldable pub patch_status : ℕ × ℕ → ℤ × ℤ × Status
patch_status (added, deleted) =
    if added == 0 && deleted == 0
    then (pos 0, pos 0, Status.empty)
    else (pos added, pos deleted, Status.known)

unfoldable pub count_patch : Text → ℤ × ℤ × Status
unfolding tally patch_status
count_patch patch =
    if has_byte 0 patch || has_part patch (bytes "Binary files ")
    then (pos 0, pos 0, Status.binary)
    else if not (utf8_valid patch)
    then (pos 0, pos 0, Status.unsupported_encoding)
    else patch_status (tally false 0 0 (split_newline (replace_crlf patch)))
