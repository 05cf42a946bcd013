-- ===== src/Diff/Patch/Lines.antt =====
-- Which lines of a patch are counted (internal/diff/pipeline.go).
use agent_action_visualizer.Prelude.Utf8.{utf8_valid}
use agent_action_visualizer.Diff.Patch.{
  tally, count_patch, is_file_header, bump, is_added, is_deleted, patch_status,
}
use agent_action_visualizer.Diff.Lines.{split_newline, replace_crlf}
use agent_action_visualizer.Prelude.{
  has_prefix, has_part, has_byte, ℕ, ◌+◌, ◌≡◌, refl, ap, Bool, true, false, ◌||◌, List, [], ◌∷◌,
  arith, length, keep, Text, bytes,
}

-- Neither the head of a hunk nor the names of the files are counted.
uncounted :
    (line : Text)
    → (has_prefix line (bytes "@@") || is_file_header line) ≡ true
    → (is_added line ≡ false) × (is_deleted line ≡ false)
unfolding has_prefix is_file_header is_added is_deleted
uncounted [] e = (refl, refl)
uncounted (c ∷ []) e = ground arith
uncounted (c ∷ d ∷ []) e = ground arith
uncounted (c ∷ d ∷ e ∷ s) h = ground arith

pub tally-keep :
    (in_hunk : Bool) (added deleted : ℕ) (lines : List Text)
    → tally in_hunk added deleted lines
      ≡ (added + length (keep is_added lines), deleted + length (keep is_deleted lines))
unfolding tally bump keep
tally-keep in_hunk added deleted [] = ground arith
tally-keep in_hunk added deleted (line ∷ lines) = ground (
  arith,
  uncounted line,
  tally-keep true added deleted lines,
  tally-keep in_hunk added deleted lines,
  tally-keep in_hunk (bump (is_added line) added) (bump (is_deleted line) deleted) lines,
)

whole :
    (lines : List Text)
    → tally false 0 0 lines ≡ (length (keep is_added lines), length (keep is_deleted lines))
whole lines = ground (arith, tally-keep false 0 0 lines)

-- For a patch text that has no NUL, does not contain `Binary files ` and is valid UTF-8, the counts
-- are the number of lines that start with `+` but not `+++` and of those that start with `-` but
-- not `---`, wherever they stand: the flag for being in a hunk changes nothing.
pub count_patch-keep :
    (patch : Text)
    → has_byte 0 patch ≡ false
    → has_part patch (bytes "Binary files ") ≡ false
    → utf8_valid patch ≡ true
    → count_patch patch
      ≡ patch_status (
        length (keep is_added (split_newline (replace_crlf patch))),
        length (keep is_deleted (split_newline (replace_crlf patch))),
      )
unfolding count_patch
count_patch-keep patch no_nul no_binary valid =
    rw (no_nul, no_binary, valid) (ap patch_status (whole (split_newline (replace_crlf patch))))
