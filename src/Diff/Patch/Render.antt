-- ===== src/Diff/Patch/Render.antt =====
-- countPatch reads back the edits of a unified diff (internal/diff/pipeline.go).
use agent_action_visualizer.Diff.Patch.Lines.{count_patch-keep}
use agent_action_visualizer.Prelude.Utf8.{utf8_valid}
use agent_action_visualizer.Diff.Patch.{is_added, is_deleted, count_patch, patch_status}
use agent_action_visualizer.Diff.Lines.{split_newline, replace_crlf}
use agent_action_visualizer.Prelude.{
  has_prefix, has_part, has_byte, ℕ, ◌+◌, ◌≡◌, refl, ap, ◌∙◌, false, List, [], ◌∷◌, ◌++◌, map,
  arith, length, keep, All, Text, bytes, true,
}

-- A line of a hunk, as a patch writes it.
pub data Edit : Type 0 where
  kept added deleted : Text → Edit

abbrev pub edit_line : Edit → Text
edit_line (kept s) = 32 ∷ s
edit_line (added s) = 43 ∷ s
edit_line (deleted s) = 45 ∷ s

abbrev pub added_count : List Edit → ℕ
added_count [] = 0
added_count (added s ∷ es) = added_count es + 1
added_count (kept s ∷ es) = added_count es
added_count (deleted s ∷ es) = added_count es

abbrev pub deleted_count : List Edit → ℕ
deleted_count [] = 0
deleted_count (deleted s ∷ es) = deleted_count es + 1
deleted_count (kept s ∷ es) = deleted_count es
deleted_count (added s ∷ es) = deleted_count es

-- The text of an edit is one line, and does not make its line look like the name of a file.
abbrev pub IsReadable : Edit → Type 0
IsReadable (kept s) = has_byte 10 s ≡ false
IsReadable (added s) = (has_byte 10 s ≡ false) × (has_prefix s (bytes "++") ≡ false)
IsReadable (deleted s) = (has_byte 10 s ≡ false) × (has_prefix s (bytes "--") ≡ false)

abbrev pub join_lines : List Text → Text
join_lines [] = []
join_lines (line ∷ lines) = line ++ 10 ∷ join_lines lines

-- A diff of one file with one hunk.
abbrev pub unified : Text → Text → Text → List Edit → Text
unified old new range es =
    join_lines
      ((bytes "--- " ++ old) ∷ (bytes "+++ " ++ new) ∷ (bytes "@@ " ++ range) ∷ map edit_line es)

split_newline-line :
    (line s : Text)
    → has_byte 10 line ≡ false
    → split_newline (line ++ 10 ∷ s) ≡ line ∷ split_newline s
unfolding split_newline has_byte
split_newline-line [] s h = refl
split_newline-line (c ∷ line) s h = ground (arith, split_newline-line line s)

split_newline-join_lines :
    (lines : List Text)
    → All (λ line. has_byte 10 line ≡ false) lines
    → split_newline (join_lines lines) ≡ lines ++ [] ∷ []
unfolding split_newline
split_newline-join_lines [] h = refl
split_newline-join_lines (line ∷ lines) h =
    split_newline-line line (join_lines lines) h.0
    ∙ ap (◌∷◌ line) (split_newline-join_lines lines h.1)

replace_crlf-plain : (s : Text) → has_byte 13 s ≡ false → replace_crlf s ≡ s
unfolding replace_crlf has_byte
replace_crlf-plain [] h = refl
replace_crlf-plain (c ∷ []) h = refl
replace_crlf-plain (c ∷ d ∷ s) h = ground (arith, replace_crlf-plain (d ∷ s))

edit_line-one_line : (e : Edit) → IsReadable e → has_byte 10 (edit_line e) ≡ false
unfolding has_byte
edit_line-one_line (kept s) h = ground (arith, h)
edit_line-one_line (added s) h = ground (arith, h)
edit_line-one_line (deleted s) h = ground (arith, h)

edits-one_line :
    (es : List Edit) → All IsReadable es → All (λ line. has_byte 10 line ≡ false) (map edit_line es)
edits-one_line [] h = tt
edits-one_line (e ∷ es) h = (edit_line-one_line e h.0, edits-one_line es h.1)

added-edits :
    (es : List Edit)
    → All IsReadable es
    → length (keep is_added (map edit_line es ++ [] ∷ [])) ≡ added_count es
unfolding keep is_added has_prefix
added-edits [] h = refl
added-edits (kept s ∷ es) h = ground (arith, added-edits es h.1)
added-edits (added s ∷ es) h = ground (arith, h.0, added-edits es h.1)
added-edits (deleted s ∷ es) h = ground (arith, added-edits es h.1)

deleted-edits :
    (es : List Edit)
    → All IsReadable es
    → length (keep is_deleted (map edit_line es ++ [] ∷ [])) ≡ deleted_count es
unfolding keep is_deleted has_prefix
deleted-edits [] h = refl
deleted-edits (kept s ∷ es) h = ground (arith, deleted-edits es h.1)
deleted-edits (added s ∷ es) h = ground (arith, deleted-edits es h.1)
deleted-edits (deleted s ∷ es) h = ground (arith, h.0, deleted-edits es h.1)

module _ (old new range : Text) (es : List Edit) (old_line : has_byte 10 old ≡ false)
    (new_line : has_byte 10 new ≡ false) (range_line : has_byte 10 range ≡ false)
    (readable : All IsReadable es) where
  unified-lines :
      split_newline (unified old new range es)
      ≡ (bytes "--- " ++ old)
        ∷ (bytes "+++ " ++ new)
        ∷ (bytes "@@ " ++ range)
        ∷ (map edit_line es ++ [] ∷ [])
  unfolding has_byte
  unified-lines =
      let body : All (λ line. has_byte 10 line ≡ false) (map edit_line es) =
        edits-one_line es readable in
      let rest : All (λ line. has_byte 10 line ≡ false)
          ((bytes "@@ " ++ range) ∷ map edit_line es) =
        (range_line, body) in
      let names : All (λ line. has_byte 10 line ≡ false)
          ((bytes "+++ " ++ new) ∷ (bytes "@@ " ++ range) ∷ map edit_line es) =
        (new_line, rest) in
      split_newline-join_lines
        ((bytes "--- " ++ old) ∷ (bytes "+++ " ++ new) ∷ (bytes "@@ " ++ range) ∷ map edit_line es)
        (old_line, names)

  unified-counts :
      (length (keep is_added (split_newline (unified old new range es))) ≡ added_count es)
      × (length (keep is_deleted (split_newline (unified old new range es))) ≡ deleted_count es)
  unfolding keep is_added is_deleted has_prefix
  unified-counts =
      rw unified-lines
        (ground (arith, added-edits es readable), ground (arith, deleted-edits es readable))

  -- Take a unified diff of one file with one hunk, in which file names, range and edits are single
  -- lines, no added text starts with `++` and no deleted one with `--`. Where the whole text has no
  -- NUL and no carriage return, does not contain `Binary files ` and is valid UTF-8, the counts are
  -- those of the added and of the deleted lines.
  pub count_patch-unified :
      has_byte 0 (unified old new range es) ≡ false
      → has_byte 13 (unified old new range es) ≡ false
      → has_part (unified old new range es) (bytes "Binary files ") ≡ false
      → utf8_valid (unified old new range es) ≡ true
      → count_patch (unified old new range es) ≡ patch_status (added_count es, deleted_count es)
  count_patch-unified no_nul no_cr no_binary valid =
      count_patch-keep (unified old new range es) no_nul no_binary valid
      ∙ rw (replace_crlf-plain (unified old new range es) no_cr)
          (rw (unified-counts.0, unified-counts.1) refl)
