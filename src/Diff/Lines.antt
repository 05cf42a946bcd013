-- ===== src/Diff/Lines.antt =====
-- Byte and line helpers of internal/diff/pipeline.go, after the functions of bytes and strings
-- that it calls.
use agent_action_visualizer.Prelude.{
  ℕ, ◌≡◌, refl, ◌&&◌, List, [], ◌∷◌, ◌==◌, if◌then◌else◌, Text, is_empty,
}

-- strings.ReplaceAll(s, "\r\n", "\n")
unfoldable pub replace_crlf : Text → Text
replace_crlf [] = []
replace_crlf (c ∷ []) = c ∷ []
replace_crlf (c ∷ d ∷ s) =
    let joined = 10 ∷ replace_crlf s in
    let kept = c ∷ replace_crlf (d ∷ s) in if c == 13 && d == 10 then joined else kept

-- strings.TrimSuffix(s, "\n")
unfoldable pub trim_newline : Text → Text
trim_newline [] = []
trim_newline (c ∷ []) = if c == 10 then [] else c ∷ []
trim_newline (c ∷ d ∷ s) = c ∷ trim_newline (d ∷ s)

abbrev prepend : ℕ → List Text → List Text
prepend c [] = (c ∷ []) ∷ []
prepend c (line ∷ lines) = (c ∷ line) ∷ lines

-- strings.Split(s, "\n")
unfoldable pub split_newline : Text → List Text
split_newline [] = [] ∷ []
split_newline (c ∷ s) = let rest = split_newline s in if c == 10 then [] ∷ rest else prepend c rest

unfoldable pub split_lines : Text → List Text
unfolding replace_crlf trim_newline split_newline
split_lines value =
    let text = trim_newline (replace_crlf value) in if is_empty text then [] else split_newline text

two_lines : split_lines (97 ∷ 13 ∷ 10 ∷ 98 ∷ 10 ∷ []) ≡ (97 ∷ []) ∷ (98 ∷ []) ∷ []
unfolding split_lines
two_lines = refl
