-- ===== src/Prelude/Utf8.antt =====
-- unicode/utf8.Valid: the byte sequences that encode code points, by the ranges of its tables.
use agent_action_visualizer.Prelude.{
  ℕ, zero, suc, ◌≡◌, refl, Bool, true, false, ◌&&◌, Option, none, some, [], ◌∷◌, ltb, leb, ◌==◌,
  if◌then◌else◌, Text,
}

-- What the next byte may be: the first of a code point, or one in a range, with more to follow.
pub data Expect : Type 0 where
  first : Expect
  in_range : ℕ → ℕ → ℕ → Expect

abbrev between : ℕ → ℕ → ℕ → Bool
between lo hi b = leb lo b && leb b hi

-- The continuation bytes that a first byte asks for.
unfoldable pub after_first : ℕ → Option Expect
after_first b =
    if ltb b 0x80
    then some first
    else if between 0xc2 0xdf b
    then some (in_range 0x80 0xbf 0)
    else if b == 0xe0
    then some (in_range 0xa0 0xbf 1)
    else if b == 0xed
    then some (in_range 0x80 0x9f 1)
    else if between 0xe1 0xef b
    then some (in_range 0x80 0xbf 1)
    else if b == 0xf0
    then some (in_range 0x90 0xbf 2)
    else if between 0xf1 0xf3 b
    then some (in_range 0x80 0xbf 2)
    else if b == 0xf4
    then some (in_range 0x80 0x8f 2)
    else none

unfoldable pub next : Expect → ℕ → Option Expect
unfolding after_first
next first b = after_first b
next (in_range lo hi zero) b = if between lo hi b then some first else none
next (in_range lo hi (suc more)) b =
    if between lo hi b then some (in_range 0x80 0xbf more) else none

unfoldable pub valid_from : Expect → Text → Bool
unfolding next
valid_from first [] = true
valid_from (in_range lo hi more) [] = false
valid_from e (b ∷ s) = elim (next e b) [ none ↦ false | some e' ↦ valid_from e' s ]

unfoldable pub utf8_valid : Text → Bool
unfolding valid_from
utf8_valid s = valid_from first s

accented : utf8_valid (0xc3 ∷ 0xa9 ∷ 0x21 ∷ []) ≡ true
unfolding utf8_valid
accented = refl

surrogate : utf8_valid (0xed ∷ 0xa0 ∷ 0x80 ∷ []) ≡ false
unfolding utf8_valid
surrogate = refl
