-- ===== src/Prelude/Path.antt =====
-- Go's path/filepath on Unix, on paths as byte strings: Clean, IsAbs, Join, Rel and Dir.
use agent_action_visualizer.Prelude.Tests.{◌==◌, if◌then◌else◌}
use agent_action_visualizer.Prelude.Bytes.{Text, bytes, text_eq, is_empty}
use mathlib.Core.List.{List, [], ◌∷◌, ◌++◌}
use mathlib.Core.Bool.{Bool, true, false, not, ◌&&◌, ◌||◌}
use mathlib.Core.Option.{Option, none, some}
use mathlib.Core.Path.{◌≡◌, refl}
use Prim.Native.Nat.{ℕ}

abbrev prepend_byte : ℕ → List Text → List Text
prepend_byte c [] = (c ∷ []) ∷ []
prepend_byte c (part ∷ parts) = (c ∷ part) ∷ parts

-- strings.Split(s, string(b)) for a byte b.
unfoldable pub split_byte : ℕ → Text → List Text
split_byte b [] = [] ∷ []
split_byte b (c ∷ s) =
    let rest = split_byte b s in if c == b then [] ∷ rest else prepend_byte c rest

-- strings.Join(parts, string(b))
unfoldable pub join_byte : ℕ → List Text → Text
join_byte b [] = []
join_byte b (part ∷ []) = part
join_byte b (part ∷ next ∷ parts) = part ++ b ∷ join_byte b (next ∷ parts)

abbrev pub slash : ℕ
slash = 47

abbrev pub dot : Text
dot = bytes "."

abbrev pub dot_dot : Text
dot_dot = bytes ".."

unfoldable pub is_abs : Text → Bool
is_abs [] = false
is_abs (c ∷ s) = c == slash

-- A component after `out`, whose last component stands first.
unfoldable pub step_part : Bool → List Text → Text → List Text
step_part rooted [] part =
    if is_empty part || text_eq part dot
    then []
    else if text_eq part dot_dot && rooted
    then []
    else part ∷ []
step_part rooted (top ∷ out) part =
    if is_empty part || text_eq part dot
    then top ∷ out
    else if text_eq part dot_dot && not (text_eq top dot_dot)
    then out
    else part ∷ top ∷ out

unfoldable pub clean_from : Bool → List Text → List Text → List Text
unfolding step_part
clean_from rooted out [] = out
clean_from rooted out (part ∷ parts) = clean_from rooted (step_part rooted out part) parts

abbrev pub onto : List Text → List Text → List Text
onto [] ys = ys
onto (x ∷ xs) ys = onto xs (x ∷ ys)

-- The components of the cleaned path.
unfoldable pub clean_parts : Text → List Text
unfolding clean_from split_byte is_abs
clean_parts s = onto (clean_from (is_abs s) [] (split_byte slash s)) []

-- A path of cleaned components.
unfoldable pub render : Bool → List Text → Text
unfolding join_byte
render true parts = slash ∷ join_byte slash parts
render false [] = dot
render false (part ∷ parts) = join_byte slash (part ∷ parts)

unfoldable pub clean : Text → Text
unfolding clean_parts render is_abs
clean s = render (is_abs s) (clean_parts s)

-- filepath.Join of two elements.
unfoldable pub join : Text → Text → Text
join [] [] = []
join [] t = clean t
join s [] = clean s
join s t = clean (s ++ slash ∷ t)

abbrev pub ups : List Text → List Text → List Text
ups [] target = target
ups (b ∷ base) target = dot_dot ∷ ups base target

-- The way from one list of components to another; there is none out of a base that climbs.
unfoldable pub rel_parts : List Text → List Text → Option (List Text)
rel_parts [] target = some target
rel_parts (b ∷ base) [] = if text_eq b dot_dot then none else some (ups (b ∷ base) [])
rel_parts (b ∷ base) (t ∷ target) =
    let rest = rel_parts base target in
    if text_eq b t
    then rest
    else if text_eq b dot_dot
    then none
    else some (ups (b ∷ base) (t ∷ target))

abbrev pub same_bool : Bool → Bool → Bool
same_bool true b = b
same_bool false b = not b

-- The error of filepath.Rel is `none`.
unfoldable pub rel : Text → Text → Option Text
unfolding rel_parts clean_parts
rel base target =
    if same_bool (is_abs base) (is_abs target)
    then elim (rel_parts (clean_parts base) (clean_parts target)) [
      | none ↦ none
      | some parts ↦ some (render false parts)
    ]
    else none

cleans : clean (bytes "/a/./b//../c/") ≡ bytes "/a/c"
unfolding clean text_eq
cleans = refl

cleans_up : clean (bytes "a/../../b") ≡ bytes "../b"
unfolding clean text_eq
cleans_up = refl

relates : rel (bytes "/a/b") (bytes "/a/c/d") ≡ some (bytes "../c/d")
unfolding rel render text_eq
relates = refl

abbrev has_slash : Text → Bool
has_slash [] = false
has_slash (c ∷ s) = c == slash || has_slash s

-- The path up to its last slash, that slash included.
abbrev to_last_slash : Text → Text
to_last_slash [] = []
to_last_slash (c ∷ s) =
    let rest = to_last_slash s in
    if has_slash s then c ∷ rest else if c == slash then c ∷ [] else []

-- filepath.Dir
unfoldable pub directory_of : Text → Text
unfolding clean
directory_of path = clean (to_last_slash path)

has_directory : directory_of (bytes "/p/a/b.go") ≡ bytes "/p/a"
unfolding directory_of clean text_eq
has_directory = refl

-- filepath.Abs, from the answer of os.Getwd, whose error is `none`.
unfoldable pub absolute : Option Text → Text → Option Text
absolute working_directory path =
    if is_abs path
    then some (clean path)
    else elim working_directory [ none ↦ none | some home ↦ some (join home path) ]
