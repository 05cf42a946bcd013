-- ===== src/Prelude/Keys.antt =====
-- Sets of keys, kept as lists, and how often a key occurs in one.
use agent_action_visualizer.Prelude.Tests.{ltb, if◌then◌else◌}
use agent_action_visualizer.Prelude.Lists.{length}
use agent_action_visualizer.Prelude.Bytes.{Text, text_eq, text_eq_iff}
use mathlib.Core.List.{List, [], ◌∷◌, ◌++◌}
use Prim.Native.Nat.{ℕ, ◌+◌}
use mathlib.Core.Path.{◌≡◌, refl}
use mathlib.Core.Bool.{Bool, true, false}
use native.Mathlib.Omega.{arith}

unfoldable pub has_key : Text → List Text → Bool
has_key k [] = false
has_key k (j ∷ js) = if text_eq j k then true else has_key k js

unfoldable pub remove_key : Text → List Text → List Text
remove_key k [] = []
remove_key k (j ∷ js) = let rest = remove_key k js in if text_eq j k then rest else j ∷ rest

unfoldable pub count : Text → List Text → ℕ
count k [] = 0
count k (j ∷ js) = let rest = count k js in if text_eq j k then rest + 1 else rest

pub count-append : (k : Text) (xs ys : List Text) → count k (xs ++ ys) ≡ count k xs + count k ys
unfolding count
count-append k [] ys = omega arith
count-append k (x ∷ xs) ys = ground (arith, count-append k xs ys)

pub has_key-count : (k : Text) (xs : List Text) → has_key k xs ≡ ltb 0 (count k xs)
unfolding has_key count
has_key-count k [] = refl
has_key-count k (x ∷ xs) = ground (arith, has_key-count k xs)

-- One for the key itself, and none for another.
abbrev pub hit : Text → Text → ℕ
hit j k = if text_eq j k then 1 else 0

pub count-insert :
    (k x : Text) (xs ys : List Text) → count k (xs ++ x ∷ ys) ≡ hit x k + count k (xs ++ ys)
unfolding count
count-insert k x [] ys = ground arith
count-insert k x (y ∷ xs) ys = ground (arith, count-insert k x xs ys)

pub count-remove_key :
    (j k : Text) (xs : List Text)
    → count k (remove_key j xs) ≡ (if text_eq j k then 0 else count k xs)
unfolding remove_key count
count-remove_key j k [] = ground arith
count-remove_key j k (x ∷ xs) =
    ground (arith, count-remove_key j k xs, text_eq_iff x j, text_eq_iff j k, text_eq_iff x k)

pub length-remove_key :
    (k : Text) (xs : List Text) → length (remove_key k xs) + count k xs ≡ length xs
unfolding remove_key count
length-remove_key k [] = refl
length-remove_key k (x ∷ xs) = ground (arith, length-remove_key k xs)
