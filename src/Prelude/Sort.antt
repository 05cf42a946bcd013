-- ===== src/Prelude/Sort.antt =====
-- Insertion sort by a Boolean order, for the calls of sort.Strings and sort.Slice. The program sorts
-- values that its order tells apart, so every correct sort returns the same list.
use mathlib.Core.List.{List, [], ◌∷◌}
use mathlib.Core.Bool.{Bool}
use agent_action_visualizer.Prelude.Tests.{if◌then◌else◌}
pub mod Sorted

module _ {ℓ} {A : Type ℓ} (less : A → A → Bool) where
  unfoldable pub insert_sorted : A → List A → List A
  insert_sorted a [] = a ∷ []
  insert_sorted a (b ∷ xs) =
      let rest = insert_sorted a xs in if less b a then b ∷ rest else a ∷ b ∷ xs

  unfoldable pub sort : List A → List A
  unfolding insert_sorted
  sort [] = []
  sort (a ∷ xs) = insert_sorted a (sort xs)
