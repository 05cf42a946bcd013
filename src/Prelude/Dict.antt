-- ===== src/Prelude/Dict.antt =====
-- Go maps with string keys, as association lists. A test of the program sees a map only through
-- `lookup`, so the order of the entries carries no meaning.
use agent_action_visualizer.Prelude.{Bool, length, is_some, ◌≤◌, suc}
use mathlib.Core.Path.{◌≡◌, refl}
use mathlib.Core.List.{List, [], ◌∷◌}
use mathlib.Core.Option.{Option, none, some}
use native.Mathlib.Omega.{arith}
use agent_action_visualizer.Prelude.Tests.{if◌then◌else◌}
use agent_action_visualizer.Prelude.Bytes.{Text, text_eq, text_eq_iff}

abbrev pub Dict {ℓ} : Type ℓ → Type ℓ
Dict V = List (Text × V)

module _ {ℓ} {V : Type ℓ} where
  -- v, ok := m[k]
  unfoldable pub lookup : Text → Dict V → Option V
  lookup k [] = none
  lookup k ((j, v) ∷ m) = if text_eq j k then some v else lookup k m

  -- m[k] = v
  unfoldable pub put : Text → V → Dict V → Dict V
  put k v [] = (k, v) ∷ []
  put k v ((j, w) ∷ m) = if text_eq j k then (k, v) ∷ m else (j, w) ∷ put k v m

  -- delete(m, k)
  unfoldable pub delete : Text → Dict V → Dict V
  delete k [] = []
  delete k ((j, w) ∷ m) = let rest = delete k m in if text_eq j k then rest else (j, w) ∷ rest

  pub lookup-put :
      (k j : Text) (v : V) (m : Dict V)
      → lookup j (put k v m) ≡ (if text_eq k j then some v else lookup j m)
  unfolding lookup put
  lookup-put k j v [] = refl
  lookup-put k j v ((i, w) ∷ m) =
      ground (arith, text_eq_iff k j, text_eq_iff i k, text_eq_iff i j, lookup-put k j v m)

  pub lookup-delete :
      (k j : Text) (m : Dict V) → lookup j (delete k m) ≡ (if text_eq k j then none else lookup j m)
  unfolding lookup delete
  lookup-delete k j [] = ground arith
  lookup-delete k j ((i, w) ∷ m) =
      ground (arith, text_eq_iff k j, text_eq_iff i k, text_eq_iff i j, lookup-delete k j m)

module _ {ℓ} {V : Type ℓ} where
  -- for k, v := range m { if !p(v) { delete(m, k) } }
  unfoldable pub retain : (V → Bool) → Dict V → Dict V
  retain p [] = []
  retain p ((j, v) ∷ m) = let rest = retain p m in if p v then (j, v) ∷ rest else rest

  -- No key has two entries.
  abbrev pub IsDistinct : Dict V → Type ℓ
  IsDistinct [] = Unit
  IsDistinct ((j, v) ∷ m) = (lookup j m ≡ none) × IsDistinct m

  abbrev pub filter_value : (V → Bool) → Option V → Option V
  filter_value p none = none
  filter_value p (some v) = if p v then some v else none

  pub lookup-retain :
      (p : V → Bool) (k : Text) (m : Dict V)
      → IsDistinct m
      → lookup k (retain p m) ≡ filter_value p (lookup k m)
  unfolding lookup retain
  lookup-retain p k [] d = refl
  lookup-retain p k ((j, v) ∷ m) d = ground (arith, lookup-retain p k m d.1, text_eq_iff j k, d.0)

  pub put-IsDistinct : (k : Text) (v : V) (m : Dict V) → IsDistinct m → IsDistinct (put k v m)
  unfolding put
  put-IsDistinct k v [] d = (unfold lookup in refl, tt)
  put-IsDistinct k v ((j, w) ∷ m) d = ground (
    arith,
    d.0,
    d.1,
    put-IsDistinct k v m d.1,
    lookup-put k j v m,
    text_eq_iff j k,
    text_eq_iff k j,
  )

  pub retain-IsDistinct : (p : V → Bool) (m : Dict V) → IsDistinct m → IsDistinct (retain p m)
  unfolding retain
  retain-IsDistinct p [] d = tt
  retain-IsDistinct p ((j, v) ∷ m) d =
      ground (arith, d.0, lookup-retain p j m d.1, retain-IsDistinct p m d.1)

module _ {ℓ} {V : Type ℓ} where
  pub length-put :
      (k : Text) (v : V) (m : Dict V)
      → length (put k v m) ≡ (if is_some (lookup k m) then length m else suc (length m))
  unfolding put lookup
  length-put k v [] = ground arith
  length-put k v ((j, w) ∷ m) = ground (arith, length-put k v m)

  pub length-delete-le : (k : Text) (m : Dict V) → length (delete k m) ≤ length m
  unfolding delete
  length-delete-le k [] = omega arith
  length-delete-le k ((j, w) ∷ m) = ground (arith, length-delete-le k m)

  pub delete-IsDistinct : (k : Text) (m : Dict V) → IsDistinct m → IsDistinct (delete k m)
  unfolding delete
  delete-IsDistinct k [] d = tt
  delete-IsDistinct k ((j, v) ∷ m) d =
      ground (arith, d.0, lookup-delete k j m, delete-IsDistinct k m d.1)
