-- ===== src/Prelude/Held.antt =====
-- Lists of keys that a map holds, none of them twice.
use agent_action_visualizer.Prelude.Tests.{Bool-cases, Option-cases}
use agent_action_visualizer.Prelude.Bytes.{Text, text_eq}
use agent_action_visualizer.Prelude.Dict.{Dict, lookup, delete, lookup-delete}
use agent_action_visualizer.Prelude.Keys.{count, hit}
use mathlib.Core.List.{List, ◌∷◌}
use mathlib.Core.Option.{Option, none, some}
use mathlib.Core.Path.{◌≡◌, sym, subst}
use mathlib.Core.Logic.{inl, inr}
use Prim.Native.Nat.{ℕ, ◌+◌, ◌≤◌}
use native.Mathlib.Omega.{arith}

-- 1 for a key that is held, and 0 for another.
abbrev pub held {ℓ} : {V : Type ℓ} → Option V → ℕ
held none = 0
held (some v) = 1

pub count-cons : (k key : Text) (keys : List Text) → count k (key ∷ keys) ≡ hit key k + count k keys
unfolding count
count-cons k key keys = ground arith

module _ {ℓ} {V : Type ℓ} where
  -- No key is listed that is not held, and none twice.
  abbrev pub IsHeld : Dict V → List Text → Type 0
  IsHeld m keys = (k : Text) → count k keys ≤ held (lookup k m)

  pub IsHeld-delete :
      (m : Dict V) (key : Text) (keys : List Text)
      → IsHeld m (key ∷ keys)
      → IsHeld (delete key m) keys
  IsHeld-delete m key keys h k = elim (Bool-cases (text_eq key k)) [
    | inl same ↦
        let gone : lookup k (delete key m) ≡ none = ground (arith, lookup-delete key k m, same) in
        elim (Option-cases (lookup k m)) [
          | inl absent ↦ ground (arith, h k, count-cons k key keys, same, absent)
          | inr (v, present) ↦ ground (arith, h k, count-cons k key keys, same, gone, present)
        ]
    | inr other ↦
        let kept : lookup k (delete key m) ≡ lookup k m =
          ground (arith, lookup-delete key k m, other) in
        subst (λ o. count k keys ≤ held o) (sym kept)
          (ground (arith, h k, count-cons k key keys, other))
  ]
