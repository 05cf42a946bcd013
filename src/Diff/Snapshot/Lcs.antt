-- ===== src/Diff/Snapshot/Lcs.antt =====
-- Longest common subsequences, as a specification.
use agent_action_visualizer.Prelude.{
  ℕ, ◌+◌, ◌≤◌, max, ◌≡◌, refl, sym, subst, ◌⊎◌, inl, inr, true, false, List, [], ◌∷◌, arith, leb,
  if◌then◌else◌, Bool-cases, length, Text, text_eq, text_eq_iff,
}

-- The first list can be had from the second by leaving lines out.
pub data IsPart : List Text → List Text → Type 0 where
  done : IsPart [] []
  skip : (y : Text) {xs ys : List Text} → IsPart xs ys → IsPart xs (y ∷ ys)
  take : (y : Text) {xs ys : List Text} → IsPart xs ys → IsPart (y ∷ xs) (y ∷ ys)

-- The length of a longest common subsequence.
unfoldable pub lcs : List Text → List Text → ℕ
lcs [] ys = 0
lcs (x ∷ xs) [] = 0
lcs (x ∷ xs) (y ∷ ys) =
    if text_eq x y then lcs xs ys + 1 else max (lcs (x ∷ xs) ys) (lcs xs (y ∷ ys))

IsPart-nil : (ys : List Text) → IsPart [] ys
IsPart-nil [] = done
IsPart-nil (y ∷ ys) = skip y (IsPart-nil ys)

-- A common subsequence of the length that `lcs` names.
abbrev pub HasCommon : List Text → List Text → ℕ → Type 0
HasCommon xs ys n = (zs : List Text) × IsPart zs xs × IsPart zs ys × (length zs ≡ n)

longer :
    (x : Text) (xs : List Text) (y : Text) (ys : List Text)
    → (text_eq x y ≡ true) ⊎ (text_eq x y ≡ false)
    → HasCommon xs ys (lcs xs ys)
    → HasCommon (x ∷ xs) ys (lcs (x ∷ xs) ys)
    → HasCommon xs (y ∷ ys) (lcs xs (y ∷ ys))
    → HasCommon (x ∷ xs) (y ∷ ys) (lcs (x ∷ xs) (y ∷ ys))
unfolding lcs
longer x xs y ys (inl same) (zs, p, q, n) left right = (
  x ∷ zs,
  take x p,
  subst (λ w. IsPart (w ∷ zs) (y ∷ ys)) (sym ((text_eq_iff x y).0 same)) (take y q),
  ground (arith, same, n),
)
longer x xs y ys (inr differ) both (zs, p, q, n) (ws, p', q', m) =
    elim (Bool-cases (leb (lcs xs (y ∷ ys)) (lcs (x ∷ xs) ys))) [
      | inl less ↦ (zs, p, skip y q, ground (arith, differ, n, less))
      | inr more ↦ (ws, skip x p', q', ground (arith, differ, m, more))
    ]

-- There is one of that length.
pub lcs-IsPart :
    (xs ys : List Text) → (zs : List Text) × IsPart zs xs × IsPart zs ys × (length zs ≡ lcs xs ys)
unfolding lcs
lcs-IsPart [] ys = ([], done, IsPart-nil ys, refl)
lcs-IsPart (x ∷ xs) [] = ([], IsPart-nil (x ∷ xs), done, refl)
lcs-IsPart (x ∷ xs) (y ∷ ys) =
    longer x xs y ys (Bool-cases (text_eq x y)) (lcs-IsPart xs ys) (lcs-IsPart (x ∷ xs) ys)
      (lcs-IsPart xs (y ∷ ys))

-- A part of a list that begins with `y` leaves `y` out or begins with it.
IsPart-cases :
    {zs ys : List Text} (y : Text)
    → IsPart zs (y ∷ ys)
    → IsPart zs ys ⊎ ((zs' : List Text) × (zs ≡ y ∷ zs') × IsPart zs' ys)
IsPart-cases y (skip _ p) = inl p
IsPart-cases y (take _ {xs = zs'} p) = inr (zs', refl, p)

IsPart-tail : {zs ys : List Text} (z : Text) → IsPart (z ∷ zs) ys → IsPart zs ys
IsPart-tail z (skip y p) = skip y (IsPart-tail z p)
IsPart-tail z (take y p) = skip y p

IsPart-both_tails : {zs ys : List Text} (z y : Text) → IsPart (z ∷ zs) (y ∷ ys) → IsPart zs ys
IsPart-both_tails z y (skip _ p) = IsPart-tail z p
IsPart-both_tails z y (take _ p) = p

length-one_more :
    (x y : Text) (zs xs ys : List Text)
    → ((ws : List Text) → IsPart ws xs → IsPart ws ys → length ws ≤ lcs xs ys)
    → IsPart zs (x ∷ xs)
    → IsPart zs (y ∷ ys)
    → length zs ≤ lcs xs ys + 1
length-one_more x y [] xs ys ih p q = omega arith
length-one_more x y (z ∷ zs) xs ys ih p q =
    omega (arith, ih zs (IsPart-both_tails z x p) (IsPart-both_tails z y q))

length-other :
    (x y : Text) (zs xs ys : List Text) (m n : ℕ)
    → text_eq x y ≡ false
    → (IsPart zs xs → length zs ≤ m)
    → (IsPart zs ys → length zs ≤ n)
    → IsPart zs (x ∷ xs)
    → IsPart zs (y ∷ ys)
    → length zs ≤ max n m
length-other x y zs xs ys m n differ left right p q = elim (IsPart-cases x p) [
  | inl p' ↦ omega (arith, left p')
  | inr (zs', e, _) ↦ elim (IsPart-cases y q) [
    | inl q' ↦ omega (arith, right q')
    | inr (ws, e', _) ↦ absurd (ground (arith, e, e', text_eq_iff x y, differ))
  ]
]

-- There is none that is longer.
pub length-le-lcs : (xs ys zs : List Text) → IsPart zs xs → IsPart zs ys → length zs ≤ lcs xs ys
unfolding lcs
length-le-lcs [] ys [] p q = omega arith
length-le-lcs [] ys (z ∷ zs) p q = elim p [ ]
length-le-lcs (x ∷ xs) [] [] p q = omega arith
length-le-lcs (x ∷ xs) [] (z ∷ zs) p q = elim q [ ]
length-le-lcs (x ∷ xs) (y ∷ ys) zs p q =
    let both = length-le-lcs xs ys in
    let left = length-le-lcs xs (y ∷ ys) zs in
    let right = length-le-lcs (x ∷ xs) ys zs in
    elim (Bool-cases (text_eq x y)) [
      | inl same ↦ rw same (length-one_more x y zs xs ys both p q)
      | inr differ ↦ rw differ (
          length-other x y zs xs ys (lcs xs (y ∷ ys)) (lcs (x ∷ xs) ys) differ (λ p'. left p' q)
            (λ q'. right p q') p q)
    ]
