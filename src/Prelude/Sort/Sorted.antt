-- ===== src/Prelude/Sort/Sorted.antt =====
-- Lists sorted by a strict order, and why they are determined by their members.
use agent_action_visualizer.Prelude.Sort.{insert_sorted, sort}
use agent_action_visualizer.Prelude.{
  ◌≡◌, refl, sym, subst, ◌↔◌, ◌⊎◌, inl, inr, Bool, true, false, List, [], ◌∷◌, arith, Bool-cases,
  All,
}

-- `a` is an element of the list.
pub data Has {ℓ} {A : Type ℓ} (a : A) : List A → Type ℓ where
  here : {b : A} {xs : List A} → a ≡ b → Has a (b ∷ xs)
  there : {b : A} {xs : List A} → Has a xs → Has a (b ∷ xs)

module _ {ℓ} {A : Type ℓ} where
  pub Has-cons : {a b : A} {xs : List A} → Has a (b ∷ xs) → (a ≡ b) ⊎ Has a xs
  Has-cons (here e) = inl e
  Has-cons (there h) = inr h

  pub All-Has {κ} : (P : A → Type κ) {a : A} {xs : List A} → Has a xs → All P xs → P a
  All-Has P (here e) ps = subst P (sym e) ps.0
  All-Has P (there h) ps = All-Has P h ps.1

module _ {ℓ} {A : Type ℓ} (less : A → A → Bool) where
  -- Every element is less than all behind it.
  abbrev pub IsSorted : List A → Type ℓ
  IsSorted [] = Unit
  IsSorted (a ∷ xs) = All (λ b. less a b ≡ true) xs × IsSorted xs

  pub All-insert_sorted {κ} :
      (P : A → Type κ) (a : A) (xs : List A) → P a → All P xs → All P (insert_sorted less a xs)
  unfolding insert_sorted
  All-insert_sorted P a [] p ps = (p, tt)
  All-insert_sorted P a (b ∷ xs) p ps = elim (Bool-cases (less b a)) [
    | inl before ↦ rw before (ps.0, All-insert_sorted P a xs p ps.1)
    | inr not_before ↦ rw not_before (p, ps)
  ]

  pub All-sort {κ} : (P : A → Type κ) (xs : List A) → All P xs → All P (sort less xs)
  unfolding sort
  All-sort P [] ps = tt
  All-sort P (a ∷ xs) ps = All-insert_sorted P a (sort less xs) ps.0 (All-sort P xs ps.1)

  pub Has-insert_sorted : (x a : A) (xs : List A) → Has x (a ∷ xs) → Has x (insert_sorted less a xs)
  unfolding insert_sorted
  Has-insert_sorted x a [] h = h
  Has-insert_sorted x a (b ∷ xs) h = elim (Bool-cases (less b a)) [
    | inl before ↦ rw before (elim (Has-cons h) [
      | inl same ↦ there (Has-insert_sorted x a xs (here same))
      | inr behind ↦ elim (Has-cons behind) [
        | inl same ↦ here same
        | inr last ↦ there (Has-insert_sorted x a xs (there last))
      ]
    ])
    | inr not_before ↦ rw not_before h
  ]

  pub insert_sorted-Has : (x a : A) (xs : List A) → Has x (insert_sorted less a xs) → Has x (a ∷ xs)
  unfolding insert_sorted
  insert_sorted-Has x a [] h = h
  insert_sorted-Has x a (b ∷ xs) h = elim (Bool-cases (less b a)) [
    | inl before ↦ elim (Has-cons (subst (Has x) (rw before refl) h)) [
      | inl same ↦ there (here same)
      | inr behind ↦ elim (Has-cons (insert_sorted-Has x a xs behind)) [
        | inl same ↦ here same
        | inr last ↦ there (there last)
      ]
    ]
    | inr not_before ↦ subst (Has x) (rw not_before refl) h
  ]

  pub Has-sort : (x : A) (xs : List A) → Has x xs → Has x (sort less xs)
  unfolding sort
  Has-sort x [] h = elim h [ ]
  Has-sort x (a ∷ xs) (here e) = Has-insert_sorted x a (sort less xs) (here e)
  Has-sort x (a ∷ xs) (there h) = Has-insert_sorted x a (sort less xs) (there (Has-sort x xs h))

  pub sort-Has : (x : A) (xs : List A) → Has x (sort less xs) → Has x xs
  unfolding sort
  sort-Has x [] h = h
  sort-Has x (a ∷ xs) h = elim (Has-cons (insert_sorted-Has x a (sort less xs) h)) [
    | inl same ↦ here same
    | inr behind ↦ there (sort-Has x xs behind)
  ]

  module _ (irrefl : (a : A) → less a a ≡ false)
      (trans : (a b c : A) → less a b ≡ true → less b c ≡ true → less a c ≡ true) where
    All-trans :
        (a b : A) (xs : List A)
        → less a b ≡ true
        → All (λ c. less b c ≡ true) xs
        → All (λ c. less a c ≡ true) xs
    All-trans a b [] h ps = tt
    All-trans a b (c ∷ xs) h ps = (trans a b c h ps.0, All-trans a b xs h ps.1)

    -- Inserting an element that the order tells apart from all others keeps the list sorted.
    pub insert_sorted-IsSorted :
        (a : A) (xs : List A)
        → All (λ b. less b a ≡ false → less a b ≡ true) xs
        → IsSorted xs
        → IsSorted (insert_sorted less a xs)
    unfolding insert_sorted
    insert_sorted-IsSorted a [] apart s = (tt, tt)
    insert_sorted-IsSorted a (b ∷ xs) apart s = elim (Bool-cases (less b a)) [
      | inl before ↦ rw before (
        All-insert_sorted (λ c. less b c ≡ true) a xs before s.0,
        insert_sorted-IsSorted a xs apart.1 s.1,
      )
      | inr not_before ↦
          rw not_before ((apart.0 not_before, All-trans a b xs (apart.0 not_before) s.0), s)
    ]

    -- The first elements of two sorted lists with the same elements are equal.
    head_unique :
        (a b : A) (xs ys : List A)
        → IsSorted (a ∷ xs)
        → IsSorted (b ∷ ys)
        → ((c : A) → Has c (a ∷ xs) ↔ Has c (b ∷ ys))
        → a ≡ b
    head_unique a b xs ys s t same = elim (Has-cons ((same a).0 (here refl))) [
      | inl e ↦ e
      | inr behind ↦ elim (Has-cons ((same b).1 (here refl))) [
        | inl e ↦ sym e
        | inr last ↦
            let back = All-Has (λ c. less b c ≡ true) behind t.0 in
            let forth = All-Has (λ c. less a c ≡ true) last s.0 in
            absurd (ground (arith, trans a b a forth back, irrefl a))
      ]
    ]

    tail-Has :
        (a c : A) (xs ys : List A)
        → All (λ d. less a d ≡ true) xs
        → (Has c (a ∷ xs) → Has c (a ∷ ys))
        → Has c xs
        → Has c ys
    tail-Has a c xs ys s same h = elim (Has-cons (same (there h))) [
      | inl e ↦
          let before = subst (λ d. less a d ≡ true) e (All-Has (λ d. less a d ≡ true) h s) in
          absurd (ground (arith, before, irrefl a))
      | inr behind ↦ behind
    ]

    -- Two sorted lists with the same elements are equal.
    pub IsSorted-unique :
        (xs ys : List A) → IsSorted xs → IsSorted ys → ((c : A) → Has c xs ↔ Has c ys) → xs ≡ ys
    IsSorted-unique [] [] s t same = refl
    IsSorted-unique [] (b ∷ ys) s t same = elim ((same b).1 (here refl)) [ ]
    IsSorted-unique (a ∷ xs) [] s t same = elim ((same a).0 (here refl)) [ ]
    IsSorted-unique (a ∷ xs) (b ∷ ys) s t same =
        let e = head_unique a b xs ys s t same in
        let t' = subst (λ d. IsSorted (d ∷ ys)) (sym e) t in
        let same' = subst (λ d. (c : A) → Has c (a ∷ xs) ↔ Has c (d ∷ ys)) (sym e) same in
        let tails =
          IsSorted-unique xs ys s.1 t'.1
            (λ c. (tail-Has a c xs ys s.0 (same' c).0, tail-Has a c ys xs t'.0 (same' c).1)) in
        rw (e, tails) refl
