-- ===== src/Filesystem/Renames/Match.antt =====
-- Why a pair is a rename (internal/adapters/filesystem/observer.go).
use agent_action_visualizer.Filesystem.Renames.{
  find_match, relative_dict, RenamePair, is_candidate, rel_or_empty, renamed_away, created,
}
use agent_action_visualizer.Filesystem.Change.{PendingChange}
use agent_action_visualizer.Prelude.Dict.{Dict, lookup, put, lookup-put}
use agent_action_visualizer.Prelude.{
  ◌≡◌, refl, ap, ◌∙◌, subst, ◌⊎◌, inl, inr, Bool, true, false, none, some, List, [], ◌∷◌, arith,
  if◌then◌else◌, Bool-cases, keep, Text, some_inj, text_eq, text_eq_iff, All, All-imply,
}
use agent_action_visualizer.Prelude.Sort.Sorted.{Has, here, there, Has-cons}

-- Git reports the pair.
abbrev pub IsReported : Text → Dict Text → RenamePair → Type 0
IsReported root renames pair =
    Has (rel_or_empty root pair.old.path, rel_or_empty root pair.new.path) renames

-- The paths of the pairs.
abbrev pub consumed_by : List RenamePair → List Text
consumed_by [] = []
consumed_by (pair ∷ pairs) = pair.old.path ∷ pair.new.path ∷ consumed_by pairs

-- A file that was renamed away, and the only created path with its fingerprint that is not in one of
-- some earlier pairs.
abbrev pub IsUniqueMatch : List PendingChange → List RenamePair → RenamePair → Type 0
IsUniqueMatch batch pairs pair =
    (renamed_away pair.old ≡ true)
    × (pair.old.before.directory ≡ false)
    × ((earlier : List RenamePair) × All (λ q. Has q pairs) earlier
        × (keep (is_candidate (consumed_by earlier) pair.old) (keep created batch) ≡ pair.new ∷ []))

abbrev pub IsRename : Text → List PendingChange → Dict Text → List RenamePair → RenamePair → Type 0
IsRename root batch renames pairs pair =
    Has pair.old batch
    × Has pair.new batch
    × (IsReported root renames pair ⊎ IsUniqueMatch batch pairs pair)

-- With more pairs, the earlier ones are still among them.
pub IsRename-more :
    (root : Text) (batch : List PendingChange) (renames : Dict Text) (pairs more : List RenamePair)
    (pair : RenamePair)
    → ((q : RenamePair) → Has q pairs → Has q more)
    → IsRename root batch renames pairs pair
    → IsRename root batch renames more pair
IsRename-more root batch renames pairs more pair f (old, new, inl reported) =
    (old, new, inl reported)
IsRename-more root batch renames pairs more pair f
      (old, new, inr (away, file, (earlier, among, only))) =
    (
      old,
      new,
      inr (
        away,
        file,
        (earlier, All-imply (λ q. Has q pairs) (λ q. Has q more) earlier f among, only),
      ),
    )

find_match-some :
    (consumed : List Text) (old match result : PendingChange) (creates : List PendingChange)
    → find_match consumed old (some match) creates ≡ some result
    → (match ≡ result) × (keep (is_candidate consumed old) creates ≡ [])
unfolding find_match keep
find_match-some consumed old match result [] h = (some_inj h, refl)
find_match-some consumed old match result (c ∷ creates) h =
    elim (Bool-cases (is_candidate consumed old c)) [
      | inl second ↦ absurd (ground (arith, second, h))
      | inr other ↦
          let rest = find_match-some consumed old match result creates (ground (arith, other, h)) in
          (rest.0, ground (arith, other, rest.1))
    ]

-- The loop finds a candidate only where there is no second one.
pub find_match-none :
    (consumed : List Text) (old result : PendingChange) (creates : List PendingChange)
    → find_match consumed old none creates ≡ some result
    → keep (is_candidate consumed old) creates ≡ result ∷ []
unfolding find_match keep
find_match-none consumed old result [] h = absurd (ground (arith, h))
find_match-none consumed old result (c ∷ creates) h =
    elim (Bool-cases (is_candidate consumed old c)) [
      | inl first ↦
          let found : find_match consumed old (some c) creates ≡ some result =
            subst (λ b. find_match consumed old (if b then some c else none) creates ≡ some result)
              first h in
          let (same, no_more) = find_match-some consumed old c result creates found in
          ground (arith, first, same, no_more)
      | inr other ↦
          let found : find_match consumed old none creates ≡ some result =
            subst (λ b. find_match consumed old (if b then some c else none) creates ≡ some result)
              other h in
          ground (arith, other, find_match-none consumed old result creates found)
    ]

-- What a list keeps is in it and passes the test.
pub Has-keep :
    (p : PendingChange → Bool) (item : PendingChange) (xs : List PendingChange)
    → Has item (keep p xs)
    → Has item xs × (p item ≡ true)
unfolding keep
Has-keep p item [] h = elim h [ ]
Has-keep p item (x ∷ xs) h = elim (Bool-cases (p x)) [
  | inl kept ↦ elim (Has-cons (subst (Has item) (rw kept refl) h)) [
    | inl first ↦ (here first, ap p first ∙ kept)
    | inr behind ↦ let rest = Has-keep p item xs behind in (there rest.0, rest.1)
  ]
  | inr dropped ↦
      let rest = Has-keep p item xs (subst (Has item) (rw dropped refl) h) in (there rest.0, rest.1)
]

pub lookup-relative_dict :
    (root key : Text) (batch : List PendingChange) (found : Dict PendingChange)
    (item : PendingChange)
    → lookup key (relative_dict root batch found) ≡ some item
    → (Has item batch × (rel_or_empty root item.path ≡ key)) ⊎ (lookup key found ≡ some item)
unfolding relative_dict
lookup-relative_dict root key [] found item h = inr h
lookup-relative_dict root key (x ∷ batch) found item h =
    elim (lookup-relative_dict root key batch (put (rel_or_empty root x.path) x found) item h) [
      | inl behind ↦ inl (there behind.0, behind.1)
      | inr now ↦ elim (Bool-cases (text_eq (rel_or_empty root x.path) key)) [
        | inl same ↦
            let x_is : item ≡ x =
              ground (arith, lookup-put (rel_or_empty root x.path) key x found, same, now) in
            inl (
              here x_is,
              ap (λ (i : PendingChange). rel_or_empty root i.path) x_is
                  ∙ (text_eq_iff (rel_or_empty root x.path) key).0 same,
            )
        | inr other ↦
            inr (ground (arith, lookup-put (rel_or_empty root x.path) key x found, other, now))
      ]
    ]
