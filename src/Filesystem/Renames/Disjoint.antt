-- ===== src/Filesystem/Renames/Disjoint.antt =====
-- The renames of a batch are justified, and no path is in two of them
-- (internal/adapters/filesystem/observer.go).
use agent_action_visualizer.Filesystem.Renames.Apart.{
  IsPaired, IsApart, IsDisjoint, pair_up-IsPaired,
}
use agent_action_visualizer.Prelude.Sort.{insert_sorted, sort}
use agent_action_visualizer.Filesystem.Renames.Match.{
  IsRename, lookup-relative_dict, find_match-none, Has-keep, IsRename-more,
}
use agent_action_visualizer.Prelude.Dict.{lookup, Dict}
use agent_action_visualizer.Prelude.Keys.{has_key}
use agent_action_visualizer.Filesystem.Change.{PendingChange}
use agent_action_visualizer.Filesystem.Renames.{
  RenamePair, Pairing, relative_dict, pair_known, match_git, is_candidate, pair_match, match_prints,
  correlate_renames, rel_or_empty, renamed_away, match_old, old_first, correlate, find_match,
  created,
}
use agent_action_visualizer.Prelude.{
  ◌≡◌, refl, sym, subst, inl, inr, true, false, ◌||◌, Option, none, some, List, [], ◌∷◌, arith,
  keep, All, Text, if-elim, All-imply, text_eq, text_eq_iff,
}
use agent_action_visualizer.Prelude.Sort.Sorted.{
  Has, here, there, All-insert_sorted, All-sort, Has-sort,
}

lookup_empty :
    (key : Text) (item : PendingChange) → lookup {V = PendingChange} key [] ≡ some item → ⊥
unfolding lookup
lookup_empty key item h = ground (arith, h)

lookup_listed :
    (root key : Text) (batch : List PendingChange) (item : PendingChange)
    → lookup key (relative_dict root batch []) ≡ some item
    → Has item batch × (rel_or_empty root item.path ≡ key)
lookup_listed root key batch item h = elim (lookup-relative_dict root key batch [] item h) [
  | inl listed ↦ listed
  | inr none_such ↦ absurd (lookup_empty key item none_such)
]

pair_known-IsPaired :
    (root : Text) (batch : List PendingChange) (renames : Dict Text) (old new : Text)
    (f g : Option PendingChange) (p : Pairing)
    → Has (old, new) renames
    → lookup old (relative_dict root batch []) ≡ f
    → lookup new (relative_dict root batch []) ≡ g
    → IsPaired root batch renames p
    → IsPaired root batch renames (pair_known f g p)
unfolding pair_known
pair_known-IsPaired root batch renames old new none g p listed ho hn paired = paired
pair_known-IsPaired root batch renames old new (some o) none p listed ho hn paired = paired
pair_known-IsPaired root batch renames old new (some o) (some n) p listed ho hn paired =
    let is_old = lookup_listed root old batch o ho in
    let is_new = lookup_listed root new batch n hn in
    let reported : Has (rel_or_empty root o.path, rel_or_empty root n.path) renames =
      subst (λ k. Has (k, rel_or_empty root n.path) renames) (sym is_old.1)
        (subst (λ k. Has (old, k) renames) (sym is_new.1) listed) in
    if-elim (IsPaired root batch renames) (has_key o.path p.consumed || has_key n.path p.consumed) _
      _ (λ _. paired)
      (λ free.
        pair_up-IsPaired root batch renames o n p (is_old.0, is_new.0, inl reported)
          (ground (arith, free)) (ground (arith, free)) paired)

match_git-IsPaired :
    (root : Text) (batch : List PendingChange) (renames rest : Dict Text) (p : Pairing)
    → All (λ entry. Has entry renames) rest
    → IsPaired root batch renames p
    → IsPaired root batch renames (match_git (relative_dict root batch []) rest p)
unfolding match_git
match_git-IsPaired root batch renames [] p listed paired = paired
match_git-IsPaired root batch renames ((old, new) ∷ rest) p listed paired =
    match_git-IsPaired root batch renames rest _ listed.1
      (pair_known-IsPaired root batch renames old new _ _ p listed.0 refl refl paired)

All-listed : {A : Type 0} (xs : List A) → All (λ a. Has a xs) xs
All-listed [] = tt
All-listed (x ∷ xs) =
    (here refl, All-imply (λ a. Has a xs) (λ a. Has a (x ∷ xs)) xs (λ a h. there h) (All-listed xs))

candidate_free :
    (consumed : List Text) (old new : PendingChange)
    → is_candidate consumed old new ≡ true
    → has_key new.path consumed ≡ false
unfolding is_candidate
candidate_free consumed old new h = ground (arith, h)

pair_match-IsPaired :
    (root : Text) (batch : List PendingChange) (renames : Dict Text) (old : PendingChange)
    (match : Option PendingChange) (p : Pairing)
    → Has old (keep renamed_away batch)
    → has_key old.path p.consumed ≡ false
    → old.before.directory ≡ false
    → find_match p.consumed old none (keep created batch) ≡ match
    → IsPaired root batch renames p
    → IsPaired root batch renames (pair_match old match p)
unfolding pair_match
pair_match-IsPaired root batch renames old none p listed free file found paired = paired
pair_match-IsPaired root batch renames old (some new) p listed free file found paired =
    let only = find_match-none p.consumed old new (keep created batch) found in
    let is_old = Has-keep renamed_away old batch listed in
    let is_new =
      Has-keep (is_candidate p.consumed old) new (keep created batch)
        (subst (Has new) (sym only) (here refl)) in
    pair_up-IsPaired root batch renames old new p
      (
        is_old.0,
        (Has-keep created new batch is_new.0).0,
        inr (
          is_old.1,
          file,
          (
            p.pairs,
            All-listed p.pairs,
            subst (λ c. keep (is_candidate c old) (keep created batch) ≡ new ∷ []) paired.3 only,
          ),
        ),
      )
      free (candidate_free p.consumed old new is_new.1) paired

match_prints-IsPaired :
    (root : Text) (batch : List PendingChange) (renames : Dict Text) (olds : List PendingChange)
    (p : Pairing)
    → All (λ old. Has old (keep renamed_away batch)) olds
    → IsPaired root batch renames p
    → IsPaired root batch renames (match_prints (keep created batch) olds p)
unfolding match_prints match_old
match_prints-IsPaired root batch renames [] p listed paired = paired
match_prints-IsPaired root batch renames (old ∷ olds) p listed paired =
    match_prints-IsPaired root batch renames olds _ listed.1 (
      if-elim (IsPaired root batch renames) (has_key old.path p.consumed || old.before.directory) _
        _ (λ _. paired)
        (λ free.
          pair_match-IsPaired root batch renames old _ p listed.0 (ground (arith, free))
            (ground (arith, free)) refl paired))

IsApart-sym : (p q : RenamePair) → IsApart p q → IsApart q p
IsApart-sym p q (a, b, c, d) = (
  flip p.old.path q.old.path a,
  flip p.new.path q.old.path c,
  flip p.old.path q.new.path b,
  flip p.new.path q.new.path d,
)
  where
    flip : (s t : Text) → text_eq s t ≡ false → text_eq t s ≡ false
    flip s t h = ground (arith, text_eq_iff s t, text_eq_iff t s, h)

insert_sorted-IsDisjoint :
    (p : RenamePair) (ps : List RenamePair)
    → All (IsApart p) ps
    → IsDisjoint ps
    → IsDisjoint (insert_sorted old_first p ps)
unfolding insert_sorted
insert_sorted-IsDisjoint p [] apart d = (tt, tt)
insert_sorted-IsDisjoint p (q ∷ ps) apart d =
    if-elim IsDisjoint (old_first q p) _ _
      (λ _. (
        All-insert_sorted old_first (IsApart q) p ps (IsApart-sym p q apart.0) d.0,
        insert_sorted-IsDisjoint p ps apart.1 d.1,
      ))
      (λ _. (apart, d))

sort-IsDisjoint : (ps : List RenamePair) → IsDisjoint ps → IsDisjoint (sort old_first ps)
unfolding sort
sort-IsDisjoint [] d = tt
sort-IsDisjoint (p ∷ ps) d =
    insert_sorted-IsDisjoint p (sort old_first ps) (All-sort old_first (IsApart p) ps d.0)
      (sort-IsDisjoint ps d.1)

-- Both changes of each pair that correlateRenames returns are in the batch, and either git reports
-- their relative paths as a rename, or the old one is a file that was renamed away and the new one
-- is the only created path that has its fingerprint, but for the paths of some of the other pairs
-- that are returned. No path stands in two pairs.
pub correlate_renames-IsDisjoint :
    (root : Text) (batch : List PendingChange) (renames : Dict Text)
    → All
        (IsRename root batch renames (correlate_renames root batch renames).0)
        (correlate_renames root batch renames).0
      × IsDisjoint (correlate_renames root batch renames).0
unfolding correlate_renames correlate
correlate_renames-IsDisjoint root batch renames =
    let p = correlate root batch renames in
    let (all, disjoint, _, _) =
      match_prints-IsPaired root batch renames (keep renamed_away batch)
        (match_git (relative_dict root batch []) renames (record { pairs = []; consumed = [] }))
        (All-listed (keep renamed_away batch))
        (match_git-IsPaired root batch renames renames (record { pairs = []; consumed = [] })
          (All-listed renames) (tt, tt, tt, refl)) in
    (
      All-sort old_first (IsRename root batch renames (sort old_first p.pairs)) p.pairs (
          All-imply (IsRename root batch renames p.pairs)
            (IsRename root batch renames (sort old_first p.pairs)) p.pairs
            (λ q h.
              IsRename-more root batch renames p.pairs (sort old_first p.pairs) q
                (λ x has. Has-sort old_first x p.pairs has) h)
            all),
      sort-IsDisjoint _ disjoint,
    )
