-- ===== src/Filesystem/Renames/Apart.antt =====
-- Pairs of changes with no path in common (internal/adapters/filesystem/observer.go).
use agent_action_visualizer.Prelude.Sort.Sorted.{there}
use agent_action_visualizer.Filesystem.Renames.Match.{IsRename, consumed_by, IsRename-more}
use agent_action_visualizer.Prelude.Dict.{Dict}
use agent_action_visualizer.Prelude.Keys.{has_key}
use agent_action_visualizer.Filesystem.Change.{PendingChange}
use agent_action_visualizer.Filesystem.Renames.{RenamePair, pair_up, Pairing}
use agent_action_visualizer.Prelude.{
  ◌≡◌, subst, inl, inr, true, false, List, [], ◌∷◌, arith, Bool-cases, All, Text, All-imply,
  text_eq, text_eq_iff, text_eq_refl, ap,
}

-- The two pairs have no path in common.
abbrev pub IsApart : RenamePair → RenamePair → Type 0
IsApart p q =
    (text_eq p.old.path q.old.path ≡ false)
    × (text_eq p.old.path q.new.path ≡ false)
    × (text_eq p.new.path q.old.path ≡ false)
    × (text_eq p.new.path q.new.path ≡ false)

abbrev pub IsDisjoint : List RenamePair → Type 0
IsDisjoint [] = Unit
IsDisjoint (p ∷ ps) = All (IsApart p) ps × IsDisjoint ps

abbrev pub IsConsumed : List Text → RenamePair → Type 0
IsConsumed consumed p = (has_key p.old.path consumed ≡ true) × (has_key p.new.path consumed ≡ true)

abbrev pub IsPaired : Text → List PendingChange → Dict Text → Pairing → Type 0
IsPaired root batch renames p =
    All (IsRename root batch renames p.pairs) p.pairs
    × IsDisjoint p.pairs
    × All (IsConsumed p.consumed) p.pairs
    × (p.consumed ≡ consumed_by p.pairs)

has_key-apart :
    (a b : Text) (keys : List Text)
    → has_key a keys ≡ false
    → has_key b keys ≡ true
    → text_eq a b ≡ false
has_key-apart a b keys absent present = elim (Bool-cases (text_eq a b)) [
  | inr other ↦ other
  | inl same ↦ absurd (
      ground
        (arith, subst (λ k. has_key k keys ≡ false) ((text_eq_iff a b).0 same) absent, present))
]

has_key_later :
    (a b : Text) (keys : List Text) → has_key a keys ≡ true → has_key a (b ∷ keys) ≡ true
unfolding has_key
has_key_later a b keys h = ground (arith, h)

has_key_first : (a : Text) (keys : List Text) → has_key a (a ∷ keys) ≡ true
unfolding has_key
has_key_first a keys = ground (arith, text_eq_refl a)

abbrev pair_of : PendingChange → PendingChange → RenamePair
pair_of old new = record { old = old; new = new }

pub pair_up-IsPaired :
    (root : Text) (batch : List PendingChange) (renames : Dict Text) (old new : PendingChange)
    (p : Pairing)
    → IsRename root batch renames p.pairs (record { old = old; new = new })
    → has_key old.path p.consumed ≡ false
    → has_key new.path p.consumed ≡ false
    → IsPaired root batch renames p
    → IsPaired root batch renames (pair_up old new p)
unfolding pair_up
pair_up-IsPaired root batch renames old new p why fresh_old fresh_new
      (all, disjoint, consumed, by_pairs) =
    (
      (
        IsRename-more root batch renames p.pairs ((pair_of old new) ∷ p.pairs) (pair_of old new)
            (λ x has. there has) why,
        All-imply (IsRename root batch renames p.pairs)
            (IsRename root batch renames ((pair_of old new) ∷ p.pairs)) p.pairs
            (λ q h.
              IsRename-more root batch renames p.pairs ((pair_of old new) ∷ p.pairs) q
                (λ x has. there has) h)
            all,
      ),
      (
        All-imply (IsConsumed p.consumed) (IsApart (record { old = old; new = new })) p.pairs
            (λ q taken. (
              has_key-apart old.path q.old.path p.consumed fresh_old taken.0,
              has_key-apart old.path q.new.path p.consumed fresh_old taken.1,
              has_key-apart new.path q.old.path p.consumed fresh_new taken.0,
              has_key-apart new.path q.new.path p.consumed fresh_new taken.1,
            ))
            consumed,
        disjoint,
      ),
      (
        (
          has_key_first old.path (new.path ∷ p.consumed),
          has_key_later new.path old.path (new.path ∷ p.consumed)
              (has_key_first new.path p.consumed),
        ),
        All-imply (IsConsumed p.consumed) (IsConsumed (old.path ∷ new.path ∷ p.consumed)) p.pairs
            (λ q taken. (
              has_key_later q.old.path old.path (new.path ∷ p.consumed)
                  (has_key_later q.old.path new.path p.consumed taken.0),
              has_key_later q.new.path old.path (new.path ∷ p.consumed)
                  (has_key_later q.new.path new.path p.consumed taken.1),
            ))
            consumed,
      ),
      ap (λ c. old.path ∷ new.path ∷ c) by_pairs,
    )
