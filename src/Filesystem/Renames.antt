-- ===== src/Filesystem/Renames.antt =====
-- Which old and new paths are one rename: correlateRenames
-- (internal/adapters/filesystem/observer.go).
pub mod Match
pub mod Apart
pub mod Disjoint
use agent_action_visualizer.Prelude.Sort.{sort}
use agent_action_visualizer.Prelude.Keys.{has_key}
use agent_action_visualizer.Prelude.Dict.{Dict, put, lookup}
use agent_action_visualizer.Prelude.Path.{rel}
use agent_action_visualizer.Filesystem.Change.{PendingChange, same_fingerprint}
use agent_action_visualizer.Prelude.{
  Bool, not, ◌&&◌, ◌||◌, Option, none, some, List, [], ◌∷◌, if◌then◌else◌, keep, Text, text_lt,
}

-- Of the pair of pointers, the changes.
pub record RenamePair : Type 0 where
  pub old : PendingChange
  pub new : PendingChange

-- The variables `pairs`, the last one first, and `consumed`.
pub record Pairing : Type 0 where
  pub pairs : List RenamePair
  pub consumed : List Text

-- filepath.Rel with its error dropped.
unfoldable pub rel_or_empty : Text → Text → Text
rel_or_empty root path = elim (rel root path) [ none ↦ [] | some relative ↦ relative ]

unfoldable pub relative_dict : Text → List PendingChange → Dict PendingChange → Dict PendingChange
relative_dict root [] found = found
relative_dict root (item ∷ batch) found =
    relative_dict root batch (put (rel_or_empty root item.path) item found)

unfoldable pub created : PendingChange → Bool
created item = item.after.exists && item.op.op_create

unfoldable pub renamed_away : PendingChange → Bool
renamed_away item = not item.after.exists && item.op.op_rename

unfoldable pub pair_up : PendingChange → PendingChange → Pairing → Pairing
pair_up old new p = record {
  pairs = (record { old = old; new = new }) ∷ p.pairs;
  consumed = old.path ∷ new.path ∷ p.consumed;
}

unfoldable pub pair_known : Option PendingChange → Option PendingChange → Pairing → Pairing
unfolding pair_up
pair_known none new p = p
pair_known (some old) none p = p
pair_known (some old) (some new) p =
    if has_key old.path p.consumed || has_key new.path p.consumed then p else pair_up old new p

-- The loop over evidence.Renames.
unfoldable pub match_git : Dict PendingChange → Dict Text → Pairing → Pairing
unfolding pair_known
match_git found [] p = p
match_git found ((old, new) ∷ renames) p =
    match_git found renames (pair_known (lookup old found) (lookup new found) p)

unfoldable pub is_candidate : List Text → PendingChange → PendingChange → Bool
is_candidate consumed old candidate =
    not (has_key candidate.path consumed) && same_fingerprint old.before candidate.after

-- The loop over the created paths, with its variable `match`.
unfoldable pub find_match :
    List Text → PendingChange → Option PendingChange → List PendingChange → Option PendingChange
find_match consumed old match [] = match
find_match consumed old none (candidate ∷ creates) =
    find_match consumed old (if is_candidate consumed old candidate then some candidate else none)
      creates
find_match consumed old (some match) (candidate ∷ creates) =
    let rest = find_match consumed old (some match) creates in
    if is_candidate consumed old candidate then none else rest

unfoldable pub pair_match : PendingChange → Option PendingChange → Pairing → Pairing
unfolding pair_up
pair_match old none p = p
pair_match old (some match) p = pair_up old match p

unfoldable pub match_old : List PendingChange → PendingChange → Pairing → Pairing
unfolding find_match pair_match
match_old creates old p =
    if has_key old.path p.consumed || old.before.directory
    then p
    else pair_match old (find_match p.consumed old none creates) p

-- The loop over the paths that are gone.
unfoldable pub match_prints : List PendingChange → List PendingChange → Pairing → Pairing
unfolding match_old
match_prints creates [] p = p
match_prints creates (old ∷ olds) p = match_prints creates olds (match_old creates old p)

unfoldable pub correlate : Text → List PendingChange → Dict Text → Pairing
unfolding match_git match_prints
correlate root batch renames =
    match_prints (keep created batch) (keep renamed_away batch)
      (match_git (relative_dict root batch []) renames (record { pairs = []; consumed = [] }))

unfoldable pub old_first : RenamePair → RenamePair → Bool
old_first p q = text_lt p.old.path q.old.path

unfoldable pub correlate_renames :
    Text → List PendingChange → Dict Text → List RenamePair × List Text
unfolding correlate
correlate_renames root batch renames =
    let p = correlate root batch renames in (sort old_first p.pairs, p.consumed)
