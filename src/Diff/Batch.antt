-- ===== src/Diff/Batch.antt =====
-- The answers of a batch: process (internal/diff/pipeline.go). The git runner is a parameter: from a
-- root and paths to the deltas by path, or `none` for an error.
pub mod Counts
pub mod Coherent
use agent_action_visualizer.Prelude.Keys.{has_key}
use agent_action_visualizer.Diff.Request.{
  Request, new_result, resolve_direct, unknown_result, DeltaResult, status_of,
}
use agent_action_visualizer.Prelude.{
  Bool, not, ◌&&◌, ◌||◌, Option, none, some, List, [], ◌∷◌, if◌then◌else◌, is_some, keep, Text,
  is_empty, text_eq, ℤ,
}
use agent_action_visualizer.Diff.Kinds.{Status, Source}
use agent_action_visualizer.Protocol.Event.{Confidence}

pub record GitDelta : Type 0 where
  pub added : ℤ
  pub deleted : ℤ
  pub binary : Bool

abbrev pub GitRunner : Type 0
GitRunner = Text → List Text → Option (Text → Option GitDelta)

unfoldable pub needs_git : Request → Bool
needs_git r =
    not (is_some (resolve_direct r)) && (not (is_empty r.project_root) && not (is_empty r.path))

-- gitGroups[root]
unfoldable pub git_group : Text → List Request → List Request
unfolding keep needs_git
git_group root batch = keep (λ r. needs_git r && text_eq r.project_root root) batch

-- The paths of a group, each once, from those seen on.
unfoldable pub distinct_paths : List Text → List Request → List Text
unfolding has_key
distinct_paths seen [] = []
distinct_paths seen (r ∷ rs) =
    let skip = distinct_paths seen rs in
    let take = r.path ∷ distinct_paths (r.path ∷ seen) rs in
    if has_key r.path seen then skip else take

unfoldable pub git_delta : Request → Option GitDelta → DeltaResult
unfolding new_result unknown_result status_of
git_delta r none = unknown_result r
git_delta r (some value) =
    if value.binary
    then new_result r none none Status.binary Source.git_numstat Confidence.correlated
    else new_result r (some value.added) (some value.deleted) (status_of value.added value.deleted)
        Source.git_numstat Confidence.correlated

unfoldable pub git_values : Request → Option (Text → Option GitDelta) → DeltaResult
unfolding git_delta
git_values r none = unknown_result r
git_values r (some values) = git_delta r (values r.path)

unfoldable pub git_answer : Option GitRunner → List Request → Request → DeltaResult
unfolding git_values distinct_paths git_group
git_answer none batch r = unknown_result r
git_answer (some runner) batch r =
    if is_empty r.project_root || is_empty r.path
    then unknown_result r
    else git_values r (runner r.project_root (distinct_paths [] (git_group r.project_root batch)))

-- What a request of the batch is answered.
unfoldable pub answer : Option GitRunner → List Request → Request → DeltaResult
unfolding git_answer
answer runner batch r = elim (resolve_direct r) [
  | some result ↦ result
  | none ↦ git_answer runner batch r
]
