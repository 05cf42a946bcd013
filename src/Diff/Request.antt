-- ===== src/Diff/Request.antt =====
-- Requests for a line delta and their answers: resolveDirect, newResult and the answers of process
-- (internal/diff/pipeline.go).
use agent_action_visualizer.Diff.Patch.{count_patch}
use agent_action_visualizer.Diff.Snapshot.{count_snapshots}
use agent_action_visualizer.Prelude.{
  Bool, true, false, ◌&&◌, ◌||◌, Option, none, some, [], if◌then◌else◌, is_some, Text, ℤ, pos,
  eqb_ℤ,
}
use agent_action_visualizer.Protocol.Event.{Confidence}
use agent_action_visualizer.Diff.Kinds.{Status, Source}

-- A byte slice is `none` when it is nil.
pub record Request : Type 0 where
  pub key : Text
  pub session_id : Text
  pub sequence : ℤ
  pub project_root : Text
  pub path : Text
  pub structured_added : Option ℤ
  pub structured_deleted : Option ℤ
  pub structured_patch : Option Text
  pub before : Option Text
  pub after : Option Text
  pub allow_snapshot_correlation : Bool
  pub is_binary : Bool
  pub confidence : Confidence

-- The Result of the source; the name `Result` is the library's.
pub record DeltaResult : Type 0 where
  pub key : Text
  pub session_id : Text
  pub sequence : ℤ
  pub path : Text
  pub lines_added : Option ℤ
  pub lines_deleted : Option ℤ
  pub status : Status
  pub source : Source
  pub confidence : Confidence

unfoldable pub or_inferred : Confidence → Confidence
or_inferred (Confidence.other []) = Confidence.inferred
or_inferred c = c

unfoldable pub new_result :
    Request → Option ℤ → Option ℤ → Status → Source → Confidence → DeltaResult
unfolding or_inferred
new_result r added deleted status source confidence = record {
  key = r.key;
  session_id = r.session_id;
  sequence = r.sequence;
  path = r.path;
  lines_added = added;
  lines_deleted = deleted;
  status = status;
  source = source;
  confidence = or_inferred confidence;
}

unfoldable pub unknown_result : Request → DeltaResult
unfolding new_result
unknown_result r = new_result r none none Status.unknown Source.unknown Confidence.inferred

-- max(0, *n), or 0 for nil.
unfoldable pub clamp : Option ℤ → ℤ
clamp (some (pos n)) = pos n
clamp _ = pos 0

unfoldable pub status_of : ℤ → ℤ → Status
status_of added deleted =
    if eqb_ℤ added (pos 0) && eqb_ℤ deleted (pos 0) then Status.empty else Status.known

-- The test status == StatusKnown || status == StatusEmpty.
unfoldable pub is_counted : Status → Bool
is_counted Status.known = true
is_counted Status.empty = true
is_counted _ = false

-- The result for counts of that status, which it carries only when lines were counted.
unfoldable pub counted_result : Request → ℤ × ℤ × Status → Source → Confidence → DeltaResult
unfolding new_result is_counted
counted_result r (added, deleted, status) source confidence =
    if is_counted status
    then new_result r (some added) (some deleted) status source confidence
    else new_result r none none status source confidence

unfoldable pub structured_result : Request → ℤ → ℤ → DeltaResult
unfolding new_result status_of
structured_result r added deleted =
    new_result r (some added) (some deleted) (status_of added deleted) Source.structured_patch
      r.confidence

abbrev pub or_empty : Option Text → Text
or_empty none = []
or_empty (some s) = s

-- With a snapshot whose counts are unknown the request is left to git.
unfoldable pub unless_unknown : Request → ℤ × ℤ × Status → Option DeltaResult
unfolding counted_result
unless_unknown r (added, deleted, Status.unknown) = none
unless_unknown r counts =
    some (counted_result r counts Source.correlated_snapshot Confidence.correlated)

unfoldable pub resolve_snapshot : Request → Option DeltaResult
unfolding unless_unknown
resolve_snapshot r =
    if r.allow_snapshot_correlation && (is_some r.before || is_some r.after)
    then unless_unknown r (count_snapshots (or_empty r.before) (or_empty r.after))
    else none

unfoldable pub resolve_text : Request → Option Text → Option DeltaResult
unfolding counted_result resolve_snapshot
resolve_text r none = resolve_snapshot r
resolve_text r (some patch) =
    some (counted_result r (count_patch patch) Source.structured_patch r.confidence)

unfoldable pub resolve_direct : Request → Option DeltaResult
unfolding new_result structured_result resolve_text
resolve_direct r =
    if r.is_binary
    then some (new_result r none none Status.binary Source.structured_patch r.confidence)
    else if is_some r.structured_added || is_some r.structured_deleted
    then some (structured_result r (clamp r.structured_added) (clamp r.structured_deleted))
    else resolve_text r r.structured_patch
