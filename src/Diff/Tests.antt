-- ===== src/Diff/Tests.antt =====
-- Line counts at concrete inputs, and the theorems on them there.
use agent_action_visualizer.Diff.Patch.Lines.{count_patch-keep}
use agent_action_visualizer.Prelude.Int.{inc}
use agent_action_visualizer.Diff.Pipeline.Totals.{outstanding, Reaches-accepted}
use agent_action_visualizer.Diff.Patch.{count_patch, patch_status, is_added, is_deleted}
use agent_action_visualizer.Diff.Pipeline.Keys.{IsTracked, work}
use agent_action_visualizer.Diff.Pipeline.Tracking.{Reaches-IsTracked, reserve-none_iff}
use agent_action_visualizer.Prelude.Keys.{has_key, count, remove_key}
use agent_action_visualizer.Diff.Batch.Coherent.{IsCoherent, answer-IsCoherent}
use agent_action_visualizer.Diff.Batch.{GitRunner, answer, GitDelta}
use agent_action_visualizer.Diff.Request.{Request}
use agent_action_visualizer.Diff.Snapshot.Table.{common_lines-lcs}
use agent_action_visualizer.Prelude.Utf8.{utf8_valid}
use agent_action_visualizer.Diff.Snapshot.Minimal.{
  count_lines_minimal, count_lines-empty_iff, summary, count_lines_attained,
}
use agent_action_visualizer.Diff.Snapshot.Lcs.{IsPart, lcs, skip, take, done}
use agent_action_visualizer.Diff.Lines.{split_lines, replace_crlf, split_newline}
use agent_action_visualizer.Protocol.Event.{Confidence}
use agent_action_visualizer.Diff.Pipeline.Bounds.{IsBounded, Reaches-IsBounded}
use agent_action_visualizer.Diff.Patch.Render.{
  kept, added, deleted, Edit, unified, count_patch-unified,
}
use agent_action_visualizer.Diff.Pipeline.{
  at_start, offers, accepts, then_step, Pipeline, Reaches, reserve, new_pipeline, accept,
  copy_bytes, copy_request,
}
use agent_action_visualizer.Prelude.{
  has_prefix, has_part, has_byte, some, none, ◌-◌, ◌≤◌, ◌≡◌, refl, ◌↔◌, List, [], ◌∷◌, arith,
  length, Text, bytes, text_eq, pos, ◌+◌, ◌++◌, false, is_empty, ◌%◌, keep, ◌^◌, Option, sym, ◌∙◌,
  ap,
}
use agent_action_visualizer.Diff.Kinds.{Status}
use agent_action_visualizer.Diff.Snapshot.{
  count_lines, count_snapshots, common_lines, fill, fill_rows, zeros, cell_at, delta,
}

abbrev old_lines : List Text
old_lines = bytes "a" ∷ bytes "b" ∷ bytes "c" ∷ []

abbrev new_lines : List Text
new_lines = bytes "b" ∷ bytes "x" ∷ bytes "c" ∷ bytes "y" ∷ []

snapshot_code : Unit {0}
unfolding text_eq has_byte utf8_valid split_lines fill fill_rows zeros cell_at common_lines delta
    count_lines count_snapshots
snapshot_code = tt

counts : count_lines old_lines new_lines ≡ (pos 2, pos 1, Status.known)
unfolding snapshot_code
counts = refl

counts_text :
    count_snapshots (97 ∷ 10 ∷ 98 ∷ 10 ∷ []) (98 ∷ 13 ∷ 10 ∷ []) ≡ (pos 0, pos 1, Status.known)
unfolding snapshot_code
counts_text = refl

common_lines-lcs_example : common_lines old_lines new_lines ≡ lcs old_lines new_lines
common_lines-lcs_example = common_lines-lcs old_lines new_lines

count_lines_attained_example :
    (zs : List Text) × IsPart zs old_lines
    × IsPart zs new_lines
    × (count_lines old_lines new_lines
        ≡ (pos (4 - length zs), pos (3 - length zs), summary (4 - length zs) (3 - length zs)))
count_lines_attained_example = count_lines_attained old_lines new_lines (omega arith)

count_lines_minimal_example : (2 ≤ 4 - 1) × (1 ≤ 3 - 1)
unfolding snapshot_code
count_lines_minimal_example =
    count_lines_minimal old_lines new_lines (omega arith) (bytes "c" ∷ []) 2 1 Status.known
      (skip (bytes "a") (skip (bytes "b") (take (bytes "c") done)))
      (skip (bytes "b") (skip (bytes "x") (take (bytes "c") (skip (bytes "y") done)))) refl

count_lines-empty_iff_example :
    ((count_lines old_lines new_lines).2 ≡ Status.empty) ↔ (old_lines ≡ new_lines)
count_lines-empty_iff_example = count_lines-empty_iff old_lines new_lines (omega arith)

abbrev request : Text → Request
request key = record {
  key = key;
  session_id = bytes "s";
  sequence = pos 1;
  project_root = bytes "/p";
  path = bytes "a";
  structured_added = none;
  structured_deleted = none;
  structured_patch = none;
  before = none;
  after = none;
  allow_snapshot_correlation = false;
  is_binary = false;
  confidence = Confidence.other [];
}

abbrev numstat : GitRunner
numstat root paths = some (λ path. some (record { added = pos 2; deleted = pos 0; binary = false }))

abbrev one_delta : GitDelta
one_delta = record { added = pos 2; deleted = pos 0; binary = false }

abbrev delta_at : Text → Option (Text → Option GitDelta) → GitDelta
delta_at path none = one_delta
delta_at path (some values) = elim (values path) [ none ↦ one_delta | some value ↦ value ]

-- The runner's deltas are all this one.
numstat-value :
    (values : Text → Option GitDelta) (path : Text) (value : GitDelta)
    → numstat [] [] ≡ some values
    → values path ≡ some value
    → value ≡ one_delta
numstat-value values path value ran found =
    let e : delta_at path (some values) ≡ value = rw found refl in
    sym e ∙ sym (ap (delta_at path) ran)

answer-IsCoherent_example :
    IsCoherent (answer (some numstat) (request (bytes "k") ∷ []) (request (bytes "k")))
answer-IsCoherent_example =
    answer-IsCoherent (some numstat) (request (bytes "k") ∷ []) (request (bytes "k"))
      (λ root paths values path value ran found.
        rw (numstat-value values path value ran found) (refl, refl))

pipeline_code : Unit {0}
unfolding text_eq has_key count remove_key new_pipeline copy_bytes copy_request reserve accept inc
pipeline_code = tt

abbrev fresh : Pipeline
fresh = new_pipeline (pos 4) (pos 2)

offered : Pipeline
unfolding pipeline_code
offered = (reserve fresh (request (bytes "k"))).0

queued : Pipeline
unfolding pipeline_code
queued = accept (record offered { offering = [] }) (request (bytes "k"))

queued-reached : Reaches fresh queued
unfolding offered queued
queued-reached =
    then_step (then_step at_start (offers fresh (request (bytes "k"))))
      (accepts offered [] [] (request (bytes "k")) refl (omega arith))

Reaches-IsTracked_example : IsTracked queued
Reaches-IsTracked_example = Reaches-IsTracked (pos 4) (pos 2) queued queued-reached

Reaches-IsBounded_example : IsBounded queued
Reaches-IsBounded_example = Reaches-IsBounded (pos 4) (pos 2) queued queued-reached

Reaches-accepted_example :
    (queued.stats.accepted + queued.counting) % 2 ^ 64
    ≡ (queued.stats.completed + outstanding queued) % 2 ^ 64
unfolding offered
Reaches-accepted_example =
    Reaches-accepted (pos 4) (pos 2) queued queued-reached (unfold queued in refl)

reserve-none_iff_example : ((reserve queued (request (bytes "m"))).1 ≡ none) ↔ (
    (is_empty (bytes "m") ≡ false)
    × (work (bytes "m") queued ≡ 0)
    × (count (bytes "m") queued.order ≡ 0))
unfolding offered
reserve-none_iff_example =
    reserve-none_iff (pos 4) (pos 2) queued (request (bytes "m")) queued-reached
      (unfold queued in refl)

abbrev edits : List Edit
edits = kept (bytes "a") ∷ deleted (bytes "b") ∷ added (bytes "c") ∷ added (bytes "+d") ∷ []

patch_code : Unit {0}
unfolding has_byte has_prefix has_part replace_crlf utf8_valid
patch_code = tt

count_patch-unified_example :
    count_patch (unified (bytes "a/f") (bytes "b/f") (bytes "-1,2 +1,3 @@") edits)
    ≡ patch_status (2, 1)
unfolding patch_code
count_patch-unified_example =
    count_patch-unified (bytes "a/f") (bytes "b/f") (bytes "-1,2 +1,3 @@") edits refl refl refl
      (refl, ((refl, refl), ((refl, refl), ((refl, refl), tt)))) refl refl refl refl

-- In a hunk, too, an added line that starts with `++` is not counted.
plus_lines : Text
plus_lines = bytes "@@" ++ 10 ∷ bytes "+++i" ++ 10 ∷ bytes "+j"

count_patch-keep_example :
    count_patch plus_lines
    ≡ patch_status (
      length (keep is_added (split_newline (replace_crlf plus_lines))),
      length (keep is_deleted (split_newline (replace_crlf plus_lines))),
    )
unfolding patch_code plus_lines
count_patch-keep_example = count_patch-keep plus_lines refl refl refl
