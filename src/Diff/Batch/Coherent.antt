-- ===== src/Diff/Batch/Coherent.antt =====
-- The answers carry counts exactly when their status says so (internal/diff/pipeline.go).
use agent_action_visualizer.Diff.Batch.Counts.{
  IsCounts, count_snapshots-IsCounts, count_patch-IsCounts,
}
use agent_action_visualizer.Diff.Batch.{
  GitRunner, git_delta, GitDelta, git_values, git_answer, answer, distinct_paths, git_group,
}
use agent_action_visualizer.Diff.Lines.{}
use agent_action_visualizer.Diff.Snapshot.{count_snapshots}
use agent_action_visualizer.Diff.Patch.{count_patch}
use agent_action_visualizer.Diff.Snapshot.Minimal.{summary}
use agent_action_visualizer.Diff.Request.{
  DeltaResult, is_counted, counted_result, clamp, structured_result, new_result, Request, status_of,
  unless_unknown, resolve_snapshot, resolve_text, resolve_direct, unknown_result, or_empty,
}
use agent_action_visualizer.Prelude.{
  ℕ, ◌≡◌, refl, subst, inl, inr, true, false, ◌&&◌, ◌||◌, Option, none, some, List, arith,
  Bool-cases, Text, ℤ, pos, negsuc, pos_part, is_some, Option-cases, is_empty, [],
}
use agent_action_visualizer.Diff.Kinds.{Status, Source}
use agent_action_visualizer.Protocol.Event.{Confidence}

-- Counts that are not negative, with the status that says whether both are zero, or no counts and
-- another status.
pub data IsCoherent (d : DeltaResult) : Type 0 where
  counted :
      (a b : ℕ)
      → d.lines_added ≡ some (pos a)
      → d.lines_deleted ≡ some (pos b)
      → d.status ≡ summary a b
      → IsCoherent d
  uncounted :
      d.lines_added ≡ none → d.lines_deleted ≡ none → is_counted d.status ≡ false → IsCoherent d

is_counted-summary : (m n : ℕ) → is_counted (summary m n) ≡ true
unfolding is_counted
is_counted-summary m n = ground arith

counted_result-IsCoherent :
    (r : Request) (counts : ℤ × ℤ × Status) (source : Source) (confidence : Confidence)
    → IsCounts counts
    → IsCoherent (counted_result r counts source confidence)
unfolding counted_result new_result
counted_result-IsCoherent r (a, b, s) source confidence (inl (m, n, ea, eb, es)) =
    rw (ea, eb, es, is_counted-summary m n) (counted m n refl refl refl)
counted_result-IsCoherent r (a, b, s) source confidence (inr other) =
    rw other (uncounted refl refl other)

clamp-pos : (n : Option ℤ) → clamp n ≡ pos (pos_part (clamp n))
unfolding clamp
clamp-pos none = refl
clamp-pos (some (pos n)) = refl
clamp-pos (some (negsuc n)) = refl

structured_result-IsCoherent :
    (r : Request) (a b : ℕ) → IsCoherent (structured_result r (pos a) (pos b))
unfolding structured_result new_result status_of
structured_result-IsCoherent r a b = counted a b refl refl (ground arith)

-- What holds of the result, if there is one.
abbrev IfSome : Option DeltaResult → Type 0
IfSome none = Unit {0}
IfSome (some d) = IsCoherent d

unless_unknown-IsCoherent :
    (r : Request) (counts : ℤ × ℤ × Status) → IsCounts counts → IfSome (unless_unknown r counts)
unfolding unless_unknown
unless_unknown-IsCoherent r (a, b, Status.unknown) h = tt
unless_unknown-IsCoherent r (a, b, Status.known) h =
    counted_result-IsCoherent r (a, b, Status.known) Source.correlated_snapshot
      Confidence.correlated h
unless_unknown-IsCoherent r (a, b, Status.empty) h =
    counted_result-IsCoherent r (a, b, Status.empty) Source.correlated_snapshot
      Confidence.correlated h
unless_unknown-IsCoherent r (a, b, Status.binary) h =
    counted_result-IsCoherent r (a, b, Status.binary) Source.correlated_snapshot
      Confidence.correlated h
unless_unknown-IsCoherent r (a, b, Status.unsupported_encoding) h =
    counted_result-IsCoherent r (a, b, Status.unsupported_encoding) Source.correlated_snapshot
      Confidence.correlated h
unless_unknown-IsCoherent r (a, b, Status.pending) h =
    counted_result-IsCoherent r (a, b, Status.pending) Source.correlated_snapshot
      Confidence.correlated h
unless_unknown-IsCoherent r (a, b, Status.other s) h =
    counted_result-IsCoherent r (a, b, Status.other s) Source.correlated_snapshot
      Confidence.correlated h

resolve_snapshot-IsCoherent : (r : Request) → IfSome (resolve_snapshot r)
unfolding resolve_snapshot
resolve_snapshot-IsCoherent r =
    elim (Bool-cases (r.allow_snapshot_correlation && (is_some r.before || is_some r.after))) [
      | inl asked ↦ rw asked (
          unless_unknown-IsCoherent r (count_snapshots (or_empty r.before) (or_empty r.after))
            (count_snapshots-IsCounts (or_empty r.before) (or_empty r.after)))
      | inr other ↦ rw other tt
    ]

resolve_text-IsCoherent : (r : Request) (patch : Option Text) → IfSome (resolve_text r patch)
unfolding resolve_text
resolve_text-IsCoherent r none = resolve_snapshot-IsCoherent r
resolve_text-IsCoherent r (some patch) =
    counted_result-IsCoherent r (count_patch patch) Source.structured_patch r.confidence
      (count_patch-IsCounts patch)

resolve_direct-IsCoherent : (r : Request) → IfSome (resolve_direct r)
unfolding resolve_direct
resolve_direct-IsCoherent r = elim (Bool-cases r.is_binary) [
  | inl binary ↦ rw binary (unfold new_result is_counted in uncounted refl refl refl)
  | inr text ↦
      rw text (elim (Bool-cases (is_some r.structured_added || is_some r.structured_deleted)) [
        | inl given ↦
            rw (given, clamp-pos r.structured_added, clamp-pos r.structured_deleted)
              (structured_result-IsCoherent r (pos_part (clamp r.structured_added))
                (pos_part (clamp r.structured_deleted)))
        | inr other ↦ rw other (resolve_text-IsCoherent r r.structured_patch)
      ])
]

-- git's numstat counts lines, so a delta that is not of a binary file is not negative.
abbrev pub IsCounting : GitRunner → Type 0
IsCounting runner =
    (root : Text) (paths : List Text) (values : Text → Option GitDelta) (path : Text)
    (value : GitDelta)
    → runner root paths ≡ some values
    → values path ≡ some value
    → (value.added ≡ pos (pos_part value.added)) × (value.deleted ≡ pos (pos_part value.deleted))

unknown_result-IsCoherent : (r : Request) → IsCoherent (unknown_result r)
unfolding unknown_result new_result is_counted
unknown_result-IsCoherent r = uncounted refl refl refl

git_delta-IsCoherent :
    (r : Request) (value : GitDelta) (a b : ℕ)
    → value.added ≡ pos a
    → value.deleted ≡ pos b
    → IsCoherent (git_delta r (some value))
unfolding git_delta new_result is_counted status_of
git_delta-IsCoherent r value a b ea eb = elim (Bool-cases value.binary) [
  | inl binary ↦ rw binary (uncounted refl refl refl)
  | inr text ↦ rw (text, ea, eb) (counted a b refl refl (ground arith))
]

abbrev pub AllCounting : Option GitRunner → Type 0
AllCounting none = Unit {0}
AllCounting (some runner) = IsCounting runner

git_values-IsCoherent :
    (runner : GitRunner) (root : Text) (paths : List Text) (r : Request)
    → IsCounting runner
    → IsCoherent (git_values r (runner root paths))
unfolding git_values
git_values-IsCoherent runner root paths r counting = elim (Option-cases (runner root paths)) [
  | inl failed ↦ rw failed (unknown_result-IsCoherent r)
  | inr (values, ran) ↦ rw ran (elim (Option-cases (values r.path)) [
    | inl missing ↦ rw missing (unfold git_delta in unknown_result-IsCoherent r)
    | inr (value, found) ↦
        let exact = counting root paths values r.path value ran found in
        rw found (
          git_delta-IsCoherent r value (pos_part value.added) (pos_part value.deleted) exact.0
            exact.1)
  ])
]

git_answer-IsCoherent :
    (runner : Option GitRunner) (batch : List Request) (r : Request)
    → AllCounting runner
    → IsCoherent (git_answer runner batch r)
unfolding git_answer
git_answer-IsCoherent none batch r counting = unknown_result-IsCoherent r
git_answer-IsCoherent (some runner) batch r counting =
    elim (Bool-cases (is_empty r.project_root || is_empty r.path)) [
      | inl unnamed ↦ rw unnamed (unknown_result-IsCoherent r)
      | inr named ↦ rw named (
          git_values-IsCoherent runner r.project_root
            (distinct_paths [] (git_group r.project_root batch)) r counting)
    ]

-- With no git runner, or one whose line counts are never negative, the answer to any request of a
-- batch has counts that are not negative and the status `empty` or `known` by whether both are
-- zero, or it has no counts and another status.
pub answer-IsCoherent :
    (runner : Option GitRunner) (batch : List Request) (r : Request)
    → AllCounting runner
    → IsCoherent (answer runner batch r)
unfolding answer
answer-IsCoherent runner batch r counting =
    let direct = resolve_direct-IsCoherent r in
    elim (Option-cases (resolve_direct r)) [
      | inl left ↦ rw (left, answer) (git_answer-IsCoherent runner batch r counting)
      | inr (d, found) ↦ rw (found, answer) (subst IfSome found direct)
    ]
