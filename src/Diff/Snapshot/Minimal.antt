-- ===== src/Diff/Snapshot/Minimal.antt =====
-- What countSnapshots reports is the smallest edit (internal/diff/pipeline.go).
use agent_action_visualizer.Prelude.{
  ℕ, ◌-◌, ◌*◌, ◌≤◌, ◌≡◌, refl, sym, ap, ◌∙◌, subst, ◌↔◌, ◌&&◌, List, [], ◌∷◌, arith, ◌==◌,
  if◌then◌else◌, length, Text, pos,
}
use agent_action_visualizer.Diff.Kinds.{Status}
use agent_action_visualizer.Diff.Snapshot.{delta, count_lines, max_snapshot_cells}
use agent_action_visualizer.Diff.Snapshot.Lcs.{
  IsPart, done, skip, take, lcs, lcs-IsPart, length-le-lcs,
}
use agent_action_visualizer.Diff.Snapshot.Table.{common_lines-lcs}

abbrev pub summary : ℕ → ℕ → Status
summary a d = if a == 0 && d == 0 then Status.empty else Status.known

summary-empty : (a d : ℕ) → summary a d ≡ Status.empty → (a ≡ 0) × (d ≡ 0)
summary-empty a d e = ground arith

delta-exact :
    (left right common : ℕ)
    → common ≤ left
    → common ≤ right
    → delta left right common
      ≡ (pos (right - common), pos (left - common), summary (right - common) (left - common))
unfolding delta
delta-exact left right common h k = ground arith

length-IsPart : {zs ys : List Text} → IsPart zs ys → length zs ≤ length ys
length-IsPart done = omega arith
length-IsPart (skip y p) = omega (arith, length-IsPart p)
length-IsPart (take y p) = omega (arith, length-IsPart p)

IsPart-full : {zs ys : List Text} → IsPart zs ys → length zs ≡ length ys → zs ≡ ys
IsPart-full done e = refl
IsPart-full (skip y p) e = absurd (omega (arith, length-IsPart p))
IsPart-full (take y p) e = ap (◌∷◌ y) (IsPart-full p (omega arith))

IsPart-refl : (ys : List Text) → IsPart ys ys
IsPart-refl [] = done
IsPart-refl (y ∷ ys) = take y (IsPart-refl ys)

lcs-le-length : (xs ys : List Text) → (lcs xs ys ≤ length xs) × (lcs xs ys ≤ length ys)
lcs-le-length xs ys =
    let (zs, p, q, n) = lcs-IsPart xs ys in
    (omega (arith, n, length-IsPart p), omega (arith, n, length-IsPart q))

module _ (left right : List Text) (small : length left * length right ≤ max_snapshot_cells) where
  count_lines-lcs : count_lines left right ≡ (
    pos (length right - lcs left right),
    pos (length left - lcs left right),
    summary (length right - lcs left right) (length left - lcs left right),
  )
  unfolding count_lines
  count_lines-lcs =
      let bounds = lcs-le-length left right in
      let exact = delta-exact (length left) (length right) (lcs left right) bounds.0 bounds.1 in
      ground (arith, small, common_lines-lcs left right, exact)

  -- Within the limit on cells some lines common to both snapshots, in order, are such that the
  -- lines reported as added are the others of the new snapshot, and those reported as deleted the
  -- others of the old one.
  pub count_lines_attained :
      (zs : List Text) × IsPart zs left
      × IsPart zs right
      × (count_lines left right ≡ (
        pos (length right - length zs),
        pos (length left - length zs),
        summary (length right - length zs) (length left - length zs),
      ))
  count_lines_attained =
      let (zs, p, q, n) = lcs-IsPart left right in (zs, p, q, rw n count_lines-lcs)

  -- Within the limit on cells no lines common to both snapshots, in order, make do with fewer added
  -- or deleted lines than are reported.
  pub count_lines_minimal :
      (zs : List Text) (a d : ℕ) (s : Status)
      → IsPart zs left
      → IsPart zs right
      → count_lines left right ≡ (pos a, pos d, s)
      → (a ≤ length right - length zs) × (d ≤ length left - length zs)
  count_lines_minimal zs a d s p q e =
      let bound = length-le-lcs left right zs p q in ground (arith, count_lines-lcs, e, bound)

  -- Within the limit on cells the status is `empty` exactly when the two snapshots have the same
  -- lines.
  pub count_lines-empty_iff : ((count_lines left right).2 ≡ Status.empty) ↔ (left ≡ right)
  count_lines-empty_iff =
      (same, λ e. rw count_lines-lcs (ground (arith, ap length e, whole e, bounds.0)))
    where
      bounds : (lcs left right ≤ length left) × (lcs left right ≤ length right)
      bounds = lcs-le-length left right

      whole : left ≡ right → length right ≤ lcs left right
      whole e =
          length-le-lcs left right right (subst (IsPart right) (sym e) (IsPart-refl right))
            (IsPart-refl right)

      same : (count_lines left right).2 ≡ Status.empty → left ≡ right
      same e =
          let (zs, p, q, n) = lcs-IsPart left right in
          let none_left =
            summary-empty (length right - lcs left right) (length left - lcs left right)
              (ground (arith, count_lines-lcs, e)) in
          sym (IsPart-full p (omega (arith, n, none_left.1, bounds.0)))
          ∙ IsPart-full q (omega (arith, n, none_left.0, bounds.1))
