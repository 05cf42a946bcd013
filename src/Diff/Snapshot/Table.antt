-- ===== src/Diff/Snapshot/Table.antt =====
-- The two-row table of countSnapshots (internal/diff/pipeline.go) computes longest common
-- subsequences. Its cells speak of prefixes, which are held here in reverse.
use mathlib.Core.List.{append-nil}
use agent_action_visualizer.Prelude.{
  ℕ, suc, ◌+◌, ◌≤◌, max, ◌≡◌, refl, ap, ◌∙◌, subst, List, [], ◌∷◌, ◌++◌, arith, if◌then◌else◌,
  length, Text, text_eq,
}
use agent_action_visualizer.Diff.Snapshot.{
  head_or_zero, fill, fill_rows, zeros, cell_at, common_lines,
}
use agent_action_visualizer.Diff.Snapshot.Lcs.{
  IsPart, done, skip, take, lcs, lcs-IsPart, length-le-lcs,
}

-- xs in reverse, in front of ys.
unfoldable pub rev_append : List Text → List Text → List Text
rev_append [] ys = ys
rev_append (x ∷ xs) ys = rev_append xs (x ∷ ys)

-- The row of a left prefix, from the cell of the right prefix `seen` on.
row : List Text → List Text → List Text → List ℕ
row prefix seen [] = lcs prefix seen ∷ []
row prefix seen (r ∷ right) = lcs prefix seen ∷ row prefix (r ∷ seen) right

head-row : (prefix seen right : List Text) → head_or_zero (row prefix seen right) ≡ lcs prefix seen
unfolding row
head-row prefix seen [] = refl
head-row prefix seen (r ∷ right) = refl

-- From the row of a prefix the inner loop makes the row of the prefix with one line more.
fill-row :
    (line : Text) (prefix seen right : List Text)
    → lcs (line ∷ prefix) seen ∷ fill line right (row prefix seen right) (lcs (line ∷ prefix) seen)
      ≡ row (line ∷ prefix) seen right
unfolding row fill
fill-row line prefix seen [] = refl
fill-row line prefix seen (r ∷ right) =
    let cell : (if text_eq line r
          then lcs prefix seen + 1
          else max (lcs (line ∷ prefix) seen) (head_or_zero (row prefix (r ∷ seen) right)))
        ≡ lcs (line ∷ prefix) (r ∷ seen) =
      rw (head-row prefix (r ∷ seen) right) (unfold lcs in refl) in
    rw cell (ap (◌∷◌ (lcs (line ∷ prefix) seen)) (fill-row line prefix (r ∷ seen) right))

lcs-nil : (prefix : List Text) → lcs prefix [] ≡ 0
unfolding lcs
lcs-nil [] = refl
lcs-nil (x ∷ prefix) = refl

fill_rows-row :
    (left prefix right : List Text)
    → fill_rows left right (row prefix [] right) ≡ row (rev_append left prefix) [] right
unfolding fill_rows rev_append
fill_rows-row [] prefix right = refl
fill_rows-row (line ∷ left) prefix right =
    ap (fill_rows left right) (rw (lcs-nil (line ∷ prefix)) at (fill-row line prefix [] right))
    ∙ fill_rows-row left (line ∷ prefix) right

zeros-row : (seen right : List Text) → zeros (suc (length right)) ≡ row [] seen right
unfolding zeros row lcs
zeros-row seen [] = refl
zeros-row seen (r ∷ right) = ap (◌∷◌ 0) (zeros-row (r ∷ seen) right)

cell_at-row :
    (prefix seen right : List Text)
    → cell_at (length right) (row prefix seen right) ≡ lcs prefix (rev_append right seen)
unfolding cell_at row rev_append
cell_at-row prefix seen [] = refl
cell_at-row prefix seen (r ∷ right) = cell_at-row prefix (r ∷ seen) right

IsPart-rev_append :
    {zs ys : List Text} (ws xs : List Text)
    → IsPart zs ys
    → IsPart ws xs
    → IsPart (rev_append zs ws) (rev_append ys xs)
unfolding rev_append
IsPart-rev_append ws xs done q = q
IsPart-rev_append ws xs (skip y p) q = IsPart-rev_append ws (y ∷ xs) p (skip y q)
IsPart-rev_append ws xs (take y p) q = IsPart-rev_append (y ∷ ws) (y ∷ xs) p (take y q)

length-rev_append : (xs ys : List Text) → length (rev_append xs ys) ≡ length xs + length ys
unfolding rev_append
length-rev_append [] ys = omega arith
length-rev_append (x ∷ xs) ys = omega (arith, length-rev_append xs (x ∷ ys))

rev_append-rev_append :
    (xs ys zs : List Text) → rev_append (rev_append xs ys) zs ≡ rev_append ys (xs ++ zs)
unfolding rev_append
rev_append-rev_append [] ys zs = refl
rev_append-rev_append (x ∷ xs) ys zs = rev_append-rev_append xs (x ∷ ys) zs

lcs-le-reversed : (xs ys : List Text) → lcs xs ys ≤ lcs (rev_append xs []) (rev_append ys [])
lcs-le-reversed xs ys =
    let (zs, p, q, n) = lcs-IsPart xs ys in
    omega (
      arith,
      n,
      length-rev_append zs [],
      length-le-lcs (rev_append xs []) (rev_append ys []) (rev_append zs [])
          (IsPart-rev_append [] [] p done) (IsPart-rev_append [] [] q done),
    )

rev_append_twice : (xs : List Text) → rev_append (rev_append xs []) [] ≡ xs
unfolding rev_append
rev_append_twice xs = rev_append-rev_append xs [] [] ∙ append-nil xs

lcs-reversed : (xs ys : List Text) → lcs (rev_append xs []) (rev_append ys []) ≡ lcs xs ys
lcs-reversed xs ys =
    let back =
      subst
        (λ us.
          lcs (rev_append xs []) (rev_append ys []) ≤ lcs us (rev_append (rev_append ys []) []))
        (rev_append_twice xs) (lcs-le-reversed (rev_append xs []) (rev_append ys [])) in
    let back' =
      subst (λ us. lcs (rev_append xs []) (rev_append ys []) ≤ lcs xs us) (rev_append_twice ys)
        back in
    omega (arith, lcs-le-reversed xs ys, back')

-- The two rows of the code compute the length of a longest common subsequence of the lines.
pub common_lines-lcs : (left right : List Text) → common_lines left right ≡ lcs left right
unfolding common_lines
common_lines-lcs left right =
    rw (zeros-row [] right, fill_rows-row left [] right)
      (cell_at-row (rev_append left []) [] right ∙ lcs-reversed left right)
