-- ===== src/Diff/Pipeline/Keys.antt =====
-- No key is worked on twice at a time (internal/diff/pipeline.go).
use mathlib.Core.List.{append-nil}
use agent_action_visualizer.Prelude.Keys.{
  count, count-remove_key, hit, has_key, count-insert, has_key-count, count-append, remove_key,
}
use agent_action_visualizer.Diff.Pipeline.{
  Pipeline, new_pipeline, reserve, accept, refuse, copy_request, evict, remember, complete,
}
use agent_action_visualizer.Diff.Request.{Request, DeltaResult}
use agent_action_visualizer.Prelude.{
  ℕ, ◌+◌, ◌≤◌, ◌≡◌, refl, ap, inl, inr, false, ◌||◌, List, [], ◌∷◌, ◌++◌, map, arith, Bool-cases,
  Text, is_empty, text_eq_iff, ℤ, true, leb, suc, text_eq_refl, length,
}

abbrev pub keys : List Request → List Text
keys rs = map (λ r. r.key) rs

-- How often a key is in work.
abbrev pub work : Text → Pipeline → ℕ
work k p =
    count k (keys p.offering)
    + count k (keys p.queue)
    + count k (keys p.batch)
    + count k p.publishing

-- Until Close the pending keys are those in work, each once; afterwards they cover them. None of
-- them is recent, and the recent keys are those of the order, each once.
pub record IsTracked (p : Pipeline) : Type 0 where
  pub covered : (k : Text) → work k p ≤ count k p.pending
  pub exact : p.cancelled ≡ false → (k : Text) → work k p ≡ count k p.pending
  pub once : (k : Text) → count k p.pending + count k p.order ≤ 1
  pub known : (k : Text) → count k p.recent ≡ count k p.order

keys-append : (xs ys : List Request) → keys (xs ++ ys) ≡ keys xs ++ keys ys
keys-append [] ys = refl
keys-append (x ∷ xs) ys = ap (◌∷◌ x.key) (keys-append xs ys)

count-keys-insert :
    (k : Text) (r : Request) (xs ys : List Request)
    → count k (keys (xs ++ r ∷ ys)) ≡ hit r.key k + count k (keys (xs ++ ys))
count-keys-insert k r xs ys =
    rw (keys-append xs (r ∷ ys), keys-append xs ys) (count-insert k r.key (keys xs) (keys ys))

count-keys-back :
    (k : Text) (r : Request) (xs : List Request)
    → count k (keys (xs ++ r ∷ [])) ≡ hit r.key k + count k (keys xs)
count-keys-back k r xs = rw (count-keys-insert k r xs []) (rw (append-nil xs) refl)

pub new_pipeline-IsTracked :
    (capacity batch_size : ℤ) → IsTracked (new_pipeline capacity batch_size)
unfolding new_pipeline count
new_pipeline-IsTracked capacity batch_size = record {
  covered = λ k. omega arith;
  exact = λ e k. refl;
  once = λ k. omega arith;
  known = λ k. refl;
}

pub reserve-IsTracked : (p : Pipeline) (r : Request) → IsTracked p → IsTracked (reserve p r).0
unfolding reserve copy_request count
reserve-IsTracked p r t = elim (Bool-cases (is_empty r.key)) [
  | inl none_given ↦ rw none_given t
  | inr named ↦ rw named (elim (Bool-cases (has_key r.key p.pending || has_key r.key p.recent)) [
    | inl known ↦
        rw known (record { covered = t.covered; exact = t.exact; once = t.once; known = t.known })
    | inr new ↦ rw new (record {
      covered = λ k. ground (arith, t.covered k);
      exact = λ e k. ground (arith, t.exact e k);
      once = λ k. ground (
        arith,
        t.once k,
        t.known k,
        text_eq_iff r.key k,
        has_key-count k p.pending,
        has_key-count k p.recent,
      );
      known = t.known;
    })
  ])
]

pub accept-IsTracked :
    (p : Pipeline) (xs ys : List Request) (r : Request)
    → p.offering ≡ xs ++ r ∷ ys
    → IsTracked p
    → IsTracked (accept (record p { offering = xs ++ ys }) r)
unfolding accept
accept-IsTracked p xs ys r e t = record {
  covered = λ k.
      ground
        (arith, t.covered k, count-keys-back k r p.queue, ap keys e, count-keys-insert k r xs ys);
  exact = λ live k.
      ground (
        arith,
        t.exact live k,
        count-keys-back k r p.queue,
        ap keys e,
        count-keys-insert k r xs ys,
      );
  once = t.once;
  known = t.known;
}

pub refuse-IsTracked :
    (p : Pipeline) (xs ys : List Request) (r : Request)
    → p.offering ≡ xs ++ r ∷ ys
    → IsTracked p
    → IsTracked (refuse (record p { offering = xs ++ ys }) r)
unfolding refuse
refuse-IsTracked p xs ys r e t = record {
  covered = λ k. ground (
    arith,
    t.covered k,
    t.once k,
    count-remove_key r.key k p.pending,
    ap keys e,
    count-keys-insert k r xs ys,
  );
  exact = λ live k. ground (
    arith,
    t.exact live k,
    t.once k,
    count-remove_key r.key k p.pending,
    ap keys e,
    count-keys-insert k r xs ys,
  );
  once = λ k. ground (arith, t.once k, count-remove_key r.key k p.pending);
  known = t.known;
}

evict-IsTracked :
    (p : Pipeline) (order : List Text) → p.order ≡ order → IsTracked p → IsTracked (evict p order)
unfolding evict count
evict-IsTracked p [] e t = t
evict-IsTracked p (oldest ∷ order) e t = elim (Bool-cases (leb (suc (length order)) p.max_recent)) [
  | inl fits ↦ rw fits t
  | inr full ↦ rw full (record {
    covered = t.covered;
    exact = t.exact;
    once = λ k. ground (arith, t.once k, e);
    known = λ k. ground (arith, t.once k, t.known k, e, count-remove_key oldest k p.recent);
  })
]

remember-IsTracked :
    (p : Pipeline) (key : Text) → IsTracked p → count key p.pending ≡ 0 → IsTracked (remember p key)
unfolding remember count
remember-IsTracked p key t gone = elim (Bool-cases (has_key key p.recent)) [
  | inl known ↦ rw known t
  | inr new ↦ rw new (
      evict-IsTracked (record p { recent = key ∷ p.recent; order = p.order ++ key ∷ [] })
        (p.order ++ key ∷ []) refl
        (record {
          covered = t.covered;
          exact = t.exact;
          once = λ k. ground (
            arith,
            gone,
            t.once k,
            t.known k,
            text_eq_iff key k,
            has_key-count key p.recent,
            count-append k p.order (key ∷ []),
          );
          known = λ k. ground (arith, t.known k, count-append k p.order (key ∷ []));
        }))
]

pub complete-IsTracked :
    (p : Pipeline) (xs ys : List Text) (key : Text)
    → p.publishing ≡ xs ++ key ∷ ys
    → IsTracked p
    → IsTracked (complete (record p { publishing = xs ++ ys }) key)
unfolding complete
complete-IsTracked p xs ys key e t =
    let forgotten = record p { publishing = xs ++ ys; pending = remove_key key p.pending } in
    let kept =
      remember-IsTracked forgotten key
        (record {
          covered = λ k. ground (
            arith,
            t.covered k,
            t.once k,
            count-remove_key key k p.pending,
            e,
            count-insert k key xs ys,
          );
          exact = λ live k. ground (
            arith,
            t.exact live k,
            t.once k,
            count-remove_key key k p.pending,
            e,
            count-insert k key xs ys,
          );
          once = λ k. ground (arith, t.once k, count-remove_key key k p.pending);
          known = t.known;
        })
        (ground (arith, count-remove_key key key p.pending, text_eq_refl key)) in
    record { covered = kept.covered; exact = kept.exact; once = kept.once; known = kept.known }

pub receive-IsTracked :
    (p : Pipeline) (r : Request) (rs : List Request)
    → p.queue ≡ r ∷ rs
    → IsTracked p
    → IsTracked (record p { queue = rs; batch = p.batch ++ r ∷ [] })
unfolding count
receive-IsTracked p r rs e t = record {
  covered = λ k. ground (arith, t.covered k, ap keys e, count-keys-back k r p.batch);
  exact = λ live k. ground (arith, t.exact live k, ap keys e, count-keys-back k r p.batch);
  once = t.once;
  known = t.known;
}

pub answer-IsTracked :
    (p : Pipeline) (xs ys : List Request) (r : Request) (out : DeltaResult)
    → p.batch ≡ xs ++ r ∷ ys
    → out.key ≡ r.key
    → IsTracked p
    → IsTracked (record p {
      batch = xs ++ ys;
      results = p.results ++ out ∷ [];
      publishing = out.key ∷ p.publishing;
    })
unfolding count
answer-IsTracked p xs ys r out e same t = record {
  covered = λ k. ground (arith, t.covered k, ap keys e, same, count-keys-insert k r xs ys);
  exact = λ live k. ground (arith, t.exact live k, ap keys e, same, count-keys-insert k r xs ys);
  once = t.once;
  known = t.known;
}

pub abandon-IsTracked :
    (p : Pipeline) (xs ys : List Request) (r : Request)
    → p.batch ≡ xs ++ r ∷ ys
    → p.cancelled ≡ true
    → IsTracked p
    → IsTracked (record p { batch = xs ++ ys })
abandon-IsTracked p xs ys r e shut t = record {
  covered = λ k. ground (arith, t.covered k, ap keys e, count-keys-insert k r xs ys);
  exact = λ live k. cc;
  once = t.once;
  known = t.known;
}
