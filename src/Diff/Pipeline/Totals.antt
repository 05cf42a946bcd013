-- ===== src/Diff/Pipeline/Totals.antt =====
-- The counters of the diff pipeline (internal/diff/pipeline.go).
use agent_action_visualizer.Prelude.Keys.{has_key, remove_key}
use agent_action_visualizer.Prelude.{
  ℕ, ◌+◌, ◌%◌, ◌^◌, ◌≡◌, refl, ap, inl, inr, false, List, [], ◌∷◌, ◌++◌, arith, Bool-cases, length,
  length-append, Text, ℤ,
}
use agent_action_visualizer.Diff.Pipeline.{
  at_start, abandons, Step, Pipeline, evict, remember, reserve, new_pipeline, accept, Reaches,
  refuse, then_step, complete, offers, accepts, refuses, receives, answers, completes, reads,
  closes, note_accepted, counts,
}
use agent_action_visualizer.Prelude.Int.{inc}

-- The requests that were accepted and not yet counted as completed.
abbrev pub outstanding : Pipeline → ℕ
outstanding p = length p.queue + length p.batch + length p.publishing

-- Until Close, what is accepted is outstanding or completed, on counters that wrap.
abbrev IsAccounted : Pipeline → Type 0
IsAccounted p =
    p.cancelled ≡ false
    → (p.stats.accepted + p.counting) % 2 ^ 64 ≡ (p.stats.completed + outstanding p) % 2 ^ 64

length-insert :
    {A : Type 0} (x : A) (xs ys : List A) → length (xs ++ x ∷ ys) ≡ length (xs ++ ys) + 1
length-insert x xs ys = omega (arith, length-append xs (x ∷ ys), length-append xs ys)

abbrev IsSameWork : Pipeline → Pipeline → Type 0
IsSameWork p q =
    (q.cancelled ≡ p.cancelled)
    × (q.counting ≡ p.counting)
    × (q.queue ≡ p.queue)
    × (q.batch ≡ p.batch)
    × (q.publishing ≡ p.publishing)
    × (q.stats ≡ p.stats)

evict-IsSameWork : (p : Pipeline) (order : List Text) → IsSameWork p (evict p order)
unfolding evict
evict-IsSameWork p [] = (refl, refl, refl, refl, refl, refl)
evict-IsSameWork p (oldest ∷ order) = ground arith

remember-IsSameWork : (p : Pipeline) (key : Text) → IsSameWork p (remember p key)
unfolding remember
remember-IsSameWork p key = elim (Bool-cases (has_key key p.recent)) [
  | inl known ↦ rw known (refl, refl, refl, refl, refl, refl)
  | inr new ↦ rw new (
      evict-IsSameWork (record p { recent = key ∷ p.recent; order = p.order ++ key ∷ [] })
        (p.order ++ key ∷ []))
]

Step-IsAccounted : {p q : Pipeline} → Step p q → IsAccounted p → IsAccounted q
unfolding reserve accept note_accepted refuse complete inc
Step-IsAccounted (offers p r) a = λ live. ground (arith, a, live)
Step-IsAccounted (accepts p xs ys r e room) a =
    λ live. ground (arith, a live, length-append p.queue (r ∷ []))
Step-IsAccounted (counts p n e) a = λ live. ground (arith, a live)
Step-IsAccounted (refuses p xs ys r e why) a = λ live. a live
Step-IsAccounted (receives p r rs e room) a =
    λ live. ground (arith, a live, ap length e, length-append p.batch (r ∷ []))
Step-IsAccounted (answers p xs ys r out e same room) a =
    λ live. ground (arith, a live, ap length e, length-insert r xs ys)
Step-IsAccounted (completes p xs ys key e) a = λ live. ground (
  arith,
  a,
  live,
  ap length e,
  length-insert key xs ys,
  remember-IsSameWork (record p { publishing = xs ++ ys; pending = remove_key key p.pending }) key,
)
Step-IsAccounted (abandons p xs ys r e shut) a = λ live. cc
Step-IsAccounted (reads p out outs e) a = a
Step-IsAccounted (closes p) a = λ live. cc

-- Until Close, in a pipeline that steps lead to, the requests counted as accepted and those sent
-- but not yet counted are together those counted as completed, those in the queue, those in the
-- batch and those being published, on counters that wrap at 2^64.
pub Reaches-accepted :
    (capacity batch_size : ℤ) (p : Pipeline)
    → Reaches (new_pipeline capacity batch_size) p
    → p.cancelled ≡ false
    → (p.stats.accepted + p.counting) % 2 ^ 64 ≡ (p.stats.completed + outstanding p) % 2 ^ 64
unfolding new_pipeline
Reaches-accepted capacity batch_size p at_start = λ live. omega arith
Reaches-accepted capacity batch_size p (then_step {q = q} reached step) =
    Step-IsAccounted step (Reaches-accepted capacity batch_size q reached)
