-- ===== src/Diff/Pipeline/Tracking.antt =====
-- What holds of the keys after any steps of the diff pipeline (internal/diff/pipeline.go).
use agent_action_visualizer.Diff.Pipeline.Keys.{
  IsTracked, work, reserve-IsTracked, new_pipeline-IsTracked, accept-IsTracked, refuse-IsTracked,
  receive-IsTracked, answer-IsTracked, complete-IsTracked, abandon-IsTracked,
}
use agent_action_visualizer.Prelude.Keys.{count, has_key-count}
use agent_action_visualizer.Diff.Pipeline.{
  at_start, counts, note_accepted, abandons, Pipeline, new_pipeline, reserve, Step, Reaches, offers,
  then_step, accepts, refuses, receives, answers, completes, reads, closes,
}
use agent_action_visualizer.Diff.Request.{Request}
use agent_action_visualizer.Prelude.{◌≡◌, false, arith, is_empty, ℤ, none, ◌↔◌}

Step-IsTracked : {p q : Pipeline} → Step p q → IsTracked p → IsTracked q
Step-IsTracked (offers p r) t = reserve-IsTracked p r t
Step-IsTracked (accepts p xs ys r e room) t = accept-IsTracked p xs ys r e t
Step-IsTracked (counts p n e) t =
    unfold note_accepted in
    record { covered = t.covered; exact = t.exact; once = t.once; known = t.known }
Step-IsTracked (refuses p xs ys r e why) t = refuse-IsTracked p xs ys r e t
Step-IsTracked (receives p r rs e room) t = receive-IsTracked p r rs e t
Step-IsTracked (answers p xs ys r out e same room) t = answer-IsTracked p xs ys r out e same t
Step-IsTracked (completes p xs ys key e) t = complete-IsTracked p xs ys key e t
Step-IsTracked (abandons p xs ys r e shut) t = abandon-IsTracked p xs ys r e shut t
Step-IsTracked (reads p out outs e) t = record {
  covered = t.covered;
  exact = t.exact;
  once = t.once;
  known = t.known;
}
Step-IsTracked (closes p) t = record {
  covered = t.covered;
  exact = λ live k. cc;
  once = t.once;
  known = t.known;
}

-- Whatever steps lead from a new pipeline, the pending keys cover those in work, and until Close
-- they are those in work, each once; no pending key is a recent one, and the recent keys are those
-- of the order, each once.
pub Reaches-IsTracked :
    (capacity batch_size : ℤ) (p : Pipeline)
    → Reaches (new_pipeline capacity batch_size) p
    → IsTracked p
Reaches-IsTracked capacity batch_size p at_start = new_pipeline-IsTracked capacity batch_size
Reaches-IsTracked capacity batch_size p (then_step {q = q} reached step) =
    Step-IsTracked step (Reaches-IsTracked capacity batch_size q reached)

-- Until Close, in a pipeline that steps lead to, Offer goes on to enqueue a request exactly when
-- its key is not empty, is not in work and is not among the remembered ones.
pub reserve-none_iff :
    (capacity batch_size : ℤ) (p : Pipeline) (r : Request)
    → Reaches (new_pipeline capacity batch_size) p
    → p.cancelled ≡ false
    → ((reserve p r).1 ≡ none)
      ↔ ((is_empty r.key ≡ false) × (work r.key p ≡ 0) × (count r.key p.order ≡ 0))
unfolding reserve
reserve-none_iff capacity batch_size p r reached live =
    let t = Reaches-IsTracked capacity batch_size p reached in
    let held = t.exact live r.key in
    let listed = t.known r.key in
    let pending = has_key-count r.key p.pending in
    let recent = has_key-count r.key p.recent in
    (
      λ e. ground (arith, held, listed, pending, recent, e),
      λ e. ground (arith, held, listed, pending, recent, e),
    )
