-- ===== src/Diff/Pipeline/Bounds.antt =====
-- The sizes and the counters of the diff pipeline (internal/diff/pipeline.go).
use agent_action_visualizer.Diff.Pipeline.Keys.{IsTracked}
use agent_action_visualizer.Diff.Pipeline.Tracking.{Reaches-IsTracked}
use agent_action_visualizer.Prelude.Keys.{
  count, length-remove_key, has_key, has_key-count, count-append, remove_key,
}
use agent_action_visualizer.Diff.Request.{Request}
use agent_action_visualizer.Diff.Pipeline.{
  at_start, counts, note_accepted, Pipeline, new_pipeline, reserve, accept, refuse, evict, remember,
  complete, Step, Reaches, offers, then_step, accepts, refuses, receives, answers, completes,
  abandons, reads, closes,
}
use agent_action_visualizer.Prelude.{
  inl, inr, ◌+◌, ◌*◌, ◌≤◌, ◌<◌, ◌≡◌, refl, ap, List, [], ◌∷◌, arith, length, length-append, Text,
  text_eq_refl, ℤ, pos, negsuc, Bool-cases, ◌++◌, text_eq_iff,
}

-- The channels are within their buffers, and the two forms of the recent keys agree and are bounded.
pub record IsBounded (p : Pipeline) : Type 0 where
  pub some_room : 1 ≤ p.capacity
  pub queued : length p.queue ≤ p.capacity
  pub unread : length p.results ≤ p.capacity * 2
  pub remembered : length p.order ≤ p.max_recent
  pub same_size : length p.recent ≡ length p.order

new_pipeline-IsBounded : (capacity batch_size : ℤ) → IsBounded (new_pipeline capacity batch_size)
unfolding new_pipeline
new_pipeline-IsBounded (pos n) batch_size = record {
  some_room = ground arith;
  queued = omega arith;
  unread = omega arith;
  remembered = omega arith;
  same_size = refl;
}
new_pipeline-IsBounded (negsuc n) batch_size = record {
  some_room = ground arith;
  queued = omega arith;
  unread = omega arith;
  remembered = omega arith;
  same_size = refl;
}

reserve-IsBounded : (p : Pipeline) (r : Request) → IsBounded p → IsBounded (reserve p r).0
unfolding reserve
reserve-IsBounded p r b = record {
  some_room = ground (arith, b.some_room);
  queued = ground (arith, b.queued);
  unread = ground (arith, b.unread);
  remembered = ground (arith, b.remembered);
  same_size = ground (arith, b.same_size);
}

accept-IsBounded :
    (p : Pipeline) (offering : List Request) (r : Request)
    → length p.queue < p.capacity
    → IsBounded p
    → IsBounded (accept (record p { offering = offering }) r)
unfolding accept
accept-IsBounded p offering r room b = record {
  some_room = b.some_room;
  queued = omega (arith, room, length-append p.queue (r ∷ []));
  unread = b.unread;
  remembered = b.remembered;
  same_size = b.same_size;
}

refuse-IsBounded :
    (p : Pipeline) (offering : List Request) (r : Request)
    → IsBounded p
    → IsBounded (refuse (record p { offering = offering }) r)
unfolding refuse
refuse-IsBounded p offering r b = record {
  some_room = b.some_room;
  queued = b.queued;
  unread = b.unread;
  remembered = b.remembered;
  same_size = b.same_size;
}

-- Each remembered key stands once in the order and once in the set.
abbrev IsListed : Pipeline → Type 0
IsListed p = (k : Text) → (count k p.recent ≡ count k p.order) × (count k p.order ≤ 1)

evict-sizes :
    (p : Pipeline) (order : List Text)
    → p.order ≡ order
    → IsListed p
    → length order ≤ p.max_recent + 1
    → length p.recent ≡ length order
    → (length (evict p order).order ≤ p.max_recent)
      × (length (evict p order).recent ≡ length (evict p order).order)
unfolding evict count
evict-sizes p [] e listed short same = ground (arith, ap length e)
evict-sizes p (oldest ∷ order) e listed short same =
    ground
      (arith, ap length e, e, listed oldest, text_eq_refl oldest, length-remove_key oldest p.recent)

-- What remember leaves as it is.
evict-frame :
    (p : Pipeline) (order : List Text)
    → ((evict p order).capacity ≡ p.capacity)
      × ((evict p order).queue ≡ p.queue)
      × ((evict p order).results ≡ p.results)
      × ((evict p order).max_recent ≡ p.max_recent)
unfolding evict
evict-frame p [] = (refl, refl, refl, refl)
evict-frame p (oldest ∷ order) = ground arith

evict-IsBounded :
    (p : Pipeline) (order : List Text)
    → p.order ≡ order
    → IsListed p
    → IsBounded (record p { order = []; recent = [] })
    → length order ≤ p.max_recent + 1
    → length p.recent ≡ length order
    → IsBounded (evict p order)
evict-IsBounded p order e listed b short same =
    let frame = evict-frame p order in
    let sizes = evict-sizes p order e listed short same in
    record {
      some_room = ground (arith, frame, b.some_room);
      queued = ground (arith, frame, b.queued);
      unread = ground (arith, frame, b.unread);
      remembered = ground (arith, frame, sizes.0);
      same_size = sizes.1;
    }

remember-IsBounded :
    (p : Pipeline) (key : Text) → IsListed p → IsBounded p → IsBounded (remember p key)
unfolding remember count
remember-IsBounded p key listed b = elim (Bool-cases (has_key key p.recent)) [
  | inl known ↦ rw known b
  | inr new ↦ rw new (
      evict-IsBounded (record p { recent = key ∷ p.recent; order = p.order ++ key ∷ [] })
        (p.order ++ key ∷ []) refl
        (λ k. ground (
          arith,
          listed k,
          text_eq_iff key k,
          has_key-count key p.recent,
          count-append k p.order (key ∷ []),
        ))
        (record {
          some_room = b.some_room;
          queued = b.queued;
          unread = b.unread;
          remembered = omega arith;
          same_size = refl;
        })
        (omega (arith, b.remembered, length-append p.order (key ∷ [])))
        (omega (arith, b.same_size, length-append p.order (key ∷ []))))
]

complete-IsBounded :
    (p : Pipeline) (publishing : List Text) (key : Text)
    → IsListed p
    → IsBounded p
    → IsBounded (complete (record p { publishing = publishing }) key)
unfolding complete
complete-IsBounded p publishing key listed b =
    let kept =
      remember-IsBounded (record p { publishing = publishing; pending = remove_key key p.pending })
        key listed
        (record {
          some_room = b.some_room;
          queued = b.queued;
          unread = b.unread;
          remembered = b.remembered;
          same_size = b.same_size;
        }) in
    record {
      some_room = kept.some_room;
      queued = kept.queued;
      unread = kept.unread;
      remembered = kept.remembered;
      same_size = kept.same_size;
    }

IsTracked-IsListed : (p : Pipeline) → IsTracked p → IsListed p
IsTracked-IsListed p t = λ k. (t.known k, omega (arith, t.once k))

Step-IsBounded : {p q : Pipeline} → Step p q → IsTracked p → IsBounded p → IsBounded q
Step-IsBounded (offers p r) t b = reserve-IsBounded p r b
Step-IsBounded (accepts p xs ys r e room) t b = accept-IsBounded p (xs ++ ys) r room b
Step-IsBounded (counts p n e) t b =
    unfold note_accepted in
    record {
      some_room = b.some_room;
      queued = b.queued;
      unread = b.unread;
      remembered = b.remembered;
      same_size = b.same_size;
    }
Step-IsBounded (refuses p xs ys r e why) t b = refuse-IsBounded p (xs ++ ys) r b
Step-IsBounded (receives p r rs e room) t b = record {
  some_room = b.some_room;
  queued = omega (arith, b.queued, ap length e);
  unread = b.unread;
  remembered = b.remembered;
  same_size = b.same_size;
}
Step-IsBounded (answers p xs ys r out e same room) t b = record {
  some_room = b.some_room;
  queued = b.queued;
  unread = omega (arith, room, length-append p.results (out ∷ []));
  remembered = b.remembered;
  same_size = b.same_size;
}
Step-IsBounded (completes p xs ys key e) t b =
    complete-IsBounded p (xs ++ ys) key (IsTracked-IsListed p t) b
Step-IsBounded (abandons p xs ys r e shut) t b = record {
  some_room = b.some_room;
  queued = b.queued;
  unread = b.unread;
  remembered = b.remembered;
  same_size = b.same_size;
}
Step-IsBounded (reads p out outs e) t b = record {
  some_room = b.some_room;
  queued = b.queued;
  unread = omega (arith, b.unread, ap length e);
  remembered = b.remembered;
  same_size = b.same_size;
}
Step-IsBounded (closes p) t b = record {
  some_room = b.some_room;
  queued = b.queued;
  unread = b.unread;
  remembered = b.remembered;
  same_size = b.same_size;
}

-- Whatever steps lead from a new pipeline, the capacity is at least one, the queue and the results
-- are within their buffers, at most maxRecent keys are remembered, and the set and the order of
-- them have one size.
pub Reaches-IsBounded :
    (capacity batch_size : ℤ) (p : Pipeline)
    → Reaches (new_pipeline capacity batch_size) p
    → IsBounded p
Reaches-IsBounded capacity batch_size p at_start = new_pipeline-IsBounded capacity batch_size
Reaches-IsBounded capacity batch_size p (then_step {q = q} reached step) =
    Step-IsBounded step (Reaches-IsTracked capacity batch_size q reached)
      (Reaches-IsBounded capacity batch_size q reached)
