-- ===== src/Diff/Pipeline.antt =====
-- The diff pipeline's bookkeeping of keys (internal/diff/pipeline.go), as a step relation. A step is
-- one critical section of the mutex, with the channel operation that it reports where there is one.
pub mod Keys
pub mod Tracking
pub mod Bounds
pub mod Totals
use agent_action_visualizer.Prelude.{
  ℕ, suc, ◌+◌, ◌*◌, ◌≤◌, ◌<◌, max, ◌≡◌, ◌⊎◌, Bool, true, false, ◌||◌, Option, none, some, List, [],
  ◌∷◌, ◌++◌, leb, if◌then◌else◌, length, Text, is_empty, ℤ, pos, pos_part, ltb_ℤ,
}
use agent_action_visualizer.Prelude.Int.{inc}
use agent_action_visualizer.Prelude.Keys.{has_key, remove_key}
use agent_action_visualizer.Diff.Request.{Request, DeltaResult}

pub data SubmitOutcome : Type 0 where
  accepted duplicate dropped : SubmitOutcome

pub record Stats : Type 0 where
  pub accepted : ℕ
  pub dropped : ℕ
  pub duplicates : ℕ
  pub completed : ℕ

-- The fields of the source, and where the requests in work stand: in a call of Offer that is past
-- its first critical section (`offering`), in the channel `queue`, in the batch of the worker, or
-- answered on the channel `results` and about to be forgotten (`publishing`, their keys). `counting`
-- calls of Offer have sent and not counted it. The sets
-- `pending` and `recent` are lists of keys.
pub record Pipeline : Type 0 where
  pub capacity : ℕ
  pub batch_size : ℕ
  pub max_recent : ℕ
  pub cancelled : Bool
  pub offering : List Request
  pub queue : List Request
  pub counting : ℕ
  pub batch : List Request
  pub publishing : List Text
  pub results : List DeltaResult
  pub pending : List Text
  pub recent : List Text
  pub order : List Text
  pub stats : Stats

abbrev at_least_one : ℤ → ℕ
at_least_one n = if ltb_ℤ n (pos 1) then 1 else pos_part n

unfoldable pub new_pipeline : ℤ → ℤ → Pipeline
new_pipeline capacity batch_size = record {
  capacity = at_least_one capacity;
  batch_size = at_least_one batch_size;
  max_recent = max 64 (at_least_one capacity * 4);
  cancelled = false;
  offering = [];
  queue = [];
  counting = 0;
  batch = [];
  publishing = [];
  results = [];
  pending = [];
  recent = [];
  order = [];
  stats = record { accepted = 0; dropped = 0; duplicates = 0; completed = 0 };
}

-- append([]byte(nil), b...), which is nil when there is nothing to copy.
unfoldable pub copy_bytes : Option Text → Option Text
copy_bytes (some []) = none
copy_bytes b = b

unfoldable pub copy_request : Request → Request
unfolding copy_bytes
copy_request r = record r { before = copy_bytes r.before; after = copy_bytes r.after }

-- Offer up to its select: `none` when it goes on to that.
unfoldable pub reserve : Pipeline → Request → Pipeline × Option SubmitOutcome
unfolding copy_request
reserve p r =
    if is_empty r.key
    then (p, some SubmitOutcome.dropped)
    else if has_key r.key p.pending || has_key r.key p.recent
    then (
      record p { stats = record (p.stats) { duplicates = inc p.stats.duplicates } },
      some SubmitOutcome.duplicate,
    )
    else (record p { pending = r.key ∷ p.pending; offering = copy_request r ∷ p.offering }, none)

-- The case of the select that sends the request.
unfoldable pub accept : Pipeline → Request → Pipeline
accept p r = record p { queue = p.queue ++ r ∷ []; counting = p.counting + 1 }

-- What follows in that case: `n` other calls have yet to do it.
unfoldable pub note_accepted : Pipeline → ℕ → Pipeline
note_accepted p n = record p {
  counting = n;
  stats = record (p.stats) { accepted = inc p.stats.accepted };
}

-- The two cases of the select that drop it.
unfoldable pub refuse : Pipeline → Request → Pipeline
refuse p r = record p {
  pending = remove_key r.key p.pending;
  stats = record (p.stats) { dropped = inc p.stats.dropped };
}

-- rememberLocked's last statements: with one key too many the oldest is forgotten.
unfoldable pub evict : Pipeline → List Text → Pipeline
evict p [] = p
evict p (oldest ∷ order) =
    if leb (suc (length order)) p.max_recent
    then p
    else record p { order = order; recent = remove_key oldest p.recent }

unfoldable pub remember : Pipeline → Text → Pipeline
unfolding evict
remember p key =
    let order = p.order ++ key ∷ [] in
    if has_key key p.recent
    then p
    else evict (record p { recent = key ∷ p.recent; order = order }) order

-- What publish does once the result is sent.
unfoldable pub complete : Pipeline → Text → Pipeline
complete p key =
    let q = remember (record p { pending = remove_key key p.pending }) key in
    record q { stats = record (q.stats) { completed = inc q.stats.completed } }

-- Requests are answered in any order, as process ranges over a map of groups, each with a result of
-- its own key; after Close an answer may be lost. A batch may grow here while it is answered, which
-- the code does not do.
pub data Step : Pipeline → Pipeline → Type 0 where
  offers : (p : Pipeline) (r : Request) → Step p (reserve p r).0
  accepts :
      (p : Pipeline) (xs ys : List Request) (r : Request)
      → p.offering ≡ xs ++ r ∷ ys
      → length p.queue < p.capacity
      → Step p (accept (record p { offering = xs ++ ys }) r)
  counts : (p : Pipeline) (n : ℕ) → p.counting ≡ suc n → Step p (note_accepted p n)
  refuses :
      (p : Pipeline) (xs ys : List Request) (r : Request)
      → p.offering ≡ xs ++ r ∷ ys
      → (p.cancelled ≡ true) ⊎ (p.capacity ≤ length p.queue)
      → Step p (refuse (record p { offering = xs ++ ys }) r)
  receives :
      (p : Pipeline) (r : Request) (rs : List Request)
      → p.queue ≡ r ∷ rs
      → length p.batch < p.batch_size
      → Step p (record p { queue = rs; batch = p.batch ++ r ∷ [] })
  answers :
      (p : Pipeline) (xs ys : List Request) (r : Request) (out : DeltaResult)
      → p.batch ≡ xs ++ r ∷ ys
      → out.key ≡ r.key
      → length p.results < p.capacity * 2
      → Step p (record p {
        batch = xs ++ ys;
        results = p.results ++ out ∷ [];
        publishing = out.key ∷ p.publishing;
      })
  completes :
      (p : Pipeline) (xs ys : List Text) (key : Text)
      → p.publishing ≡ xs ++ key ∷ ys
      → Step p (complete (record p { publishing = xs ++ ys }) key)
  abandons :
      (p : Pipeline) (xs ys : List Request) (r : Request)
      → p.batch ≡ xs ++ r ∷ ys
      → p.cancelled ≡ true
      → Step p (record p { batch = xs ++ ys })
  reads :
      (p : Pipeline) (out : DeltaResult) (outs : List DeltaResult)
      → p.results ≡ out ∷ outs
      → Step p (record p { results = outs })
  closes : (p : Pipeline) → Step p (record p { cancelled = true })

-- The pipelines that steps lead to.
pub data Reaches (p : Pipeline) : Pipeline → Type 0 where
  at_start : Reaches p p
  then_step : {q r : Pipeline} → Reaches p q → Step q r → Reaches p r
