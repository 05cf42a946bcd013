-- ===== src/Session/Interval.antt =====
-- Access intervals (internal/session/engine.go): the record, the current interval, and its closing.
pub mod Chain
pub mod Order
use agent_action_visualizer.Diff.Kinds.{Status, Source}
use agent_action_visualizer.Prelude.Time.{sub_time}
use agent_action_visualizer.Prelude.{
  ℕ, ◌+◌, ℤ, Text, Bool, Option, none, some, List, [], ◌∷◌, ◌++◌, ltb, text_eq, is_empty,
  if◌then◌else◌,
}
use agent_action_visualizer.Protocol.Event.{Confidence, SourceType, Event}

pub record AccessInterval : Type 0 where
  pub sequence : ℕ
  pub node_id : Text
  pub path : Text
  pub started_at : ℕ
  pub ended_at : Option ℕ
  pub duration : ℤ
  pub operations : List Text
  pub source : SourceType
  pub confidence : Confidence
  pub agent_id : Text
  pub lines_added : Option ℤ
  pub lines_deleted : Option ℤ
  pub work_status : Status
  pub work_source : Source
  pub work_confidence : Confidence

-- The last interval, to which the program holds a pointer.
unfoldable pub current : List AccessInterval → Option AccessInterval
current [] = none
current (c ∷ []) = some c
current (c ∷ d ∷ cs) = current (d ∷ cs)

-- A write through that pointer.
unfoldable pub set_current :
    (AccessInterval → AccessInterval) → List AccessInterval → List AccessInterval
set_current f [] = []
set_current f (c ∷ []) = f c ∷ []
set_current f (c ∷ d ∷ cs) = c ∷ set_current f (d ∷ cs)

-- The end that closeCurrent gives an interval: not past the idle limit, not before the start.
unfoldable pub closing_time : ℕ → ℕ → ℕ → ℕ
closing_time idle started at =
    let capped = (if ltb (started + idle) at then started + idle else at) in
    if ltb capped started then started else capped

unfoldable pub close : ℕ → ℕ → AccessInterval → AccessInterval
unfolding closing_time
close idle at c = record c {
  ended_at = some (closing_time idle c.started_at at);
  duration = sub_time (closing_time idle c.started_at at) c.started_at;
}

unfoldable pub contains : Text → List Text → Bool
contains v [] = Bool.false
contains v (w ∷ ws) = if text_eq w v then Bool.true else contains v ws

unfoldable pub append_unique : List Text → Text → List Text
unfolding contains
append_unique values value =
    if is_empty value
    then values
    else if contains value values
    then values
    else values ++ value ∷ []

abbrev pub or_keep {ℓ} : {A : Type ℓ} → Option A → Option A → Option A
or_keep none old = old
or_keep (some a) old = some a

unfoldable pub merge_delta : AccessInterval → Event → AccessInterval
merge_delta c ev = record c {
  lines_added = or_keep ev.lines_added c.lines_added;
  lines_deleted = or_keep ev.lines_deleted c.lines_deleted;
}

-- The interval literal that Apply appends.
unfoldable pub open_interval : ℕ → Event → AccessInterval
unfolding append_unique
open_interval sequence ev = record {
  sequence = sequence;
  node_id = ev.node_id;
  path = ev.path;
  started_at = ev.timestamp;
  ended_at = none;
  duration = ℤ.pos 0;
  operations = append_unique [] ev.operation;
  source = ev.source_type;
  confidence = ev.source_confidence;
  agent_id = ev.agent_id;
  lines_added = ev.lines_added;
  lines_deleted = ev.lines_deleted;
  work_status = Status.other [];
  work_source = Source.other [];
  work_confidence = Confidence.other [];
}
