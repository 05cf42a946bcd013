-- ===== src/Filesystem/Accept.antt =====
-- How a reported change becomes pending: acceptChange and observedPath
-- (internal/adapters/filesystem/observer.go). What the file system answers, and the ignore rules, are
-- parameters.
pub mod Counted
use agent_action_visualizer.Prelude.Int.{next_int}
use agent_action_visualizer.Prelude.Path.{rel, dot_dot, dot, absolute, clean}
use agent_action_visualizer.Filesystem.Change.{
  FileState, Operation, delete_state_tree, PendingChange,
}
use agent_action_visualizer.Prelude.Dict.{Dict, lookup, put}
use agent_action_visualizer.Prelude.{
  ℕ, suc, ◌+◌, ◌/◌, ◌%◌, ◌^◌, Bool, false, ◌&&◌, ◌||◌, Option, none, some, [], ◌∷◌, leb,
  if◌then◌else◌, length, Text, bytes, has_prefix, text_eq, pos, not,
}

-- The maps that the loop of Observe keeps, and its count of dropped changes.
pub record Watch : Type 0 where
  pub max_pending : ℕ
  pub states : Dict FileState
  pub pending : Dict PendingChange
  pub dropped : ℕ

-- fileState{}
abbrev pub no_state : FileState
no_state = record { exists = false; directory = false; size = pos 0; mod_time = pos 0 }

abbrev pub state_or_none : Option FileState → FileState
state_or_none none = no_state
state_or_none (some s) = s

-- op | more
unfoldable pub join_op : Operation → Operation → Operation
join_op op more = record {
  op_create = op.op_create || more.op_create;
  op_write = op.op_write || more.op_write;
  op_remove = op.op_remove || more.op_remove;
  op_rename = op.op_rename || more.op_rename;
  op_chmod = op.op_chmod || more.op_chmod;
}

-- Whether the path, which is absolute and clean, is one of the project's that is not ignored.
unfoldable pub is_observed : (Text → Bool) → Text → Text → Bool
is_observed ignored root path = elim (rel root path) [
  | none ↦ false
  | some relative ↦
      not (text_eq relative dot_dot || has_prefix relative (bytes "../"))
      && not (text_eq relative dot || ignored relative)
]

-- The path if it is to be observed. The first argument is what os.Getwd answers.
unfoldable pub observed_path : Option Text → (Text → Bool) → Text → Text → Option Text
unfolding is_observed
observed_path working_directory ignored root candidate =
    elim (absolute working_directory candidate) [
      | none ↦ none
      | some abs ↦ let path = clean abs in if is_observed ignored root path then some path else none
    ]

-- The assignments to `current`.
unfoldable pub touch_change : Operation → FileState → ℕ → PendingChange → PendingChange
unfolding next_int
touch_change op after at item = record item {
  op = join_op item.op op;
  after = after;
  last = at;
  count = next_int item.count;
}

unfoldable pub new_change : Text → FileState → ℕ → PendingChange
new_change path before at = record {
  path = path;
  op = record {
    op_create = false;
    op_write = false;
    op_remove = false;
    op_rename = false;
    op_chmod = false;
  };
  before = before;
  after = no_state;
  first = at;
  last = 0;
  count = pos 0;
}

-- dropped.Add(1)
unfoldable pub note_lost : Watch → Watch
note_lost w = record w { dropped = (w.dropped + 1) % 2 ^ 64 }

unfoldable pub note_change : Watch → Text → Operation → FileState → FileState → ℕ → Watch
unfolding touch_change new_change note_lost
note_change w path op before after at = elim (lookup path w.pending) [
  | some item ↦ record w { pending = put path (touch_change op after at item) w.pending }
  | none ↦ if leb w.max_pending (length w.pending) then note_lost w else record w {
    pending = put path (touch_change op after at (new_change path before at)) w.pending;
  }
]

-- The states of a new directory's tree.
unfoldable pub add_states : Option (Dict FileState) → Dict FileState → Dict FileState
add_states none states = states
add_states (some []) states = states
add_states (some ((child, s) ∷ added)) states = add_states (some added) (put child s states)

unfoldable pub note_state : Dict FileState → Text → FileState → FileState → Dict FileState
unfolding delete_state_tree
note_state states path before after =
    if after.exists then put path after states else delete_state_tree states path before.directory

-- `after` is what statState answers for the path, `symlink` whether it is a symbolic link, and
-- `added` what watchTree answers.
unfoldable pub accept_change :
    Option Text
    → (Text → Bool)
    → Text
    → Watch
    → Text
    → Operation
    → ℕ
    → FileState
    → Bool
    → Option (Dict FileState)
    → Watch
unfolding observed_path add_states note_state note_change
accept_change working_directory ignored root w candidate op at after symlink added =
    elim (observed_path working_directory ignored root candidate) [
      | none ↦ w
      | some path ↦
          if after.exists && symlink
          then w
          else (let before = state_or_none (lookup path w.states) in
              let grown =
                if op.op_create && after.directory then add_states added w.states else w.states in
              note_change (record w { states = note_state grown path before after }) path op before
                after at)
    ]
