-- ===== src/Filesystem/Change.antt =====
-- Pending changes of files (internal/adapters/filesystem/observer.go). The bits of an operation are
-- fields of a record.
use agent_action_visualizer.Prelude.Dict.{Dict, delete}
use agent_action_visualizer.Prelude.Path.{same_bool, slash}
use agent_action_visualizer.Prelude.{
  ℕ, Bool, not, ◌&&◌, ◌||◌, Option, none, some, [], ◌∷◌, ◌++◌, if◌then◌else◌, Text, has_prefix, ℤ,
  eqb_ℤ,
}

pub record FileState : Type 0 where
  pub exists : Bool
  pub directory : Bool
  pub size : ℤ
  pub mod_time : ℤ

-- operation, in source.go
pub record Operation : Type 0 where
  pub op_create : Bool
  pub op_write : Bool
  pub op_remove : Bool
  pub op_rename : Bool
  pub op_chmod : Bool

pub record PendingChange : Type 0 where
  pub path : Text
  pub op : Operation
  pub before : FileState
  pub after : FileState
  pub first : ℕ
  pub last : ℕ
  pub count : ℤ

unfoldable pub same_fingerprint : FileState → FileState → Bool
same_fingerprint left right =
    (left.exists && right.exists)
    && (same_bool left.directory right.directory
        && (eqb_ℤ left.size right.size && eqb_ℤ left.mod_time right.mod_time))

unfoldable pub needs_rename_window : PendingChange → Bool
needs_rename_window item =
    (item.op.op_rename || item.op.op_remove) || (item.op.op_create && not item.before.exists)

unfoldable pub byte_pointer : FileState → Option ℤ
byte_pointer s = if not s.exists || s.directory then none else some s.size

-- deleteStateTree
unfoldable pub delete_state_tree : Dict FileState → Text → Bool → Dict FileState
delete_state_tree states path directory =
    if not directory then delete path states else without (path ++ slash ∷ []) (delete path states)
  where
    without : Text → Dict FileState → Dict FileState
    without prefix [] = []
    without prefix ((candidate, s) ∷ rest) =
        let kept = without prefix rest in
        if has_prefix candidate prefix then kept else (candidate, s) ∷ kept
