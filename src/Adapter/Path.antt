-- ===== src/Adapter/Path.antt =====
-- The rule that keeps paths inside the project: NormalizeProjectPath (adapter/go/path.go), on Unix.
-- The file system is a parameter.
pub mod Inside
pub mod Links
use agent_action_visualizer.Prelude.{
  has_prefix, ◌/◌, Bool, true, false, not, ◌||◌, Option, none, some, List, [], ◌∷◌, if◌then◌else◌,
  Result, ok, err, ◌>>=◌, guard, Text, bytes, is_empty, text_eq, ◌>>◌,
}
use agent_action_visualizer.Prelude.Path.{
  is_abs, clean, join, rel, render, slash, split_byte, dot, dot_dot, absolute,
}

pub data Stat : Type 0 where
  missing failed : Stat
  -- Whether it is a symbolic link.
  found : Bool → Stat

-- os.Getwd, os.Lstat and filepath.EvalSymlinks, whose error is `none`.
pub record FileSystem : Type 0 where
  pub working_directory : Option Text
  pub lstat : Text → Stat
  pub eval_symlinks : Text → Option Text

pub data PathError : Type 0 where
  root_required no_working_directory no_relative_path escapes_project : PathError
  uninspected unresolved escapes_by_link : PathError

-- filepath.Abs, whose error is that of os.Getwd.
unfoldable pub absolute_path : FileSystem → Text → Result PathError Text
absolute_path fs path = elim (absolute fs.working_directory path) [
  | none ↦ err no_working_directory
  | some abs ↦ ok abs
]

-- strings.HasPrefix(relative, "../") or the path is ".." or absolute.
unfoldable pub climbs : Text → Bool
unfolding has_prefix
climbs relative = text_eq relative dot_dot || (has_prefix relative (bytes "../") || is_abs relative)

unfoldable pub path_within : Text → Text → Bool
unfolding climbs
path_within root candidate = elim (rel root candidate) [
  | none ↦ false
  | some relative ↦ not (climbs relative)
]

unfoldable pub check_link : FileSystem → Text → Text → Result PathError (Unit {0})
check_link fs resolved_root current = elim (fs.eval_symlinks current) [
  | none ↦ err unresolved
  | some resolved ↦ guard (path_within resolved_root resolved) escapes_by_link
]

-- The loop over the components, from the path that is reached.
unfoldable pub check_parts : FileSystem → Text → Text → List Text → Result PathError (Unit {0})
unfolding check_link
check_parts fs resolved_root current [] = ok tt
check_parts fs resolved_root current (component ∷ components) =
    let next = join current component in
    if is_empty component || text_eq component dot
    then check_parts fs resolved_root current components
    else elim (fs.lstat next) [
      | missing ↦ ok tt
      | failed ↦ err uninspected
      | found false ↦ check_parts fs resolved_root next components
      | found true ↦
          check_link fs resolved_root next >> check_parts fs resolved_root next components
    ]

unfoldable pub resolve_root : FileSystem → Text → Result PathError Text
resolve_root fs root = elim (fs.lstat root) [
  | missing ↦ err uninspected
  | failed ↦ err uninspected
  | found false ↦ ok root
  | found true ↦ elim (fs.eval_symlinks root) [
    | none ↦ err unresolved
    | some resolved ↦ ok resolved
  ]
]

unfoldable pub reject_symlink_escape : FileSystem → Text → Text → Result PathError (Unit {0})
unfolding resolve_root check_parts
reject_symlink_escape fs root candidate = resolve_root fs root >>= λ resolved_root.
    elim (rel root candidate) [
      | none ↦ err no_relative_path
      | some relative ↦ check_parts fs resolved_root root (split_byte slash relative)
    ]

unfoldable pub locate : Text → Text → Text
locate root value = if is_abs value then value else join root value

unfoldable pub normalize_inside : FileSystem → Text → Text → Result PathError Text
normalize_inside fs root abs = elim (rel root abs) [
  | none ↦ err no_relative_path
  | some relative ↦
      guard (not (climbs relative)) escapes_project
      >> (reject_symlink_escape fs root abs >>= λ _. ok (clean relative))
]

unfoldable pub normalize_project_path : FileSystem → Text → Text → Result PathError Text
unfolding absolute_path
normalize_project_path fs root value =
    guard (not (is_empty root)) root_required
    >> (absolute_path fs root >>= λ base.
        absolute_path fs (locate base value) >>= λ target. normalize_inside fs base target)
