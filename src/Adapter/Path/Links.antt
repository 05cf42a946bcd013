-- ===== src/Adapter/Path/Links.antt =====
-- The symbolic links on an accepted path lead into the project (adapter/go/path.go).
use agent_action_visualizer.Adapter.Path.Inside.{normalize_inside-below}
use agent_action_visualizer.Prelude.Path.{dot, join, rel, split_byte, slash, absolute}
use agent_action_visualizer.Adapter.Path.{
  FileSystem, check_link, check_parts, found, path_within, normalize_project_path,
  reject_symlink_escape, resolve_root, locate, root_required, absolute_path, normalize_inside,
}
use agent_action_visualizer.Prelude.{
  ◌≡◌, inl, inr, Bool, true, false, not, ◌||◌, some, List, ◌∷◌, arith, Option-cases, ok, Text,
  is_empty, guard-ok, text_eq, then-ok,
}

-- Going down the components from `current`, through what exists, one comes to `path`.
pub data Descends (fs : FileSystem) : Text → List Text → Text → Type 0 where
  skips :
      (current component : Text) (components : List Text) (path : Text)
      → (is_empty component || text_eq component dot) ≡ true
      → Descends fs current components path
      → Descends fs current (component ∷ components) path
  arrives :
      (current component : Text) (components : List Text) (link : Bool)
      → (is_empty component || text_eq component dot) ≡ false
      → fs.lstat (join current component) ≡ found link
      → Descends fs current (component ∷ components) (join current component)
  passes :
      (current component : Text) (components : List Text) (path : Text) (link : Bool)
      → (is_empty component || text_eq component dot) ≡ false
      → fs.lstat (join current component) ≡ found link
      → Descends fs (join current component) components path
      → Descends fs current (component ∷ components) path

-- A link at the path resolves to a path within the root.
abbrev pub LeadsInside : FileSystem → Text → Text → Type 0
LeadsInside fs resolved_root path =
    fs.lstat path ≡ found true
    → (resolved : Text) × (fs.eval_symlinks path ≡ some resolved)
      × (path_within resolved_root resolved ≡ true)

check_link_inside :
    (fs : FileSystem) (resolved_root path : Text)
    → check_link fs resolved_root path ≡ ok tt
    → (resolved : Text) × (fs.eval_symlinks path ≡ some resolved)
      × (path_within resolved_root resolved ≡ true)
unfolding check_link
check_link_inside fs resolved_root path h = elim (Option-cases (fs.eval_symlinks path)) [
  | inl unresolved_path ↦ absurd (ground (arith, unresolved_path, h))
  | inr (resolved, found_it) ↦ (resolved, found_it, ground (arith, found_it, h))
]

-- What check_parts found out about the next component, which exists.
check_parts_next :
    (fs : FileSystem) (resolved_root current component : Text) (components : List Text)
    (link : Bool)
    → (is_empty component || text_eq component dot) ≡ false
    → fs.lstat (join current component) ≡ found link
    → check_parts fs resolved_root current (component ∷ components) ≡ ok tt
    → LeadsInside fs resolved_root (join current component)
      × (check_parts fs resolved_root (join current component) components ≡ ok tt)
unfolding check_parts
check_parts_next fs resolved_root current component components false named there_is h =
    (λ is_link. absurd (ground (arith, is_link, there_is)), ground (arith, named, there_is, h))
check_parts_next fs resolved_root current component components true named there_is h =
    let both =
      then-ok (check_link fs resolved_root (join current component))
        (check_parts fs resolved_root (join current component) components) tt
        (ground (arith, named, there_is, h)) in
    (λ is_link. check_link_inside fs resolved_root (join current component) both.0, both.1)

check_parts-LeadsInside :
    (fs : FileSystem) (resolved_root current : Text) (components : List Text) (path : Text)
    → check_parts fs resolved_root current components ≡ ok tt
    → Descends fs current components path
    → LeadsInside fs resolved_root path
check_parts-LeadsInside fs resolved_root current _ path h
      (skips _ component components _ skipped d) =
    check_parts-LeadsInside fs resolved_root current components path
      (unfold check_parts in ground (arith, skipped, h)) d
check_parts-LeadsInside fs resolved_root current _ _ h
      (arrives _ component components link named there_is) =
    (check_parts_next fs resolved_root current component components link named there_is h).0
check_parts-LeadsInside fs resolved_root current _ path h
      (passes _ component components _ link named there_is d) =
    check_parts-LeadsInside fs resolved_root (join current component) components path
      (check_parts_next fs resolved_root current component components link named there_is h).1 d

escape-check_parts :
    (fs : FileSystem) (root candidate resolved_root relative : Text)
    → reject_symlink_escape fs root candidate ≡ ok tt
    → resolve_root fs root ≡ ok resolved_root
    → rel root candidate ≡ some relative
    → check_parts fs resolved_root root (split_byte slash relative) ≡ ok tt
unfolding reject_symlink_escape
escape-check_parts fs root candidate resolved_root relative h resolves way =
    ground (arith, h, resolves, way)

-- Take a path that NormalizeProjectPath accepts, and go down from the absolute root by its relative
-- path, through files and directories that exist. Each symbolic link on the way resolves to a path
-- that pathWithin finds within the root, which is itself resolved where it is a link.
pub normalize_project_path-LeadsInside :
    (fs : FileSystem) (root value out base target resolved_root relative path : Text)
    → normalize_project_path fs root value ≡ ok out
    → absolute fs.working_directory root ≡ some base
    → absolute fs.working_directory (locate base value) ≡ some target
    → resolve_root fs base ≡ ok resolved_root
    → rel base target ≡ some relative
    → Descends fs base (split_byte slash relative) path
    → LeadsInside fs resolved_root path
unfolding normalize_project_path absolute_path
normalize_project_path-LeadsInside fs root value out base target resolved_root relative path h at
      there resolves way d =
    let checked = guard-ok (not (is_empty root)) root_required _ out h in
    let inside : normalize_inside fs base target ≡ ok out = ground (arith, at, there, checked.1) in
    let (_, _, _, good, _) = normalize_inside-below fs base target out inside in
    check_parts-LeadsInside fs resolved_root base (split_byte slash relative) path
      (escape-check_parts fs base target resolved_root relative good resolves way) d
