-- ===== src/Adapter/Tests.antt =====
-- Project paths on a small disk, and the theorems of the adapter library there.
use agent_action_visualizer.Adapter.Path.Links.{
  arrives, Descends, LeadsInside, normalize_project_path-LeadsInside,
}
use agent_action_visualizer.Prelude.Path.{
  is_abs, rel, clean, join, render, split_byte, slash, absolute,
}
use agent_action_visualizer.Adapter.Path.Inside.{Accepted, normalize_project_path-Accepted}
use agent_action_visualizer.Adapter.Path.{
  FileSystem, normalize_project_path, found, escapes_by_link, escapes_project, normalize_inside,
  locate, climbs, reject_symlink_escape, check_link, path_within, check_parts, resolve_root,
  absolute_path, no_working_directory,
}
use agent_action_visualizer.Prelude.{
  ◌≡◌, refl, ◌||◌, some, if◌then◌else◌, ok, err, bytes, has_prefix, has_part, text_eq, ◌∷◌, [],
  true, none,
}

-- `/p/link` leads to `/p/real` and `/p/out` leads to `/etc`.
abbrev disk : FileSystem
disk = record {
  working_directory = some (bytes "/home");
  lstat = λ path. found (has_part path (bytes "/link") || has_part path (bytes "/out"));
  eval_symlinks =
      λ path. some (if has_part path (bytes "/out") then bytes "/etc" else bytes "/p/real");
}

allows_link : normalize_project_path disk (bytes "/p") (bytes "a/../link//x") ≡ ok (bytes "link/x")
unfolding normalize_project_path absolute_path normalize_inside rel absolute clean locate join
    text_eq climbs reject_symlink_escape has_part has_prefix check_link path_within check_parts
    is_abs
allows_link = refl

rejects_link : normalize_project_path disk (bytes "/p") (bytes "/p/out/x") ≡ err escapes_by_link
unfolding normalize_project_path absolute_path normalize_inside rel absolute clean locate join
    text_eq climbs reject_symlink_escape has_part has_prefix check_link path_within check_parts
    is_abs
rejects_link = refl

rejects_climb : normalize_project_path disk (bytes "/p/q") (bytes "../a") ≡ err escapes_project
unfolding normalize_project_path absolute_path normalize_inside rel absolute clean locate join
    text_eq climbs reject_symlink_escape has_part has_prefix check_link path_within check_parts
    is_abs
rejects_climb = refl

normalize_project_path-Accepted_example :
    Accepted disk (bytes "/p") (bytes "a/../link//x") (bytes "link/x")
normalize_project_path-Accepted_example =
    normalize_project_path-Accepted disk (bytes "/p") (bytes "a/../link//x") (bytes "link/x")
      (unfold is_abs in refl) allows_link

plain_root : resolve_root disk (bytes "/p") ≡ ok (bytes "/p")
unfolding resolve_root is_abs clean has_part has_prefix text_eq
plain_root = refl

root_there : absolute disk.working_directory (bytes "/p") ≡ some (bytes "/p")
unfolding absolute is_abs clean text_eq
root_there = refl

value_there :
    absolute disk.working_directory (locate (bytes "/p") (bytes "a/../link//x"))
    ≡ some (bytes "/p/link/x")
unfolding absolute locate join is_abs clean text_eq
value_there = refl

-- Without a working directory a relative root is an error.
no_home :
    normalize_project_path (record disk { working_directory = none }) (bytes "p") (bytes "a")
    ≡ err no_working_directory
unfolding normalize_project_path absolute_path absolute is_abs
no_home = refl

way_down : rel (bytes "/p") (bytes "/p/link/x") ≡ some (bytes "link/x")
unfolding rel clean locate join text_eq render is_abs
way_down = refl

-- The link is there, below the root.
down_to_link : Descends disk (bytes "/p") (split_byte slash (bytes "link/x")) (bytes "/p/link")
unfolding clean join text_eq is_abs split_byte has_part has_prefix
down_to_link = arrives (bytes "/p") (bytes "link") (bytes "x" ∷ []) true refl refl

normalize_project_path-LeadsInside_example : LeadsInside disk (bytes "/p") (bytes "/p/link")
normalize_project_path-LeadsInside_example =
    normalize_project_path-LeadsInside disk (bytes "/p") (bytes "a/../link//x") (bytes "link/x")
      (bytes "/p") (bytes "/p/link/x") (bytes "/p") (bytes "link/x") (bytes "/p/link") allows_link
      root_there value_there plain_root way_down down_to_link
