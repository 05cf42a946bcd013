-- ===== src/Filesystem/Ready.antt =====
-- Which pending changes have settled: readyChanges (internal/adapters/filesystem/observer.go).
pub mod Kept
pub mod Counted
pub mod Due
pub mod Settled
use agent_action_visualizer.Prelude.Time.{sub_time}
use agent_action_visualizer.Prelude.Sort.{sort}
use agent_action_visualizer.Filesystem.Change.{PendingChange, needs_rename_window}
use agent_action_visualizer.Prelude.Dict.{Dict, delete, lookup}
use agent_action_visualizer.Prelude.{
  ℕ, max, Bool, ◌&&◌, ◌||◌, none, some, List, [], ◌∷◌, if◌then◌else◌, Text, take, text_lt, ℤ, leb_ℤ,
  Option,
}

-- The zero time is 0, and no time is before it.
unfoldable pub latest_rename_change : Dict PendingChange → ℕ
latest_rename_change [] = 0
latest_rename_change ((path, item) ∷ pending) =
    let latest = latest_rename_change pending in
    if needs_rename_window item then max item.last latest else latest

unfoldable pub is_ready : ℕ → ℤ → ℤ → ℕ → Bool → PendingChange → Bool
is_ready now debounce rename_window latest everything item =
    everything
    || (if needs_rename_window item
        then (leb_ℤ debounce (sub_time now latest) && leb_ℤ rename_window (sub_time now latest))
        else leb_ℤ debounce (sub_time now item.last))

unfoldable pub ready_keys : (PendingChange → Bool) → Dict PendingChange → List Text
ready_keys ready [] = []
ready_keys ready ((path, item) ∷ pending) =
    let keys = ready_keys ready pending in if ready item then path ∷ keys else keys

abbrev pub with_held :
    Option PendingChange
    → List PendingChange × Dict PendingChange
    → List PendingChange × Dict PendingChange
with_held none rest = rest
with_held (some item) rest = (item ∷ rest.0, rest.1)

-- The changes with these keys; a key that is not there is a nil pointer, and is left out.
unfoldable pub take_ready : Dict PendingChange → List Text → List PendingChange × Dict PendingChange
take_ready pending [] = ([], pending)
take_ready pending (path ∷ keys) =
    with_held (lookup path pending) (take_ready (delete path pending) keys)

unfoldable pub ready_changes :
    Dict PendingChange → ℕ → ℤ → ℤ → Bool → ℕ → List PendingChange × Dict PendingChange
unfolding is_ready take_ready
ready_changes pending now debounce rename_window everything limit = take_ready pending (
    take limit (
      sort text_lt (
        ready_keys (is_ready now debounce rename_window (latest_rename_change pending) everything)
          pending)))
