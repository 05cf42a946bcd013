-- ===== src/Prelude/Time.antt =====
-- time.Time as nanoseconds since Go's zero time, and time.Duration. Sub saturates at the ends of
-- int64.
use agent_action_visualizer.Prelude.Int.{ℤ, pos, negsuc}
use agent_action_visualizer.Prelude.Tests.{leb, if◌then◌else◌}
use Prim.Native.Nat.{ℕ, ◌-◌, ◌^◌, ◌≤◌, min}
use mathlib.Core.Path.{◌≡◌}
use native.Mathlib.Omega.{arith}

abbrev pub max_duration : ℕ
max_duration = 2 ^ 63 - 1

-- a.Sub(b)
unfoldable pub sub_time : ℕ → ℕ → ℤ
sub_time a b =
    if leb b a then pos (min (a - b) max_duration) else negsuc (min (b - a - 1) max_duration)

pub sub_time_exact : (a b : ℕ) → b ≤ a → a - b ≤ max_duration → sub_time a b ≡ pos (a - b)
unfolding sub_time
sub_time_exact a b h k = ground arith
