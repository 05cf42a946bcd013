-- ===== src/Replay/Order.antt =====
-- The order of canonicalEvents is a strict order that tells any two event ids apart
-- (internal/replay/replay.go).
use agent_action_visualizer.Protocol.Event.{Event}
use agent_action_visualizer.Replay.{monotonic_before, replays_before, replay_rank}
use agent_action_visualizer.Prelude.{
  ℕ, ◌≡◌, Bool, true, false, not, arith, ltb, ◌==◌, if◌then◌else◌, text_eq, text_eq_iff, ℤ, pos,
  negsuc, text_lt_irrefl, text_lt_trans, text_lt_connex, eqb_ℤ,
}

-- One level of the comparison: by a number, and on a tie by what follows.
abbrev by_number : ℕ → ℕ → Bool → Bool
by_number m n rest = if not (m == n) then ltb m n else rest

by_number_trans :
    (l m n : ℕ) (x y z : Bool)
    → (x ≡ true → y ≡ true → z ≡ true)
    → by_number l m x ≡ true
    → by_number m n y ≡ true
    → by_number l n z ≡ true
by_number_trans l m n x y z rest h k = ground arith

by_number_connex :
    (m n : ℕ) (x y : Bool)
    → (x ≡ false → y ≡ true)
    → by_number n m x ≡ false
    → by_number m n y ≡ true
by_number_connex m n x y rest h = ground arith

-- The level of the monotonic timestamps.
abbrev by_monotonic : ℤ → ℤ → Bool → Bool
by_monotonic m n rest = if not (eqb_ℤ m n) then monotonic_before m n else rest

by_monotonic_trans :
    (l m n : ℤ) (x y z : Bool)
    → (x ≡ true → y ≡ true → z ≡ true)
    → by_monotonic l m x ≡ true
    → by_monotonic m n y ≡ true
    → by_monotonic l n z ≡ true
unfolding monotonic_before
by_monotonic_trans (pos l) (pos m) (pos n) x y z rest h k = ground arith
by_monotonic_trans (pos l) (pos m) (negsuc n) x y z rest h k = ground arith
by_monotonic_trans (pos l) (negsuc m) (pos n) x y z rest h k = ground arith
by_monotonic_trans (pos l) (negsuc m) (negsuc n) x y z rest h k = ground arith
by_monotonic_trans (negsuc l) (pos m) (pos n) x y z rest h k = ground arith
by_monotonic_trans (negsuc l) (pos m) (negsuc n) x y z rest h k = ground arith
by_monotonic_trans (negsuc l) (negsuc m) (pos n) x y z rest h k = ground arith
by_monotonic_trans (negsuc l) (negsuc m) (negsuc n) x y z rest h k = ground arith

by_monotonic_connex :
    (m n : ℤ) (x y : Bool)
    → (x ≡ false → y ≡ true)
    → by_monotonic n m x ≡ false
    → by_monotonic m n y ≡ true
unfolding monotonic_before
by_monotonic_connex (pos m) (pos n) x y rest h = ground arith
by_monotonic_connex (pos m) (negsuc n) x y rest h = ground arith
by_monotonic_connex (negsuc m) (pos n) x y rest h = ground arith
by_monotonic_connex (negsuc m) (negsuc n) x y rest h = ground arith

pub replays_before_irrefl : (a : Event) → replays_before a a ≡ false
unfolding replays_before monotonic_before
replays_before_irrefl a = ground (arith, text_lt_irrefl a.event_id)

pub replays_before_trans :
    (a b c : Event)
    → replays_before a b ≡ true
    → replays_before b c ≡ true
    → replays_before a c ≡ true
unfolding replays_before
replays_before_trans a b c h k =
    by_number_trans (replay_rank a.event_type) (replay_rank b.event_type) (replay_rank c.event_type)
      _ _ _
      (by_number_trans a.timestamp b.timestamp c.timestamp _ _ _ (
        by_monotonic_trans a.monotonic_timestamp b.monotonic_timestamp c.monotonic_timestamp _ _ _
          (text_lt_trans a.event_id b.event_id c.event_id)))
      h k

pub replays_before_connex :
    (a b : Event)
    → text_eq a.event_id b.event_id ≡ false
    → replays_before b a ≡ false
    → replays_before a b ≡ true
unfolding replays_before
replays_before_connex a b apart h =
    by_number_connex (replay_rank a.event_type) (replay_rank b.event_type) _ _
      (by_number_connex a.timestamp b.timestamp _ _ (
        by_monotonic_connex a.monotonic_timestamp b.monotonic_timestamp _ _ (λ e.
          ground
            (arith, e, text_lt_connex a.event_id b.event_id, text_eq_iff a.event_id b.event_id))))
      h
