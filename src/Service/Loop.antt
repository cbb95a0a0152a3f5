-- ===== src/Service/Loop.antt =====
-- internal/scheduler/service.go, Run and reapLoop, as one process.
use grid_runner.Prelude.{ℕ, ℤ, pos, negsuc, Bool, true, false, List, [], ◌∷◌, ltb, if◌then◌else◌}
use grid_runner.Queue.{Redis}
use grid_runner.World.{World}
use grid_runner.Service.{poll_queue, reap, start_up}

-- A pass of the loop; the start of the reaper's goroutine, which comes to `time.NewTicker`; and a tick of
-- that ticker: in the order in which they come. A cancelled context ends both loops.
pub data Pass : Type 0 where
  round ticker tick : Pass

-- A timeout in nanoseconds. With one that is not positive no runner counts as idle, as with zero.
abbrev pub nanos : ℤ → ℕ
nanos (pos n) = n
nanos (negsuc n) = 0

module _ ⦃R : Redis⦄ where
  -- The exit code and the state; `ticks` tells whether there is a ticker. `time.NewTicker(s.heartbeat / 2)`
  -- panics unless its argument is positive, and a panic of the goroutine ends the process.
  unfoldable pub passes : ℕ → Bool → List Pass → World → ℕ × World
  passes heartbeat ticks [] w = (0, w)
  passes heartbeat ticks (round ∷ rest) w = passes heartbeat ticks rest (poll_queue heartbeat w).1
  passes heartbeat ticks (ticker ∷ rest) w =
      if ltb heartbeat 2 then (2, w) else passes heartbeat true rest w
  passes heartbeat ticks (tick ∷ rest) w =
      passes heartbeat ticks rest (if ticks then (reap heartbeat w).1 else w)

  unfoldable pub run : ℤ → List Pass → World → ℕ × World
  run heartbeat ps w = passes (nanos heartbeat) false ps (start_up w).1
