-- ===== src/Executor/Pool/Pacing.antt =====
-- internal/executor/pool.go: how the spawner of a run is paced.
use flowbench.Base.{ℤ, pos, ◌≤ℤ◌, arith}
use flowbench.Executor.Pool.{spawn_tick}

-- Whatever the schedule, the spawner's tick is between 5 and 200 milliseconds.
pub spawn_tick_range :
    (total most : ℤ)
    → (pos 5000000 ≤ℤ spawn_tick total most) × (spawn_tick total most ≤ℤ pos 200000000)
unfolding spawn_tick
spawn_tick_range total most = ground arith
