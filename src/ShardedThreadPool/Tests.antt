-- ===== src/ShardedThreadPool/Tests.antt =====
-- The theorems on a sharded pool with one worker.
use blue_thread.Prelude.{ℕ, ◌≡◌, refl, inl, true, false, [], ◌∷◌, arith}
use blue_thread.ThreadPool.{add_worker}
use blue_thread.ShardedThreadPool.{
  at_loop, in_pause, beats_on, construct, set_wq, plus_one, worker_enter, loop_test, pause_test,
  pause_loop, pause_enter, drain_test, drain_loop, drain_enter, free, waiting_pause, waiting_drain,
  joining, with_wq, paused_check, shard_pause, drained_check, shard_drain,
}
use blue_thread.ShardedThreadPool.Steps.{
  Shards, shard_moves, shard_asks, make_threads, shard_start, new_shards, enters, tests_stop,
  tests_pause, pauses, tests_drain, drains, control_starts, control_pauses, control_rechecks,
  control_drains, ShardReach, at_once, and_then,
}
use blue_thread.ShardedThreadPool.Guarantees
use blue_thread.ShardedThreadPool.Guarantees.{RestsIn}
use blue_thread.ShardedThreadPool.Stopping

abbrev entered_one : Shards
entered_one =
    let s = shard_start (new_shards 1 10 20) in
    shard_moves 0 (at_loop, beats_on 0 add_worker s.pool) s

abbrev tested : Shards
tested = shard_moves 0 (loop_test 0 entered_one.pool) entered_one

-- pause() waits, and the worker enters its pause loop.
abbrev asked : Shards
asked = record tested {
  pool = record tested.pool { pause_threads = true };
  controller = waiting_pause;
}

abbrev seen : Shards
seen = shard_moves 0 (pause_test asked.pool, asked.pool) asked

abbrev looping : Shards
looping = shard_moves 0 (pause_enter 0 seen.pool) seen

abbrev pool_paused : Shards
pool_paused = record looping { controller = paused_check looping.pool }

tested_run : ShardReach (new_shards 1 10 20) tested
unfolding construct set_wq shard_start make_threads worker_enter
tested_run =
    and_then (and_then (and_then at_once (control_starts refl)) (enters 0 _ _ refl refl))
      (tests_stop 0 refl)

paused_run : ShardReach (new_shards 1 10 20) pool_paused
unfolding construct set_wq shard_start make_threads worker_enter loop_test pause_test pause_loop
    pause_enter plus_one with_wq paused_check shard_pause
paused_run =
    and_then
      (and_then
        (and_then (and_then tested_run (control_pauses waiting_pause _ refl refl))
          (tests_pause 0 refl))
        (pauses 0 refl))
      (control_rechecks refl)

at_rest :
    (pool_paused.controller ≡ free)
    × (pool_paused.pool.pause_threads ≡ true)
    × (pool_paused.worker 0 ≡ in_pause)
    × (pool_paused.pool.threads ≡ 0 ∷ [])
unfolding construct set_wq shard_start make_threads worker_enter loop_test pause_test pause_loop
    pause_enter plus_one paused_check
at_rest = (refl, refl, refl, refl)

paused-RestsIn_example :
    (pool_paused.pool.num_threads ≡ pool_paused.pool.num_paused)
    × ((i : ℕ) → RestsIn in_pause (pool_paused.worker i))
paused-RestsIn_example =
    Guarantees.paused-RestsIn 1 10 20 pool_paused paused_run (λ e. ground (arith, at_rest.0))
      at_rest.1

-- stop() of that pool.
abbrev pool_stopped : Shards
pool_stopped = record pool_paused {
  pool = record pool_paused.pool { stop_threads = true };
  controller = joining;
}

stop_hangs_example : (pool_stopped.controller ≡ joining) × (pool_stopped.worker 0 ≡ in_pause)
stop_hangs_example =
    Stopping.stop_hangs 0 pool_stopped pool_stopped refl at_rest.1 (rw at_rest.3 (inl refl))
      at_rest.2 at_once

-- drain() waits, and the worker finds its shard empty.
abbrev drain_asked : Shards
drain_asked = record tested {
  pool = record tested.pool { drain_threads = true };
  controller = waiting_drain;
}

abbrev not_paused : Shards
not_paused = shard_moves 0 (pause_test drain_asked.pool, drain_asked.pool) drain_asked

abbrev drain_seen : Shards
drain_seen = shard_moves 0 (drain_test not_paused.pool, not_paused.pool) not_paused

abbrev shard_drained : Shards
shard_drained = shard_asks 0 true (drain_enter true 0 drain_seen.pool) drain_seen

drained_run : ShardReach (new_shards 1 10 20) shard_drained
unfolding construct set_wq shard_start make_threads worker_enter loop_test pause_test drain_test
    drain_loop drain_enter plus_one drained_check shard_drain
drained_run =
    and_then
      (and_then
        (and_then (and_then tested_run (control_drains waiting_drain _ refl refl))
          (tests_pause 0 refl))
        (tests_drain 0 refl))
      (drains 0 true refl)

drain_ends :
    drained_check shard_drained.pool ≡ (free, record shard_drained.pool { drain_threads = false })
unfolding construct set_wq shard_start make_threads loop_test pause_test drain_test drain_loop
    drain_enter plus_one drained_check
drain_ends = refl

drained-RestsIn_example : Guarantees.FoundEmpty shard_drained 0
drained-RestsIn_example =
    Guarantees.drained-RestsIn 1 10 20 shard_drained drained_run
      (record shard_drained.pool { drain_threads = false }) drain_ends 0
