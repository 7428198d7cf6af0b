-- ===== src/ShardedThreadPool/Invariant.antt =====
-- What holds between the steps of a sharded pool: its counts agree with where the workers stand.
pub mod Workers
pub mod Calls
pub mod Preserved
pub mod Answers
use blue_thread.Prelude.{ℕ, ◌%◌, ◌^◌, ◌≤◌, ◌<◌, ◌≡◌, ◌≢◌, ◌⊎◌, Bool, true, false, length, total, In}
use blue_thread.ShardedThreadPool.{
  ShardedPool, ShardAt, absent, created, at_loop, at_pause, to_pause, in_pause, at_drain, to_drain,
  in_drain, at_process, in_process, left, Controller, waiting_pause,
}
use blue_thread.ShardedThreadPool.Steps.{Shards}

abbrev pub pausing_one : ShardAt → ℕ
pausing_one in_pause = 1
pausing_one _ = 0

abbrev pub draining_one : ShardAt → ℕ
draining_one in_drain = 1
draining_one _ = 0

abbrev pub live_one : ShardAt → ℕ
live_one absent = 0
live_one left = 0
live_one _ = 1

pub record ShardInv (s : Shards) : Type 0 where
  pub pausing_count : s.pool.num_paused ≡ total pausing_one s.made s.worker % 2 ^ 32
  pub draining_count : s.pool.num_drained ≡ total draining_one s.made s.worker % 2 ^ 32
  pub alive : total live_one s.made s.worker ≤ length s.pool.threads
  pub bounded : length s.pool.threads ≤ s.pool.num_threads
  pub future : (i : ℕ) → s.made ≤ i → s.worker i ≡ absent
  pub owned : (i : ℕ) → i < s.made → (s.worker i ≡ left) ⊎ In i s.pool.threads
  -- While the flag is set, the workers stay where pause() found them.
  pub quiet :
      s.controller ≢ waiting_pause
      → s.pool.pause_threads ≡ true
      → s.pool.num_threads ≡ s.pool.num_paused
