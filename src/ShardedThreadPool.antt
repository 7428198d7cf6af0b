-- ===== src/ShardedThreadPool.antt =====
-- thread/shardedthreadpool.h and thread/shardedthreadpool.cc. A worker reads the flags without the lock,
-- so each test of a flag is a step of its own; a part of a function under shardedpool_lock is one
-- function. The queue's own functions are not part of the code: what is_shard_empty() answers is an
-- argument, and _process() may end at any time.
pub mod Steps
pub mod Invariant
pub mod Guarantees
pub mod Stopping
mod Tests
use blue_thread.Prelude.{
  ℕ, suc, ◌+◌, ◌-◌, ◌%◌, ◌^◌, ◌==◌, Bool, true, false, List, [], ◌∷◌, update, if◌then◌else◌,
  Outcome, done, aborted,
}
use blue_thread.ThreadPool.{Heartbeat, add_worker, reset_timeout, remove_worker}

pub record ShardedPool : Type 0 where
  pub num_threads : ℕ
  pub stop_threads : Bool
  pub pause_threads : Bool
  pub drain_threads : Bool
  pub num_paused : ℕ  -- 32 bits
  pub num_drained : ℕ  -- 32 bits
  pub wq : Bool  -- wq != NULL
  pub timeout_interval : ℕ  -- of the queue
  pub suicide_interval : ℕ
  pub threads : List ℕ
  pub beats : ℕ → List Heartbeat  -- by thread, the last one first

-- Where a worker thread stands.
pub data ShardAt : Type 0 where
  absent : ShardAt
  created : ShardAt
  at_loop : ShardAt  -- before the test of stop_threads
  at_pause : ShardAt  -- before `if (pause_threads)`
  to_pause : ShardAt  -- the flag was set; before the lock
  in_pause : ShardAt  -- in the wait of the pause loop
  at_drain : ShardAt  -- before `if (drain_threads)`
  to_drain : ShardAt
  in_drain : ShardAt
  at_process : ShardAt  -- before the reset of the timeout
  in_process : ShardAt
  left : ShardAt

-- ++x and --x of a uint32_t
unfoldable pub plus_one : ℕ → ℕ
plus_one x = (x + 1) % 2 ^ 32

unfoldable pub minus_one : ℕ → ℕ
minus_one x = (x + (2 ^ 32 - 1)) % 2 ^ 32

abbrev pub beats_on : ℕ → Heartbeat → ShardedPool → ShardedPool
beats_on i b s = record s { beats = update s.beats i (b ∷ s.beats i) }

abbrev pub reset_beat : ℕ → ShardedPool → ShardedPool
reset_beat i s = beats_on i (reset_timeout s.timeout_interval s.suicide_interval) s

-- A new pool, and set_wq() by the constructor of the queue.
unfoldable pub construct : ℕ → ShardedPool
construct n = record {
  num_threads = n;
  stop_threads = false;
  pause_threads = false;
  drain_threads = false;
  num_paused = 0;
  num_drained = 0;
  wq = false;
  timeout_interval = 0;
  suicide_interval = 0;
  threads = [];
  beats = λ i. [];
}

unfoldable pub set_wq : ℕ → ℕ → ShardedPool → ShardedPool
set_wq ti sti s = record s { wq = true; timeout_interval = ti; suicide_interval = sti }

-- The start of the worker.
unfoldable pub worker_enter : ℕ → ShardedPool → Outcome ShardedPool ShardAt
worker_enter i s = if s.wq then done at_loop (beats_on i add_worker s) else aborted s

unfoldable pub loop_test : ℕ → ShardedPool → ShardAt × ShardedPool
loop_test i s = if s.stop_threads then (left, beats_on i remove_worker s) else (at_pause, s)

unfoldable pub pause_test : ShardedPool → ShardAt
pause_test s = if s.pause_threads then to_pause else at_drain

-- while (pause_threads), with the lock, and what follows the loop.
unfoldable pub pause_loop : ℕ → ShardedPool → ShardAt × ShardedPool
unfolding minus_one
pause_loop i s =
    if s.pause_threads
    then (in_pause, reset_beat i s)
    else (at_drain, record s { num_paused = minus_one s.num_paused })

unfoldable pub pause_enter : ℕ → ShardedPool → ShardAt × ShardedPool
unfolding pause_loop plus_one
pause_enter i s = pause_loop i (record s { num_paused = plus_one s.num_paused })

unfoldable pub drain_test : ShardedPool → ShardAt
drain_test s = if s.drain_threads then to_drain else at_process

unfoldable pub drain_loop : ℕ → ShardedPool → ShardAt × ShardedPool
unfolding minus_one
drain_loop i s =
    if s.drain_threads
    then (in_drain, reset_beat i s)
    else (at_process, record s { num_drained = minus_one s.num_drained })

-- With the answer of is_shard_empty().
unfoldable pub drain_enter : Bool → ℕ → ShardedPool → ShardAt × ShardedPool
unfolding drain_loop plus_one
drain_enter true i s = drain_loop i (record s { num_drained = plus_one s.num_drained })
drain_enter false i s = (at_process, s)

-- Where the thread that controls the pool stands.
pub data Controller : Type 0 where
  free : Controller
  waiting_pause : Controller
  waiting_drain : Controller
  joining : Controller

-- A use of the queue: wq->return_waiting_threads() and the like.
unfoldable pub with_wq : Controller → ShardedPool → Outcome ShardedPool Controller
with_wq c s = if s.wq then done c s else aborted s

-- while (num_threads != num_paused)
unfoldable pub paused_check : ShardedPool → Controller
paused_check s = if s.num_threads == s.num_paused then free else waiting_pause

unfoldable pub shard_pause : ShardedPool → Outcome ShardedPool Controller
unfolding with_wq paused_check
shard_pause s = let t = record s { pause_threads = true } in with_wq (paused_check t) t

unfoldable pub shard_unpause : ShardedPool → Outcome ShardedPool Controller
unfolding with_wq
shard_unpause s = with_wq free (record s { pause_threads = false })

-- The loop of drain(), and what follows it.
unfoldable pub drained_check : ShardedPool → Controller × ShardedPool
drained_check s =
    if s.num_threads == s.num_drained
    then (free, record s { drain_threads = false })
    else (waiting_drain, s)

unfoldable pub shard_drain : ShardedPool → Outcome ShardedPool Controller
unfolding drained_check
shard_drain s =
    if s.wq
    then (let r = drained_check (record s { drain_threads = true }) in done r.0 r.1)
    else aborted (record s { drain_threads = true })

unfoldable pub shard_stop : ShardedPool → Outcome ShardedPool Controller
unfolding with_wq
shard_stop s = with_wq joining (record s { stop_threads = true })

-- All joins have returned; threads_shardedpool.clear().
unfoldable pub shard_clear : ShardedPool → ShardedPool
shard_clear s = record s { threads = [] }
