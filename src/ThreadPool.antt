-- ===== src/ThreadPool.antt =====
-- thread/threadpool.h and thread/threadpool.cc: ThreadPool and ThreadPool::WorkQueueVal. Each part of a
-- function that runs under the pool's lock, up to its unlock or wait, is one function here; System
-- composes them in any order. The functions that a user overrides are the parameter Container, and
-- their calls are kept in logs.
pub mod Queue
pub mod Scan
pub mod Calls
pub mod System
pub mod Effects
pub mod Invariant
pub mod Guarantees
pub mod Ledger
pub mod Progress
mod Example
mod Tests
use blue_thread.Prelude.{
  ℕ, suc, ◌+◌, Bool, true, false, not, ◌||◌, List, [], ◌∷◌, ℤ, pos, update, if◌then◌else◌,
}
use blue_thread.Prelude.Integer.{increment, decrement, is_zero}
use blue_thread.ThreadPool.Queue.{WorkQueue}

-- A call of the HeartbeatMap by a worker.
pub data Heartbeat : Type 0 where
  add_worker : Heartbeat
  reset_timeout : ℕ → ℕ → Heartbeat
  remove_worker : Heartbeat

pub record Pool (Q U : Type 0) : Type 0 where
  pub stop : Bool
  pub paused : ℤ
  pub draining : ℤ
  pub grace : ℕ
  pub suicide_grace : ℕ
  pub num_threads : ℕ
  pub processing : ℤ
  pub work_queues : List ℕ  -- the addresses
  pub next_work_queue : ℕ
  pub queues : ℕ → WorkQueue Q U
  pub threads : List ℕ
  pub old_threads : List ℕ
  pub heartbeats : ℕ → List Heartbeat  -- by thread, the last one first
