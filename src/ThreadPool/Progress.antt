-- ===== src/ThreadPool/Progress.antt =====
-- From any state of a pool, the workers can run until nothing keeps a caller of pause() or stop()
-- waiting.
pub mod Advance
pub mod Settle
pub mod Settling
pub mod Returns
use blue_thread.Prelude.{ℕ, zero, suc, ◌+◌, ◌<◌, ◌≡◌, ◌⊎◌, Bool, true, false, if◌then◌else◌, update}
use blue_thread.ThreadPool.{Pool}
use blue_thread.ThreadPool.Queue.{Container}
use blue_thread.ThreadPool.Scan.{
  WorkerAt, unborn, started, waiting, took, working, worked, exited, loop_head,
}
use blue_thread.ThreadPool.System.{System, Step, IsPrompted}
use blue_thread.ThreadPool.Effects.{Kept}
use blue_thread.ThreadPool.Calls.{ClientAt, wake}

-- The steps that a worker still has to make; the flag says whether one at rest is to leave too.
abbrev pub rank : {U : Type 0} → Bool → WorkerAt U → ℕ
rank b unborn = 0
rank b started = if b then 1 else 0
rank b waiting = if b then 1 else 0
rank b (took q) = 3
rank b (working q u) = 2
rank b (worked q) = 1
rank b exited = 0

-- A caller of the pool has done nothing since.
abbrev pub Notified : ClientAt → ClientAt → Type 0
Notified c d = (d ≡ c) ⊎ (d ≡ wake c)

module _ {Q T U : Type 0} (p : Container Q T U) where
  -- A round from any pool with the same flags and counts ends at rest.
  abbrev pub Settles : Bool → System Q U → Type 0
  Settles b s = (i : ℕ) (t : Pool Q U) → Kept s.pool t → rank b (loop_head p i t).0 ≡ 0

  module _ (m : ℕ) where
    -- A step of the worker `i` that brings it closer.
    pub record Advances (b : Bool) (i : ℕ) (s t : System Q U) : Type 0 where
      pub step : Step p m s t
      pub prompted : IsPrompted p m step
      pub made : t.made ≡ s.made
      pub to : WorkerAt U
      pub worker : t.worker ≡ update s.worker i to
      pub lower : rank b to < rank b (s.worker i)
      pub kept : Kept s.pool t.pool
      pub callers : (j : ℕ) → Notified (s.client j) (t.client j)
