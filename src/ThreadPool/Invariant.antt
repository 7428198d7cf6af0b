-- ===== src/ThreadPool/Invariant.antt =====
-- What holds between the steps of a pool and its threads: the counts agree with where the threads
-- stand, nothing is in work while a thread has the pool paused, and no wakeup is lost.
pub mod Workers
pub mod Rounds
pub mod Clients
pub mod Rests
pub mod WorkerSteps
pub mod Waits
pub mod Clearing
pub mod ClientSteps
pub mod Preserved
use blue_thread.Prelude.{
  none, some, ℕ, ◌≤◌, ◌<◌, ◌≡◌, ◌≢◌, ◌⊎◌, Bool, true, false, ◌||◌, Option, ℤ, pos, ◌==◌,
  if◌then◌else◌, length, total, In,
}
use blue_thread.ThreadPool.{Pool}
use blue_thread.ThreadPool.Queue.{Container}
use blue_thread.ThreadPool.Scan.{WorkerAt, unborn, started, waiting, took, working, worked, exited}
use blue_thread.ThreadPool.Calls.{
  ClientAt, outside, pausing, holding, draining_at, stopping, joined, has_items,
}
use blue_thread.ThreadPool.System.{System}

module _ {U : Type 0} where
  -- The worker is between `processing++` and `processing--`.
  abbrev pub busy : WorkerAt U → ℕ
  busy (took q) = 1
  busy (working q u) = 1
  busy (worked q) = 1
  busy _ = 0

  -- It will take an item from `to_process` of the queue, or from `to_finish`.
  abbrev pub will_process : ℕ → WorkerAt U → ℕ
  will_process q (took r) = if r == q then 1 else 0
  will_process q _ = 0

  abbrev pub will_finish : ℕ → WorkerAt U → ℕ
  will_finish q (worked r) = if r == q then 1 else 0
  will_finish q _ = 0

abbrev pub in_pause : ClientAt → ℕ
in_pause (pausing b) = 1
in_pause holding = 1
in_pause _ = 0

abbrev pub in_drain : ClientAt → ℕ
in_drain (draining_at w b) = 1
in_drain _ = 0

module _ {Q U : Type 0} where
  pub record WorkInv (made : ℕ) (worker : ℕ → WorkerAt U) (s : Pool Q U) : Type 0 where
    pub counted : s.processing ≡ pos (total busy made worker)
    pub to_process : (q : ℕ) → length (s.queues q).to_process ≡ total (will_process q) made worker
    pub to_finish : (q : ℕ) → length (s.queues q).to_finish ≡ total (will_finish q) made worker
    pub future : (i : ℕ) → made ≤ i → worker i ≡ unborn
    pub owned : (i : ℕ) → i < made → (worker i ≡ exited) ⊎ In i s.threads
    pub born : (i : ℕ) → i < made → worker i ≢ unborn
    pub listed : (i : ℕ) → In i s.threads → i < made

  pub record ClientInv (m : ℕ) (client : ℕ → ClientAt) (s : Pool Q U) : Type 0 where
    pub pauses : s.paused ≡ pos (total in_pause m client)
    pub drains : s.draining ≡ pos (total in_drain m client)
    pub strangers : (j : ℕ) → m ≤ j → client j ≡ outside

module _ {Q T U : Type 0} (p : Container Q T U) where
  -- The queue that drain() waits for has items, or stop() has thrown the last of them away.
  unfoldable pub may_wait : Option ℕ → Pool Q U → Bool
  unfolding has_items
  may_wait none s = false
  may_wait (some q) s = has_items p (some q) s || (s.queues q).emptied

  -- A thread that waits with no notification has a reason to wait.
  abbrev pub MayRest : Pool Q U → ClientAt → Type 0
  MayRest s (pausing false) = s.processing ≢ pos 0
  MayRest s (draining_at w false) = (s.processing ≢ pos 0) ⊎ (may_wait w s ≡ true)
  MayRest s holding = s.processing ≡ pos 0
  MayRest s _ = Unit {0}

  pub record Inv (m : ℕ) (s : System Q U) : Type 0 where
    pub workers : WorkInv s.made s.worker s.pool
    pub clients : ClientInv m s.client s.pool
    pub rests : (j : ℕ) → MayRest s.pool (s.client j)
