-- ===== src/ThreadPool/Calls.antt =====
-- The functions of ThreadPool that other threads call, from lock to unlock or wait.
use blue_thread.Prelude.{
  List, [], ◌∷◌, ℕ, Bool, true, false, not, ◌||◌, [], ◌∷◌, ◌++◌, Option, none, some, pos, erase,
  if◌then◌else◌,
}
use blue_thread.Prelude.Integer.{increment, decrement, is_zero}
use blue_thread.ThreadPool.{Pool}
use blue_thread.ThreadPool.Queue.{Container, WorkQueue, clear_queue}
use blue_thread.ThreadPool.Scan.{with_queue, join_old_threads}

-- Where a calling thread stands. The flag says whether _wait_cond has been notified since.
pub data ClientAt : Type 0 where
  outside : ClientAt
  pausing : Bool → ClientAt  -- in _wait_cond.wait of pause()
  holding : ClientAt  -- pause() has returned, and unpause() is to follow
  draining_at : Option ℕ → Bool → ClientAt  -- in _wait_cond.wait of drain()
  stopping : ClientAt  -- in the joins of stop()
  joined : ClientAt  -- after _threads.clear()

-- _wait_cond.notify_all()
unfoldable pub wake : ClientAt → ClientAt
wake (pausing b) = pausing true
wake (draining_at w b) = draining_at w true
wake c = c

module _ {Q U : Type 0} where
  -- ThreadPool::ThreadPool, with the queues that will be added to it.
  unfoldable pub construct : (ℕ → WorkQueue Q U) → ℕ → ℕ → ℕ → Pool Q U
  construct queues n grace suicide_grace = record {
    stop = false;
    paused = pos 0;
    draining = pos 0;
    grace = grace;
    suicide_grace = suicide_grace;
    num_threads = n;
    processing = pos 0;
    work_queues = [];
    next_work_queue = 0;
    queues = queues;
    threads = [];
    old_threads = [];
    heartbeats = λ i. [];
  }

  -- while (processing) in pause()
  unfoldable pub pause_check : Pool Q U → ClientAt
  pause_check s = if is_zero s.processing then holding else pausing false

  unfoldable pub pause : Pool Q U → ClientAt × Pool Q U
  unfolding pause_check
  pause s = let t = record s { paused = increment s.paused } in (pause_check t, t)

  unfoldable pub unpause : Pool Q U → Pool Q U
  unpause s = record s { paused = decrement s.paused }

  unfoldable pub add_work_queue : ℕ → Pool Q U → Pool Q U
  add_work_queue q s = record s { work_queues = s.work_queues ++ (q ∷ []) }

  unfoldable pub remove_work_queue : ℕ → Pool Q U → Pool Q U
  remove_work_queue q s = record s { work_queues = erase q s.work_queues }

  -- stop() up to its first unlock.
  unfoldable pub stop_begin : Pool Q U → Pool Q U
  unfolding join_old_threads
  stop_begin s = join_old_threads (record s { stop = true })

  -- All threads are joined; _threads.clear().
  unfoldable pub stop_clear : Pool Q U → Pool Q U
  stop_clear s = record s { threads = [] }

module _ {Q T U : Type 0} (p : Container Q T U) where
  unfoldable pub queue : ℕ → T → Pool Q U → Pool Q U
  queue q x s = with_queue q (record (s.queues q) { items = p.enqueue x (s.queues q).items }) s

  unfoldable pub queue_front : ℕ → T → Pool Q U → Pool Q U
  queue_front q x s =
      with_queue q (record (s.queues q) { items = p.enqueue_front x (s.queues q).items }) s

  -- wq != nullptr && !wq->_empty()
  unfoldable pub has_items : Option ℕ → Pool Q U → Bool
  has_items none s = false
  has_items (some q) s = not (p.empty (s.queues q).items)

  -- while (processing || …) in drain(), and what follows the loop.
  unfoldable pub drain_check : Option ℕ → Pool Q U → ClientAt × Pool Q U
  unfolding has_items
  drain_check w s =
      if not (is_zero s.processing) || has_items w s
      then (draining_at w false, s)
      else (outside, record s { draining = decrement s.draining })

  unfoldable pub drain : Option ℕ → Pool Q U → ClientAt × Pool Q U
  unfolding drain_check
  drain w s = drain_check w (record s { draining = increment s.draining })

  -- The loop over work_queues in stop().
  unfoldable pub clear_all : List ℕ → Pool Q U → Pool Q U
  unfolding clear_queue
  clear_all [] s = s
  clear_all (q ∷ qs) s = clear_all qs (with_queue q (clear_queue p (s.queues q)) s)

  -- With the lock again.
  unfoldable pub stop_end : Pool Q U → Pool Q U
  unfolding clear_all
  stop_end s = record (clear_all s.work_queues s) { stop = false }
