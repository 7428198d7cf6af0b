-- ===== src/ThreadPool/Scan.antt =====
-- ThreadPool::worker, from lock to unlock.
use blue_thread.Prelude.{
  ℕ, zero, suc, ◌+◌, ◌*◌, ◌%◌, Bool, true, false, not, ◌||◌, List, [], ◌∷◌, Option, none, some,
  length, is_empty, update, Outcome, done, threw, aborted, blocked, diverged, bind_outcome,
  if◌then◌else◌,
}
use blue_thread.Prelude.Integer.{increment, decrement, is_zero}
use blue_thread.ThreadPool.{Pool, Heartbeat, add_worker, reset_timeout, remove_worker}
use blue_thread.ThreadPool.Queue.{
  Container, WorkQueue, void_dequeue, void_process_begin, void_process_end, void_process_finish,
}

-- Where a worker thread stands.
pub data WorkerAt (U : Type 0) : Type 0 where
  unborn : WorkerAt U
  started : WorkerAt U
  waiting : WorkerAt U  -- in _cond.wait_for
  took : ℕ → WorkerAt U  -- has an item of the queue, before _void_process
  working : ℕ → U → WorkerAt U  -- before the call of _process ends
  worked : ℕ → WorkerAt U  -- before it takes the pool's lock again
  exited : WorkerAt U

abbrev pub get_elem? : List ℕ → ℕ → Option ℕ
get_elem? [] i = none
get_elem? (x ∷ xs) zero = some x
get_elem? (x ∷ xs) (suc i) = get_elem? xs i

module _ {Q U : Type 0} where
  abbrev pub with_queue : ℕ → WorkQueue Q U → Pool Q U → Pool Q U
  with_queue q w s = record s { queues = update s.queues q w }

  -- A call of the HeartbeatMap.
  abbrev pub beat : ℕ → Heartbeat → Pool Q U → Pool Q U
  beat i b s = record s { heartbeats = update s.heartbeats i (b ∷ s.heartbeats i) }

  -- Joins each of them. No code puts a thread on the list.
  unfoldable pub join_old_threads : Pool Q U → Pool Q U
  join_old_threads s = record s { old_threads = [] }

  -- The end of a round with no item.
  unfoldable pub wait_for_work : ℕ → Pool Q U → WorkerAt U × Pool Q U
  wait_for_work i s = (waiting, beat i (reset_timeout s.grace s.suicide_grace) s)

module _ {Q T U : Type 0} (p : Container Q T U) where
  -- What a try found, and the tries after it.
  unfoldable pub tried :
      ℕ → Pool Q U → Bool × WorkQueue Q U → Option ℕ × Pool Q U → Option ℕ × Pool Q U
  tried q s (true, w) rest =
      (some q, record (with_queue q w s) { processing = increment s.processing })
  tried q s (false, w) rest = rest

  -- The body of the loop at the queue of the index `n`; `t` is the pool after next_work_queue++.
  unfoldable pub try_at : Pool Q U → Pool Q U → Option ℕ → Option ℕ × Pool Q U → Option ℕ × Pool Q U
  unfolding void_dequeue tried
  try_at s t none rest = (none, s)
  try_at s t (some q) rest = tried q t (void_dequeue p (t.queues q)) rest

  -- while (tries--)
  unfoldable pub try_queues : ℕ → Pool Q U → Option ℕ × Pool Q U
  unfolding try_at
  try_queues zero s = (none, s)
  try_queues (suc tries) s =
      let n = s.next_work_queue % length s.work_queues in
      let t = record s { next_work_queue = n + 1 } in
      try_at s t (get_elem? s.work_queues n) (try_queues tries t)

  unfoldable pub after_tries : ℕ → Option ℕ × Pool Q U → WorkerAt U × Pool Q U
  unfolding wait_for_work
  after_tries i (some q, s) = (took q, s)
  after_tries i (none, s) = wait_for_work i s

  unfoldable pub look_for_work : ℕ → Pool Q U → WorkerAt U × Pool Q U
  unfolding wait_for_work after_tries try_queues
  look_for_work i s =
      if is_empty s.work_queues
      then wait_for_work i s
      else if is_zero s.paused
      then after_tries i (try_queues (2 * length s.work_queues) s)
      else wait_for_work i s

  -- A round of `while (!_stop)`, with the lock.
  unfoldable pub loop_head : ℕ → Pool Q U → WorkerAt U × Pool Q U
  unfolding look_for_work join_old_threads
  loop_head i s =
      if s.stop then (exited, beat i remove_worker s) else look_for_work i (join_old_threads s)

  -- The start of worker().
  unfoldable pub enter : ℕ → Pool Q U → WorkerAt U × Pool Q U
  unfolding loop_head
  enter i s = loop_head i (beat i add_worker s)

  unfoldable pub put_queue :
      {A : Type 0} → ℕ → Pool Q U → Outcome (WorkQueue Q U) A → Outcome (Pool Q U) A
  put_queue q s (done x w) = done x (with_queue q w s)
  put_queue q s (threw e w) = threw e (with_queue q w s)
  put_queue q s (aborted w) = aborted (with_queue q w s)
  put_queue q s (blocked w) = blocked (with_queue q w s)
  put_queue q s diverged = diverged

  -- After the unlock: reset_tp_timeout(), and _void_process up to the call of _process.
  unfoldable pub begin_item : ℕ → ℕ → Pool Q U → Outcome (Pool Q U) U
  unfolding void_process_begin put_queue
  begin_item i q s =
      let w = s.queues q in
      put_queue q (beat i (reset_timeout w.grace w.suicide_grace) s) (void_process_begin w)

  unfoldable pub end_item : ℕ → U → Pool Q U → Pool Q U
  unfolding void_process_end
  end_item q u s = with_queue q (void_process_end u (s.queues q)) s

  -- _pause || _draining
  unfoldable pub must_notify : Pool Q U → Bool
  must_notify s = not (is_zero s.paused) || not (is_zero s.draining)

  -- With the lock again, up to the notification of _wait_cond.
  unfoldable pub finish_item : ℕ → Pool Q U → Outcome (Pool Q U) (Unit {0})
  unfolding void_process_finish put_queue
  finish_item q s =
      bind_outcome (put_queue q s (void_process_finish (s.queues q)))
        λ _ t. done tt (record t { processing = decrement t.processing })
