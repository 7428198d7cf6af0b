-- ===== src/ThreadPool/System.antt =====
-- A pool with its worker threads and the threads that call it, as steps. A step is a part of a
-- function between two points at which the thread takes, gives or waits for the pool's lock. A worker
-- that waits may go on at any time, since its wait has a timeout, and so may a thread that waits in
-- pause() or drain(), since a wait may end with no notification.
use blue_thread.Prelude.{
  ℕ, zero, suc, ◌+◌, ◌-◌, ◌<◌, ◌≡◌, Bool, true, false, [], ◌∷◌, Option, length, In, update, done,
}
use blue_thread.ThreadPool.{Pool}
use blue_thread.ThreadPool.Queue.{Container, WorkQueue}
use blue_thread.ThreadPool.Scan.{
  WorkerAt, unborn, started, waiting, took, working, worked, exited, loop_head, enter, begin_item,
  end_item, finish_item, must_notify,
}
use blue_thread.ThreadPool.Calls.{
  ClientAt, outside, pausing, holding, draining_at, stopping, joined, wake, construct, pause_check,
  pause, unpause, queue, queue_front, drain_check, drain, add_work_queue, remove_work_queue,
  stop_begin, stop_clear, stop_end,
}

-- if (_pause || _draining) _wait_cond.notify_all()
unfoldable pub notify : Bool → (ℕ → ClientAt) → ℕ → ClientAt
unfolding wake
notify true clients j = wake (clients j)
notify false clients j = clients j

-- The threads from `made` on do not exist yet.
pub record System (Q U : Type 0) : Type 0 where
  pub pool : Pool Q U
  pub made : ℕ
  pub worker : ℕ → WorkerAt U
  pub client : ℕ → ClientAt

module _ {Q U : Type 0} where
  abbrev pub worker_moves : ℕ → WorkerAt U × Pool Q U → System Q U → System Q U
  worker_moves i r s = record s { pool = r.1; worker = update s.worker i r.0 }

  abbrev pub client_moves : ℕ → ClientAt × Pool Q U → System Q U → System Q U
  client_moves j r s = record s { pool = r.1; client = update s.client j r.0 }

  -- while (_threads.size() < _num_threads), `k` rounds before its end.
  unfoldable pub start_threads : ℕ → System Q U → System Q U
  start_threads zero s = s
  start_threads (suc k) s = start_threads k (record s {
    pool = record s.pool { threads = s.made ∷ s.pool.threads };
    made = s.made + 1;
    worker = update s.worker s.made started;
  })

  unfoldable pub start : System Q U → System Q U
  unfolding start_threads
  start s = start_threads (s.pool.num_threads - length s.pool.threads) s

  -- The queues as WorkQueueVal's constructor leaves them, with any items in the containers.
  abbrev pub NothingInWork : (ℕ → WorkQueue Q U) → Type 0
  NothingInWork queues = (q : ℕ) → ((queues q).to_process ≡ []) × ((queues q).to_finish ≡ [])

  -- A pool after its constructor; no thread has called it.
  abbrev pub new_system : (ℕ → WorkQueue Q U) → ℕ → ℕ → ℕ → System Q U
  new_system queues n grace suicide_grace = record {
    pool = construct queues n grace suicide_grace;
    made = 0;
    worker = λ i. unborn;
    client = λ j. outside;
  }

module _ {Q T U : Type 0} (p : Container Q T U) (m : ℕ) where
  -- The threads below `m` call the pool. One that has returned from pause() calls unpause() next, and
  -- no other thread does.
  pub data Step (s : System Q U) : System Q U → Type 0 where
    worker_starts : (i : ℕ) → s.worker i ≡ started → Step s (worker_moves i (enter p i s.pool) s)
    worker_wakes : (i : ℕ) → s.worker i ≡ waiting → Step s (worker_moves i (loop_head p i s.pool) s)
    worker_begins :
        (i q : ℕ) (u : U) (t : Pool Q U)
        → s.worker i ≡ took q
        → begin_item p i q s.pool ≡ done u t
        → Step s (worker_moves i (working q u, t) s)
    worker_ends :
        (i q : ℕ) (u : U)
        → s.worker i ≡ working q u
        → Step s (worker_moves i (worked q, end_item p q u s.pool) s)
    worker_finishes :
        (i q : ℕ) (t : Pool Q U)
        → s.worker i ≡ worked q
        → finish_item p q s.pool ≡ done tt t
        → Step s (
            worker_moves i
              (loop_head p i t)
              (record s { client = notify (must_notify p t) s.client }))
    client_pauses :
        (j : ℕ) → j < m → s.client j ≡ outside → Step s (client_moves j (pause s.pool) s)
    client_rechecks :
        (j : ℕ) (b : Bool)
        → j < m
        → s.client j ≡ pausing b
        → Step s (client_moves j (pause_check s.pool, s.pool) s)
    client_unpauses :
        (j : ℕ) → j < m → s.client j ≡ holding → Step s (client_moves j (outside, unpause s.pool) s)
    client_drains :
        (j : ℕ) (w : Option ℕ)
        → j < m
        → s.client j ≡ outside
        → Step s (client_moves j (drain p w s.pool) s)
    client_redrains :
        (j : ℕ) (w : Option ℕ) (b : Bool)
        → j < m
        → s.client j ≡ draining_at w b
        → Step s (client_moves j (drain_check p w s.pool) s)
    client_queues : (q : ℕ) (x : T) → Step s (record s { pool = queue p q x s.pool })
    client_queues_front : (q : ℕ) (x : T) → Step s (record s { pool = queue_front p q x s.pool })
    client_adds : (q : ℕ) → Step s (record s { pool = add_work_queue q s.pool })
    client_removes : (q : ℕ) → Step s (record s { pool = remove_work_queue q s.pool })
    client_starts : Step s (start s)
    client_stops :
        (j : ℕ)
        → j < m
        → s.client j ≡ outside
        → Step s (client_moves j (stopping, stop_begin s.pool) s)
    client_joins :
        (j : ℕ)
        → j < m
        → s.client j ≡ stopping
        → ((i : ℕ) → In i s.pool.threads → s.worker i ≡ exited)
        → Step s (client_moves j (joined, stop_clear s.pool) s)
    client_stopped :
        (j : ℕ)
        → j < m
        → s.client j ≡ joined
        → Step s (client_moves j (outside, stop_end p s.pool) s)

  -- The step is no end of a wait in pause() or drain() without a notification.
  abbrev pub IsPrompted : {s t : System Q U} → Step s t → Type 0
  IsPrompted (client_rechecks j b h a) = b ≡ true
  IsPrompted (client_redrains j w b h a) = b ≡ true
  IsPrompted _ = Unit {0}

  -- Any number of steps.
  pub data Reach (s : System Q U) : System Q U → Type 0 where
    here : Reach s s
    next : {t u : System Q U} → Reach s t → Step t u → Reach s u

  abbrev pub ArePrompted : {s t : System Q U} → Reach s t → Type 0
  ArePrompted here = Unit {0}
  ArePrompted (next r k) = ArePrompted r × IsPrompted k
