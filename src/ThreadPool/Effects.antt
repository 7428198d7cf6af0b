-- ===== src/ThreadPool/Effects.antt =====
-- What the parts of worker() do to the pool.
pub mod Rounds
pub mod Items
pub mod Finds
use blue_thread.Prelude.{
  ℕ, zero, suc, ◌+◌, ◌*◌, ◌%◌, ◌≡◌, refl, ap, ◌∙◌, inl, inr, Bool, true, false, List, [], ◌∷◌, ◌++◌,
  Option, none, some, Option-cases, Bool-cases, ℤ, pos, length, is_empty, update, if◌then◌else◌,
  Outcome, done, threw, aborted, blocked, diverged, arith,
}
use blue_thread.Prelude.Integer.{increment, decrement, is_zero}
use blue_thread.ThreadPool.{Pool, Heartbeat, add_worker, remove_worker, reset_timeout}
use blue_thread.ThreadPool.Queue.{
  Container, WorkQueue, void_dequeue, void_process_begin, pop_process, void_process_end,
  void_process_finish, pop_finish,
}
use blue_thread.ThreadPool.Scan.{
  WorkerAt, unborn, started, waiting, took, working, worked, exited, get_elem?, with_queue, beat,
  join_old_threads, wait_for_work, tried, try_at, try_queues, after_tries, look_for_work, loop_head,
  enter, begin_item, end_item, finish_item, put_queue,
}

module _ {Q U : Type 0} where
  pub record Kept (s t : Pool Q U) : Type 0 where
    pub paused : t.paused ≡ s.paused
    pub draining : t.draining ≡ s.draining
    pub threads : t.threads ≡ s.threads
    pub stop : t.stop ≡ s.stop

  -- Nothing is taken.
  pub record Idle (s t : Pool Q U) : Type 0 where
    pub kept : Kept s t
    pub processing : t.processing ≡ s.processing
    pub queues : t.queues ≡ s.queues

  pub still : (s : Pool Q U) → Idle s s
  still s = record {
    kept = record { paused = refl; draining = refl; threads = refl; stop = refl };
    processing = refl;
    queues = refl;
  }

  pub quiet_twice : (s t u : Pool Q U) → Idle s t → Idle t u → Idle s u
  quiet_twice s t u i h = record {
    kept = record {
      paused = h.kept.paused ∙ i.kept.paused;
      draining = h.kept.draining ∙ i.kept.draining;
      threads = h.kept.threads ∙ i.kept.threads;
      stop = h.kept.stop ∙ i.kept.stop;
    };
    processing = h.processing ∙ i.processing;
    queues = h.queues ∙ i.queues;
  }

  pub beaten : (i : ℕ) (b : Heartbeat) (s : Pool Q U) → Idle s (beat i b s)
  beaten i b s = record {
    kept = record { paused = refl; draining = refl; threads = refl; stop = refl };
    processing = refl;
    queues = refl;
  }

  pub unjoined : (s : Pool Q U) → Idle s (join_old_threads s)
  unfolding join_old_threads
  unjoined s = record {
    kept = record { paused = refl; draining = refl; threads = refl; stop = refl };
    processing = refl;
    queues = refl;
  }

  -- The pool with another state of one queue.
  pub record Works (q : ℕ) (w : WorkQueue Q U) (s t : Pool Q U) : Type 0 where
    pub kept : Kept s t
    pub queues : t.queues ≡ update s.queues q w

  -- The front of `to_process` goes to the worker.
  abbrev pub popped : List U → WorkQueue Q U → WorkQueue Q U
  popped us w = record w { to_process = us }

  abbrev pub popped_finish : U → List U → WorkQueue Q U → WorkQueue Q U
  popped_finish u us w = record w { to_finish = us; finished = u ∷ w.finished }

module _ {Q T U : Type 0} (p : Container Q T U) where
  -- The next item of the queue is taken.
  abbrev pub dequeued : WorkQueue Q U → WorkQueue Q U
  dequeued w = record w {
    items = (p.dequeue w.items).1;
    to_process = w.to_process ++ ((p.dequeue w.items).0 ∷ []);
  }

  pub record Takes (q : ℕ) (s t : Pool Q U) : Type 0 where
    pub kept : Kept s t
    pub found : p.empty (s.queues q).items ≡ false
    pub processing : t.processing ≡ increment s.processing
    pub queues : t.queues ≡ update s.queues q (dequeued (s.queues q))

  -- A round takes an item only if the pool is not paused.
  abbrev pub ScanEnds : Pool Q U → WorkerAt U × Pool Q U → Type 0
  ScanEnds s (took q, t) = (is_zero s.paused ≡ true) × Takes q s t
  ScanEnds s (waiting, t) = Idle s t
  ScanEnds s (exited, t) = Idle s t
  ScanEnds s _ = ⊥
