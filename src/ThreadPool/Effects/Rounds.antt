-- ===== src/ThreadPool/Effects/Rounds.antt =====
-- What a round of the loop of worker() does to the pool.
use blue_thread.Prelude.{
  ℕ, zero, suc, ◌+◌, ◌*◌, ◌%◌, ◌≡◌, refl, ap, ◌∙◌, inl, inr, Bool, true, false, Option, none, some,
  Bool-cases, length, is_empty, if◌then◌else◌,
}
use blue_thread.Prelude.Integer.{increment, is_zero}
use blue_thread.ThreadPool.{Pool, add_worker, remove_worker, reset_timeout}
use blue_thread.ThreadPool.Queue.{Container, void_dequeue}
use blue_thread.ThreadPool.Scan.{
  WorkerAt, unborn, started, waiting, took, working, worked, exited, get_elem?, beat,
  join_old_threads, wait_for_work, tried, try_at, try_queues, after_tries, look_for_work, loop_head,
  enter,
}
use blue_thread.ThreadPool.Effects.{Idle, still, quiet_twice, beaten, unjoined, Takes, ScanEnds}

module _ {Q T U : Type 0} (p : Container Q T U) where
  abbrev TriedEnds : Pool Q U → Option ℕ × Pool Q U → Type 0
  TriedEnds s (some q, t) = Takes p q s t
  TriedEnds s (none, t) = Idle s t

  tried-TriedEnds :
      (q : ℕ) (s : Pool Q U) (rest : Option ℕ × Pool Q U)
      → TriedEnds s rest
      → TriedEnds s (tried p q s (void_dequeue p (s.queues q)) rest)
  unfolding tried void_dequeue
  tried-TriedEnds q s rest h = elim (Bool-cases (p.empty (s.queues q).items)) [
    | inl e ↦ rw e h
    | inr e ↦ rw e (record {
      kept = record { paused = refl; draining = refl; threads = refl; stop = refl };
      found = e;
      processing = refl;
      queues = refl;
    })
  ]

  -- The next queue to look at plays no part.
  from_next :
      (s : Pool Q U) (n : ℕ) (r : Option ℕ × Pool Q U)
      → TriedEnds (record s { next_work_queue = n }) r
      → TriedEnds s r
  from_next s n (some q, t) h = record {
    kept = record {
      paused = h.kept.paused;
      draining = h.kept.draining;
      threads = h.kept.threads;
      stop = h.kept.stop;
    };
    found = h.found;
    processing = h.processing;
    queues = h.queues;
  }
  from_next s n (none, t) h = record {
    kept = record {
      paused = h.kept.paused;
      draining = h.kept.draining;
      threads = h.kept.threads;
      stop = h.kept.stop;
    };
    processing = h.processing;
    queues = h.queues;
  }

  try_at-TriedEnds :
      (s : Pool Q U) (n : ℕ) (o : Option ℕ) (r : Option ℕ × Pool Q U)
      → TriedEnds (record s { next_work_queue = n }) r
      → TriedEnds s (try_at p s (record s { next_work_queue = n }) o r)
  unfolding try_at
  try_at-TriedEnds s n none r h = still s
  try_at-TriedEnds s n (some q) r h =
      from_next s n _ (tried-TriedEnds q (record s { next_work_queue = n }) r h)

  try_queues-TriedEnds : (tries : ℕ) (s : Pool Q U) → TriedEnds s (try_queues p tries s)
  unfolding try_queues
  try_queues-TriedEnds zero s = still s
  try_queues-TriedEnds (suc tries) s =
      let n = s.next_work_queue % length s.work_queues in
      try_at-TriedEnds s (n + 1) (get_elem? s.work_queues n) _
        (try_queues-TriedEnds tries (record s { next_work_queue = n + 1 }))

  after_tries-ScanEnds :
      (i : ℕ) (s : Pool Q U) (r : Option ℕ × Pool Q U)
      → is_zero s.paused ≡ true
      → TriedEnds s r
      → ScanEnds p s (after_tries p i r)
  unfolding after_tries wait_for_work
  after_tries-ScanEnds i s (some q, t) z h = (z, h)
  after_tries-ScanEnds i s (none, t) z h = record {
    kept = record {
      paused = h.kept.paused;
      draining = h.kept.draining;
      threads = h.kept.threads;
      stop = h.kept.stop;
    };
    processing = h.processing;
    queues = h.queues;
  }

  look_for_work-ScanEnds : (i : ℕ) (s : Pool Q U) → ScanEnds p s (look_for_work p i s)
  unfolding look_for_work wait_for_work
  look_for_work-ScanEnds i s =
      let idle : Idle s (beat i (reset_timeout s.grace s.suicide_grace) s) = record {
        kept = record { paused = refl; draining = refl; threads = refl; stop = refl };
        processing = refl;
        queues = refl;
      } in
      elim (Bool-cases (is_empty s.work_queues)) [
        | inl e ↦ rw e idle
        | inr e ↦ elim (Bool-cases (is_zero s.paused)) [
          | inl z ↦
              rw (e, z)
                (after_tries-ScanEnds i s _ z (try_queues-TriedEnds (2 * length s.work_queues) s))
          | inr z ↦ rw (e, z) idle
        ]
      ]

  -- The pool is as before but for fields that a round does not look at.
  after_quiet :
      (s s' : Pool Q U) (r : WorkerAt U × Pool Q U) → Idle s s' → ScanEnds p s' r → ScanEnds p s r
  after_quiet s s' (took q, t) i (z, h) = (
    rw i.kept.paused at z,
    record {
      kept = record {
        paused = h.kept.paused ∙ i.kept.paused;
        draining = h.kept.draining ∙ i.kept.draining;
        threads = h.kept.threads ∙ i.kept.threads;
        stop = h.kept.stop ∙ i.kept.stop;
      };
      found = rw i.queues at h.found;
      processing = h.processing ∙ ap increment i.processing;
      queues = rw i.queues at h.queues;
    },
  )
  after_quiet s s' (waiting, t) i h = quiet_twice s s' t i h
  after_quiet s s' (exited, t) i h = quiet_twice s s' t i h
  after_quiet s s' (unborn, t) i h = h
  after_quiet s s' (started, t) i h = h
  after_quiet s s' (working q u, t) i h = h
  after_quiet s s' (worked q, t) i h = h

  by_stop :
      (i : ℕ) (s : Pool Q U) (b : Bool)
      → ScanEnds p s
          (if b then (exited, beat i remove_worker s) else look_for_work p i (join_old_threads s))
  by_stop i s true = beaten i remove_worker s
  by_stop i s false =
      after_quiet s (join_old_threads s) _ (unjoined s)
        (look_for_work-ScanEnds i (join_old_threads s))

  -- A round of the loop, from any point at which the worker has the lock.
  pub loop_head-ScanEnds : (i : ℕ) (s : Pool Q U) → ScanEnds p s (loop_head p i s)
  unfolding loop_head
  loop_head-ScanEnds i s = by_stop i s s.stop

  pub enter-ScanEnds : (i : ℕ) (s : Pool Q U) → ScanEnds p s (enter p i s)
  unfolding enter
  enter-ScanEnds i s =
      after_quiet s (beat i add_worker s) _ (beaten i add_worker s)
        (loop_head-ScanEnds i (beat i add_worker s))
