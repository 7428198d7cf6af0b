-- ===== src/ThreadPool/Progress/Advance.antt =====
-- A worker that still has to make steps can make one.
use blue_thread.Prelude.{ℕ, ◌≡◌, ◌≢◌, refl, ◌∙◌, inl, inr, Bool, true, false, arith}
use blue_thread.ThreadPool.{Pool, add_worker}
use blue_thread.ThreadPool.Queue.{Container}
use blue_thread.ThreadPool.Scan.{
  WorkerAt, unborn, started, waiting, took, working, worked, exited, end_item, loop_head, enter,
  must_notify, beat,
}
use blue_thread.ThreadPool.Calls.{ClientAt}
use blue_thread.ThreadPool.System.{
  System, worker_moves, worker_starts, worker_wakes, worker_begins, worker_ends, worker_finishes,
  notify,
}
use blue_thread.ThreadPool.Effects.{Kept, beaten}
use blue_thread.ThreadPool.Effects.Rounds.{loop_head-ScanEnds}
use blue_thread.ThreadPool.Effects.Items.{begin_item-done, finish_item-done}
use blue_thread.ThreadPool.Invariant.{Inv}
use blue_thread.ThreadPool.Invariant.Workers.{below, process-nonempty, finish-nonempty}
use blue_thread.ThreadPool.Invariant.WorkerSteps.{ScanEnds-Kept}
use blue_thread.ThreadPool.Progress.{rank, Notified, Settles, Advances}

notify-Notified :
    (b : Bool) (client : ℕ → ClientAt) (j : ℕ) → Notified (client j) (notify b client j)
unfolding notify
notify-Notified true client j = inr refl
notify-Notified false client j = inl refl

module _ {Q U : Type 0} where
  Kept-trans : (s t u : Pool Q U) → Kept s t → Kept t u → Kept s u
  Kept-trans s t u h k = record {
    paused = k.paused ∙ h.paused;
    draining = k.draining ∙ h.draining;
    threads = k.threads ∙ h.threads;
    stop = k.stop ∙ h.stop;
  }

  Kept-same : (s : Pool Q U) → Kept s s
  Kept-same s = record { paused = refl; draining = refl; threads = refl; stop = refl }

module _ {Q T U : Type 0} (p : Container Q T U) (m : ℕ) (b : Bool) (s : System Q U) (v : Inv p m s)
    (settles : Settles p b s) (i : ℕ) where
  advance_started :
      s.worker i ≡ started → rank b (s.worker i) ≢ 0 → (t : System Q U) × Advances p m b i s t
  unfolding enter
  advance_started a n =
      let t = beat i add_worker s.pool in
      let k = (beaten i add_worker s.pool).kept in
      (
        worker_moves i (enter p i s.pool) s,
        record {
          step = worker_starts i a;
          prompted = tt;
          made = refl;
          to = (loop_head p i t).0;
          worker = refl;
          lower = ground (arith, settles i t k);
          kept = Kept-trans s.pool t _ k (ScanEnds-Kept p t _ (loop_head-ScanEnds p i t));
          callers = λ j. inl refl;
        },
      )

  advance_waiting :
      s.worker i ≡ waiting → rank b (s.worker i) ≢ 0 → (t : System Q U) × Advances p m b i s t
  advance_waiting a n = (
    worker_moves i (loop_head p i s.pool) s,
    record {
      step = worker_wakes i a;
      prompted = tt;
      made = refl;
      to = (loop_head p i s.pool).0;
      worker = refl;
      lower = ground (arith, settles i s.pool (Kept-same s.pool));
      kept = ScanEnds-Kept p s.pool _ (loop_head-ScanEnds p i s.pool);
      callers = λ j. inl refl;
    },
  )

  advance_took : (q : ℕ) → s.worker i ≡ took q → (t : System Q U) × Advances p m b i s t
  advance_took q a =
      let lt = below v.workers i (ground arith) in
      let (u, us, e) = process-nonempty v.workers i lt q a in
      let (t, g, _, h) = begin_item-done p i q u us s.pool e in
      (
        worker_moves i (working q u, t) s,
        record {
          step = worker_begins i q u t a g;
          prompted = tt;
          made = refl;
          to = working q u;
          worker = refl;
          lower = rw a (omega arith);
          kept = h.kept;
          callers = λ j. inl refl;
        },
      )

  advance_working :
      (q : ℕ) (u : U) → s.worker i ≡ working q u → (t : System Q U) × Advances p m b i s t
  unfolding end_item
  advance_working q u a = (
    worker_moves i (worked q, end_item p q u s.pool) s,
    record {
      step = worker_ends i q u a;
      prompted = tt;
      made = refl;
      to = worked q;
      worker = refl;
      lower = rw a (omega arith);
      kept = record { paused = refl; draining = refl; threads = refl; stop = refl };
      callers = λ j. inl refl;
    },
  )

  advance_worked : (q : ℕ) → s.worker i ≡ worked q → (t : System Q U) × Advances p m b i s t
  advance_worked q a =
      let lt = below v.workers i (ground arith) in
      let (u, us, e) = finish-nonempty v.workers i lt q a in
      let (t, g, _, h) = finish_item-done p q u us s.pool e in
      (
        worker_moves i (loop_head p i t) (record s { client = notify (must_notify p t) s.client }),
        record {
          step = worker_finishes i q t a g;
          prompted = tt;
          made = refl;
          to = (loop_head p i t).0;
          worker = refl;
          lower = ground (arith, settles i t h.kept);
          kept = Kept-trans s.pool t _ h.kept (ScanEnds-Kept p t _ (loop_head-ScanEnds p i t));
          callers = notify-Notified (must_notify p t) s.client;
        },
      )

  advance_by :
      (a : WorkerAt U)
      → s.worker i ≡ a
      → rank b (s.worker i) ≢ 0
      → (t : System Q U) × Advances p m b i s t
  advance_by unborn e n = absurd (ground arith)
  advance_by started e n = advance_started e n
  advance_by waiting e n = advance_waiting e n
  advance_by (took q) e n = advance_took q e
  advance_by (working q u) e n = advance_working q u e
  advance_by (worked q) e n = advance_worked q e
  advance_by exited e n = absurd (ground arith)

  pub advance : rank b (s.worker i) ≢ 0 → (t : System Q U) × Advances p m b i s t
  advance n = advance_by (s.worker i) refl n
