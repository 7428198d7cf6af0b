-- ===== src/ThreadPool/Ledger/Runs.antt =====
-- The account of the items of a queue over a run of the pool.
use blue_thread.Prelude.{
  ℕ, ◌+◌, ◌≡◌, refl, inl, inr, List, [], ◌∷◌, Option, Bool-cases, ◌==◌, if◌then◌else◌, sum,
  sum-append, update, done, arith,
}
use blue_thread.ThreadPool.{Pool}
use blue_thread.ThreadPool.Queue.{Container, WorkQueue, clear_queue}
use blue_thread.ThreadPool.Scan.{
  took, working, worked, begin_item, finish_item, loop_head, must_notify, with_queue,
}
use blue_thread.ThreadPool.Calls.{
  queue, queue_front, add_work_queue, remove_work_queue, pause, unpause, drain, drain_check,
  stop_begin, stop_clear, stop_end, clear_all,
}
use blue_thread.ThreadPool.System.{
  System, worker_moves, client_moves, Step, worker_starts, worker_wakes, worker_begins, worker_ends,
  worker_finishes, client_pauses, client_rechecks, client_unpauses, client_drains, client_redrains,
  client_queues, client_queues_front, client_adds, client_removes, client_starts, client_stops,
  client_joins, client_stopped, Reach, here, next, new_system, NothingInWork, notify,
}
use blue_thread.ThreadPool.Effects.Rounds.{enter-ScanEnds, loop_head-ScanEnds}
use blue_thread.ThreadPool.Effects.Items.{begin_item-done, finish_item-done}
use blue_thread.ThreadPool.Invariant.{Inv}
use blue_thread.ThreadPool.Invariant.Workers.{below, process-nonempty, finish-nonempty}
use blue_thread.ThreadPool.Invariant.Waits.{Fills, drain_check_ends}
use blue_thread.ThreadPool.Invariant.Preserved.{new-Inv}
use blue_thread.ThreadPool.Ledger.{Stores, Ledger, inserted, all_inserted}
use blue_thread.ThreadPool.Ledger.Steps.{
  other_clients, start-Ledger, scan-Ledger, begins-Ledger, ends-Ledger, finishes-Ledger,
  next_round-Ledger,
}

module _ {Q T U : Type 0} (p : Container Q T U) (contents : Q → List U) (turn : T → U)
    (law : Stores p contents turn) (f : U → ℕ) (q : ℕ) where
  -- The queues stay, in all that the account looks at.
  same-Ledger :
      (g : ℕ) (s t : System Q U)
      → t.pool.queues ≡ s.pool.queues
      → t.made ≡ s.made
      → t.worker ≡ s.worker
      → Ledger contents f q g s
      → Ledger contents f q (0 + g) t
  same-Ledger g s t e n w l = record {
    loaded = rw (e, n, w) (omega (arith, l.loaded));
    done_twice = rw e l.done_twice;
  }

  same-plain :
      (g : ℕ) (s t : System Q U)
      → t.pool.queues ≡ s.pool.queues
      → t.made ≡ s.made
      → t.worker ≡ s.worker
      → Ledger contents f q g s
      → Ledger contents f q g t
  same-plain g s t e n w l = record {
    loaded = rw (e, n, w) l.loaded;
    done_twice = rw e l.done_twice;
  }

  -- Nothing is put in the queue.
  none_in : (g : ℕ) (s : System Q U) → Ledger contents f q g s → Ledger contents f q (0 + g) s
  none_in g s l = same-Ledger g s s refl refl refl l

  queue-Ledger :
      (g : ℕ) (s : System Q U) (r : ℕ) (x : T) (c : Q)
      → sum f (contents c) ≡ f (turn x) + sum f (contents (s.pool.queues r).items)
      → Ledger contents f q g s
      → Ledger contents f q (sum (λ y. f (turn y)) (if r == q then x ∷ [] else []) + g) (record s {
        pool = record s.pool {
          queues = update s.pool.queues r (record (s.pool.queues r) { items = c });
        };
      })
  queue-Ledger g s r x c e l = elim (Bool-cases (r == q)) [
    | inl d ↦ record {
      loaded = rw d (ground (arith, l.loaded));
      done_twice = ground (arith, l.done_twice);
    }
    | inr d ↦ record {
      loaded = rw d (ground (arith, l.loaded));
      done_twice = ground (arith, l.done_twice);
    }
  ]

  module _ {m : ℕ} (g : ℕ) (s : System Q U) (v : Inv p m s) where
    begun-Ledger :
        (i x : ℕ) (u : U) (t : Pool Q U)
        → s.worker i ≡ took x
        → begin_item p i x s.pool ≡ done u t
        → Ledger contents f q g s
        → Ledger contents f q g (worker_moves i (working x u, t) s)
    begun-Ledger i x u t a e l =
        let lt = below v.workers i (ground arith) in
        let (y, ys, d) = process-nonempty v.workers i lt x a in
        let (t', k, n, h) = begin_item-done p i x y ys s.pool d in
        let same : (u ≡ y) × (t ≡ t') = (cc, cc) in
        rw (same.0, same.1) (begins-Ledger contents f q g s i x y ys t' lt a d h.queues l)

    finished-Ledger :
        (i x : ℕ) (t : Pool Q U)
        → s.worker i ≡ worked x
        → finish_item p x s.pool ≡ done tt t
        → Ledger contents f q g s
        → Ledger contents f q g (
            worker_moves i
              (loop_head p i t)
              (record s { client = notify (must_notify p t) s.client }))
    finished-Ledger i x t a e l =
        let lt = below v.workers i (ground arith) in
        let (y, ys, d) = finish-nonempty v.workers i lt x a in
        let (t', k, n, h) = finish_item-done p x y ys s.pool d in
        let same : t ≡ t' = cc in
        let rested = finishes-Ledger contents f q g s i x y ys t' lt a d h.queues l in
        rw same (
          other_clients contents f q g _ (notify (must_notify p t') s.client)
            (next_round-Ledger contents f q g p law s i t' lt rested (loop_head-ScanEnds p i t')))

    drained-Ledger :
        (j : ℕ) (w : Option ℕ) (t : Pool Q U)
        → t.queues ≡ s.pool.queues
        → Ledger contents f q g s
        → Ledger contents f q (0 + g) (client_moves j (drain_check p w t) s)
    drained-Ledger j w t e l = elim (drain_check_ends p w t) [
      | inl (d, r) ↦ rw d (same-Ledger g s _ e refl refl l)
      | inr d ↦ rw d (same-Ledger g s _ e refl refl l)
    ]

  clear_one-Ledger :
      (g r : ℕ) (s : System Q U)
      → Ledger contents f q g s
      → Ledger contents f q g
          (record s { pool = with_queue r (clear_queue p (s.pool.queues r)) s.pool })
  unfolding clear_queue
  clear_one-Ledger g r s l =
      let c = (s.pool.queues r).items in
      record {
        loaded = ground (
          arith,
          l.loaded,
          law.clear_drops f c,
          sum-append f (p.clear c).0 (s.pool.queues r).dropped,
        );
        done_twice = ground (arith, l.done_twice);
      }

  clear_all-Ledger :
      (g : ℕ) (qs : List ℕ) (s : System Q U)
      → Ledger contents f q g s
      → Ledger contents f q g (record s { pool = clear_all p qs s.pool })
  unfolding clear_all
  clear_all-Ledger g [] s l = same-plain g s _ refl refl refl l
  clear_all-Ledger g (r ∷ qs) s l =
      clear_all-Ledger g qs
        (record s { pool = with_queue r (clear_queue p (s.pool.queues r)) s.pool })
        (clear_one-Ledger g r s l)

  module _ {m : ℕ} where
    pub Step-Ledger :
        (g : ℕ) (s t : System Q U)
        → Inv p m s
        → (k : Step p m s t) → Ledger contents f q g s
        → Ledger contents f q (sum (λ x. f (turn x)) (inserted q k) + g) t
    unfolding queue queue_front add_work_queue remove_work_queue pause unpause drain stop_begin
        stop_clear stop_end
    Step-Ledger g s t v (worker_starts i a) l = none_in g t (
        scan-Ledger contents f q g p law s i _ (below v.workers i (ground arith)) (rw a refl)
          (enter-ScanEnds p i s.pool) l)
    Step-Ledger g s t v (worker_wakes i a) l = none_in g t (
        scan-Ledger contents f q g p law s i _ (below v.workers i (ground arith)) (rw a refl)
          (loop_head-ScanEnds p i s.pool) l)
    Step-Ledger g s t v (worker_begins i x u d a e) l =
        none_in g t (begun-Ledger g s v i x u d a e l)
    Step-Ledger g s t v (worker_ends i x u a) l =
        none_in g t (ends-Ledger contents f q g p s i x u (below v.workers i (ground arith)) a l)
    Step-Ledger g s t v (worker_finishes i x d a e) l =
        none_in g t (finished-Ledger g s v i x d a e l)
    Step-Ledger g s t v (client_pauses j h a) l = same-Ledger g s t refl refl refl l
    Step-Ledger g s t v (client_rechecks j b h a) l = same-Ledger g s t refl refl refl l
    Step-Ledger g s t v (client_unpauses j h a) l = same-Ledger g s t refl refl refl l
    Step-Ledger g s t v (client_drains j w h a) l = drained-Ledger g s v j w _ refl l
    Step-Ledger g s t v (client_redrains j w b h a) l = drained-Ledger g s v j w _ refl l
    Step-Ledger g s t v (client_queues r x) l =
        queue-Ledger g s r x _ (law.enqueue_stores f x (s.pool.queues r).items) l
    Step-Ledger g s t v (client_queues_front r x) l =
        queue-Ledger g s r x _ (law.enqueue_front_stores f x (s.pool.queues r).items) l
    Step-Ledger g s t v (client_adds r) l = same-Ledger g s t refl refl refl l
    Step-Ledger g s t v (client_removes r) l = same-Ledger g s t refl refl refl l
    Step-Ledger g s t v client_starts l = none_in g t (start-Ledger contents f q g s l)
    Step-Ledger g s t v (client_stops j h a) l = same-Ledger g s t refl refl refl l
    Step-Ledger g s t v (client_joins j h a b) l = same-Ledger g s t refl refl refl l
    Step-Ledger g s t v (client_stopped j h a) l =
        same-Ledger g (record s { pool = clear_all p s.pool.work_queues s.pool }) t refl refl refl
          (clear_all-Ledger g s.pool.work_queues s l)

    pub Reach-Ledger :
        (queues : ℕ → WorkQueue Q U) (n grace suicide_grace : ℕ) (g : ℕ) (t : System Q U)
        → Fills p
        → NothingInWork queues
        → (r : Reach p m (new_system queues n grace suicide_grace) t)
        → Ledger contents f q g (new_system queues n grace suicide_grace)
        → Ledger contents f q (sum (λ x. f (turn x)) (all_inserted q r) + g) t
    Reach-Ledger queues n grace suicide_grace g t d h here l = none_in g t l
    Reach-Ledger queues n grace suicide_grace g t d h (next {t = s} r k) l =
        let sofar = sum (λ x. f (turn x)) (all_inserted q r) + g in
        let v = new-Inv p d queues n grace suicide_grace h s r in
        let m = Step-Ledger sofar s t v k (Reach-Ledger queues n grace suicide_grace g s d h r l) in
        record {
          loaded =
              omega
                (arith, m.loaded, sum-append (λ x. f (turn x)) (inserted q k) (all_inserted q r));
          done_twice = m.done_twice;
        }
