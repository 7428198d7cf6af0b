-- ===== src/ThreadPool/Ledger/Steps.antt =====
-- Each step keeps the account of the items of a queue.
use blue_thread.Prelude.{
  ℕ, zero, suc, ◌+◌, ◌-◌, ◌<◌, ◌≡◌, refl, sym, false, List, [], ◌∷◌, sum, sum-append, length,
  total-update, total_grows, update, arith,
}
use blue_thread.ThreadPool.{Pool}
use blue_thread.ThreadPool.Queue.{Container, WorkQueue}
use blue_thread.ThreadPool.Scan.{
  WorkerAt, unborn, started, waiting, took, working, worked, exited, end_item, loop_head,
}
use blue_thread.ThreadPool.Calls.{ClientAt}
use blue_thread.ThreadPool.System.{System, worker_moves, start, start_threads}
use blue_thread.ThreadPool.Effects.{dequeued, popped, popped_finish, ScanEnds}
use blue_thread.ThreadPool.Invariant.Rounds.{update_twice}
use blue_thread.ThreadPool.Ledger.{Stores, in_hand, stock, Ledger}

module _ {Q U : Type 0} (contents : Q → List U) (f : U → ℕ) (q g : ℕ) where
  -- One worker moves, and what the queue and the worker have together stays.
  moved-Ledger :
      (s : System Q U) (i : ℕ) (r : WorkerAt U × Pool Q U)
      → i < s.made
      → stock contents f (r.1.queues q) + in_hand f q r.0
        ≡ stock contents f (s.pool.queues q) + in_hand f q (s.worker i)
      → sum f (r.1.queues q).processed
        ≡ sum f (r.1.queues q).to_finish + sum f (r.1.queues q).finished
      → Ledger contents f q g s
      → Ledger contents f q g (worker_moves i r s)
  moved-Ledger s i r lt e n l = record {
    loaded = omega (arith, e, l.loaded, total-update (in_hand f q) s.made i s.worker r.0 lt);
    done_twice = n;
  }

  -- The threads that call the pool play no part.
  pub other_clients :
      (s : System Q U) (c : ℕ → ClientAt)
      → Ledger contents f q g s
      → Ledger contents f q g (record s { client = c })
  other_clients s c l = record { loaded = l.loaded; done_twice = l.done_twice }

  start_threads-Ledger :
      (k : ℕ) (s : System Q U) → Ledger contents f q g s → Ledger contents f q g (start_threads k s)
  unfolding start_threads
  start_threads-Ledger zero s l = l
  start_threads-Ledger (suc k) s l = start_threads-Ledger k _ (record {
    loaded = omega (arith, l.loaded, total_grows (in_hand f q) s.made s.worker started refl);
    done_twice = l.done_twice;
  })

  pub start-Ledger : (s : System Q U) → Ledger contents f q g s → Ledger contents f q g (start s)
  unfolding start
  start-Ledger s l = start_threads-Ledger (s.pool.num_threads - length s.pool.threads) s l

  module _ {T : Type 0} (p : Container Q T U) {turn : T → U} (law : Stores p contents turn) where
    stock-dequeued :
        (w : WorkQueue Q U)
        → p.empty w.items ≡ false
        → stock contents f (dequeued p w) ≡ stock contents f w
    stock-dequeued w e = omega (
      arith,
      law.dequeue_takes f w.items e,
      sum-append f w.to_process ((p.dequeue w.items).0 ∷ []),
    )

    pub scan-Ledger :
        (s : System Q U) (i : ℕ) (r : WorkerAt U × Pool Q U)
        → i < s.made
        → in_hand f q (s.worker i) ≡ 0
        → ScanEnds p s.pool r
        → Ledger contents f q g s
        → Ledger contents f q g (worker_moves i r s)
    scan-Ledger s i (took x, t) lt z (_, h) l =
        moved-Ledger s i (took x, t) lt
          (ground (arith, stock-dequeued (s.pool.queues x), h.queues, h.found))
          (ground (arith, h.queues, l.done_twice)) l
    scan-Ledger s i (waiting, t) lt z h l =
        moved-Ledger s i (waiting, t) lt (rw (h.queues, z) refl) (rw h.queues l.done_twice) l
    scan-Ledger s i (exited, t) lt z h l =
        moved-Ledger s i (exited, t) lt (rw (h.queues, z) refl) (rw h.queues l.done_twice) l
    scan-Ledger s i (unborn, t) lt z h l = absurd h
    scan-Ledger s i (started, t) lt z h l = absurd h
    scan-Ledger s i (working x u, t) lt z h l = absurd h
    scan-Ledger s i (worked x, t) lt z h l = absurd h

  pub begins-Ledger :
      (s : System Q U) (i x : ℕ) (u : U) (us : List U) (t : Pool Q U)
      → i < s.made
      → s.worker i ≡ took x
      → (s.pool.queues x).to_process ≡ u ∷ us
      → t.queues ≡ update s.pool.queues x (popped us (s.pool.queues x))
      → Ledger contents f q g s
      → Ledger contents f q g (worker_moves i (working x u, t) s)
  begins-Ledger s i x u us t lt a e h l =
      moved-Ledger s i (working x u, t) lt (ground (arith, h)) (ground (arith, h, l.done_twice)) l

  pub ends-Ledger :
      {T : Type 0} (p : Container Q T U) (s : System Q U) (i x : ℕ) (u : U)
      → i < s.made
      → s.worker i ≡ working x u
      → Ledger contents f q g s
      → Ledger contents f q g (worker_moves i (worked x, end_item p x u s.pool) s)
  unfolding end_item
  ends-Ledger p s i x u lt a l =
      let grown = sum-append f (s.pool.queues x).to_finish (u ∷ []) in
      moved-Ledger s i (worked x, end_item p x u s.pool) lt (ground (arith, grown))
        (ground (arith, grown, l.done_twice)) l

  pub finishes-Ledger :
      (s : System Q U) (i x : ℕ) (u : U) (us : List U) (t : Pool Q U)
      → i < s.made
      → s.worker i ≡ worked x
      → (s.pool.queues x).to_finish ≡ u ∷ us
      → t.queues ≡ update s.pool.queues x (popped_finish u us (s.pool.queues x))
      → Ledger contents f q g s
      → Ledger contents f q g (worker_moves i (waiting, t) s)
  finishes-Ledger s i x u us t lt a e h l =
      moved-Ledger s i (waiting, t) lt (ground (arith, h)) (ground (arith, h, l.done_twice)) l

  -- A worker at rest goes on with a round.
  pub next_round-Ledger :
      {T : Type 0} (p : Container Q T U) {turn : T → U} (law : Stores p contents turn)
      → (s : System Q U) (i : ℕ) (t : Pool Q U) → i < s.made
      → Ledger contents f q g (worker_moves i (waiting, t) s)
      → ScanEnds p t (loop_head p i t)
      → Ledger contents f q g (worker_moves i (loop_head p i t) s)
  next_round-Ledger p law s i t lt l h =
      let l' =
        scan-Ledger p law (worker_moves i (waiting, t) s) i (loop_head p i t) lt (ground arith) h
          l in
      record {
        loaded = rw (sym (update_twice s.worker i waiting (loop_head p i t).0)) l'.loaded;
        done_twice = l'.done_twice;
      }
