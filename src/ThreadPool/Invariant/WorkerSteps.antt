-- ===== src/ThreadPool/Invariant/WorkerSteps.antt =====
-- The steps of the workers keep the invariant.
use blue_thread.Prelude.{
  ℕ, ◌≤◌, ◌≡◌, ◌≢◌, refl, ◌⊎◌, true, Option, none, some, pos, total, weight-le-total, update, done,
  arith,
}
use blue_thread.ThreadPool.{Pool}
use blue_thread.ThreadPool.Queue.{Container, WorkQueue}
use blue_thread.ThreadPool.Scan.{
  WorkerAt, unborn, started, waiting, took, working, worked, exited, loop_head, begin_item,
  end_item, finish_item, must_notify,
}
use blue_thread.ThreadPool.Calls.{holding, has_items}
use blue_thread.ThreadPool.System.{System, worker_moves, notify}
use blue_thread.ThreadPool.Effects.{Kept, popped, ScanEnds}
use blue_thread.ThreadPool.Effects.Rounds.{loop_head-ScanEnds}
use blue_thread.ThreadPool.Effects.Items.{begin_item-done, finish_item-done}
use blue_thread.ThreadPool.Invariant.{may_wait, busy, Inv}
use blue_thread.ThreadPool.Invariant.Workers.{
  below, process-nonempty, finish-nonempty, begins-WorkInv, ends-WorkInv, finishes-WorkInv,
}
use blue_thread.ThreadPool.Invariant.Rounds.{scan-WorkInv, next_scan-WorkInv}
use blue_thread.ThreadPool.Invariant.Clients.{kept-ClientInv, notify-ClientInv}
use blue_thread.ThreadPool.Invariant.Rests.{same-MayRest, scan-MayRest, notified-MayRest}

module _ {Q T U : Type 0} (p : Container Q T U) where
  pub ScanEnds-Kept : (s : Pool Q U) (r : WorkerAt U × Pool Q U) → ScanEnds p s r → Kept s r.1
  ScanEnds-Kept s (took q, t) (z, h) = h.kept
  ScanEnds-Kept s (waiting, t) h = h.kept
  ScanEnds-Kept s (exited, t) h = h.kept
  ScanEnds-Kept s (unborn, t) h = absurd h
  ScanEnds-Kept s (started, t) h = absurd h
  ScanEnds-Kept s (working q u, t) h = absurd h
  ScanEnds-Kept s (worked q, t) h = absurd h

  module _ {m : ℕ} (s : System Q U) (v : Inv p m s) where
    pub round-Inv :
        (i : ℕ) (r : WorkerAt U × Pool Q U)
        → (s.worker i ≡ started) ⊎ (s.worker i ≡ waiting)
        → ScanEnds p s.pool r
        → Inv p m (worker_moves i r s)
    round-Inv i r a h =
        let k = ScanEnds-Kept s.pool r h in
        record {
          workers = scan-WorkInv p v.workers i (below v.workers i (ground arith)) a r h;
          clients = kept-ClientInv v.clients r.1 k.paused k.draining;
          rests = λ j. scan-MayRest p v.clients v.workers r h j (v.rests j);
        }

    works_may_wait :
        (t : Pool Q U) (q : ℕ) (x : WorkQueue Q U)
        → x.items ≡ (s.pool.queues q).items
        → x.emptied ≡ (s.pool.queues q).emptied
        → t.queues ≡ update s.pool.queues q x
        → (w : Option ℕ) → may_wait p w s.pool ≡ true
        → may_wait p w t ≡ true
    unfolding may_wait has_items
    works_may_wait t q x e d f none h = h
    works_may_wait t q x e d f (some r) h = ground arith

    pub begins-Inv :
        (i q : ℕ) (u : U) (t : Pool Q U)
        → s.worker i ≡ took q
        → begin_item p i q s.pool ≡ done u t
        → Inv p m (worker_moves i (working q u, t) s)
    begins-Inv i q u t a e =
        let lt = below v.workers i (ground arith) in
        let (x, xs, f) = process-nonempty v.workers i lt q a in
        let (t', g, n, h) = begin_item-done p i q x xs s.pool f in
        let same : (u ≡ x) × (t ≡ t') = (cc, cc) in
        rw (same.0, same.1)
          (record {
            workers = begins-WorkInv v.workers i lt q x xs t' a f n h;
            clients = kept-ClientInv v.clients t' h.kept.paused h.kept.draining;
            rests = λ j.
                same-MayRest p s.pool t' (s.client j) n
                  (works_may_wait t' q (popped xs (s.pool.queues q)) refl refl h.queues)
                  (v.rests j);
          })

    pub ends-Inv :
        (i q : ℕ) (u : U)
        → s.worker i ≡ working q u
        → Inv p m (worker_moves i (worked q, end_item p q u s.pool) s)
    unfolding end_item
    ends-Inv i q u a =
        let lt = below v.workers i (ground arith) in
        let t = end_item p q u s.pool in
        record {
          workers = ends-WorkInv v.workers i lt q u t a refl refl refl;
          clients = kept-ClientInv v.clients t refl refl;
          rests = λ j.
              same-MayRest p s.pool t (s.client j) refl (works_may_wait t q _ refl refl refl)
                (v.rests j);
        }

    -- While a worker has an item, no thread holds the pool.
    pub not_held : (i j : ℕ) → busy (s.worker i) ≡ 1 → s.client j ≢ holding
    not_held i j a e =
        let quiet : s.pool.processing ≡ pos 0 = rw e at (v.rests j) in
        let some : 1 ≤ total busy s.made s.worker =
          rw a at (weight-le-total busy s.made i s.worker (below v.workers i (ground arith))) in
        ground (arith, v.workers.counted)

    pub finishes-Inv :
        (i q : ℕ) (t : Pool Q U)
        → s.worker i ≡ worked q
        → finish_item p q s.pool ≡ done tt t
        → Inv p m (
            worker_moves i
              (loop_head p i t)
              (record s { client = notify (must_notify p t) s.client }))
    finishes-Inv i q t a e =
        let lt = below v.workers i (ground arith) in
        let (x, xs, f) = finish-nonempty v.workers i lt q a in
        let (t', g, n, h) = finish_item-done p q x xs s.pool f in
        let same : t ≡ t' = cc in
        let k = ScanEnds-Kept t' _ (loop_head-ScanEnds p i t') in
        let c = kept-ClientInv v.clients t' h.kept.paused h.kept.draining in
        rw same (record {
          workers =
              next_scan-WorkInv p s.worker i (finishes-WorkInv v.workers i lt q x xs t' a f n h) lt
                _ (loop_head-ScanEnds p i t');
          clients = kept-ClientInv (notify-ClientInv c (must_notify p t')) _ k.paused k.draining;
          rests = λ j. notified-MayRest p c _ j (not_held i j (ground arith));
        })
