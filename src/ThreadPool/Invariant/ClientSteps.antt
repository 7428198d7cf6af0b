-- ===== src/ThreadPool/Invariant/ClientSteps.antt =====
-- The steps of the threads that call the pool keep the invariant.
use blue_thread.Prelude.{ℕ, ◌<◌, ◌≡◌, refl, inl, inr, Bool, false, Option, update, In, arith}
use blue_thread.Prelude.Integer.{increment}
use blue_thread.ThreadPool.{Pool}
use blue_thread.ThreadPool.Queue.{Container, WorkQueue}
use blue_thread.ThreadPool.Scan.{exited, join_old_threads}
use blue_thread.ThreadPool.Calls.{
  ClientAt, outside, pausing, holding, draining_at, stopping, joined, pause_check, pause, unpause,
  drain_check, drain, stop_begin, stop_clear, stop_end,
}
use blue_thread.ThreadPool.System.{System, client_moves}
use blue_thread.ThreadPool.Invariant.{in_pause, in_drain, WorkInv, ClientInv, MayRest, Inv}
use blue_thread.ThreadPool.Invariant.Clients.{
  kept-ClientInv, stays-ClientInv, enters_pause-ClientInv, enters_drain-ClientInv,
  leaves_pause-ClientInv, leaves_drain-ClientInv,
}
use blue_thread.ThreadPool.Invariant.Rests.{same-MayRest, idle_may_wait}
use blue_thread.ThreadPool.Invariant.Clearing.{clear_all-Cleared, stopped_wait}
use blue_thread.ThreadPool.Invariant.Waits.{
  decrement-increment, same-WorkInv, moved-rests, check-MayRest, pause_check-in_pause,
  drain_check_ends, fuller,
}

module _ {Q T U : Type 0} (p : Container Q T U) where
  module _ {m : ℕ} (s : System Q U) (v : Inv p m s) where
    plain-MayRest :
        (t : Pool Q U)
        → t.processing ≡ s.pool.processing
        → t.queues ≡ s.pool.queues
        → (i : ℕ) → MayRest p t (s.client i)
    plain-MayRest t n h i =
        same-MayRest p s.pool t (s.client i) n (idle_may_wait p s.pool t h) (v.rests i)

    plain-WorkInv :
        (t : Pool Q U)
        → t.threads ≡ s.pool.threads
        → t.processing ≡ s.pool.processing
        → t.queues ≡ s.pool.queues
        → WorkInv s.made s.worker t
    plain-WorkInv t e n h = same-WorkInv v.workers t e n (λ q. (rw h refl, rw h refl))

    -- A change of the pool that its counts, its queues and its threads do not see.
    pub plain-Inv :
        (t : Pool Q U)
        → t.paused ≡ s.pool.paused
        → t.draining ≡ s.pool.draining
        → t.threads ≡ s.pool.threads
        → t.processing ≡ s.pool.processing
        → t.queues ≡ s.pool.queues
        → Inv p m (record s { pool = t })
    plain-Inv t a b e n h = record {
      workers = plain-WorkInv t e n h;
      clients = kept-ClientInv v.clients t a b;
      rests = plain-MayRest t n h;
    }

    -- Items are put in the container of the queue.
    pub fills-Inv :
        (q : ℕ) (x : WorkQueue Q U)
        → x.to_process ≡ (s.pool.queues q).to_process
        → x.to_finish ≡ (s.pool.queues q).to_finish
        → p.empty x.items ≡ false
        → Inv p m (record s { pool = record s.pool { queues = update s.pool.queues q x } })
    fills-Inv q x a b e =
        let t = record s.pool { queues = update s.pool.queues q x } in
        record {
          workers = same-WorkInv v.workers t refl refl (λ r. (ground arith, ground arith));
          clients = kept-ClientInv v.clients t refl refl;
          rests =
              λ j. same-MayRest p s.pool t (s.client j) refl (fuller p s.pool q x e) (v.rests j);
        }

    module _ (j : ℕ) (lt : j < m) where
      -- A thread moves, and the pool changes only in its counts of the calls.
      pub moves-Inv :
          (c : ClientAt) (t : Pool Q U)
          → ClientInv m (update s.client j c) t
          → t.threads ≡ s.pool.threads
          → t.processing ≡ s.pool.processing
          → t.queues ≡ s.pool.queues
          → MayRest p t c
          → Inv p m (client_moves j (c, t) s)
      moves-Inv c t k e n h r = record {
        workers = plain-WorkInv t e n h;
        clients = k;
        rests = moved-rests p s.client j c t (plain-MayRest t n h) r;
      }

      pub pauses-Inv : s.client j ≡ outside → Inv p m (client_moves j (pause s.pool) s)
      unfolding pause
      pauses-Inv a =
          let t = record s.pool { paused = increment s.pool.paused } in
          let (e, f) = pause_check-in_pause p t in
          moves-Inv (pause_check t) t
            (enters_pause-ClientInv v.clients j lt (pause_check t) t e f a refl refl) refl refl refl
            (check-MayRest p t)

      pub rechecks-Inv :
          (b : Bool)
          → s.client j ≡ pausing b
          → Inv p m (client_moves j (pause_check s.pool, s.pool) s)
      rechecks-Inv b a =
          let (e, f) = pause_check-in_pause p s.pool in
          moves-Inv (pause_check s.pool) s.pool
            (stays-ClientInv v.clients j lt (pause_check s.pool) s.pool (rw a e) (rw a f) refl refl)
            refl refl refl (check-MayRest p s.pool)

      pub unpauses-Inv : s.client j ≡ holding → Inv p m (client_moves j (outside, unpause s.pool) s)
      unfolding unpause
      unpauses-Inv a =
          moves-Inv outside (unpause s.pool)
            (leaves_pause-ClientInv v.clients j lt outside (unpause s.pool) refl refl a refl refl)
            refl refl refl tt

      pub drains-Inv :
          (w : Option ℕ) → s.client j ≡ outside → Inv p m (client_moves j (drain p w s.pool) s)
      unfolding drain
      drains-Inv w a =
          let t = record s.pool { draining = increment s.pool.draining } in
          elim (drain_check_ends p w t) [
            | inl (e, r) ↦ rw e (
                moves-Inv (draining_at w false) t
                  (enters_drain-ClientInv v.clients j lt (draining_at w false) t refl refl a refl
                    refl)
                  refl refl refl r)
            | inr e ↦ rw e (
                moves-Inv outside _
                  (stays-ClientInv v.clients j lt outside _ (rw a refl) (rw a refl) refl
                    (decrement-increment s.pool.draining))
                  refl refl refl tt)
          ]

      pub redrains-Inv :
          (w : Option ℕ) (b : Bool)
          → s.client j ≡ draining_at w b
          → Inv p m (client_moves j (drain_check p w s.pool) s)
      redrains-Inv w b a = elim (drain_check_ends p w s.pool) [
        | inl (e, r) ↦ rw e (
            moves-Inv (draining_at w false) s.pool
              (stays-ClientInv v.clients j lt (draining_at w false) s.pool (rw a refl) (rw a refl)
                refl refl)
              refl refl refl r)
        | inr e ↦ rw e (
            moves-Inv outside _
              (leaves_drain-ClientInv v.clients j lt outside _ refl refl (rw a refl) (rw a refl)
                refl refl)
              refl refl refl tt)
      ]

      -- A thread goes on in start() or stop(), and the counts of the calls stay.
      pub neutral-ClientInv :
          (c : ClientAt) (t : Pool Q U)
          → in_pause c ≡ in_pause (s.client j)
          → in_drain c ≡ in_drain (s.client j)
          → t.paused ≡ s.pool.paused
          → t.draining ≡ s.pool.draining
          → ClientInv m (update s.client j c) t
      neutral-ClientInv c t = stays-ClientInv v.clients j lt c t

      pub stops-Inv :
          s.client j ≡ outside → Inv p m (client_moves j (stopping, stop_begin s.pool) s)
      unfolding stop_begin join_old_threads
      stops-Inv a =
          moves-Inv stopping (stop_begin s.pool)
            (neutral-ClientInv stopping (stop_begin s.pool) (rw a refl) (rw a refl) refl refl) refl
            refl refl tt

      pub stopped-Inv :
          s.client j ≡ joined → Inv p m (client_moves j (outside, stop_end p s.pool) s)
      unfolding stop_end
      stopped-Inv a =
          let t = stop_end p s.pool in
          let k = clear_all-Cleared p s.pool.work_queues s.pool in
          record {
            workers = same-WorkInv v.workers t k.threads k.processing k.lists;
            clients = neutral-ClientInv outside t (rw a refl) (rw a refl) k.paused k.draining;
            rests =
                moved-rests p s.client j outside t
                  (λ i.
                    same-MayRest p s.pool t (s.client i) k.processing (stopped_wait p k)
                      (v.rests i))
                  tt;
          }

      -- The threads that leave the set have left worker().
      pub joins-Inv :
          s.client j ≡ stopping
          → ((i : ℕ) → In i s.pool.threads → s.worker i ≡ exited)
          → Inv p m (client_moves j (joined, stop_clear s.pool) s)
      unfolding stop_clear
      joins-Inv a g = record {
        workers = record {
          counted = v.workers.counted;
          to_process = v.workers.to_process;
          to_finish = v.workers.to_finish;
          future = v.workers.future;
          owned = λ i h. inl (elim (v.workers.owned i h) [ inl e ↦ e | inr e ↦ g i e ]);
          born = v.workers.born;
          listed = λ i h. absurd h;
        };
        clients = neutral-ClientInv joined (stop_clear s.pool) (rw a refl) (rw a refl) refl refl;
        rests =
            moved-rests p s.client j joined (stop_clear s.pool)
              (plain-MayRest (stop_clear s.pool) refl refl) tt;
      }
