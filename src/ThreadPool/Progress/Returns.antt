-- ===== src/ThreadPool/Progress/Returns.antt =====
-- pause() and stop() can always return.
use blue_thread.Prelude.{
  ℕ, ◌≡◌, ◌≢◌, refl, ap, ◌∙◌, Bool, true, false, total, total-eq-zero, weight-le-total, pos, arith,
}
use blue_thread.ThreadPool.Queue.{Container, WorkQueue}
use blue_thread.ThreadPool.Calls.{
  ClientAt, outside, pausing, holding, draining_at, stopping, joined, pause_check, stop_clear,
}
use blue_thread.ThreadPool.System.{
  System, client_moves, Reach, next, ArePrompted, client_rechecks, client_joins, new_system,
  NothingInWork,
}
use blue_thread.ThreadPool.Invariant.{busy, in_pause, Inv}
use blue_thread.ThreadPool.Invariant.Clients.{inside-lt}
use blue_thread.ThreadPool.Invariant.Waits.{Fills}
use blue_thread.ThreadPool.Invariant.Preserved.{new-Inv}
use blue_thread.ThreadPool.Progress.{rank}
use blue_thread.ThreadPool.Progress.Settle.{settle}
use blue_thread.ThreadPool.Progress.Settling.{
  paused-Settles, stopped-Settles, Notified-in_pause, Notified-stopping, busy-rank, gone,
}

module _ {Q T U : Type 0} (p : Container Q T U) (law : Fills p) {m : ℕ} where
  -- The states of a thread in pause(), once nothing is in work.
  recheck :
      (j : ℕ) (s t : System Q U)
      → Inv p m t
      → (r : Reach p m s t) → ArePrompted p m r
      → in_pause (t.client j) ≡ 1
      → t.pool.processing ≡ pos 0
      → (c : ClientAt) → t.client j ≡ c
      → (u : System Q U) × (o : Reach p m s u) × ArePrompted p m o × (u.client j ≡ holding)
  unfolding pause_check
  recheck j s t v r q e z (pausing true) a = (
    client_moves j (pause_check t.pool, t.pool) t,
    next r (client_rechecks j true (inside-lt v.clients j (ground arith)) a),
    (q, refl),
    ground arith,
  )
  recheck j s t v r q e z (pausing false) a =
      let waits : t.pool.processing ≢ pos 0 = rw a at (v.rests j) in absurd (waits z)
  recheck j s t v r q e z holding a = (t, r, q, a)
  recheck j s t v r q e z outside a = absurd (ground arith)
  recheck j s t v r q e z (draining_at w b) a = absurd (ground arith)
  recheck j s t v r q e z stopping a = absurd (ground arith)
  recheck j s t v r q e z joined a = absurd (ground arith)

  resting_processing :
      (b : Bool) (s : System Q U)
      → Inv p m s
      → total (rank b) s.made s.worker ≡ 0
      → s.pool.processing ≡ pos 0
  resting_processing b s v e =
      v.workers.counted
      ∙ ap pos (
          total-eq-zero busy s.made s.worker λ i lt.
            busy-rank b (s.worker i) (omega (arith, weight-le-total (rank b) s.made i s.worker lt)))

module _ {Q T U : Type 0} (p : Container Q T U) (law : Fills p) (m : ℕ) (queues : ℕ → WorkQueue Q U)
    (n grace suicide_grace : ℕ) (h : NothingInWork queues) (s : System Q U)
    (r : Reach p m (new_system queues n grace suicide_grace) s) (j : ℕ) where
  -- From every state that a new pool reaches in which a thread waits in pause(), the pool can go
  -- on to a state in which that call has returned, whatever the workers have in hand, by steps of
  -- which none ends a wait in pause() or drain() without a notification: the call is woken by a
  -- worker. The containers are not empty after an insertion, and the queues start with nothing in
  -- work.
  pub pause_returns :
      (b : Bool)
      → s.client j ≡ pausing b
      → (t : System Q U) × (o : Reach p m s t) × ArePrompted p m o × (t.client j ≡ holding)
  pause_returns b a =
      let v = new-Inv p law queues n grace suicide_grace h s r in
      let (t, l) =
        settle p law m false (λ x. in_pause (x.client j) ≡ 1)
          (λ x y k c e. Notified-in_pause (x.client j) (y.client j) (c j) ∙ e) (paused-Settles p j)
          s v (rw a refl) in
      recheck p law j s t l.sound l.run l.prompted l.held
        (resting_processing p law false t l.sound l.rests) (t.client j) refl

  -- From every state that a new pool reaches in which a thread is in the joins of stop() and
  -- `_stop` is still set, the pool can go on to a state in which all the joins have returned,
  -- whatever the workers have in hand. The containers are not empty after an insertion, and the
  -- queues start with nothing in work.
  pub stop_returns :
      s.client j ≡ stopping
      → s.pool.stop ≡ true
      → (t : System Q U) × Reach p m s t × (t.client j ≡ joined)
  unfolding stop_clear
  stop_returns a e =
      let v = new-Inv p law queues n grace suicide_grace h s r in
      let (t, l) =
        settle p law m true (λ x. (x.client j ≡ stopping) × (x.pool.stop ≡ true))
          (λ x y k c g. (Notified-stopping (x.client j) (y.client j) (c j) g.0, k.stop ∙ g.1))
          (λ x w g. stopped-Settles p x g.1) s v (a, e) in
      (
        client_moves j (joined, stop_clear t.pool) t,
        next l.run (
            client_joins j (inside-lt l.sound.clients j (ground (arith, l.held.0))) l.held.0 λ i q.
              gone (t.worker i) (l.sound.workers.born i (l.sound.workers.listed i q)) (
                omega (
                  arith,
                  weight-le-total (rank true) t.made i t.worker (l.sound.workers.listed i q),
                  l.rests,
                ))),
        ground arith,
      )
