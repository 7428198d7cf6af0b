-- ===== src/ThreadPool/Invariant/Rests.antt =====
-- No thread in pause() or drain() waits without a reason: what each part of the code does to that.
use blue_thread.Prelude.{
  ℕ, zero, suc, ◌≡◌, ◌≢◌, refl, sym, ◌∙◌, inl, inr, Bool, true, false, Option, none, some, ℤ, pos,
  negsuc, if◌then◌else◌, arith,
}
use blue_thread.Prelude.Integer.{is_zero}
use blue_thread.ThreadPool.{Pool}
use blue_thread.ThreadPool.Queue.{Container}
use blue_thread.ThreadPool.Scan.{
  WorkerAt, unborn, started, waiting, took, working, worked, exited, must_notify,
}
use blue_thread.ThreadPool.Calls.{
  ClientAt, outside, pausing, holding, draining_at, stopping, joined, wake, has_items,
}
use blue_thread.ThreadPool.System.{notify}
use blue_thread.ThreadPool.Effects.{ScanEnds}
use blue_thread.ThreadPool.Invariant.{may_wait, ClientInv, WorkInv, MayRest}
use blue_thread.ThreadPool.Invariant.Clients.{in_pause-paused, in_drain-draining}

pub is_zero_iff : (z : ℤ) → is_zero z ≡ true → z ≡ pos 0
is_zero_iff (pos zero) e = refl
is_zero_iff (pos (suc n)) e = absurd (ground arith)
is_zero_iff (negsuc n) e = absurd (ground arith)

pub not_zero : (z : ℤ) → is_zero z ≡ false → z ≢ pos 0
not_zero z e f = ground arith

module _ {Q T U : Type 0} (p : Container Q T U) where
  -- The pool has the same number of items in work, and no queue lost its last item.
  pub same-MayRest :
      (s t : Pool Q U) (c : ClientAt)
      → t.processing ≡ s.processing
      → ((w : Option ℕ) → may_wait p w s ≡ true → may_wait p w t ≡ true)
      → MayRest p s c
      → MayRest p t c
  same-MayRest s t outside e h r = tt
  same-MayRest s t (pausing true) e h r = tt
  same-MayRest s t (pausing false) e h r = rw e r
  same-MayRest s t holding e h r = e ∙ r
  same-MayRest s t (draining_at w true) e h r = tt
  same-MayRest s t (draining_at w false) e h (inl r) = inl (rw e r)
  same-MayRest s t (draining_at w false) e h (inr r) = inr (h w r)
  same-MayRest s t stopping e h r = tt
  same-MayRest s t joined e h r = tt

  -- The items are in work, and nobody holds the pool.
  busy-MayRest : (t : Pool Q U) (c : ClientAt) → t.processing ≢ pos 0 → c ≢ holding → MayRest p t c
  busy-MayRest t outside e n = tt
  busy-MayRest t (pausing true) e n = tt
  busy-MayRest t (pausing false) e n = e
  busy-MayRest t holding e n = absurd (n refl)
  busy-MayRest t (draining_at w true) e n = tt
  busy-MayRest t (draining_at w false) e n = inl e
  busy-MayRest t stopping e n = tt
  busy-MayRest t joined e n = tt

  pub idle_may_wait :
      (s t : Pool Q U)
      → t.queues ≡ s.queues
      → (w : Option ℕ) → may_wait p w s ≡ true
      → may_wait p w t ≡ true
  unfolding may_wait has_items
  idle_may_wait s t e none h = h
  idle_may_wait s t e (some q) h = rw e h

  module _ {m : ℕ} {client : ℕ → ClientAt} {s : Pool Q U} (v : ClientInv m client s) where
    not_holding : (j : ℕ) → is_zero s.paused ≡ true → client j ≢ holding
    not_holding j z e = ground (arith, in_pause-paused v j (rw e refl))

    pub scan-MayRest :
        {made : ℕ} {worker : ℕ → WorkerAt U} (k : WorkInv made worker s) (r : WorkerAt U × Pool Q U)
        → ScanEnds p s r
        → (j : ℕ) → MayRest p s (client j)
        → MayRest p r.1 (client j)
    scan-MayRest k (took q, t) (z, h) j r =
        busy-MayRest t (client j) (ground (arith, k.counted, h.processing)) (not_holding j z)
    scan-MayRest k (waiting, t) h j r =
        same-MayRest s t (client j) h.processing (idle_may_wait s t h.queues) r
    scan-MayRest k (exited, t) h j r =
        same-MayRest s t (client j) h.processing (idle_may_wait s t h.queues) r
    scan-MayRest k (unborn, t) h j r = absurd h
    scan-MayRest k (started, t) h j r = absurd h
    scan-MayRest k (working q u, t) h j r = absurd h
    scan-MayRest k (worked q, t) h j r = absurd h

    -- After the notification at the end of an item, every thread that waits has been notified.
    notified :
        (j : ℕ) (b : Bool) (c : ClientAt)
        → c ≡ client j
        → b ≡ must_notify p s
        → c ≢ holding
        → (t : Pool Q U) → MayRest p t (if b then wake c else c)
    unfolding wake must_notify
    notified j b outside e f n t = ground arith
    notified j b (pausing x) e f n t = ground (arith, in_pause-paused v j (rw (sym e) refl))
    notified j b holding e f n t = absurd (n refl)
    notified j b (draining_at w x) e f n t = ground (arith, in_drain-draining v j (rw (sym e) refl))
    notified j b stopping e f n t = ground arith
    notified j b joined e f n t = ground arith

    notified_by :
        (t : Pool Q U) (j : ℕ) (b : Bool)
        → client j ≢ holding
        → b ≡ must_notify p s
        → MayRest p t (notify b client j)
    unfolding notify
    notified_by t j true n e = notified j true (client j) refl e n t
    notified_by t j false n e = notified j false (client j) refl e n t

    pub notified-MayRest :
        (t : Pool Q U) (j : ℕ)
        → client j ≢ holding
        → MayRest p t (notify (must_notify p s) client j)
    notified-MayRest t j n = notified_by t j (must_notify p s) n refl
