-- ===== src/ThreadPool/Progress/Settling.antt =====
-- When a round of worker() ends at rest, and what a state in which all rest has.
use blue_thread.Prelude.{ℕ, ◌≡◌, ◌≢◌, refl, ap, ◌∙◌, inl, inr, Bool, true, false, arith}
use blue_thread.Prelude.Integer.{is_zero}
use blue_thread.ThreadPool.{Pool}
use blue_thread.ThreadPool.Queue.{Container}
use blue_thread.ThreadPool.Scan.{
  WorkerAt, unborn, started, waiting, took, working, worked, exited, loop_head,
}
use blue_thread.ThreadPool.Calls.{ClientAt, stopping, wake}
use blue_thread.ThreadPool.System.{System}
use blue_thread.ThreadPool.Effects.{ScanEnds}
use blue_thread.ThreadPool.Effects.Rounds.{loop_head-ScanEnds}
use blue_thread.ThreadPool.Invariant.{busy, in_pause, Inv}
use blue_thread.ThreadPool.Invariant.Clients.{wake-in_pause, in_pause-paused}
use blue_thread.ThreadPool.Progress.{rank, Notified, Settles}

pub Notified-in_pause : (c d : ClientAt) → Notified c d → in_pause d ≡ in_pause c
Notified-in_pause c d (inl e) = ap in_pause e
Notified-in_pause c d (inr e) = ap in_pause e ∙ wake-in_pause c

pub Notified-stopping : (c d : ClientAt) → Notified c d → c ≡ stopping → d ≡ stopping
unfolding wake
Notified-stopping c d (inl e) f = e ∙ f
Notified-stopping c d (inr e) f = rw (e, f) refl

module _ {Q T U : Type 0} (p : Container Q T U) where
  -- No round takes an item while the pool is paused.
  paused_round :
      (s : Pool Q U) (r : WorkerAt U × Pool Q U)
      → is_zero s.paused ≡ false
      → ScanEnds p s r
      → rank false r.0 ≡ 0
  paused_round s (took q, t) z (y, h) = absurd (ground arith)
  paused_round s (waiting, t) z h = refl
  paused_round s (exited, t) z h = refl
  paused_round s (unborn, t) z h = absurd h
  paused_round s (started, t) z h = absurd h
  paused_round s (working q u, t) z h = absurd h
  paused_round s (worked q, t) z h = absurd h

  pub paused-Settles :
      {m : ℕ} (j : ℕ) (s : System Q U) → Inv p m s → in_pause (s.client j) ≡ 1 → Settles p false s
  paused-Settles j s v e i t k =
      paused_round t (loop_head p i t) (rw k.paused (in_pause-paused v.clients j e))
        (loop_head-ScanEnds p i t)

  pub stopped-Settles : (s : System Q U) → s.pool.stop ≡ true → Settles p true s
  unfolding loop_head
  stopped-Settles s e i t k = rw (k.stop, e) refl

pub busy-rank : {U : Type 0} (b : Bool) (a : WorkerAt U) → rank b a ≡ 0 → busy a ≡ 0
busy-rank b unborn e = refl
busy-rank b started e = refl
busy-rank b waiting e = refl
busy-rank b (took q) e = absurd (omega arith)
busy-rank b (working q u) e = absurd (omega arith)
busy-rank b (worked q) e = absurd (omega arith)
busy-rank b exited e = refl

pub gone : {U : Type 0} (a : WorkerAt U) → a ≢ unborn → rank true a ≡ 0 → a ≡ exited
gone unborn n e = absurd (n refl)
gone started n e = absurd (omega arith)
gone waiting n e = absurd (omega arith)
gone (took q) n e = absurd (omega arith)
gone (working q u) n e = absurd (omega arith)
gone (worked q) n e = absurd (omega arith)
gone exited n e = refl
