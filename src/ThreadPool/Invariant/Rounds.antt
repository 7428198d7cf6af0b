-- ===== src/ThreadPool/Invariant/Rounds.antt =====
-- A round of the loop of worker() keeps the counts, whatever it ends with.
use blue_thread.Prelude.{ℕ, ◌<◌, ◌≡◌, refl, sym, ◌⊎◌, inl, inr, update, arith}
use mathlib.Core.Path.{fun_ext}
use blue_thread.ThreadPool.{Pool}
use blue_thread.ThreadPool.Queue.{Container}
use blue_thread.ThreadPool.Scan.{WorkerAt, unborn, started, waiting, took, working, worked, exited}
use blue_thread.ThreadPool.Effects.{ScanEnds}
use blue_thread.ThreadPool.Invariant.{WorkInv}
use blue_thread.ThreadPool.Invariant.Workers.{resting-WorkInv, taking-WorkInv}

pub update_twice :
    {A : Type 0} (f : ℕ → A) (i : ℕ) (a b : A) → update (update f i a) i b ≡ update f i b
update_twice f i a b = fun_ext λ j. ground arith

module _ {Q T U : Type 0} (p : Container Q T U) where
  pub scan-WorkInv :
      {made : ℕ} {worker : ℕ → WorkerAt U} {s : Pool Q U} (v : WorkInv made worker s)
      → (i : ℕ) → i < made
      → (worker i ≡ started) ⊎ (worker i ≡ waiting)
      → (r : WorkerAt U × Pool Q U) → ScanEnds p s r
      → WorkInv made (update worker i r.0) r.1
  scan-WorkInv v i lt a (took q, t) (z, h) = taking-WorkInv v i lt p q t a h
  scan-WorkInv v i lt a (waiting, t) h = resting-WorkInv v i lt waiting t a (inl refl) h
  scan-WorkInv v i lt a (exited, t) h = resting-WorkInv v i lt exited t a (inr refl) h
  scan-WorkInv v i lt a (unborn, t) h = absurd h
  scan-WorkInv v i lt a (started, t) h = absurd h
  scan-WorkInv v i lt a (working q u, t) h = absurd h
  scan-WorkInv v i lt a (worked q, t) h = absurd h

  -- The round after an item.
  pub next_scan-WorkInv :
      {made : ℕ} {t : Pool Q U} (worker : ℕ → WorkerAt U) (i : ℕ)
      → WorkInv made (update worker i waiting) t
      → i < made
      → (r : WorkerAt U × Pool Q U) → ScanEnds p t r
      → WorkInv made (update worker i r.0) r.1
  next_scan-WorkInv worker i v lt r h =
      rw (sym (update_twice worker i waiting r.0)) (scan-WorkInv v i lt (inr (ground arith)) r h)
