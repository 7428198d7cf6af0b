-- ===== src/ThreadPool/Ledger/Accounts.antt =====
-- What becomes of the items that are put in a queue.
use blue_thread.Prelude.{
  ℕ, ◌+◌, ◌≡◌, ◌≢◌, refl, inl, inr, true, false, List, [], Option, some, pos, Bool-cases, sum,
  total, total-eq-zero, arith,
}
use blue_thread.Prelude.Integer.{is_zero}
use blue_thread.ThreadPool.{Pool}
use blue_thread.ThreadPool.Queue.{Container, WorkQueue}
use blue_thread.ThreadPool.Scan.{WorkerAt, unborn, started, waiting, took, working, worked, exited}
use blue_thread.ThreadPool.Calls.{construct, ClientAt, outside, draining_at, has_items, drain_check}
use blue_thread.ThreadPool.System.{System, Reach, new_system, NothingInWork}
use blue_thread.ThreadPool.Guarantees.{nobody_busy, nothing_in_work}
use blue_thread.ThreadPool.Invariant.{busy}
use blue_thread.ThreadPool.Invariant.Waits.{Fills}
use blue_thread.ThreadPool.Invariant.Rests.{is_zero_iff}
use blue_thread.ThreadPool.Invariant.Preserved.{new-Inv}
use blue_thread.ThreadPool.Ledger.{Stores, in_hand, Ledger, all_inserted}
use blue_thread.ThreadPool.Ledger.Runs.{Reach-Ledger}

idle_hand : {U : Type 0} (f : U → ℕ) (q : ℕ) (a : WorkerAt U) → busy a ≡ 0 → in_hand f q a ≡ 0
idle_hand f q unborn e = refl
idle_hand f q started e = refl
idle_hand f q waiting e = refl
idle_hand f q (took r) e = refl
idle_hand f q (working r u) e = absurd (omega arith)
idle_hand f q (worked r) e = refl
idle_hand f q exited e = refl

waits :
    {Q U : Type 0} (w : Option ℕ) (s t : Pool Q U)
    → ◌≢◌ {A = ClientAt × Pool Q U} (draining_at w false, s) (outside, t)
waits w s t e = cc

module _ {Q T U : Type 0} (p : Container Q T U) where
  drain_leaves :
      (q : ℕ) (s t : Pool Q U)
      → drain_check p (some q) s ≡ (outside, t)
      → (s.processing ≡ pos 0) × (p.empty (s.queues q).items ≡ true)
  unfolding drain_check has_items
  drain_leaves q s t e = elim (Bool-cases (is_zero s.processing)) [
    | inl z ↦ elim (Bool-cases (p.empty (s.queues q).items)) [
      | inl d ↦ (is_zero_iff s.processing z, d)
      | inr d ↦ absurd (waits (some q) s t (rw (z, d) at e))
    ]
    | inr z ↦ absurd (waits (some q) s t (rw z at e))
  ]

module _ {Q T U : Type 0} (p : Container Q T U) (fills : Fills p) (contents : Q → List U)
    (turn : T → U) (law : Stores p contents turn) (m : ℕ) (queues : ℕ → WorkQueue Q U)
    (n grace suicide_grace : ℕ) (h : NothingInWork queues) (s : System Q U)
    (r : Reach p m (new_system queues n grace suicide_grace) s) (q : ℕ)
    (start_empty : ((queues q).processed ≡ [])
      × ((queues q).finished ≡ [])
      × ((queues q).dropped ≡ [])) where
  account :
      (f : U → ℕ)
      → Ledger contents f q
          (sum (λ x. f (turn x)) (all_inserted q r) + sum f (contents (queues q).items))
          s
  unfolding construct
  account f =
      Reach-Ledger p contents turn law f q queues n grace suicide_grace _ s fills h r (record {
        loaded =
            ground
              (arith, h q, start_empty, total-eq-zero (in_hand f q) 0 (λ i. unborn) (λ i lt. refl));
        done_twice = rw (start_empty.0, start_empty.1, (h q).1) refl;
      })

  -- In every state that a new pool reaches, the items that a queue started with and those put in
  -- it since are, each as often, in its container, in `to_process`, in the hands of a worker, in
  -- `to_finish`, finished, or among those that a _clear called by stop() has thrown away: no
  -- interleaving of the workers and callers loses another item or takes one twice. The container
  -- stores its items and is not empty after an insertion, and at the start the queues have
  -- nothing in work and this queue has processed, finished and thrown away none.
  pub items_accounted :
      (f : U → ℕ)
      → sum f (contents (s.pool.queues q).items)
          + sum f (s.pool.queues q).to_process
          + sum f (s.pool.queues q).to_finish
          + sum f (s.pool.queues q).finished
          + sum f (s.pool.queues q).dropped
          + total (in_hand f q) s.made s.worker
        ≡ sum (λ x. f (turn x)) (all_inserted q r) + sum f (contents (queues q).items)
  items_accounted f = (account f).loaded

  -- If drain(wq) leaves its loop in a state that a new pool reaches, then the items that `wq`
  -- started with and those put in it since are, each as often, those that _process has returned
  -- for or that a _clear called by stop() has thrown away, and those that _process_finish was
  -- called for or that were so thrown away. The container stores its items and is not empty after
  -- an insertion, and at the start the queues have nothing in work and this queue has processed,
  -- finished and thrown away none.
  pub drained_all :
      (t : Pool Q U)
      → drain_check p (some q) s.pool ≡ (outside, t)
      → (f : U → ℕ)
      → (sum f (s.pool.queues q).processed + sum f (s.pool.queues q).dropped
          ≡ sum (λ x. f (turn x)) (all_inserted q r) + sum f (contents (queues q).items))
        × (sum f (s.pool.queues q).finished + sum f (s.pool.queues q).dropped
            ≡ sum (λ x. f (turn x)) (all_inserted q r) + sum f (contents (queues q).items))
  drained_all t e f =
      let v = new-Inv p fills queues n grace suicide_grace h s r in
      let (z, d) = drain_leaves p q s.pool t e in
      let none_busy = nobody_busy p s v z in
      let (a, b) = nothing_in_work p s v none_busy q in
      let hands =
        total-eq-zero (in_hand f q) s.made s.worker
          (λ i lt. idle_hand f q (s.worker i) (none_busy i)) in
      let c = law.empty_stores (s.pool.queues q).items d in
      let l = account f in
      let all_done : sum f (s.pool.queues q).finished + sum f (s.pool.queues q).dropped
          ≡ sum (λ x. f (turn x)) (all_inserted q r) + sum f (contents (queues q).items) =
        ground (arith, l.loaded) in
      (ground (arith, l.done_twice), all_done)
