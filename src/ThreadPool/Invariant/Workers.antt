-- ===== src/ThreadPool/Invariant/Workers.antt =====
-- The steps of the workers keep the counts.
use blue_thread.Prelude.{
  ℕ, ◌+◌, ◌<◌, ◌≡◌, ◌≢◌, refl, ◌⊎◌, inl, inr, List, [], ◌∷◌, ◌++◌, pos, Bool-cases, ltb, ltb→lt,
  length, length-append, total, total-update, weight-le-total, update, arith,
}
use blue_thread.Prelude.Integer.{decrement}
use blue_thread.ThreadPool.{Pool}
use blue_thread.ThreadPool.Queue.{Container}
use blue_thread.ThreadPool.Scan.{WorkerAt, unborn, started, waiting, took, working, worked, exited}
use blue_thread.ThreadPool.Effects.{Idle, Takes, Works, popped, popped_finish}
use blue_thread.ThreadPool.Invariant.{busy, will_process, will_finish, WorkInv}

some_head : {U : Type 0} (l : List U) → 0 < length l → (u : U) × (us : List U) × (l ≡ u ∷ us)
some_head [] h = absurd (omega arith)
some_head (u ∷ us) h = (u, us, refl)

module _ {Q U : Type 0} {made : ℕ} {worker : ℕ → WorkerAt U} {s : Pool Q U}
    (v : WorkInv made worker s) where
  -- A worker that exists has a number below `made`.
  pub below : (i : ℕ) → worker i ≢ unborn → i < made
  below i ne = elim (Bool-cases (ltb i made)) [
    | inl e ↦ ltb→lt i made e
    | inr e ↦ absurd (ne (v.future i (ground arith)))
  ]

  -- One worker moves, and the pool follows.
  pub moved-WorkInv :
      (i : ℕ) (b : WorkerAt U) (t : Pool Q U)
      → i < made
      → (worker i ≢ exited) × (b ≢ unborn)
      → t.threads ≡ s.threads
      → t.processing ≡ pos (total busy made (update worker i b))
      → ((q : ℕ) → length (t.queues q).to_process ≡ total (will_process q) made (update worker i b))
      → ((q : ℕ) → length (t.queues q).to_finish ≡ total (will_finish q) made (update worker i b))
      → WorkInv made (update worker i b) t
  moved-WorkInv i b t lt ne same n f g = record {
    counted = n;
    to_process = f;
    to_finish = g;
    future = λ j h. ground (arith, v.future j h);
    owned = λ j h. rw same (ground (arith, v.owned j h, ne.0));
    born = λ j h. ground (arith, v.born j h, ne.1);
    listed = λ j h. v.listed j (rw same at h);
  }

  module _ (i : ℕ) (lt : i < made) where
    shift :
        (weight : WorkerAt U → ℕ) (b : WorkerAt U)
        → total weight made (update worker i b) + weight (worker i)
          ≡ total weight made worker + weight b
    shift weight b = total-update weight made i worker b lt

    -- A worker with nothing in hand goes to another such place.
    pub resting-WorkInv :
        (b : WorkerAt U) (t : Pool Q U)
        → (worker i ≡ started) ⊎ (worker i ≡ waiting)
        → (b ≡ waiting) ⊎ (b ≡ exited)
        → Idle s t
        → WorkInv made (update worker i b) t
    resting-WorkInv b t a g h =
        moved-WorkInv i b t lt (ground arith) h.kept.threads
          (ground (arith, shift busy b, v.counted, h.processing))
          (λ q. ground (arith, shift (will_process q) b, v.to_process q, h.queues))
          (λ q. ground (arith, shift (will_finish q) b, v.to_finish q, h.queues))

    pub taking-WorkInv :
        {T : Type 0} (p : Container Q T U) (q : ℕ) (t : Pool Q U)
        → (worker i ≡ started) ⊎ (worker i ≡ waiting)
        → Takes p q s t
        → WorkInv made (update worker i (took q)) t
    taking-WorkInv p q t a h =
        let u = (p.dequeue (s.queues q).items).0 in
        moved-WorkInv i (took q) t lt (ground arith) h.kept.threads
          (ground (arith, shift busy (took q), v.counted, h.processing))
          (λ r. ground (
            arith,
            shift (will_process r) (took q),
            v.to_process r,
            h.queues,
            length-append (s.queues q).to_process (u ∷ []),
          ))
          (λ r. ground (arith, shift (will_finish r) (took q), v.to_finish r, h.queues))

    pub begins-WorkInv :
        (q : ℕ) (u : U) (us : List U) (t : Pool Q U)
        → worker i ≡ took q
        → (s.queues q).to_process ≡ u ∷ us
        → t.processing ≡ s.processing
        → Works q (popped us (s.queues q)) s t
        → WorkInv made (update worker i (working q u)) t
    begins-WorkInv q u us t a e n h =
        moved-WorkInv i (working q u) t lt (ground arith) h.kept.threads
          (ground (arith, shift busy (working q u), v.counted))
          (λ r. ground (arith, shift (will_process r) (working q u), v.to_process r, h.queues))
          (λ r. ground (arith, shift (will_finish r) (working q u), v.to_finish r, h.queues))

    pub ends-WorkInv :
        (q : ℕ) (u : U) (t : Pool Q U)
        → worker i ≡ working q u
        → t.threads ≡ s.threads
        → t.processing ≡ s.processing
        → t.queues
          ≡ update s.queues q (record (s.queues q) {
            to_finish = (s.queues q).to_finish ++ (u ∷ []);
            processed = u ∷ (s.queues q).processed;
          })
        → WorkInv made (update worker i (worked q)) t
    ends-WorkInv q u t a same n h =
        moved-WorkInv i (worked q) t lt (ground arith) same
          (ground (arith, shift busy (worked q), v.counted))
          (λ r. ground (arith, shift (will_process r) (worked q), v.to_process r))
          (λ r. ground (
            arith,
            shift (will_finish r) (worked q),
            v.to_finish r,
            length-append (s.queues q).to_finish (u ∷ []),
          ))

    -- Between the end of an item and the next round the worker has nothing in hand.
    pub finishes-WorkInv :
        (q : ℕ) (u : U) (us : List U) (t : Pool Q U)
        → worker i ≡ worked q
        → (s.queues q).to_finish ≡ u ∷ us
        → t.processing ≡ decrement s.processing
        → Works q (popped_finish u us (s.queues q)) s t
        → WorkInv made (update worker i waiting) t
    finishes-WorkInv q u us t a e n h =
        moved-WorkInv i waiting t lt (ground arith) h.kept.threads
          (ground (arith, shift busy waiting, v.counted, weight-le-total busy made i worker lt))
          (λ r. ground (arith, shift (will_process r) waiting, v.to_process r, h.queues))
          (λ r. ground (arith, shift (will_finish r) waiting, v.to_finish r, h.queues))

    -- The lists that a worker takes from are not empty.
    pub process-nonempty :
        (q : ℕ) → worker i ≡ took q → (u : U) × (us : List U) × ((s.queues q).to_process ≡ u ∷ us)
    process-nonempty q a =
        some_head (s.queues q).to_process
          (ground (arith, v.to_process q, weight-le-total (will_process q) made i worker lt))

    pub finish-nonempty :
        (q : ℕ) → worker i ≡ worked q → (u : U) × (us : List U) × ((s.queues q).to_finish ≡ u ∷ us)
    finish-nonempty q a =
        some_head (s.queues q).to_finish
          (ground (arith, v.to_finish q, weight-le-total (will_finish q) made i worker lt))
