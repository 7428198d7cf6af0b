-- ===== src/ThreadPool/Guarantees.antt =====
-- What a caller of the pool may rely on, in every state that a pool reaches.
use blue_thread.Prelude.{
  ℕ, ◌<◌, ◌≡◌, refl, ap, ◌∙◌, inl, inr, List, [], ◌∷◌, pos, Bool-cases, length, total-eq-zero, ltb,
  ltb→lt, weight-le-total, In, done, arith,
}
use blue_thread.ThreadPool.{Pool}
use blue_thread.ThreadPool.Queue.{Container, WorkQueue}
use blue_thread.ThreadPool.Scan.{took, worked, exited, begin_item, finish_item}
use blue_thread.ThreadPool.Calls.{holding}
use blue_thread.ThreadPool.System.{System, Reach, new_system, NothingInWork}
use blue_thread.ThreadPool.Effects.Items.{begin_item-done, finish_item-done}
use blue_thread.ThreadPool.Invariant.{busy, will_process, will_finish, Inv}
use blue_thread.ThreadPool.Invariant.Workers.{below, process-nonempty, finish-nonempty}
use blue_thread.ThreadPool.Invariant.Waits.{Fills}
use blue_thread.ThreadPool.Invariant.Preserved.{new-Inv}

empty_list : {A : Type 0} (l : List A) → length l ≡ 0 → l ≡ []
empty_list [] e = refl
empty_list (x ∷ xs) e = absurd (omega arith)

module _ {Q T U : Type 0} (p : Container Q T U) {m : ℕ} (s : System Q U) (v : Inv p m s) where
  pub nobody_busy : s.pool.processing ≡ pos 0 → (i : ℕ) → busy (s.worker i) ≡ 0
  nobody_busy e i = elim (Bool-cases (ltb i s.made)) [
    | inl lt ↦
        ground
          (arith, weight-le-total busy s.made i s.worker (ltb→lt i s.made lt), v.workers.counted)
    | inr ge ↦ rw (v.workers.future i (ground arith)) refl
  ]

  pub nothing_in_work :
      ((i : ℕ) → busy (s.worker i) ≡ 0)
      → (q : ℕ) → ((s.pool.queues q).to_process ≡ []) × ((s.pool.queues q).to_finish ≡ [])
  nothing_in_work h q = (
    empty_list _ (
        v.workers.to_process q
        ∙ total-eq-zero (will_process q) s.made s.worker (λ i lt. ground (arith, h i))),
    empty_list _ (
        v.workers.to_finish q
        ∙ total-eq-zero (will_finish q) s.made s.worker (λ i lt. ground (arith, h i))),
  )

module _ {Q T U : Type 0} (p : Container Q T U) (law : Fills p) (m : ℕ) (queues : ℕ → WorkQueue Q U)
    (n grace suicide_grace : ℕ) (h : NothingInWork queues) (s : System Q U)
    (r : Reach p m (new_system queues n grace suicide_grace) s) where
  -- In every state that a new pool reaches, if its containers are not empty after an insertion
  -- and its queues start with nothing in work: no ASSERT of WorkQueueVal fails, since a worker
  -- that is about to pop an item from `to_process` or `to_finish` finds one.
  pub no_assertion_fails :
      (i q : ℕ)
      → (s.worker i ≡ took q → (u : U) × (t : Pool Q U) × (begin_item p i q s.pool ≡ done u t))
        × (s.worker i ≡ worked q → (t : Pool Q U) × (finish_item p q s.pool ≡ done tt t))
  no_assertion_fails i q =
      let v = new-Inv p law queues n grace suicide_grace h s r in
      (
        (λ a.
            let (u, us, e) = process-nonempty v.workers i (below v.workers i (ground arith)) q a in
            let (t, g, _, _) = begin_item-done p i q u us s.pool e in (u, t, g)),
        (λ a.
            let (u, us, e) = finish-nonempty v.workers i (below v.workers i (ground arith)) q a in
            let (t, g, _, _) = finish_item-done p q u us s.pool e in (t, g)),
      )

  -- In every state that a new pool reaches, if its containers are not empty after an insertion
  -- and its queues start with nothing in work: from the return of pause() in any thread to its
  -- unpause(), no worker has an item, `processing` is 0, and no item is in `to_process` or
  -- `to_finish` of any queue.
  pub holding_quiet :
      (j : ℕ)
      → s.client j ≡ holding
      → (s.pool.processing ≡ pos 0)
        × ((i : ℕ) → busy (s.worker i) ≡ 0)
        × ((q : ℕ) → ((s.pool.queues q).to_process ≡ []) × ((s.pool.queues q).to_finish ≡ []))
  holding_quiet j a =
      let v = new-Inv p law queues n grace suicide_grace h s r in
      let e : s.pool.processing ≡ pos 0 = rw a at (v.rests j) in
      let none_busy = nobody_busy p s v e in (e, none_busy, nothing_in_work p s v none_busy)

  -- In every state that a new pool reaches, if its containers are not empty after an insertion
  -- and its queues start with nothing in work: once the joins of stop() are over, that is, once
  -- each thread of `_threads` has left worker(), no thread that the pool ever made is in
  -- worker(), `processing` is 0, and no item is in `to_process` or `to_finish` of any queue.
  pub joins_quiet :
      ((i : ℕ) → In i s.pool.threads → s.worker i ≡ exited)
      → ((i : ℕ) → i < s.made → s.worker i ≡ exited)
        × (s.pool.processing ≡ pos 0)
        × ((q : ℕ) → ((s.pool.queues q).to_process ≡ []) × ((s.pool.queues q).to_finish ≡ []))
  joins_quiet g =
      let v = new-Inv p law queues n grace suicide_grace h s r in
      let gone : (i : ℕ) → i < s.made → s.worker i ≡ exited =
        λ i lt. elim (v.workers.owned i lt) [ inl e ↦ e | inr e ↦ g i e ] in
      let e : s.pool.processing ≡ pos 0 =
        v.workers.counted
        ∙ ap pos (total-eq-zero busy s.made s.worker (λ i lt. rw (gone i lt) refl)) in
      (gone, e, nothing_in_work p s v (nobody_busy p s v e))
