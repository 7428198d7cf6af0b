-- ===== src/ThreadPool/Effects/Finds.antt =====
-- The round robin of worker() misses no queue.
use native.Mathlib.Nat.{mod-lt, mod-eq_of_lt, mod-add-mod, add-mod_right}
use blue_thread.Prelude.{
  ℕ, zero, suc, ◌+◌, ◌-◌, ◌*◌, ◌%◌, ◌<◌, ◌≡◌, ◌≢◌, refl, sym, ap, ◌∙◌, ◌⊎◌, inl, inr, true, false,
  Bool-cases, List, [], ◌∷◌, Option, none, some, length, is_empty, In, if◌then◌else◌, update, arith,
}
use blue_thread.Prelude.Integer.{is_zero, increment}
use blue_thread.ThreadPool.{Pool, remove_worker}
use blue_thread.ThreadPool.Queue.{Container, void_dequeue}
use blue_thread.ThreadPool.Scan.{
  took, exited, beat, get_elem?, join_old_threads, tried, try_at, try_queues, after_tries,
  look_for_work, loop_head,
}
use blue_thread.ThreadPool.Effects.{dequeued, ScanEnds}
use blue_thread.ThreadPool.Effects.Rounds.{loop_head-ScanEnds}

-- An element of a list stands at an index of it.
index_of : (q : ℕ) (l : List ℕ) → In q l → (i : ℕ) × (i < length l) × (get_elem? l i ≡ some q)
index_of q [] h = absurd h
index_of q (x ∷ xs) (inl e) = (0, omega arith, ap some (sym e))
index_of q (x ∷ xs) (inr h) = let (i, lt, e) = index_of q xs h in (suc i, omega arith, e)

some_at : (l : List ℕ) (i : ℕ) → i < length l → (q : ℕ) × (get_elem? l i ≡ some q)
some_at [] i h = absurd (omega arith)
some_at (x ∷ xs) zero h = (x, refl)
some_at (x ∷ xs) (suc i) h = some_at xs i (omega arith)

around : (n i r : ℕ) → r < n → r + (i + (n - r)) ≡ i + n
around n i r h = omega arith

not_empty : (q : ℕ) (l : List ℕ) → In q l → is_empty l ≡ false
not_empty q [] h = absurd h
not_empty q (x ∷ xs) h = refl

not_both : true ≢ false
not_both e = ground arith

-- An index is ahead of any position by less than two turns.
ahead : (k n i : ℕ) → i < n → (j : ℕ) × (j < 2 * n) × ((k + j) % n ≡ i)
ahead k n i h =
    let r = k % n in
    (
      i + (n - r),
      omega arith,
      sym (mod-add-mod k n (i + (n - r)))
          ∙ ap (λ x. x % n) (around n i r (mod-lt k (omega arith)))
          ∙ add-mod_right i n
          ∙ mod-eq_of_lt h,
    )

module _ {Q T U : Type 0} (p : Container Q T U) where
  -- The queue of the position `n` of the round robin has nothing.
  abbrev Bare : Pool Q U → ℕ → Type 0
  Bare s n =
      (q : ℕ)
      → get_elem? s.work_queues (n % length s.work_queues) ≡ some q
      → p.empty (s.queues q).items ≡ true

  abbrev Found : Option ℕ × Pool Q U → Type 0
  Found (some q, t) = Unit {0}
  Found (none, t) = ⊥

  -- The position after `k` and the first of the positions after the one it is brought back to.
  turn_on : (k j n : ℕ) → (k % n + 1 + j) % n ≡ (k + suc j) % n
  turn_on k j n = ap (λ x. x % n) (omega arith) ∙ mod-add-mod k n (suc j)

  each_position :
      (k : ℕ) (s : Pool Q U) (q : ℕ)
      → get_elem? s.work_queues (s.next_work_queue % length s.work_queues) ≡ some q
      → p.empty (s.queues q).items ≡ true
      → ((j : ℕ) → j < k → Bare s (s.next_work_queue % length s.work_queues + 1 + j))
      → (j : ℕ) → j < suc k
      → Bare s (s.next_work_queue + j)
  each_position k s q e d f zero lt r g =
      let same : Path (Option ℕ) (some r) (some q) =
        sym g ∙ ap (λ x. get_elem? s.work_queues (x % length s.work_queues)) (omega arith) ∙ e in
      let equal : r ≡ q = cc in rw equal d
  each_position k s q e d f (suc j) lt r g =
      f j (omega arith) r
        (ap (get_elem? s.work_queues) (turn_on s.next_work_queue j (length s.work_queues)) ∙ g)

  -- Either some try finds an item, or each queue that was tried is empty.
  tries_end :
      (k : ℕ) (s : Pool Q U)
      → 0 < length s.work_queues
      → Found (try_queues p k s) ⊎ ((j : ℕ) → j < k → Bare s (s.next_work_queue + j))
  unfolding try_queues try_at tried void_dequeue
  tries_end zero s h = inr λ j lt. absurd (omega arith)
  tries_end (suc k) s h =
      let n = s.next_work_queue % length s.work_queues in
      let (q, e) = some_at s.work_queues n (mod-lt s.next_work_queue h) in
      elim (Bool-cases (p.empty (s.queues q).items)) [
        | inl d ↦ elim (tries_end k (record s { next_work_queue = n + 1 }) h) [
          | inl f ↦ inl (rw (e, d) f)
          | inr f ↦ inr (each_position k s q e d f)
        ]
        | inr d ↦ inl (rw (e, d) tt)
      ]

  look_succeeds :
      (i : ℕ) (r : Option ℕ × Pool Q U)
      → Found r
      → (x : ℕ) × (t : Pool Q U) × (after_tries p i r ≡ (took x, t))
  unfolding after_tries
  look_succeeds i (some x, t) h = (x, t, refl)
  look_succeeds i (none, t) h = absurd h

  -- If the pool is not paused, a round takes an item as long as some queue of the pool has one.
  look_for_work-finds :
      (i q : ℕ) (s : Pool Q U)
      → is_zero s.paused ≡ true
      → In q s.work_queues
      → p.empty (s.queues q).items ≡ false
      → (x : ℕ) × (t : Pool Q U) × (look_for_work p i s ≡ (took x, t))
  unfolding look_for_work
  look_for_work-finds i q s z h e =
      let (x, lt, g) = index_of q s.work_queues h in
      let full : is_empty s.work_queues ≡ false = not_empty q s.work_queues h in
      let (j, le, k) = ahead s.next_work_queue (length s.work_queues) x lt in
      elim (tries_end (2 * length s.work_queues) s (omega arith)) [
        | inl f ↦ rw (full, z) (look_succeeds i _ f)
        | inr f ↦ absurd (not_both (sym (f j le q (ap (get_elem? s.work_queues) k ∙ g)) ∙ e))
      ]

  goes_on :
      (i : ℕ) (s : Pool Q U)
      → s.stop ≡ false
      → loop_head p i s ≡ look_for_work p i (join_old_threads s)
  unfolding loop_head
  goes_on i s a =
      ap
        (λ b.
          if b then (exited, beat i remove_worker s) else look_for_work p i (join_old_threads s))
        a

  -- The start of a round of worker(), if `_stop` is not set, the pool is not paused and some queue of
  -- the pool is not empty, takes an item, wherever the round robin stands: `processing` goes up by one,
  -- and the next item of a queue that was not empty goes to `to_process` of that queue, while all other
  -- queues stay as they are.
  pub loop_head-takes :
      (i q : ℕ) (s : Pool Q U)
      → s.stop ≡ false
      → is_zero s.paused ≡ true
      → In q s.work_queues
      → p.empty (s.queues q).items ≡ false
      → (x : ℕ) × (t : Pool Q U) × (loop_head p i s ≡ (took x, t))
        × (p.empty (s.queues x).items ≡ false)
        × (t.processing ≡ increment s.processing)
        × (t.queues ≡ update s.queues x (dequeued p (s.queues x)))
  unfolding join_old_threads
  loop_head-takes i q s a z h e =
      let (x, t, f) = look_for_work-finds i q (join_old_threads s) z h e in
      let k : loop_head p i s ≡ (took x, t) = goes_on i s a ∙ f in
      let (_, g) : ScanEnds p s (took x, t) = rw k at (loop_head-ScanEnds p i s) in
      (x, t, k, g.found, g.processing, g.queues)
