-- ===== src/ThreadPool/Invariant/Waits.antt =====
-- What the conditions of pause() and drain() say where they send a thread, and what the other calls
-- leave as it was.
use blue_thread.Prelude.{
  ℕ, zero, suc, ◌≡◌, refl, ap, ◌∙◌, ◌⊎◌, inl, inr, true, false, Option, none, some, ℤ, pos, negsuc,
  Bool-cases, ◌==◌, length, update, arith,
}
use blue_thread.Prelude.Integer.{increment, decrement, is_zero}
use blue_thread.ThreadPool.{Pool}
use blue_thread.ThreadPool.Queue.{Container, WorkQueue}
use blue_thread.ThreadPool.Scan.{WorkerAt}
use blue_thread.ThreadPool.Calls.{
  ClientAt, outside, draining_at, pause_check, has_items, drain_check,
}
use blue_thread.ThreadPool.Invariant.{may_wait, in_pause, in_drain, WorkInv, MayRest}
use blue_thread.ThreadPool.Invariant.Rests.{is_zero_iff, not_zero}

pub decrement-increment : (z : ℤ) → decrement (increment z) ≡ z
decrement-increment (pos n) = refl
decrement-increment (negsuc zero) = refl
decrement-increment (negsuc (suc n)) = refl

module _ {Q U : Type 0} {made : ℕ} {worker : ℕ → WorkerAt U} {s : Pool Q U}
    (v : WorkInv made worker s) where
  -- No list that the workers use changes.
  pub same-WorkInv :
      (t : Pool Q U)
      → t.threads ≡ s.threads
      → t.processing ≡ s.processing
      → ((q : ℕ)
          → ((t.queues q).to_process ≡ (s.queues q).to_process)
            × ((t.queues q).to_finish ≡ (s.queues q).to_finish))
      → WorkInv made worker t
  same-WorkInv t e n h = record {
    counted = n ∙ v.counted;
    to_process = λ q. ap length (h q).0 ∙ v.to_process q;
    to_finish = λ q. ap length (h q).1 ∙ v.to_finish q;
    future = v.future;
    owned = λ i lt. rw e (v.owned i lt);
    born = v.born;
    listed = λ i h. v.listed i (rw e at h);
  }

module _ {Q T U : Type 0} (p : Container Q T U) where
  -- What the pool's code relies on: an item that is put in makes the container not empty.
  pub record Fills : Type 0 where
    pub enqueue_fills : (x : T) (c : Q) → p.empty (p.enqueue x c) ≡ false
    pub enqueue_front_fills : (x : T) (c : Q) → p.empty (p.enqueue_front x c) ≡ false

  pub moved-rests :
      (client : ℕ → ClientAt) (j : ℕ) (c : ClientAt) (t : Pool Q U)
      → ((i : ℕ) → MayRest p t (client i))
      → MayRest p t c
      → (i : ℕ) → MayRest p t (update client j c i)
  moved-rests client j c t h g i = elim (Bool-cases (j == i)) [
    | inl e ↦ rw e g
    | inr e ↦ rw e (h i)
  ]

  pub check-MayRest : (s : Pool Q U) → MayRest p s (pause_check s)
  unfolding pause_check
  check-MayRest s = elim (Bool-cases (is_zero s.processing)) [
    | inl e ↦ rw e (is_zero_iff s.processing e)
    | inr e ↦ rw e (not_zero s.processing e)
  ]

  pub pause_check-in_pause :
      (s : Pool Q U) → (in_pause (pause_check s) ≡ 1) × (in_drain (pause_check s) ≡ 0)
  unfolding pause_check
  pause_check-in_pause s = elim (Bool-cases (is_zero s.processing)) [
    | inl e ↦ rw e (refl, refl)
    | inr e ↦ rw e (refl, refl)
  ]

  wanted : (w : Option ℕ) (s : Pool Q U) → has_items p w s ≡ true → may_wait p w s ≡ true
  unfolding may_wait has_items
  wanted none s e = e
  wanted (some q) s e = ground arith

  -- drain() waits, with a reason, or it leaves.
  pub drain_check_ends :
      (w : Option ℕ) (s : Pool Q U)
      → ((drain_check p w s ≡ (draining_at w false, s)) × MayRest p s (draining_at w false))
        ⊎ (drain_check p w s ≡ (outside, record s { draining = decrement s.draining }))
  unfolding drain_check
  drain_check_ends w s = elim (Bool-cases (is_zero s.processing)) [
    | inl e ↦ elim (Bool-cases (has_items p w s)) [
      | inl f ↦ rw (e, f) (inl (refl, inr (wanted w s f)))
      | inr f ↦ rw (e, f) (inr refl)
    ]
    | inr e ↦ rw e (inl (refl, inl (not_zero s.processing e)))
  ]

  -- A queue with more in it than before.
  pub fuller :
      (s : Pool Q U) (q : ℕ) (x : WorkQueue Q U)
      → p.empty x.items ≡ false
      → (w : Option ℕ) → may_wait p w s ≡ true
      → may_wait p w (record s { queues = update s.queues q x }) ≡ true
  unfolding may_wait has_items
  fuller s q x e none h = h
  fuller s q x e (some r) h = ground arith
