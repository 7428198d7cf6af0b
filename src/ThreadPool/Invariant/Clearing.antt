-- ===== src/ThreadPool/Invariant/Clearing.antt =====
-- What the calls of _clear in stop() do to the pool.
use blue_thread.Prelude.{
  ℕ, ◌≡◌, refl, sym, ==_iff, ◌∙◌, Bool, true, false, not, ◌&&◌, ◌||◌, List, [], ◌∷◌, Option, none,
  some, ◌==◌, Bool-cases, inl, inr, arith,
}
use blue_thread.ThreadPool.{Pool}
use blue_thread.ThreadPool.Queue.{Container, clear_queue}
use blue_thread.ThreadPool.Scan.{with_queue}
use blue_thread.ThreadPool.Calls.{clear_all, has_items}
use blue_thread.ThreadPool.Invariant.{may_wait}

module _ {Q T U : Type 0} (p : Container Q T U) where
  pub record Cleared (s t : Pool Q U) : Type 0 where
    pub paused : t.paused ≡ s.paused
    pub draining : t.draining ≡ s.draining
    pub threads : t.threads ≡ s.threads
    pub processing : t.processing ≡ s.processing
    pub lists :
        (q : ℕ)
        → ((t.queues q).to_process ≡ (s.queues q).to_process)
          × ((t.queues q).to_finish ≡ (s.queues q).to_finish)
    pub waits : (w : Option ℕ) → may_wait p w s ≡ true → may_wait p w t ≡ true

  Cleared-trans : (s t u : Pool Q U) → Cleared s t → Cleared t u → Cleared s u
  Cleared-trans s t u h k = record {
    paused = k.paused ∙ h.paused;
    draining = k.draining ∙ h.draining;
    threads = k.threads ∙ h.threads;
    processing = k.processing ∙ h.processing;
    lists = λ q. ((k.lists q).0 ∙ (h.lists q).0, (k.lists q).1 ∙ (h.lists q).1);
    waits = λ w e. k.waits w (h.waits w e);
  }

  -- A queue of which the last item goes remembers that.
  kept_reason : (a b c : Bool) → (a || c) ≡ true → (not b || (c || (a && b))) ≡ true
  kept_reason a true c e = ground arith
  kept_reason a false c e = refl

  clear_one_wait :
      (q : ℕ) (s : Pool Q U) (w : Option ℕ)
      → may_wait p w s ≡ true
      → may_wait p w (with_queue q (clear_queue p (s.queues q)) s) ≡ true
  unfolding may_wait has_items clear_queue
  clear_one_wait q s none e = e
  clear_one_wait q s (some r) e = elim (Bool-cases (q == r)) [
    | inl d ↦
        let same : q ≡ r = (==_iff q r).0 d in
        let k : (not (p.empty (s.queues q).items) || (s.queues q).emptied) ≡ true =
          rw (sym same) at e in
        rw d (
          kept_reason (not (p.empty (s.queues q).items)) (p.empty (p.clear (s.queues q).items).1)
            (s.queues q).emptied k)
    | inr d ↦ rw d e
  ]

  clear_one-Cleared :
      (q : ℕ) (s : Pool Q U) → Cleared s (with_queue q (clear_queue p (s.queues q)) s)
  unfolding clear_queue
  clear_one-Cleared q s = record {
    paused = refl;
    draining = refl;
    threads = refl;
    processing = refl;
    lists = λ r. (ground arith, ground arith);
    waits = clear_one_wait q s;
  }

  pub clear_all-Cleared : (qs : List ℕ) (s : Pool Q U) → Cleared s (clear_all p qs s)
  unfolding clear_all
  clear_all-Cleared [] s = record {
    paused = refl;
    draining = refl;
    threads = refl;
    processing = refl;
    lists = λ r. (refl, refl);
    waits = λ w e. e;
  }
  clear_all-Cleared (q ∷ qs) s =
      let t = with_queue q (clear_queue p (s.queues q)) s in
      Cleared-trans s t (clear_all p qs t) (clear_one-Cleared q s) (clear_all-Cleared qs t)

  -- The flag of stop() plays no part.
  pub stopped_wait :
      {s t : Pool Q U}
      → Cleared s t
      → (w : Option ℕ) → may_wait p w s ≡ true
      → may_wait p w (record t { stop = false }) ≡ true
  unfolding may_wait has_items
  stopped_wait k none e = k.waits none e
  stopped_wait k (some q) e = k.waits (some q) e
