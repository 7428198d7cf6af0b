-- ===== src/ThreadPool/Progress/Settle.antt =====
-- The workers run until each is where it is to be.
use blue_thread.Prelude.{
  ℕ, zero, suc, ◌≤◌, ◌<◌, ◌≡◌, refl, ◌∙◌, inl, inr, Bool, Bool-cases, ◌==◌, ==_iff, total,
  total-update, some_weight, arith,
}
use blue_thread.ThreadPool.Queue.{Container}
use blue_thread.ThreadPool.System.{System, Step, IsPrompted, Reach, here, next, ArePrompted}
use blue_thread.ThreadPool.Effects.{Kept}
use blue_thread.ThreadPool.Invariant.{Inv}
use blue_thread.ThreadPool.Invariant.Waits.{Fills}
use blue_thread.ThreadPool.Invariant.Preserved.{Step-Inv}
use blue_thread.ThreadPool.Progress.{rank, Notified, Settles, Advances}
use blue_thread.ThreadPool.Progress.Advance.{advance}

module _ {Q T U : Type 0} (p : Container Q T U) {m : ℕ} where
  first : (s t u : System Q U) → Step p m s t → Reach p m t u → Reach p m s u
  first s t u k here = next here k
  first s t u k (next {t = x} r l) = next (first s t x k r) l

  first-ArePrompted :
      (s t u : System Q U) (k : Step p m s t)
      → IsPrompted p m k
      → (r : Reach p m t u) → ArePrompted p m r
      → ArePrompted p m (first s t u k r)
  unfolding first
  first-ArePrompted s t u k i here a = (tt, i)
  first-ArePrompted s t u k i (next {t = x} r l) a = (first-ArePrompted s t x k i r a.0, a.1)

module _ {Q T U : Type 0} (p : Container Q T U) (law : Fills p) (m : ℕ) (b : Bool)
    (Held : System Q U → Type 0)
    (keeps : (s t : System Q U)
      → Kept s.pool t.pool
      → ((j : ℕ) → Notified (s.client j) (t.client j))
      → Held s
      → Held t)
    (settles : (s : System Q U) → Inv p m s → Held s → Settles p b s) where
  -- What a state has from which no worker has to make a step.
  pub record Settled (s t : System Q U) : Type 0 where
    pub run : Reach p m s t
    pub prompted : ArePrompted p m run
    pub sound : Inv p m t
    pub held : Held t
    pub made : t.made ≡ s.made
    pub threads : t.pool.threads ≡ s.pool.threads
    pub rests : total (rank b) t.made t.worker ≡ 0

  Settled-here :
      (s : System Q U) → Inv p m s → Held s → total (rank b) s.made s.worker ≡ 0 → Settled s s
  Settled-here s v h e = record {
    run = here;
    prompted = tt;
    sound = v;
    held = h;
    made = refl;
    threads = refl;
    rests = e;
  }

  Settled-after : (i : ℕ) (s t u : System Q U) → Advances p m b i s t → Settled t u → Settled s u
  Settled-after i s t u k l = record {
    run = first p s t u k.step l.run;
    prompted = first-ArePrompted p s t u k.step k.prompted l.run l.prompted;
    sound = l.sound;
    held = l.held;
    made = l.made ∙ k.made;
    threads = l.threads ∙ k.kept.threads;
    rests = l.rests;
  }

  closer :
      (i : ℕ) (s t : System Q U)
      → i < s.made
      → Advances p m b i s t
      → total (rank b) t.made t.worker < total (rank b) s.made s.worker
  closer i s t lt k =
      rw (k.made, k.worker)
        (omega (arith, k.lower, total-update (rank b) s.made i s.worker k.to lt))

  settle_in :
      (n : ℕ) (s : System Q U)
      → Inv p m s
      → Held s
      → total (rank b) s.made s.worker ≤ n
      → (t : System Q U) × Settled s t
  settle_in zero s v h le = (s, Settled-here s v h (omega arith))
  settle_in (suc n) s v h le = elim (Bool-cases (total (rank b) s.made s.worker == 0)) [
    | inl e ↦ (s, Settled-here s v h ((==_iff _ 0).0 e))
    | inr e ↦
        let (i, lt, w) = some_weight (rank b) s.made s.worker (ground arith) in
        let (t, k) = advance p m b s v (settles s v h) i w in
        let lower = closer i s t lt k in
        let (u, l) =
          settle_in n t (Step-Inv p law s t v k.step) (keeps s t k.kept k.callers h)
            (omega arith) in
        (u, Settled-after i s t u k l)
  ]

  pub settle : (s : System Q U) → Inv p m s → Held s → (t : System Q U) × Settled s t
  settle s v h = settle_in (total (rank b) s.made s.worker) s v h (omega arith)
