-- ===== src/Mutex/Plain.antt =====
-- A BlueMutex that does not use lockdep.
use blue_thread.Prelude.{
  ℕ, ◌+◌, ◌≡◌, ◌≢◌, refl, inl, inr, Option, none, some, Bool, true, false, Outcome, done, threw,
  blocked, aborted, ◌==◌, ==_iff, arith, Bool-cases,
}
use blue_thread.BackTrace.{BackTrace}
use blue_thread.Pthread.{PthreadMutex, ErrorCheck, edeadlk}
use blue_thread.Mutex.{World, post_lock, pre_unlock, try_lock, lock_rest, lock_slow, lock, unlock}
use blue_thread.Mutex.Holder.{IsFree, HeldBy, Holder}

module _ {Native : Type 0} (p : PthreadMutex Native) (c : ErrorCheck p) where
  -- The thread holds the mutex now, and the tables of lockdep are as before.
  pub record Acquired (tid : ℕ) (v w : World Native) : Type 0 where
    pub held : HeldBy c tid w.mutex
    pub same_tables : w.tables ≡ v.tables
    pub still_plain : w.mutex.lockdep ≡ false

  -- What is left of the call returns with the mutex held.
  abbrev Acquires : ℕ → World Native → Outcome (World Native) (Unit {0}) → Type 0
  Acquires tid v (done _ w) = Acquired tid v w
  Acquires tid v _ = ⊥

  -- `r` is what the call gives at `w`, and `s` is what is left of it when its wait ends, at `v`.
  abbrev Refuses :
      World Native
      → ℕ
      → Bool
      → Outcome (World Native) (Unit {0})
      → World Native
      → Outcome (World Native) (Unit {0})
      → Type 0
  Refuses w tid true r v s = r ≡ threw edeadlk w
  Refuses w tid false r v s = (r ≡ blocked w) × Acquires tid v s

  -- What lock() does, by who holds the mutex.
  abbrev pub LockEnds :
      World Native
      → ℕ
      → Option ℕ
      → Outcome (World Native) (Unit {0})
      → World Native
      → Outcome (World Native) (Unit {0})
      → Type 0
  LockEnds w tid none r v s = Acquires tid w r
  LockEnds w tid (some u) r v s = Refuses w tid (u == tid) r v s

  module _ (w : World Native) (tid : ℕ) (bt : BackTrace) (plain : w.mutex.lockdep ≡ false) where
    abbrev taken : Native → World Native
    taken n = record w {
      mutex = record w.mutex {
        m = n;
        locked_by = some tid;
        locked_count = w.mutex.locked_count + 1;
      };
    }

    taken-Acquired :
        (n : Native) → c.owner n ≡ some tid → w.mutex.locked_count ≡ 0 → Acquired tid w (taken n)
    taken-Acquired n o e = record {
      held = record { owned = o; counted = omega arith; named = refl };
      same_tables = refl;
      still_plain = plain;
    }

    try_free :
        IsFree c w.mutex
        → (n : Native) × (c.owner n ≡ some tid) × (try_lock p tid bt w ≡ done true (taken n))
    unfolding try_lock post_lock
    try_free f = let (n, e, o) = c.trylock_free tid w.mutex.m f.unowned in (n, o, ground (arith, e))

    try_held : (u : ℕ) → HeldBy c u w.mutex → try_lock p tid bt w ≡ done false w
    unfolding try_lock
    try_held u h = rw (c.trylock_busy tid u w.mutex.m h.owned)

    lock_free :
        IsFree c w.mutex → (w' : World Native) × (lock p tid bt w ≡ done tt w') × Acquired tid w w'
    unfolding lock lock_slow
    lock_free f =
        let (n, o, e) = try_free f in (taken n, ground (arith, e), taken-Acquired n o f.uncounted)

    lock_own : HeldBy c tid w.mutex → lock p tid bt w ≡ threw edeadlk w
    unfolding lock lock_slow
    lock_own h = ground (arith, try_held tid h, c.lock_own tid w.mutex.m h.owned)

    lock_other : (u : ℕ) → (u == tid) ≡ false → HeldBy c u w.mutex → lock p tid bt w ≡ blocked w
    unfolding lock lock_slow
    lock_other u ne h = ground (arith, try_held u h, c.lock_other tid u w.mutex.m h.owned)

    rest_free : IsFree c w.mutex → Acquires tid w (lock_rest p tid bt w)
    unfolding lock_rest post_lock
    rest_free f =
        let (n, e, o) = c.lock_free tid w.mutex.m f.unowned in
        let run : lock_rest p tid bt w ≡ done tt (taken n) = ground (arith, e) in
        rw run (taken-Acquired n o f.uncounted)

    abbrev pub TryEnds : Option ℕ → Outcome (World Native) Bool → Type 0
    TryEnds none (done r w') = (r ≡ true) × Acquired tid w w'
    TryEnds (some u) r = r ≡ done false w
    TryEnds _ _ = ⊥

    -- Without lockdep, try_lock() takes a free mutex, and otherwise returns false at once, also to the
    -- thread that holds it, with nothing changed.
    pub try_lock-Ends : (h : Option ℕ) → Holder c w.mutex h → TryEnds h (try_lock p tid bt w)
    try_lock-Ends none f = let (n, o, e) = try_free f in rw e (refl, taken-Acquired n o f.uncounted)
    try_lock-Ends (some u) h = try_held u h

  -- Without lockdep, lock() on a free mutex returns with the mutex held by the caller. It throws EDEADLK
  -- if the caller holds it. It waits if another thread does, with nothing changed; and in any later
  -- state in which the mutex is free, the rest of the call returns with the mutex held by the caller.
  pub lock-Ends_plain :
      (w : World Native) (tid : ℕ) (bt : BackTrace) (h : Option ℕ) (later : World Native)
      → w.mutex.lockdep ≡ false
      → Holder c w.mutex h
      → later.mutex.lockdep ≡ false
      → IsFree c later.mutex
      → LockEnds w tid h (lock p tid bt w) later (lock_rest p tid bt later)
  lock-Ends_plain w tid bt none later plain f plain' f' =
      let (w', e, a) = lock_free w tid bt plain f in rw e a
  lock-Ends_plain w tid bt (some u) later plain h plain' f' = elim (Bool-cases (u == tid)) [
    | inl same ↦ rw same (lock_own w tid bt plain (rw ((==_iff u tid).0 same) at h))
    | inr other ↦ rw other (lock_other w tid bt plain u other h, rest_free later tid bt plain' f')
  ]

  -- The mutex is free again, and the tables of lockdep are as before.
  pub record Released (v w : World Native) : Type 0 where
    pub free : IsFree c w.mutex
    pub same_tables : w.tables ≡ v.tables

  abbrev pub ReleaseEnds : World Native → Bool → Outcome (World Native) (Unit {0}) → Type 0
  ReleaseEnds w true (done _ w') = Released w w'
  ReleaseEnds w false (aborted w') = w'.tables ≡ w.tables
  ReleaseEnds w _ _ = ⊥

  abbrev pub UnlockEnds : World Native → ℕ → Option ℕ → Outcome (World Native) (Unit {0}) → Type 0
  UnlockEnds w tid none r = r ≡ aborted w
  UnlockEnds w tid (some u) r = ReleaseEnds w (u == tid) r

  module _ (w : World Native) (tid : ℕ) (plain : w.mutex.lockdep ≡ false) where
    abbrev left : Native → World Native
    left n = record w { mutex = record w.mutex { m = n; locked_by = some tid; locked_count = 0 } }

    unlock_own :
        HeldBy c tid w.mutex
        → (n : Native) × (c.owner n ≡ none) × (unlock p tid w ≡ done tt (left n))
    unfolding unlock pre_unlock
    unlock_own h = let (n, e, o) = c.unlock_own tid w.mutex.m h.owned in (n, o, ground (arith, e))

    unlock_other :
        (u : ℕ)
        → (u == tid) ≡ false
        → HeldBy c u w.mutex
        → unlock p tid w ≡ aborted (left w.mutex.m)
    unfolding unlock pre_unlock
    unlock_other u ne h =
        let foreign : c.owner w.mutex.m ≢ some tid = λ e. ground (arith, h.owned) in
        ground (arith, c.unlock_other tid w.mutex.m foreign)

    unlock_free : IsFree c w.mutex → unlock p tid w ≡ aborted w
    unfolding unlock pre_unlock
    unlock_free f = ground arith

    -- Without lockdep, unlock() by the holder returns with the mutex free; by any other thread, and on a
    -- free mutex, it aborts.
    pub unlock-Ends : (h : Option ℕ) → Holder c w.mutex h → UnlockEnds w tid h (unlock p tid w)
    unlock-Ends none f = unlock_free f
    unlock-Ends (some u) h = elim (Bool-cases (u == tid)) [
      | inl same ↦
          let (n, o, e) = unlock_own (rw ((==_iff u tid).0 same) at h) in
          rw (same, e)
            (record { free = record { unowned = o; uncounted = refl }; same_tables = refl })
      | inr other ↦ rw (other, unlock_other u other h) refl
    ]
