-- ===== src/SharedMutex/Uncounted.antt =====
-- A shared_mutex_debug that does not use lockdep keeps no counts.
use blue_thread.Prelude.{
  ℕ, ◌≡◌, inl, inr, Option, none, some, false, Outcome, done, threw, blocked, aborted, diverged,
  bind_outcome, Leaves, ◌==◌, Bool-cases,
}
use blue_thread.BackTrace.{BackTrace}
use blue_thread.RwLock.{PthreadRwLock}
use blue_thread.SharedMutex.{
  SharedWorld, pre_unlock, pre_unlock_shared, rwunlock, unlock, unlock_shared, lock, lock_shared,
  post_lock, post_lock_shared, wrlock, rdlock, is_locked, rwlock_result,
}

module _ {Native : Type 0} where
  abbrev pub IsUnseen : SharedWorld Native → Type 0
  IsUnseen w = (w.base.mutex.lockdep ≡ false) × (is_locked w ≡ false)

  rwlock_result-IsUnseen :
      (v : SharedWorld Native) (r : Option (ℕ × Native))
      → IsUnseen v
      → Leaves IsUnseen (rwlock_result v r)
  unfolding rwlock_result is_locked
  rwlock_result-IsUnseen v none h = h
  rwlock_result-IsUnseen v (some (r, n)) h = elim (Bool-cases (r == 0)) [
    | inl e ↦ rw e h
    | inr e ↦ rw e h
  ]

  module _ (p : PthreadRwLock Native) (v : SharedWorld Native) (tid : ℕ) (bt : BackTrace)
      (off : v.base.mutex.lockdep ≡ false) where
    pub lock_plain : lock p tid bt v ≡ bind_outcome (wrlock p tid v) (λ _. post_lock tid)
    unfolding lock
    lock_plain = simp (off)

    pub lock_shared_plain :
        lock_shared p tid bt v ≡ bind_outcome (rdlock p tid v) (λ _. post_lock_shared)
    unfolding lock_shared
    lock_shared_plain = simp (off)

    pub unlock_plain : unlock p tid v ≡ rwunlock p tid v
    unfolding unlock pre_unlock
    unlock_plain = simp (off)

    pub unlock_shared_plain : unlock_shared p tid v ≡ rwunlock p tid v
    unfolding unlock_shared pre_unlock_shared
    unlock_shared_plain = simp (off)

  module _ (v : SharedWorld Native) (off : v.base.mutex.lockdep ≡ false) where
    pub post_lock_plain : (tid : ℕ) → post_lock tid v ≡ done tt v
    unfolding post_lock
    post_lock_plain tid = simp (off)

    pub post_lock_shared_plain : post_lock_shared v ≡ done tt v
    unfolding post_lock_shared
    post_lock_shared_plain = simp (off)

  post_lock-IsUnseen :
      (tid : ℕ) (r : Outcome (SharedWorld Native) (Unit {0}))
      → Leaves IsUnseen r
      → Leaves IsUnseen (bind_outcome r (λ _. post_lock tid))
  post_lock-IsUnseen tid (done _ w) h = rw (post_lock_plain w h.0 tid) h
  post_lock-IsUnseen tid (threw e w) h = h
  post_lock-IsUnseen tid (aborted w) h = h
  post_lock-IsUnseen tid (blocked w) h = h
  post_lock-IsUnseen tid diverged h = h

  post_lock_shared-IsUnseen :
      (r : Outcome (SharedWorld Native) (Unit {0}))
      → Leaves IsUnseen r
      → Leaves IsUnseen (bind_outcome r (λ _. post_lock_shared))
  post_lock_shared-IsUnseen (done _ w) h = rw (post_lock_shared_plain w h.0) h
  post_lock_shared-IsUnseen (threw e w) h = h
  post_lock_shared-IsUnseen (aborted w) h = h
  post_lock_shared-IsUnseen (blocked w) h = h
  post_lock_shared-IsUnseen diverged h = h

  -- Without lockdep, is_locked() of a lock that has just been made is false after any call of lock(),
  -- lock_shared(), unlock() and unlock_shared(), also of one that returns with the lock taken.
  pub never-is_locked :
      (p : PthreadRwLock Native) (v : SharedWorld Native) (tid : ℕ) (bt : BackTrace)
      → IsUnseen v
      → Leaves IsUnseen (lock p tid bt v)
        × Leaves IsUnseen (lock_shared p tid bt v)
        × Leaves IsUnseen (unlock p tid v)
        × Leaves IsUnseen (unlock_shared p tid v)
  unfolding wrlock rdlock rwunlock
  never-is_locked p v tid bt h = (
    rw (lock_plain p v tid bt h.0)
        (post_lock-IsUnseen tid _ (rwlock_result-IsUnseen v (p.wrlock tid v.base.mutex.m) h)),
    rw (lock_shared_plain p v tid bt h.0)
        (post_lock_shared-IsUnseen _ (rwlock_result-IsUnseen v (p.rdlock tid v.base.mutex.m) h)),
    rw (unlock_plain p v tid bt h.0)
        (rwlock_result-IsUnseen v (some (p.unlock tid v.base.mutex.m)) h),
    rw (unlock_shared_plain p v tid bt h.0)
        (rwlock_result-IsUnseen v (some (p.unlock tid v.base.mutex.m)) h),
  )
