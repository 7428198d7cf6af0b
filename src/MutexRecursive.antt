-- ===== src/MutexRecursive.antt =====
-- synchronization/mutex_recursive.h: mutex_recursive. The native mutex is of type
-- PTHREAD_MUTEX_RECURSIVE, and its functions are those of PthreadMutex. lock_count, an atomic int, is
-- a natural number, so what is said of it holds below 2^31.
pub mod Nesting
mod Tests
use blue_thread.Prelude.{
  ℕ, ◌+◌, ◌-◌, Bool, true, false, ◌||◌, Option, none, some, ltb, ◌==◌, if◌then◌else◌, M, Outcome,
  done, threw, blocked, ◌>>=◌, ◌>>◌, get, pure, assert, modify,
}
use blue_thread.Pthread.{PthreadMutex, eperm, ebusy, edeadlk}

pub record RecursiveMutex (Native : Type 0) : Type 0 where
  pub m : Native
  pub lock_count : ℕ

abbrev with_m : {Native : Type 0} → RecursiveMutex Native → Native → RecursiveMutex Native
with_m x n = record x { m = n }

unfoldable pub post_lock : {Native : Type 0} → M (RecursiveMutex Native) (Unit {0})
post_lock = modify (λ x. record x { lock_count = x.lock_count + 1 })

unfoldable pub pre_unlock : {Native : Type 0} → M (RecursiveMutex Native) (Unit {0})
pre_unlock = do
  x ← get
  assert (ltb 0 x.lock_count)
  modify (λ y. record y { lock_count = y.lock_count - 1 })

module _ {Native : Type 0} (p : PthreadMutex Native) where
  unfoldable pub construct : RecursiveMutex Native
  construct = record { m = p.init.1; lock_count = 0 }

  unfoldable pub try_lock_impl : ℕ → M (RecursiveMutex Native) Bool
  try_lock_impl tid x =
      let (r, n) = p.trylock tid x.m in
      if r == 0
      then done true (with_m x n)
      else if r == ebusy
      then done false (with_m x n)
      else threw r (with_m x n)

  unfoldable pub after_try : Bool → M (RecursiveMutex Native) Bool
  unfolding post_lock
  after_try false = pure false
  after_try true = do post_lock; pure true

  unfoldable pub try_lock : ℕ → M (RecursiveMutex Native) Bool
  unfolding try_lock_impl after_try
  try_lock tid = try_lock_impl tid >>= after_try

  unfoldable pub lock_result :
      RecursiveMutex Native → Option (ℕ × Native) → Outcome (RecursiveMutex Native) (Unit {0})
  lock_result x none = blocked x
  lock_result x (some (r, n)) =
      if r == ebusy || r == eperm || r == edeadlk
      then threw r (with_m x n)
      else done tt (with_m x n)

  -- lock() from its pthread_mutex_lock on. A call that waits is `blocked`; when the wait ends, it is
  -- `lock_rest` again, in the state of that time, in which pthread_mutex_lock returns.
  unfoldable pub lock_rest : ℕ → M (RecursiveMutex Native) (Unit {0})
  unfolding lock_result post_lock
  lock_rest tid = do λ x. lock_result x (p.lock tid x.m); post_lock

  unfoldable pub lock_slow : ℕ → Bool → M (RecursiveMutex Native) (Unit {0})
  unfolding lock_rest
  lock_slow tid true = pure tt
  lock_slow tid false = lock_rest tid

  unfoldable pub lock : ℕ → M (RecursiveMutex Native) (Unit {0})
  unfolding try_lock lock_slow
  lock tid = try_lock tid >>= lock_slow tid

  unfoldable pub unlock : ℕ → M (RecursiveMutex Native) (Unit {0})
  unfolding pre_unlock
  unlock tid = do pre_unlock; λ x. (let (r, n) = p.unlock tid x.m in assert (r == 0) (with_m x n))
