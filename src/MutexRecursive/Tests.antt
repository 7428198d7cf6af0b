-- ===== src/MutexRecursive/Tests.antt =====
-- A recursive native mutex that behaves as documented, and the theorem at it.
use blue_thread.Prelude.{ℕ, zero, suc, refl, ◌<◌, Option, none, some, ◌==◌, if◌then◌else◌, arith}
use blue_thread.Pthread.{PthreadMutex, eperm, ebusy}
use blue_thread.MutexRecursive.{construct}
use blue_thread.MutexRecursive.Nesting.{Recursive, IsNested, Nests, lock-Nests}

native_lock : ℕ → Option (ℕ × ℕ) → Option (ℕ × Option (ℕ × ℕ))
native_lock t none = some (0, some (t, 0))
native_lock t (some (u, n)) = if u == t then some (0, some (t, suc n)) else none

native_trylock : ℕ → Option (ℕ × ℕ) → ℕ × Option (ℕ × ℕ)
native_trylock t none = (0, some (t, 0))
native_trylock t (some (u, n)) = if u == t then (0, some (t, suc n)) else (ebusy, some (u, n))

native_unlock : ℕ → Option (ℕ × ℕ) → ℕ × Option (ℕ × ℕ)
native_unlock t none = (eperm, none)
native_unlock t (some (u, zero)) = if u == t then (0, none) else (eperm, some (u, zero))
native_unlock t (some (u, suc n)) = if u == t then (0, some (u, n)) else (eperm, some (u, suc n))

abbrev native : PthreadMutex (Option (ℕ × ℕ))
native = record {
  settype = 0;
  init = (0, none);
  lock = native_lock;
  trylock = native_trylock;
  unlock = native_unlock;
  destroy = λ m. 0;
}

native-Recursive : Recursive native
unfolding native_lock native_trylock native_unlock
native-Recursive = record {
  level = λ m. m;
  limit = 100;
  some_locks = omega arith;
  init_free = refl;
  trylock_free = λ t m e. (some (t, 0), ground arith, refl);
  trylock_own = λ t n m e lt. (some (t, suc n), ground arith, refl);
  trylock_busy = λ t u n m e ne. ground arith;
  lock_free = λ t m e. (some (t, 0), ground arith, refl);
  lock_other = λ t u n m e ne. ground arith;
  unlock_last = λ t m e. (none, ground arith, refl);
  unlock_inner = λ t n m e. (some (t, n), ground arith, refl);
}

new-IsNested : IsNested native-Recursive 1 0 (construct native)
unfolding construct native-Recursive
new-IsNested = record { native = refl; counted = refl }

few : 2 < native-Recursive.limit
unfolding native-Recursive
few = omega arith

lock-Nests_example : Nests native-Recursive 1 2 2 (construct native)
lock-Nests_example =
    lock-Nests native-Recursive 1 2 2 (construct native) new-IsNested
      (λ e. absurd (omega (arith, e))) few (omega arith)
