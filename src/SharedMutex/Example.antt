-- ===== src/SharedMutex/Example.antt =====
-- A read-write lock that behaves as documented, for concrete runs: its writer and its readers, of
-- which there can be 100. It does not know them by name: while it has readers, each thread is one.
use blue_thread.Prelude.{
  ℕ, zero, suc, ◌-◌, refl, inr, ltb, Option, none, some, ◌==◌, if◌then◌else◌, arith,
}
use blue_thread.Pthread.{edeadlk, eagain}
use blue_thread.RwLock.{PthreadRwLock, ReadersWriter}

unfoldable pub native_wrlock : ℕ → Option ℕ × ℕ → Option (ℕ × (Option ℕ × ℕ))
native_wrlock t (none, zero) = some (0, (some t, 0))
native_wrlock t (none, suc n) = none
native_wrlock t (some u, n) = if u == t then some (edeadlk, (some u, n)) else none

unfoldable pub native_rdlock : ℕ → Option ℕ × ℕ → Option (ℕ × (Option ℕ × ℕ))
native_rdlock t (none, n) = if n == 100 then some (eagain, (none, n)) else some (0, (none, suc n))
native_rdlock t (some u, n) = if u == t then some (edeadlk, (some u, n)) else none

unfoldable pub native_unlock : ℕ → Option ℕ × ℕ → ℕ × (Option ℕ × ℕ)
native_unlock t (none, n) = (0, (none, n - 1))
native_unlock t (some u, n) = (0, (none, 0))

abbrev pub native : PthreadRwLock (Option ℕ × ℕ)
native = record {
  init = λ prefer. (none, 0);
  wrlock = native_wrlock;
  rdlock = native_rdlock;
  unlock = native_unlock;
}

unfoldable pub native-ReadersWriter : ReadersWriter native
unfolding native_wrlock native_rdlock native_unlock
native-ReadersWriter = record {
  writer = λ m. m.0;
  readers = λ m. m.1;
  full = λ m. m.1 == 100;
  free_not_full = λ m e. ground arith;
  reads = λ t m. ltb 0 m.1;
  wrlock_free = λ t m e z. ((some t, 0), ground arith, refl, refl);
  wrlock_read = λ t m e z. ground arith;
  wrlock_own = λ t m e. ground arith;
  wrlock_other = λ t u m e ne. ground arith;
  rdlock_free = λ t m e f. inr ((none, suc m.1), ground arith, refl, refl, ground arith);
  rdlock_full = λ t m e f. inr (ground arith);
  rdlock_own = λ t m e. ground arith;
  rdlock_other = λ t u m e ne. ground arith;
  unlock_write = λ t m e. ((none, 0), ground arith, refl, refl);
  unlock_read = λ t n m e r mine. ((none, n), ground arith, refl, refl);
}
