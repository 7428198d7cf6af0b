-- ===== src/Mutex/Example.antt =====
-- A native mutex that behaves as documented, for concrete runs.
use blue_thread.Prelude.{
  ℕ, ◌≡◌, ◌≢◌, refl, Option, none, some, false, negsuc, ◌==◌, if◌then◌else◌, arith,
}
use blue_thread.Pthread.{PthreadMutex, ErrorCheck, eperm, ebusy, edeadlk}
use blue_thread.Lockdep.State.{init}
use blue_thread.Mutex.{World}
use blue_thread.Mutex.Holder.{IsFree, HeldBy}

-- The native mutex is the thread that owns it.
unfoldable pub native_lock : ℕ → Option ℕ → Option (ℕ × Option ℕ)
native_lock t none = some (0, some t)
native_lock t (some u) = if u == t then some (edeadlk, some u) else none

unfoldable pub native_trylock : ℕ → Option ℕ → ℕ × Option ℕ
native_trylock t none = (0, some t)
native_trylock t (some u) = (ebusy, some u)

unfoldable pub native_unlock : ℕ → Option ℕ → ℕ × Option ℕ
native_unlock t none = (eperm, none)
native_unlock t (some u) = if u == t then (0, none) else (eperm, some u)

unfoldable pub native_destroy : Option ℕ → ℕ
native_destroy none = 0
native_destroy (some u) = ebusy

abbrev pub native : PthreadMutex (Option ℕ)
native = record {
  settype = 0;
  init = (0, none);
  lock = native_lock;
  trylock = native_trylock;
  unlock = native_unlock;
  destroy = native_destroy;
}

pub native_unlock_other : (t : ℕ) (m : Option ℕ) → m ≢ some t → native_unlock t m ≡ (eperm, m)
unfolding native_unlock
native_unlock_other t none ne = refl
native_unlock_other t (some u) ne = ground arith

unfoldable pub native-ErrorCheck : ErrorCheck native
unfolding native_lock native_trylock native_unlock native_destroy
native-ErrorCheck = record {
  owner = λ m. m;
  settype_known = refl;
  init_free = (none, refl, refl);
  lock_free = λ t m e. (some t, rw e refl, refl);
  lock_own = λ t m e. ground arith;
  lock_other = λ t u m e ne. ground arith;
  trylock_free = λ t m e. (some t, rw e refl, refl);
  trylock_busy = λ t u m e. ground arith;
  unlock_own = λ t m e. (none, ground arith, refl);
  unlock_other = native_unlock_other;
  destroy_free = λ m e. ground arith;
  destroy_busy = λ t m e. ground arith;
}

abbrev pub plain_world : Option ℕ → ℕ → World (Option ℕ)
plain_world m n = record {
  tables = init;
  mutex = record {
    lock_name = "m";
    id = negsuc 0;
    lockdep = false;
    locked_count = n;
    locked_by = m;
    m = m;
  };
}

abbrev pub held_world : World (Option ℕ)
held_world = plain_world (some 1) 1

pub held_world-HeldBy : HeldBy native-ErrorCheck 1 held_world.mutex
unfolding native-ErrorCheck
held_world-HeldBy = record { owned = refl; counted = refl; named = refl }

pub unlocked-IsFree : IsFree native-ErrorCheck (plain_world none 0).mutex
unfolding native-ErrorCheck
unlocked-IsFree = record { unowned = refl; uncounted = refl }
