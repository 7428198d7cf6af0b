-- ===== src/MutexRecursive/Nesting.antt =====
-- Nested calls of lock() and unlock() by one thread.
use blue_thread.Prelude.{
  ℕ, zero, suc, ◌≡◌, ◌≢◌, refl, Option, none, some, false, done, blocked, aborted, M, ◌>>◌, pure,
  subst, ◌+◌, ◌<◌, ◌≤◌, ◌^◌, arith,
}
use blue_thread.Pthread.{PthreadMutex, ebusy}
use blue_thread.MutexRecursive.{
  RecursiveMutex, post_lock, pre_unlock, try_lock, lock_rest, lock_slow, lock, unlock,
}

-- The documented behaviour of a mutex of type PTHREAD_MUTEX_RECURSIVE: `level` is its owner with the
-- number of its locks beyond the first. A thread may lock it `limit` times at once; one call more
-- may fail with EAGAIN.
pub record Recursive {Native : Type 0} (p : PthreadMutex Native) : Type 0 where
  pub level : Native → Option (ℕ × ℕ)
  pub limit : ℕ
  pub some_locks : 0 < limit
  pub init_free : level p.init.1 ≡ none
  pub trylock_free :
      (t : ℕ) (m : Native)
      → level m ≡ none
      → (m' : Native) × (p.trylock t m ≡ (0, m')) × (level m' ≡ some (t, 0))
  pub trylock_own :
      (t n : ℕ) (m : Native)
      → level m ≡ some (t, n)
      → n + 1 < limit
      → (m' : Native) × (p.trylock t m ≡ (0, m')) × (level m' ≡ some (t, suc n))
  pub trylock_busy :
      (t u n : ℕ) (m : Native) → level m ≡ some (u, n) → u ≢ t → p.trylock t m ≡ (ebusy, m)
  pub lock_free :
      (t : ℕ) (m : Native)
      → level m ≡ none
      → (m' : Native) × (p.lock t m ≡ some (0, m')) × (level m' ≡ some (t, 0))
  pub lock_other : (t u n : ℕ) (m : Native) → level m ≡ some (u, n) → u ≢ t → p.lock t m ≡ none
  pub unlock_last :
      (t : ℕ) (m : Native)
      → level m ≡ some (t, 0)
      → (m' : Native) × (p.unlock t m ≡ (0, m')) × (level m' ≡ none)
  pub unlock_inner :
      (t n : ℕ) (m : Native)
      → level m ≡ some (t, suc n)
      → (m' : Native) × (p.unlock t m ≡ (0, m')) × (level m' ≡ some (t, n))

abbrev pub repeat : {S : Type 0} → ℕ → M S (Unit {0}) → M S (Unit {0})
repeat zero m = pure tt
repeat (suc n) m = m >> repeat n m

module _ {Native : Type 0} {p : PthreadMutex Native} (c : Recursive p) where
  abbrev level_of : ℕ → ℕ → Option (ℕ × ℕ)
  level_of t zero = none
  level_of t (suc n) = some (t, n)

  -- The thread has locked the mutex `n` times; at 0 it is free.
  pub record IsNested (t n : ℕ) (x : RecursiveMutex Native) : Type 0 where
    pub native : c.level x.m ≡ level_of t n
    pub counted : x.lock_count ≡ n

  trylock_any :
      (t n : ℕ) (m : Native)
      → c.level m ≡ level_of t n
      → n < c.limit
      → (m' : Native) × (p.trylock t m ≡ (0, m')) × (c.level m' ≡ some (t, n))
  trylock_any t zero m e lt = c.trylock_free t m e
  trylock_any t (suc n) m e lt = c.trylock_own t n m e (omega arith)

  unlock_any :
      (t n : ℕ) (m : Native)
      → c.level m ≡ some (t, n)
      → (m' : Native) × (p.unlock t m ≡ (0, m')) × (c.level m' ≡ level_of t n)
  unlock_any t zero m e = c.unlock_last t m e
  unlock_any t (suc n) m e = c.unlock_inner t n m e

  lock_one :
      (t n : ℕ) (x : RecursiveMutex Native)
      → IsNested t n x
      → n < c.limit
      → (y : RecursiveMutex Native) × (lock p t x ≡ done tt y) × IsNested t (suc n) y
  unfolding lock try_lock post_lock lock_slow
  lock_one t n x h lt =
      let (m, e, l) = trylock_any t n x.m h.native lt in
      (
        record { m = m; lock_count = suc n },
        ground (arith, e, h.counted),
        record { native = l; counted = refl },
      )

  unlock_one :
      (t n : ℕ) (x : RecursiveMutex Native)
      → IsNested t (suc n) x
      → (y : RecursiveMutex Native) × (unlock p t x ≡ done tt y) × IsNested t n y
  unfolding unlock pre_unlock
  unlock_one t n x h =
      let (m, e, l) = unlock_any t n x.m h.native in
      (
        record { m = m; lock_count = n },
        ground (arith, e, h.counted),
        record { native = l; counted = refl },
      )

  repeat-lock :
      (t n k m : ℕ) (x : RecursiveMutex Native)
      → m ≡ n + k
      → m ≤ c.limit
      → IsNested t k x
      → (y : RecursiveMutex Native) × (repeat n (lock p t) x ≡ done tt y) × IsNested t m y
  repeat-lock t zero k m x e le h =
      let same : k ≡ m = omega arith in (x, refl, subst (λ (i : ℕ). IsNested t i x) same h)
  repeat-lock t (suc n) k m x e le h =
      let (y, f, g) = lock_one t k x h (omega arith) in
      let (z, r, l) = repeat-lock t n (suc k) m y (omega arith) le g in (z, rw (f, r) refl, l)

  repeat-unlock :
      (t n : ℕ) (x : RecursiveMutex Native)
      → IsNested t n x
      → (y : RecursiveMutex Native) × (repeat n (unlock p t) x ≡ done tt y) × IsNested t 0 y
  repeat-unlock t zero x h = (x, refl, h)
  repeat-unlock t (suc n) x h =
      let (y, f, g) = unlock_one t n x h in
      let (z, r, l) = repeat-unlock t n y g in (z, rw (f, r) refl, l)

  others_try :
      (t u n : ℕ) (x : RecursiveMutex Native)
      → IsNested t (suc n) x
      → t ≢ u
      → try_lock p u x ≡ done false x
  unfolding try_lock
  others_try t u n x h ne = rw (c.trylock_busy u t n x.m h.native ne)

  others_lock :
      (t u n : ℕ) (x : RecursiveMutex Native)
      → IsNested t (suc n) x
      → t ≢ u
      → lock p u x ≡ blocked x
  unfolding lock lock_slow
  others_lock t u n x h ne = rw (others_try t u n x h ne, c.lock_other u t n x.m h.native ne) refl

  -- A call that has waited takes a mutex that is free.
  rest_one :
      (u : ℕ) (x : RecursiveMutex Native)
      → IsNested u 0 x
      → (y : RecursiveMutex Native) × (lock_rest p u x ≡ done tt y) × IsNested u 1 y
  unfolding lock_rest post_lock
  rest_one u x h =
      let (m, e, l) = c.lock_free u x.m h.native in
      (
        record { m = m; lock_count = 1 },
        ground (arith, e, h.counted),
        record { native = l; counted = refl },
      )

  pub record Nests (t u n : ℕ) (x : RecursiveMutex Native) : Type 0 where
    pub inside : RecursiveMutex Native
    pub locks : repeat (suc n) (lock p t) x ≡ done tt inside
    pub refuses : try_lock p u inside ≡ done false inside
    pub waits : lock p u inside ≡ blocked inside
    pub after : RecursiveMutex Native
    pub unlocks : repeat (suc n) (unlock p t) inside ≡ done tt after
    pub free : IsNested t 0 after
    pub no_more : unlock p t after ≡ aborted after
    pub other : RecursiveMutex Native
    pub resumes : lock_rest p u after ≡ done tt other
    pub taken : IsNested u 1 other

  unlock_free : (t : ℕ) (x : RecursiveMutex Native) → IsNested t 0 x → unlock p t x ≡ aborted x
  unfolding unlock pre_unlock
  unlock_free t x h = ground (arith, h.counted)

  -- On a free mutex a thread may call lock() once or more, as often as the native mutex allows and at
  -- most 2^31 - 1 times, the largest int, and each call returns. Then try_lock() by any other thread
  -- returns false and its lock() waits, with nothing changed. As many calls of unlock() return with the
  -- mutex free, and one more aborts; and the rest of the lock() that waited then returns with that
  -- thread as the owner and a count of 1.
  pub lock-Nests :
      (t u n : ℕ) (x : RecursiveMutex Native)
      → IsNested t 0 x
      → t ≢ u
      → n < c.limit
      → n + 1 < 2 ^ 31
      → Nests t u n x
  lock-Nests t u n x h ne room fits =
      let (y, f, g) = repeat-lock t (suc n) 0 (suc n) x (omega arith) (omega arith) h in
      let (z, r, l) = repeat-unlock t (suc n) y g in
      let (w, k, o) = rest_one u z (record { native = l.native; counted = l.counted }) in
      record {
        inside = y;
        locks = f;
        refuses = others_try t u n y g ne;
        waits = others_lock t u n y g ne;
        after = z;
        unlocks = r;
        free = l;
        no_more = unlock_free t z l;
        other = w;
        resumes = k;
        taken = o;
      }
