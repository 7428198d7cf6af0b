-- ===== src/RwLock.antt =====
-- What the code takes from <pthread.h> for read-write locks, as parameters. As for mutexes, `none`
-- means that the call waits.
use blue_thread.Prelude.{ℕ, suc, ◌≡◌, ◌≢◌, ◌⊎◌, Option, none, some, Bool, true, false}
use blue_thread.Pthread.{edeadlk, eagain}

-- pthread_rwlock_t is `Native`. `init` has the kind of the lock as its argument, true for
-- PTHREAD_RWLOCK_PREFER_WRITER_NONRECURSIVE_NP.
pub record PthreadRwLock (Native : Type 0) : Type 0 where
  pub init : Bool → Native
  pub wrlock : ℕ → Native → Option (ℕ × Native)
  pub rdlock : ℕ → Native → Option (ℕ × Native)
  pub unlock : ℕ → Native → ℕ × Native

-- The documented behaviour: one writer or some readers. A reader may have to wait for a writer that
-- waits, and fails with EAGAIN if there are as many read locks as there can be. Only a thread that has
-- the lock may unlock it.
pub record ReadersWriter {Native : Type 0} (p : PthreadRwLock Native) : Type 0 where
  pub writer : Native → Option ℕ
  pub readers : Native → ℕ
  -- There can be no more read locks.
  pub full : Native → Bool
  pub free_not_full : (m : Native) → readers m ≡ 0 → full m ≡ false
  -- The thread has a read lock.
  pub reads : ℕ → Native → Bool
  pub wrlock_free :
      (t : ℕ) (m : Native)
      → writer m ≡ none
      → readers m ≡ 0
      → (m' : Native) × (p.wrlock t m ≡ some (0, m')) × (writer m' ≡ some t) × (readers m' ≡ 0)
  pub wrlock_read : (t : ℕ) (m : Native) → writer m ≡ none → readers m ≢ 0 → p.wrlock t m ≡ none
  pub wrlock_own : (t : ℕ) (m : Native) → writer m ≡ some t → p.wrlock t m ≡ some (edeadlk, m)
  pub wrlock_other : (t u : ℕ) (m : Native) → writer m ≡ some u → u ≢ t → p.wrlock t m ≡ none
  pub rdlock_free :
      (t : ℕ) (m : Native)
      → writer m ≡ none
      → full m ≡ false
      → (p.rdlock t m ≡ none)
        ⊎ ((m' : Native) × (p.rdlock t m ≡ some (0, m'))
            × (writer m' ≡ none)
            × (readers m' ≡ suc (readers m))
            × (reads t m' ≡ true))
  pub rdlock_full :
      (t : ℕ) (m : Native)
      → writer m ≡ none
      → full m ≡ true
      → (p.rdlock t m ≡ none) ⊎ (p.rdlock t m ≡ some (eagain, m))
  pub rdlock_own : (t : ℕ) (m : Native) → writer m ≡ some t → p.rdlock t m ≡ some (edeadlk, m)
  pub rdlock_other : (t u : ℕ) (m : Native) → writer m ≡ some u → u ≢ t → p.rdlock t m ≡ none
  pub unlock_write :
      (t : ℕ) (m : Native)
      → writer m ≡ some t
      → (m' : Native) × (p.unlock t m ≡ (0, m')) × (writer m' ≡ none) × (readers m' ≡ 0)
  pub unlock_read :
      (t n : ℕ) (m : Native)
      → writer m ≡ none
      → readers m ≡ suc n
      → reads t m ≡ true
      → (m' : Native) × (p.unlock t m ≡ (0, m')) × (writer m' ≡ none) × (readers m' ≡ n)
