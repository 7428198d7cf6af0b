-- ===== src/Pthread.antt =====
-- What the code takes from <pthread.h> for mutexes, as parameters. A thread is a number; `none` from
-- `lock` means that the call waits. The error numbers are those of asm-generic/errno.h.
use blue_thread.Prelude.{ℕ, ◌≡◌, ◌≢◌, Option, none, some}

abbrev pub eperm : ℕ
eperm = 1

abbrev pub eagain : ℕ
eagain = 11

abbrev pub ebusy : ℕ
ebusy = 16

abbrev pub einval : ℕ
einval = 22

abbrev pub edeadlk : ℕ
edeadlk = 35

abbrev pub etimedout : ℕ
etimedout = 110

-- pthread_mutex_t is `Native`; each function is called by the thread of its first argument.
pub record PthreadMutex (Native : Type 0) : Type 0 where
  -- The results of pthread_mutexattr_settype and pthread_mutex_init.
  pub settype : ℕ
  pub init : ℕ × Native
  pub lock : ℕ → Native → Option (ℕ × Native)
  pub trylock : ℕ → Native → ℕ × Native
  pub unlock : ℕ → Native → ℕ × Native
  pub destroy : Native → ℕ

-- The documented behaviour of a mutex of type PTHREAD_MUTEX_ERRORCHECK.
pub record ErrorCheck {Native : Type 0} (p : PthreadMutex Native) : Type 0 where
  pub owner : Native → Option ℕ
  pub settype_known : p.settype ≡ 0
  pub init_free : (m : Native) × (p.init ≡ (0, m)) × (owner m ≡ none)
  pub lock_free :
      (t : ℕ) (m : Native)
      → owner m ≡ none
      → (m' : Native) × (p.lock t m ≡ some (0, m')) × (owner m' ≡ some t)
  pub lock_own : (t : ℕ) (m : Native) → owner m ≡ some t → p.lock t m ≡ some (edeadlk, m)
  pub lock_other : (t u : ℕ) (m : Native) → owner m ≡ some u → u ≢ t → p.lock t m ≡ none
  pub trylock_free :
      (t : ℕ) (m : Native)
      → owner m ≡ none
      → (m' : Native) × (p.trylock t m ≡ (0, m')) × (owner m' ≡ some t)
  pub trylock_busy : (t u : ℕ) (m : Native) → owner m ≡ some u → p.trylock t m ≡ (ebusy, m)
  pub unlock_own :
      (t : ℕ) (m : Native)
      → owner m ≡ some t
      → (m' : Native) × (p.unlock t m ≡ (0, m')) × (owner m' ≡ none)
  pub unlock_other : (t : ℕ) (m : Native) → owner m ≢ some t → p.unlock t m ≡ (eperm, m)
  pub destroy_free : (m : Native) → owner m ≡ none → p.destroy m ≡ 0
  pub destroy_busy : (t : ℕ) (m : Native) → owner m ≡ some t → p.destroy m ≡ ebusy
