-- ===== src/Lockdep/Threads.antt =====
-- Any number of threads that call the functions of synchronization/utils.cc in the order in which
-- the mutexes of synchronization/mutex.h do. Each call holds `lockdep_mutex`, so the calls of
-- different threads interleave as whole steps.
pub mod Steps
pub mod Deadlock
use blue_thread.Prelude.{ℕ, suc, ◌≡◌, ◌≢◌, Option, none, some, String, ℤ, pos, update, done}
use blue_thread.BackTrace.{BackTrace}
use blue_thread.Lockdep.State.{Lockdep, init}
use blue_thread.Lockdep.Ids.{lockdep_register}
use blue_thread.Lockdep.Calls.{
  lockdep_will_lock, lockdep_locked, lockdep_will_unlock, lockdep_unregister,
}
use blue_thread.Lockdep.Invariant.{IsNamed, Holds}
use blue_thread.Lockdep.Invariant.Locking.{Fits}

-- `waiting tid` is the lock that the thread may take next, between the return of lockdep_will_lock
-- and the call of lockdep_locked: in between, the thread waits for the mutex.
pub record System : Type 0 where
  pub tables : Lockdep
  pub waiting : ℕ → Option ℕ

abbrev pub start : System
start = record { tables = init; waiting = λ _. none }

pub data Step (s : System) : System → Type 0 where
  -- the constructor of a mutex, and the destructor while another mutex has the name
  register :
      {t : Lockdep} {k : ℕ} (name : String)
      → lockdep_register name s.tables ≡ done k t
      → Step s (record s { tables = t })
  unregister :
      {t : Lockdep} (id k : ℕ)
      → IsNamed s.tables id
      → s.tables.lock_ref id ≡ some (pos (suc k))
      → (k ≡ 0 → (tid : ℕ) → ¬ Holds (s.tables.held_locks tid) id)
      → (k ≡ 0 → (tid : ℕ) → s.waiting tid ≢ some id)
      → lockdep_unregister (pos id) s.tables ≡ done tt t
      → Step s (record s { tables = t })
  -- lock(): the check before the mutex is taken
  attempt :
      {t : Lockdep} {k : ℕ} (name : String) (z : ℤ) (tid : ℕ) (bt : BackTrace)
      → s.waiting tid ≡ none
      → Fits s.tables z
      → lockdep_will_lock name z tid bt s.tables ≡ done (pos k) t
      → Step s (record { tables = t; waiting = update s.waiting tid (some k) })
  -- lock(): the mutex is taken
  acquire :
      {t : Lockdep} {j : ℕ} (name : String) (k tid : ℕ) (bt : BackTrace)
      → s.waiting tid ≡ some k
      → lockdep_locked name (pos k) tid bt s.tables ≡ done (pos j) t
      → Step s (record { tables = t; waiting = update s.waiting tid none })
  -- try_lock(): the mutex is taken with no check
  try_acquire :
      {t : Lockdep} {j : ℕ} (name : String) (k tid : ℕ) (bt : BackTrace)
      → s.waiting tid ≡ none
      → IsNamed s.tables k
      → lockdep_locked name (pos k) tid bt s.tables ≡ done (pos j) t
      → Step s (record s { tables = t })
  -- lock() ends in an exception
  give_up : (tid : ℕ) → Step s (record s { waiting = update s.waiting tid none })
  -- unlock()
  release :
      {t : Lockdep} {z : ℤ} (name : String) (k tid : ℕ)
      → lockdep_will_unlock name (pos k) tid s.tables ≡ done z t
      → Step s (record s { tables = t })

pub data Reach : System → Type 0 where
  begin : Reach start
  next : {s t : System} → Reach s → Step s t → Reach t

-- A thread waits for a lock that the other one holds.
abbrev pub WaitsFor : System → ℕ → ℕ → Type 0
WaitsFor s t u = (k : ℕ) × (s.waiting t ≡ some k) × Holds (s.tables.held_locks u) k

-- Each thread of the chain waits for the next.
pub data WaitChain (s : System) : ℕ → ℕ → Type 0 where
  last : {t u : ℕ} → WaitsFor s t u → WaitChain s t u
  more : {t u w : ℕ} → WaitsFor s t u → WaitChain s u w → WaitChain s t w
