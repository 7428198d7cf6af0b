-- ===== src/Mutex.antt =====
-- synchronization/mutex.h and mutex.cc: mutex_debug_base and mutex_debug_impl (BlueMutex). A call is
-- made by the thread `tid`, with `bt` the stack that lockdep may capture. The state is one mutex and
-- the tables of lockdep.
pub mod Holder
pub mod Plain
pub mod Checked
pub mod Lifetime
pub mod Example
mod Tests
use blue_thread.Prelude.{
  ℕ, ◌+◌, ◌-◌, ◌≡◌, Bool, true, false, ◌&&◌, ◌||◌, Option, none, some, String, ℤ, pos, negsuc, ltb,
  ◌==◌, if◌then◌else◌, M, Outcome, done, threw, aborted, blocked, diverged, ◌>>=◌, ◌>>◌, get, pure,
  throw, assert, modify, when,
}
use blue_thread.BackTrace.{BackTrace}
use blue_thread.Pthread.{PthreadMutex, eperm, ebusy, edeadlk}
use blue_thread.Lockdep.State.{Lockdep}
use blue_thread.Lockdep.Ids.{lockdep_register}
use blue_thread.Lockdep.Calls.{
  lockdep_will_lock, lockdep_locked, lockdep_will_unlock, lockdep_unregister,
}

pub record Mutex (Native : Type 0) : Type 0 where
  pub lock_name : String
  pub id : ℤ
  pub lockdep : Bool
  pub locked_count : ℕ
  -- std::thread::id, none if it names no thread
  pub locked_by : Option ℕ
  pub m : Native

pub record World (Native : Type 0) : Type 0 where
  pub tables : Lockdep
  pub mutex : Mutex Native

-- locked_by == std::this_thread::get_id()
unfoldable pub is_by : Option ℕ → ℕ → Bool
is_by none tid = false
is_by (some t) tid = t == tid

module _ {Native : Type 0} where
  abbrev pub with_mutex : (Mutex Native → Mutex Native) → World Native → World Native
  with_mutex f w = record w { mutex = f w.mutex }

  unfoldable pub is_locked : Mutex Native → Bool
  is_locked x = ltb 0 x.locked_count

  unfoldable pub is_locked_by_me : Mutex Native → ℕ → Bool
  unfolding is_by
  is_locked_by_me x tid = ltb 0 x.locked_count && is_by x.locked_by tid

  -- id = lockdep_…(…)
  unfoldable pub store_id : World Native → Outcome Lockdep ℤ → Outcome (World Native) (Unit {0})
  store_id w (done z t) = done tt (record { tables = t; mutex = record w.mutex { id = z } })
  store_id w (threw e t) = threw e (record w { tables = t })
  store_id w (aborted t) = aborted (record w { tables = t })
  store_id w (blocked t) = blocked (record w { tables = t })
  store_id w diverged = diverged

  unfoldable pub will_lock : ℕ → BackTrace → M (World Native) (Unit {0})
  unfolding store_id
  will_lock tid bt w = store_id w (lockdep_will_lock w.mutex.lock_name w.mutex.id tid bt w.tables)

  unfoldable pub locked : ℕ → BackTrace → M (World Native) (Unit {0})
  unfolding store_id
  locked tid bt w = store_id w (lockdep_locked w.mutex.lock_name w.mutex.id tid bt w.tables)

  unfoldable pub will_unlock : ℕ → M (World Native) (Unit {0})
  unfolding store_id
  will_unlock tid w = store_id w (lockdep_will_unlock w.mutex.lock_name w.mutex.id tid w.tables)

  unfoldable pub post_lock : ℕ → M (World Native) (Unit {0})
  post_lock tid = do
    w ← get
    assert (w.mutex.locked_count == 0)
    modify (with_mutex λ x. record x { locked_by = some tid; locked_count = x.locked_count + 1 })

  unfoldable pub pre_unlock : ℕ → M (World Native) (Unit {0})
  pre_unlock tid = do
    w ← get
    assert (w.mutex.locked_count == 1)
    when (w.mutex.locked_count == 1) (modify (with_mutex λ x. record x { locked_by = some tid }))
    modify (with_mutex λ x. record x { locked_count = x.locked_count - 1 })

  abbrev pub set_native : World Native → Native → World Native
  set_native w n = with_mutex (λ x. record x { m = n }) w

  -- _register() and _unregister()
  unfoldable pub register_id : World Native → Outcome Lockdep ℕ → Outcome (World Native) (Unit {0})
  register_id w (done k t) = done tt (record { tables = t; mutex = record w.mutex { id = pos k } })
  register_id w (threw e t) = threw e (record w { tables = t })
  register_id w (aborted t) = aborted (record w { tables = t })
  register_id w (blocked t) = blocked (record w { tables = t })
  register_id w diverged = diverged

  unfoldable pub unregister_id :
      World Native → Outcome Lockdep (Unit {0}) → Outcome (World Native) (Unit {0})
  unregister_id w (done _ t) = done tt (record w { tables = t })
  unregister_id w (threw e t) = threw e (record w { tables = t })
  unregister_id w (aborted t) = aborted (record w { tables = t })
  unregister_id w (blocked t) = blocked (record w { tables = t })
  unregister_id w diverged = diverged

  -- The fields of a new mutex, before its constructor runs.
  unfoldable pub fresh : Native → String → Bool → Lockdep → World Native
  fresh m name lockdep s = record {
    tables = s;
    mutex = record {
      lock_name = name;
      id = negsuc 0;
      lockdep = lockdep;
      locked_count = 0;
      locked_by = none;
      m = m;
    };
  }

  -- mutex_debug_base(name, lockdep)
  unfoldable pub construct_base : M (World Native) (Unit {0})
  unfolding register_id
  construct_base = do
    w ← get
    when w.mutex.lockdep (λ u. register_id u (lockdep_register u.mutex.lock_name u.tables))

  -- ~mutex_debug_base()
  unfoldable pub destruct_base : M (World Native) (Unit {0})
  unfolding unregister_id
  destruct_base = do
    w ← get
    assert (w.mutex.locked_count == 0)
    when w.mutex.lockdep (λ u. unregister_id u (lockdep_unregister u.mutex.id u.tables))

module _ {Native : Type 0} (p : PthreadMutex Native) where
  -- _init()
  unfoldable pub init_native : M (World Native) (Unit {0})
  init_native = do
    assert (p.settype == 0)
    modify (with_mutex λ x. record x { m = p.init.1 })
    assert (p.init.0 == 0)

  unfoldable pub construct : String → Bool → Lockdep → Outcome (World Native) (Unit {0})
  unfolding construct_base init_native fresh
  construct name lockdep s = (do construct_base; init_native) (fresh p.init.1 name lockdep s)

  -- The result of pthread_mutex_lock.
  unfoldable pub lock_result :
      World Native → Option (ℕ × Native) → Outcome (World Native) (Unit {0})
  lock_result w none = blocked w
  lock_result w (some (r, n)) =
      if r == eperm || r == edeadlk || r == ebusy
      then threw r (set_native w n)
      else assert (r == 0) (set_native w n)

  unfoldable pub lock_impl : ℕ → M (World Native) (Unit {0})
  unfolding lock_result
  lock_impl tid w = lock_result w (p.lock tid w.mutex.m)

  unfoldable pub unlock_impl : ℕ → M (World Native) (Unit {0})
  unlock_impl tid w = let (r, n) = p.unlock tid w.mutex.m in assert (r == 0) (set_native w n)

  unfoldable pub try_lock_impl : ℕ → M (World Native) Bool
  try_lock_impl tid w =
      let (r, n) = p.trylock tid w.mutex.m in
      if r == 0
      then done true (set_native w n)
      else if r == ebusy
      then done false (set_native w n)
      else threw r (set_native w n)

  -- if (locked) { … } return locked;
  unfoldable pub after_try : ℕ → BackTrace → Bool → M (World Native) Bool
  after_try tid bt false = pure false
  after_try tid bt true = do w ← get; when w.mutex.lockdep (locked tid bt); post_lock tid; pure true

  unfoldable pub try_lock : ℕ → BackTrace → M (World Native) Bool
  unfolding try_lock_impl after_try
  try_lock tid bt = do taken ← try_lock_impl tid; after_try tid bt taken

  -- What lock() does from its lock_impl() on. A call that waits is `blocked`; when the wait ends, it
  -- is `lock_rest` again, in the state of that time, in which pthread_mutex_lock returns.
  unfoldable pub lock_rest : ℕ → BackTrace → M (World Native) (Unit {0})
  unfolding lock_impl
  lock_rest tid bt = do lock_impl tid; w ← get; when w.mutex.lockdep (locked tid bt); post_lock tid

  -- What lock() does after its try_lock().
  unfoldable pub lock_slow : ℕ → BackTrace → Bool → M (World Native) (Unit {0})
  unfolding lock_rest
  lock_slow tid bt true = pure tt
  lock_slow tid bt false = lock_rest tid bt

  unfoldable pub lock : ℕ → BackTrace → M (World Native) (Unit {0})
  unfolding try_lock lock_slow
  lock tid bt = do
    w ← get
    when w.mutex.lockdep (will_lock tid bt)
    taken ← try_lock tid bt
    lock_slow tid bt taken

  unfoldable pub unlock : ℕ → M (World Native) (Unit {0})
  unfolding unlock_impl
  unlock tid = do pre_unlock tid; w ← get; when w.mutex.lockdep (will_unlock tid); unlock_impl tid

  -- ~mutex_debug_impl(), and then the base's
  unfoldable pub destruct : M (World Native) (Unit {0})
  unfolding destruct_base
  destruct = do w ← get; assert (p.destroy w.mutex.m == 0); destruct_base
