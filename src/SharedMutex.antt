-- ===== src/SharedMutex.antt =====
-- synchronization/shared_mutex.h and shared_mutex.cc: shared_mutex_debug. The base class is that of
-- BlueMutex, with the pthread_rwlock_t in the place of the native mutex.
pub mod Views
pub mod Passing
pub mod Checked
pub mod Unlocking
pub mod Uncounted
pub mod Plain
pub mod Example
mod Tests
use blue_thread.Prelude.{
  ℕ, ◌+◌, ◌-◌, Bool, true, false, ◌||◌, Option, none, some, String, ltb, ◌==◌, if◌then◌else◌, M,
  Outcome, done, threw, aborted, blocked, diverged, ◌>>=◌, ◌>>◌, get, assert, modify, when,
}
use blue_thread.BackTrace.{BackTrace}
use blue_thread.RwLock.{PthreadRwLock}
use blue_thread.Lockdep.State.{Lockdep}
use blue_thread.Mutex.{
  World, is_by, fresh, construct_base, destruct_base, will_lock, locked, will_unlock,
}

pub record SharedWorld (Native : Type 0) : Type 0 where
  pub base : World Native
  pub read_locked_count : ℕ

module _ {Native : Type 0} where
  -- A call of the base class.
  unfoldable pub put_base :
      ℕ → Outcome (World Native) (Unit {0}) → Outcome (SharedWorld Native) (Unit {0})
  put_base n (done _ w) = done tt (record { base = w; read_locked_count = n })
  put_base n (threw e w) = threw e (record { base = w; read_locked_count = n })
  put_base n (aborted w) = aborted (record { base = w; read_locked_count = n })
  put_base n (blocked w) = blocked (record { base = w; read_locked_count = n })
  put_base n diverged = diverged

  unfoldable pub on_base : M (World Native) (Unit {0}) → M (SharedWorld Native) (Unit {0})
  unfolding put_base
  on_base f w = put_base w.read_locked_count (f w.base)

  abbrev pub with_native : SharedWorld Native → Native → SharedWorld Native
  with_native w n = record w { base = record w.base { mutex = record w.base.mutex { m = n } } }

  abbrev pub with_writer : SharedWorld Native → ℕ → Option ℕ → SharedWorld Native
  with_writer w n by = record w {
    base = record w.base { mutex = record w.base.mutex { locked_count = n; locked_by = by } };
  }

  unfoldable pub post_lock : ℕ → M (SharedWorld Native) (Unit {0})
  post_lock tid = do
    w ← get
    when w.base.mutex.lockdep (do
      assert (w.base.mutex.locked_count == 0)
      modify (λ x. with_writer x (x.base.mutex.locked_count + 1) (some tid)))

  unfoldable pub pre_unlock : ℕ → M (SharedWorld Native) (Unit {0})
  unfolding is_by
  pre_unlock tid = do
    w ← get
    when w.base.mutex.lockdep (do
      assert (ltb 0 w.base.mutex.locked_count)
      modify (λ x. with_writer x (x.base.mutex.locked_count - 1) x.base.mutex.locked_by)
      v ← get
      assert (is_by v.base.mutex.locked_by tid)
      assert (v.base.mutex.locked_count == 0))

  unfoldable pub post_lock_shared : M (SharedWorld Native) (Unit {0})
  post_lock_shared = do
    w ← get
    when w.base.mutex.lockdep
        (modify (λ x. record x { read_locked_count = x.read_locked_count + 1 }))

  unfoldable pub pre_unlock_shared : M (SharedWorld Native) (Unit {0})
  pre_unlock_shared = do
    w ← get
    when w.base.mutex.lockdep (do
      assert (ltb 0 w.read_locked_count)
      modify (λ x. record x { read_locked_count = x.read_locked_count - 1 }))

  unfoldable pub is_wlocked : SharedWorld Native → Bool
  is_wlocked w = ltb 0 w.base.mutex.locked_count

  unfoldable pub is_rlocked : SharedWorld Native → Bool
  is_rlocked w = ltb 0 w.read_locked_count

  unfoldable pub is_locked : SharedWorld Native → Bool
  is_locked w = ltb 0 w.read_locked_count || ltb 0 w.base.mutex.locked_count

  -- if (int r = …; r != 0) throw
  unfoldable pub rwlock_result :
      SharedWorld Native → Option (ℕ × Native) → Outcome (SharedWorld Native) (Unit {0})
  rwlock_result w none = blocked w
  rwlock_result w (some (r, n)) =
      if r == 0 then done tt (with_native w n) else threw r (with_native w n)

  -- ~shared_mutex_debug(), and then the base's
  unfoldable pub destruct : M (SharedWorld Native) (Unit {0})
  unfolding on_base destruct_base
  destruct = on_base destruct_base

module _ {Native : Type 0} (p : PthreadRwLock Native) where
  unfoldable pub construct :
      String → Bool → Bool → Lockdep → Outcome (SharedWorld Native) (Unit {0})
  unfolding on_base construct_base fresh
  construct name lockdep prioritize_write s =
      on_base construct_base
        (record { base = fresh (p.init prioritize_write) name lockdep s; read_locked_count = 0 })

  -- pthread_rwlock_wrlock and pthread_rwlock_rdlock with the check of their result
  unfoldable pub wrlock : ℕ → M (SharedWorld Native) (Unit {0})
  unfolding rwlock_result
  wrlock tid w = rwlock_result w (p.wrlock tid w.base.mutex.m)

  unfoldable pub rdlock : ℕ → M (SharedWorld Native) (Unit {0})
  unfolding rwlock_result
  rdlock tid w = rwlock_result w (p.rdlock tid w.base.mutex.m)

  unfoldable pub rwunlock : ℕ → M (SharedWorld Native) (Unit {0})
  unfolding rwlock_result
  rwunlock tid w = rwlock_result w (some (p.unlock tid w.base.mutex.m))

  unfoldable pub lock : ℕ → BackTrace → M (SharedWorld Native) (Unit {0})
  unfolding on_base wrlock
  lock tid bt = do
    w ← get
    when w.base.mutex.lockdep (on_base (will_lock tid bt))
    wrlock tid
    when w.base.mutex.lockdep (on_base (locked tid bt))
    post_lock tid

  unfoldable pub unlock : ℕ → M (SharedWorld Native) (Unit {0})
  unfolding on_base rwunlock
  unlock tid = do
    pre_unlock tid
    w ← get
    when w.base.mutex.lockdep (on_base (will_unlock tid))
    rwunlock tid

  unfoldable pub lock_shared : ℕ → BackTrace → M (SharedWorld Native) (Unit {0})
  unfolding on_base rdlock
  lock_shared tid bt = do
    w ← get
    when w.base.mutex.lockdep (on_base (will_lock tid bt))
    rdlock tid
    when w.base.mutex.lockdep (on_base (locked tid bt))
    post_lock_shared

  unfoldable pub unlock_shared : ℕ → M (SharedWorld Native) (Unit {0})
  unfolding on_base rwunlock
  unlock_shared tid = do
    pre_unlock_shared
    w ← get
    when w.base.mutex.lockdep (on_base (will_unlock tid))
    rwunlock tid
