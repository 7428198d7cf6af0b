-- ===== src/SharedMutex/Plain.antt =====
-- A shared_mutex_debug that does not use lockdep, called while it is free.
use blue_thread.Prelude.{
  ℕ, ◌≡◌, refl, ◌⊎◌, inl, inr, Option, none, some, true, false, done, blocked, arith,
}
use blue_thread.BackTrace.{BackTrace}
use blue_thread.RwLock.{PthreadRwLock, ReadersWriter}
use blue_thread.SharedMutex.{
  SharedWorld, with_native, wrlock, rdlock, rwunlock, rwlock_result, lock, unlock, lock_shared,
  unlock_shared,
}
use blue_thread.SharedMutex.Uncounted.{
  lock_plain, lock_shared_plain, unlock_plain, unlock_shared_plain, post_lock_plain,
  post_lock_shared_plain,
}

module _ {Native : Type 0} {p : PthreadRwLock Native} (c : ReadersWriter p) where
  -- The native lock of a mutex without lockdep, by its writer and its number of readers.
  pub record IsAt (writer : Option ℕ) (readers : ℕ) (v : SharedWorld Native) : Type 0 where
    pub off : v.base.mutex.lockdep ≡ false
    pub written : c.writer v.base.mutex.m ≡ writer
    pub read : c.readers v.base.mutex.m ≡ readers

  module _ (tid : ℕ) (bt : BackTrace) (v : SharedWorld Native) where
    pub lock_open :
        IsAt none 0 v
        → (w : SharedWorld Native) × (lock p tid bt v ≡ done tt w) × IsAt (some tid) 0 w
    unfolding wrlock rwlock_result
    lock_open h =
        let (m, e, o, r) = c.wrlock_free tid v.base.mutex.m h.written h.read in
        (
          with_native v m,
          rw (lock_plain p v tid bt h.off, e) (post_lock_plain (with_native v m) h.off tid),
          record { off = h.off; written = o; read = r },
        )

    pub unlock_open :
        IsAt (some tid) 0 v
        → (w : SharedWorld Native) × (unlock p tid v ≡ done tt w) × IsAt none 0 w
    unfolding rwunlock rwlock_result
    unlock_open h =
        let (m, e, o, r) = c.unlock_write tid v.base.mutex.m h.written in
        (
          with_native v m,
          rw (unlock_plain p v tid bt h.off, e) refl,
          record { off = h.off; written = o; read = r },
        )

    pub lock_shared_open :
        IsAt none 0 v
        → (lock_shared p tid bt v ≡ blocked v)
          ⊎ ((w : SharedWorld Native) × (lock_shared p tid bt v ≡ done tt w)
              × IsAt none 1 w
              × (c.reads tid w.base.mutex.m ≡ true))
    unfolding rdlock rwlock_result
    lock_shared_open h =
        elim (c.rdlock_free tid v.base.mutex.m h.written (c.free_not_full v.base.mutex.m h.read)) [
          | inl e ↦ inl (rw (lock_shared_plain p v tid bt h.off, e) refl)
          | inr (m, e, o, r, mine) ↦ inr (
            with_native v m,
            rw (lock_shared_plain p v tid bt h.off, e)
                (post_lock_shared_plain (with_native v m) h.off),
            record { off = h.off; written = o; read = omega (arith, r, h.read) },
            mine,
          )
        ]

    pub unlock_shared_open :
        IsAt none 1 v
        → c.reads tid v.base.mutex.m ≡ true
        → (w : SharedWorld Native) × (unlock_shared p tid v ≡ done tt w) × IsAt none 0 w
    unfolding rwunlock rwlock_result
    unlock_shared_open h mine =
        let (m, e, o, r) = c.unlock_read tid 0 v.base.mutex.m h.written h.read mine in
        (
          with_native v m,
          rw (unlock_shared_plain p v tid bt h.off, e) refl,
          record { off = h.off; written = o; read = r },
        )
