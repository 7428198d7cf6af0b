-- ===== src/SharedMutex/Unlocking.antt =====
-- unlock() and unlock_shared() of a shared_mutex_debug that uses lockdep.
use blue_thread.Prelude.{
  ℕ, zero, suc, ◌≡◌, refl, inl, inr, Option, none, some, Bool, true, false, pos, Outcome, done,
  aborted, ◌==◌, ==_iff, arith, Bool-cases,
}
use blue_thread.RwLock.{PthreadRwLock, ReadersWriter}
use blue_thread.Lockdep.State.{erase_held}
use blue_thread.Lockdep.Calls.{lockdep_will_unlock}
use blue_thread.Lockdep.Invariant.Locking.Helds.{erase-GivesBack, with_helds}
use blue_thread.Mutex.{will_unlock}
use blue_thread.SharedMutex.{
  SharedWorld, on_base, pre_unlock, pre_unlock_shared, unlock, unlock_shared,
}
use blue_thread.SharedMutex.Views.{Mode, reading, writing, SharedKnown, SharedReleased}

module _ {Native : Type 0} (p : PthreadRwLock Native) (c : ReadersWriter p) (k : ℕ) where
  abbrev pub Gives :
      SharedWorld Native → ℕ → Bool → Outcome (SharedWorld Native) (Unit {0}) → Type 0
  Gives v tid true (done _ w) = SharedReleased c k tid (reading 0) v w
  Gives v tid false (aborted w) = w.base.tables ≡ v.base.tables
  Gives v tid _ _ = ⊥

  abbrev pub UnlockEnds :
      SharedWorld Native → ℕ → Mode → Outcome (SharedWorld Native) (Unit {0}) → Type 0
  UnlockEnds v tid (reading n) r = r ≡ aborted v
  UnlockEnds v tid (writing u) r = Gives v tid (u == tid) r

  abbrev pub UnlockSharedEnds :
      SharedWorld Native → ℕ → Mode → Outcome (SharedWorld Native) (Unit {0}) → Type 0
  UnlockSharedEnds v tid (reading (suc n)) (done _ w) = SharedReleased c k tid (reading n) v w
  UnlockSharedEnds v tid (reading (suc n)) _ = ⊥
  UnlockSharedEnds v tid _ r = r ≡ aborted v

  -- On a lock with readers, the thread is one of them; else nothing is asked.
  abbrev pub MayUnlockShared : SharedWorld Native → ℕ → Mode → Type 0
  MayUnlockShared v tid (reading (suc n)) = c.reads tid v.base.mutex.m ≡ true
  MayUnlockShared v tid _ = Unit

  module _ (v : SharedWorld Native) (tid : ℕ) where
    -- After the release by the caller.
    abbrev left : Native → ℕ → Option ℕ → ℕ → SharedWorld Native
    left n count by reads = record {
      base = record {
        tables = with_helds v.base.tables tid (erase_held k (v.base.tables.held_locks tid));
        mutex = record v.base.mutex { id = pos k; m = n; locked_count = count; locked_by = by };
      };
      read_locked_count = reads;
    }

    left-SharedReleased :
        (mode : Mode) (n to : ℕ) (m : Native) (by : Option ℕ)
        → SharedKnown c k mode v
        → c.writer m ≡ none
        → c.readers m ≡ to
        → SharedReleased c k tid (reading to) v (left m 0 by to)
    left-SharedReleased mode n to m by kn o r =
        let back = erase-GivesBack v.base.tables tid k kn.inv in
        record {
          known = record {
            agrees = record { no_writer = o; read = r; uncounted = refl; read_counted = refl };
            inv = back.inv;
            checked = kn.checked;
            registered = refl;
            named = kn.named;
            listed = tt;
          };
          back = back;
        }

    unlock_own :
        (m : Native)
        → SharedKnown c k (writing tid) v
        → p.unlock tid v.base.mutex.m ≡ (0, m)
        → unlock p tid v ≡ done tt (left m 0 (some tid) 0)
    unfolding unlock pre_unlock on_base will_unlock lockdep_will_unlock
    unlock_own m kn e =
        let ag = kn.agrees in
        ground (arith, kn.checked, kn.registered, ag.counted, ag.named, ag.unread)

    unlock_other :
        (u : ℕ)
        → SharedKnown c k (writing u) v
        → (u == tid) ≡ false
        → (w : SharedWorld Native) × (unlock p tid v ≡ aborted w) × (w.base.tables ≡ v.base.tables)
    unfolding unlock pre_unlock
    unlock_other u kn ne =
        let ag = kn.agrees in
        (
          record v { base = record v.base { mutex = record v.base.mutex { locked_count = 0 } } },
          ground (arith, kn.checked, ag.counted, ag.named),
          refl,
        )

    unlock_reading : (n : ℕ) → SharedKnown c k (reading n) v → unlock p tid v ≡ aborted v
    unfolding unlock pre_unlock
    unlock_reading n kn = ground (arith, kn.checked, kn.agrees.uncounted)

    -- With lockdep, unlock() by the writer returns with the lock free and off the thread's list; by
    -- any other thread, and on a lock that no thread writes, it aborts.
    pub unlock-UnlockEnds :
        (mode : Mode) → SharedKnown c k mode v → UnlockEnds v tid mode (unlock p tid v)
    unlock-UnlockEnds (reading n) kn = unlock_reading n kn
    unlock-UnlockEnds (writing u) kn = elim (Bool-cases (u == tid)) [
      | inl same ↦
          let own : SharedKnown c k (writing tid) v = rw ((==_iff u tid).0 same) at kn in
          let (m, e, o, r) = c.unlock_write tid v.base.mutex.m own.agrees.written in
          rw (same, unlock_own m own e) (left-SharedReleased (writing u) 0 0 m (some tid) kn o r)
      | inr other ↦ let (w, e, t) = unlock_other u kn other in rw (other, e) t
    ]

    unlock_shared_run :
        (n : ℕ) (m : Native)
        → SharedKnown c k (reading (suc n)) v
        → p.unlock tid v.base.mutex.m ≡ (0, m)
        → unlock_shared p tid v ≡ done tt (left m 0 v.base.mutex.locked_by n)
    unfolding unlock_shared pre_unlock_shared on_base will_unlock lockdep_will_unlock
    unlock_shared_run n m kn e =
        let ag = kn.agrees in
        ground (arith, kn.checked, kn.registered, ag.uncounted, ag.read_counted)

    unlock_shared_unread :
        v.base.mutex.lockdep ≡ true → v.read_locked_count ≡ 0 → unlock_shared p tid v ≡ aborted v
    unfolding unlock_shared pre_unlock_shared
    unlock_shared_unread on z = ground (arith, on, z)

    -- With lockdep, unlock_shared() by one of the readers of a lock returns with one reader less and the
    -- lock off the thread's list. On a lock with no reader, free or with a writer, it aborts whoever
    -- calls it. What it does for another thread than the readers is not said, since POSIX does not say
    -- what pthread_rwlock_unlock then does.
    pub unlock_shared-Ends :
        (mode : Mode)
        → SharedKnown c k mode v
        → MayUnlockShared v tid mode
        → UnlockSharedEnds v tid mode (unlock_shared p tid v)
    unlock_shared-Ends (reading (suc n)) kn may =
        let ag = kn.agrees in
        let (m, e, o, r) = c.unlock_read tid n v.base.mutex.m ag.no_writer ag.read may in
        rw (unlock_shared_run n m kn e)
          (left-SharedReleased (reading (suc n)) 0 n m v.base.mutex.locked_by kn o r)
    unlock_shared-Ends (reading zero) kn may =
        unlock_shared_unread kn.checked kn.agrees.read_counted
    unlock_shared-Ends (writing u) kn may = unlock_shared_unread kn.checked kn.agrees.unread
