-- ===== src/SharedMutex/Checked.antt =====
-- lock() and lock_shared() of a shared_mutex_debug that uses lockdep.
use blue_thread.Prelude.{
  ℕ, zero, suc, ◌≡◌, ◌≢◌, refl, subst, inl, inr, some, Bool-cases, true, false, aborted,
  bind_outcome, arith,
}
use blue_thread.BackTrace.{BackTrace}
use blue_thread.RwLock.{PthreadRwLock, ReadersWriter}
use blue_thread.Lockdep.State.{Lockdep}
use blue_thread.Lockdep.Invariant.{Holds}
use blue_thread.Lockdep.Invariant.Checking.{Checked}
use blue_thread.Mutex.{will_lock}
use blue_thread.SharedMutex.{SharedWorld, on_base, lock, lock_shared}
use blue_thread.SharedMutex.Views.{Mode, reading, writing, SharedKnown, SharedWaits}
use blue_thread.SharedMutex.Passing.{
  SharedDanger, WriteEnds, ReadEnds, after_check, rest_write, rest_read, checks,
  taken-SharedAcquired, write_run, read_run, write_blocks, read_blocks, read_fails,
  waiting-SharedWaits,
}

module _ {Native : Type 0} (p : PthreadRwLock Native) (c : ReadersWriter p) (k : ℕ) where
  module _ (v : SharedWorld Native) (tid : ℕ) (bt : BackTrace) where
    -- A writer that asks for its own lock does not pass the check.
    not_own :
        (u : ℕ) (t : Lockdep)
        → SharedKnown c k (writing u) v
        → Checked v.base.tables (v.base.tables.held_locks tid) k t
        → u ≢ tid
    not_own u t kn ch e =
        ch.safe k (subst (λ (x : ℕ). Holds (v.base.tables.held_locks x) k) e kn.listed) (inl refl)

    still_writing :
        (u : ℕ) (t : Lockdep)
        → (kn : SharedKnown c k (writing u) v)
        → Checked v.base.tables (v.base.tables.held_locks tid) k t
        → SharedWaits c k tid (writing u) v (after_check p c k v tid bt (writing u) kn t)
    still_writing u t kn ch =
        let ne = not_own u t kn ch in
        let ag = kn.agrees in
        waiting-SharedWaits p c k v tid bt (writing u) kn t ch (λ e. ground arith)
          (record {
            written = ag.written;
            counted = ag.counted;
            named = ag.named;
            unread = ag.unread;
          })
          (rw ch.helds kn.listed)

    still_reading :
        (n : ℕ) (t : Lockdep)
        → (kn : SharedKnown c k (reading n) v)
        → Checked v.base.tables (v.base.tables.held_locks tid) k t
        → SharedWaits c k tid (reading n) v (after_check p c k v tid bt (reading n) kn t)
    still_reading n t kn ch =
        let ag = kn.agrees in
        waiting-SharedWaits p c k v tid bt (reading n) kn t ch (λ e. cc)
          (record {
            no_writer = ag.no_writer;
            read = ag.read;
            uncounted = ag.uncounted;
            read_counted = ag.read_counted;
          })
          tt

    write-Ends :
        (mode : Mode) (kn : SharedKnown c k mode v) (t : Lockdep)
        → Checked v.base.tables (v.base.tables.held_locks tid) k t
        → WriteEnds p c k v tid mode
            (rest_write p c k v tid bt mode kn (after_check p c k v tid bt mode kn t))
    write-Ends (reading zero) kn t ch =
        let ag = kn.agrees in
        let (n, e, o, r) = c.wrlock_free tid v.base.mutex.m ag.no_writer ag.read in
        rw (write_run p c k v tid bt (reading zero) kn t n e ag.uncounted) (
          taken-SharedAcquired p c k v tid bt (reading zero) kn t n 1 (some tid) v.read_locked_count
            (writing tid) ch
            (record { written = o; counted = refl; named = refl; unread = ag.read_counted })
            (λ h. h))
    write-Ends (reading (suc n)) kn t ch =
        let ag = kn.agrees in
        let e = c.wrlock_read tid v.base.mutex.m ag.no_writer (λ z. omega (arith, ag.read, z)) in
        rw (write_blocks p c k v tid bt (reading (suc n)) kn t e) (still_reading (suc n) t kn ch)
    write-Ends (writing u) kn t ch =
        let e = c.wrlock_other tid u v.base.mutex.m kn.agrees.written (not_own u t kn ch) in
        rw (write_blocks p c k v tid bt (writing u) kn t e) (still_writing u t kn ch)

    room-Ends :
        (n : ℕ) (kn : SharedKnown c k (reading n) v) (t : Lockdep)
        → Checked v.base.tables (v.base.tables.held_locks tid) k t
        → c.full v.base.mutex.m ≡ false
        → ReadEnds p c k v tid
            (reading n)
            (rest_read p c k v tid bt (reading n) kn (after_check p c k v tid bt (reading n) kn t))
    room-Ends n kn t ch f =
        let ag = kn.agrees in
        elim (c.rdlock_free tid v.base.mutex.m ag.no_writer f) [
          | inl e ↦ rw (read_blocks p c k v tid bt (reading n) kn t e) (still_reading n t kn ch)
          | inr (m, e, o, r, _) ↦ rw (read_run p c k v tid bt (reading n) kn t m e) (
              taken-SharedAcquired p c k v tid bt (reading n) kn t m v.base.mutex.locked_count
                v.base.mutex.locked_by (suc v.read_locked_count) (reading (suc n)) ch
                (record {
                  no_writer = o;
                  read = omega (arith, r, ag.read);
                  uncounted = ag.uncounted;
                  read_counted = omega (arith, ag.read_counted);
                })
                (λ h. tt))
        ]

    full-Ends :
        (n : ℕ) (kn : SharedKnown c k (reading n) v) (t : Lockdep)
        → Checked v.base.tables (v.base.tables.held_locks tid) k t
        → c.full v.base.mutex.m ≡ true
        → ReadEnds p c k v tid
            (reading n)
            (rest_read p c k v tid bt (reading n) kn (after_check p c k v tid bt (reading n) kn t))
    full-Ends n kn t ch f = elim (c.rdlock_full tid v.base.mutex.m kn.agrees.no_writer f) [
      | inl e ↦ rw (read_blocks p c k v tid bt (reading n) kn t e) (still_reading n t kn ch)
      | inr e ↦ rw (read_fails p c k v tid bt (reading n) kn t e) (refl, f, still_reading n t kn ch)
    ]

    read-Ends :
        (mode : Mode) (kn : SharedKnown c k mode v) (t : Lockdep)
        → Checked v.base.tables (v.base.tables.held_locks tid) k t
        → ReadEnds p c k v tid mode
            (rest_read p c k v tid bt mode kn (after_check p c k v tid bt mode kn t))
    read-Ends (reading n) kn t ch = elim (Bool-cases (c.full v.base.mutex.m)) [
      | inl f ↦ full-Ends n kn t ch f
      | inr f ↦ room-Ends n kn t ch f
    ]
    read-Ends (writing u) kn t ch =
        let e = c.rdlock_other tid u v.base.mutex.m kn.agrees.written (not_own u t kn ch) in
        rw (read_blocks p c k v tid bt (writing u) kn t e) (still_writing u t kn ch)

    write_aborts :
        (mode : Mode) (w : SharedWorld Native)
        → SharedDanger p c k v tid
        → WriteEnds p c k v tid mode (aborted w)
    write_aborts (reading zero) w d = d
    write_aborts (reading (suc n)) w d = d
    write_aborts (writing u) w d = d

    read_aborts :
        (mode : Mode) (w : SharedWorld Native)
        → SharedDanger p c k v tid
        → ReadEnds p c k v tid mode (aborted w)
    read_aborts (reading n) w d = d
    read_aborts (writing u) w d = d

    lock-eq :
        (mode : Mode) (kn : SharedKnown c k mode v)
        → lock p tid bt v
          ≡ bind_outcome (on_base (will_lock tid bt) v) (λ _. rest_write p c k v tid bt mode kn)
    unfolding lock
    lock-eq mode kn = simp (kn.checked)

    lock_shared-eq :
        (mode : Mode) (kn : SharedKnown c k mode v)
        → lock_shared p tid bt v
          ≡ bind_outcome (on_base (will_lock tid bt) v) (λ _. rest_read p c k v tid bt mode kn)
    unfolding lock_shared
    lock_shared-eq mode kn = simp (kn.checked)

    -- With lockdep, lock() on a registered lock records an edge from every lock that the caller
    -- holds; then it returns as the only writer if the lock was free, and waits if there is a reader
    -- or another writer. It aborts only if a walk leads from the lock to one that the caller holds, and
    -- always if the caller is the writer.
    pub lock-WriteEnds :
        (mode : Mode) → SharedKnown c k mode v → WriteEnds p c k v tid mode (lock p tid bt v)
    lock-WriteEnds mode kn = rw (lock-eq mode kn) (
        checks p c k v tid bt mode kn (rest_write p c k v tid bt mode kn)
          (WriteEnds p c k v tid mode) (write-Ends mode kn) (write_aborts mode))

    -- With lockdep, lock_shared() on a registered lock records an edge from every lock that the caller
    -- holds; then it returns with one reader more, or waits, as it always does if another thread
    -- writes, or it throws EAGAIN, with the lock as before, and only if there can be no more readers.
    -- It aborts only if a walk leads from the lock to one that the caller holds, and always if
    -- the caller is the writer.
    pub lock_shared-ReadEnds :
        (mode : Mode) → SharedKnown c k mode v → ReadEnds p c k v tid mode (lock_shared p tid bt v)
    lock_shared-ReadEnds mode kn = rw (lock_shared-eq mode kn) (
        checks p c k v tid bt mode kn (rest_read p c k v tid bt mode kn) (ReadEnds p c k v tid mode)
          (read-Ends mode kn) (read_aborts mode))
