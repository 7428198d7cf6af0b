-- ===== src/SharedMutex/Passing.antt =====
-- A call of a shared_mutex_debug with lockdep: the check, and the runs after it.
use blue_thread.Prelude.{
  ℕ, zero, suc, ◌≡◌, ◌≢◌, refl, ap, inl, Option, none, some, true, ℤ, pos, Outcome, done, threw,
  blocked, aborted, diverged, bind_outcome, M, ◌>>◌, when, arith,
}
use blue_thread.BackTrace.{BackTrace}
use blue_thread.Pthread.{eagain}
use blue_thread.RwLock.{PthreadRwLock, ReadersWriter}
use blue_thread.Lockdep.State.{Lockdep}
use blue_thread.Lockdep.Ids.{known_id}
use blue_thread.Lockdep.Calls.{lockdep_will_lock, hold, lockdep_locked}
use blue_thread.Lockdep.Invariant.{IsNamed, Holds}
use blue_thread.Lockdep.Invariant.Checking.{Checked, Danger}
use blue_thread.Lockdep.Invariant.Locking.{lockdep_will_lock-Ends}
use blue_thread.Lockdep.Invariant.Locking.Helds.{hold-Takes}
use blue_thread.Mutex.{store_id, will_lock, locked}
use blue_thread.Mutex.Checked.{WillEnds, will_at}
use blue_thread.SharedMutex.{
  SharedWorld, put_base, on_base, post_lock, post_lock_shared, wrlock, rdlock,
}
use blue_thread.SharedMutex.Views.{
  Mode, reading, writing, Listed, Agrees, SharedKnown, SharedAcquired, SharedWaits,
}

module _ {Native : Type 0} (p : PthreadRwLock Native) (c : ReadersWriter p) (k : ℕ) where
  abbrev pub SharedDanger : SharedWorld Native → ℕ → Type 0
  SharedDanger v tid = Danger v.base.tables (v.base.tables.held_locks tid) k

  abbrev pub WriteEnds :
      SharedWorld Native → ℕ → Mode → Outcome (SharedWorld Native) (Unit {0}) → Type 0
  WriteEnds v tid (reading zero) (done _ w) = SharedAcquired c k tid (writing tid) v w
  WriteEnds v tid (reading (suc n)) (blocked w) = SharedWaits c k tid (reading (suc n)) v w
  WriteEnds v tid (writing u) (blocked w) = SharedWaits c k tid (writing u) v w
  WriteEnds v tid mode (aborted w) = SharedDanger v tid
  WriteEnds v tid _ _ = ⊥

  abbrev pub ReadEnds :
      SharedWorld Native → ℕ → Mode → Outcome (SharedWorld Native) (Unit {0}) → Type 0
  ReadEnds v tid (reading n) (done _ w) = SharedAcquired c k tid (reading (suc n)) v w
  ReadEnds v tid (reading n) (threw e w) =
      (e ≡ eagain) × (c.full v.base.mutex.m ≡ true) × SharedWaits c k tid (reading n) v w
  ReadEnds v tid mode (blocked w) = SharedWaits c k tid mode v w
  ReadEnds v tid mode (aborted w) = SharedDanger v tid
  ReadEnds v tid _ _ = ⊥

  module _ (v : SharedWorld Native) (tid : ℕ) (bt : BackTrace) (mode : Mode)
      (kn : SharedKnown c k mode v) where
    -- After the check, in the tables `t`.
    abbrev pub after_check : Lockdep → SharedWorld Native
    after_check t = record v {
      base = record { tables = t; mutex = record v.base.mutex { id = pos k } };
    }

    abbrev pub taken : Lockdep → Native → ℕ → Option ℕ → ℕ → SharedWorld Native
    taken t n count by reads = record {
      base = record {
        tables = hold tid k bt t;
        mutex = record v.base.mutex { id = pos k; m = n; locked_count = count; locked_by = by };
      };
      read_locked_count = reads;
    }

    after_will :
        (f : M (SharedWorld Native) (Unit {0}))
        → (E : Outcome (SharedWorld Native) (Unit {0}) → Type 0)
        → ((t : Lockdep)
            → Checked v.base.tables (v.base.tables.held_locks tid) k t
            → E (f (after_check t)))
        → ((w : SharedWorld Native) → SharedDanger v tid → E (aborted w))
        → (r : Outcome Lockdep ℤ) → WillEnds v.base.tables k tid r
        → E (bind_outcome (put_base v.read_locked_count (store_id v.base r)) (λ _. f))
    unfolding put_base store_id
    after_will f E go stop (done z t) (e, ch) = rw e (go t ch)
    after_will f E go stop (aborted t) d = stop _ d
    after_will f E go stop (threw e t) d = absurd d
    after_will f E go stop (blocked t) d = absurd d
    after_will f E go stop diverged d = absurd d

    will_lock-eq :
        on_base (will_lock tid bt) v
        ≡ put_base v.read_locked_count (
            store_id v.base (lockdep_will_lock v.base.mutex.lock_name (pos k) tid bt v.base.tables))
    unfolding on_base will_lock
    will_lock-eq = simp (kn.registered)

    pub checks :
        (f : M (SharedWorld Native) (Unit {0}))
        → (E : Outcome (SharedWorld Native) (Unit {0}) → Type 0)
        → ((t : Lockdep)
            → Checked v.base.tables (v.base.tables.held_locks tid) k t
            → E (f (after_check t)))
        → ((w : SharedWorld Native) → SharedDanger v tid → E (aborted w))
        → E (bind_outcome (on_base (will_lock tid bt) v) (λ _. f))
    checks f E go stop =
        let named : IsNamed v.base.tables k = kn.named in
        rw will_lock-eq (
          after_will f E go stop _ (
            will_at v.base.tables v.base.mutex.lock_name k tid _ (
              lockdep_will_lock-Ends v.base.tables v.base.mutex.lock_name (pos k) tid bt kn.inv
                named)))

    pub taken-SharedAcquired :
        (t : Lockdep) (n : Native) (count : ℕ) (by : Option ℕ) (reads : ℕ) (to : Mode)
        → Checked v.base.tables (v.base.tables.held_locks tid) k t
        → Agrees c k to (taken t n count by reads)
        → ((Holds ((hold tid k bt t).held_locks tid) k) → Listed k (hold tid k bt t) to)
        → SharedAcquired c k tid to v (taken t n count by reads)
    taken-SharedAcquired t n count by reads to ch ag listed =
        let named : IsNamed t k = rw ch.ids kn.named in
        let takes = hold-Takes t tid k bt ch.inv named in
        record {
          known = record {
            agrees = ag;
            inv = takes.inv;
            checked = kn.checked;
            registered = refl;
            named = rw (ap (λ (x : Lockdep). x.id_to_name_map) takes.rest) named;
            listed = listed ((takes.exactly k).1 (inl refl));
          };
          between = t;
          check = ch;
          takes = takes;
        }

    abbrev pub rest_write : M (SharedWorld Native) (Unit {0})
    rest_write = do wrlock p tid; when v.base.mutex.lockdep (on_base (locked tid bt)); post_lock tid

    abbrev pub rest_read : M (SharedWorld Native) (Unit {0})
    rest_read = do
      rdlock p tid
      when v.base.mutex.lockdep (on_base (locked tid bt))
      post_lock_shared

    pub write_run :
        (t : Lockdep) (n : Native)
        → p.wrlock tid v.base.mutex.m ≡ some (0, n)
        → v.base.mutex.locked_count ≡ 0
        → rest_write (after_check t) ≡ done tt (taken t n 1 (some tid) v.read_locked_count)
    unfolding wrlock on_base locked post_lock lockdep_locked known_id
    write_run t n e z = ground (arith, kn.checked)

    pub read_run :
        (t : Lockdep) (n : Native)
        → p.rdlock tid v.base.mutex.m ≡ some (0, n)
        → rest_read (after_check t)
          ≡ done tt
              (taken t n v.base.mutex.locked_count v.base.mutex.locked_by (suc v.read_locked_count))
    unfolding rdlock on_base locked post_lock_shared lockdep_locked known_id
    read_run t n e = ground (arith, kn.checked)

    pub write_blocks :
        (t : Lockdep)
        → p.wrlock tid v.base.mutex.m ≡ none
        → rest_write (after_check t) ≡ blocked (after_check t)
    unfolding wrlock
    write_blocks t e = rw e refl

    pub read_blocks :
        (t : Lockdep)
        → p.rdlock tid v.base.mutex.m ≡ none
        → rest_read (after_check t) ≡ blocked (after_check t)
    unfolding rdlock
    read_blocks t e = rw e refl

    pub read_fails :
        (t : Lockdep)
        → p.rdlock tid v.base.mutex.m ≡ some (eagain, v.base.mutex.m)
        → rest_read (after_check t) ≡ threw eagain (after_check t)
    unfolding rdlock
    read_fails t e = rw e refl

    pub waiting-SharedWaits :
        (t : Lockdep)
        → Checked v.base.tables (v.base.tables.held_locks tid) k t
        → mode ≢ writing tid
        → Agrees c k mode (after_check t)
        → Listed k t mode
        → SharedWaits c k tid mode v (after_check t)
    waiting-SharedWaits t ch ne ag listed = record {
      other = ne;
      known = record {
        agrees = ag;
        inv = ch.inv;
        checked = kn.checked;
        registered = refl;
        named = rw ch.ids kn.named;
        listed = listed;
      };
      check = ch;
    }
