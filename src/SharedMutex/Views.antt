-- ===== src/SharedMutex/Views.antt =====
-- What a shared_mutex_debug with lockdep promises: one writer or some readers, as the rwlock, the
-- counts beside it and the tables of lockdep agree to say.
use blue_thread.Prelude.{ℕ, ◌≡◌, ◌≢◌, none, some, true, pos}
use blue_thread.RwLock.{PthreadRwLock, ReadersWriter}
use blue_thread.Lockdep.State.{Lockdep}
use blue_thread.Lockdep.Invariant.{IsNamed, Holds, Inv}
use blue_thread.Lockdep.Invariant.Checking.{Checked}
use blue_thread.Lockdep.Invariant.Locking.Helds.{Takes, GivesBack}
use blue_thread.SharedMutex.{SharedWorld}

-- `reading 0` is the free lock.
pub data Mode : Type 0 where
  reading : ℕ → Mode
  writing : ℕ → Mode

abbrev pub Listed : ℕ → Lockdep → Mode → Type 0
Listed k s (reading n) = Unit
Listed k s (writing t) = Holds (s.held_locks t) k

module _ {Native : Type 0} {p : PthreadRwLock Native} (c : ReadersWriter p) (k : ℕ) where
  pub record IsReading (n : ℕ) (w : SharedWorld Native) : Type 0 where
    pub no_writer : c.writer w.base.mutex.m ≡ none
    pub read : c.readers w.base.mutex.m ≡ n
    pub uncounted : w.base.mutex.locked_count ≡ 0
    pub read_counted : w.read_locked_count ≡ n

  pub record IsWriting (t : ℕ) (w : SharedWorld Native) : Type 0 where
    pub written : c.writer w.base.mutex.m ≡ some t
    pub counted : w.base.mutex.locked_count ≡ 1
    pub named : w.base.mutex.locked_by ≡ some t
    pub unread : w.read_locked_count ≡ 0

  abbrev pub Agrees : Mode → SharedWorld Native → Type 0
  Agrees (reading n) w = IsReading n w
  Agrees (writing t) w = IsWriting t w

  pub record SharedKnown (mode : Mode) (w : SharedWorld Native) : Type 0 where
    pub agrees : Agrees mode w
    pub inv : Inv w.base.tables
    pub checked : w.base.mutex.lockdep ≡ true
    pub registered : w.base.mutex.id ≡ pos k
    pub named : IsNamed w.base.tables k
    pub listed : Listed k w.base.tables mode

  -- The lock is taken, with all edges from the locks that the caller held before.
  pub record SharedAcquired (tid : ℕ) (mode : Mode) (v w : SharedWorld Native) : Type 0 where
    pub known : SharedKnown mode w
    pub between : Lockdep
    pub check : Checked v.base.tables (v.base.tables.held_locks tid) k between
    pub takes : Takes between tid k w.base.tables

  -- The lock is as before, the edges are there, and the caller waits.
  pub record SharedWaits (tid : ℕ) (mode : Mode) (v w : SharedWorld Native) : Type 0 where
    pub other : mode ≢ writing tid
    pub known : SharedKnown mode w
    pub check : Checked v.base.tables (v.base.tables.held_locks tid) k w.base.tables

  -- The lock is given back, and is off the list of the caller.
  pub record SharedReleased (tid : ℕ) (mode : Mode) (v w : SharedWorld Native) : Type 0 where
    pub known : SharedKnown mode w
    pub back : GivesBack v.base.tables tid k w.base.tables
