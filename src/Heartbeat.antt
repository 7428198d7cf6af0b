-- ===== src/Heartbeat.antt =====
-- thread/heartbeat.h and thread/heartbeat.cc: heartbeat_handle and HeartbeatMap. A handle is named by
-- its address; a call is made by the thread `tid`, and `now` is what the clock shows at the call.
pub mod Time
pub mod Items
pub mod Deadlines
pub mod Workers
pub mod Counting
mod Tests
use blue_thread.Prelude.{
  ℕ, suc, ◌+◌, ◌%◌, ◌^◌, Bool, true, false, not, ◌&&◌, List, [], ◌∷◌, Option, none, some, String,
  ltb, is_empty, erase, ◌==◌, if◌then◌else◌, update, M, Outcome, done, threw, aborted, blocked,
  diverged, ◌>>=◌, ◌>>◌, get, pure, abort, assert, modify, bind_outcome,
}
use blue_thread.BackTrace.{BackTrace}
use blue_thread.RwLock.{PthreadRwLock}
use blue_thread.Lockdep.State.{Lockdep}
use blue_thread.SharedMutex
use blue_thread.SharedMutex.{SharedWorld}
use blue_thread.Heartbeat.Time.{time_min, signed_less, add64}

-- Time points and durations are the 64 bits of their count of nanoseconds.
pub record Handle : Type 0 where
  pub name : String
  pub thread_id : ℕ
  pub timeout : ℕ
  pub suicide_timeout : ℕ
  pub grace : ℕ
  pub suicide_grace : ℕ
  -- The node it stands in; none for an iterator that names no node.
  pub list_item : Option ℕ

pub record HeartbeatMap (Native : Type 0) : Type 0 where
  pub rwlock : SharedWorld Native
  pub handles : ℕ → Option Handle
  pub next_address : ℕ  -- where the next `new` puts its handle
  -- The std::list of handles: what its nodes hold, and which nodes they are, in the same order.
  pub workers : List ℕ
  pub nodes : List ℕ
  pub next_node : ℕ  -- the node that the list makes next
  pub unhealthy_workers : ℕ
  pub total_workers : ℕ

-- heartbeat_handle(name)
unfoldable pub new_handle : String → Handle
new_handle name = record {
  name = name;
  thread_id = 0;
  timeout = time_min;
  suicide_timeout = time_min;
  grace = 0;
  suicide_grace = 0;
  list_item = none;
}

-- was != time::min() && was < now
unfoldable pub is_past : ℕ → ℕ → Bool
unfolding signed_less
is_past was now = not (was == time_min) && signed_less was now

-- What reset_timeout() stores.
unfoldable pub with_timeouts : ℕ → ℕ → ℕ → Handle → Handle
unfolding add64
with_timeouts now grace suicide_grace h = record h {
  timeout = add64 now grace;
  grace = grace;
  suicide_timeout = if ltb 0 suicide_grace then add64 now suicide_grace else time_min;
  suicide_grace = suicide_grace;
}

-- m_workers.begin()
unfoldable pub front_item : List ℕ → Option ℕ
front_item [] = none
front_item (n ∷ ns) = some n

-- The nodes and what they hold, without the node `n`.
unfoldable pub erase_at : ℕ → List ℕ → List ℕ → List ℕ × List ℕ
erase_at n (m ∷ ns) (a ∷ bs) =
    let rest = erase_at n ns bs in if m == n then (ns, bs) else (m ∷ rest.0, a ∷ rest.1)
erase_at n ns bs = (ns, bs)

module _ {Native : Type 0} where
  -- _check: pthread_kill with SIGABRT, or ABORT one second later, ends the process.
  unfoldable pub check : Handle → ℕ → M (HeartbeatMap Native) Bool
  unfolding is_past
  check h now s =
      if is_past h.suicide_timeout now then aborted s else done (not (is_past h.timeout now)) s

  unfoldable pub put_rwlock :
      HeartbeatMap Native
      → Outcome (SharedWorld Native) (Unit {0})
      → Outcome (HeartbeatMap Native) (Unit {0})
  put_rwlock s (done _ w) = done tt (record s { rwlock = w })
  put_rwlock s (threw e w) = threw e (record s { rwlock = w })
  put_rwlock s (aborted w) = aborted (record s { rwlock = w })
  put_rwlock s (blocked w) = blocked (record s { rwlock = w })
  put_rwlock s diverged = diverged

  -- A call of m_rwlock.
  unfoldable pub on_rwlock : M (SharedWorld Native) (Unit {0}) → M (HeartbeatMap Native) (Unit {0})
  unfolding put_rwlock
  on_rwlock f s = put_rwlock s (f s.rwlock)

  -- An exception that leaves a destructor ends the process.
  unfoldable pub no_throw :
      Outcome (HeartbeatMap Native) (Unit {0}) → Outcome (HeartbeatMap Native) (Unit {0})
  no_throw (threw e s) = aborted s
  no_throw (done x s) = done x s
  no_throw (aborted s) = aborted s
  no_throw (blocked s) = blocked s
  no_throw diverged = diverged

  -- A read through a pointer; one that names no handle faults.
  unfoldable pub read_handle :
      HeartbeatMap Native → Option Handle → Outcome (HeartbeatMap Native) Handle
  read_handle s none = aborted s
  read_handle s (some h) = done h s

  unfoldable pub find_handle : ℕ → M (HeartbeatMap Native) Handle
  unfolding read_handle
  find_handle a s = read_handle s (s.handles a)

  unfoldable pub put_handle : ℕ → Handle → M (HeartbeatMap Native) (Unit {0})
  put_handle a h = modify (λ s. record s { handles = update s.handles a (some h) })

  unfoldable pub reset_timeout : ℕ → ℕ → ℕ → ℕ → M (HeartbeatMap Native) (Unit {0})
  unfolding find_handle check with_timeouts put_handle
  reset_timeout now a grace suicide_grace = do
    h ← find_handle a
    healthy ← check h now
    put_handle a (with_timeouts now grace suicide_grace h)

  unfoldable pub clear_timeout : ℕ → ℕ → M (HeartbeatMap Native) (Unit {0})
  unfolding find_handle check put_handle
  clear_timeout now a = do
    h ← find_handle a
    healthy ← check h now
    put_handle a (record h { timeout = time_min; suicide_timeout = time_min })

  -- The loop of is_healthy(): `healthy`, `unhealthy` and `total`.
  unfoldable pub check_all : List ℕ → ℕ → Bool → ℕ → ℕ → M (HeartbeatMap Native) (Bool × ℕ × ℕ)
  unfolding find_handle check
  check_all [] now healthy unhealthy total = pure (healthy, unhealthy, total)
  check_all (a ∷ rest) now healthy unhealthy total = do
    h ← find_handle a
    ok ← check h now
    check_all rest now (healthy && ok) (if ok then unhealthy else unhealthy + 1) (total + 1)

  unfoldable pub get_unhealthy_workers : HeartbeatMap Native → ℕ
  get_unhealthy_workers s = s.unhealthy_workers

  unfoldable pub get_total_workers : HeartbeatMap Native → ℕ
  get_total_workers s = s.total_workers

  -- The members of a new map around its lock.
  unfoldable pub empty_map : SharedWorld Native → HeartbeatMap Native
  empty_map w = record {
    rwlock = w;
    handles = λ a. none;
    next_address = 0;
    workers = [];
    nodes = [];
    next_node = 0;
    unhealthy_workers = 0;
    total_workers = 0;
  }

  unfoldable pub put_map :
      Outcome (SharedWorld Native) (Unit {0}) → Outcome (HeartbeatMap Native) (Unit {0})
  unfolding empty_map
  put_map (done _ w) = done tt (empty_map w)
  put_map (threw e w) = threw e (empty_map w)
  put_map (aborted w) = aborted (empty_map w)
  put_map (blocked w) = blocked (empty_map w)
  put_map diverged = diverged

  -- ~HeartbeatMap(), and then that of m_rwlock
  unfoldable pub destruct : M (HeartbeatMap Native) (Unit {0})
  unfolding on_rwlock
  destruct = do s ← get; assert (is_empty s.workers); on_rwlock SharedMutex.destruct

  -- m_workers.push_front(h)
  unfoldable pub push_front : ℕ → HeartbeatMap Native → HeartbeatMap Native
  push_front a s = record s {
    workers = a ∷ s.workers;
    nodes = s.next_node ∷ s.nodes;
    next_node = s.next_node + 1;
  }

  -- The body of add_worker() under the lock.
  unfoldable pub push_worker : String → ℕ → M (HeartbeatMap Native) ℕ
  unfolding new_handle push_front front_item
  push_worker name thread_id s =
      let t = push_front s.next_address s in
      done s.next_address (record t {
        handles = update s.handles s.next_address (
            some
              (record (new_handle name) { list_item = front_item t.nodes; thread_id = thread_id }));
        next_address = s.next_address + 1;
      })

  -- m_workers.erase(h->list_item)
  unfoldable pub erase_item : Option ℕ → M (HeartbeatMap Native) (Unit {0})
  unfolding erase_at
  erase_item none s = aborted s
  erase_item (some n) s =
      let r = erase_at n s.nodes s.workers in done tt (record s { nodes = r.0; workers = r.1 })

  -- The body of remove_worker() under the lock.
  unfoldable pub drop_worker : ℕ → M (HeartbeatMap Native) (Unit {0})
  unfolding find_handle erase_item
  drop_worker a = do
    h ← find_handle a
    erase_item h.list_item
    modify (λ s. record s { handles = update s.handles a none })

module _ {Native : Type 0} (p : PthreadRwLock Native) where
  unfoldable pub construct : String → Lockdep → Outcome (HeartbeatMap Native) (Unit {0})
  unfolding put_map
  construct name s = put_map (SharedMutex.construct p name false false s)

  -- The scope of a std::unique_lock on m_rwlock.
  unfoldable pub locked :
      {A : Type 0} → ℕ → BackTrace → M (HeartbeatMap Native) A → M (HeartbeatMap Native) A
  unfolding on_rwlock no_throw
  locked tid bt body = do
    on_rwlock (SharedMutex.lock p tid bt)
    x ← body
    λ s. no_throw (on_rwlock (SharedMutex.unlock p tid) s)
    pure x

  unfoldable pub add_worker : ℕ → BackTrace → String → ℕ → M (HeartbeatMap Native) ℕ
  unfolding locked push_worker
  add_worker tid bt name thread_id = locked tid bt (push_worker name thread_id)

  unfoldable pub remove_worker : ℕ → BackTrace → ℕ → M (HeartbeatMap Native) (Unit {0})
  unfolding locked drop_worker
  remove_worker tid bt a = locked tid bt (drop_worker a)

  unfoldable pub is_healthy : ℕ → BackTrace → ℕ → M (HeartbeatMap Native) Bool
  unfolding on_rwlock check_all
  is_healthy tid bt now = do
    on_rwlock (SharedMutex.lock_shared p tid bt)
    s ← get
    r ← check_all s.workers now true 0 0
    on_rwlock (SharedMutex.unlock_shared p tid)
    modify (λ t. record t { unhealthy_workers = r.1; total_workers = r.2 })
    pure r.0
