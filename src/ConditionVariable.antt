-- ===== src/ConditionVariable.antt =====
-- synchronization/condition_variable.h, condition_variable.cc and to_timespec of utils.h. A mutex is
-- named by its address. What happens while a call waits, the steps of the other threads included, is
-- a part of the parameters `wait` and `timedwait`. A time point is a natural number of nanoseconds:
-- none before the epoch, and none so late that a sum with it overflows the clock's type.
pub mod Waiting
mod Tests
use blue_thread.Prelude.{
  ℕ, zero, suc, ◌+◌, ◌-◌, ◌*◌, ◌/◌, Bool, true, false, Option, none, some, ◌==◌, if◌then◌else◌,
  update, M, Outcome, done, threw, aborted, blocked, diverged, ◌>>=◌, ◌>>◌, get, pure, throw,
  assert, modify,
}
use blue_thread.Pthread.{etimedout}
use blue_thread.Lockdep.State.{Lockdep}
use blue_thread.Mutex.{Mutex, World, is_locked, post_lock, pre_unlock}

-- timespec
pub record Timespec : Type 0 where
  pub tv_sec : ℕ
  pub tv_nsec : ℕ

-- The time since the epoch of the clock, in nanoseconds.
unfoldable pub to_timespec : ℕ → Timespec
to_timespec epoch =
    let seconds = epoch / 1000000000 in
    let nanoseconds = epoch - seconds * 1000000000 in
    record { tv_sec = seconds; tv_nsec = nanoseconds }

-- std::cv_status
pub data CvStatus : Type 0 where
  no_timeout : CvStatus
  timeout : CvStatus

pub record CondWorld (Native Cond : Type 0) : Type 0 where
  pub tables : Lockdep
  pub mutexes : ℕ → Mutex Native
  pub waiter_mutex : Option ℕ
  pub cond : Cond

-- pthread_cond_t is `Cond`; the calls are made by the thread of the first argument, with the address
-- of the mutex.
pub record PthreadCond (Native Cond : Type 0) : Type 0 where
  pub init : ℕ × Cond
  pub wait : ℕ → ℕ → CondWorld Native Cond → Option (ℕ × CondWorld Native Cond)
  pub timedwait : ℕ → ℕ → Timespec → CondWorld Native Cond → Option (ℕ × CondWorld Native Cond)
  pub signal : Cond → ℕ × Cond
  pub broadcast : Cond → ℕ × Cond

-- p == nullptr || p == a
unfoldable pub null_or : Option ℕ → ℕ → Bool
null_or none a = true
null_or (some b) a = b == a

module _ {Native Cond : Type 0} where
  -- A call of the mutex at the address.
  unfoldable pub put_mutex :
      {A : Type 0}
      → ℕ
      → CondWorld Native Cond
      → Outcome (World Native) A
      → Outcome (CondWorld Native Cond) A
  put_mutex a w (done x u) =
      done x (record w { tables = u.tables; mutexes = update w.mutexes a u.mutex })
  put_mutex a w (threw e u) =
      threw e (record w { tables = u.tables; mutexes = update w.mutexes a u.mutex })
  put_mutex a w (aborted u) =
      aborted (record w { tables = u.tables; mutexes = update w.mutexes a u.mutex })
  put_mutex a w (blocked u) =
      blocked (record w { tables = u.tables; mutexes = update w.mutexes a u.mutex })
  put_mutex a w diverged = diverged

  unfoldable pub on_mutex : {A : Type 0} → ℕ → M (World Native) A → M (CondWorld Native Cond) A
  unfolding put_mutex
  on_mutex a f w = put_mutex a w (f (record { tables = w.tables; mutex = w.mutexes a }))

  -- What wait() and _wait_until() do first.
  unfoldable pub enter : ℕ → ℕ → M (CondWorld Native Cond) (Unit {0})
  unfolding null_or is_locked on_mutex
  enter tid a = do
    w ← get
    assert (null_or w.waiter_mutex a)
    modify (λ x. record x { waiter_mutex = some a })
    assert (is_locked (w.mutexes a))
    on_mutex a (pre_unlock tid)

  unfoldable pub waiter_locked : CondWorld Native Cond → Option ℕ → Bool
  unfolding is_locked
  waiter_locked w none = true
  waiter_locked w (some a) = is_locked (w.mutexes a)

  -- if (int r = …; r != 0) throw
  unfoldable pub check_result : ℕ → M (CondWorld Native Cond) (Unit {0})
  check_result zero = pure tt
  check_result (suc r) = throw (suc r)

  unfoldable pub status : ℕ → M (CondWorld Native Cond) CvStatus
  status r = if r == 0 then pure no_timeout else if r == etimedout then pure timeout else throw r

  -- A call of pthread_cond_wait or pthread_cond_timedwait returns, or it still waits.
  unfoldable pub resume :
      CondWorld Native Cond → Option (ℕ × CondWorld Native Cond) → Outcome (CondWorld Native Cond) ℕ
  resume w none = blocked w
  resume w (some (r, u)) = done r u

module _ {Native Cond : Type 0} (q : PthreadCond Native Cond) where
  -- The constructor, in a world with the tables and the mutexes.
  unfoldable pub construct :
      Lockdep → (ℕ → Mutex Native) → Outcome (CondWorld Native Cond) (Unit {0})
  unfolding check_result
  construct s ms =
      check_result q.init.0
        (record { tables = s; mutexes = ms; waiter_mutex = none; cond = q.init.1 })

  unfoldable pub wait : ℕ → ℕ → M (CondWorld Native Cond) (Unit {0})
  unfolding enter resume check_result on_mutex
  wait tid a = do
    enter tid a
    r ← λ u. resume u (q.wait tid a u)
    check_result r
    on_mutex a (post_lock tid)

  -- while (!pred()) wait(lock), at most `fuel` times
  unfoldable pub wait_pred :
      ℕ → ℕ → ℕ → (CondWorld Native Cond → Bool) → M (CondWorld Native Cond) (Unit {0})
  wait_pred zero tid a pred w = diverged
  wait_pred (suc fuel) tid a pred w = elim (pred w) [
    | true ↦ done tt w
    | false ↦ (wait tid a >>= λ _. wait_pred fuel tid a pred) w
  ]

  -- _wait_until, and wait_until, which only calls it
  unfoldable pub wait_until : ℕ → ℕ → ℕ → M (CondWorld Native Cond) CvStatus
  unfolding enter resume status on_mutex to_timespec
  wait_until tid a abs_time = do
    enter tid a
    r ← λ u. resume u (q.timedwait tid a (to_timespec abs_time) u)
    on_mutex a (post_lock tid)
    status r

  -- The clock shows `now` at the call.
  unfoldable pub wait_for : ℕ → ℕ → ℕ → ℕ → M (CondWorld Native Cond) CvStatus
  wait_for now tid a awhile = wait_until tid a (now + awhile)

  -- The loop of wait_for with a predicate, at most `fuel` times.
  unfoldable pub wait_pred_until :
      ℕ → ℕ → ℕ → ℕ → (CondWorld Native Cond → Bool) → M (CondWorld Native Cond) Bool
  wait_pred_until zero tid a when pred w = diverged
  wait_pred_until (suc fuel) tid a when pred w = elim (pred w) [
    | true ↦ done true w
    | false ↦
        (wait_until tid a when >>= λ s. elim s [
          | timeout ↦ λ u. done (pred u) u
          | no_timeout ↦ wait_pred_until fuel tid a when pred
        ])
          w
  ]

  unfoldable pub wait_for_pred :
      ℕ → ℕ → ℕ → ℕ → ℕ → (CondWorld Native Cond → Bool) → M (CondWorld Native Cond) Bool
  unfolding wait_pred_until
  wait_for_pred fuel now tid a awhile pred = wait_pred_until fuel tid a (now + awhile) pred

  unfoldable pub notify_one : M (CondWorld Native Cond) (Unit {0})
  unfolding waiter_locked check_result
  notify_one = do
    w ← get
    assert (waiter_locked w w.waiter_mutex)
    modify (λ x. record x { cond = (q.signal w.cond).1 })
    check_result (q.signal w.cond).0

  unfoldable pub notify_all : M (CondWorld Native Cond) (Unit {0})
  unfolding waiter_locked check_result
  notify_all = do
    w ← get
    assert (waiter_locked w w.waiter_mutex)
    modify (λ x. record x { cond = (q.broadcast w.cond).1 })
    check_result (q.broadcast w.cond).0
