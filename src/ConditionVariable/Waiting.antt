-- ===== src/ConditionVariable/Waiting.antt =====
-- One wait: the mutex of the caller before, during and after it.
use blue_thread.Prelude.{
  ℕ, ◌+◌, ◌*◌, ◌<◌, ◌≡◌, ◌≢◌, refl, inl, inr, Option, none, some, true, false, Outcome, done, threw,
  blocked, aborted, ◌==◌, arith, Bool-cases, update, bind_outcome, ◌>>◌,
}
use blue_thread.Pthread.{PthreadMutex, ErrorCheck, etimedout}
use blue_thread.Mutex.{World, is_locked, post_lock, pre_unlock, unlock}
use blue_thread.Mutex.Holder.{HeldBy}
use blue_thread.ConditionVariable.{
  Timespec, to_timespec, CvStatus, no_timeout, timeout, CondWorld, PthreadCond, null_or, on_mutex,
  enter, status, resume, wait_until, notify_one, notify_all,
}

-- to_timespec splits the time into whole seconds and a rest below one second.
pub to_timespec-splits :
    (t : ℕ)
    → ((to_timespec t).tv_sec * 1000000000 + (to_timespec t).tv_nsec ≡ t)
      × ((to_timespec t).tv_nsec < 1000000000)
unfolding to_timespec
to_timespec-splits t = omega arith

-- The status says which result pthread_cond_timedwait had.
abbrev Reports : CvStatus → ℕ → Type 0
Reports no_timeout r = r ≡ 0
Reports timeout r = r ≡ etimedout

module _ {Native Cond : Type 0} {p : PthreadMutex Native} (c : ErrorCheck p) where
  -- A call may wait with the mutex: it holds it, and the condition is used with no other one.
  pub record MayWait (tid a : ℕ) (w : CondWorld Native Cond) : Type 0 where
    pub alone : null_or w.waiter_mutex a ≡ true
    pub held : HeldBy c tid (w.mutexes a)

  -- While the call waits, the fields of the mutex say that it is free.
  pub record IsReady (tid a : ℕ) (w : CondWorld Native Cond) : Type 0 where
    pub used : w.waiter_mutex ≡ some a
    pub owned : c.owner (w.mutexes a).m ≡ some tid
    pub uncounted : (w.mutexes a).locked_count ≡ 0

  -- The documented behaviour of a wait: when it returns, whatever its result is, the thread owns the
  -- mutex again. The threads that had it meanwhile have left its fields as a free mutex has them.
  abbrev pub Reacquires :
      (ℕ → ℕ → CondWorld Native Cond → Option (ℕ × CondWorld Native Cond)) → Type 0
  Reacquires f =
      (tid a r : ℕ) (w u : CondWorld Native Cond)
      → IsReady tid a w
      → f tid a w ≡ some (r, u)
      → IsReady tid a u

  -- The world in which the caller waits.
  abbrev pub entered : ℕ → ℕ → CondWorld Native Cond → CondWorld Native Cond
  entered tid a w = record w {
    waiter_mutex = some a;
    mutexes = update w.mutexes a (record (w.mutexes a) { locked_by = some tid; locked_count = 0 });
  }

  -- The world after _post_lock().
  abbrev pub counted : ℕ → ℕ → CondWorld Native Cond → CondWorld Native Cond
  counted tid a w = record w {
    mutexes = update w.mutexes a (record (w.mutexes a) { locked_by = some tid; locked_count = 1 });
  }

  enter-eq :
      (tid a : ℕ) (w : CondWorld Native Cond)
      → MayWait tid a w
      → enter tid a w ≡ done tt (entered tid a w)
  unfolding enter on_mutex pre_unlock is_locked
  enter-eq tid a w h = ground (arith, h.alone, h.held.counted)

  entered-IsReady :
      (tid a : ℕ) (w : CondWorld Native Cond) → MayWait tid a w → IsReady tid a (entered tid a w)
  entered-IsReady tid a w h = record {
    used = refl;
    owned = ground (arith, h.held.owned);
    uncounted = ground arith;
  }

  post_lock-eq :
      (tid a : ℕ) (u : CondWorld Native Cond)
      → IsReady tid a u
      → on_mutex a (post_lock tid) u ≡ done tt (counted tid a u)
  unfolding on_mutex post_lock
  post_lock-eq tid a u h = ground (arith, h.uncounted)

  counted-MayWait :
      (tid a : ℕ) (u : CondWorld Native Cond) → IsReady tid a u → MayWait tid a (counted tid a u)
  unfolding null_or
  counted-MayWait tid a u h = record {
    alone = ground (arith, h.used);
    held = record { owned = ground (arith, h.owned); counted = ground arith; named = ground arith };
  }

  abbrev at_address : ℕ → CondWorld Native Cond → World Native
  at_address a u = record { tables = u.tables; mutex = u.mutexes a }

  abbrev pub WaitEnds : ℕ → ℕ → Outcome (CondWorld Native Cond) (Unit {0}) → Type 0
  WaitEnds tid a (done _ u) = MayWait tid a u
  WaitEnds tid a (blocked u) = IsReady tid a u
  WaitEnds tid a (threw r u) =
      (c.owner (u.mutexes a).m ≡ some tid)
      × (r ≢ 0)
      × (unlock p tid (at_address a u) ≡ aborted (at_address a u))
  WaitEnds tid a _ = ⊥

  -- What wait_until() gives, by what pthread_cond_timedwait gave.
  abbrev pub UntilEnds :
      ℕ → ℕ → Option (ℕ × CondWorld Native Cond) → Outcome (CondWorld Native Cond) CvStatus → Type 0
  UntilEnds tid a (some (r, v)) (done s u) = MayWait tid a u × Reports s r
  UntilEnds tid a (some (r, v)) (threw e u) = MayWait tid a u × (e ≡ r) × (r ≢ 0) × (r ≢ etimedout)
  UntilEnds tid a none (blocked u) = IsReady tid a u
  UntilEnds tid a _ _ = ⊥

  status-Ends :
      (tid a r : ℕ) (v u : CondWorld Native Cond)
      → MayWait tid a u
      → UntilEnds tid a (some (r, v)) (status r u)
  unfolding status
  status-Ends tid a r v u h = elim (Bool-cases (r == 0)) [
    | inl e ↦ rw e (h, ground arith)
    | inr e ↦ elim (Bool-cases (r == etimedout)) [
      | inl f ↦ rw (e, f) (h, ground arith)
      | inr f ↦ rw (e, f) (h, refl, ground arith, ground arith)
    ]
  ]

  module _ (q : PthreadCond Native Cond) where
    after_timedwait-Ends :
        (tid a : ℕ) (w : CondWorld Native Cond)
        → IsReady tid a w
        → (o : Option (ℕ × CondWorld Native Cond))
        → ((r : ℕ) (u : CondWorld Native Cond) → o ≡ some (r, u) → IsReady tid a u)
        → UntilEnds tid a o
            (bind_outcome (resume w o) (λ r. on_mutex a (post_lock tid) >> status r))
    unfolding resume
    after_timedwait-Ends tid a w h none back = h
    after_timedwait-Ends tid a w h (some (r, u)) back =
        let ready = back r u refl in
        rw (post_lock-eq tid a u ready) (status-Ends tid a r u _ (counted-MayWait tid a u ready))

    -- wait_until() with a mutex that the caller holds, and with no other mutex used at this condition
    -- variable: when pthread_cond_timedwait at this time returns 0 it returns no_timeout, when that
    -- returns ETIMEDOUT it returns timeout, and any other result it throws, each time with the caller
    -- holding the mutex. It still waits if that does, with the mutex counted as free.
    pub wait_until-UntilEnds :
        ((ts : Timespec) → Reacquires (λ tid a w. q.timedwait tid a ts w))
        → (tid a abs_time : ℕ) (w : CondWorld Native Cond) → MayWait tid a w
        → UntilEnds tid a
            (q.timedwait tid a (to_timespec abs_time) (entered tid a w))
            (wait_until q tid a abs_time w)
    unfolding wait_until
    wait_until-UntilEnds law tid a abs_time w h =
        let ready = entered-IsReady tid a w h in
        let ts = to_timespec abs_time in
        rw (enter-eq tid a w h) (
          after_timedwait-Ends tid a (entered tid a w) ready
            (q.timedwait tid a ts (entered tid a w))
            (λ r u e. law ts tid a r (entered tid a w) u ready e))

    -- The condition variable has a waiting mutex that nobody has locked.
    abbrev pub IsRefused : CondWorld Native Cond → Type 0
    IsRefused w = (a : ℕ) × (w.waiter_mutex ≡ some a) × (is_locked (w.mutexes a) ≡ false)

    -- If the mutex of the waiters is not locked, notify_one() and notify_all() abort before they signal.
    pub notify_refused :
        (w : CondWorld Native Cond)
        → IsRefused w
        → (notify_one q w ≡ aborted w) × (notify_all q w ≡ aborted w)
    unfolding notify_one notify_all
    notify_refused w (a, e, l) = (rw (e, l) refl, rw (e, l) refl)
