-- ===== src/ConditionVariable/Tests.antt =====
-- A condition variable at which the caller of wait() is woken at once, and the theorems at it.
use blue_thread.Prelude.{ℕ, suc, refl, Option, some, arith}
use blue_thread.Lockdep.State.{init}
use blue_thread.Pthread.{etimedout}
use blue_thread.Mutex.{Mutex}
use blue_thread.Mutex.Example.{native-ErrorCheck, held_world, held_world-HeldBy}
use blue_thread.ConditionVariable.{
  Timespec, to_timespec, CondWorld, PthreadCond, null_or, wait, wait_until,
}
use blue_thread.ConditionVariable.Waiting
use blue_thread.ConditionVariable.Waiting.{MayWait, Reacquires}

-- A wait ends with the result 0 at a time before `5` and with ETIMEDOUT after it.
native_wait : ℕ → ℕ → CondWorld (Option ℕ) ℕ → Option (ℕ × CondWorld (Option ℕ) ℕ)
native_wait tid a w = some (0, record w { cond = suc w.cond })

native_timedwait : ℕ → ℕ → Timespec → CondWorld (Option ℕ) ℕ → Option (ℕ × CondWorld (Option ℕ) ℕ)
native_timedwait tid a ts w = some (etimedout, w)

abbrev waking : PthreadCond (Option ℕ) ℕ
waking = record {
  init = (0, 0);
  wait = native_wait;
  timedwait = native_timedwait;
  signal = λ n. (0, n);
  broadcast = λ n. (0, n);
}

native_timedwait-Reacquires :
    (ts : Timespec) → Reacquires native-ErrorCheck (λ tid a w. native_timedwait tid a ts w)
unfolding native_timedwait
native_timedwait-Reacquires ts tid a r w u h e = record {
  used = ground (arith, h.used);
  owned = ground (arith, h.owned);
  uncounted = ground (arith, h.uncounted);
}

abbrev cond_world : Mutex (Option ℕ) → ℕ → CondWorld (Option ℕ) ℕ
cond_world m n = record { tables = init; mutexes = λ a. m; waiter_mutex = some 7; cond = n }

abbrev held_cond : CondWorld (Option ℕ) ℕ
held_cond = cond_world held_world.mutex 0

held_cond-MayWait : MayWait native-ErrorCheck 1 7 held_cond
unfolding null_or
held_cond-MayWait = record { alone = refl; held = held_world-HeldBy }

wait_until-UntilEnds_example :
    Waiting.UntilEnds native-ErrorCheck 1 7
      (native_timedwait 1 7 (to_timespec 5) (Waiting.entered native-ErrorCheck 1 7 held_cond))
      (wait_until waking 1 7 5 held_cond)
wait_until-UntilEnds_example =
    Waiting.wait_until-UntilEnds native-ErrorCheck waking native_timedwait-Reacquires 1 7 5
      held_cond held_cond-MayWait
