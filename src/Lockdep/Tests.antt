-- ===== src/Lockdep/Tests.antt =====
-- Tests on a run with two mutexes and two threads, and the theorems at its states.
use blue_thread.Prelude.{suc, Bool, ◌≡◌, refl, true, false, none, some, pos, done, aborted, update}
use blue_thread.Lockdep.State.{Lockdep, edge}
use blue_thread.Lockdep.Ids.{c_str, lockdep_register, lockdep_register_c_str}
use blue_thread.Lockdep.Follow.{does_follow}
use blue_thread.Lockdep.Calls.{lockdep_will_lock, lockdep_unregister}
use blue_thread.Lockdep.Invariant.{IsNamed}
use blue_thread.Lockdep.Follow.{Follows}
use blue_thread.Lockdep.Follow.Correct.{does_follow_decides}
use blue_thread.Lockdep.Invariant.Registering.{RegisterEnds, lockdep_register-Ends}
use blue_thread.Lockdep.Invariant.Checking.{Inv-IsBelow}
use blue_thread.Lockdep.Invariant.Locking.{WillLockEnds, lockdep_will_lock-Ends}
use blue_thread.Lockdep.Invariant.Unregistering.{UnregisterEnds, lockdep_unregister-Ends}
use blue_thread.Lockdep.Threads.Steps.{SystemInv, Reach-SystemInv}
use blue_thread.Lockdep.Threads.Deadlock.{no_circular_wait}
use blue_thread.Lockdep.Threads.{System, WaitChain, register, attempt, acquire, Reach, begin, next}
use blue_thread.Lockdep.Runs.{no_trace, state_of, calls, s2, s4, s6, s7, s10, runs}

-- Thread 2 asks for "a" while it holds "b": the edge "a" -> "b" is there, and the call aborts.
abba_aborts : lockdep_will_lock "a" (pos 0) 2 no_trace s10 ≡ aborted s10
unfolding calls
abba_aborts = refl

-- A lock that is held already.
twice_aborts : lockdep_will_lock "b" (pos 1) 2 no_trace s10 ≡ aborted s10
unfolding calls
twice_aborts = refl

-- The destructor of "a" takes the edge away, and then thread 2 may take the locks the other way.
abbrev s11 : Lockdep
s11 = state_of (lockdep_unregister (pos 0) s10)

edge_is_cut : (edge s10.lock_tree 0 1 ≡ true) × (edge s11.lock_tree 0 1 ≡ false)
unfolding calls
edge_is_cut = (refl, refl)

-- The freed id is used again.
id_again : lockdep_register "c" s11 ≡ done 0 (state_of (lockdep_register "c" s11))
unfolding calls
id_again = refl

-- The same run as steps of the system, up to the point where thread 2 waits for "b".
abbrev contended : System
contended = record {
  tables = s7;
  waiting =
      update (update (update (update (update (λ _. none) 1 (some 0)) 1 none) 1 (some 1)) 1 none) 2
        (some 1);
}

contended-Reach : Reach contended
unfolding calls
contended-Reach =
    next
      (next
        (next
          (next
            (next (next (next begin (register "a" runs.0)) (register "b" runs.1))
              (attempt "a" (pos 0) 1 no_trace refl named_a runs.2))
            (acquire "a" 0 1 no_trace refl runs.3))
          (attempt "b" (pos 1) 1 no_trace refl named_b runs.4))
        (acquire "b" 1 1 no_trace refl runs.5))
      (attempt "b" (pos 1) 2 no_trace refl named_b' runs.6)
  where
    named_a : IsNamed s2 0
    named_a = ("a", refl)

    named_b : IsNamed s4 1
    named_b = ("b", refl)

    named_b' : IsNamed s6 1
    named_b' = ("b", refl)

no_circular_wait_example : ¬ WaitChain contended 2 2
no_circular_wait_example = no_circular_wait contended-Reach 2

reached : SystemInv contended
reached = Reach-SystemInv contended-Reach

reached_idle : SystemInv (record { tables = s2; waiting = λ _. none })
unfolding calls
reached_idle = Reach-SystemInv (next (next begin (register "a" runs.0)) (register "b" runs.1))

does_follow_decides_example :
    (r : Bool) × (does_follow (suc s7.current_max_id) s7.lock_tree s7.current_max_id 0 1 ≡ some r)
    × ((r ≡ true → Follows s7.lock_tree 0 1) × (r ≡ false → ¬ Follows s7.lock_tree 0 1))
does_follow_decides_example =
    does_follow_decides s7.lock_tree s7.current_max_id 0 1 (Inv-IsBelow reached.inv)
      reached.inv.acyclic

lockdep_will_lock-Ends_example :
    WillLockEnds s7 "a" (pos 0) 1 (lockdep_will_lock "a" (pos 0) 1 no_trace s7)
unfolding calls
lockdep_will_lock-Ends_example =
    lockdep_will_lock-Ends s7 "a" (pos 0) 1 no_trace reached.inv ("a", refl)

a_plain : c_str "a" ≡ "a"
unfolding c_str
a_plain = refl

lockdep_register-Ends_example : RegisterEnds s7 "a" (lockdep_register_c_str "a" s7)
lockdep_register-Ends_example = lockdep_register-Ends s7 "a" reached.inv a_plain

lockdep_unregister-Ends_example : UnregisterEnds s2 0 0 (lockdep_unregister (pos 0) s2)
unfolding calls
lockdep_unregister-Ends_example =
    lockdep_unregister-Ends s2 0 0 reached_idle.inv ("a", refl) refl (λ e t h. absurd h)
