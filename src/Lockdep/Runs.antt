-- ===== src/Lockdep/Runs.antt =====
-- A run of the lockdep functions with two mutexes and two threads, for tests.
use blue_thread.Prelude.{ℕ, ◌≡◌, refl, [], pos, Outcome, done}
use blue_thread.BackTrace.{BackTrace}
use blue_thread.Lockdep.Bits.{test_at, set_at, clear_at, fill}
use blue_thread.Lockdep.State.{Lockdep, init, insert_held, erase_held}
use blue_thread.Lockdep.Ids.{
  init_lock_ids_bitmap, scan_byte, scan_bytes, take_found, reuse_last, lockdep_get_free_id,
  count_ref, enter_name, register_new, register_name, or_throw, lockdep_register, known_id,
}
use blue_thread.Lockdep.Follow.{does_follow, scan_next}
use blue_thread.Lockdep.Calls.{
  add_edge, judge, check_one, check_held, lockdep_will_lock, hold, lockdep_locked,
  lockdep_will_unlock, cut_round, cut_loop, forget, free_id, drop_ref, lockdep_unregister,
}

abbrev pub no_trace : BackTrace
no_trace = record { strings = []; skip = 0 }

abbrev pub state_of : {A : Type 0} → Outcome Lockdep A → Lockdep
state_of (done _ t) = t
state_of _ = init

-- To evaluate the calls.
unfoldable pub calls : ℕ
unfolding lockdep_register or_throw register_name register_new lockdep_get_free_id reuse_last
    take_found scan_bytes scan_byte init_lock_ids_bitmap count_ref enter_name known_id test_at
    set_at clear_at fill insert_held erase_held does_follow scan_next add_edge judge check_one
    check_held lockdep_will_lock hold lockdep_locked lockdep_will_unlock cut_round cut_loop forget
    free_id drop_ref lockdep_unregister
calls = 0

-- "a" and "b" are registered; thread 1 takes both in this order, and thread 2 waits for "b".
abbrev pub s1 : Lockdep
s1 = state_of (lockdep_register "a" init)

abbrev pub s2 : Lockdep
s2 = state_of (lockdep_register "b" s1)

abbrev pub s3 : Lockdep
s3 = state_of (lockdep_will_lock "a" (pos 0) 1 no_trace s2)

abbrev pub s4 : Lockdep
s4 = state_of (lockdep_locked "a" (pos 0) 1 no_trace s3)

abbrev pub s5 : Lockdep
s5 = state_of (lockdep_will_lock "b" (pos 1) 1 no_trace s4)

abbrev pub s6 : Lockdep
s6 = state_of (lockdep_locked "b" (pos 1) 1 no_trace s5)

abbrev pub s7 : Lockdep
s7 = state_of (lockdep_will_lock "b" (pos 1) 2 no_trace s6)

-- Thread 1 releases both, and thread 2 takes "b".
abbrev pub s8 : Lockdep
s8 = state_of (lockdep_will_unlock "b" (pos 1) 1 s7)

abbrev pub s9 : Lockdep
s9 = state_of (lockdep_will_unlock "a" (pos 0) 1 s8)

abbrev pub s10 : Lockdep
s10 = state_of (lockdep_locked "b" (pos 1) 2 no_trace s9)

pub runs :
    (lockdep_register "a" init ≡ done 0 s1)
    × (lockdep_register "b" s1 ≡ done 1 s2)
    × (lockdep_will_lock "a" (pos 0) 1 no_trace s2 ≡ done (pos 0) s3)
    × (lockdep_locked "a" (pos 0) 1 no_trace s3 ≡ done (pos 0) s4)
    × (lockdep_will_lock "b" (pos 1) 1 no_trace s4 ≡ done (pos 1) s5)
    × (lockdep_locked "b" (pos 1) 1 no_trace s5 ≡ done (pos 1) s6)
    × (lockdep_will_lock "b" (pos 1) 2 no_trace s6 ≡ done (pos 1) s7)
    × (lockdep_will_unlock "b" (pos 1) 1 s7 ≡ done (pos 1) s8)
    × (lockdep_will_unlock "a" (pos 0) 1 s8 ≡ done (pos 0) s9)
    × (lockdep_locked "b" (pos 1) 2 no_trace s9 ≡ done (pos 1) s10)
unfolding calls
runs = (refl, refl, refl, refl, refl, refl, refl, refl, refl, refl)
