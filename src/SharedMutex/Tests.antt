-- ===== src/SharedMutex/Tests.antt =====
-- The theorems on shared_mutex_debug at concrete runs.
use blue_thread.Prelude.{ℕ, ◌≡◌, refl, Option, none, some, Bool, true, false, done, Leaves, pos}
use blue_thread.Lockdep.State.{Lockdep, init}
use blue_thread.Lockdep.Ids.{lockdep_register}
use blue_thread.Lockdep.Calls.{lockdep_locked}
use blue_thread.Lockdep.Invariant.Registering.{lockdep_register_plain}
use blue_thread.Lockdep.Threads.Steps.{init-Inv}
use blue_thread.Lockdep.Runs.{no_trace, state_of, calls}
use blue_thread.Mutex.{will_lock, locked}
use blue_thread.SharedMutex.{
  SharedWorld, construct, on_base, post_lock, post_lock_shared, is_locked, lock, lock_shared,
  unlock, unlock_shared,
}
use blue_thread.SharedMutex.Views.{reading, writing, SharedKnown}
use blue_thread.SharedMutex.Checked
use blue_thread.SharedMutex.Passing
use blue_thread.SharedMutex.Unlocking
use blue_thread.SharedMutex.Uncounted
use blue_thread.SharedMutex.Example.{native, native_wrlock, native_rdlock, native-ReadersWriter}

abbrev new_world : Bool → SharedWorld (Option ℕ × ℕ)
new_world lockdep = record {
  base = record {
    tables = state_of (lockdep_register "rw" init);
    mutex = record {
      lock_name = "rw";
      id = pos 0;
      lockdep = lockdep;
      locked_count = 0;
      locked_by = none;
      m = (none, 0);
    };
  };
  read_locked_count = 0;
}

new_world_built : construct native "rw" true false init ≡ done tt (new_world true)
unfolding calls construct on_base
new_world_built = refl

new-SharedKnown : SharedKnown native-ReadersWriter 0 (reading 0) (new_world true)
unfolding calls native-ReadersWriter
new-SharedKnown =
    let r = lockdep_register_plain init "rw" init-Inv in
    record {
      agrees = record { no_writer = refl; read = refl; uncounted = refl; read_counted = refl };
      inv = r.inv;
      checked = refl;
      registered = refl;
      named = ("rw", refl);
      listed = tt;
    }

lock-WriteEnds_example :
    Passing.WriteEnds native native-ReadersWriter 0
      (new_world true)
      1
      (reading 0)
      (lock native 1 no_trace (new_world true))
lock-WriteEnds_example =
    Checked.lock-WriteEnds native native-ReadersWriter 0 (new_world true) 1 no_trace (reading 0)
      new-SharedKnown

lock_shared-ReadEnds_example :
    Passing.ReadEnds native native-ReadersWriter 0
      (new_world true)
      1
      (reading 0)
      (lock_shared native 1 no_trace (new_world true))
lock_shared-ReadEnds_example =
    Checked.lock_shared-ReadEnds native native-ReadersWriter 0 (new_world true) 1 no_trace
      (reading 0) new-SharedKnown

abbrev taken_tables : Lockdep
taken_tables = state_of (lockdep_locked "rw" (pos 0) 1 no_trace (new_world true).base.tables)

abbrev written_world : SharedWorld (Option ℕ × ℕ)
written_world = record {
  base = record {
    tables = taken_tables;
    mutex = record (new_world true).base.mutex {
      m = (some 1, 0);
      locked_count = 1;
      locked_by = some 1;
    };
  };
  read_locked_count = 0;
}

written_world_run : lock native 1 no_trace (new_world true) ≡ done tt written_world
unfolding calls lock native_wrlock on_base will_lock locked post_lock
written_world_run = refl

written-SharedKnown : SharedKnown native-ReadersWriter 0 (writing 1) written_world
written-SharedKnown = (rw written_world_run at lock-WriteEnds_example).known

unlock-UnlockEnds_example :
    Unlocking.UnlockEnds native native-ReadersWriter 0 written_world 1
      (writing 1)
      (unlock native 1 written_world)
unlock-UnlockEnds_example =
    Unlocking.unlock-UnlockEnds native native-ReadersWriter 0 written_world 1 (writing 1)
      written-SharedKnown

abbrev read_world : SharedWorld (Option ℕ × ℕ)
read_world = record {
  base = record {
    tables = taken_tables;
    mutex = record (new_world true).base.mutex { m = (none, 1) };
  };
  read_locked_count = 1;
}

read_world_run : lock_shared native 1 no_trace (new_world true) ≡ done tt read_world
unfolding calls lock_shared native_rdlock on_base will_lock locked post_lock_shared
read_world_run = refl

read-SharedKnown : SharedKnown native-ReadersWriter 0 (reading 1) read_world
read-SharedKnown = (rw read_world_run at lock_shared-ReadEnds_example).known

one_reader : native-ReadersWriter.reads 1 read_world.base.mutex.m ≡ true
unfolding native-ReadersWriter
one_reader = refl

unlock_shared-Ends_example :
    Unlocking.UnlockSharedEnds native native-ReadersWriter 0 read_world 1
      (reading 1)
      (unlock_shared native 1 read_world)
unlock_shared-Ends_example =
    Unlocking.unlock_shared-Ends native native-ReadersWriter 0 read_world 1 (reading 1)
      read-SharedKnown one_reader

new-IsUnseen : Uncounted.IsUnseen (new_world false)
unfolding is_locked
new-IsUnseen = (refl, refl)

never-is_locked_example :
    Leaves Uncounted.IsUnseen (lock native 1 no_trace (new_world false))
    × Leaves Uncounted.IsUnseen (lock_shared native 1 no_trace (new_world false))
    × Leaves Uncounted.IsUnseen (unlock native 1 (new_world false))
    × Leaves Uncounted.IsUnseen (unlock_shared native 1 (new_world false))
never-is_locked_example = Uncounted.never-is_locked native (new_world false) 1 no_trace new-IsUnseen
