-- ===== src/Mutex/Tests.antt =====
-- The theorems on BlueMutex at concrete runs.
use blue_thread.Prelude.{ℕ, ◌≡◌, refl, Option, none, some, true, pos, done, aborted}
use blue_thread.Lockdep.State.{init}
use blue_thread.Lockdep.Threads.Steps.{init-Inv}
use blue_thread.Mutex.{World, construct, lock, lock_rest, unlock, destruct}
use blue_thread.Lockdep.Ids.{c_str, lockdep_register}
use blue_thread.Lockdep.Calls.{lockdep_locked}
use blue_thread.Lockdep.Runs.{no_trace, state_of, calls}
use blue_thread.Mutex.{will_lock, locked, post_lock}
use blue_thread.Mutex.Checked.{Known}
use blue_thread.Mutex.Plain
use blue_thread.Mutex.Checked
use blue_thread.Mutex.Lifetime
use blue_thread.Mutex.Example.{
  native, native_trylock, native-ErrorCheck, plain_world, held_world, held_world-HeldBy,
  unlocked-IsFree,
}

lock-Ends_plain_example :
    Plain.LockEnds native native-ErrorCheck held_world 2
      (some 1)
      (lock native 2 no_trace held_world)
      (plain_world none 0)
      (lock_rest native 2 no_trace (plain_world none 0))
lock-Ends_plain_example =
    Plain.lock-Ends_plain native native-ErrorCheck held_world 2 no_trace (some 1)
      (plain_world none 0) refl held_world-HeldBy refl unlocked-IsFree

unlock-Ends_example :
    Plain.UnlockEnds native native-ErrorCheck held_world 2 (some 1) (unlock native 2 held_world)
unlock-Ends_example =
    Plain.unlock-Ends native native-ErrorCheck held_world 2 refl (some 1) held_world-HeldBy

m_plain : c_str "m" ≡ "m"
unfolding c_str
m_plain = refl

construct-Ends_example :
    Lifetime.ConstructEnds native native-ErrorCheck "m" init (construct native "m" true init)
construct-Ends_example = Lifetime.construct-Ends native native-ErrorCheck "m" init init-Inv m_plain

-- A mutex that its constructor has registered, and the same after lock() by thread 1.
abbrev new_world : World (Option ℕ)
new_world = record {
  tables = state_of (lockdep_register "m" init);
  mutex = record {
    lock_name = "m";
    id = pos 0;
    lockdep = true;
    locked_count = 0;
    locked_by = none;
    m = none;
  };
}

new_world_built : construct native "m" true init ≡ done tt new_world
unfolding calls construct
new_world_built = refl

new-Known : Known native-ErrorCheck 0 none new_world
unfolding calls native-ErrorCheck
new-Known =
    let b = rw new_world_built at construct-Ends_example in
    record {
      holder = record { unowned = refl; uncounted = refl };
      inv = b.known.inv;
      checked = refl;
      registered = refl;
      named = ("m", refl);
      listed = λ t e. absurd (cc);
    }

abbrev locked_world : World (Option ℕ)
locked_world = record {
  tables = state_of (lockdep_locked "m" (pos 0) 1 no_trace new_world.tables);
  mutex = record new_world.mutex { locked_count = 1; locked_by = some 1; m = some 1 };
}

locked_world_run : lock native 1 no_trace new_world ≡ done tt locked_world
unfolding calls lock native_trylock will_lock locked post_lock
locked_world_run = refl

locked-Known : Known native-ErrorCheck 0 (some 1) locked_world
locked-Known =
    let ends =
      Checked.lock-Ends native native-ErrorCheck 0 new_world 1 no_trace none new_world new-Known
        new-Known in
    (rw locked_world_run at ends).known

lock-Ends_example :
    Checked.LockEnds native native-ErrorCheck 0 locked_world 2
      (some 1)
      (lock native 2 no_trace locked_world)
      new_world
      (lock_rest native 2 no_trace new_world)
lock-Ends_example =
    Checked.lock-Ends native native-ErrorCheck 0 locked_world 2 no_trace (some 1) new_world
      locked-Known new-Known

unlock-Released_example :
    (w : World (Option ℕ)) × (unlock native 1 locked_world ≡ done tt w)
    × Lifetime.Released native native-ErrorCheck 0 1 locked_world w
unlock-Released_example =
    Lifetime.unlock-Released native native-ErrorCheck locked_world 1 0 locked-Known

destruct_held_example : destruct native held_world ≡ aborted held_world
destruct_held_example =
    Lifetime.destruct_held native native-ErrorCheck held_world 1 held_world-HeldBy

destruct-Ends_example :
    Lifetime.DestructEnds native native-ErrorCheck new_world 0 0 (destruct native new_world)
unfolding calls
destruct-Ends_example =
    Lifetime.destruct-Ends native native-ErrorCheck new_world 0 0 new-Known refl (λ e t h. absurd h)
