-- ===== src/Thread/Tests.antt =====
-- A system with one thread that has ended, and the theorems at it.
use blue_thread.Prelude.{
  ◌≡◌, refl, some, Bool, true, false, List, [], ◌∷◌, pos, negsuc, done, ltb, length,
}
use blue_thread.BackTrace.{CString}
use blue_thread.Thread.{
  ThreadWorld, PthreadThread, construct, create, join, set_cpu_affinity, set_affinity_of,
  entry_wrapper, try_create, block_all_signals, restore_signals, create_native, get_tid,
  is_positive, is_natural, same_int, name_self, on_os, put_os,
}
use blue_thread.Thread.Affinity
use blue_thread.Thread.Life

-- The state of the system is whether the signals of the caller are blocked.
abbrev system : PthreadThread Bool Bool
system = record {
  self = λ o. 9;
  sched_setaffinity = λ cpu o. (0, o);
  sched_yield = λ o. o;
  setname = λ t name o. (0, o);
  getname = λ t o. (0, []);
  create = λ size o. (0, 9, o);
  join = λ t o. some (0, o);
  detach = λ t o. (0, o);
  kill = λ t signal o. (0, o);
  sigmask_block = λ o. (0, o, true);
  sigmask_set = λ m o. (0, m);
}

system-SignalMask : Life.SignalMask system
system-SignalMask = record {
  mask = λ o. o;
  full = true;
  block_all = λ o. (true, refl, refl);
  set_mask = λ m o. (m, refl, refl);
}

abbrev worker_name : CString
worker_name = 119 ∷ 49 ∷ []

create-CreateEnds_example :
    Life.CreateEnds system system-SignalMask
      (construct false)
      worker_name
      0
      (ltb (length worker_name) 16)
      (create system worker_name 0 (construct false))
create-CreateEnds_example =
    Life.create-CreateEnds system system-SignalMask (construct false) worker_name 0

abbrev made : ThreadWorld Bool
made = record {
  thread = record { tid = pos 0; thread_id = 9; thread_name = worker_name; cpuid = negsuc 0 };
  os = false;
}

abbrev life : List (Affinity.Call Bool)
life =
    Affinity.call_create worker_name 0
    ∷ Affinity.call_affinity (pos 3)
    ∷ Affinity.run_entry (λ o. done tt o)
    ∷ []

life_run : Affinity.perform_all system life (construct false) ≡ done tt made
unfolding construct Affinity.perform_all Affinity.perform create try_create block_all_signals
    restore_signals create_native set_cpu_affinity entry_wrapper set_affinity_of get_tid is_positive
    is_natural same_int name_self on_os put_os
life_run = refl

set_cpu_affinity_idle_example : set_cpu_affinity system (pos 3) made ≡ done (pos 0) made
set_cpu_affinity_idle_example =
    Affinity.set_cpu_affinity_idle system life false made life_run (pos 3)
