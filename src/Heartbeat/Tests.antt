-- ===== src/Heartbeat/Tests.antt =====
-- The theorems on HeartbeatMap at a map with one worker.
use blue_thread.Prelude.{
  ℕ, ◌^◌, ◌≡◌, refl, [], ◌∷◌, Option, none, some, false, done, leb, arith, negsuc, update,
}
use blue_thread.Lockdep.State.{init}
use blue_thread.Lockdep.Runs.{no_trace}
use blue_thread.SharedMutex.{SharedWorld}
use blue_thread.SharedMutex.Plain.{IsAt}
use blue_thread.SharedMutex.Example.{native, native-ReadersWriter}
use blue_thread.Heartbeat.{
  HeartbeatMap, new_handle, with_timeouts, reset_timeout, add_worker, remove_worker, is_healthy,
  empty_map,
}
use blue_thread.Heartbeat.Deadlines
use blue_thread.Heartbeat.Workers
use blue_thread.Heartbeat.Workers.{IsWellFormed}
use blue_thread.Heartbeat.Counting

abbrev free_rwlock : SharedWorld (Option ℕ × ℕ)
free_rwlock = record {
  base = record {
    tables = init;
    mutex = record {
      lock_name = "map";
      id = negsuc 0;
      lockdep = false;
      locked_count = 0;
      locked_by = none;
      m = (none, 0);
    };
  };
  read_locked_count = 0;
}

free_rwlock-IsAt : IsAt native-ReadersWriter none 0 free_rwlock
unfolding native-ReadersWriter
free_rwlock-IsAt = record { off = refl; written = refl; read = refl }

new_map : HeartbeatMap (Option ℕ × ℕ)
new_map = empty_map free_rwlock

new_map-IsWellFormed : IsWellFormed native-ReadersWriter new_map
unfolding new_map empty_map
new_map-IsWellFormed = record {
  open_lock = free_rwlock-IsAt;
  distinct = tt;
  allocated = λ a h. absurd h;
  listed = λ a h. absurd (h refl);
  fresh = λ a h. refl;
  items = tt;
  distinct_nodes = tt;
  old_nodes = λ n h. absurd h;
}

add-remove_example :
    (a : ℕ) × (t : HeartbeatMap (Option ℕ × ℕ)) × (u : HeartbeatMap (Option ℕ × ℕ)) × (add_worker
        native 1 no_trace "w" 5 new_map
      ≡ done a t)
    × Workers.Stands native-ReadersWriter "w" 5 a new_map t
    × (remove_worker native 1 no_trace a t ≡ done tt u)
    × Workers.SameList native-ReadersWriter new_map u
add-remove_example =
    Workers.add-remove native-ReadersWriter 1 no_trace "w" 5 new_map new_map-IsWellFormed

-- One worker with the address 0.
abbrev one_worker : HeartbeatMap (Option ℕ × ℕ)
one_worker = record {
  rwlock = free_rwlock;
  handles = update (λ a. none) 0 (some (record (new_handle "w") { list_item = some 0 }));
  next_address = 1;
  workers = 0 ∷ [];
  nodes = 0 ∷ [];
  next_node = 1;
  unhealthy_workers = 0;
  total_workers = 0;
}

one_worker-IsWellFormed : IsWellFormed native-ReadersWriter one_worker
one_worker-IsWellFormed = record {
  open_lock = free_rwlock-IsAt;
  distinct = (λ h. absurd h, tt);
  allocated = λ a h. ground arith;
  listed = λ a h. ground arith;
  fresh = λ a h. ground arith;
  items = (refl, tt);
  distinct_nodes = (λ h. absurd h, tt);
  old_nodes = λ n h. ground arith;
}

is_healthy-HealthEnds_example :
    Counting.HealthEnds native-ReadersWriter one_worker 9
      (is_healthy native 1 no_trace 9 one_worker)
is_healthy-HealthEnds_example =
    Counting.is_healthy-HealthEnds native-ReadersWriter 1 no_trace 9 one_worker
      one_worker-IsWellFormed

abbrev after_reset : ℕ → ℕ → ℕ → HeartbeatMap (Option ℕ × ℕ)
after_reset t g sg = record one_worker {
  handles =
      update one_worker.handles 0
        (some (with_timeouts t g sg (record (new_handle "w") { list_item = some 0 })));
}

reset_run : (t g sg : ℕ) → reset_timeout t 0 g sg one_worker ≡ done tt (after_reset t g sg)
unfolding reset_timeout new_handle
reset_run t g sg = refl

reset-Verdict_example :
    Deadlines.inspect 0 9 (after_reset 5 3 7)
    ≡ Deadlines.Verdict (Deadlines.kills 5 7 9) (leb 9 8) (after_reset 5 3 7)
reset-Verdict_example =
    Deadlines.reset-Verdict 5 0 3 7 9 one_worker (after_reset 5 3 7) (reset_run 5 3 7) (omega arith)
      (omega arith) (omega arith)

reset_overflow_example :
    Deadlines.inspect 0 6 (after_reset 5 (2 ^ 63) 0) ≡ done false (after_reset 5 (2 ^ 63) 0)
reset_overflow_example =
    Deadlines.reset_overflow 5 0 (2 ^ 63) 6 one_worker (after_reset 5 (2 ^ 63) 0)
      (reset_run 5 (2 ^ 63) 0) (omega arith) (omega arith) (omega arith)
