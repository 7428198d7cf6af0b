-- ===== src/ShardedThreadPool/Stopping.antt =====
-- stop() of a sharded pool that is paused.
use blue_thread.Prelude.{
  ℕ, ◌≡◌, ◌≢◌, refl, sym, ◌∙◌, ◌⊎◌, inl, inr, Bool, true, false, Bool-cases, In, arith,
}
use blue_thread.ShardedThreadPool.{
  ShardedPool, ShardAt, at_loop, at_pause, to_pause, in_pause, to_drain, in_drain, at_process, left,
  reset_beat, pause_loop, Controller, free, waiting_pause, waiting_drain, joining,
}
use blue_thread.ShardedThreadPool.Steps.{
  Shards, shard_moves, shard_asks, ShardStep, enters, tests_stop, tests_pause, pauses, repauses,
  tests_drain, drains, redrains, processes, processed_one, control_starts, control_pauses,
  control_rechecks, control_unpauses, control_drains, control_redrains, control_stops,
  control_joins, ShardReach, at_once, and_then,
}
use blue_thread.ShardedThreadPool.Invariant.Workers.{pause_loop_cases}
use blue_thread.ShardedThreadPool.{plus_one, loop_test, pause_enter, drain_loop, drain_enter}
use blue_thread.ShardedThreadPool.Invariant.Workers.{drain_loop_cases}
use blue_thread.ShardedThreadPool.Invariant.Calls.{entered}

waiting_not_joining :
    (c : Controller) → c ≡ joining → (c ≢ free) × (c ≢ waiting_pause) × (c ≢ waiting_drain)
waiting_not_joining c e = (λ h. ground arith, λ h. ground arith, λ h. ground arith)

not_both : true ≢ false
not_both e = ground arith

-- A worker in its pause loop, under a caller that joins it.
record Stuck (i : ℕ) (s : Shards) : Type 0 where
  stuck_worker : s.worker i ≡ in_pause
  stuck_caller : s.controller ≡ joining
  flag : s.pool.pause_threads ≡ true
  listed : In i s.pool.threads

module _ (i : ℕ) (s : Shards) (k : Stuck i s) where
  -- Another worker moves, or this one stays.
  moves-Stuck :
      (j : ℕ) (r : ShardAt × ShardedPool)
      → (s.worker j ≢ in_pause) ⊎ (r.0 ≡ in_pause)
      → r.1.pause_threads ≡ s.pool.pause_threads
      → r.1.threads ≡ s.pool.threads
      → Stuck i (shard_moves j r s)
  moves-Stuck j r h e f = record {
    stuck_worker = ground (arith, k.stuck_worker);
    stuck_caller = k.stuck_caller;
    flag = e ∙ k.flag;
    listed = rw f k.listed;
  }

  pause_loop-Stuck : (j : ℕ) → Stuck i (shard_moves j (pause_loop j s.pool) s)
  pause_loop-Stuck j = elim (pause_loop_cases j s.pool) [
    | inl (e, z) ↦ rw e (moves-Stuck j (in_pause, reset_beat j s.pool) (inr refl) refl refl)
    | inr (e, z) ↦ absurd (not_both (sym k.flag ∙ z))
  ]

  loop_test-Stuck : (j : ℕ) → s.worker j ≡ at_loop → Stuck i (shard_moves j (loop_test j s.pool) s)
  unfolding loop_test
  loop_test-Stuck j a = elim (Bool-cases s.pool.stop_threads) [
    | inl e ↦ rw e (moves-Stuck j (left, _) (inl (rw a λ x. ground arith)) refl refl)
    | inr e ↦ rw e (moves-Stuck j (at_pause, _) (inl (rw a λ x. ground arith)) refl refl)
  ]

  pause_enter-Stuck :
      (j : ℕ) → s.worker j ≡ to_pause → Stuck i (shard_moves j (pause_enter j s.pool) s)
  unfolding pause_enter
  pause_enter-Stuck j a =
      elim (pause_loop_cases j (record s.pool { num_paused = plus_one s.pool.num_paused })) [
        | inl (e, z) ↦ rw e (moves-Stuck j (in_pause, _) (inr refl) refl refl)
        | inr (e, z) ↦ absurd (not_both (sym k.flag ∙ z))
      ]

  drain_loop-Stuck :
      (j : ℕ) (t : ShardedPool)
      → (s.worker j ≢ in_pause) ⊎ ((drain_loop j t).0 ≡ in_pause)
      → t.pause_threads ≡ s.pool.pause_threads
      → t.threads ≡ s.pool.threads
      → Stuck i (shard_moves j (drain_loop j t) s)
  drain_loop-Stuck j t h e f = elim (drain_loop_cases j t) [
    | inl d ↦ rw d (moves-Stuck j (in_drain, _) (rw d at h) e f)
    | inr d ↦ rw d (moves-Stuck j (at_process, _) (rw d at h) e f)
  ]

  asked-Stuck :
      (j : ℕ) (e : Bool) (r : ShardAt × ShardedPool)
      → Stuck i (shard_moves j r s)
      → Stuck i (shard_asks j e r s)
  asked-Stuck j e r h = record {
    stuck_worker = h.stuck_worker;
    stuck_caller = h.stuck_caller;
    flag = h.flag;
    listed = h.listed;
  }

  drain_enter-Stuck :
      (j : ℕ) (e : Bool)
      → s.worker j ≡ to_drain
      → Stuck i (shard_asks j e (drain_enter e j s.pool) s)
  unfolding drain_enter
  drain_enter-Stuck j true a = asked-Stuck j true _ (
      drain_loop-Stuck j (record s.pool { num_drained = plus_one s.pool.num_drained })
        (inl (rw a λ x. ground arith)) refl refl)
  drain_enter-Stuck j false a =
      asked-Stuck j false (at_process, s.pool)
        (moves-Stuck j (at_process, s.pool) (inl (rw a λ x. ground arith)) refl refl)

  Step-Stuck : (t : Shards) → ShardStep s t → Stuck i t
  unfolding pause_enter drain_enter
  Step-Stuck t (enters j a u e h) =
      let (b, c) = entered j s.pool u a h in
      rw (b, c) (moves-Stuck j (at_loop, _) (inl (rw e λ x. ground arith)) refl refl)
  Step-Stuck t (tests_stop j a) = loop_test-Stuck j a
  Step-Stuck t (tests_pause j a) = moves-Stuck j _ (inl (rw a λ x. ground arith)) refl refl
  Step-Stuck t (pauses j a) = pause_enter-Stuck j a
  Step-Stuck t (repauses j a) = pause_loop-Stuck j
  Step-Stuck t (tests_drain j a) = moves-Stuck j _ (inl (rw a λ x. ground arith)) refl refl
  Step-Stuck t (drains j e a) = drain_enter-Stuck j e a
  Step-Stuck t (redrains j a) = drain_loop-Stuck j s.pool (inl (rw a λ x. ground arith)) refl refl
  Step-Stuck t (processes j a) = moves-Stuck j _ (inl (rw a λ x. ground arith)) refl refl
  Step-Stuck t (processed_one j a) = moves-Stuck j _ (inl (rw a λ x. ground arith)) refl refl
  Step-Stuck t (control_starts a) = absurd ((waiting_not_joining s.controller k.stuck_caller).0 a)
  Step-Stuck t (control_pauses c u a h) =
      absurd ((waiting_not_joining s.controller k.stuck_caller).0 a)
  Step-Stuck t (control_rechecks a) = absurd ((waiting_not_joining s.controller k.stuck_caller).1 a)
  Step-Stuck t (control_unpauses c u a h) =
      absurd ((waiting_not_joining s.controller k.stuck_caller).0 a)
  Step-Stuck t (control_drains c u a h) =
      absurd ((waiting_not_joining s.controller k.stuck_caller).0 a)
  Step-Stuck t (control_redrains r a h) =
      absurd ((waiting_not_joining s.controller k.stuck_caller).2 a)
  Step-Stuck t (control_stops c u a h) =
      absurd ((waiting_not_joining s.controller k.stuck_caller).0 a)
  Step-Stuck t (control_joins a g) = ground (arith, k.stuck_worker, g i k.listed)

Reach-Stuck : (i : ℕ) (s t : Shards) → Stuck i s → ShardReach s t → Stuck i t
Reach-Stuck i s t k at_once = k
Reach-Stuck i s t k (and_then {t = u} r l) = Step-Stuck i u (Reach-Stuck i s u k r) t l

-- A pool that is stopped while it is paused, with a worker in its pause loop, never gets out of the
-- joins of stop(): in every state that it can go on to, the caller is still in the joins and that
-- worker still in its loop, since the loop does not look at stop_threads and nobody is left to call
-- unpause().
pub stop_hangs :
    (i : ℕ) (s t : Shards)
    → s.controller ≡ joining
    → s.pool.pause_threads ≡ true
    → In i s.pool.threads
    → s.worker i ≡ in_pause
    → ShardReach s t
    → (t.controller ≡ joining) × (t.worker i ≡ in_pause)
stop_hangs i s t c f l w r =
    let k =
      Reach-Stuck i s t (record { stuck_worker = w; stuck_caller = c; flag = f; listed = l }) r in
    (k.stuck_caller, k.stuck_worker)
