-- ===== src/ShardedThreadPool/Invariant/Answers.antt =====
-- What is_shard_empty() answered to the workers of a sharded pool that are in the drain loop.
use blue_thread.Prelude.{
  ℕ, zero, suc, ◌≡◌, ◌≢◌, inl, inr, Bool, true, false, Bool-cases, ◌==◌, arith, ◌-◌, length,
}
use blue_thread.ShardedThreadPool.{
  ShardedPool, ShardAt, plus_one, at_loop, at_pause, in_pause, at_drain, in_drain, at_process,
  in_process, left, loop_test, pause_test, pause_loop, pause_enter, drain_test, drain_loop,
  drain_enter,
}
use blue_thread.ShardedThreadPool.Steps.{
  Shards, shard_moves, shard_asks, make_threads, shard_start, new_shards, ShardStep, enters,
  tests_stop, tests_pause, pauses, repauses, tests_drain, drains, redrains, processes,
  processed_one, control_starts, control_pauses, control_rechecks, control_unpauses, control_drains,
  control_redrains, control_stops, control_joins, ShardReach, at_once, and_then,
}
use blue_thread.ShardedThreadPool.Invariant.Calls.{entered}
use blue_thread.ShardedThreadPool.Invariant.Workers.{pause_loop_cases, drain_loop_cases}

-- A worker in the drain loop has had the answer that its shard is empty.
pub record AnswersInv (s : Shards) : Type 0 where
  pub asked : (i : ℕ) → s.worker i ≡ in_drain → s.answered i ≡ true

-- A worker moves to a place outside the drain loop.
outside :
    (s : Shards) (i : ℕ) (b : ShardAt) (t : ShardedPool)
    → b ≢ in_drain
    → AnswersInv s
    → AnswersInv (shard_moves i (b, t) s)
outside s i b t ne v = record {
  asked = λ j e. elim (Bool-cases (i == j)) [
    | inl f ↦ absurd (ne (rw f at e))
    | inr f ↦ v.asked j (rw f at e)
  ];
}

-- A worker in the drain loop stays there.
stays :
    (s : Shards) (i : ℕ) (t : ShardedPool)
    → s.worker i ≡ in_drain
    → AnswersInv s
    → AnswersInv (shard_moves i (in_drain, t) s)
stays s i t a v = record { asked = λ j e. ground (arith, v.asked i a, v.asked j) }

redrains-AnswersInv :
    (s : Shards) (i : ℕ)
    → s.worker i ≡ in_drain
    → AnswersInv s
    → AnswersInv (shard_moves i (drain_loop i s.pool) s)
redrains-AnswersInv s i a v = elim (drain_loop_cases i s.pool) [
  | inl e ↦ rw e (stays s i _ a v)
  | inr e ↦ rw e (outside s i at_process _ (λ x. ground arith) v)
]

pause_loop-AnswersInv :
    (s : Shards) (i : ℕ) (t : ShardedPool)
    → AnswersInv s
    → AnswersInv (shard_moves i (pause_loop i t) s)
pause_loop-AnswersInv s i t v = elim (pause_loop_cases i t) [
  | inl (e, _) ↦ rw e (outside s i in_pause _ (λ x. ground arith) v)
  | inr (e, _) ↦ rw e (outside s i at_drain _ (λ x. ground arith) v)
]

drains-AnswersInv :
    (s : Shards) (i : ℕ) (e : Bool)
    → AnswersInv s
    → AnswersInv (shard_asks i e (drain_enter e i s.pool) s)
unfolding drain_enter
drains-AnswersInv s i false v = record { asked = λ j e. ground (arith, v.asked j) }
drains-AnswersInv s i true v = record { asked = λ j e. ground (arith, v.asked j) }

make_threads-AnswersInv : (k : ℕ) (s : Shards) → AnswersInv s → AnswersInv (make_threads k s)
unfolding make_threads
make_threads-AnswersInv zero s v = v
make_threads-AnswersInv (suc k) s v =
    make_threads-AnswersInv k _ (record { asked = λ j e. ground (arith, v.asked j) })

ShardStep-AnswersInv : (s t : Shards) → AnswersInv s → ShardStep s t → AnswersInv t
unfolding loop_test pause_test drain_test pause_enter shard_start
ShardStep-AnswersInv s t v (enters i a u e h) =
    let (b, k) = entered i s.pool u a h in rw (b, k) (outside s i at_loop _ (λ x. ground arith) v)
ShardStep-AnswersInv s t v (tests_stop i a) = elim (Bool-cases s.pool.stop_threads) [
  | inl e ↦ rw e (outside s i left _ (λ x. ground arith) v)
  | inr e ↦ rw e (outside s i at_pause _ (λ x. ground arith) v)
]
ShardStep-AnswersInv s t v (tests_pause i a) =
    outside s i (pause_test s.pool) s.pool (λ x. ground arith) v
ShardStep-AnswersInv s t v (pauses i a) =
    pause_loop-AnswersInv s i (record s.pool { num_paused = plus_one s.pool.num_paused }) v
ShardStep-AnswersInv s t v (repauses i a) = pause_loop-AnswersInv s i s.pool v
ShardStep-AnswersInv s t v (tests_drain i a) =
    outside s i (drain_test s.pool) s.pool (λ x. ground arith) v
ShardStep-AnswersInv s t v (drains i e a) = drains-AnswersInv s i e v
ShardStep-AnswersInv s t v (redrains i a) = redrains-AnswersInv s i a v
ShardStep-AnswersInv s t v (processes i a) = outside s i in_process _ (λ x. ground arith) v
ShardStep-AnswersInv s t v (processed_one i a) = outside s i at_loop s.pool (λ x. ground arith) v
ShardStep-AnswersInv s t v (control_starts a) =
    make_threads-AnswersInv (s.pool.num_threads - length s.pool.threads) s v
ShardStep-AnswersInv s t v (control_pauses c u a h) = record { asked = v.asked }
ShardStep-AnswersInv s t v (control_rechecks a) = record { asked = v.asked }
ShardStep-AnswersInv s t v (control_unpauses c u a h) = record { asked = v.asked }
ShardStep-AnswersInv s t v (control_drains c u a h) = record { asked = v.asked }
ShardStep-AnswersInv s t v (control_redrains r a h) = record { asked = v.asked }
ShardStep-AnswersInv s t v (control_stops c u a h) = record { asked = v.asked }
ShardStep-AnswersInv s t v (control_joins a g) = record { asked = v.asked }

pub new_shards-AnswersInv : (n ti sti : ℕ) → AnswersInv (new_shards n ti sti)
new_shards-AnswersInv n ti sti = record { asked = λ i e. ground arith }

pub ShardReach-AnswersInv : (s t : Shards) → AnswersInv s → ShardReach s t → AnswersInv t
ShardReach-AnswersInv s t v at_once = v
ShardReach-AnswersInv s t v (and_then {t = u} r k) =
    ShardStep-AnswersInv u t (ShardReach-AnswersInv s u v r) k
