-- ===== src/ShardedThreadPool/Steps.antt =====
-- The sharded pool with its workers and one thread that controls it, as steps. A wait may end at any
-- time.
use blue_thread.Prelude.{ℕ, zero, suc, ◌+◌, ◌-◌, ◌≡◌, Bool, false, ◌∷◌, length, In, update, done}
use blue_thread.ShardedThreadPool.{
  ShardedPool, ShardAt, absent, created, at_loop, at_pause, to_pause, in_pause, at_drain, to_drain,
  in_drain, at_process, in_process, left, reset_beat, construct, set_wq, worker_enter, loop_test,
  pause_test, pause_loop, pause_enter, drain_test, drain_loop, drain_enter, Controller, free,
  waiting_pause, waiting_drain, joining, paused_check, shard_pause, shard_unpause, drained_check,
  shard_drain, shard_stop, shard_clear,
}

pub record Shards : Type 0 where
  pub pool : ShardedPool
  pub made : ℕ
  pub worker : ℕ → ShardAt
  pub controller : Controller
  -- A log: what is_shard_empty() answered last to each worker, false before it was called.
  pub answered : ℕ → Bool

abbrev pub shard_moves : ℕ → ShardAt × ShardedPool → Shards → Shards
shard_moves i r s = record s { pool = r.1; worker = update s.worker i r.0 }

-- The same, after is_shard_empty() has answered the worker.
abbrev pub shard_asks : ℕ → Bool → ShardAt × ShardedPool → Shards → Shards
shard_asks i e r s = record s {
  pool = r.1;
  worker = update s.worker i r.0;
  answered = update s.answered i e;
}

-- while (threads_shardedpool.size() < num_threads), `k` rounds before its end.
unfoldable pub make_threads : ℕ → Shards → Shards
make_threads zero s = s
make_threads (suc k) s = make_threads k (record s {
  pool = record s.pool { threads = s.made ∷ s.pool.threads };
  made = s.made + 1;
  worker = update s.worker s.made created;
})

unfoldable pub shard_start : Shards → Shards
unfolding make_threads
shard_start s = make_threads (s.pool.num_threads - length s.pool.threads) s

-- A new pool of `n` threads with its queue.
abbrev pub new_shards : ℕ → ℕ → ℕ → Shards
new_shards n ti sti = record {
  pool = set_wq ti sti (construct n);
  made = 0;
  worker = λ i. absent;
  controller = free;
  answered = λ i. false;
}

pub data ShardStep (s : Shards) : Shards → Type 0 where
  enters :
      (i : ℕ) (a : ShardAt) (t : ShardedPool)
      → s.worker i ≡ created
      → worker_enter i s.pool ≡ done a t
      → ShardStep s (shard_moves i (a, t) s)
  tests_stop : (i : ℕ) → s.worker i ≡ at_loop → ShardStep s (shard_moves i (loop_test i s.pool) s)
  tests_pause :
      (i : ℕ) → s.worker i ≡ at_pause → ShardStep s (shard_moves i (pause_test s.pool, s.pool) s)
  pauses : (i : ℕ) → s.worker i ≡ to_pause → ShardStep s (shard_moves i (pause_enter i s.pool) s)
  repauses : (i : ℕ) → s.worker i ≡ in_pause → ShardStep s (shard_moves i (pause_loop i s.pool) s)
  tests_drain :
      (i : ℕ) → s.worker i ≡ at_drain → ShardStep s (shard_moves i (drain_test s.pool, s.pool) s)
  drains :
      (i : ℕ) (e : Bool)
      → s.worker i ≡ to_drain
      → ShardStep s (shard_asks i e (drain_enter e i s.pool) s)
  redrains : (i : ℕ) → s.worker i ≡ in_drain → ShardStep s (shard_moves i (drain_loop i s.pool) s)
  processes :
      (i : ℕ)
      → s.worker i ≡ at_process
      → ShardStep s (shard_moves i (in_process, reset_beat i s.pool) s)
  processed_one :
      (i : ℕ) → s.worker i ≡ in_process → ShardStep s (shard_moves i (at_loop, s.pool) s)
  control_starts : s.controller ≡ free → ShardStep s (shard_start s)
  control_pauses :
      (c : Controller) (t : ShardedPool)
      → s.controller ≡ free
      → shard_pause s.pool ≡ done c t
      → ShardStep s (record s { pool = t; controller = c })
  control_rechecks :
      s.controller ≡ waiting_pause → ShardStep s (record s { controller = paused_check s.pool })
  control_unpauses :
      (c : Controller) (t : ShardedPool)
      → s.controller ≡ free
      → shard_unpause s.pool ≡ done c t
      → ShardStep s (record s { pool = t; controller = c })
  control_drains :
      (c : Controller) (t : ShardedPool)
      → s.controller ≡ free
      → shard_drain s.pool ≡ done c t
      → ShardStep s (record s { pool = t; controller = c })
  control_redrains :
      (r : Controller × ShardedPool)
      → s.controller ≡ waiting_drain
      → drained_check s.pool ≡ r
      → ShardStep s (record s { pool = r.1; controller = r.0 })
  control_stops :
      (c : Controller) (t : ShardedPool)
      → s.controller ≡ free
      → shard_stop s.pool ≡ done c t
      → ShardStep s (record s { pool = t; controller = c })
  control_joins :
      s.controller ≡ joining
      → ((i : ℕ) → In i s.pool.threads → s.worker i ≡ left)
      → ShardStep s (record s { pool = shard_clear s.pool; controller = free })

pub data ShardReach (s : Shards) : Shards → Type 0 where
  at_once : ShardReach s s
  and_then : {t u : Shards} → ShardReach s t → ShardStep t u → ShardReach s u
