-- ===== src/ShardedThreadPool/Invariant/Preserved.antt =====
-- Every step of a sharded pool keeps the invariant, and a new pool has it.
use blue_thread.Prelude.{
  ℕ, zero, suc, ◌+◌, ◌-◌, ◌%◌, ◌^◌, ◌≤◌, ◌<◌, ◌≡◌, ◌≢◌, refl, sym, ap, ◌∙◌, inl, inr, Bool, true,
  Bool-cases, ◌∷◌, ◌==◌, length, total-eq-zero, total_grows, total-update_next, In, update, done,
  arith,
}
use blue_thread.ShardedThreadPool.{
  ShardedPool, ShardAt, absent, created, at_loop, at_pause, at_drain, in_process, left, reset_beat,
  worker_enter, loop_test, pause_test, drain_test, construct, set_wq, Controller, free,
  waiting_pause, joining, paused_check, shard_pause, shard_unpause, drained_check, shard_stop,
  shard_clear,
}
use blue_thread.ShardedThreadPool.Steps.{
  Shards, shard_moves, shard_asks, make_threads, shard_start, new_shards, ShardStep, enters,
  tests_stop, tests_pause, pauses, repauses, tests_drain, drains, redrains, processes,
  processed_one, control_starts, control_pauses, control_rechecks, control_unpauses, control_drains,
  control_redrains, control_stops, control_joins, ShardReach, at_once, and_then,
}
use blue_thread.ShardedThreadPool.Invariant.{pausing_one, draining_one, live_one, ShardInv}
use blue_thread.ShardedThreadPool.Invariant.Workers.{
  plain, pause_enter-ShardInv, pause_loop-ShardInv, drain_loop-ShardInv, drain_enter-ShardInv,
}
use blue_thread.ShardedThreadPool.Invariant.Calls.{
  free_checked, entered, with_wq-done, shard_drain-done, drained_check-same,
}

module _ (s : Shards) (v : ShardInv s) where
  -- The controller moves, and the pool changes only in its flags.
  controlled :
      (c : Controller) (t : ShardedPool)
      → t.num_paused ≡ s.pool.num_paused
      → t.num_drained ≡ s.pool.num_drained
      → t.threads ≡ s.pool.threads
      → t.num_threads ≡ s.pool.num_threads
      → (c ≢ waiting_pause → t.pause_threads ≡ true → t.num_threads ≡ t.num_paused)
      → ShardInv (record s { pool = t; controller = c })
  controlled c t n d e f q = record {
    pausing_count = n ∙ v.pausing_count;
    draining_count = d ∙ v.draining_count;
    alive = rw (ap length e) v.alive;
    bounded = rw (e, f) v.bounded;
    future = v.future;
    owned = λ i h. rw e (v.owned i h);
    quiet = q;
  }

  enters-ShardInv :
      (i : ℕ) (a : ShardAt) (t : ShardedPool)
      → s.worker i ≡ created
      → worker_enter i s.pool ≡ done a t
      → ShardInv (shard_moves i (a, t) s)
  enters-ShardInv i a t e h =
      let (b, k) = entered i s.pool t a h in
      rw (b, k)
        (plain s v i (rw e refl) at_loop _ (ground arith) (rw e refl, rw e refl) (refl, refl) refl
          refl refl)

  tests_stop-ShardInv :
      (i : ℕ) → s.worker i ≡ at_loop → ShardInv (shard_moves i (loop_test i s.pool) s)
  unfolding loop_test
  tests_stop-ShardInv i a = elim (Bool-cases s.pool.stop_threads) [
    | inl e ↦ rw e (
        plain s v i (rw a refl) left _ (ground arith) (rw a refl, rw a refl) (refl, refl) refl refl
          refl)
    | inr e ↦ rw e (
        plain s v i (rw a refl) at_pause _ (ground arith) (rw a refl, rw a refl) (refl, refl) refl
          refl refl)
  ]

  tests_pause-ShardInv :
      (i : ℕ) → s.worker i ≡ at_pause → ShardInv (shard_moves i (pause_test s.pool, s.pool) s)
  unfolding pause_test
  tests_pause-ShardInv i a =
      plain s v i (rw a refl) (pause_test s.pool) s.pool (ground arith) (ground arith, ground arith)
        (refl, refl) refl refl refl

  tests_drain-ShardInv :
      (i : ℕ) → s.worker i ≡ at_drain → ShardInv (shard_moves i (drain_test s.pool, s.pool) s)
  unfolding drain_test
  tests_drain-ShardInv i a =
      plain s v i (rw a refl) (drain_test s.pool) s.pool (ground arith) (ground arith, ground arith)
        (refl, refl) refl refl refl

  -- A thread is created, if there is room for it.
  make-ShardInv :
      length s.pool.threads + 1 ≤ s.pool.num_threads
      → ShardInv (record s {
        pool = record s.pool { threads = s.made ∷ s.pool.threads };
        made = s.made + 1;
        worker = update s.worker s.made created;
      })
  make-ShardInv le = record {
    pausing_count =
        v.pausing_count
        ∙ ap (λ x. x % 2 ^ 32) (sym (total_grows pausing_one s.made s.worker created refl));
    draining_count =
        v.draining_count
        ∙ ap (λ x. x % 2 ^ 32) (sym (total_grows draining_one s.made s.worker created refl));
    alive = omega (arith, total-update_next live_one s.made s.worker created, v.alive);
    bounded = omega (arith, le);
    future = λ i h. ground (arith, v.future i (omega arith));
    owned = λ i h. elim (Bool-cases (s.made == i)) [
      | inl e ↦ inr (inl (ground arith))
      | inr e ↦ ground (arith, v.owned i (ground arith))
    ];
    quiet = v.quiet;
  }

  joins-ShardInv :
      ((i : ℕ) → In i s.pool.threads → s.worker i ≡ left)
      → s.controller ≡ joining
      → ShardInv (record s { pool = shard_clear s.pool; controller = free })
  unfolding shard_clear
  joins-ShardInv g a =
      let gone : (i : ℕ) → i < s.made → s.worker i ≡ left =
        λ i h. elim (v.owned i h) [ inl e ↦ e | inr e ↦ g i e ] in
      record {
        pausing_count = v.pausing_count;
        draining_count = v.draining_count;
        alive = omega (arith, total-eq-zero live_one s.made s.worker (λ i h. rw (gone i h) refl));
        bounded = omega arith;
        future = v.future;
        owned = λ i h. inl (gone i h);
        quiet = λ c h. v.quiet (λ e. ground arith) h;
      }

  drained-ShardInv :
      (t : ShardedPool)
      → s.controller ≢ waiting_pause
      → t.num_paused ≡ s.pool.num_paused
      → t.num_drained ≡ s.pool.num_drained
      → t.threads ≡ s.pool.threads
      → t.num_threads ≡ s.pool.num_threads
      → t.pause_threads ≡ s.pool.pause_threads
      → (r : Controller × ShardedPool) → r ≡ drained_check t
      → ShardInv (record s { pool = r.1; controller = r.0 })
  drained-ShardInv t c n d e f g r k =
      let (a1, a2, a3, a4, a5) = drained_check-same t in
      rw k (
        controlled _ _ (a1 ∙ n) (a2 ∙ d) (a3 ∙ e) (a4 ∙ f)
          (λ _ h. a4 ∙ f ∙ v.quiet c (sym g ∙ sym a5 ∙ h) ∙ sym n ∙ sym a1))

-- The log of the answers plays no part.
asked-ShardInv :
    (i : ℕ) (e : Bool) (r : ShardAt × ShardedPool) (s : Shards)
    → ShardInv (shard_moves i r s)
    → ShardInv (shard_asks i e r s)
asked-ShardInv i e r s v = record {
  pausing_count = v.pausing_count;
  draining_count = v.draining_count;
  alive = v.alive;
  bounded = v.bounded;
  future = v.future;
  owned = v.owned;
  quiet = v.quiet;
}

make_threads-ShardInv :
    (k : ℕ) (s : Shards)
    → ShardInv s
    → length s.pool.threads + k ≤ s.pool.num_threads
    → ShardInv (make_threads k s)
unfolding make_threads
make_threads-ShardInv zero s v h = v
make_threads-ShardInv (suc k) s v h =
    make_threads-ShardInv k _ (make-ShardInv s v (omega arith)) (omega arith)

shard_start-ShardInv : (s : Shards) → ShardInv s → ShardInv (shard_start s)
unfolding shard_start
shard_start-ShardInv s v =
    make_threads-ShardInv (s.pool.num_threads - length s.pool.threads) s v
      (omega (arith, v.bounded))

pub ShardStep-ShardInv : (s t : Shards) → ShardInv s → ShardStep s t → ShardInv t
unfolding shard_pause shard_unpause shard_stop paused_check
ShardStep-ShardInv s t v (enters i a u e h) = enters-ShardInv s v i a u e h
ShardStep-ShardInv s t v (tests_stop i a) = tests_stop-ShardInv s v i a
ShardStep-ShardInv s t v (tests_pause i a) = tests_pause-ShardInv s v i a
ShardStep-ShardInv s t v (pauses i a) = pause_enter-ShardInv s v i (rw a refl) a
ShardStep-ShardInv s t v (repauses i a) = pause_loop-ShardInv s v i (rw a refl) a
ShardStep-ShardInv s t v (tests_drain i a) = tests_drain-ShardInv s v i a
ShardStep-ShardInv s t v (drains i e a) =
    asked-ShardInv i e _ s (drain_enter-ShardInv s v i (rw a refl) e a)
ShardStep-ShardInv s t v (redrains i a) = drain_loop-ShardInv s v i (rw a refl) a
ShardStep-ShardInv s t v (processes i a) =
    plain s v i (rw a refl) in_process (reset_beat i s.pool) (ground arith) (rw a refl, rw a refl)
      (refl, refl) refl refl refl
ShardStep-ShardInv s t v (processed_one i a) =
    plain s v i (rw a refl) at_loop s.pool (ground arith) (rw a refl, rw a refl) (refl, refl) refl
      refl refl
ShardStep-ShardInv s t v (control_starts a) = shard_start-ShardInv s v
ShardStep-ShardInv s t v (control_pauses c u a h) =
    let (b, k) = with_wq-done _ c _ u h in
    rw (b, k)
      (controlled s v _ _ refl refl refl refl
        (λ n _. free_checked s.pool.num_threads s.pool.num_paused n))
ShardStep-ShardInv s t v (control_rechecks a) =
    controlled s v _ s.pool refl refl refl refl
      (λ n _. free_checked s.pool.num_threads s.pool.num_paused n)
ShardStep-ShardInv s t v (control_unpauses c u a h) =
    let (b, k) = with_wq-done _ c _ u h in
    rw (b, k) (controlled s v _ _ refl refl refl refl (λ _ e. ground arith))
ShardStep-ShardInv s t v (control_drains c u a h) =
    drained-ShardInv s v (record s.pool { drain_threads = true }) (λ e. ground arith) refl refl refl
      refl refl (c, u) (shard_drain-done c s.pool u h)
ShardStep-ShardInv s t v (control_redrains r a h) =
    drained-ShardInv s v s.pool (λ e. ground arith) refl refl refl refl refl r (sym h)
ShardStep-ShardInv s t v (control_stops c u a h) =
    let (b, k) = with_wq-done _ c _ u h in
    rw (b, k) (controlled s v _ _ refl refl refl refl (λ _ e. v.quiet (λ x. ground arith) e))
ShardStep-ShardInv s t v (control_joins a g) = joins-ShardInv s v g a

pub new_shards-ShardInv : (n ti sti : ℕ) → ShardInv (new_shards n ti sti)
unfolding construct set_wq
new_shards-ShardInv n ti sti = record {
  pausing_count =
      ap (λ x. x % 2 ^ 32) (sym (total-eq-zero pausing_one 0 (λ i. absent) (λ i h. refl)));
  draining_count =
      ap (λ x. x % 2 ^ 32) (sym (total-eq-zero draining_one 0 (λ i. absent) (λ i h. refl)));
  alive = omega (arith, total-eq-zero live_one 0 (λ i. absent) (λ i h. refl));
  bounded = omega arith;
  future = λ i h. refl;
  owned = λ i h. absurd (omega arith);
  quiet = λ c e. ground arith;
}

pub ShardReach-ShardInv : (s t : Shards) → ShardInv s → ShardReach s t → ShardInv t
ShardReach-ShardInv s t v at_once = v
ShardReach-ShardInv s t v (and_then {t = u} r k) =
    ShardStep-ShardInv u t (ShardReach-ShardInv s u v r) k
