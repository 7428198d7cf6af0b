-- ===== src/ShardedThreadPool/Guarantees.antt =====
-- What the thread that controls a sharded pool may rely on.
use blue_thread.Prelude.{
  ℕ, ◌<◌, ◌≡◌, ◌≢◌, refl, ◌⊎◌, inl, inr, true, Bool-cases, ltb, ltb→lt, ◌==◌, ==_iff, arith,
}
use blue_thread.ShardedThreadPool.{
  ShardedPool, ShardAt, absent, created, at_loop, at_pause, to_pause, in_pause, at_drain, to_drain,
  in_drain, at_process, in_process, left, Controller, free, waiting_pause, waiting_drain,
  drained_check,
}
use blue_thread.ShardedThreadPool.Steps.{Shards, new_shards, ShardReach}
use blue_thread.ShardedThreadPool.Invariant.{pausing_one, draining_one, live_one, ShardInv}
use blue_thread.ShardedThreadPool.Invariant.Answers.{
  AnswersInv, new_shards-AnswersInv, ShardReach-AnswersInv,
}
use blue_thread.ShardedThreadPool.Invariant.Workers.{all_paused, all_drained}
use blue_thread.ShardedThreadPool.Invariant.Preserved.{new_shards-ShardInv, ShardReach-ShardInv}

-- The worker is in the wait `a`, or it does not run.
abbrev pub RestsIn : ShardAt → ShardAt → Type 0
RestsIn a b = (b ≡ a) ⊎ (b ≡ left) ⊎ (b ≡ absent)

-- The worker is in the wait of the drain loop, with its shard found empty, or it does not run.
abbrev pub FoundEmpty : Shards → ℕ → Type 0
FoundEmpty s i =
    ((s.worker i ≡ in_drain) × (s.answered i ≡ true)) ⊎ (s.worker i ≡ left) ⊎ (s.worker i ≡ absent)

with_answer : (s : Shards) (i : ℕ) → AnswersInv s → RestsIn in_drain (s.worker i) → FoundEmpty s i
with_answer s i v (inl e) = inl (e, v.asked i e)
with_answer s i v (inr h) = inr h

only_pausing_counts : (b : ShardAt) → pausing_one b ≡ live_one b → RestsIn in_pause b
only_pausing_counts absent e = inr (inr refl)
only_pausing_counts left e = inr (inl refl)
only_pausing_counts in_pause e = inl refl
only_pausing_counts created e = absurd (omega arith)
only_pausing_counts at_loop e = absurd (omega arith)
only_pausing_counts at_pause e = absurd (omega arith)
only_pausing_counts to_pause e = absurd (omega arith)
only_pausing_counts at_drain e = absurd (omega arith)
only_pausing_counts to_drain e = absurd (omega arith)
only_pausing_counts in_drain e = absurd (omega arith)
only_pausing_counts at_process e = absurd (omega arith)
only_pausing_counts in_process e = absurd (omega arith)

only_draining_counts : (b : ShardAt) → draining_one b ≡ live_one b → RestsIn in_drain b
only_draining_counts absent e = inr (inr refl)
only_draining_counts left e = inr (inl refl)
only_draining_counts in_drain e = inl refl
only_draining_counts created e = absurd (omega arith)
only_draining_counts at_loop e = absurd (omega arith)
only_draining_counts at_pause e = absurd (omega arith)
only_draining_counts to_pause e = absurd (omega arith)
only_draining_counts in_pause e = absurd (omega arith)
only_draining_counts at_drain e = absurd (omega arith)
only_draining_counts to_drain e = absurd (omega arith)
only_draining_counts at_process e = absurd (omega arith)
only_draining_counts in_process e = absurd (omega arith)

every :
    (s : Shards) (P : ShardAt → Type 0)
    → ShardInv s
    → P absent
    → ((i : ℕ) → i < s.made → P (s.worker i))
    → (i : ℕ) → P (s.worker i)
every s P v a h i = elim (Bool-cases (ltb i s.made)) [
  | inl e ↦ h i (ltb→lt i s.made e)
  | inr e ↦ rw (v.future i (ground arith)) a
]

still_waits : (s t : ShardedPool) → ◌≢◌ {A = Controller × ShardedPool} (waiting_drain, s) (free, t)
still_waits s t e = cc

drained_free : (s t : ShardedPool) → drained_check s ≡ (free, t) → s.num_threads ≡ s.num_drained
unfolding drained_check
drained_free s t e = elim (Bool-cases (s.num_threads == s.num_drained)) [
  | inl d ↦ (==_iff s.num_threads s.num_drained).0 d
  | inr d ↦ absurd (still_waits s t (rw d at e))
]

module _ (n ti sti : ℕ) (s : Shards) (r : ShardReach (new_shards n ti sti) s) where
  sound : ShardInv s
  sound = ShardReach-ShardInv (new_shards n ti sti) s (new_shards-ShardInv n ti sti) r

  -- In every state that a new pool reaches under one controlling thread: while pause_threads is set and
  -- that thread is not in the wait of pause(), that is, from the return of pause() to unpause(),
  -- num_paused is num_threads and every worker is in the wait of its pause loop or has left or does
  -- not exist, so none is in _process().
  pub paused-RestsIn :
      s.controller ≢ waiting_pause
      → s.pool.pause_threads ≡ true
      → (s.pool.num_threads ≡ s.pool.num_paused) × ((i : ℕ) → RestsIn in_pause (s.worker i))
  paused-RestsIn c e =
      let full = sound.quiet c e in
      (
        full,
        every s (RestsIn in_pause) sound (inr (inr refl))
            λ i lt. only_pausing_counts (s.worker i) (all_paused s sound full i lt),
      )

  answers : AnswersInv s
  answers = ShardReach-AnswersInv (new_shards n ti sti) s (new_shards-AnswersInv n ti sti) r

  -- In every state that a new pool reaches under one controlling thread: if the loop of drain() ends
  -- there, every worker is in the wait of its drain loop, and is_shard_empty() has answered true to it
  -- when it was last called for it, or it has left or does not exist, so none is in _process().
  pub drained-RestsIn :
      (t : ShardedPool) → drained_check s.pool ≡ (free, t) → (i : ℕ) → FoundEmpty s i
  drained-RestsIn t e i = with_answer s i answers (
      every s (RestsIn in_drain) sound (inr (inr refl))
        (λ j lt.
          only_draining_counts (s.worker j) (all_drained s sound (drained_free s.pool t e) j lt))
        i)
