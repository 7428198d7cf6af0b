-- ===== src/ShardedThreadPool/Invariant/Workers.antt =====
-- The steps of the workers of a sharded pool.
use native.Mathlib.Nat.{mod-le}
use blue_thread.Prelude.{
  ℕ, ◌+◌, ◌%◌, ◌^◌, ◌≤◌, ◌<◌, ◌≡◌, ◌≢◌, refl, sym, ap, ◌∙◌, ◌⊎◌, inl, inr, Bool, true, false,
  Bool-cases, ltb, ltb→lt, if◌then◌else◌, length, total, total-update, total-squeeze, update, arith,
}
use blue_thread.ShardedThreadPool.{
  ShardedPool, ShardAt, absent, created, at_loop, at_pause, to_pause, in_pause, at_drain, to_drain,
  in_drain, at_process, in_process, left, reset_beat, plus_one, minus_one, pause_loop, pause_enter,
  drain_loop, drain_enter,
}
use blue_thread.ShardedThreadPool.Steps.{Shards, shard_moves}
use blue_thread.ShardedThreadPool.Invariant.{pausing_one, draining_one, live_one, ShardInv}

pausing-le-live : (a : ShardAt) → pausing_one a ≤ live_one a
pausing-le-live a = ground arith

live-le-one : (a : ShardAt) → live_one a ≤ 1
live-le-one a = ground arith

only_pausing : (a : ShardAt) → pausing_one a ≡ 1 → a ≡ in_pause
only_pausing in_pause e = refl
only_pausing absent e = absurd (omega arith)
only_pausing created e = absurd (omega arith)
only_pausing at_loop e = absurd (omega arith)
only_pausing at_pause e = absurd (omega arith)
only_pausing to_pause e = absurd (omega arith)
only_pausing at_drain e = absurd (omega arith)
only_pausing to_drain e = absurd (omega arith)
only_pausing in_drain e = absurd (omega arith)
only_pausing at_process e = absurd (omega arith)
only_pausing in_process e = absurd (omega arith)
only_pausing left e = absurd (omega arith)

draining-le-live : (a : ShardAt) → draining_one a ≤ live_one a
draining-le-live a = ground arith

pub pause_loop_cases :
    (i : ℕ) (s : ShardedPool)
    → ((pause_loop i s ≡ (in_pause, reset_beat i s)) × (s.pause_threads ≡ true))
      ⊎ ((pause_loop i s ≡ (at_drain, record s { num_paused = minus_one s.num_paused }))
          × (s.pause_threads ≡ false))
unfolding pause_loop
pause_loop_cases i s = elim (Bool-cases s.pause_threads) [
  | inl e ↦ inl (
    ap
        (λ b.
          if b
          then (in_pause, reset_beat i s)
          else (at_drain, record s { num_paused = minus_one s.num_paused }))
        e,
    e,
  )
  | inr e ↦ inr (
    ap
        (λ b.
          if b
          then (in_pause, reset_beat i s)
          else (at_drain, record s { num_paused = minus_one s.num_paused }))
        e,
    e,
  )
]

pub drain_loop_cases :
    (i : ℕ) (s : ShardedPool)
    → (drain_loop i s ≡ (in_drain, reset_beat i s))
      ⊎ (drain_loop i s ≡ (at_process, record s { num_drained = minus_one s.num_drained }))
unfolding drain_loop
drain_loop_cases i s = elim (Bool-cases s.drain_threads) [
  | inl e ↦ inl (
      ap
        (λ b.
          if b
          then (in_drain, reset_beat i s)
          else (at_process, record s { num_drained = minus_one s.num_drained }))
        e)
  | inr e ↦ inr (
      ap
        (λ b.
          if b
          then (in_drain, reset_beat i s)
          else (at_process, record s { num_drained = minus_one s.num_drained }))
        e)
]

module _ (s : Shards) (v : ShardInv s) where
  -- If the count is that of the threads, every worker that has not left is among those counted.
  pub all_paused :
      s.pool.num_threads ≡ s.pool.num_paused
      → (i : ℕ) → i < s.made
      → pausing_one (s.worker i) ≡ live_one (s.worker i)
  all_paused e = total-squeeze pausing_one live_one s.made s.worker pausing-le-live (
      omega (
        arith,
        v.pausing_count,
        v.alive,
        v.bounded,
        mod-le (total pausing_one s.made s.worker) (2 ^ 32),
      ))

  pub all_drained :
      s.pool.num_threads ≡ s.pool.num_drained
      → (i : ℕ) → i < s.made
      → draining_one (s.worker i) ≡ live_one (s.worker i)
  all_drained e = total-squeeze draining_one live_one s.made s.worker draining-le-live (
      omega (
        arith,
        v.draining_count,
        v.alive,
        v.bounded,
        mod-le (total draining_one s.made s.worker) (2 ^ 32),
      ))

  module _ (i : ℕ) (live : live_one (s.worker i) ≡ 1) where
    lt : i < s.made
    lt = elim (Bool-cases (ltb i s.made)) [
      | inl e ↦ ltb→lt i s.made e
      | inr e ↦ ground (arith, v.future i (ground arith))
    ]

    -- One worker moves; the flag is not set, or the worker is in the wait of the pause loop.
    moved :
        (b : ShardAt) (t : ShardedPool)
        → b ≢ absent
        → t.num_paused ≡ total pausing_one s.made (update s.worker i b) % 2 ^ 32
        → t.num_drained ≡ total draining_one s.made (update s.worker i b) % 2 ^ 32
        → t.threads ≡ s.pool.threads
        → t.num_threads ≡ s.pool.num_threads
        → t.pause_threads ≡ s.pool.pause_threads
        → (s.pool.pause_threads ≡ true → s.worker i ≡ in_pause → t.num_paused ≡ s.pool.num_paused)
        → ShardInv (shard_moves i (b, t) s)
    moved b t ne n d e f g q = record {
      pausing_count = n;
      draining_count = d;
      alive = rw (ap length e) (
          omega
            (arith, total-update live_one s.made i s.worker b lt, live, live-le-one b, v.alive));
      bounded = rw (e, f) v.bounded;
      future = λ j h. ground (arith, v.future j h);
      owned = λ j h. rw e (ground (arith, v.owned j h));
      quiet = λ c h.
          let set : s.pool.pause_threads ≡ true = sym g ∙ h in
          let full = v.quiet c set in
          f ∙ full ∙ sym (q set (only_pausing (s.worker i) (all_paused full i lt ∙ live)));
    }

    -- A worker moves between places that are not counted.
    pub plain :
        (b : ShardAt) (t : ShardedPool)
        → b ≢ absent
        → (pausing_one b ≡ pausing_one (s.worker i)) × (draining_one b ≡ draining_one (s.worker i))
        → (t.num_paused ≡ s.pool.num_paused) × (t.num_drained ≡ s.pool.num_drained)
        → t.threads ≡ s.pool.threads
        → t.num_threads ≡ s.pool.num_threads
        → t.pause_threads ≡ s.pool.pause_threads
        → ShardInv (shard_moves i (b, t) s)
    plain b t ne h k e f g =
        moved b t ne
          (k.0
            ∙ v.pausing_count
            ∙ ap (λ x. x % 2 ^ 32)
                (omega (arith, h.0, total-update pausing_one s.made i s.worker b lt)))
          (k.1
            ∙ v.draining_count
            ∙ ap (λ x. x % 2 ^ 32)
                (omega (arith, h.1, total-update draining_one s.made i s.worker b lt)))
          e f g (λ _ _. k.0)

    -- The sums after a move.
    count :
        (weight : ShardAt → ℕ) (b : ShardAt)
        → total weight s.made (update s.worker i b) + weight (s.worker i)
          ≡ total weight s.made s.worker + weight b
    count weight b = total-update weight s.made i s.worker b lt

    pub pause_enter-ShardInv :
        s.worker i ≡ to_pause → ShardInv (shard_moves i (pause_enter i s.pool) s)
    unfolding pause_enter plus_one minus_one
    pause_enter-ShardInv a =
        let t = record s.pool { num_paused = (s.pool.num_paused + 1) % 2 ^ 32 } in
        elim (pause_loop_cases i t) [
          | inl (e, z) ↦ rw e (
              moved in_pause (reset_beat i t) (ground arith)
                (ground (arith, count pausing_one in_pause, v.pausing_count))
                (ground (arith, count draining_one in_pause, v.draining_count)) refl refl refl
                (λ _ c. ground (arith)))
          | inr (e, z) ↦ rw e (
              moved at_drain _ (ground arith)
                (ground (arith, count pausing_one at_drain, v.pausing_count))
                (ground (arith, count draining_one at_drain, v.draining_count)) refl refl refl
                (λ _ c. ground (arith)))
        ]

    pub pause_loop-ShardInv :
        s.worker i ≡ in_pause → ShardInv (shard_moves i (pause_loop i s.pool) s)
    unfolding minus_one
    pause_loop-ShardInv a = elim (pause_loop_cases i s.pool) [
      | inl (e, z) ↦ rw e (
          plain in_pause (reset_beat i s.pool) (ground arith) (rw a refl, rw a refl) (refl, refl)
            refl refl refl)
      | inr (e, z) ↦ rw e (
          moved at_drain _ (ground arith)
            (ground (arith, count pausing_one at_drain, v.pausing_count))
            (ground (arith, count draining_one at_drain, v.draining_count)) refl refl refl
            (λ h c. ground (arith)))
    ]

    pub drain_loop-ShardInv :
        s.worker i ≡ in_drain → ShardInv (shard_moves i (drain_loop i s.pool) s)
    unfolding minus_one
    drain_loop-ShardInv a = elim (drain_loop_cases i s.pool) [
      | inl e ↦ rw e (
          plain in_drain (reset_beat i s.pool) (ground arith) (rw a refl, rw a refl) (refl, refl)
            refl refl refl)
      | inr e ↦ rw e (
          moved at_process _ (ground arith)
            (ground (arith, count pausing_one at_process, v.pausing_count))
            (ground (arith, count draining_one at_process, v.draining_count)) refl refl refl
            (λ _ _. refl))
    ]

    pub drain_enter-ShardInv :
        (e : Bool) → s.worker i ≡ to_drain → ShardInv (shard_moves i (drain_enter e i s.pool) s)
    unfolding drain_enter plus_one minus_one
    drain_enter-ShardInv false a =
        plain at_process s.pool (ground arith) (rw a refl, rw a refl) (refl, refl) refl refl refl
    drain_enter-ShardInv true a =
        let t = record s.pool { num_drained = (s.pool.num_drained + 1) % 2 ^ 32 } in
        elim (drain_loop_cases i t) [
          | inl e ↦ rw e (
              moved in_drain (reset_beat i t) (ground arith)
                (ground (arith, count pausing_one in_drain, v.pausing_count))
                (ground (arith, count draining_one in_drain, v.draining_count)) refl refl refl
                (λ _ _. refl))
          | inr e ↦ rw e (
              moved at_process _ (ground arith)
                (ground (arith, count pausing_one at_process, v.pausing_count))
                (ground (arith, count draining_one at_process, v.draining_count)) refl refl refl
                (λ _ _. refl))
        ]
