-- ===== src/ShardedThreadPool/Invariant/Calls.antt =====
-- What the calls of a sharded pool give where they return.
use blue_thread.Prelude.{
  ℕ, ◌≡◌, ◌≢◌, refl, sym, ap, ◌∙◌, inl, inr, true, Bool-cases, ◌==◌, ==_iff, if◌then◌else◌, Outcome,
  done, aborted,
}
use blue_thread.ThreadPool.{add_worker}
use blue_thread.ShardedThreadPool.{
  beats_on, ShardedPool, ShardAt, at_loop, worker_enter, Controller, free, waiting_pause, with_wq,
  drained_check, shard_drain,
}

pub free_checked : (n k : ℕ) → (if n == k then free else waiting_pause) ≢ waiting_pause → n ≡ k
free_checked n k h = elim (Bool-cases (n == k)) [
  | inl e ↦ (==_iff n k).0 e
  | inr e ↦ absurd (h (rw e refl))
]

-- The start of a worker, with a queue.
pub entered :
    (i : ℕ) (s t : ShardedPool) (a : ShardAt)
    → worker_enter i s ≡ done a t
    → (a ≡ at_loop) × (t ≡ beats_on i add_worker s)
unfolding worker_enter
entered i s t a h = elim (Bool-cases s.wq) [
  | inl e ↦
      let k : done at_loop (beats_on i add_worker s) ≡ done a t =
        sym (ap (λ b. if b then done at_loop (beats_on i add_worker s) else aborted s) e) ∙ h in
      (cc, cc)
  | inr e ↦
      let k : Path (Outcome ShardedPool ShardAt) (aborted s) (done a t) =
        sym (ap (λ b. if b then done at_loop (beats_on i add_worker s) else aborted s) e) ∙ h in
      absurd cc
]

pub with_wq-done :
    (c d : Controller) (s t : ShardedPool) → with_wq c s ≡ done d t → (d ≡ c) × (t ≡ s)
unfolding with_wq
with_wq-done c d s t h = elim (Bool-cases s.wq) [
  | inl e ↦
      let k : done c s ≡ done d t = sym (ap (λ b. if b then done c s else aborted s) e) ∙ h in
      (cc, cc)
  | inr e ↦
      let k : Path (Outcome ShardedPool Controller) (aborted s) (done d t) =
        sym (ap (λ b. if b then done c s else aborted s) e) ∙ h in
      absurd cc
]

pub shard_drain-done :
    (c : Controller) (s t : ShardedPool)
    → shard_drain s ≡ done c t
    → (c, t) ≡ drained_check (record s { drain_threads = true })
unfolding shard_drain
shard_drain-done c s t h =
    let r = drained_check (record s { drain_threads = true }) in
    elim (Bool-cases s.wq) [
      | inl e ↦
          let k : done r.0 r.1 ≡ done c t =
            sym
              (ap (λ b. if b then done r.0 r.1 else aborted (record s { drain_threads = true })) e)
            ∙ h in
          cc
      | inr e ↦
          let k : Path (Outcome ShardedPool Controller)
              (aborted (record s { drain_threads = true })) (done c t) =
            sym
              (ap (λ b. if b then done r.0 r.1 else aborted (record s { drain_threads = true })) e)
            ∙ h in
          absurd cc
    ]

-- What drained_check() changes.
pub drained_check-same :
    (s : ShardedPool)
    → ((drained_check s).1.num_paused ≡ s.num_paused)
      × ((drained_check s).1.num_drained ≡ s.num_drained)
      × ((drained_check s).1.threads ≡ s.threads)
      × ((drained_check s).1.num_threads ≡ s.num_threads)
      × ((drained_check s).1.pause_threads ≡ s.pause_threads)
unfolding drained_check
drained_check-same s = elim (Bool-cases (s.num_threads == s.num_drained)) [
  | inl e ↦ rw e (refl, refl, refl, refl, refl)
  | inr e ↦ rw e (refl, refl, refl, refl, refl)
]
