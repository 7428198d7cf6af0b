-- ===== src/ThreadPool/Tests.antt =====
-- The theorems on the pool, at the runs of Example.
use blue_thread.Prelude.{
  ℕ, ◌+◌, ◌<◌, ◌≡◌, refl, false, List, [], ◌∷◌, In, pos, sum, total, update, inl, done, arith,
}
use blue_thread.Prelude.Integer.{increment}
use blue_thread.ThreadPool.{Pool}
use blue_thread.ThreadPool.Scan.{took, worked, exited, begin_item, finish_item, loop_head}
use blue_thread.ThreadPool.Calls.{holding, joined, construct, add_work_queue, queue}
use blue_thread.ThreadPool.System.{System, Reach, ArePrompted, NothingInWork}
use blue_thread.ThreadPool.Effects.{dequeued}
use blue_thread.ThreadPool.Effects.Finds
use blue_thread.ThreadPool.Invariant.{busy, Inv}
use blue_thread.ThreadPool.Invariant.Preserved
use blue_thread.ThreadPool.Guarantees
use blue_thread.ThreadPool.Ledger.{in_hand}
use blue_thread.ThreadPool.Ledger.Accounts
use blue_thread.ThreadPool.Progress.Returns
use blue_thread.ThreadPool.Example.{
  standing, drain_leaves_held, fifo, fifo-Fills, fifo-Stores, empty_queues, filled, paused,
  pause_run, held, held_run, stopped, stop_run, last_finished, exit_run,
}

empty_start : NothingInWork empty_queues
empty_start q = (refl, refl)

new-Inv_example : Inv fifo 2 paused
new-Inv_example =
    Preserved.new-Inv fifo fifo-Fills empty_queues 1 30 60 empty_start paused pause_run

no_assertion_fails_example :
    (paused.worker 0 ≡ took 0
      → (u : ℕ) × (t : Pool (List ℕ) ℕ) × (begin_item fifo 0 0 paused.pool ≡ done u t))
    × (paused.worker 0 ≡ worked 0
        → (t : Pool (List ℕ) ℕ) × (finish_item fifo 0 paused.pool ≡ done tt t))
no_assertion_fails_example =
    Guarantees.no_assertion_fails fifo fifo-Fills 2 empty_queues 1 30 60 empty_start paused
      pause_run 0 0

holding_quiet_example :
    (held.pool.processing ≡ pos 0)
    × ((i : ℕ) → busy (held.worker i) ≡ 0)
    × ((q : ℕ) → ((held.pool.queues q).to_process ≡ []) × ((held.pool.queues q).to_finish ≡ []))
holding_quiet_example =
    Guarantees.holding_quiet fifo fifo-Fills 2 empty_queues 1 30 60 empty_start held held_run 0
      standing.1

only_worker : (i : ℕ) → In i last_finished.pool.threads → last_finished.worker i ≡ exited
only_worker i h = ground (arith, standing.4, standing.5)

joins_quiet_example :
    ((i : ℕ) → i < last_finished.made → last_finished.worker i ≡ exited)
    × (last_finished.pool.processing ≡ pos 0)
    × ((q : ℕ)
        → ((last_finished.pool.queues q).to_process ≡ [])
          × ((last_finished.pool.queues q).to_finish ≡ []))
joins_quiet_example =
    Guarantees.joins_quiet fifo fifo-Fills 2 empty_queues 1 30 60 empty_start last_finished exit_run
      only_worker

items_accounted_example :
    sum (λ x. x) (paused.pool.queues 0).items
      + sum (λ x. x) (paused.pool.queues 0).to_process
      + sum (λ x. x) (paused.pool.queues 0).to_finish
      + sum (λ x. x) (paused.pool.queues 0).finished
      + total (in_hand (λ x. x) 0) paused.made paused.worker
    ≡ sum (λ x. x) (7 ∷ []) + 0
unfolding pause_run
items_accounted_example =
    Accounts.items_accounted fifo fifo-Fills (λ c. c) (λ x. x) fifo-Stores 2 empty_queues 1 30 60
      empty_start paused pause_run 0 (refl, refl, refl) (λ x. x)

drained_all_example :
    (sum (λ x. x) (held.pool.queues 0).processed ≡ sum (λ x. x) (7 ∷ []) + 0)
    × (sum (λ x. x) (held.pool.queues 0).finished ≡ sum (λ x. x) (7 ∷ []) + 0)
unfolding held_run pause_run
drained_all_example =
    Accounts.drained_all fifo fifo-Fills (λ c. c) (λ x. x) fifo-Stores 2 empty_queues 1 30 60
      empty_start held held_run 0 (refl, refl, refl) _ drain_leaves_held (λ x. x)

loop_head-takes_example :
    (x : ℕ) × (t : Pool (List ℕ) ℕ) × (loop_head fifo 0 filled.pool ≡ (took x, t))
    × (fifo.empty (filled.pool.queues x).items ≡ false)
    × (t.processing ≡ increment filled.pool.processing)
    × (t.queues ≡ update filled.pool.queues x (dequeued fifo (filled.pool.queues x)))
unfolding construct add_work_queue queue
loop_head-takes_example = Finds.loop_head-takes fifo 0 0 filled.pool refl refl (inl refl) refl

pause_returns_example :
    (t : System (List ℕ) ℕ) × (o : Reach fifo 2 paused t) × ArePrompted fifo 2 o
    × (t.client 0 ≡ holding)
pause_returns_example =
    Returns.pause_returns fifo fifo-Fills 2 empty_queues 1 30 60 empty_start paused pause_run 0
      false standing.0

stop_returns_example : (t : System (List ℕ) ℕ) × Reach fifo 2 stopped t × (t.client 0 ≡ joined)
stop_returns_example =
    Returns.stop_returns fifo fifo-Fills 2 empty_queues 1 30 60 empty_start stopped stop_run 0
      standing.2 standing.3
