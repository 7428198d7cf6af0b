-- ===== src/ThreadPool/Example.antt =====
-- A run of a pool with one queue, whose container is a list that is served in order.
use blue_thread.Prelude.{
  ℕ, ◌+◌, ◌≡◌, refl, true, false, List, [], ◌∷◌, ◌++◌, some, is_empty, sum, sum-append, Outcome,
  done, arith,
}
use blue_thread.Prelude.Integer.{decrement}
use blue_thread.ThreadPool.Queue.{
  Container, WorkQueue, void_dequeue, pop_process, void_process_begin, void_process_end, pop_finish,
  void_process_finish,
}
use blue_thread.ThreadPool.Scan.{
  working, worked, exited, join_old_threads, wait_for_work, tried, try_at, try_queues, after_tries,
  look_for_work, loop_head, enter, put_queue, begin_item, end_item, finish_item, must_notify,
}
use blue_thread.ThreadPool.Calls.{
  wake, construct, pause_check, pause, queue, add_work_queue, stop_begin, stopping, pausing,
  holding, outside, drain_check, has_items,
}
use blue_thread.ThreadPool.System.{
  System, worker_moves, client_moves, notify, start_threads, start, new_system, Reach, here, next,
  worker_starts, worker_begins, worker_ends, worker_finishes, client_pauses, client_rechecks,
  client_adds, client_queues, client_starts, client_stops,
}
use blue_thread.ThreadPool.Invariant.Waits.{Fills}
use blue_thread.ThreadPool.Ledger.{Stores}

abbrev pub take_first : List ℕ → ℕ × List ℕ
take_first [] = (0, [])
take_first (x ∷ xs) = (x, xs)

abbrev pub fifo : Container (List ℕ) ℕ ℕ
fifo = record {
  enqueue = λ x c. c ++ (x ∷ []);
  enqueue_front = λ x c. x ∷ c;
  empty = is_empty;
  dequeue = take_first;
  clear = λ c. (c, []);
}

not_empty_after : (c : List ℕ) (x : ℕ) → is_empty (c ++ (x ∷ [])) ≡ false
not_empty_after [] x = refl
not_empty_after (y ∷ ys) x = refl

pub fifo-Fills : Fills fifo
fifo-Fills = record {
  enqueue_fills = λ x c. not_empty_after c x;
  enqueue_front_fills = λ x c. refl;
}

takes_first :
    (f : ℕ → ℕ) (c : List ℕ)
    → is_empty c ≡ false
    → sum f c ≡ f (take_first c).0 + sum f (take_first c).1
takes_first f [] e = ground arith
takes_first f (x ∷ xs) e = refl

nothing_there : (c : List ℕ) → is_empty c ≡ true → c ≡ []
nothing_there [] e = refl
nothing_there (x ∷ xs) e = ground arith

pub fifo-Stores : Stores fifo (λ c. c) (λ x. x)
fifo-Stores = record {
  enqueue_stores = λ f x c. omega (arith, sum-append f c (x ∷ []));
  enqueue_front_stores = λ f x c. refl;
  dequeue_takes = takes_first;
  clear_drops = λ f c. omega arith;
  empty_stores = nothing_there;
}

abbrev pub empty_queue : WorkQueue (List ℕ) ℕ
empty_queue = record {
  grace = 10;
  suicide_grace = 20;
  items = [];
  to_process = [];
  to_finish = [];
  processed = [];
  finished = [];
  dropped = [];
  emptied = false;
}

abbrev pub empty_queues : ℕ → WorkQueue (List ℕ) ℕ
empty_queues q = empty_queue

abbrev pub one_item : WorkQueue (List ℕ) ℕ
one_item = record empty_queue { items = 7 ∷ [] }

-- The state that a call leaves.
abbrev after : {S A : Type 0} → Outcome S A → S → S
after (done x t) s = t
after _ s = s

abbrev pub at_start : System (List ℕ) ℕ
at_start = new_system empty_queues 1 30 60

abbrev pub added : System (List ℕ) ℕ
added = record at_start { pool = add_work_queue 0 at_start.pool }

abbrev pub filled : System (List ℕ) ℕ
filled = record added { pool = queue fifo 0 7 added.pool }

abbrev pub running : System (List ℕ) ℕ
running = start filled

abbrev pub taken : System (List ℕ) ℕ
taken = worker_moves 0 (enter fifo 0 running.pool) running

-- The worker has the item, and a thread waits in pause().
abbrev pub paused : System (List ℕ) ℕ
paused = client_moves 0 (pause taken.pool) taken

unfoldable pub pause_run : Reach fifo 2 at_start paused
unfolding construct add_work_queue queue start start_threads enter loop_head look_for_work
    try_queues try_at tried void_dequeue after_tries wait_for_work join_old_threads pause
    pause_check
pause_run =
    next
      (next (next (next (next here (client_adds 0)) (client_queues 0 7)) client_starts)
        (worker_starts 0 refl))
      (client_pauses 0 (omega arith) refl)

abbrev pub begun : System (List ℕ) ℕ
begun = worker_moves 0 (working 0 7, after (begin_item fifo 0 0 paused.pool) paused.pool) paused

abbrev pub ended : System (List ℕ) ℕ
ended = worker_moves 0 (worked 0, end_item fifo 0 7 begun.pool) begun

abbrev pub finished : System (List ℕ) ℕ
finished =
    let t = after (finish_item fifo 0 ended.pool) ended.pool in
    worker_moves 0 (loop_head fifo 0 t)
      (record ended { client = notify (must_notify fifo t) ended.client })

abbrev pub held : System (List ℕ) ℕ
held = client_moves 0 (pause_check finished.pool, finished.pool) finished

unfoldable pub held_run : Reach fifo 2 at_start held
unfolding construct add_work_queue queue start start_threads enter loop_head look_for_work
    try_queues try_at tried void_dequeue after_tries wait_for_work join_old_threads pause
    pause_check begin_item void_process_begin pop_process put_queue end_item void_process_end
    finish_item void_process_finish pop_finish must_notify notify wake stop_begin
held_run =
    next
      (next (next (next pause_run (worker_begins 0 0 7 _ refl refl)) (worker_ends 0 0 7 refl))
        (worker_finishes 0 0 _ refl refl))
      (client_rechecks 0 true (omega arith) refl)

-- A thread stops the pool while the worker has the item.
abbrev pub stopped : System (List ℕ) ℕ
stopped = client_moves 0 (stopping, stop_begin taken.pool) taken

pub stop_run : Reach fifo 2 at_start stopped
unfolding construct add_work_queue queue start start_threads enter loop_head look_for_work
    try_queues try_at tried void_dequeue after_tries wait_for_work join_old_threads pause
    pause_check begin_item void_process_begin pop_process put_queue end_item void_process_end
    finish_item void_process_finish pop_finish must_notify notify wake stop_begin
stop_run =
    next
      (next (next (next (next here (client_adds 0)) (client_queues 0 7)) client_starts)
        (worker_starts 0 refl))
      (client_stops 0 (omega arith) refl)

abbrev pub last_begun : System (List ℕ) ℕ
last_begun =
    worker_moves 0 (working 0 7, after (begin_item fifo 0 0 stopped.pool) stopped.pool) stopped

abbrev pub last_ended : System (List ℕ) ℕ
last_ended = worker_moves 0 (worked 0, end_item fifo 0 7 last_begun.pool) last_begun

abbrev pub last_finished : System (List ℕ) ℕ
last_finished =
    let t = after (finish_item fifo 0 last_ended.pool) last_ended.pool in
    worker_moves 0 (loop_head fifo 0 t)
      (record last_ended { client = notify (must_notify fifo t) last_ended.client })

pub exit_run : Reach fifo 2 at_start last_finished
unfolding construct add_work_queue queue start start_threads enter loop_head look_for_work
    try_queues try_at tried void_dequeue after_tries wait_for_work join_old_threads pause
    pause_check begin_item void_process_begin pop_process put_queue end_item void_process_end
    finish_item void_process_finish pop_finish must_notify notify wake stop_begin
exit_run =
    next (next (next stop_run (worker_begins 0 0 7 _ refl refl)) (worker_ends 0 0 7 refl))
      (worker_finishes 0 0 _ refl refl)

-- Where the threads stand in these states, and what is left for drain() there.
pub standing :
    (paused.client 0 ≡ pausing false)
    × (held.client 0 ≡ holding)
    × (stopped.client 0 ≡ stopping)
    × (stopped.pool.stop ≡ true)
    × (last_finished.worker 0 ≡ exited)
    × (last_finished.pool.threads ≡ 0 ∷ [])
    × (filled.pool.stop ≡ false)
unfolding construct add_work_queue queue start start_threads enter loop_head look_for_work
    try_queues try_at tried void_dequeue after_tries wait_for_work join_old_threads pause
    pause_check begin_item void_process_begin pop_process put_queue end_item void_process_end
    finish_item void_process_finish pop_finish must_notify notify wake stop_begin
standing = (refl, refl, refl, refl, refl, refl, refl)

pub drain_leaves_held :
    drain_check fifo (some 0) held.pool
    ≡ (outside, record held.pool { draining = decrement held.pool.draining })
unfolding construct add_work_queue queue start start_threads enter loop_head look_for_work
    try_queues try_at tried void_dequeue after_tries wait_for_work join_old_threads pause
    pause_check begin_item void_process_begin pop_process put_queue end_item void_process_end
    finish_item void_process_finish pop_finish must_notify notify wake stop_begin drain_check
    has_items
drain_leaves_held = refl
