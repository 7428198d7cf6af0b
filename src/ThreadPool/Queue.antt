-- ===== src/ThreadPool/Queue.antt =====
-- ThreadPool::WorkQueueVal: an item goes from the user's container to `to_process`, to the worker,
-- to `to_finish`, and out. Each function here is one section under the lock of the queue.
use blue_thread.Prelude.{
  ℕ, Bool, true, false, not, ◌&&◌, ◌||◌, List, [], ◌∷◌, ◌++◌, Outcome, done, aborted, if◌then◌else◌,
}

-- The functions that a user of WorkQueueVal<T, U> overrides.
pub record Container (Q T U : Type 0) : Type 0 where
  pub enqueue : T → Q → Q
  pub enqueue_front : T → Q → Q
  pub empty : Q → Bool
  pub dequeue : Q → U × Q
  -- _clear: what it throws away, and what stays; WorkQueueVal's own throws nothing away.
  pub clear : Q → List U × Q

-- `processed` and `finished` are the calls of _process and _process_finish, the last one first,
-- `dropped` is what _clear threw away, and `emptied` says that it once threw away all there was.
pub record WorkQueue (Q U : Type 0) : Type 0 where
  pub grace : ℕ
  pub suicide_grace : ℕ
  pub items : Q
  pub to_process : List U
  pub to_finish : List U
  pub processed : List U
  pub finished : List U
  pub dropped : List U
  pub emptied : Bool

module _ {Q T U : Type 0} (p : Container Q T U) where
  -- The result 0 is false.
  unfoldable pub void_dequeue : WorkQueue Q U → Bool × WorkQueue Q U
  void_dequeue q =
      if p.empty q.items
      then (false, q)
      else let (u, rest) = p.dequeue q.items in
        (true, record q { items = rest; to_process = q.to_process ++ (u ∷ []) })

  -- _clear()
  unfoldable pub clear_queue : WorkQueue Q U → WorkQueue Q U
  clear_queue q =
      let (gone, rest) = p.clear q.items in
      record q {
        items = rest;
        dropped = gone ++ q.dropped;
        emptied = q.emptied || (not (p.empty q.items) && p.empty rest);
      }

module _ {Q U : Type 0} where
  unfoldable pub pop_process : WorkQueue Q U → List U → Outcome (WorkQueue Q U) U
  pop_process q [] = aborted q
  pop_process q (u ∷ us) = done u (record q { to_process = us })

  -- _void_process up to the call of _process.
  unfoldable pub void_process_begin : WorkQueue Q U → Outcome (WorkQueue Q U) U
  unfolding pop_process
  void_process_begin q = pop_process q q.to_process

  -- The call of _process, and the rest of _void_process.
  unfoldable pub void_process_end : U → WorkQueue Q U → WorkQueue Q U
  void_process_end u q = record q {
    to_finish = q.to_finish ++ (u ∷ []);
    processed = u ∷ q.processed;
  }

  unfoldable pub pop_finish : WorkQueue Q U → List U → Outcome (WorkQueue Q U) (Unit {0})
  pop_finish q [] = aborted q
  pop_finish q (u ∷ us) = done tt (record q { to_finish = us; finished = u ∷ q.finished })

  -- _void_process_finish, with the call of _process_finish.
  unfoldable pub void_process_finish : WorkQueue Q U → Outcome (WorkQueue Q U) (Unit {0})
  unfolding pop_finish
  void_process_finish q = pop_finish q q.to_finish
