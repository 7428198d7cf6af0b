-- ===== src/ThreadPool/Effects/Items.antt =====
-- What worker() does with an item that it has taken.
use blue_thread.Prelude.{ℕ, ◌≡◌, refl, List, [], ◌∷◌, done, aborted}
use blue_thread.Prelude.Integer.{decrement}
use blue_thread.ThreadPool.{Pool, reset_timeout}
use blue_thread.ThreadPool.Queue.{Container, void_process_begin, void_process_finish}
use blue_thread.ThreadPool.Scan.{with_queue, beat, begin_item, finish_item, put_queue}
use blue_thread.ThreadPool.Effects.{Works, popped, popped_finish}

module _ {Q T U : Type 0} (p : Container Q T U) where
  -- _void_process does not fail if there is an item to process.
  pub begin_item-done :
      (i q : ℕ) (u : U) (us : List U) (s : Pool Q U)
      → (s.queues q).to_process ≡ u ∷ us
      → (t : Pool Q U) × (begin_item p i q s ≡ done u t)
        × (t.processing ≡ s.processing)
        × Works q (popped us (s.queues q)) s t
  unfolding begin_item void_process_begin put_queue
  begin_item-done i q u us s e = (
    with_queue q (popped us (s.queues q))
        (beat i (reset_timeout (s.queues q).grace (s.queues q).suicide_grace) s),
    rw e refl,
    refl,
    record {
      kept = record { paused = refl; draining = refl; threads = refl; stop = refl };
      queues = refl;
    },
  )

  pub finish_item-done :
      (q : ℕ) (u : U) (us : List U) (s : Pool Q U)
      → (s.queues q).to_finish ≡ u ∷ us
      → (t : Pool Q U) × (finish_item p q s ≡ done tt t)
        × (t.processing ≡ decrement s.processing)
        × Works q (popped_finish u us (s.queues q)) s t
  unfolding finish_item void_process_finish put_queue
  finish_item-done q u us s e = (
    record (with_queue q (popped_finish u us (s.queues q)) s) {
      processing = decrement s.processing;
    },
    rw e refl,
    refl,
    record {
      kept = record { paused = refl; draining = refl; threads = refl; stop = refl };
      queues = refl;
    },
  )

  pub begin_item_empty :
      (i q : ℕ) (s : Pool Q U)
      → (s.queues q).to_process ≡ []
      → (t : Pool Q U) × (begin_item p i q s ≡ aborted t)
  unfolding begin_item void_process_begin put_queue
  begin_item_empty i q s e = (
    with_queue q (s.queues q)
        (beat i (reset_timeout (s.queues q).grace (s.queues q).suicide_grace) s),
    rw e refl,
  )

  pub finish_item_empty :
      (q : ℕ) (s : Pool Q U)
      → (s.queues q).to_finish ≡ []
      → (t : Pool Q U) × (finish_item p q s ≡ aborted t)
  unfolding finish_item void_process_finish put_queue
  finish_item_empty q s e = (with_queue q (s.queues q) s, rw e refl)
