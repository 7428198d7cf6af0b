-- ===== src/ThreadPool/Invariant/Preserved.antt =====
-- Every step keeps the invariant, and a new pool has it.
use blue_thread.Prelude.{
  ℕ, zero, suc, ◌+◌, ◌-◌, ◌≡◌, refl, sym, ap, ◌∙◌, inl, inr, ◌∷◌, pos, Bool-cases, ◌==◌, length,
  total, total_grows, total-eq-zero, update, arith,
}
use blue_thread.ThreadPool.Queue.{Container, WorkQueue}
use blue_thread.ThreadPool.Scan.{WorkerAt, unborn, started}
use blue_thread.ThreadPool.Calls.{
  outside, construct, queue, queue_front, add_work_queue, remove_work_queue,
}
use blue_thread.ThreadPool.System.{
  System, Step, worker_starts, worker_wakes, worker_begins, worker_ends, worker_finishes,
  client_pauses, client_rechecks, client_unpauses, client_drains, client_redrains, client_queues,
  client_queues_front, client_adds, client_removes, client_starts, client_stops, client_joins,
  client_stopped, Reach, here, next, new_system, NothingInWork, start, start_threads,
}
use blue_thread.ThreadPool.Effects.Rounds.{enter-ScanEnds, loop_head-ScanEnds}
use blue_thread.ThreadPool.Invariant.{busy, will_process, will_finish, in_pause, in_drain, Inv}
use blue_thread.ThreadPool.Invariant.WorkerSteps.{round-Inv, begins-Inv, ends-Inv, finishes-Inv}
use blue_thread.ThreadPool.Invariant.Waits.{Fills}
use blue_thread.ThreadPool.Invariant.Rests.{same-MayRest, idle_may_wait}
use blue_thread.ThreadPool.Invariant.Clients.{kept-ClientInv}
use blue_thread.ThreadPool.Invariant.ClientSteps.{
  plain-Inv, fills-Inv, pauses-Inv, rechecks-Inv, unpauses-Inv, drains-Inv, redrains-Inv, stops-Inv,
  stopped-Inv, joins-Inv,
}

no_threads : {U : Type 0} (weight : WorkerAt U → ℕ) → total weight 0 (λ i. unborn) ≡ 0
no_threads weight = total-eq-zero weight 0 (λ i. unborn) (λ i lt. absurd (omega arith))

module _ {Q T U : Type 0} (p : Container Q T U) where
  -- A thread is created.
  birth-Inv :
      {m : ℕ} (s : System Q U)
      → Inv p m s
      → Inv p m (record s {
        pool = record s.pool { threads = s.made ∷ s.pool.threads };
        made = s.made + 1;
        worker = update s.worker s.made started;
      })
  birth-Inv s v =
      let t = record s.pool { threads = s.made ∷ s.pool.threads } in
      record {
        workers = record {
          counted =
              v.workers.counted ∙ ap pos (sym (total_grows busy s.made s.worker started refl));
          to_process = λ q.
              v.workers.to_process q
              ∙ sym (total_grows (will_process q) s.made s.worker started refl);
          to_finish = λ q.
              v.workers.to_finish q
              ∙ sym (total_grows (will_finish q) s.made s.worker started refl);
          future = λ i h. ground (arith, v.workers.future i (omega arith));
          owned = λ i h. elim (Bool-cases (s.made == i)) [
            | inl e ↦ inr (inl (ground arith))
            | inr e ↦ ground (arith, v.workers.owned i (ground arith))
          ];
          born = λ i h. ground (arith, v.workers.born i);
          listed = λ i h. ground (arith, v.workers.listed i);
        };
        clients = kept-ClientInv v.clients t refl refl;
        rests = λ j.
            same-MayRest p s.pool t (s.client j) refl (idle_may_wait p s.pool t refl) (v.rests j);
      }

  start_threads-Inv : {m : ℕ} (k : ℕ) (s : System Q U) → Inv p m s → Inv p m (start_threads k s)
  unfolding start_threads
  start_threads-Inv zero s v = v
  start_threads-Inv (suc k) s v = start_threads-Inv k _ (birth-Inv s v)

  start-Inv : {m : ℕ} (s : System Q U) → Inv p m s → Inv p m (start s)
  unfolding start
  start-Inv s v = start_threads-Inv (s.pool.num_threads - length s.pool.threads) s v

  module _ (law : Fills p) {m : ℕ} where
    pub Step-Inv : (s t : System Q U) → Inv p m s → Step p m s t → Inv p m t
    unfolding queue queue_front add_work_queue remove_work_queue
    Step-Inv s t v (worker_starts i a) = round-Inv p s v i _ (inl a) (enter-ScanEnds p i s.pool)
    Step-Inv s t v (worker_wakes i a) = round-Inv p s v i _ (inr a) (loop_head-ScanEnds p i s.pool)
    Step-Inv s t v (worker_begins i q u x a e) = begins-Inv p s v i q u x a e
    Step-Inv s t v (worker_ends i q u a) = ends-Inv p s v i q u a
    Step-Inv s t v (worker_finishes i q x a e) = finishes-Inv p s v i q x a e
    Step-Inv s t v (client_pauses j h a) = pauses-Inv p s v j h a
    Step-Inv s t v (client_rechecks j b h a) = rechecks-Inv p s v j h b a
    Step-Inv s t v (client_unpauses j h a) = unpauses-Inv p s v j h a
    Step-Inv s t v (client_drains j w h a) = drains-Inv p s v j h w a
    Step-Inv s t v (client_redrains j w b h a) = redrains-Inv p s v j h w b a
    Step-Inv s t v (client_queues q x) =
        fills-Inv p s v q _ refl refl (law.enqueue_fills x (s.pool.queues q).items)
    Step-Inv s t v (client_queues_front q x) =
        fills-Inv p s v q _ refl refl (law.enqueue_front_fills x (s.pool.queues q).items)
    Step-Inv s t v (client_adds q) = plain-Inv p s v _ refl refl refl refl refl
    Step-Inv s t v (client_removes q) = plain-Inv p s v _ refl refl refl refl refl
    Step-Inv s t v client_starts = start-Inv s v
    Step-Inv s t v (client_stops j h a) = stops-Inv p s v j h a
    Step-Inv s t v (client_joins j h a g) = joins-Inv p s v j h a g
    Step-Inv s t v (client_stopped j h a) = stopped-Inv p s v j h a

    Reach-Inv : (s t : System Q U) → Inv p m s → Reach p m s t → Inv p m t
    Reach-Inv s t v here = v
    Reach-Inv s t v (next {t = u} r k) = Step-Inv u t (Reach-Inv s u v r) k

    new_system-Inv :
        (queues : ℕ → WorkQueue Q U) (n grace suicide_grace : ℕ)
        → NothingInWork queues
        → Inv p m (new_system queues n grace suicide_grace)
    unfolding construct
    new_system-Inv queues n grace suicide_grace h = record {
      workers = record {
        counted = ap pos (sym (no_threads busy));
        to_process = λ q. ap length (h q).0 ∙ sym (no_threads (will_process q));
        to_finish = λ q. ap length (h q).1 ∙ sym (no_threads (will_finish q));
        future = λ i lt. refl;
        owned = λ i lt. absurd (omega arith);
        born = λ i lt. absurd (omega arith);
        listed = λ i h. absurd h;
      };
      clients = record {
        pauses = ap pos (sym (total-eq-zero in_pause m (λ j. outside) (λ j lt. refl)));
        drains = ap pos (sym (total-eq-zero in_drain m (λ j. outside) (λ j lt. refl)));
        strangers = λ j h. refl;
      };
      rests = λ j. tt;
    }

    -- Every state that a new pool and its threads reach has the invariant: `processing`,
    -- `to_process` and `to_finish` agree with where the workers stand, `_pause` and `_draining`
    -- with where the callers stand, every worker that has not left is in `_threads`, a caller
    -- that holds the pool finds nothing in work, and a caller that waits with no notification has
    -- a reason to wait, or waits in drain() for a queue of which a _clear called by stop() threw
    -- away the last items. Items put in a container make it not empty, and the queues start with
    -- nothing in work.
    pub new-Inv :
        (queues : ℕ → WorkQueue Q U) (n grace suicide_grace : ℕ)
        → NothingInWork queues
        → (s : System Q U) → Reach p m (new_system queues n grace suicide_grace) s
        → Inv p m s
    new-Inv queues n grace suicide_grace h s r =
        Reach-Inv _ s (new_system-Inv queues n grace suicide_grace h) r
