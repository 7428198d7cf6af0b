-- ===== src/ThreadPool/Ledger.antt =====
-- Where the items of a queue are: no step loses one or makes one twice.
pub mod Steps
pub mod Runs
pub mod Accounts
use blue_thread.Prelude.{
  ℕ, zero, suc, ◌+◌, ◌<◌, ◌≡◌, refl, Bool, true, false, List, [], ◌∷◌, ◌++◌, ◌==◌, if◌then◌else◌,
  sum, total,
}
use blue_thread.ThreadPool.{Pool}
use blue_thread.ThreadPool.Queue.{Container, WorkQueue}
use blue_thread.ThreadPool.Scan.{WorkerAt, working}
use blue_thread.ThreadPool.System.{
  System, Step, client_queues, client_queues_front, Reach, here, next,
}

module _ {Q T U : Type 0} (p : Container Q T U) where
  -- What a user's container is to do, up to the order of its items: each weight of the items counts
  -- every item as often as it is there. `turn` makes an item of the kind that _dequeue returns.
  pub record Stores (contents : Q → List U) (turn : T → U) : Type 0 where
    pub enqueue_stores :
        (f : U → ℕ) (x : T) (c : Q)
        → sum f (contents (p.enqueue x c)) ≡ f (turn x) + sum f (contents c)
    pub enqueue_front_stores :
        (f : U → ℕ) (x : T) (c : Q)
        → sum f (contents (p.enqueue_front x c)) ≡ f (turn x) + sum f (contents c)
    pub dequeue_takes :
        (f : U → ℕ) (c : Q)
        → p.empty c ≡ false
        → sum f (contents c) ≡ f (p.dequeue c).0 + sum f (contents (p.dequeue c).1)
    pub clear_drops :
        (f : U → ℕ) (c : Q)
        → sum f (contents c) ≡ sum f (p.clear c).0 + sum f (contents (p.clear c).1)
    pub empty_stores : (c : Q) → p.empty c ≡ true → contents c ≡ []

module _ {Q T U : Type 0} {p : Container Q T U} {m : ℕ} where
  -- The items that a step puts in the queue, and those that a run puts in it.
  abbrev pub inserted : ℕ → {s t : System Q U} → Step p m s t → List T
  inserted q (client_queues r x) = if r == q then x ∷ [] else []
  inserted q (client_queues_front r x) = if r == q then x ∷ [] else []
  inserted q _ = []

  abbrev pub all_inserted : ℕ → {s t : System Q U} → Reach p m s t → List T
  all_inserted q here = []
  all_inserted q (next r k) = inserted q k ++ all_inserted q r

module _ {U : Type 0} (f : U → ℕ) where
  -- The item in the hands of a worker.
  abbrev pub in_hand : ℕ → WorkerAt U → ℕ
  in_hand q (working r u) = if r == q then f u else 0
  in_hand q _ = 0

module _ {Q U : Type 0} (contents : Q → List U) (f : U → ℕ) where
  abbrev pub stock : WorkQueue Q U → ℕ
  stock w =
      sum f (contents w.items)
      + sum f w.to_process
      + sum f w.to_finish
      + sum f w.finished
      + sum f w.dropped

  -- All items that the queue was ever given and that it has not lost.
  abbrev pub load : ℕ → System Q U → ℕ
  load q s = stock (s.pool.queues q) + total (in_hand f q) s.made s.worker

  -- The items that _process has returned for are those in `to_finish` and those finished.
  pub record Ledger (q : ℕ) (given : ℕ) (s : System Q U) : Type 0 where
    pub loaded : load q s ≡ given
    pub done_twice :
        sum f (s.pool.queues q).processed
        ≡ sum f (s.pool.queues q).to_finish + sum f (s.pool.queues q).finished
