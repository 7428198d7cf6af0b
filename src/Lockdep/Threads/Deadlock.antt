-- ===== src/Lockdep/Threads/Deadlock.antt =====
-- No set of threads that passed lockdep_will_lock can wait for one another in a circle.
use blue_thread.Prelude.{ℕ, ◌≡◌, true, some, subst, arith}
use blue_thread.Lockdep.State.{edge}
use blue_thread.Lockdep.Follow.{Follows, direct, via}
use blue_thread.Lockdep.Threads.{System, Reach, WaitsFor, WaitChain, last, more}
use blue_thread.Lockdep.Threads.Steps.{SystemInv, Reach-SystemInv}

module _ (s : System) (v : SystemInv s) where
  -- The lock that a thread waits for comes before the one that its holder waits for.
  waits_edge :
      {t u : ℕ} (w : WaitsFor s t u) (j : ℕ)
      → s.waiting u ≡ some j
      → edge s.tables.lock_tree w.0 j ≡ true
  waits_edge {t} {u} (k, on, held) j next_on = v.ordered u j k next_on held

  -- Along a chain of waiting threads the locks waited for form a path in `lock_tree`.
  chain_path :
      {t u : ℕ}
      → WaitChain s t u
      → (j : ℕ) → s.waiting u ≡ some j
      → (k : ℕ) × (s.waiting t ≡ some k) × Follows s.tables.lock_tree k j
  chain_path (last w) j on = (w.0, w.1, direct (waits_edge w j on))
  chain_path (more w rest) j on =
      let (k, next_on, p) = chain_path rest j on in (w.0, w.1, via (waits_edge w k next_on) p)

  chain_start : {t u : ℕ} → WaitChain s t u → (k : ℕ) × (s.waiting t ≡ some k)
  chain_start (last w) = (w.0, w.1)
  chain_start (more w rest) = (w.0, w.1)

-- In every state that threads can reach by calls of lockdep, no chain of threads, each of which
-- waits for a lock that the next one holds, leads back to its start.
pub no_circular_wait : {s : System} → Reach s → (t : ℕ) → ¬ WaitChain s t t
no_circular_wait {s} r t c =
    let v = Reach-SystemInv r in
    let (k, on) = chain_start s v c in
    let (j, on', p) = chain_path s v c k on in
    let same : j ≡ k = ground arith in
    v.inv.acyclic k (subst (λ (x : ℕ). Follows s.tables.lock_tree x k) same p)
