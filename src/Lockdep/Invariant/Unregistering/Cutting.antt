-- ===== src/Lockdep/Invariant/Unregistering/Cutting.antt =====
-- The loop of lockdep_unregister that clears a column of `lock_tree`, and the row before it.
use blue_thread.Prelude.{
  ℕ, zero, suc, ◌+◌, ◌≡◌, refl, false, ◌&&◌, arith, if◌then◌else◌, ◌==◌, update, ltb, leb, ◌/◌,
}
use blue_thread.Lockdep.Bits.{test-clear_bit, fill, test-fill_zeros, test-fill_outside}
use blue_thread.Lockdep.State.{Lockdep, edge, max_locks}
use blue_thread.Lockdep.Calls.{cut_round, cut_loop}

edge-cut_round :
    (id i : ℕ) (s : Lockdep) (a b : ℕ)
    → edge (cut_round id i s).lock_tree a b
      ≡ (if i == a then if id == b then false else edge s.lock_tree a b else edge s.lock_tree a b)
unfolding cut_round
edge-cut_round id i s a b = ground (arith, test-clear_bit (s.lock_tree i) id b)

-- The column is cleared in the rows that the loop visits.
pub edge-cut_loop :
    (k id i : ℕ) (s : Lockdep) (a b : ℕ)
    → edge (cut_loop k id i s).lock_tree a b
      ≡ (if id == b && (leb i a && ltb a (i + k)) then false else edge s.lock_tree a b)
unfolding cut_loop
edge-cut_loop zero id i s a b = ground arith
edge-cut_loop (suc k) id i s a b =
    ground (arith, edge-cut_loop k id (suc i) (cut_round id i s) a b, edge-cut_round id i s a b)

pub cut_loop_rest :
    (k id i : ℕ) (s : Lockdep)
    → cut_loop k id i s ≡ record s {
      lock_tree = (cut_loop k id i s).lock_tree;
      lock_tree_backtrace = (cut_loop k id i s).lock_tree_backtrace;
    }
unfolding cut_loop cut_round
cut_loop_rest zero id i s = refl
cut_loop_rest (suc k) id i s = cut_loop_rest k id (suc i) (cut_round id i s)

-- lock_tree with the row of `id` cleared
abbrev pub cut_row : ℕ → Lockdep → Lockdep
cut_row id s = record s {
  lock_tree = update s.lock_tree id (fill (s.lock_tree id) (max_locks / 8) 0);
}

pub edge-cut_row :
    (id : ℕ) (s : Lockdep) (a b : ℕ)
    → edge (cut_row id s).lock_tree a b
      ≡ (if id == a && ltb b max_locks then false else edge s.lock_tree a b)
edge-cut_row id s a b = ground (
  arith,
  test-fill_zeros (s.lock_tree id) (max_locks / 8) b,
  test-fill_outside (s.lock_tree id) (max_locks / 8) 0 b,
)
