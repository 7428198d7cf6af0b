-- ===== src/Lockdep/Calls.antt =====
-- The functions that mutexes call: lockdep_will_lock, lockdep_locked, lockdep_will_unlock and
-- lockdep_unregister. Each holds `lockdep_mutex` throughout, so it is one step. `tid` is
-- pthread_self(), `bt` the stack that `new BackTrace(0)` captures.
use mathlib.Core.Option.{get_or}
use blue_thread.Prelude.{
  ℕ, zero, suc, ◌/◌, Bool, true, false, Option, none, some, List, [], ◌∷◌, String, ℤ, pos, negsuc,
  update, update_name, if◌then◌else◌, ◌==◌, M, done, diverged, ◌>>=◌, ◌>>◌, get, pure, abort,
  assert, modify,
}
use blue_thread.Prelude.Integer.{decrement, is_zero}
use blue_thread.BackTrace.{BackTrace}
use blue_thread.Lockdep.Bits.{set_bit, clear_bit, set_bit, fill}
use blue_thread.Lockdep.State.{Lockdep, max_locks, edge, insert_held, erase_held}
use blue_thread.Lockdep.Ids.{known_id}
use blue_thread.Lockdep.Follow.{does_follow}

-- The new edge p->first -> id.
unfoldable pub add_edge : ℕ → ℕ → BackTrace → Lockdep → Lockdep
add_edge h id bt s = record s {
  lock_tree = update s.lock_tree h (set_bit (s.lock_tree h) id);
  lock_tree_backtrace =
      update s.lock_tree_backtrace h (update (s.lock_tree_backtrace h) id (some bt));
}

-- The `else` of the loop's body, on the answer of does_follow(id, p->first).
unfoldable pub judge : ℕ → ℕ → BackTrace → Option Bool → M Lockdep (Unit {0})
judge h id bt none s = diverged
judge h id bt (some true) s = abort s
judge h id bt (some false) s = done tt (add_edge h id bt s)

-- The body of the loop over the locks held. A path visits each id at most once, so a recursion as
-- deep as there are ids, and one more, is enough.
unfoldable pub check_one : ℕ → ℕ → BackTrace → M Lockdep (Unit {0})
check_one h id bt s =
    if h == id
    then abort s
    else if edge s.lock_tree h id
    then done tt s
    else judge h id bt (does_follow (suc s.current_max_id) s.lock_tree s.current_max_id id h) s

unfoldable pub check_held : List (ℕ × BackTrace) → ℕ → BackTrace → M Lockdep (Unit {0})
check_held [] id bt = pure tt
check_held ((h, _) ∷ rest) id bt = check_one h id bt >> check_held rest id bt

unfoldable pub lockdep_will_lock : String → ℤ → ℕ → BackTrace → M Lockdep ℤ
lockdep_will_lock name id tid bt = do
  k ← known_id name id
  s ← get
  check_held (s.held_locks tid) k bt
  pure (pos k)

unfoldable pub hold : ℕ → ℕ → BackTrace → Lockdep → Lockdep
hold tid id bt s = record s {
  held_locks = update s.held_locks tid (insert_held id bt (s.held_locks tid));
}

unfoldable pub lockdep_locked : String → ℤ → ℕ → BackTrace → M Lockdep ℤ
lockdep_locked name id tid bt = do k ← known_id name id; modify (hold tid k bt); pure (pos k)

unfoldable pub lockdep_will_unlock : String → ℤ → ℕ → M Lockdep ℤ
lockdep_will_unlock name (negsuc n) tid = do assert (n == 0); pure (negsuc n)
lockdep_will_unlock name (pos id) tid = do
  modify (λ s. record s { held_locks = update s.held_locks tid (erase_held id (s.held_locks tid)) })
  pure (pos id)

-- One round of the loop in lockdep_unregister, and the loop `k` rounds before its end.
unfoldable pub cut_round : ℕ → ℕ → Lockdep → Lockdep
cut_round id i s =
    let row = update s.lock_tree_backtrace id (update (s.lock_tree_backtrace id) i none) in
    record s {
      lock_tree_backtrace = update row i (update (row i) id none);
      lock_tree = update s.lock_tree i (clear_bit (s.lock_tree i) id);
    }

unfoldable pub cut_loop : ℕ → ℕ → ℕ → Lockdep → Lockdep
cut_loop zero id i s = s
cut_loop (suc k) id i s = cut_loop k id (suc i) (cut_round id i s)

-- The edges of an id that has a name, and its name.
unfoldable pub forget : ℕ → Option String → Lockdep → Lockdep
forget id none s = s
forget id (some name) s =
    let t = record s {
      lock_tree = update s.lock_tree id (fill (s.lock_tree id) (max_locks / 8) 0);
    } in
    let u = cut_loop s.current_max_id id 0 t in
    record u {
      id_to_name_map = update u.id_to_name_map id none;
      name_to_id_map = update_name u.name_to_id_map name none;
    }

-- The id goes back to the bitmap.
unfoldable pub free_id : ℕ → Lockdep → Lockdep
free_id id s = record s {
  lock_ref = update s.lock_ref id none;
  lock_ids_bitmap = set_bit s.lock_ids_bitmap id;
  last_free_lock_id = pos id;
}

-- `ref` is the count after `--ref`.
unfoldable pub drop_ref : ℕ → ℤ → Lockdep → Lockdep
drop_ref id ref s =
    let t = record s { lock_ref = update s.lock_ref id (some ref) } in
    if is_zero ref then free_id id (forget id (t.id_to_name_map id) t) else t

unfoldable pub lockdep_unregister : ℤ → M Lockdep (Unit {0})
lockdep_unregister (negsuc n) = pure tt
lockdep_unregister (pos id) =
    modify (λ s. drop_ref id (decrement (get_or (s.lock_ref id) (pos 0))) s)
