-- ===== src/Lockdep/Invariant/Unregistering.antt =====
-- lockdep_unregister: the last reference takes the name, the edges and the id away.
pub mod Cutting
use mathlib.Core.Option.{get_or}
use blue_thread.Prelude.{
  ℕ, zero, suc, ◌/◌, ◌≤◌, ◌<◌, ◌≡◌, ◌≢◌, ◌↔◌, refl, sym, ap, ◌∙◌, ◌⊎◌, inl, inr, Bool, true, false,
  Option, none, some, String, ℤ, pos, negsuc, arith, Bool-cases, ==_iff, ==_refl, if◌then◌else◌,
  ◌==◌, Outcome, done, threw, aborted, blocked, diverged, update, update_name, eq_iff,
}
use blue_thread.Lockdep.Bits.{Bytes, set_bit, test-set_bit, test-fill_ones}
use blue_thread.Lockdep.State.{Lockdep, edge, max_locks}
use blue_thread.Lockdep.Ids.Alloc.{is_free}
use blue_thread.Lockdep.Calls.{cut_loop, forget, free_id, drop_ref, lockdep_unregister}
use blue_thread.Lockdep.Follow.{Follows, direct, via}
use blue_thread.Lockdep.Invariant.{IsNamed, Holds, Inv}
use blue_thread.Lockdep.Invariant.Checking.{Inv-IsBelow}
use blue_thread.Lockdep.Invariant.Registering.{recount-Inv}
use Cutting.{edge-cut_loop, cut_loop_rest, cut_row, edge-cut_row}

-- While an id has a name the bitmap is in use.
named_ready : (s : Lockdep) (id : ℕ) → Inv s → IsNamed s id → s.lock_ids_bitmap_initialized ≡ true
named_ready s id v (n, e) = elim (Bool-cases s.lock_ids_bitmap_initialized) [
  | inl t ↦ t
  | inr f ↦ absurd (
      ground (
        arith,
        v.used id n e,
        v.below_max id n e,
        v.max_small,
        test-fill_ones s.lock_ids_bitmap (max_locks / 8) id,
      ))
]

-- From `s` to `t` the id and its name are gone: the edges are those between other ids, and nobody
-- else lost an id.
pub record Forgets (s : Lockdep) (id : ℕ) (t : Lockdep) : Type 0 where
  pub inv : Inv t
  pub gone : t.id_to_name_map id ≡ none
  pub others : (i : ℕ) → i ≢ id → t.id_to_name_map i ≡ s.id_to_name_map i
  pub cut :
      (a b : ℕ)
      → (edge t.lock_tree a b ≡ true) ↔ ((edge s.lock_tree a b ≡ true) × (a ≢ id) × (b ≢ id))
  pub freed : is_free t id ≡ true
  pub helds : t.held_locks ≡ s.held_locks

-- The tables after the last reference to `id` is gone; `tree` and `traces` are those after the loop.
module _ (s : Lockdep) (v : Inv s) (id : ℕ) (name : String) (u : Lockdep)
    (named : s.id_to_name_map id ≡ some name) (idle : (t : ℕ) → ¬ Holds (s.held_locks t) id)
    (cut : (a b : ℕ)
      → (edge u.lock_tree a b ≡ true) ↔ ((edge s.lock_tree a b ≡ true) × (a ≢ id) × (b ≢ id))) where
  abbrev after : Lockdep
  after = record s {
    lock_ids_bitmap = set_bit s.lock_ids_bitmap id;
    last_free_lock_id = pos id;
    name_to_id_map = update_name s.name_to_id_map name none;
    id_to_name_map = update s.id_to_name_map id none;
    lock_ref = update (update s.lock_ref id (some (pos 0))) id none;
    lock_tree = u.lock_tree;
    lock_tree_backtrace = u.lock_tree_backtrace;
  }

  bits : (i : ℕ) → is_free after i ≡ (if id == i then true else is_free s i)
  bits i = ground (arith, named_ready s id v (name, named), test-set_bit s.lock_ids_bitmap id i)

  after-IsNamed : (i : ℕ) → i ≢ id → IsNamed s i → IsNamed after i
  after-IsNamed i ne (n, e) = (n, ground arith)

  path_before : {a b : ℕ} → Follows u.lock_tree a b → Follows s.lock_tree a b
  path_before (direct {a} {b} e) = direct ((cut a b).0 e).0
  path_before (via {a} {i} e p) = via ((cut a i).0 e).0 (path_before p)

  after-Inv : Inv after
  after-Inv = record {
    name_id = λ n i h. ground (arith, v.name_id n i, eq_iff name n, v.id_name id name);
    id_name = λ i n h. ground (arith, v.id_name i n, v.id_name id name, eq_iff name n);
    below_max = λ i n h. ground (arith, v.below_max i n);
    max_small = v.max_small;
    used = λ i n h. ground (arith, v.used i n, bits i);
    unused = λ i lt h. ground (arith, v.unused i, bits i);
    last_small = λ i h. ground (arith, v.below_max id name named, v.max_small);
    counted = λ i n h. let (k, d) = v.counted i n (ground arith) in (k, ground arith);
    uncounted = λ i h. ground (arith, v.uncounted i);
    edges_named = λ a b e.
        let (old, na, nb) = (cut a b).0 e in
        let (x, y) = v.edges_named a b old in (after-IsNamed a na x, after-IsNamed b nb y);
    helds_named = λ t i h. after-IsNamed i (λ e. idle t (rw e at h)) (v.helds_named t i h);
    helds_sorted = v.helds_sorted;
    acyclic = λ a p. v.acyclic a (path_before p);
  }

  after-Forgets : Forgets s id after
  after-Forgets = record {
    inv = after-Inv;
    gone = ground arith;
    others = λ i ne. ground arith;
    cut = cut;
    freed = ground (arith, bits id);
    helds = refl;
  }

module _ (s : Lockdep) (v : Inv s) (id : ℕ) where
  abbrev counted_out : Lockdep
  counted_out = record s { lock_ref = update s.lock_ref id (some (pos 0)) }

  abbrev swept : Lockdep
  swept = cut_loop s.current_max_id id 0 (cut_row id counted_out)

  swept_edges :
      (a b : ℕ)
      → (edge swept.lock_tree a b ≡ true) ↔ ((edge s.lock_tree a b ≡ true) × (a ≢ id) × (b ≢ id))
  swept_edges a b = ground (
    arith,
    edge-cut_loop s.current_max_id id 0 (cut_row id counted_out) a b,
    edge-cut_row id counted_out a b,
    Inv-IsBelow v a b,
    v.max_small,
  )

  forget-after :
      (name : String) (named : s.id_to_name_map id ≡ some name)
      → (idle : (t : ℕ) → ¬ Holds (s.held_locks t) id)
      → free_id id (forget id (some name) counted_out)
        ≡ after s v id name swept named idle swept_edges
  unfolding forget free_id
  forget-after name named idle =
      ap
        (λ (x : Lockdep). free_id id (record x {
          id_to_name_map = update x.id_to_name_map id none;
          name_to_id_map = update_name x.name_to_id_map name none;
        }))
        (cut_loop_rest s.current_max_id id 0 (cut_row id counted_out))

  last_Forgets :
      (name : String)
      → s.id_to_name_map id ≡ some name
      → ((t : ℕ) → ¬ Holds (s.held_locks t) id)
      → Forgets s id (drop_ref id (pos 0) s)
  unfolding drop_ref
  last_Forgets name named idle =
      rw (named, drop_ref, forget-after name named idle)
        (after-Forgets s v id name swept named idle swept_edges)

-- The outcome of lockdep_unregister, `k` references below the last.
abbrev pub UnregisterEnds : Lockdep → ℕ → ℕ → Outcome Lockdep (Unit {0}) → Type 0
UnregisterEnds s id zero (done _ t) = Forgets s id t
UnregisterEnds s id (suc k) (done _ t) =
    Inv t × (t ≡ record s { lock_ref = update s.lock_ref id (some (pos (suc k))) })
UnregisterEnds s id k _ = ⊥

-- For an id with a name, lockdep_unregister lowers its count and changes nothing else; or, at the last
-- reference, to a lock that no thread holds, it removes the name and exactly the edges from and to
-- the id, which is free again. The invariant holds after both.
pub lockdep_unregister-Ends :
    (s : Lockdep) (id k : ℕ)
    → Inv s
    → IsNamed s id
    → s.lock_ref id ≡ some (pos (suc k))
    → (k ≡ 0 → (t : ℕ) → ¬ Holds (s.held_locks t) id)
    → UnregisterEnds s id k (lockdep_unregister (pos id) s)
unfolding lockdep_unregister drop_ref
lockdep_unregister-Ends s id zero v (name, named) count idle =
    rw count (last_Forgets s v id name named (idle refl))
lockdep_unregister-Ends s id (suc k) v (name, named) count idle =
    rw count (recount-Inv s id k (name, named) v, refl)
