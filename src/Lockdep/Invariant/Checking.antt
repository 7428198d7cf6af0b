-- ===== src/Lockdep/Invariant/Checking.antt =====
-- What lockdep_will_lock owes to its caller for a list of held locks: the attempt is refused exactly
-- if it would close a cycle.
pub mod Loop
use blue_thread.Prelude.{
  ℕ, suc, ◌<◌, ◌≡◌, refl, sym, ap, subst, ◌∙◌, ◌⊎◌, inl, inr, Bool, true, false, List, [], ◌∷◌,
  String, ℤ, pos, negsuc, arith, Bool-cases, ==_iff, if◌then◌else◌, ◌==◌, Option, none, some,
  Outcome, bind_outcome, done, threw, aborted, blocked, diverged,
}
use blue_thread.BackTrace.{BackTrace}
use blue_thread.Lockdep.Bits.{Bytes}
use blue_thread.Lockdep.State.{Lockdep, edge}
use blue_thread.Lockdep.Ids.{known_id, lockdep_register, runtime_error}
use blue_thread.Lockdep.Calls.{add_edge, judge, check_one, check_held, lockdep_will_lock}
use blue_thread.Lockdep.Follow.{Follows, direct, via, does_follow}
use blue_thread.Lockdep.Follow.Correct.{Follows-trans, IsAcyclic, IsBelow, does_follow_decides}
use blue_thread.Lockdep.Invariant.{IsNamed, Holds, Inv}
use blue_thread.Lockdep.Invariant.Edges.{Walk, edge_cases, edge-add_edge, add_edge-Inv}
use blue_thread.Lockdep.Invariant.Registering.{
  Registered, Refused, SameGraph, RegisterEnds, lockdep_register_plain,
}

-- What holds after the locks `l` were checked against `id`.
pub record Checked (s : Lockdep) (l : List (ℕ × BackTrace)) (id : ℕ) (t : Lockdep) : Type 0 where
  pub inv : Inv t
  pub safe : (h : ℕ) → Holds l h → ¬ Walk s.lock_tree id h
  pub ordered : (h : ℕ) → Holds l h → edge t.lock_tree h id ≡ true
  pub grows : (a b : ℕ) → edge s.lock_tree a b ≡ true → edge t.lock_tree a b ≡ true
  pub only :
      (a b : ℕ)
      → edge t.lock_tree a b ≡ true
      → (edge s.lock_tree a b ≡ true) ⊎ (Holds l a × (b ≡ id))
  pub helds : t.held_locks ≡ s.held_locks
  pub ids : t.id_to_name_map ≡ s.id_to_name_map
  pub names : t.name_to_id_map ≡ s.name_to_id_map

-- A lock of `l` to which a walk leads from `id`: with an edge back there would be a cycle.
abbrev pub Danger : Lockdep → List (ℕ × BackTrace) → ℕ → Type 0
Danger s l id = (h : ℕ) × Holds l h × Walk s.lock_tree id h

abbrev pub CheckEnds : Lockdep → List (ℕ × BackTrace) → ℕ → Outcome Lockdep (Unit {0}) → Type 0
CheckEnds s l id (done _ t) = Checked s l id t
CheckEnds s l id (aborted t) = Danger s l id
CheckEnds s l id _ = ⊥

pub Inv-IsBelow : {s : Lockdep} → Inv s → IsBelow s.current_max_id s.lock_tree
Inv-IsBelow v a b e =
    let ((n, x), (m, y)) = v.edges_named a b e in (v.below_max a n x, v.below_max b m y)

Follows-grows :
    {tree tree' : ℕ → Bytes} {a b : ℕ}
    → ((x y : ℕ) → edge tree x y ≡ true → edge tree' x y ≡ true)
    → Follows tree a b
    → Follows tree' a b
Follows-grows g (direct {a} {b} e) = direct (g a b e)
Follows-grows g (via {a} {i} e p) = via (g a i e) (Follows-grows g p)

pub Walk-grows :
    {tree tree' : ℕ → Bytes} {a b : ℕ}
    → ((x y : ℕ) → edge tree x y ≡ true → edge tree' x y ≡ true)
    → Walk tree a b
    → Walk tree' a b
Walk-grows g (inl e) = inl e
Walk-grows g (inr p) = inr (Follows-grows g p)

-- If all new edges lead to `id`, then a walk from `id` is an old one.
module _ (tree tree' : ℕ → Bytes) (id : ℕ)
    (into : (a b : ℕ) → edge tree' a b ≡ true → (edge tree a b ≡ true) ⊎ (b ≡ id)) where
  path_back : {a b : ℕ} → Follows tree' a b → Follows tree a b ⊎ Walk tree id b
  path_back (direct {a} {b} e) = elim (into a b e) [
    | inl old ↦ inl (direct old)
    | inr at_id ↦ inr (inl (sym at_id))
  ]
  path_back (via {a} {i} {b} e p) = elim (path_back p) [
    | inr w ↦ inr w
    | inl q ↦ elim (into a i e) [
      | inl old ↦ inl (via old q)
      | inr at_id ↦ inr (inr (rw (← at_id) q))
    ]
  ]

  pub Walk-back : {b : ℕ} → Walk tree' id b → Walk tree id b
  Walk-back (inl e) = inl e
  Walk-back (inr p) = elim (path_back p) [ inl q ↦ inr q | inr w ↦ w ]
