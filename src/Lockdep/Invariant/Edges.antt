-- ===== src/Lockdep/Invariant/Edges.antt =====
-- One new edge in `lock_tree`: when it closes a cycle, and that it keeps the invariant otherwise.
use blue_thread.Prelude.{ℕ, ◌≡◌, sym, ◌≢◌, ◌⊎◌, inl, inr, true, arith, if◌then◌else◌, ◌==◌}
use blue_thread.BackTrace.{BackTrace}
use blue_thread.Lockdep.Bits.{Bytes, test-set_bit}
use blue_thread.Lockdep.State.{Lockdep, edge}
use blue_thread.Lockdep.Calls.{add_edge}
use blue_thread.Lockdep.Follow.{Follows, direct, via}
use blue_thread.Lockdep.Follow.Correct.{Follows-trans, IsAcyclic}
use blue_thread.Lockdep.Invariant.{IsNamed, Inv}

-- A walk of no edges, or a path.
abbrev pub Walk : (ℕ → Bytes) → ℕ → ℕ → Type 0
Walk tree a b = (a ≡ b) ⊎ Follows tree a b

edge-Walk : {tree : ℕ → Bytes} {a b c : ℕ} → edge tree a b ≡ true → Walk tree b c → Follows tree a c
edge-Walk {tree} {a} e (inl same) = direct (rw (← same) e)
edge-Walk e (inr p) = via e p

Walk-trans : {tree : ℕ → Bytes} {a b c : ℕ} → Walk tree a b → Walk tree b c → Walk tree a c
Walk-trans (inl e) q = rw e q
Walk-trans {tree} {a} (inr p) (inl e) = inr (rw (← e) p)
Walk-trans (inr p) (inr q) = inr (Follows-trans p q)

module _ (h id : ℕ) (bt : BackTrace) (s : Lockdep) where
  abbrev tree' : ℕ → Bytes
  tree' = (add_edge h id bt s).lock_tree

  -- The edge h -> id is new, and all others are as before.
  pub edge-add_edge :
      (a b : ℕ)
      → edge tree' a b
        ≡ (if h == a then if id == b then true else edge s.lock_tree a b else edge s.lock_tree a b)
  unfolding add_edge
  edge-add_edge a b = ground (arith, test-set_bit (s.lock_tree h) id b)

  pub edge_cases :
      (a b : ℕ) → edge tree' a b ≡ true → (edge s.lock_tree a b ≡ true) ⊎ ((a ≡ h) × (b ≡ id))
  edge_cases a b e = ground (arith, edge-add_edge a b)

  -- A path in the new graph is an old one, or goes over the new edge.
  pub path_cases :
      {a b : ℕ}
      → Follows tree' a b
      → Follows s.lock_tree a b ⊎ (Walk s.lock_tree a h × Walk s.lock_tree id b)
  path_cases (direct {a} {b} e) = elim (edge_cases a b e) [
    | inl old ↦ inl (direct old)
    | inr (from, to) ↦ inr (inl from, inl (sym to))
  ]
  path_cases (via {a} {i} {b} e p) = elim (edge_cases a i e) [
    | inl old ↦ elim (path_cases p) [
      | inl rest ↦ inl (via old rest)
      | inr (before, after) ↦ inr (inr (edge-Walk old before), after)
    ]
    | inr (from, to) ↦ elim (path_cases p) [
      | inl rest ↦ inr (inl from, inr (rw (← to) rest))
      | inr (before, after) ↦ inr (inl from, after)
    ]
  ]

  -- There is a cycle only if a walk led from `id` to `h` before.
  add_edge-IsAcyclic :
      h ≢ id → (¬ Follows s.lock_tree id h) → IsAcyclic s.lock_tree → IsAcyclic tree'
  add_edge-IsAcyclic ne away acyclic a p = elim (path_cases p) [
    | inl old ↦ acyclic a old
    | inr (before, after) ↦ elim (Walk-trans after before) [ inl e ↦ ne (sym e) | inr q ↦ away q ]
  ]

  pub add_edge-Inv :
      IsNamed s h
      → IsNamed s id
      → h ≢ id
      → (¬ Follows s.lock_tree id h)
      → Inv s
      → Inv (add_edge h id bt s)
  unfolding add_edge
  add_edge-Inv nh nid ne away v = record {
    name_id = v.name_id;
    id_name = v.id_name;
    below_max = v.below_max;
    max_small = v.max_small;
    used = v.used;
    unused = v.unused;
    last_small = v.last_small;
    counted = v.counted;
    uncounted = v.uncounted;
    edges_named = λ a b e. elim (edge_cases a b e) [
      | inl old ↦ v.edges_named a b old
      | inr (from, to) ↦ (rw from nh, rw to nid)
    ];
    helds_named = v.helds_named;
    helds_sorted = v.helds_sorted;
    acyclic = add_edge-IsAcyclic ne away v.acyclic;
  }
