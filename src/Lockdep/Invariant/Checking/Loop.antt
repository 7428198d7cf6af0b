-- ===== src/Lockdep/Invariant/Checking/Loop.antt =====
-- The loop of lockdep_will_lock over the locks held, and one round of it.
use blue_thread.Prelude.{
  ℕ, suc, ◌≡◌, refl, sym, ◌∙◌, ◌⊎◌, inl, inr, true, List, [], ◌∷◌, arith, Bool-cases, ==_iff, ◌==◌,
  Outcome, bind_outcome, done, threw, aborted, blocked, diverged,
}
use blue_thread.BackTrace.{BackTrace}
use blue_thread.Lockdep.State.{Lockdep, edge}
use blue_thread.Lockdep.Calls.{add_edge, judge, check_one, check_held}
use blue_thread.Lockdep.Follow.{Follows, via, does_follow}
use blue_thread.Lockdep.Follow.Correct.{does_follow_decides}
use blue_thread.Lockdep.Invariant.{IsNamed, Holds, Inv}
use blue_thread.Lockdep.Invariant.Edges.{edge_cases, edge-add_edge, add_edge-Inv}
use blue_thread.Lockdep.Invariant.Checking.{
  Checked, Danger, CheckEnds, Inv-IsBelow, Walk-grows, Walk-back,
}

module _ (id : ℕ) (bt : BackTrace) where
  abbrev one : ℕ → BackTrace → List (ℕ × BackTrace)
  one h w = (h, w) ∷ []

  present-Checked :
      (s : Lockdep) (h : ℕ) (w : BackTrace)
      → Inv s
      → (¬ (h ≡ id))
      → edge s.lock_tree h id ≡ true
      → Checked s (one h w) id s
  present-Checked s h w v ne e = record {
    inv = v;
    safe = λ x. elim [
      | inl here ↦ elim [
        | inl same ↦ ne (sym (same ∙ here))
        | inr p ↦ v.acyclic h (via e (rw (← here) p))
      ]
      | inr none_ ↦ absurd none_
    ];
    ordered = λ x. elim [ inl here ↦ rw here e | inr none_ ↦ absurd none_ ];
    grows = λ a b q. q;
    only = λ a b q. inl q;
    helds = refl;
    ids = refl;
    names = refl;
  }

  added-Checked :
      (s : Lockdep) (h : ℕ) (w : BackTrace)
      → Inv s
      → IsNamed s h
      → IsNamed s id
      → (¬ (h ≡ id))
      → (¬ Follows s.lock_tree id h)
      → Checked s (one h w) id (add_edge h id bt s)
  unfolding add_edge
  added-Checked s h w v nh nid ne away = record {
    inv = add_edge-Inv h id bt s nh nid ne away v;
    safe = λ x. elim [
      | inl here ↦ elim [ inl same ↦ ne (sym (same ∙ here)) | inr p ↦ away (rw (← here) p) ]
      | inr none_ ↦ absurd none_
    ];
    ordered = λ x. elim [
      | inl here ↦ rw here (ground (arith, edge-add_edge h id bt s h id))
      | inr none_ ↦ absurd none_
    ];
    grows = λ a b q. ground (arith, edge-add_edge h id bt s a b);
    only = λ a b q. elim (edge_cases h id bt s a b q) [
      | inl old ↦ inl old
      | inr (from, to) ↦ inr (inl from, to)
    ];
    helds = refl;
    ids = refl;
    names = refl;
  }

  judge-Ends :
      (s : Lockdep) (h : ℕ) (w : BackTrace)
      → Inv s
      → IsNamed s h
      → IsNamed s id
      → (¬ (h ≡ id))
      → CheckEnds s
          (one h w)
          id
          (judge h id bt (does_follow (suc s.current_max_id) s.lock_tree s.current_max_id id h) s)
  unfolding judge
  judge-Ends s h w v nh nid ne =
      let (r, e, (found, absent)) =
        does_follow_decides s.lock_tree s.current_max_id id h (Inv-IsBelow v) v.acyclic in
      elim (Bool-cases r) [
        | inl t ↦ rw (e, t) (h, inl refl, inr (found t))
        | inr f ↦ rw (e, f) (added-Checked s h w v nh nid ne (absent f))
      ]

  check_one-Ends :
      (s : Lockdep) (h : ℕ) (w : BackTrace)
      → Inv s
      → IsNamed s h
      → IsNamed s id
      → CheckEnds s (one h w) id (check_one h id bt s)
  unfolding check_one
  check_one-Ends s h w v nh nid = elim (Bool-cases (h == id)) [
    | inl same ↦ rw same (h, inl refl, inl (sym ((==_iff h id).0 same)))
    | inr differ ↦
        let ne : ¬ (h ≡ id) = λ e. cc ((==_iff h id).1 e) in
        elim (Bool-cases (edge s.lock_tree h id)) [
          | inl e ↦ rw (differ, e) (present-Checked s h w v ne e)
          | inr e ↦ rw (differ, e) (judge-Ends s h w v nh nid ne)
        ]
  ]

  check_trans :
      {s t u : Lockdep} (h : ℕ) (w : BackTrace) (l : List (ℕ × BackTrace))
      → Checked s (one h w) id t
      → Checked t l id u
      → Checked s ((h, w) ∷ l) id u
  check_trans h w l c d = record {
    inv = d.inv;
    safe = λ x. elim [
      | inl here ↦ c.safe x (inl here)
      | inr there ↦ λ walk. d.safe x there (Walk-grows c.grows walk)
    ];
    ordered = λ x. elim [
      | inl here ↦ d.grows x id (c.ordered x (inl here))
      | inr there ↦ d.ordered x there
    ];
    grows = λ a b q. d.grows a b (c.grows a b q);
    only = λ a b q. elim (d.only a b q) [
      | inr (held, to) ↦ inr (inr held, to)
      | inl mid ↦ elim (c.only a b mid) [
        | inl old ↦ inl old
        | inr (held, to) ↦ elim held [ inl here ↦ inr (inl here, to) | inr none_ ↦ absurd none_ ]
      ]
    ];
    helds = d.helds ∙ c.helds;
    ids = d.ids ∙ c.ids;
    names = d.names ∙ c.names;
  }

  -- A danger that is seen after the first lock was checked was there before.
  Danger-back :
      {s t : Lockdep} (h : ℕ) (w : BackTrace) (l : List (ℕ × BackTrace))
      → Checked s (one h w) id t
      → Danger t l id
      → Danger s ((h, w) ∷ l) id
  Danger-back {s} {t} h w l c (x, held, walk) =
      let into = λ (a b : ℕ) (q : edge t.lock_tree a b ≡ true). only_into a b (c.only a b q) in
      (x, inr held, Walk-back s.lock_tree t.lock_tree id into walk)
    where
      only_into :
          (a b : ℕ)
          → (edge s.lock_tree a b ≡ true) ⊎ (Holds (one h w) a × (b ≡ id))
          → (edge s.lock_tree a b ≡ true) ⊎ (b ≡ id)
      only_into a b (inl old) = inl old
      only_into a b (inr (_, to)) = inr to

  after_one :
      {s t : Lockdep} (h : ℕ) (w : BackTrace) (l : List (ℕ × BackTrace))
      → Checked s (one h w) id t
      → (r : Outcome Lockdep (Unit {0})) → CheckEnds t l id r
      → CheckEnds s ((h, w) ∷ l) id r
  after_one h w l c (done _ u) d = check_trans h w l c d
  after_one h w l c (aborted u) d = Danger-back h w l c d
  after_one h w l c (threw e u) d = d
  after_one h w l c (blocked u) d = d
  after_one h w l c diverged d = d

  then_rest :
      {s : Lockdep} (h : ℕ) (w : BackTrace) (l : List (ℕ × BackTrace))
      → (r : Outcome Lockdep (Unit {0})) → CheckEnds s (one h w) id r
      → ((t : Lockdep) → Checked s (one h w) id t → CheckEnds t l id (check_held l id bt t))
      → CheckEnds s ((h, w) ∷ l) id (bind_outcome r (λ _. check_held l id bt))
  then_rest h w l (done _ t) c rest = after_one h w l c _ (rest t c)
  then_rest h w l (aborted t) (x, held, walk) rest = elim held [
    | inl here ↦ (x, inl here, walk)
    | inr none_ ↦ absurd none_
  ]
  then_rest h w l (threw e u) c rest = c
  then_rest h w l (blocked u) c rest = c
  then_rest h w l diverged c rest = c

  -- Every lock of the list is checked, or the call aborts and there is a danger.
  pub check_held-Ends :
      (s : Lockdep) (l : List (ℕ × BackTrace))
      → Inv s
      → ((h : ℕ) → Holds l h → IsNamed s h)
      → IsNamed s id
      → CheckEnds s l id (check_held l id bt s)
  unfolding check_held
  check_held-Ends s [] v named nid = record {
    inv = v;
    safe = λ x none_. absurd none_;
    ordered = λ x none_. absurd none_;
    grows = λ a b q. q;
    only = λ a b q. inl q;
    helds = refl;
    ids = refl;
    names = refl;
  }
  check_held-Ends s ((h, w) ∷ l) v named nid =
      then_rest h w l (check_one h id bt s) (check_one-Ends s h w v (named h (inl refl)) nid)
        (λ t c. check_held-Ends t l c.inv (λ x m. rw c.ids (named x (inr m))) (rw c.ids nid))
