-- ===== src/Lockdep/Threads/Steps.antt =====
-- The invariant of the system, and that every step keeps it.
use blue_thread.Prelude.{
  subst, List, ℕ, zero, suc, ◌≡◌, ◌≢◌, refl, sym, ap, ◌∙◌, inl, inr, true, false, Option, none,
  some, String, ℤ, pos, negsuc, update, done, arith, Bool-cases, ◌==◌, ==_iff, ==_refl,
}
use blue_thread.BackTrace.{BackTrace}
use blue_thread.Lockdep.Bits.{test-fill_ones, test-zeros}
use blue_thread.Lockdep.State.{Lockdep, init, edge}
use blue_thread.Lockdep.Follow.{Follows, direct, via}
use blue_thread.Lockdep.Invariant.{IsNamed, Holds, Inv}
use blue_thread.Lockdep.Invariant.Registering.{Registered, lockdep_register_plain}
use blue_thread.Lockdep.Invariant.Checking.{Checked}
use blue_thread.Lockdep.Invariant.Locking.{Fits, Resolves, lockdep_will_lock-Ends}
use blue_thread.Lockdep.Invariant.Locking.Helds.{
  LockedEnds, lockdep_locked-Ends, lockdep_will_unlock-Ends, Takes, GivesBack, with_helds,
}
use blue_thread.Lockdep.Invariant.Unregistering.{lockdep_unregister-Ends, Forgets}
use blue_thread.Lockdep.Threads.{
  System, start, Step, register, unregister, attempt, acquire, try_acquire, give_up, release, Reach,
  begin, next,
}

helds_other :
    (s t : Lockdep) (tid x : ℕ)
    → t ≡ with_helds s tid (t.held_locks tid)
    → (tid == x) ≡ false
    → t.held_locks x ≡ s.held_locks x
helds_other s t tid x e other = ap (λ (y : Lockdep). y.held_locks x) e ∙ rw other refl

-- A thread that waits has passed the check: there is an edge from each lock that it holds.
pub record SystemInv (s : System) : Type 0 where
  pub inv : Inv s.tables
  pub asked : (tid k : ℕ) → s.waiting tid ≡ some k → IsNamed s.tables k
  pub ordered :
      (tid k h : ℕ)
      → s.waiting tid ≡ some k
      → Holds (s.tables.held_locks tid) h
      → edge s.tables.lock_tree h k ≡ true

-- What a call by one thread keeps of the other tables.
record Extends (s t : Lockdep) : Type 0 where
  inv : Inv t
  helds : t.held_locks ≡ s.held_locks
  named : (i : ℕ) → IsNamed s i → IsNamed t i
  grows : (a b : ℕ) → edge s.lock_tree a b ≡ true → edge t.lock_tree a b ≡ true

Extends-SystemInv :
    (s : System) (t : Lockdep)
    → SystemInv s
    → Extends s.tables t
    → SystemInv (record s { tables = t })
Extends-SystemInv s t v e = record {
  inv = e.inv;
  asked = λ tid k w. e.named k (v.asked tid k w);
  ordered = λ tid k h w m. e.grows h k (v.ordered tid k h w (rw e.helds at m));
}

Registered-Extends :
    (s : Lockdep) (name : String) (k : ℕ) (t : Lockdep) → Registered s name k t → Extends s t
Registered-Extends s name k t r = record {
  inv = r.inv;
  helds = r.graph.helds;
  named = r.named;
  grows = λ a b e. rw r.graph.tree e;
}

Resolves-Extends :
    (s : Lockdep) (name : String) (z : ℤ) (k : ℕ) (u : Lockdep)
    → Inv s
    → Resolves s name z k u
    → Extends s u
Resolves-Extends s name (pos id) k u v (_, e) =
    rw e (record { inv = v; helds = refl; named = λ i n. n; grows = λ a b q. q })
Resolves-Extends s name (negsuc n) k u v r = Registered-Extends s name k u r

Resolves-IsNamed :
    (s : Lockdep) (name : String) (z : ℤ) (k : ℕ) (u : Lockdep)
    → Fits s z
    → Resolves s name z k u
    → IsNamed u k
Resolves-IsNamed s name (pos id) k u fits (e, same) = rw (e, same) fits
Resolves-IsNamed s name (negsuc n) k u fits r = (name, r.inv.name_id name k r.known)

module _ (s : System) (v : SystemInv s) where
  Step-attempt :
      (name : String) (z : ℤ) (tid k : ℕ) (u t : Lockdep)
      → Fits s.tables z
      → Resolves s.tables name z k u
      → Checked u (u.held_locks tid) k t
      → SystemInv (record { tables = t; waiting = update s.waiting tid (some k) })
  Step-attempt name z tid k u t fits how c =
      let e = Resolves-Extends s.tables name z k u v.inv how in
      record {
        inv = c.inv;
        asked = λ x j w. elim (Bool-cases (tid == x)) [
          | inl same ↦
              let asked : k ≡ j = ground arith in
              subst (IsNamed t) asked (rw c.ids (Resolves-IsNamed s.tables name z k u fits how))
          | inr other ↦ rw c.ids (e.named j (v.asked x j (rw other at w)))
        ];
        ordered = λ x j h w m. elim (Bool-cases (tid == x)) [
          | inl same ↦
              let here = (==_iff tid x).0 same in
              let asked : k ≡ j = ground arith in
              subst (λ (y : ℕ). edge t.lock_tree h y ≡ true) asked
                (c.ordered h
                  (rw c.helds at (subst (λ (y : ℕ). Holds (t.held_locks y) h) (sym here) m)))
          | inr other ↦
              c.grows h j
                (e.grows h j (v.ordered x j h (rw other at w) (rw e.helds at (rw c.helds at m))))
        ];
      }

  Step-hold :
      (tid k : ℕ) (t : Lockdep) (w : ℕ → Option ℕ)
      → Takes s.tables tid k t
      → ((x : ℕ) → (tid == x) ≡ false → w x ≡ s.waiting x)
      → w tid ≡ none
      → SystemInv (record { tables = t; waiting = w })
  Step-hold tid k t w c same off = record {
    inv = c.inv;
    asked = λ x j e. elim (Bool-cases (tid == x)) [
      | inl here ↦ absurd (cc ((==_iff tid x).0 here))
      | inr other ↦
          rw (ap (λ (y : Lockdep). y.id_to_name_map) c.rest) (v.asked x j (sym (same x other) ∙ e))
    ];
    ordered = λ x j h e m. elim (Bool-cases (tid == x)) [
      | inl here ↦ absurd (cc ((==_iff tid x).0 here))
      | inr other ↦ rw (ap (λ (y : Lockdep). y.lock_tree) c.rest) (
          v.ordered x j h (sym (same x other) ∙ e) (
            subst (λ (l : List (ℕ × BackTrace)). Holds l h)
              (helds_other s.tables t tid x c.rest other) m))
    ];
  }

  Step-release :
      (tid k : ℕ) (t : Lockdep) → GivesBack s.tables tid k t → SystemInv (record s { tables = t })
  Step-release tid k t c = record {
    inv = c.inv;
    asked = λ x j e. rw (ap (λ (y : Lockdep). y.id_to_name_map) c.rest) (v.asked x j e);
    ordered = λ x j h e m. rw (ap (λ (y : Lockdep). y.lock_tree) c.rest) (
        v.ordered x j h e (elim (Bool-cases (tid == x)) [
          | inl here ↦
              let at_x = (==_iff tid x).0 here in
              subst (λ (y : ℕ). Holds (s.tables.held_locks y) h) at_x
                ((c.exactly h).0 (subst (λ (y : ℕ). Holds (t.held_locks y) h) (sym at_x) m)).0
          | inr other ↦
              subst (λ (l : List (ℕ × BackTrace)). Holds l h)
                (helds_other s.tables t tid x c.rest other) m
        ]));
  }

  Step-forget :
      (id : ℕ) (t : Lockdep)
      → Forgets s.tables id t
      → ((tid : ℕ) → ¬ Holds (s.tables.held_locks tid) id)
      → ((tid : ℕ) → s.waiting tid ≢ some id)
      → SystemInv (record s { tables = t })
  Step-forget id t c idle calm = record {
    inv = c.inv;
    asked = λ x j e. rw (c.others j (λ q. calm x (e ∙ ap some q))) (v.asked x j e);
    ordered = λ x j h e m.
        let held = rw c.helds at m in
        (c.cut h j).1 (
          v.ordered x j h e held,
          (λ q. idle x (subst (λ (y : ℕ). Holds (s.tables.held_locks x) y) q held)),
          (λ q. calm x (e ∙ ap some q)),
        );
  }

locked-Takes :
    (s : Lockdep) (name : String) (k j tid : ℕ) (t : Lockdep)
    → LockedEnds s name (pos k) tid (done (pos j) t)
    → Takes s tid k t
locked-Takes s name k j tid t (u, (e, same), c) =
    subst (λ (x : Lockdep). Takes x tid k t) same (subst (λ (i : ℕ). Takes u tid i t) e c)

-- Every step keeps the invariant of the system.
pub Step-SystemInv : {s t : System} → Step s t → SystemInv s → SystemInv t
Step-SystemInv {s} (register {t} {k} name e) v =
    Extends-SystemInv s t v
      (Registered-Extends s.tables name k t (rw e at (lockdep_register_plain s.tables name v.inv)))
Step-SystemInv {s} (unregister {t} id zero named count idle calm e) v =
    Step-forget s v id t (rw e at (lockdep_unregister-Ends s.tables id 0 v.inv named count idle))
      (idle refl) (calm refl)
Step-SystemInv {s} (unregister {t} id (suc k) named count idle calm e) v =
    let (inv, same) =
      rw e at (lockdep_unregister-Ends s.tables id (suc k) v.inv named count idle) in
    Extends-SystemInv s t v (record {
      inv = inv;
      helds = ap (λ (y : Lockdep). y.held_locks) same;
      named = λ i n. rw (ap (λ (y : Lockdep). y.id_to_name_map) same) n;
      grows = λ a b q. rw (ap (λ (y : Lockdep). y.lock_tree) same) q;
    })
Step-SystemInv {s} (attempt {t} {k} name z tid bt off fits e) v =
    let (u, how, c) = rw e at (lockdep_will_lock-Ends s.tables name z tid bt v.inv fits) in
    Step-attempt s v name z tid k u t fits how c
Step-SystemInv {s} (acquire {t} {j} name k tid bt on e) v =
    let c = rw e at (lockdep_locked-Ends s.tables name (pos k) tid bt v.inv (v.asked tid k on)) in
    Step-hold s v tid k t (update s.waiting tid none) (locked-Takes s.tables name k j tid t c)
      (λ x other. rw other) (rw (==_refl tid))
Step-SystemInv {s} (try_acquire {t} {j} name k tid bt off named e) v =
    let c = rw e at (lockdep_locked-Ends s.tables name (pos k) tid bt v.inv named) in
    Step-hold s v tid k t s.waiting (locked-Takes s.tables name k j tid t c) (λ x other. refl) off
Step-SystemInv {s} (give_up tid) v = record {
  inv = v.inv;
  asked = λ x j w. v.asked x j (ground arith);
  ordered = λ x j h w m. v.ordered x j h (ground arith) m;
}
Step-SystemInv {s} (release {t} name k tid e) v =
    Step-release s v tid k t (rw e at (lockdep_will_unlock-Ends s.tables name (pos k) tid v.inv)).1

no_edges : (a b : ℕ) → edge init.lock_tree a b ≡ false
no_edges a b = test-zeros b

no_paths : {a b : ℕ} → ¬ Follows init.lock_tree a b
no_paths (direct {a} {b} e) = cc (no_edges a b)
no_paths (via {a} {i} e p) = cc (no_edges a i)

pub init-Inv : Inv init
init-Inv = record {
  name_id = λ n i h. cc;
  id_name = λ i n h. cc;
  below_max = λ i n h. cc;
  max_small = omega arith;
  used = λ i n h. cc;
  unused = λ i lt h. test-fill_ones (λ _. 0) 512 i lt;
  last_small = λ i h. cc;
  counted = λ i n h. absurd (cc);
  uncounted = λ i h. refl;
  edges_named = λ a b e. absurd (cc (no_edges a b));
  helds_named = λ t i h. absurd h;
  helds_sorted = λ t. tt;
  acyclic = λ a. no_paths;
}

start-SystemInv : SystemInv start
start-SystemInv = record {
  inv = init-Inv;
  asked = λ x j w. absurd (cc);
  ordered = λ x j h w m. absurd m;
}

pub Reach-SystemInv : {s : System} → Reach s → SystemInv s
Reach-SystemInv begin = start-SystemInv
Reach-SystemInv (next r st) = Step-SystemInv st (Reach-SystemInv r)
