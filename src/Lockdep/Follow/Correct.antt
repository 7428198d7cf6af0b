-- ===== src/Lockdep/Follow/Correct.antt =====
-- does_follow ends on a graph with no cycle, and decides whether there is a path.
use blue_thread.Prelude.{
  ℕ, zero, suc, ◌+◌, ◌≤◌, ◌<◌, ◌≡◌, refl, sym, ap, ◌∙◌, inl, inr, Bool, true, false, Option, some,
  List, [], ◌∷◌, arith, length, In, Distinct, pigeonhole, Bool-cases, Option-cases,
}
use blue_thread.Lockdep.Bits.{Bytes}
use blue_thread.Lockdep.State.{edge}
use blue_thread.Lockdep.Follow.{Follows, direct, via, scan_next, does_follow}

pub Follows-trans :
    {tree : ℕ → Bytes} {a b c : ℕ} → Follows tree a b → Follows tree b c → Follows tree a c
Follows-trans (direct e) q = via e q
Follows-trans (via e p) q = via e (Follows-trans p q)

abbrev pub IsAcyclic : (ℕ → Bytes) → Type 0
IsAcyclic tree = (a : ℕ) → ¬ Follows tree a a

abbrev pub IsBelow : ℕ → (ℕ → Bytes) → Type 0
IsBelow max tree = (a b : ℕ) → edge tree a b ≡ true → (a < max) × (b < max)

Follows-lt : {tree : ℕ → Bytes} {max a b : ℕ} → IsBelow max tree → Follows tree a b → a < max
Follows-lt below (direct {a} {b} e) = (below a b e).0
Follows-lt below (via {a} {i} e p) = (below a i e).0

module _ (test : ℕ → Bool) (go : ℕ → Option Bool) where
  scan_true :
      (k i : ℕ) → scan_next test go k i ≡ some true → (j : ℕ) × (test j ≡ true) × (go j ≡ some true)
  unfolding scan_next
  scan_true zero i h = absurd (cc)
  scan_true (suc k) i h = elim (Bool-cases (test i)) [
    | inr e ↦ scan_true k (suc i) (ground arith)
    | inl e ↦ elim (Option-cases (go i)) [
      | inl n ↦ absurd (ground arith)
      | inr (r, g) ↦ elim (Bool-cases r) [
        | inl t ↦ (i, e, ground arith)
        | inr f ↦ scan_true k (suc i) (ground arith)
      ]
    ]
  ]

  scan_false :
      (k i j : ℕ)
      → scan_next test go k i ≡ some false
      → i ≤ j
      → j < i + k
      → test j ≡ true
      → go j ≡ some false
  unfolding scan_next
  scan_false zero i j h le lt e = absurd (omega arith)
  scan_false (suc k) i j h le lt e = ground (arith, scan_false k (suc i) j)

  scan_total :
      ((j : ℕ) → test j ≡ true → (r : Bool) × (go j ≡ some r))
      → (k i : ℕ) → (r : Bool) × (scan_next test go k i ≡ some r)
  unfolding scan_next
  scan_total ih zero i = (false, refl)
  scan_total ih (suc k) i =
      let (r, e) = scan_total ih k (suc i) in
      elim (Bool-cases (test i)) [
        | inr f ↦ (r, ground arith)
        | inl t ↦
            let (g, h) = ih i t in
            elim (Bool-cases g) [
              | inl found ↦ (true, ground arith)
              | inr absent ↦ (r, ground arith)
            ]
      ]

module _ (tree : ℕ → Bytes) (max b : ℕ) where
  abbrev rounds : ℕ → ℕ → Option Bool
  rounds fuel a = scan_next (edge tree a) (λ i. does_follow fuel tree max i b) max 0

  does_follow_hit :
      (fuel a : ℕ) → edge tree a b ≡ true → does_follow (suc fuel) tree max a b ≡ some true
  unfolding does_follow
  does_follow_hit fuel a e = rw (e, does_follow)

  does_follow_miss :
      (fuel a : ℕ) → edge tree a b ≡ false → does_follow (suc fuel) tree max a b ≡ rounds fuel a
  unfolding does_follow
  does_follow_miss fuel a e = rw (e, does_follow)

  pub does_follow_sound :
      (fuel a : ℕ) → does_follow fuel tree max a b ≡ some true → Follows tree a b
  unfolding does_follow
  does_follow_sound zero a h = absurd (cc)
  does_follow_sound (suc fuel) a h = elim (Bool-cases (edge tree a b)) [
    | inl e ↦ direct e
    | inr e ↦
        let (j, t, g) =
          scan_true (edge tree a) (λ i. does_follow fuel tree max i b) max 0
            (sym (does_follow_miss fuel a e) ∙ h) in
        via t (does_follow_sound fuel j g)
  ]

  pub does_follow_complete :
      IsBelow max tree
      → (fuel a : ℕ) → does_follow fuel tree max a b ≡ some false
      → ¬ Follows tree a b
  unfolding does_follow
  does_follow_complete below zero a h p = cc
  does_follow_complete below (suc fuel) a h (direct e) = cc (does_follow_hit fuel a e)
  does_follow_complete below (suc fuel) a h (via {i} e p) = elim (Bool-cases (edge tree a b)) [
    | inl t ↦ cc (does_follow_hit fuel a t)
    | inr f ↦
        does_follow_complete below fuel i
          (scan_false (edge tree a) (λ j. does_follow fuel tree max j b) max 0 i
            (sym (does_follow_miss fuel a f) ∙ h) (omega arith) (omega (arith, (below a i e).1)) e)
          p
  ]

  does_follow_total :
      IsBelow max tree
      → IsAcyclic tree
      → (fuel a : ℕ) (above : List ℕ) → Distinct above
      → ((v : ℕ) → In v above → Follows tree v a)
      → max < fuel + length above
      → (r : Bool) × (does_follow fuel tree max a b ≡ some r)
  unfolding does_follow
  does_follow_total below acyclic zero a above distinct path room =
      absurd (omega (arith, pigeonhole max above distinct (λ v m. Follows-lt below (path v m))))
  does_follow_total below acyclic (suc fuel) a above distinct path room =
      elim (Bool-cases (edge tree a b)) [
        | inl e ↦ (true, does_follow_hit fuel a e)
        | inr e ↦ rw (does_follow_miss fuel a e) (
            scan_total (edge tree a) (λ i. does_follow fuel tree max i b)
              (λ j t.
                does_follow_total below acyclic fuel j (a ∷ above)
                  (λ m. acyclic a (path a m), distinct)
                  (λ v. elim [
                    | inl here ↦ rw here (direct t)
                    | inr there ↦ Follows-trans (path v there) (direct t)
                  ])
                  (omega arith))
              max 0)
      ]

-- On a graph with no cycle the recursion ends, `max` and one more levels deep at the most, and the
-- answer is true exactly when a path leads from `a` to `b`.
pub does_follow_decides :
    (tree : ℕ → Bytes) (max a b : ℕ)
    → IsBelow max tree
    → IsAcyclic tree
    → (r : Bool) × (does_follow (suc max) tree max a b ≡ some r)
      × ((r ≡ true → Follows tree a b) × (r ≡ false → ¬ Follows tree a b))
does_follow_decides tree max a b below acyclic =
    let (r, e) =
      does_follow_total tree max b below acyclic (suc max) a [] tt (λ v m. absurd m)
        (omega arith) in
    (
      r,
      e,
      (
        λ t. does_follow_sound tree max b (suc max) a (e ∙ ap some t),
        λ f. does_follow_complete tree max b below (suc max) a (e ∙ ap some f),
      ),
    )
