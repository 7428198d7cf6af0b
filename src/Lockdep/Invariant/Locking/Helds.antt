-- ===== src/Lockdep/Invariant/Locking/Helds.antt =====
-- lockdep_locked and lockdep_will_unlock: the locks that a thread holds.
use blue_thread.Prelude.{
  ℕ, ◌≡◌, refl, sym, ap, ◌⊎◌, inl, inr, ◌≢◌, ◌↔◌, List, [], ◌∷◌, String, ℤ, pos, negsuc, arith,
  Bool-cases, ==_iff, ==_refl, ◌==◌, Outcome, done, threw, aborted, blocked, diverged, bind_outcome,
  ltb, update,
}
use blue_thread.BackTrace.{BackTrace}
use blue_thread.Lockdep.State.{Lockdep, insert_held, erase_held}
use blue_thread.Lockdep.Ids.{known_id}
use blue_thread.Lockdep.Calls.{hold, lockdep_locked, lockdep_will_unlock}
use blue_thread.Lockdep.Invariant.{IsNamed, Holds, Ascending, Inv}
use blue_thread.Lockdep.Invariant.Locking.{Fits, ThrowEnds, Resolves, KnownEnds, known_id-Ends}

Holds-insert :
    (k i : ℕ) (v : BackTrace) (l : List (ℕ × BackTrace))
    → Holds (insert_held k v l) i
    → (i ≡ k) ⊎ Holds l i
unfolding insert_held
Holds-insert k i v [] h = h
Holds-insert k i v ((j, w) ∷ m) h = ground (arith, Holds-insert k i v m)

Holds-insert_of :
    (k i : ℕ) (v : BackTrace) (l : List (ℕ × BackTrace))
    → (i ≡ k) ⊎ Holds l i
    → Holds (insert_held k v l) i
unfolding insert_held
Holds-insert_of k i v [] h = h
Holds-insert_of k i v ((j, w) ∷ m) h = ground (arith, Holds-insert_of k i v m)

Holds-erase :
    (k i : ℕ) (l : List (ℕ × BackTrace))
    → Ascending l
    → Holds (erase_held k l) i
    → Holds l i × (i ≢ k)
unfolding erase_held
Holds-erase k i [] a h = absurd h
Holds-erase k i ((j, w) ∷ m) a h = ground (arith, Holds-erase k i m a.1, a.0 i)

Holds-erase_of : (k i : ℕ) (l : List (ℕ × BackTrace)) → Holds l i → i ≢ k → Holds (erase_held k l) i
unfolding erase_held
Holds-erase_of k i [] h ne = absurd h
Holds-erase_of k i ((j, w) ∷ m) h ne = ground (arith, Holds-erase_of k i m)

insert-Ascending :
    (k : ℕ) (v : BackTrace) (l : List (ℕ × BackTrace)) → Ascending l → Ascending (insert_held k v l)
unfolding insert_held
insert-Ascending k v [] a = (λ i n. absurd n, tt)
insert-Ascending k v ((j, w) ∷ m) a = elim (Bool-cases (k == j)) [
  | inl e ↦ rw e ((λ i h. ground (arith, a.0 i)), a.1)
  | inr e ↦ elim (Bool-cases (ltb k j)) [
    | inl f ↦ rw (e, f) ((λ i h. ground (arith, a.0 i)), a)
    | inr f ↦
        rw (e, f)
          ((λ i h. ground (arith, a.0 i, Holds-insert k i v m h)), insert-Ascending k v m a.1)
  ]
]

erase-Ascending : (k : ℕ) (l : List (ℕ × BackTrace)) → Ascending l → Ascending (erase_held k l)
unfolding erase_held
erase-Ascending k [] a = tt
erase-Ascending k ((j, w) ∷ m) a = elim (Bool-cases (k == j)) [
  | inl e ↦ rw e a.1
  | inr e ↦ rw e ((λ i h. a.0 i (Holds-erase k i m a.1 h).0), erase-Ascending k m a.1)
]

-- The state `t` is `s`, with other locks held by the thread.
abbrev pub with_helds : Lockdep → ℕ → List (ℕ × BackTrace) → Lockdep
with_helds s tid l = record s { held_locks = update s.held_locks tid l }

with_helds-Inv :
    (s : Lockdep) (tid : ℕ) (l : List (ℕ × BackTrace))
    → Inv s
    → ((i : ℕ) → Holds l i → IsNamed s i)
    → Ascending l
    → Inv (with_helds s tid l)
with_helds-Inv s tid l v named ascending = record {
  name_id = v.name_id;
  id_name = v.id_name;
  below_max = v.below_max;
  max_small = v.max_small;
  used = v.used;
  unused = v.unused;
  last_small = v.last_small;
  counted = v.counted;
  uncounted = v.uncounted;
  edges_named = v.edges_named;
  helds_named = λ t i h. elim (Bool-cases (tid == t)) [
    | inl e ↦ named i (rw e at h)
    | inr e ↦ v.helds_named t i (rw e at h)
  ];
  helds_sorted = λ t. elim (Bool-cases (tid == t)) [
    | inl e ↦ rw e ascending
    | inr e ↦ rw e (v.helds_sorted t)
  ];
  acyclic = v.acyclic;
}

helds_now :
    (s : Lockdep) (tid : ℕ) (l : List (ℕ × BackTrace)) → (with_helds s tid l).held_locks tid ≡ l
helds_now s tid l = rw (==_refl tid)

-- From `s` to `t` the thread takes the lock `k`, and nothing else changes.
pub record Takes (s : Lockdep) (tid k : ℕ) (t : Lockdep) : Type 0 where
  pub inv : Inv t
  pub exactly : (i : ℕ) → Holds (t.held_locks tid) i ↔ ((i ≡ k) ⊎ Holds (s.held_locks tid) i)
  pub rest : t ≡ with_helds s tid (t.held_locks tid)

-- From `s` to `t` the thread gives the lock `k` back, and nothing else changes.
pub record GivesBack (s : Lockdep) (tid k : ℕ) (t : Lockdep) : Type 0 where
  pub inv : Inv t
  pub exactly : (i : ℕ) → Holds (t.held_locks tid) i ↔ (Holds (s.held_locks tid) i × (i ≢ k))
  pub rest : t ≡ with_helds s tid (t.held_locks tid)

pub hold-Takes :
    (s : Lockdep) (tid k : ℕ) (bt : BackTrace)
    → Inv s
    → IsNamed s k
    → Takes s tid k (hold tid k bt s)
unfolding hold
hold-Takes s tid k bt v named =
    let l = s.held_locks tid in
    let now = helds_now s tid (insert_held k bt l) in
    record {
      inv =
          with_helds-Inv s tid (insert_held k bt l) v
            (λ i h. elim (Holds-insert k i bt l h) [
              | inl e ↦ rw e named
              | inr m ↦ v.helds_named tid i m
            ])
            (insert-Ascending k bt l (v.helds_sorted tid));
      exactly = λ i. rw now (Holds-insert k i bt l, Holds-insert_of k i bt l);
      rest = ap (with_helds s tid) (sym now);
    }

-- The outcome of lockdep_locked.
abbrev pub LockedEnds : Lockdep → String → ℤ → ℕ → Outcome Lockdep ℤ → Type 0
LockedEnds s name z tid (done (pos k) t) = (u : Lockdep) × Resolves s name z k u × Takes u tid k t
LockedEnds s name z tid (threw e t) = ThrowEnds s z e t
LockedEnds s name z tid _ = ⊥

locked_known :
    (s : Lockdep) (name : String) (z : ℤ) (tid : ℕ) (bt : BackTrace) (r : Outcome Lockdep ℕ)
    → KnownEnds s name z r
    → LockedEnds s name z tid (bind_outcome r (λ k u. done (pos k) (hold tid k bt u)))
locked_known s name z tid bt (done k u) (how, v, named) = (u, how, hold-Takes u tid k bt v named)
locked_known s name z tid bt (threw e t) h = h
locked_known s name z tid bt (aborted t) h = absurd h
locked_known s name z tid bt (blocked t) h = h
locked_known s name z tid bt diverged h = h

-- lockdep_locked adds the lock to those that the thread holds, and changes nothing else; a mutex
-- with no id is registered first, which may throw.
pub lockdep_locked-Ends :
    (s : Lockdep) (name : String) (z : ℤ) (tid : ℕ) (bt : BackTrace)
    → Inv s
    → Fits s z
    → LockedEnds s name z tid (lockdep_locked name z tid bt s)
unfolding lockdep_locked
lockdep_locked-Ends s name z tid bt v fits =
    locked_known s name z tid bt (known_id name z s) (known_id-Ends s name z v fits)

pub erase-GivesBack :
    (s : Lockdep) (tid k : ℕ)
    → Inv s
    → GivesBack s tid k (with_helds s tid (erase_held k (s.held_locks tid)))
erase-GivesBack s tid k v =
    let l = s.held_locks tid in
    let ascending = v.helds_sorted tid in
    let now = helds_now s tid (erase_held k l) in
    record {
      inv =
          with_helds-Inv s tid (erase_held k l) v
            (λ i h. v.helds_named tid i (Holds-erase k i l ascending h).0)
            (erase-Ascending k l ascending);
      exactly = λ i. rw now (Holds-erase k i l ascending, λ (m, ne). Holds-erase_of k i l m ne);
      rest = ap (with_helds s tid) (sym now);
    }

-- The outcome of lockdep_will_unlock.
abbrev pub UnlockEnds : Lockdep → ℤ → ℕ → Outcome Lockdep ℤ → Type 0
UnlockEnds s (pos id) tid (done k t) = (k ≡ pos id) × GivesBack s tid id t
UnlockEnds s (negsuc n) tid (done k t) = (n ≡ 0) × (k ≡ negsuc 0) × (t ≡ s)
UnlockEnds s (negsuc n) tid (aborted t) = (n ≢ 0) × (t ≡ s)
UnlockEnds s _ tid _ = ⊥

-- lockdep_will_unlock takes the lock from those that the thread holds, and changes nothing else. The
-- id -1 is left as it is, and any other negative one aborts.
pub lockdep_will_unlock-Ends :
    (s : Lockdep) (name : String) (z : ℤ) (tid : ℕ)
    → Inv s
    → UnlockEnds s z tid (lockdep_will_unlock name z tid s)
unfolding lockdep_will_unlock
lockdep_will_unlock-Ends s name (pos id) tid v = (refl, erase-GivesBack s tid id v)
lockdep_will_unlock-Ends s name (negsuc n) tid v = elim (Bool-cases (n == 0)) [
  | inl e ↦ rw e ((==_iff n 0).0 e, ap negsuc ((==_iff n 0).0 e), refl)
  | inr e ↦ rw e ((λ z. cc ((==_iff n 0).1 z)), refl)
]
