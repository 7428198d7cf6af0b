-- ===== src/Lockdep/Invariant/Locking.antt =====
-- lockdep_will_lock, lockdep_locked and lockdep_will_unlock, from states with the invariant.
pub mod Helds
use blue_thread.Prelude.{
  ℕ, suc, ◌<◌, ◌≡◌, refl, sym, ap, ◌∙◌, ◌⊎◌, inl, inr, Bool, true, false, List, [], ◌∷◌, String, ℤ,
  pos, negsuc, arith, Bool-cases, ==_iff, if◌then◌else◌, ◌==◌, Outcome, done, threw, aborted,
  blocked, diverged, bind_outcome, M,
}
use blue_thread.BackTrace.{BackTrace}
use blue_thread.Lockdep.State.{Lockdep, edge}
use blue_thread.Lockdep.Ids.{known_id, lockdep_register, runtime_error}
use blue_thread.Lockdep.Calls.{
  check_held, lockdep_will_lock, hold, lockdep_locked, lockdep_will_unlock,
}
use blue_thread.Lockdep.Invariant.{IsNamed, Holds, Inv}
use blue_thread.Lockdep.Invariant.Registering.{
  Registered, Refused, SameGraph, RegisterEnds, lockdep_register_plain,
}
use blue_thread.Lockdep.Invariant.Checking.{Checked, Danger, CheckEnds}
use blue_thread.Lockdep.Invariant.Checking.Loop.{check_held-Ends}

-- An id that a mutex may pass: one with a name, or any negative number.
abbrev pub Fits : Lockdep → ℤ → Type 0
Fits s (pos id) = IsNamed s id
Fits s (negsuc n) = Unit

-- The id that a call works with, in the state after a registration where there was none.
abbrev pub Resolves : Lockdep → String → ℤ → ℕ → Lockdep → Type 0
Resolves s name (pos id) k u = (k ≡ id) × (u ≡ s)
Resolves s name (negsuc n) k u = Registered s name k u

-- A call throws only if it has to register the mutex, and no id is left.
abbrev pub ThrowEnds : Lockdep → ℤ → ℕ → Lockdep → Type 0
ThrowEnds s (pos id) e t = ⊥
ThrowEnds s (negsuc n) e t = (e ≡ runtime_error) × Refused s t

abbrev pub KnownEnds : Lockdep → String → ℤ → Outcome Lockdep ℕ → Type 0
KnownEnds s name z (done k u) = Resolves s name z k u × Inv u × IsNamed u k
KnownEnds s name z (threw e t) = ThrowEnds s z e t
KnownEnds s name z _ = ⊥

known_new :
    (s : Lockdep) (name : String) (n : ℕ) (r : Outcome Lockdep ℕ)
    → RegisterEnds s name r
    → KnownEnds s name (negsuc n) r
known_new s name n (done k u) h = (h, h.inv, (name, h.inv.name_id name k h.known))
known_new s name n (threw e u) h = h
known_new s name n (aborted u) h = h
known_new s name n (blocked u) h = h
known_new s name n diverged h = h

pub known_id-Ends :
    (s : Lockdep) (name : String) (z : ℤ)
    → Inv s
    → Fits s z
    → KnownEnds s name z (known_id name z s)
unfolding known_id
known_id-Ends s name (pos id) v fits = ((refl, refl), v, fits)
known_id-Ends s name (negsuc n) v fits =
    known_new s name n (lockdep_register name s) (lockdep_register_plain s name v)

-- lockdep_will_lock returns with the edges from all held locks, which close no cycle; or it aborts,
-- and there was a lock among the held ones to which a walk leads from the lock that it asks for.
abbrev pub WillLockEnds : Lockdep → String → ℤ → ℕ → Outcome Lockdep ℤ → Type 0
WillLockEnds s name z tid (done (pos k) t) =
    (u : Lockdep) × Resolves s name z k u × Checked u (u.held_locks tid) k t
WillLockEnds s name z tid (aborted t) =
    (k : ℕ) × (u : Lockdep) × Resolves s name z k u × Danger u (u.held_locks tid) k
WillLockEnds s name z tid (threw e t) = ThrowEnds s z e t
WillLockEnds s name z tid _ = ⊥

after_check :
    (s u : Lockdep) (name : String) (z : ℤ) (tid k : ℕ)
    → Resolves s name z k u
    → (r : Outcome Lockdep (Unit {0})) → CheckEnds u (u.held_locks tid) k r
    → WillLockEnds s name z tid (bind_outcome r (λ _. done (pos k)))
after_check s u name z tid k how (done _ t) c = (u, how, c)
after_check s u name z tid k how (aborted t) c = (k, u, how, c)
after_check s u name z tid k how (threw e t) c = absurd c
after_check s u name z tid k how (blocked t) c = c
after_check s u name z tid k how diverged c = c

after_known :
    (s : Lockdep) (name : String) (z : ℤ) (tid : ℕ) (bt : BackTrace) (r : Outcome Lockdep ℕ)
    → KnownEnds s name z r
    → WillLockEnds s name z tid (
        bind_outcome r
          λ k u. bind_outcome (check_held (u.held_locks tid) k bt u) (λ _. done (pos k)))
after_known s name z tid bt (done k u) (how, v, named) =
    after_check s u name z tid k how (check_held (u.held_locks tid) k bt u)
      (check_held-Ends k bt u (u.held_locks tid) v (λ h m. v.helds_named tid h m) named)
after_known s name z tid bt (threw e t) h = h
after_known s name z tid bt (aborted t) h = absurd h
after_known s name z tid bt (blocked t) h = h
after_known s name z tid bt diverged h = h

-- From a state with the invariant, lockdep_will_lock always ends. It returns exactly with an edge
-- from each lock that the thread holds to the new one, all other edges as before, and the invariant,
-- so no cycle; or it aborts because a walk leads from the new lock to one that the thread holds; or
-- it throws because it has to register the mutex and all ids are taken.
pub lockdep_will_lock-Ends :
    (s : Lockdep) (name : String) (z : ℤ) (tid : ℕ) (bt : BackTrace)
    → Inv s
    → Fits s z
    → WillLockEnds s name z tid (lockdep_will_lock name z tid bt s)
unfolding lockdep_will_lock
lockdep_will_lock-Ends s name z tid bt v fits =
    after_known s name z tid bt (known_id name z s) (known_id-Ends s name z v fits)
