-- ===== src/Mutex/Checked.antt =====
-- A BlueMutex that uses lockdep, after its constructor has registered it.
use blue_thread.Prelude.{
  ℕ, ◌+◌, ◌≡◌, ◌≢◌, refl, ap, subst, inl, inr, Option, none, some, true, ℤ, pos, negsuc, Outcome,
  done, threw, blocked, aborted, diverged, bind_outcome, ◌==◌, ==_iff, arith, Bool-cases,
}
use blue_thread.BackTrace.{BackTrace}
use blue_thread.Pthread.{PthreadMutex, ErrorCheck}
use blue_thread.Lockdep.State.{Lockdep}
use blue_thread.Lockdep.Ids.{known_id}
use blue_thread.Lockdep.Calls.{lockdep_will_lock, hold, lockdep_locked}
use blue_thread.Lockdep.Invariant.{IsNamed, Holds, Inv}
use blue_thread.Lockdep.Invariant.Checking.{Checked, Danger}
use blue_thread.Lockdep.Invariant.Locking.{WillLockEnds, lockdep_will_lock-Ends}
use blue_thread.Lockdep.Invariant.Locking.Helds.{Takes, hold-Takes}
use blue_thread.Mutex.{
  World, store_id, will_lock, locked, post_lock, try_lock, lock_rest, lock_slow, lock,
}
use blue_thread.Mutex.Holder.{IsFree, HeldBy, Holder}

-- What a check of the id `k` by the thread gives.
abbrev pub WillEnds : Lockdep → ℕ → ℕ → Outcome Lockdep ℤ → Type 0
WillEnds s k tid (done z t) = (z ≡ pos k) × Checked s (s.held_locks tid) k t
WillEnds s k tid (aborted t) = Danger s (s.held_locks tid) k
WillEnds s k tid _ = ⊥

pub will_at :
    (s : Lockdep) (name : _) (k tid : ℕ) (r : Outcome Lockdep ℤ)
    → WillLockEnds s name (pos k) tid r
    → WillEnds s k tid r
will_at s name k tid (done (pos j) t) (u, (e, same), c) = (
  ap pos e,
  subst (λ (x : Lockdep). Checked x (x.held_locks tid) k t) same
      (subst (λ (i : ℕ). Checked u (u.held_locks tid) i t) e c),
)
will_at s name k tid (aborted t) (j, u, (e, same), d) =
    subst (λ (x : Lockdep). Danger x (x.held_locks tid) k) same
      (subst (λ (i : ℕ). Danger u (u.held_locks tid) i) e d)
will_at s name k tid (threw e t) h = h
will_at s name k tid (blocked t) h = h
will_at s name k tid diverged h = h
will_at s name k tid (done (negsuc j) t) h = absurd h

-- The state of a mutex with its tables: who holds it, and that lockdep knows.
pub record Known {Native : Type 0} {p : PthreadMutex Native} (c : ErrorCheck p) (k : ℕ)
    (h : Option ℕ) (w : World Native) : Type 0 where
  pub holder : Holder c w.mutex h
  pub inv : Inv w.tables
  pub checked : w.mutex.lockdep ≡ true
  pub registered : w.mutex.id ≡ pos k
  pub named : IsNamed w.tables k
  pub listed : (t : ℕ) → h ≡ some t → Holds (w.tables.held_locks t) k

module _ {Native : Type 0} (p : PthreadMutex Native) (c : ErrorCheck p) (k : ℕ) where
  -- The mutex is held by the caller, with all edges from the locks it held before.
  pub record Acquired (tid : ℕ) (v w : World Native) : Type 0 where
    pub known : Known c k (some tid) w
    pub between : Lockdep
    pub check : Checked v.tables (v.tables.held_locks tid) k between
    pub takes : Takes between tid k w.tables

  -- The mutex is as before, the edges are there, and the caller waits.
  pub record Waits (tid u : ℕ) (v w : World Native) : Type 0 where
    pub other : u ≢ tid
    pub known : Known c k (some u) w
    pub check : Checked v.tables (v.tables.held_locks tid) k w.tables

  -- What is left of the call, from `v` on, returns with the mutex held and listed.
  abbrev Resumes : ℕ → World Native → Outcome (World Native) (Unit {0}) → Type 0
  Resumes tid v (done _ w) = Known c k (some tid) w × Takes v.tables tid k w.tables
  Resumes tid v _ = ⊥

  -- `r` is what the call gives at `v`, and `s` is what is left of it when its wait ends, at `later`.
  abbrev pub LockEnds :
      World Native
      → ℕ
      → Option ℕ
      → Outcome (World Native) (Unit {0})
      → World Native
      → Outcome (World Native) (Unit {0})
      → Type 0
  LockEnds v tid none (done _ w) later s = Acquired tid v w
  LockEnds v tid (some u) (blocked w) later s = Waits tid u v w × Resumes tid later s
  LockEnds v tid h (aborted w) later s = Danger v.tables (v.tables.held_locks tid) k
  LockEnds v tid _ _ later s = ⊥

  module _ (v : World Native) (tid : ℕ) (bt : BackTrace) (h : Option ℕ) (kn : Known c k h v) where
    abbrev rest : World Native → Outcome (World Native) (Unit {0})
    rest w = bind_outcome (try_lock p tid bt w) (lock_slow p tid bt)

    -- After the check, in the tables `t`.
    abbrev after_check : Lockdep → World Native
    after_check t = record { tables = t; mutex = record v.mutex { id = pos k } }

    rest_free :
        (t : Lockdep)
        → IsFree c v.mutex
        → (n : Native) × (c.owner n ≡ some tid)
          × (rest (after_check t)
              ≡ done tt (record {
                tables = hold tid k bt t;
                mutex = record v.mutex {
                  id = pos k;
                  m = n;
                  locked_by = some tid;
                  locked_count = v.mutex.locked_count + 1;
                };
              }))
    unfolding try_lock lock_slow locked post_lock lockdep_locked known_id
    rest_free t f =
        let (n, e, o) = c.trylock_free tid v.mutex.m f.unowned in
        (n, o, ground (arith, e, kn.checked))

    rest_other :
        (t : Lockdep) (u : ℕ)
        → u ≢ tid
        → HeldBy c u v.mutex
        → rest (after_check t) ≡ blocked (after_check t)
    unfolding try_lock lock_slow
    rest_other t u ne held =
        ground (
          arith,
          c.trylock_busy tid u v.mutex.m held.owned,
          c.lock_other tid u v.mutex.m held.owned,
        )

    owning-Acquired :
        (t : Lockdep) (n : Native)
        → Checked v.tables (v.tables.held_locks tid) k t
        → c.owner n ≡ some tid
        → v.mutex.locked_count ≡ 0
        → Acquired tid v (record {
          tables = hold tid k bt t;
          mutex = record v.mutex {
            id = pos k;
            m = n;
            locked_by = some tid;
            locked_count = v.mutex.locked_count + 1;
          };
        })
    owning-Acquired t n ch o zero_count =
        let named : IsNamed t k = rw ch.ids kn.named in
        let takes = hold-Takes t tid k bt ch.inv named in
        record {
          known = record {
            holder = record { owned = o; counted = omega arith; named = refl };
            inv = takes.inv;
            checked = kn.checked;
            registered = refl;
            named = rw (ap (λ (x : Lockdep). x.id_to_name_map) takes.rest) named;
            listed = λ x e.
                let same : tid ≡ x = ground arith in
                subst (λ (y : ℕ). Holds ((hold tid k bt t).held_locks y) k) same
                  ((takes.exactly k).1 (inl refl));
          };
          between = t;
          check = ch;
          takes = takes;
        }

    waiting-Waits :
        (t : Lockdep) (u : ℕ)
        → Checked v.tables (v.tables.held_locks tid) k t
        → u ≢ tid
        → HeldBy c u v.mutex
        → ((x : ℕ) → some u ≡ some x → Holds (v.tables.held_locks x) k)
        → Waits tid u v (after_check t)
    waiting-Waits t u ch ne held listed = record {
      other = ne;
      known = record {
        holder = record { owned = held.owned; counted = held.counted; named = held.named };
        inv = ch.inv;
        checked = kn.checked;
        registered = refl;
        named = rw ch.ids kn.named;
        listed = λ x e. rw ch.helds (listed x e);
      };
      check = ch;
    }

  -- A wait that ends: the native mutex is taken and lockdep lists it.
  lock_rest-Resumes :
      (v : World Native) (tid : ℕ) (bt : BackTrace)
      → Known c k none v
      → Resumes tid v (lock_rest p tid bt v)
  unfolding lock_rest locked post_lock lockdep_locked known_id
  lock_rest-Resumes v tid bt kn =
      let (n, e, o) = c.lock_free tid v.mutex.m kn.holder.unowned in
      let run : lock_rest p tid bt v
          ≡ done tt (record {
            tables = hold tid k bt v.tables;
            mutex = record v.mutex {
              id = pos k;
              m = n;
              locked_by = some tid;
              locked_count = v.mutex.locked_count + 1;
            };
          }) =
        ground (arith, e, kn.checked, kn.registered) in
      let takes = hold-Takes v.tables tid k bt kn.inv kn.named in
      rw run (
        record {
          holder = record { owned = o; counted = omega (arith, kn.holder.uncounted); named = refl };
          inv = takes.inv;
          checked = kn.checked;
          registered = refl;
          named = rw (ap (λ (x : Lockdep). x.id_to_name_map) takes.rest) kn.named;
          listed = λ x e.
              let same : tid ≡ x = ground arith in
              subst (λ (y : ℕ). Holds ((hold tid k bt v.tables).held_locks y) k) same
                ((takes.exactly k).1 (inl refl));
        },
        takes,
      )

  rest-Ends :
      (v : World Native) (tid : ℕ) (bt : BackTrace) (h : Option ℕ) (kn : Known c k h v)
      (t : Lockdep) (later : World Native) (kn' : Known c k none later)
      → Checked v.tables (v.tables.held_locks tid) k t
      → LockEnds v tid h
          (rest v tid bt h kn (after_check v tid bt h kn t))
          later
          (lock_rest p tid bt later)
  rest-Ends v tid bt none kn t later kn' ch =
      let (n, o, e) = rest_free v tid bt none kn t kn.holder in
      rw e (owning-Acquired v tid bt none kn t n ch o kn.holder.uncounted)
  rest-Ends v tid bt (some u) kn t later kn' ch = elim (Bool-cases (u == tid)) [
    | inl same ↦
        let own = (==_iff u tid).0 same in
        absurd (
          ch.safe k (subst (λ (x : ℕ). Holds (v.tables.held_locks x) k) own (kn.listed u refl))
            (inl refl))
    | inr differ ↦
        let ne : u ≢ tid = λ e. cc ((==_iff u tid).1 e) in
        rw (rest_other v tid bt (some u) kn t u ne kn.holder) (
          waiting-Waits v tid bt (some u) kn t u ch ne kn.holder kn.listed,
          lock_rest-Resumes later tid bt kn',
        )
  ]

  after_will :
      (v : World Native) (tid : ℕ) (bt : BackTrace) (h : Option ℕ) (kn : Known c k h v)
      → (later : World Native) → Known c k none later
      → (r : Outcome Lockdep ℤ) → WillEnds v.tables k tid r
      → LockEnds v tid h
          (bind_outcome (store_id v r) (λ _. rest v tid bt h kn))
          later
          (lock_rest p tid bt later)
  unfolding store_id
  after_will v tid bt h kn later kn' (done z t) (e, ch) =
      rw e (rest-Ends v tid bt h kn t later kn' ch)
  after_will v tid bt none kn later kn' (aborted t) d = d
  after_will v tid bt (some u) kn later kn' (aborted t) d = d
  after_will v tid bt h kn later kn' (threw e t) d = absurd d
  after_will v tid bt h kn later kn' (blocked t) d = absurd d
  after_will v tid bt h kn later kn' diverged d = absurd d

  lock-eq :
      (v : World Native) (tid : ℕ) (bt : BackTrace) (h : Option ℕ) (kn : Known c k h v)
      → lock p tid bt v
        ≡ bind_outcome
            (store_id v (lockdep_will_lock v.mutex.lock_name (pos k) tid bt v.tables))
            (λ _. rest v tid bt h kn)
  unfolding lock will_lock
  lock-eq v tid bt h kn = simp (kn.checked, kn.registered)

  -- With lockdep, lock() on a registered mutex first records an edge from every lock that the caller
  -- holds; then it returns with the mutex held and listed if it was free, and waits if another
  -- thread holds it. In any later state in which the mutex is free, the rest of a call that waited
  -- returns with the mutex held by the caller and listed. A call aborts only if a walk leads from the
  -- mutex to a lock that the caller holds, and always if the caller holds this one: EDEADLK of the
  -- native mutex is never seen.
  pub lock-Ends :
      (v : World Native) (tid : ℕ) (bt : BackTrace) (h : Option ℕ) (later : World Native)
      → Known c k h v
      → Known c k none later
      → LockEnds v tid h (lock p tid bt v) later (lock_rest p tid bt later)
  lock-Ends v tid bt h later kn kn' =
      let named : IsNamed v.tables k = kn.named in
      rw (lock-eq v tid bt h kn) (
        after_will v tid bt h kn later kn' _ (
          will_at v.tables v.mutex.lock_name k tid _
            (lockdep_will_lock-Ends v.tables v.mutex.lock_name (pos k) tid bt kn.inv named)))
