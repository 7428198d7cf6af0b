-- ===== src/Mutex/Lifetime.antt =====
-- A BlueMutex that uses lockdep from its constructor to its destructor, and unlock().
use blue_thread.Prelude.{
  ℕ, zero, suc, ◌≡◌, refl, none, some, true, String, pos, Outcome, done, threw, blocked, aborted,
  diverged, bind_outcome, arith,
}
use blue_thread.Pthread.{PthreadMutex, ErrorCheck}
use blue_thread.Lockdep.State.{Lockdep, erase_held}
use blue_thread.Lockdep.Ids.{c_str, lockdep_register, runtime_error}
use blue_thread.Lockdep.Calls.{lockdep_will_unlock, lockdep_unregister}
use blue_thread.Lockdep.Invariant.{Holds, Inv}
use blue_thread.Lockdep.Invariant.Registering.{
  Registered, Refused, RegisterEnds, lockdep_register_plain,
}
use blue_thread.Lockdep.Invariant.Locking.Helds.{GivesBack, erase-GivesBack, with_helds}
use blue_thread.Lockdep.Invariant.Unregistering.{UnregisterEnds, lockdep_unregister-Ends}
use blue_thread.Mutex.{
  World, register_id, fresh, construct_base, init_native, construct, unregister_id, destruct,
  will_unlock, pre_unlock, unlock,
}
use blue_thread.Mutex.Holder.{HeldBy}
use blue_thread.Mutex.Checked.{Known}

module _ {Native : Type 0} (p : PthreadMutex Native) (c : ErrorCheck p) where
  -- A new mutex: free, registered under its name.
  pub record Constructed (name : String) (s : Lockdep) (w : World Native) : Type 0 where
    pub id : ℕ
    pub known : Known c id none w
    pub entry : Registered s name id w.tables

  abbrev pub ConstructEnds : String → Lockdep → Outcome (World Native) (Unit {0}) → Type 0
  ConstructEnds name s (done _ w) = Constructed name s w
  ConstructEnds name s (threw e w) = (e ≡ runtime_error) × Refused s w.tables
  ConstructEnds name s _ = ⊥

  init_native-eq :
      (w : World Native)
      → (n : Native) × (c.owner n ≡ none)
        × (init_native p w ≡ done tt (record w { mutex = record w.mutex { m = n } }))
  unfolding init_native
  init_native-eq w = let (n, e, o) = c.init_free in (n, o, rw (c.settype_known, e) refl)

  construct_base-eq :
      (name : String) (s : Lockdep)
      → construct_base (fresh p.init.1 name true s)
        ≡ register_id (fresh p.init.1 name true s) (lockdep_register name s)
  unfolding construct_base fresh
  construct_base-eq name s = refl

  init_native-Ends :
      (name : String) (s : Lockdep) (r : Outcome Lockdep ℕ)
      → RegisterEnds s name r
      → ConstructEnds name s
          (bind_outcome (register_id (fresh p.init.1 name true s) r) (λ _. init_native p))
  unfolding register_id fresh
  init_native-Ends name s (done k t) h =
      let (n, o, e) =
        init_native-eq (record {
          tables = t;
          mutex = record (fresh p.init.1 name true s).mutex { id = pos k };
        }) in
      rw e (record {
        id = k;
        known = record {
          holder = record { unowned = o; uncounted = refl };
          inv = h.inv;
          checked = refl;
          registered = refl;
          named = (name, h.inv.name_id name k h.known);
          listed = λ t e. absurd (cc);
        };
        entry = h;
      })
  init_native-Ends name s (threw e t) h = h
  init_native-Ends name s (aborted t) h = h
  init_native-Ends name s (blocked t) h = h
  init_native-Ends name s diverged h = h

  -- The constructor of a mutex with lockdep and a name without NUL gives a free mutex that is
  -- registered under its name, or it throws because all ids are taken. The invariant of the tables
  -- holds after both.
  pub construct-Ends :
      (name : String) (s : Lockdep)
      → Inv s
      → c_str name ≡ name
      → ConstructEnds name s (construct p name true s)
  unfolding construct
  construct-Ends name s v e =
      rw (construct_base-eq name s)
        (init_native-Ends name s (lockdep_register name s) (lockdep_register_plain s name v))

  -- After unlock(): the mutex is free, and lockdep has it no longer in the list of the thread.
  pub record Released (k tid : ℕ) (v w : World Native) : Type 0 where
    pub known : Known c k none w
    pub back : GivesBack v.tables tid k w.tables

  -- With lockdep, unlock() by the holder returns with the mutex free and off the thread's list.
  pub unlock-Released :
      (v : World Native) (tid k : ℕ)
      → Known c k (some tid) v
      → (w : World Native) × (unlock p tid v ≡ done tt w) × Released k tid v w
  unfolding unlock pre_unlock will_unlock lockdep_will_unlock
  unlock-Released v tid k kn =
      let (n, e, o) = c.unlock_own tid v.mutex.m kn.holder.owned in
      let back = erase-GivesBack v.tables tid k kn.inv in
      (
        record {
          tables = with_helds v.tables tid (erase_held k (v.tables.held_locks tid));
          mutex = record v.mutex { id = pos k; m = n; locked_by = some tid; locked_count = 0 };
        },
        ground (arith, e, kn.checked, kn.registered),
        record {
          known = record {
            holder = record { unowned = o; uncounted = refl };
            inv = back.inv;
            checked = kn.checked;
            registered = refl;
            named = kn.named;
            listed = λ t q. absurd (cc);
          };
          back = back;
        },
      )

  -- The outcome of the destructor, `j` references to the id below the last.
  abbrev pub DestructEnds : World Native → ℕ → ℕ → Outcome (World Native) (Unit {0}) → Type 0
  DestructEnds v k j (done _ w) = UnregisterEnds v.tables k j (done tt w.tables)
  DestructEnds v k j _ = ⊥

  unregister_id-Ends :
      (v : World Native) (k j : ℕ) (r : Outcome Lockdep (Unit {0}))
      → UnregisterEnds v.tables k j r
      → DestructEnds v k j (unregister_id v r)
  unfolding unregister_id
  unregister_id-Ends v k zero (done _ t) h = h
  unregister_id-Ends v k (suc j) (done _ t) h = h
  unregister_id-Ends v k zero (threw e t) h = absurd h
  unregister_id-Ends v k (suc j) (threw e t) h = absurd h
  unregister_id-Ends v k zero (aborted t) h = absurd h
  unregister_id-Ends v k (suc j) (aborted t) h = absurd h
  unregister_id-Ends v k zero (blocked t) h = absurd h
  unregister_id-Ends v k (suc j) (blocked t) h = absurd h
  unregister_id-Ends v k zero diverged h = absurd h
  unregister_id-Ends v k (suc j) diverged h = absurd h

  destruct-eq :
      (v : World Native) (k : ℕ)
      → Known c k none v
      → destruct p v ≡ unregister_id v (lockdep_unregister (pos k) v.tables)
  unfolding destruct
  destruct-eq v k kn = ground (
    arith,
    c.destroy_free v.mutex.m kn.holder.unowned,
    kn.checked,
    kn.registered,
    kn.holder.uncounted,
  )

  -- The destructor of a free mutex with lockdep returns: the id keeps its name while another mutex
  -- has it, and at the last reference, if no thread holds it, the name and its edges are gone.
  pub destruct-Ends :
      (v : World Native) (k j : ℕ)
      → Known c k none v
      → v.tables.lock_ref k ≡ some (pos (suc j))
      → (j ≡ 0 → (t : ℕ) → ¬ Holds (v.tables.held_locks t) k)
      → DestructEnds v k j (destruct p v)
  destruct-Ends v k j kn count idle =
      rw (destruct-eq v k kn) (
        unregister_id-Ends v k j _
          (lockdep_unregister-Ends v.tables k j kn.inv kn.named count idle))

  -- The destructor of a mutex that is held aborts.
  pub destruct_held : (v : World Native) (t : ℕ) → HeldBy c t v.mutex → destruct p v ≡ aborted v
  unfolding destruct
  destruct_held v t h = ground (arith, c.destroy_busy t v.mutex.m h.owned)
