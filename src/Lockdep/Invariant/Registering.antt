-- ===== src/Lockdep/Invariant/Registering.antt =====
-- Registration keeps the invariant, and gives the name an id.
use mathlib.Core.Option.{get_or}
use blue_thread.Prelude.Integer.{increment}
use blue_thread.Prelude.{
  ℕ, suc, ◌<◌, ◌≡◌, refl, sym, ap, ◌∙◌, inl, inr, true, false, none, some, String, ℤ, pos, negsuc,
  arith, Bool-cases, Option-cases, eq_iff, Outcome, done, threw, ◌==◌, update, if◌then◌else◌,
}
use blue_thread.Lockdep.Bits.{Bytes, test_bit}
use blue_thread.Lockdep.State.{Lockdep, max_locks}
use blue_thread.Lockdep.Ids.{
  init_lock_ids_bitmap, lockdep_get_free_id, count_ref, enter_name, register_new, register_name,
  or_throw, lockdep_register, runtime_error, c_str, register_c_str, lockdep_register_c_str,
}
use blue_thread.Lockdep.Ids.Alloc.{
  is_free, with_ids, Gives, init_with_ids, is_free_init, lockdep_get_free_id-Gives,
}
use blue_thread.Lockdep.Invariant.{IsNamed, Inv}

-- Another positive count of references to an id with a name.
abbrev pub recount : ℕ → ℕ → Lockdep → Lockdep
recount id k s = record s { lock_ref = update s.lock_ref id (some (pos (suc k))) }

pub recount-Inv : (s : Lockdep) (id k : ℕ) → IsNamed s id → Inv s → Inv (recount id k s)
recount-Inv s id k (name, e) v = record {
  name_id = v.name_id;
  id_name = v.id_name;
  below_max = v.below_max;
  max_small = v.max_small;
  used = λ i n h. v.used i n h;
  unused = λ i lt h. v.unused i lt h;
  last_small = v.last_small;
  counted = λ i n h.
      let (m, d) = v.counted i n h in
      elim (Bool-cases (id == i)) [ inl t ↦ (k, ground arith) | inr f ↦ (m, ground arith) ];
  uncounted = λ i h. ground (arith, v.uncounted i);
  edges_named = v.edges_named;
  helds_named = v.helds_named;
  helds_sorted = v.helds_sorted;
  acyclic = v.acyclic;
}

count_ref-Inv : (s : Lockdep) (id : ℕ) → IsNamed s id → Inv s → Inv (count_ref id s)
unfolding count_ref
count_ref-Inv s id (name, e) v =
    let (k, c) = v.counted id name e in rw c (recount-Inv s id (suc k) (name, e) v)

-- What a registration leaves alone.
pub record SameGraph (s t : Lockdep) : Type 0 where
  pub tree : t.lock_tree ≡ s.lock_tree
  pub helds : t.held_locks ≡ s.held_locks

-- An id: the name has it, and one reference more. Else -1: every id has a name.
pub record Registered (s : Lockdep) (name : String) (id : ℕ) (t : Lockdep) : Type 0 where
  pub inv : Inv t
  pub known : t.name_to_id_map name ≡ some id
  pub stable : (i : ℕ) → s.name_to_id_map name ≡ some i → id ≡ i
  pub counted : t.lock_ref id ≡ some (increment (get_or (s.lock_ref id) (pos 0)))
  pub named : (i : ℕ) → IsNamed s i → IsNamed t i
  pub graph : SameGraph s t

pub record Refused (s t : Lockdep) : Type 0 where
  pub inv : Inv t
  pub full : (id : ℕ) → id < max_locks → IsNamed s id
  pub graph : SameGraph s t

abbrev pub Registers : Lockdep → String → ℤ × Lockdep → Type 0
Registers s name (pos id, t) = Registered s name id t
Registers s name (negsuc n, t) = Refused s t

-- A new name on an id that was free.
module _ (s : Lockdep) (v : Inv s) (id : ℕ) (name : String) (m : Bytes) (last : ℤ)
    (fresh : s.name_to_id_map name ≡ none) (was_free : is_free s id ≡ true) (small : id < max_locks)
    (taken : (j : ℕ) → test_bit m j ≡ (if id == j then false else is_free s j))
    (last_small : (j : ℕ) → last ≡ pos j → j < max_locks) where
  abbrev entered : Lockdep
  entered = count_ref id (enter_name name id (with_ids s m last))

  unnamed : s.id_to_name_map id ≡ none
  unnamed = elim (Option-cases (s.id_to_name_map id)) [
    | inl e ↦ e
    | inr (n, e) ↦ absurd (cc (was_free, v.used id n e))
  ]

  entered-IsNamed : (i : ℕ) → IsNamed s i → IsNamed entered i
  unfolding count_ref enter_name
  entered-IsNamed i (n, e) = (n, ground (arith, unnamed))

  register_fresh-Inv : Inv entered
  unfolding count_ref enter_name
  register_fresh-Inv = record {
    name_id = λ n i h. ground (arith, v.name_id n i, eq_iff name n, unnamed);
    id_name = λ i n h. ground (arith, v.id_name i n, eq_iff name n);
    below_max = λ i n h. ground (arith, v.below_max i n);
    max_small = ground (arith, v.max_small);
    used = λ i n h. ground (arith, v.used i n, taken i);
    unused = λ i lt h. ground (arith, v.unused i, taken i);
    last_small = last_small;
    counted = λ i n h. elim (Bool-cases (id == i)) [
      | inl t ↦ (0, ground (arith, v.uncounted id, unnamed))
      | inr f ↦ let (k, d) = v.counted i n (ground arith) in (k, ground arith)
    ];
    uncounted = λ i h. ground (arith, v.uncounted i);
    edges_named =
        λ a b e. let (x, y) = v.edges_named a b e in (entered-IsNamed a x, entered-IsNamed b y);
    helds_named = λ t i h. entered-IsNamed i (v.helds_named t i h);
    helds_sorted = v.helds_sorted;
    acyclic = v.acyclic;
  }

  register_fresh-Registered : Registered s name id entered
  unfolding count_ref enter_name
  register_fresh-Registered = record {
    inv = register_fresh-Inv;
    known = ground (arith, eq_iff name name);
    stable = λ i h. cc;
    counted = ground arith;
    named = entered-IsNamed;
    graph = record { tree = refl; helds = refl };
  }

-- The bitmap is filled on the first call, which frees no id and takes none.
init-Inv : (s : Lockdep) → Inv s → Inv (init_lock_ids_bitmap s)
init-Inv s v = rw (init_with_ids s) (record {
  name_id = v.name_id;
  id_name = v.id_name;
  below_max = v.below_max;
  max_small = v.max_small;
  used = λ i n h. is_free_init s i ∙ v.used i n h;
  unused = λ i lt h. is_free_init s i ∙ v.unused i lt h;
  last_small = v.last_small;
  counted = v.counted;
  uncounted = v.uncounted;
  edges_named = v.edges_named;
  helds_named = v.helds_named;
  helds_sorted = v.helds_sorted;
  acyclic = v.acyclic;
})

module _ (s : Lockdep) (v : Inv s) (name : String) where
  register_known-Registers :
      (id : ℕ) → s.name_to_id_map name ≡ some id → Registered s name id (count_ref id s)
  unfolding count_ref
  register_known-Registers id e = record {
    inv = count_ref-Inv s id (name, v.name_id name id e) v;
    known = e;
    stable = λ i h. cc;
    counted = ground arith;
    named = λ i n. n;
    graph = record { tree = refl; helds = refl };
  }

  register_new-Registers :
      (r : ℤ × Lockdep)
      → s.name_to_id_map name ≡ none
      → Gives s r
      → Registers s name (register_new name r)
  unfolding register_new
  register_new-Registers (negsuc n, t) e (full, same) = record {
    inv = rw same (init-Inv s v);
    full = λ id lt. elim (Option-cases (s.id_to_name_map id)) [
      | inl h ↦ absurd (cc (full id lt, v.unused id lt h))
      | inr h ↦ h
    ];
    graph =
        let p = same ∙ init_with_ids s in
        record {
          tree = ap (λ (u : Lockdep). u.lock_tree) p;
          helds = ap (λ (u : Lockdep). u.held_locks) p;
        };
  }
  register_new-Registers (pos id, t) e a = rw a.kept (
      register_fresh-Registered s v id name t.lock_ids_bitmap t.last_free_lock_id e a.was_free
        a.small a.taken λ j h. elim a.last [ inl l ↦ cc | inr l ↦ v.last_small j (sym l ∙ h) ])

  -- Every registration gives the name an id, or all ids have names; the invariant holds after it.
  pub register_name-Registers : Registers s name (register_name name s)
  unfolding register_name
  register_name-Registers = elim (Option-cases (s.name_to_id_map name)) [
    | inr (id, e) ↦ rw (e, register_name) (register_known-Registers id e)
    | inl e ↦
        rw (e, register_name)
          (register_new-Registers (lockdep_get_free_id s) e
            (lockdep_get_free_id-Gives s v.last_small))
  ]

-- The outcome of a call that registers the name, and throws if that fails.
abbrev pub RegisterEnds : Lockdep → String → Outcome Lockdep ℕ → Type 0
RegisterEnds s name (done id t) = Registered s name id t
RegisterEnds s name (threw e t) = (e ≡ runtime_error) × Refused s t
RegisterEnds s name _ = ⊥

or_throw-Ends :
    (s : Lockdep) (name : String) (r : ℤ × Lockdep)
    → Registers s name r
    → RegisterEnds s name (or_throw r s)
unfolding or_throw
or_throw-Ends s name (pos id, t) h = h
or_throw-Ends s name (negsuc n, t) h = (refl, h)

pub lockdep_register_plain :
    (s : Lockdep) (name : String) → Inv s → RegisterEnds s name (lockdep_register name s)
unfolding lockdep_register
lockdep_register_plain s name v =
    or_throw-Ends s name (register_name name s) (register_name-Registers s v name)

-- For a name without NUL the lookup by the C string is that by the name.
register_c_str-eq :
    (name : String) (s : Lockdep)
    → c_str name ≡ name
    → lockdep_register_c_str name s ≡ lockdep_register name s
unfolding lockdep_register_c_str lockdep_register register_c_str register_name
register_c_str-eq name s e =
    ap
      (λ o.
        or_throw
          (elim o [
            | none ↦ register_new name (lockdep_get_free_id s)
            | some id ↦ (pos id, count_ref id s)
          ])
          s)
      (ap s.name_to_id_map e)

-- From a state with the invariant and for a name without NUL, lockdep_register returns the id of the name, which is the old id
-- if there was one, with one reference more, or it throws runtime_error and every id has a name. The
-- invariant holds after both, and edges and held locks are as before.
pub lockdep_register-Ends :
    (s : Lockdep) (name : String)
    → Inv s
    → c_str name ≡ name
    → RegisterEnds s name (lockdep_register_c_str name s)
lockdep_register-Ends s name v e = rw (register_c_str-eq name s e) (lockdep_register_plain s name v)
