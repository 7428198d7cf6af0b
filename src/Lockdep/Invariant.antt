-- ===== src/Lockdep/Invariant.antt =====
-- What holds of the tables of synchronization/utils.cc between two calls.
pub mod Registering
pub mod Edges
pub mod Checking
pub mod Locking
pub mod Unregistering
use blue_thread.Prelude.{
  ℕ, suc, ◌≤◌, ◌<◌, ◌≡◌, refl, ◌⊎◌, Bool, true, false, Option, none, some, List, [], ◌∷◌, String, ℤ,
  pos, arith,
}
use blue_thread.BackTrace.{BackTrace}
use blue_thread.Lockdep.Bits.{Bytes, test-fill_zeros, test-fill_ones}
use blue_thread.Lockdep.State.{Lockdep, max_locks, edge, init}
use blue_thread.Lockdep.Ids.{init_lock_ids_bitmap}
use blue_thread.Lockdep.Ids.Alloc.{is_free, LastIsSmall}
use blue_thread.Lockdep.Follow.Correct.{IsAcyclic}

abbrev pub IsNamed : Lockdep → ℕ → Type 0
IsNamed s id = (name : String) × (s.id_to_name_map id ≡ some name)

-- The keys of a `std::map` of held locks.
abbrev pub Holds : List (ℕ × BackTrace) → ℕ → Type 0
Holds [] id = ⊥
Holds ((j, _) ∷ m) id = (id ≡ j) ⊎ Holds m id

-- In ascending order, each key once.
abbrev pub Ascending : List (ℕ × BackTrace) → Type 0
Ascending [] = Unit
Ascending ((j, _) ∷ m) = ((i : ℕ) → Holds m i → j < i) × Ascending m

pub record Inv (s : Lockdep) : Type 0 where
  -- the two maps of names are inverse to one another
  pub name_id : (n : String) (i : ℕ) → s.name_to_id_map n ≡ some i → s.id_to_name_map i ≡ some n
  pub id_name : (i : ℕ) (n : String) → s.id_to_name_map i ≡ some n → s.name_to_id_map n ≡ some i
  -- ids are in range, and used exactly if they have a name
  pub below_max : (i : ℕ) (n : String) → s.id_to_name_map i ≡ some n → i < s.current_max_id
  pub max_small : s.current_max_id ≤ max_locks
  pub used : (i : ℕ) (n : String) → s.id_to_name_map i ≡ some n → is_free s i ≡ false
  pub unused : (i : ℕ) → i < max_locks → s.id_to_name_map i ≡ none → is_free s i ≡ true
  pub last_small : LastIsSmall s
  -- the references of an id are counted if it has a name
  pub counted :
      (i : ℕ) (n : String)
      → s.id_to_name_map i ≡ some n
      → (k : ℕ) × (s.lock_ref i ≡ some (pos (suc k)))
  pub uncounted : (i : ℕ) → s.id_to_name_map i ≡ none → s.lock_ref i ≡ none
  -- only ids with a name are held or have edges, and the edges have no cycle
  pub edges_named : (a b : ℕ) → edge s.lock_tree a b ≡ true → IsNamed s a × IsNamed s b
  pub helds_named : (t i : ℕ) → Holds (s.held_locks t) i → IsNamed s i
  pub helds_sorted : (t : ℕ) → Ascending (s.held_locks t)
  pub acyclic : IsAcyclic s.lock_tree
