-- ===== src/Lockdep/State.antt =====
-- The global variables of synchronization/utils.cc. The values of the two maps of ids are never
-- negative, and printing is left out.
use blue_thread.Prelude.{
  ℕ, Bool, false, Option, none, List, [], ◌∷◌, String, ℤ, negsuc, if◌then◌else◌, ◌==◌, ltb,
}
use blue_thread.BackTrace.{BackTrace}
use blue_thread.Lockdep.Bits.{Bytes, test_bit}

abbrev pub max_locks : ℕ
max_locks = 4096

pub record Lockdep : Type 0 where
  pub lock_ids_bitmap : Bytes
  pub lock_ids_bitmap_initialized : Bool
  pub last_free_lock_id : ℤ
  pub name_to_id_map : String → Option ℕ
  pub id_to_name_map : ℕ → Option String
  pub lock_ref : ℕ → Option ℤ
  -- for each thread a `std::map`, in ascending order of its keys
  pub held_locks : ℕ → List (ℕ × BackTrace)
  pub lock_tree : ℕ → Bytes
  pub lock_tree_backtrace : ℕ → ℕ → Option BackTrace
  pub current_max_id : ℕ

-- The values that the variables have when the program starts.
abbrev pub init : Lockdep
init = record {
  lock_ids_bitmap = λ _. 0;
  lock_ids_bitmap_initialized = false;
  last_free_lock_id = negsuc 0;
  name_to_id_map = λ _. none;
  id_to_name_map = λ _. none;
  lock_ref = λ _. none;
  held_locks = λ _. [];
  lock_tree = λ _ _. 0;
  lock_tree_backtrace = λ _ _. none;
  current_max_id = 0;
}

-- lock_tree[a][b / 8] & (1 << (b % 8))
abbrev pub edge : (ℕ → Bytes) → ℕ → ℕ → Bool
edge tree a b = test_bit (tree a) b

-- std::map<int, BackTrace*>::operator[] with an assignment, and erase
unfoldable pub insert_held : ℕ → BackTrace → List (ℕ × BackTrace) → List (ℕ × BackTrace)
insert_held k v [] = (k, v) ∷ []
insert_held k v ((j, w) ∷ m) =
    if k == j
    then (k, v) ∷ m
    else if ltb k j
    then (k, v) ∷ (j, w) ∷ m
    else (j, w) ∷ insert_held k v m

unfoldable pub erase_held : ℕ → List (ℕ × BackTrace) → List (ℕ × BackTrace)
erase_held k [] = []
erase_held k ((j, w) ∷ m) = if k == j then m else (j, w) ∷ erase_held k m
