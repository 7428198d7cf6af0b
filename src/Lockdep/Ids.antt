-- ===== src/Lockdep/Ids.antt =====
-- Lock ids: `init_lock_ids_bitmap`, `lockdep_get_free_id` and `_lockdep_register`.
pub mod Alloc
use mathlib.Core.Option.{get_or}
use Prim.Native.Char.{code}
use Prim.Native.String.{[], ◌∷◌}
use blue_thread.Prelude.{
  ℕ, zero, suc, ◌+◌, ◌*◌, ◌/◌, ◌==◌, true, Option, none, some, String, ℤ, pos, negsuc, update,
  update_name, if◌then◌else◌, leb, M, done, pure, throw,
}
use blue_thread.Prelude.Integer.{increment}
use blue_thread.Lockdep.Bits.{Bytes, test_at, clear_at, test_bit, clear_bit, fill}
use blue_thread.Lockdep.State.{Lockdep, max_locks}

unfoldable pub init_lock_ids_bitmap : Lockdep → Lockdep
init_lock_ids_bitmap s = if s.lock_ids_bitmap_initialized then s else record s {
  lock_ids_bitmap = fill s.lock_ids_bitmap (max_locks / 8) 255;
  lock_ids_bitmap_initialized = true;
}

-- The inner loop, `k` rounds before its end.
unfoldable pub scan_byte : ℕ → Bytes → ℕ → ℕ → Option ℕ
scan_byte zero m i j = none
scan_byte (suc k) m i j =
    let rest = scan_byte k m i (suc j) in if test_at m i j then some j else rest

-- The outer loop, `k` rounds before its end.
unfoldable pub scan_bytes : ℕ → Bytes → ℕ → Option (ℕ × ℕ)
scan_bytes zero m i = none
scan_bytes (suc k) m i = elim (scan_byte 8 m i 0) [
  | none ↦ scan_bytes k m (suc i)
  | some j ↦ some (i, j)
]

-- The body of the `if` in the loops, and the last `return`.
unfoldable pub take_found : Lockdep → Option (ℕ × ℕ) → ℤ × Lockdep
take_found s none = (negsuc 0, s)
take_found s (some (i, j)) =
    (pos (i * 8 + j), record s { lock_ids_bitmap = clear_at s.lock_ids_bitmap i j })

abbrev pub search_bitmap : Lockdep → ℤ × Lockdep
search_bitmap s = take_found s (scan_bytes (max_locks / 8) s.lock_ids_bitmap 0)

-- The first `if` of lockdep_get_free_id, on `last_free_lock_id`.
unfoldable pub reuse_last : Lockdep → ℤ → ℤ × Lockdep
reuse_last s (negsuc n) = search_bitmap s
reuse_last s (pos id) =
    if test_bit s.lock_ids_bitmap id
    then (
      pos id,
      record s { last_free_lock_id = negsuc 0; lock_ids_bitmap = clear_bit s.lock_ids_bitmap id },
    )
    else search_bitmap s

unfoldable pub lockdep_get_free_id : Lockdep → ℤ × Lockdep
lockdep_get_free_id s = let t = init_lock_ids_bitmap s in reuse_last t t.last_free_lock_id

-- lock_ref[id]++
unfoldable pub count_ref : ℕ → Lockdep → Lockdep
count_ref id s = record s {
  lock_ref = update s.lock_ref id (some (increment (get_or (s.lock_ref id) (pos 0))));
}

-- The entries of a new name, and `current_max_id`.
unfoldable pub enter_name : String → ℕ → Lockdep → Lockdep
enter_name name id s = record s {
  current_max_id = if leb s.current_max_id id then id + 1 else s.current_max_id;
  name_to_id_map = update_name s.name_to_id_map name (some id);
  id_to_name_map = update s.id_to_name_map id (some name);
}

-- The branch of _lockdep_register for a name that is not in the map, after the call.
unfoldable pub register_new : String → ℤ × Lockdep → ℤ × Lockdep
register_new name (negsuc n, s) = (negsuc 0, s)
register_new name (pos id, s) = (pos id, count_ref id (enter_name name id s))

-- The C string of a name ends before its first NUL.
unfoldable pub c_str : String → String
c_str [] = []
c_str (c ∷ s) = let rest = c_str s in if code c == 0 then [] else c ∷ rest

-- _lockdep_register, which looks a name up by its C string and enters it as it is.
unfoldable pub register_c_str : String → Lockdep → ℤ × Lockdep
register_c_str name s = elim (s.name_to_id_map (c_str name)) [
  | none ↦ register_new name (lockdep_get_free_id s)
  | some id ↦ (pos id, count_ref id s)
]

-- The same for the names without NUL, which are all names of the other modules.
unfoldable pub register_name : String → Lockdep → ℤ × Lockdep
register_name name s = elim (s.name_to_id_map name) [
  | none ↦ register_new name (lockdep_get_free_id s)
  | some id ↦ (pos id, count_ref id s)
]

-- std::runtime_error
abbrev pub runtime_error : ℕ
runtime_error = 0

-- A failed registration is an exception; the mutex of the module is released first.
unfoldable pub or_throw : ℤ × Lockdep → M Lockdep ℕ
or_throw (negsuc n, s) _ = throw runtime_error s
or_throw (pos id, s) _ = done id s

unfoldable pub lockdep_register_c_str : String → M Lockdep ℕ
unfolding or_throw
lockdep_register_c_str name s = or_throw (register_c_str name s) s

unfoldable pub lockdep_register : String → M Lockdep ℕ
unfolding or_throw
lockdep_register name s = or_throw (register_name name s) s

-- if (id < 0) { id = _lockdep_register(name); … }
unfoldable pub known_id : String → ℤ → M Lockdep ℕ
unfolding lockdep_register
known_id name (pos id) = pure id
known_id name (negsuc n) = lockdep_register name
