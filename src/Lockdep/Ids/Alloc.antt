-- ===== src/Lockdep/Ids/Alloc.antt =====
-- lockdep_get_free_id hands out a free id and marks it as used, and fails only when none is left.
use blue_thread.Prelude.{
  ℕ, zero, suc, ◌+◌, ◌*◌, ◌/◌, ◌%◌, ◌≤◌, ◌<◌, ◌≡◌, refl, sym, subst, ap, ◌∙◌, ◌⊎◌, inl, inr, Bool,
  true, false, Option, none, some, ℤ, pos, negsuc, arith, Bool-cases, Option-cases, if◌then◌else◌,
  ◌==◌,
}
use blue_thread.Lockdep.Bits.{Bytes, test_at, clear_at, clear_bit, test_bit, test-clear_bit, fill}
use blue_thread.Lockdep.State.{Lockdep, max_locks}
use blue_thread.Lockdep.Ids.{
  init_lock_ids_bitmap, scan_byte, scan_bytes, take_found, reuse_last, lockdep_get_free_id,
}

module _ (m : Bytes) where
  scan_byte-some :
      (k i j : ℕ) {x : ℕ} → scan_byte k m i j ≡ some x → (x < j + k) × (test_at m i x ≡ true)
  unfolding scan_byte
  scan_byte-some zero i j h = absurd (cc)
  scan_byte-some (suc k) i j {x} h = elim (Bool-cases (test_at m i j)) [
    | inl e ↦ ground arith
    | inr e ↦ ground (arith, scan_byte-some k i (suc j) {x = x})
  ]

  scan_byte-none :
      (k i j y : ℕ) → scan_byte k m i j ≡ none → j ≤ y → y < j + k → test_at m i y ≡ false
  unfolding scan_byte
  scan_byte-none zero i j y h le lt = absurd (omega arith)
  scan_byte-none (suc k) i j y h le lt = ground (arith, scan_byte-none k i (suc j) y)

  scan_bytes-some :
      (k i : ℕ) {x y : ℕ}
      → scan_bytes k m i ≡ some (x, y)
      → (x < i + k) × (y < 8) × (test_at m x y ≡ true)
  unfolding scan_bytes
  scan_bytes-some zero i h = absurd (cc)
  scan_bytes-some (suc k) i {x} {y} h = elim (Option-cases (scan_byte 8 m i 0)) [
    | inl e ↦ ground (arith, scan_bytes-some k (suc i) {x = x} {y = y})
    | inr (j, e) ↦ ground (arith, scan_byte-some 8 i 0 {x = j} e)
  ]

  scan_bytes-none :
      (k i x y : ℕ) → scan_bytes k m i ≡ none → i ≤ x → x < i + k → y < 8 → test_at m x y ≡ false
  unfolding scan_bytes
  scan_bytes-none zero i x y h le lt small = absurd (omega arith)
  scan_bytes-none (suc k) i x y h le lt small = elim (Option-cases (scan_byte 8 m i 0)) [
    | inl e ↦ ground (arith, scan_bytes-none k (suc i) x y, scan_byte-none 8 i 0 y)
    | inr (j, e) ↦ ground arith
  ]

-- Whether an id counts as free, also before the first use of the bitmap.
abbrev pub free_bit : Bytes → Bool → ℕ → Bool
free_bit m true id = test_bit m id
free_bit m false id = test_bit (fill m (max_locks / 8) 255) id

abbrev pub is_free : Lockdep → ℕ → Bool
is_free s id = free_bit s.lock_ids_bitmap s.lock_ids_bitmap_initialized id

pub is_free_init :
    (s : Lockdep) (id : ℕ) → test_bit (init_lock_ids_bitmap s).lock_ids_bitmap id ≡ is_free s id
unfolding init_lock_ids_bitmap
is_free_init s id = elim (Bool-cases s.lock_ids_bitmap_initialized) [
  | inl e ↦ rw (e, init_lock_ids_bitmap)
  | inr e ↦ rw (e, init_lock_ids_bitmap)
]

-- The state with another bitmap, which is ready for use, and another id to use again.
abbrev pub with_ids : Lockdep → Bytes → ℤ → Lockdep
with_ids s m last = record s {
  lock_ids_bitmap = m;
  lock_ids_bitmap_initialized = true;
  last_free_lock_id = last;
}

pub record Allocates (s : Lockdep) (id : ℕ) (t : Lockdep) : Type 0 where
  pub was_free : is_free s id ≡ true
  pub small : id < max_locks
  pub taken : (j : ℕ) → test_bit t.lock_ids_bitmap j ≡ (if id == j then false else is_free s j)
  pub last : (t.last_free_lock_id ≡ negsuc 0) ⊎ (t.last_free_lock_id ≡ s.last_free_lock_id)
  pub kept : t ≡ with_ids s t.lock_ids_bitmap t.last_free_lock_id

-- What a call of lockdep_get_free_id gives: an id that was free, or -1 if none was.
abbrev pub Gives : Lockdep → ℤ × Lockdep → Type 0
Gives s (pos id, t) = Allocates s id t
Gives s (negsuc n, t) =
    ((id : ℕ) → id < max_locks → is_free s id ≡ false) × (t ≡ init_lock_ids_bitmap s)

abbrev pub LastIsSmall : Lockdep → Type 0
LastIsSmall s = (id : ℕ) → s.last_free_lock_id ≡ pos id → id < max_locks

number_parts : (i j : ℕ) → j < 8 → ((i * 8 + j) / 8 ≡ i) × ((i * 8 + j) % 8 ≡ j)
number_parts i j h = omega arith

test-clear_at :
    (m : Bytes) (i j x : ℕ)
    → j < 8
    → test_bit (clear_at m i j) x ≡ (if i * 8 + j == x then false else test_bit m x)
test-clear_at m i j x h =
    let (e, f) = number_parts i j h in
    subst (λ (n : Bytes). test_bit n x ≡ (if i * 8 + j == x then false else test_bit m x))
      (λ k. clear_at m (e k) (f k)) (test-clear_bit m (i * 8 + j) x)

pub init_with_ids :
    (s : Lockdep)
    → init_lock_ids_bitmap s
      ≡ with_ids s (init_lock_ids_bitmap s).lock_ids_bitmap s.last_free_lock_id
unfolding init_lock_ids_bitmap
init_with_ids s = ground arith

init-last : (s : Lockdep) → (init_lock_ids_bitmap s).last_free_lock_id ≡ s.last_free_lock_id
unfolding init_lock_ids_bitmap
init-last s = ground arith

module _ (s : Lockdep) where
  abbrev ready_state : Lockdep
  ready_state = init_lock_ids_bitmap s

  take_found-Gives :
      (o : Option (ℕ × ℕ))
      → scan_bytes (max_locks / 8) ready_state.lock_ids_bitmap 0 ≡ o
      → Gives s (take_found ready_state o)
  unfolding take_found
  take_found-Gives none h = (
    λ id lt.
        sym (is_free_init s id)
        ∙ scan_bytes-none _ (max_locks / 8) 0 (id / 8) (id % 8) h (omega arith) (omega arith)
            (omega arith),
    refl,
  )
  take_found-Gives (some (i, j)) h =
      let (lt, small, found) = scan_bytes-some _ (max_locks / 8) 0 h in
      let (e, f) = number_parts i j small in
      record {
        was_free = sym (is_free_init s (i * 8 + j)) ∙ rw (e, f) found;
        small = omega arith;
        taken =
            λ x. rw (← is_free_init s x) (test-clear_at ready_state.lock_ids_bitmap i j x small);
        last = inr (init-last s);
        kept =
            ap
              (λ (u : Lockdep). record u {
                lock_ids_bitmap = clear_at ready_state.lock_ids_bitmap i j;
                last_free_lock_id = ready_state.last_free_lock_id;
              })
              (init_with_ids s);
      }

  reuse_last-Gives :
      (z : ℤ) → ((id : ℕ) → z ≡ pos id → id < max_locks) → Gives s (reuse_last ready_state z)
  unfolding reuse_last
  reuse_last-Gives (negsuc n) small = take_found-Gives _ refl
  reuse_last-Gives (pos id) small = elim (Bool-cases (test_bit ready_state.lock_ids_bitmap id)) [
    | inr e ↦ rw (e, reuse_last) (take_found-Gives _ refl)
    | inl e ↦
        rw (e, reuse_last)
          (record {
            was_free = sym (is_free_init s id) ∙ e;
            small = small id refl;
            taken = λ x. rw (← is_free_init s x) (test-clear_bit ready_state.lock_ids_bitmap id x);
            last = inl refl;
            kept =
                ap
                  (λ (u : Lockdep). record u {
                    lock_ids_bitmap = clear_bit ready_state.lock_ids_bitmap id;
                    last_free_lock_id = negsuc 0;
                  })
                  (init_with_ids s);
          })
  ]

-- lockdep_get_free_id returns an id below MAX_LOCKS that was free, clears its bit alone and leaves
-- the other tables as they were, or it returns -1 and no id is free. The id kept for reuse has to
-- be an id.
pub lockdep_get_free_id-Gives : (s : Lockdep) → LastIsSmall s → Gives s (lockdep_get_free_id s)
unfolding lockdep_get_free_id
lockdep_get_free_id-Gives s small =
    reuse_last-Gives s (init_lock_ids_bitmap s).last_free_lock_id
      (λ id e. small id (sym (init-last s) ∙ e))
