-- ===== src/Lockdep/Bits.antt =====
-- The bit arrays of synchronization/utils.cc: `lock_ids_bitmap` and the rows of `lock_tree` are
-- arrays of `char`, in which bit `i` is bit `i % 8` of element `i / 8`.
mod Tables
use Prim.Native.Nat.{bit_and, bit_or}
use blue_thread.Prelude.{
  ℕ, ◌+◌, ◌-◌, ◌*◌, ◌/◌, ◌%◌, ◌^◌, ◌<◌, ◌≤◌, ◌≡◌, refl, Bool, true, false, not, arith, ◌==◌, update,
  if◌then◌else◌, Bool-cases, inl, inr, ltb, lt→ltb,
}
use Tables.{byte_bit, byte-or, byte-and_not, byte_ones, byte_zeros}

-- The elements of an array of `char`. A `char` has 8 bits, so a read is taken modulo 256.
abbrev pub Bytes : Type 0
Bytes = ℕ → ℕ

-- m[i] & (1 << j)
unfoldable pub test_at : Bytes → ℕ → ℕ → Bool
test_at m i j = not (bit_and (m i % 256) (2 ^ j) == 0)

-- m[i] |= (1 << j)
unfoldable pub set_at : Bytes → ℕ → ℕ → Bytes
set_at m i j = update m i (bit_or (m i % 256) (2 ^ j))

-- m[i] &= 255 - (1 << j)
unfoldable pub clear_at : Bytes → ℕ → ℕ → Bytes
clear_at m i j = update m i (bit_and (m i % 256) (255 - 2 ^ j))

-- The same at the number of a bit in the whole array, `id / 8` and `id % 8` in the source.
abbrev pub test_bit : Bytes → ℕ → Bool
test_bit m id = test_at m (id / 8) (id % 8)

abbrev pub set_bit : Bytes → ℕ → Bytes
set_bit m id = set_at m (id / 8) (id % 8)

abbrev pub clear_bit : Bytes → ℕ → Bytes
clear_bit m id = clear_at m (id / 8) (id % 8)

same_index : (a b : ℕ) → a / 8 ≡ b / 8 → (a % 8 == b % 8) ≡ (a == b)
same_index a b e = ground arith

-- A set bit reads as 1, and every other bit as before.
pub test-set_bit :
    (m : Bytes) (a b : ℕ) → test_bit (set_bit m a) b ≡ (if a == b then true else test_bit m b)
unfolding test_at set_at
test-set_bit m a b = elim (Bool-cases (a / 8 == b / 8)) [
  | inl e ↦ ground (arith, byte-or (m (b / 8) % 256) (a % 8) (b % 8), same_index a b)
  | inr e ↦ ground arith
]

-- A cleared bit reads as 0, and every other bit as before.
pub test-clear_bit :
    (m : Bytes) (a b : ℕ) → test_bit (clear_bit m a) b ≡ (if a == b then false else test_bit m b)
unfolding test_at clear_at
test-clear_bit m a b = elim (Bool-cases (a / 8 == b / 8)) [
  | inl e ↦ ground (arith, byte-and_not (m (b / 8) % 256) (a % 8) (b % 8), same_index a b)
  | inr e ↦ ground arith
]

-- memset(m, 0xFF, n) and memset(m, 0, n)
unfoldable pub fill : Bytes → ℕ → ℕ → Bytes
fill m n v i = if ltb i n then v else m i

pub test-fill_ones : (m : Bytes) (n b : ℕ) → b < 8 * n → test_bit (fill m n 255) b ≡ true
unfolding test_at fill
test-fill_ones m n b h =
    ground (arith, byte_ones (b % 8) (omega arith), lt→ltb (b / 8) n (omega arith))

pub test-fill_zeros : (m : Bytes) (n b : ℕ) → b < 8 * n → test_bit (fill m n 0) b ≡ false
unfolding test_at fill
test-fill_zeros m n b h =
    ground (arith, byte_zeros (b % 8) (omega arith), lt→ltb (b / 8) n (omega arith))

pub test-fill_outside : (m : Bytes) (n v b : ℕ) → 8 * n ≤ b → test_bit (fill m n v) b ≡ test_bit m b
unfolding test_at fill
test-fill_outside m n v b h = ground arith

pub test-zeros : (b : ℕ) → test_bit (λ _. 0) b ≡ false
unfolding test_at
test-zeros b = byte_zeros (b % 8) (omega arith)
