-- ===== src/Lockdep/Bits/Tables.antt =====
-- The bit operations on one byte, checked at every value.
use Prim.Native.Nat.{bit_and, bit_or}
use blue_thread.Prelude.{
  ℕ, zero, suc, ◌-◌, ◌+◌, ◌*◌, ◌/◌, ◌%◌, ◌^◌, ◌<◌, ◌≡◌, refl, sym, Bool, true, false, not, ◌&&◌,
  arith, ◌==◌, if◌then◌else◌,
}

abbrev pub byte_bit : ℕ → ℕ → Bool
byte_bit b j = not (bit_and (b % 256) (2 ^ j) == 0)

abbrev same : Bool → Bool → Bool
same true b = b
same false b = not b

holds_up_to : (ℕ → Bool) → ℕ → Bool
holds_up_to test zero = true
holds_up_to test (suc bound) = holds_up_to test bound && test bound

holds_at :
    (test : ℕ → Bool) (i bound : ℕ) → i < bound → holds_up_to test bound ≡ true → test i ≡ true
unfolding holds_up_to
holds_at test i (suc bound) below h = ground (arith, holds_at test i bound)
holds_at test i zero below h = absurd (omega arith)

abbrev or_case : ℕ → ℕ → ℕ → Bool
or_case b j k = same (byte_bit (bit_or b (2 ^ j)) k) (if j == k then true else byte_bit b k)

abbrev and_case : ℕ → ℕ → ℕ → Bool
and_case b j k =
    same (byte_bit (bit_and b (255 - 2 ^ j)) k) (if j == k then false else byte_bit b k)

-- The number b * 64 + j * 8 + k stands for a byte `b` and the bits `j` and `k`.
or_row : ℕ → Bool
or_row x = or_case (x / 64) (x / 8 % 8) (x % 8)

and_row : ℕ → Bool
and_row x = and_case (x / 64) (x / 8 % 8) (x % 8)

or_table : holds_up_to or_row 16384 ≡ true
unfolding holds_up_to or_row
or_table = refl

and_table : holds_up_to and_row 16384 ≡ true
unfolding holds_up_to and_row
and_table = refl

same_sound : (a b : Bool) → same a b ≡ true → a ≡ b
same_sound true b h = sym h
same_sound false true h = cc
same_sound false false h = refl

ones_table : holds_up_to (byte_bit 255) 8 ≡ true
unfolding holds_up_to
ones_table = refl

zeros_table : holds_up_to (λ j. not (byte_bit 0 j)) 8 ≡ true
unfolding holds_up_to
zeros_table = refl

pub byte_ones : (j : ℕ) → j < 8 → byte_bit 255 j ≡ true
byte_ones j h = holds_at (byte_bit 255) j 8 h ones_table

pub byte_zeros : (j : ℕ) → j < 8 → byte_bit 0 j ≡ false
byte_zeros j h = ground (arith, holds_at (λ k. not (byte_bit 0 k)) j 8 h zeros_table)

module _ (b j k : ℕ) (hb : b < 256) (hj : j < 8) (hk : k < 8) where
  index : ℕ
  index = b * 64 + j * 8 + k

  byte_of_index : (index / 64 ≡ b) × (index / 8 % 8 ≡ j) × (index % 8 ≡ k)
  unfolding index
  byte_of_index = omega arith

  index-lt : index < 16384
  unfolding index
  index-lt = omega arith

  or_case-true : or_case b j k ≡ true
  unfolding or_row
  or_case-true =
      let e = byte_of_index in rw (e.0, e.1, e.2) at (holds_at or_row index 16384 index-lt or_table)

  pub byte-or : byte_bit (bit_or b (2 ^ j)) k ≡ (if j == k then true else byte_bit b k)
  byte-or = same_sound _ _ or_case-true

  and_case-true : and_case b j k ≡ true
  unfolding and_row
  and_case-true =
      let e = byte_of_index in
      rw (e.0, e.1, e.2) at (holds_at and_row index 16384 index-lt and_table)

  pub byte-and_not : byte_bit (bit_and b (255 - 2 ^ j)) k ≡ (if j == k then false else byte_bit b k)
  byte-and_not = same_sound _ _ and_case-true
