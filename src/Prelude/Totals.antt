-- ===== src/Prelude/Totals.antt =====
-- Sums over the indices below a bound, of a weight of what a function gives there.
use Prim.Native.Nat.{ℕ, zero, suc, ◌+◌, ◌≤◌, ◌<◌}
use mathlib.Core.Path.{◌≡◌, refl}
use mathlib.Core.Logic.{◌≢◌, inl, inr}
use native.Mathlib.Omega.{arith}
use blue_thread.Prelude.Tests.{◌==◌, ==_iff, ==_refl, Bool-cases}
use blue_thread.Prelude.Maps.{update}

module _ {A : Type 0} (weight : A → ℕ) where
  unfoldable pub total : ℕ → (ℕ → A) → ℕ
  total zero f = 0
  total (suc n) f = weight (f n) + total n f

  pub total-congr :
      (n : ℕ) (f g : ℕ → A)
      → ((i : ℕ) → i < n → weight (f i) ≡ weight (g i))
      → total n f ≡ total n g
  unfolding total
  total-congr zero f g h = refl
  total-congr (suc n) f g h =
      omega (arith, h n (omega arith), total-congr n f g (λ i lt. h i (omega arith)))

  total_outside : (n i : ℕ) (f : ℕ → A) (a : A) → n ≤ i → total n (update f i a) ≡ total n f
  total_outside n i f a h = total-congr n (update f i a) f (λ j lt. ground arith)

  -- A write exchanges one weight.
  pub total-update :
      (n i : ℕ) (f : ℕ → A) (a : A)
      → i < n
      → total n (update f i a) + weight (f i) ≡ total n f + weight a
  unfolding total
  total-update zero i f a h = absurd (omega arith)
  total-update (suc n) i f a h = elim (Bool-cases (i == n)) [
    | inl e ↦ ground (arith, total_outside n i f a)
    | inr e ↦ ground (arith, total-update n i f a)
  ]

  pub total-eq-zero : (n : ℕ) (f : ℕ → A) → ((i : ℕ) → i < n → weight (f i) ≡ 0) → total n f ≡ 0
  unfolding total
  total-eq-zero zero f h = refl
  total-eq-zero (suc n) f h =
      omega (arith, h n (omega arith), total-eq-zero n f (λ i lt. h i (omega arith)))

  pub weight-le-total : (n i : ℕ) (f : ℕ → A) → i < n → weight (f i) ≤ total n f
  unfolding total
  weight-le-total zero i f h = absurd (omega arith)
  weight-le-total (suc n) i f h = elim (Bool-cases (i == n)) [
    | inl e ↦ rw ((==_iff i n).0 e) (omega arith)
    | inr e ↦ omega (arith, weight-le-total n i f (ground arith))
  ]

  -- The next index, with no weight there.
  pub total_grows :
      (n : ℕ) (f : ℕ → A) (a : A) → weight a ≡ 0 → total (n + 1) (update f n a) ≡ total n f
  unfolding total
  total_grows n f a e = ground (arith, total_outside n n f a, ==_refl n)

  -- The next index, with any weight there.
  pub total-update_next :
      (n : ℕ) (f : ℕ → A) (a : A) → total (n + 1) (update f n a) ≡ total n f + weight a
  unfolding total
  total-update_next n f a = ground (arith, total_outside n n f a, ==_refl n)

  -- A sum that is not zero has a weight that is not.
  pub some_weight : (n : ℕ) (f : ℕ → A) → total n f ≢ 0 → (i : ℕ) × (i < n) × (weight (f i) ≢ 0)
  unfolding total
  some_weight zero f h = absurd (h refl)
  some_weight (suc n) f h = elim (Bool-cases (weight (f n) == 0)) [
    | inl e ↦ let (i, lt, k) = some_weight n f (ground (arith, h)) in (i, omega arith, k)
    | inr e ↦ (n, omega arith, ground arith)
  ]

total_mono :
    {A : Type 0} (low high : A → ℕ) (n : ℕ) (f : ℕ → A)
    → ((a : A) → low a ≤ high a)
    → total low n f ≤ total high n f
unfolding total
total_mono low high zero f h = omega arith
total_mono low high (suc n) f h = omega (arith, h (f n), total_mono low high n f h)

-- Two sums of which the lower weight has the greater sum: the weights agree.
pub total-squeeze :
    {A : Type 0} (low high : A → ℕ) (n : ℕ) (f : ℕ → A)
    → ((a : A) → low a ≤ high a)
    → total high n f ≤ total low n f
    → (i : ℕ) → i < n
    → low (f i) ≡ high (f i)
unfolding total
total-squeeze low high zero f h le i lt = absurd (omega arith)
total-squeeze low high (suc n) f h le i lt = elim (Bool-cases (i == n)) [
  | inl e ↦ rw ((==_iff i n).0 e) (omega (arith, h (f n), total_mono low high n f h))
  | inr e ↦ total-squeeze low high n f h (omega (arith, h (f n))) i (ground arith)
]
