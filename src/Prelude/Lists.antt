-- ===== src/Prelude/Lists.antt =====
-- Lists measured by native numbers, membership by recursion, and the pigeonhole principle.
use Prim.Native.Nat.{ℕ, zero, suc, ◌+◌, ◌≤◌, ◌<◌}
use mathlib.Core.Path.{◌≡◌, refl}
use mathlib.Core.Logic.{◌≢◌, ◌⊎◌, inl, inr}
use mathlib.Core.Bool.{Bool, true, false}
use mathlib.Core.List.{List, [], ◌∷◌, ◌++◌}
use native.Mathlib.Omega.{arith}
use blue_thread.Prelude.Tests.{◌==◌, if◌then◌else◌}

abbrev pub length {ℓ} : {A : Type ℓ} → List A → ℕ
length [] = 0
length (x ∷ xs) = suc (length xs)

abbrev pub is_empty {ℓ} : {A : Type ℓ} → List A → Bool
is_empty [] = true
is_empty (x ∷ xs) = false

-- Without the first occurrence.
abbrev pub erase : ℕ → List ℕ → List ℕ
erase a [] = []
erase a (b ∷ bs) = if a == b then bs else b ∷ erase a bs

pub length-append {ℓ} : {A : Type ℓ} (xs ys : List A) → length (xs ++ ys) ≡ length xs + length ys
length-append [] ys = omega arith
length-append (x ∷ xs) ys = omega (arith, length-append xs ys)

-- The sum of a weight over a list.
abbrev pub sum : {A : Type 0} → (A → ℕ) → List A → ℕ
sum f [] = 0
sum f (x ∷ xs) = f x + sum f xs

pub sum-append : {A : Type 0} (f : A → ℕ) (xs ys : List A) → sum f (xs ++ ys) ≡ sum f xs + sum f ys
sum-append f [] ys = omega arith
sum-append f (x ∷ xs) ys = omega (arith, sum-append f xs ys)

-- Membership as a sum, which the tactics take apart.
abbrev pub In : {A : Type 0} → A → List A → Type 0
In a [] = ⊥
In a (x ∷ xs) = (a ≡ x) ⊎ In a xs

abbrev pub All {κ} : {A : Type 0} → (A → Type κ) → List A → Type κ
All P [] = Unit
All P (x ∷ xs) = P x × All P xs

abbrev pub Distinct : {A : Type 0} → List A → Type 0
Distinct [] = Unit
Distinct (x ∷ xs) = (¬ In x xs) × Distinct xs

without : ℕ → List ℕ → List ℕ
without n [] = []
without n (x ∷ xs) = if x == n then without n xs else x ∷ without n xs

In-without : (a n : ℕ) (xs : List ℕ) → In a (without n xs) → In a xs × (a ≢ n)
unfolding without
In-without a n [] h = absurd h
In-without a n (x ∷ xs) h = ground (arith, In-without a n xs)

without-Distinct : (n : ℕ) (xs : List ℕ) → Distinct xs → Distinct (without n xs)
unfolding without
without-Distinct n [] h = tt
without-Distinct n (x ∷ xs) h = ground (arith, without-Distinct n xs h.1, In-without x n xs)

without_absent : (n : ℕ) (xs : List ℕ) → (¬ In n xs) → length (without n xs) ≡ length xs
unfolding without
without_absent n [] h = refl
without_absent n (x ∷ xs) h = ground (arith, without_absent n xs (λ m. h (inr m)), h)

length-without : (n : ℕ) (xs : List ℕ) → Distinct xs → length xs ≤ length (without n xs) + 1
unfolding without
length-without n [] h = omega arith
length-without n (x ∷ xs) h = ground (arith, length-without n xs h.1, without_absent n xs)

-- Distinct numbers below `n` are at most `n` many.
pub pigeonhole : (n : ℕ) (xs : List ℕ) → Distinct xs → ((a : ℕ) → In a xs → a < n) → length xs ≤ n
pigeonhole zero [] h lt = omega arith
pigeonhole zero (x ∷ xs) h lt = absurd (omega (arith, lt x (inl refl)))
pigeonhole (suc n) xs h lt = omega (
  arith,
  length-without n xs h,
  pigeonhole n (without n xs) (without-Distinct n xs h)
      (λ a m. let (there, ne) = In-without a n xs m in omega (arith, lt a there, ne)),
)
