-- ===== src/Prelude/Effect.antt =====
-- What a call of the program does to the state `S` that it is given.
use Prim.Native.Nat.{ℕ}
use mathlib.Core.Bool.{Bool, true, false}

pub data Outcome (S A : Type 0) : Type 0 where
  done : A → S → Outcome S A  -- the call returns
  threw : ℕ → S → Outcome S A  -- an exception with an error number leaves the call
  aborted : S → Outcome S A  -- ASSERT or abort() ends the process, in this state
  blocked : S → Outcome S A  -- the call waits for another thread
  diverged : Outcome S A  -- the fuel of a recursion ran out

abbrev pub M : Type 0 → Type 0 → Type 0
M S A = S → Outcome S A

abbrev pub pure : {S A : Type 0} → A → M S A
pure a s = done a s

abbrev pub bind_outcome : {S A B : Type 0} → Outcome S A → (A → M S B) → Outcome S B
bind_outcome (done a s) f = f a s
bind_outcome (threw e s) f = threw e s
bind_outcome (aborted s) f = aborted s
bind_outcome (blocked s) f = blocked s
bind_outcome diverged f = diverged

infixl 5 ◌>>=◌ ◌>>◌
abbrev pub ◌>>=◌ : {S A B : Type 0} → M S A → (A → M S B) → M S B
◌>>=◌ m f s = bind_outcome (m s) f

abbrev pub ◌>>◌ : {S B : Type 0} → M S (Unit {0}) → M S B → M S B
m >> k = m >>= λ _. k

abbrev pub get : {S : Type 0} → M S S
get s = done s s

abbrev pub modify : {S : Type 0} → (S → S) → M S (Unit {0})
modify f s = done tt (f s)

abbrev pub throw : {S A : Type 0} → ℕ → M S A
throw e s = threw e s

abbrev pub abort : {S A : Type 0} → M S A
abort s = aborted s

-- ASSERT(x)
abbrev pub assert : {S : Type 0} → Bool → M S (Unit {0})
assert true = pure tt
assert false = abort

-- if (x) { m }
abbrev pub when : {S : Type 0} → Bool → M S (Unit {0}) → M S (Unit {0})
when true m = m
when false m = pure tt

-- `P` holds in the state that the call leaves, however it ends.
abbrev pub Leaves : {S A : Type 0} → (S → Type 0) → Outcome S A → Type 0
Leaves P (done a s) = P s
Leaves P (threw e s) = P s
Leaves P (aborted s) = P s
Leaves P (blocked s) = P s
Leaves P diverged = ⊥
