-- ===== src/Lockdep/Follow.antt =====
-- does_follow: is there a path in `lock_tree` from `a` to `b`?
pub mod Correct
use blue_thread.Prelude.{ℕ, zero, suc, ◌≡◌, Bool, true, false, Option, none, some}
use blue_thread.Lockdep.Bits.{Bytes}
use blue_thread.Lockdep.State.{edge}

-- What the paths are that the function looks for.
pub data Follows (tree : ℕ → Bytes) : ℕ → ℕ → Type 0 where
  direct : {a b : ℕ} → edge tree a b ≡ true → Follows tree a b
  via : {a i b : ℕ} → edge tree a i ≡ true → Follows tree i b → Follows tree a b

-- The loop over `i`, `k` rounds before its end: `test` is the edge, `go` the recursive call.
unfoldable pub scan_next : (ℕ → Bool) → (ℕ → Option Bool) → ℕ → ℕ → Option Bool
scan_next test go zero i = some false
scan_next test go (suc k) i = elim (test i) [
  | false ↦ scan_next test go k (suc i)
  | true ↦ elim (go i) [
    | none ↦ none
    | some r ↦ elim r [ true ↦ some true | false ↦ scan_next test go k (suc i) ]
  ]
]

-- `none` means that the recursion is deeper than the fuel: a stack overflow for any fuel.
-- `max` is `current_max_id`.
unfoldable pub does_follow : ℕ → (ℕ → Bytes) → ℕ → ℕ → ℕ → Option Bool
does_follow zero tree max a b = none
does_follow (suc fuel) tree max a b = elim (edge tree a b) [
  | true ↦ some true
  | false ↦ scan_next (edge tree a) (λ i. does_follow fuel tree max i b) max 0
]
