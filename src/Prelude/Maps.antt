-- ===== src/Prelude/Maps.antt =====
-- Maps as functions: a write at a number, and at a text.
use Prim.Native.Nat.{ℕ}
use Prim.Native.String.{String}
use text.Mathlib.Text.{◌==◌ as str_eq}
use blue_thread.Prelude.Tests.{◌==◌, if◌then◌else◌}

abbrev pub update {ℓ} : {A : Type ℓ} → (ℕ → A) → ℕ → A → ℕ → A
update f i a j = if i == j then a else f j

abbrev pub update_name {ℓ} : {A : Type ℓ} → (String → A) → String → A → String → A
update_name f n a m = if str_eq n m then a else f m
