-- ===== src/Heartbeat/Time.antt =====
-- The 64-bit numbers of std::chrono: time points of steady_clock are signed, the durations of
-- thread/heartbeat.h are unsigned, and their sum is a 64-bit pattern that is read as signed.
use blue_thread.Prelude.{ℕ, ◌+◌, ◌%◌, ◌^◌, ◌≤◌, ◌<◌, ◌≡◌, Bool, true, ltb, arith}

-- time::min()
abbrev pub time_min : ℕ
time_min = 2 ^ 63

-- x + y on unsigned 64-bit numbers
unfoldable pub add64 : ℕ → ℕ → ℕ
add64 x y = (x + y) % 2 ^ 64

-- x < y on the signed numbers with these bits: a flip of the sign bit keeps the order.
unfoldable pub signed_less : ℕ → ℕ → Bool
signed_less x y = ltb ((x + 2 ^ 63) % 2 ^ 64) ((y + 2 ^ 63) % 2 ^ 64)

pub signed_less-small : (x y : ℕ) → x < 2 ^ 63 → y < 2 ^ 63 → signed_less x y ≡ ltb x y
unfolding signed_less
signed_less-small x y p q = ground arith

pub signed_less-negative : (x y : ℕ) → 2 ^ 63 ≤ x → x < 2 ^ 64 → y < 2 ^ 63 → signed_less x y ≡ true
unfolding signed_less
signed_less-negative x y p q r = ground arith
