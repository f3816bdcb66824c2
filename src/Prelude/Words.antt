-- ===== src/Prelude/Words.antt =====
-- Go's fixed-width signed integers as bit patterns: an `int64` is a number below 2 ^ 64, an `int32`
-- one below 2 ^ 32, and the upper half stands for the negative values. A pattern below the sign
-- bit is the number itself. `int` is 64 bits wide on the platforms that the program is built for.
use Prim.Native.Nat.{ℕ, ◌+◌, ◌-◌, ◌%◌, ◌≤◌, ◌<◌}
use mathlib.Core.Path.{◌≡◌}
use mathlib.Core.Bool.{Bool}
use native.Mathlib.Omega.{arith}
use katalyst.Prelude.Tests.{ltb}

-- 2 ^ 63 and 2 ^ 64.
abbrev pub sign64 : ℕ
sign64 = 9223372036854775808

abbrev pub mod64 : ℕ
mod64 = 18446744073709551616

-- 2 ^ 31 and 2 ^ 32.
abbrev pub sign32 : ℕ
sign32 = 2147483648

abbrev pub mod32 : ℕ
mod32 = 4294967296

-- x + y, which wraps, and x < y, which is signed.
unfoldable pub add64 : ℕ → ℕ → ℕ
add64 x y = (x + y) % mod64

unfoldable pub lt64 : ℕ → ℕ → Bool
lt64 x y = ltb ((x + sign64) % mod64) ((y + sign64) % mod64)

unfoldable pub add32 : ℕ → ℕ → ℕ
add32 x y = (x + y) % mod32

unfoldable pub sub32 : ℕ → ℕ → ℕ
sub32 x y = (x + mod32 - y) % mod32

unfoldable pub lt32 : ℕ → ℕ → Bool
lt32 x y = ltb ((x + sign32) % mod32) ((y + sign32) % mod32)

-- Below the sign bit the operations are those of the numbers.
pub add64_exact : (x y : ℕ) → x + y < sign64 → add64 x y ≡ x + y
unfolding add64
add64_exact x y h = omega arith

pub lt64_exact : (x y : ℕ) → x < sign64 → y < sign64 → lt64 x y ≡ ltb x y
unfolding lt64
lt64_exact x y h k = ground arith

pub add32_exact : (x y : ℕ) → x + y < sign32 → add32 x y ≡ x + y
unfolding add32
add32_exact x y h = omega arith

pub sub32_exact : (x y : ℕ) → y ≤ x → x < sign32 → sub32 x y ≡ x - y
unfolding sub32
sub32_exact x y h k = omega arith

pub lt32_exact : (x y : ℕ) → x < sign32 → y < sign32 → lt32 x y ≡ ltb x y
unfolding lt32
lt32_exact x y h k = ground arith
