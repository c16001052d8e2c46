-- ===== src/Base/Words.antt =====
-- A C `int` or `unsigned int` as its 32-bit pattern, a number below 2 ^ 32.
use Prim.Native.Nat.{ℕ, ◌+◌, ◌-◌, ◌*◌, ◌%◌, ◌^◌, ◌<◌}
use mathlib.Core.Path.{◌≡◌}
use mathlib.Core.Bool.{Bool, not, ◌&&◌, ◌||◌}
use native.Mathlib.Omega.{arith}
use pico_shell.Base.Tests.{ltb, leb, if◌then◌else◌}

-- the pattern of -1
abbrev pub minus_one : ℕ
minus_one = 2 ^ 32 - 1

-- the test `a < 0` on an int
abbrev pub is_neg : ℕ → Bool
is_neg a = leb (2 ^ 31) a

-- the test `a < b` on ints
abbrev pub slt : ℕ → ℕ → Bool
slt a b = if is_neg a then (not (is_neg b) || ltb a b) else (not (is_neg b) && ltb a b)

-- `a + b`, `a - b` and `a * b`, wrapped to 32 bits
abbrev pub add32 : ℕ → ℕ → ℕ
add32 a b = (a + b) % 2 ^ 32

abbrev pub sub32 : ℕ → ℕ → ℕ
sub32 a b = (a + 2 ^ 32 - b) % 2 ^ 32

abbrev pub mul32 : ℕ → ℕ → ℕ
mul32 a b = a * b % 2 ^ 32

-- On patterns without a sign bit the signed test is the order of numbers.
pub slt-eq-ltb : (a b : ℕ) → a < 2 ^ 31 → b < 2 ^ 31 → slt a b ≡ ltb a b
slt-eq-ltb a b h k = ground arith
