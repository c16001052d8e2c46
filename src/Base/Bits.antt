-- ===== src/Base/Bits.antt =====
-- The bits of a byte, the highest first, by tables over all bytes.
use Prim.Native.Nat.{ℕ, zero, suc, ◌-◌, ◌/◌, ◌^◌, ◌<◌, bit_and, bit_or}
use mathlib.Core.Path.{◌≡◌, refl}
use mathlib.Core.Bool.{Bool, true, false, not, ◌&&◌, ◌||◌}
use native.Mathlib.Omega.{arith}
use pico_shell.Base.Tests.{ltb, ltb→lt, ◌==◌, if◌then◌else◌, Bool-cases}
use mathlib.Core.Logic.{inl, inr}

-- `0x80 >> j`
abbrev pub mask : ℕ → ℕ
mask j = 0x80 / 2 ^ j

-- `byte & (0x80 >> j)`, as a test
unfoldable pub bit : ℕ → ℕ → Bool
bit byte j = not (bit_and byte (mask j) == 0)

-- `byte | (0x80 >> j)` and the low eight bits of `byte & ~(0x80 >> j)`
unfoldable pub set_bit : ℕ → ℕ → ℕ
set_bit byte j = bit_or byte (mask j)

unfoldable pub clear_bit : ℕ → ℕ → ℕ
clear_bit byte j = bit_and byte (0xff - mask j)

eqb : Bool → Bool → Bool
eqb true b = b
eqb false b = not b

eqb-eq : (a b : Bool) → eqb a b ≡ true → a ≡ b
unfolding eqb
eqb-eq true b h = ground arith
eqb-eq false b h = ground arith

-- a table: the test passes at every number under the bound
passes : (ℕ → Bool) → ℕ → Bool
passes test zero = true
passes test (suc bound) = if test bound then passes test bound else false

-- a test that passes at every number passes at one of them
passes-at :
    (test : ℕ → Bool) (bound : ℕ) {k : ℕ} → k < bound → passes test bound ≡ true → test k ≡ true
unfolding passes
passes-at test zero lt ok = absurd (omega arith)
passes-at test (suc bound) {k} lt ok = elim (Bool-cases (k == bound)) [
  | inl last ↦ ground (arith, last, ok)
  | inr earlier ↦ ground (arith, passes-at test bound {k = k})
]

-- every byte and every two bits of it
all_bits : (ℕ → ℕ → ℕ → Bool) → Bool
all_bits test = passes (λ x. passes (λ j. passes (test x j) 8) 8) 256

all_bits-at :
    (test : ℕ → ℕ → ℕ → Bool) (x j k : ℕ)
    → all_bits test ≡ true
    → x < 256
    → j < 8
    → k < 8
    → test x j k ≡ true
unfolding all_bits
all_bits-at test x j k ok hx hj hk = passes-at (test x j) 8 hk (
    passes-at (λ j. passes (test x j) 8) 8 hj
      (passes-at (λ x. passes (λ j. passes (test x j) 8) 8) 256 hx ok))

set_bit_table : all_bits (λ x j k. eqb (bit (set_bit x j) k) (j == k || bit x k)) ≡ true
unfolding all_bits passes eqb bit set_bit
set_bit_table = refl

clear_bit_table : all_bits (λ x j k. eqb (bit (clear_bit x j) k) (not (j == k) && bit x k)) ≡ true
unfolding all_bits passes eqb bit clear_bit
clear_bit_table = refl

set_bit_range : all_bits (λ x j k. ltb (set_bit x j) 256) ≡ true
unfolding all_bits passes set_bit
set_bit_range = refl

clear_bit_range : all_bits (λ x j k. ltb (clear_bit x j) 256) ≡ true
unfolding all_bits passes clear_bit
clear_bit_range = refl

module _ (x j : ℕ) (hx : x < 256) (hj : j < 8) where
  pub bit-set_bit : (k : ℕ) → k < 8 → bit (set_bit x j) k ≡ (j == k || bit x k)
  bit-set_bit k hk = eqb-eq _ _ (all_bits-at _ x j k set_bit_table hx hj hk)

  pub bit-clear_bit : (k : ℕ) → k < 8 → bit (clear_bit x j) k ≡ (not (j == k) && bit x k)
  bit-clear_bit k hk = eqb-eq _ _ (all_bits-at _ x j k clear_bit_table hx hj hk)

  pub set_bit-lt : set_bit x j < 256
  set_bit-lt =
      ltb→lt _ _
        (all_bits-at (λ x j k. ltb (set_bit x j) 256) x j 0 set_bit_range hx hj (omega arith))

  pub clear_bit-lt : clear_bit x j < 256
  clear_bit-lt =
      ltb→lt _ _
        (all_bits-at (λ x j k. ltb (clear_bit x j) 256) x j 0 clear_bit_range hx hj (omega arith))
