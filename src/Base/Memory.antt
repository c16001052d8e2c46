-- ===== src/Base/Memory.antt =====
-- Raw memory: an area of bytes is a function from its offsets, and `memcpy` copies between two.
use Prim.Native.Nat.{ℕ, ◌+◌, ◌-◌, ◌≤◌, ◌<◌}
use mathlib.Core.Path.{◌≡◌}
use mathlib.Core.Logic.{◌⊎◌}
use mathlib.Core.Bool.{true, false, ◌&&◌}
use mathlib.Core.Option.{Option}
use native.Mathlib.Omega.{arith}
use pico_shell.Base.Tests.{ltb, leb}

abbrev pub Bytes : Type 0
Bytes = ℕ → ℕ

-- A pointer argument: `none` is NULL, and `some a` points to `a`.
abbrev pub Ptr {ℓ} : Type ℓ → Type ℓ
Ptr A = Option A

-- what a local array holds before it is written
abbrev pub uninit : Bytes
uninit _ = 0

-- `memcpy(&dst[to], &src[from], n)`: the contents of `dst` after it
unfoldable pub memcpy : Bytes → ℕ → Bytes → ℕ → ℕ → Bytes
memcpy dst to src from n a = elim (leb to a && ltb a (to + n)) [
  | true ↦ src (from + (a - to))
  | false ↦ dst a
]

-- `dst[i] = v`
unfoldable pub store : Bytes → ℕ → ℕ → Bytes
store dst i v a = elim (leb i a && leb a i) [ true ↦ v | false ↦ dst a ]

module _ (dst : Bytes) (to : ℕ) (src : Bytes) (from n a : ℕ) where
  pub memcpy_in : to ≤ a → a < to + n → memcpy dst to src from n a ≡ src (from + (a - to))
  unfolding memcpy
  memcpy_in h k = ground arith

  pub memcpy_out : (a < to) ⊎ (to + n ≤ a) → memcpy dst to src from n a ≡ dst a
  unfolding memcpy
  memcpy_out h = ground arith

pub memcpy-congr :
    (dst dst' : Bytes) (to : ℕ) (src : Bytes) (from n a : ℕ)
    → dst a ≡ dst' a
    → memcpy dst to src from n a ≡ memcpy dst' to src from n a
unfolding memcpy
memcpy-congr dst dst' to src from n a h = ground arith

-- Two copies in a row are one.
pub memcpy_join :
    (dst : Bytes) (to : ℕ) (src : Bytes) (from n k a : ℕ)
    → memcpy (memcpy dst to src from n) (to + n) src (from + n) k a
      ≡ memcpy dst to src from (n + k) a
unfolding memcpy
memcpy_join dst to src from n k a = ground arith

pub memcpy-lt :
    (dst : Bytes) (to : ℕ) (src : Bytes) (from n : ℕ) {k : ℕ}
    → ((a : ℕ) → dst a < k)
    → ((a : ℕ) → src a < k)
    → (a : ℕ) → memcpy dst to src from n a < k
unfolding memcpy
memcpy-lt dst to src from n h g a = ground (arith, h a, g (from + (a - to)))

-- a read from the start of the area
pub memcpy_to_start :
    (dst src : Bytes) (from n i : ℕ) → i < n → memcpy dst 0 src from n i ≡ src (from + i)
memcpy_to_start dst src from n i h = ground (arith, memcpy_in dst 0 src from n i)

pub store_self : (dst : Bytes) (i v : ℕ) → store dst i v i ≡ v
unfolding store
store_self dst i v = ground arith

pub store_ne : (dst : Bytes) (i v a : ℕ) → (a < i) ⊎ (i < a) → store dst i v a ≡ dst a
unfolding store
store_ne dst i v a h = ground arith
