-- ===== src/Base/Layout.antt =====
-- Structs in memory: 32-bit words in four bytes each, the lowest first.
use Prim.Native.Nat.{ℕ, zero, suc, ◌+◌, ◌*◌, ◌/◌, ◌%◌, ◌^◌, ◌<◌}
use mathlib.Core.Path.{◌≡◌, refl, ap₂}
use mathlib.Core.List.{List, [], ◌∷◌}
use native.Mathlib.Omega.{arith}
use pico_shell.Base.Memory.{Bytes}
use pico_shell.Base.Lists.{length, get_or}

-- byte j of a word
unfoldable pub word_byte : ℕ → ℕ → ℕ
word_byte w zero = w % 256
word_byte w (suc zero) = w / 2 ^ 8 % 256
word_byte w (suc (suc zero)) = w / 2 ^ 16 % 256
word_byte w (suc (suc (suc j))) = w / 2 ^ 24 % 256

-- a struct of words, as bytes
unfoldable pub bytes_of : (ℕ → ℕ) → Bytes
bytes_of words a = word_byte (words (a / 4)) (a % 4)

-- the word that begins at an offset
unfoldable pub word_at : Bytes → ℕ → ℕ
word_at b a = b a + 2 ^ 8 * b (a + 1) + 2 ^ 16 * b (a + 2) + 2 ^ 24 * b (a + 3)

-- `n` words from an offset on
unfoldable pub words_at : Bytes → ℕ → ℕ → List ℕ
words_at b a zero = []
words_at b a (suc n) = word_at b a ∷ words_at b (a + 4) n

pub word_at-congr :
    (b b' : Bytes) (a a' : ℕ)
    → ((i : ℕ) → i < 4 → b (a + i) ≡ b' (a' + i))
    → word_at b a ≡ word_at b' a'
unfolding word_at
word_at-congr b b' a a' h =
    ground (arith, h 0 (omega arith), h 1 (omega arith), h 2 (omega arith), h 3 (omega arith))

pub words_at-congr :
    (n : ℕ) (b b' : Bytes) (a a' : ℕ)
    → ((i : ℕ) → i < 4 * n → b (a + i) ≡ b' (a' + i))
    → words_at b a n ≡ words_at b' a' n
unfolding words_at
words_at-congr zero b b' a a' h = refl
words_at-congr (suc n) b b' a a' h =
    ap₂ ◌∷◌ (word_at-congr b b' a a' (λ i hi. h i (omega arith)))
      (words_at-congr n b b' (a + 4) (a' + 4) (λ i hi. ground (arith, h (4 + i))))

-- A word that was laid out is read back.
pub word_at-bytes_of :
    (words : ℕ → ℕ) (k : ℕ) → words k < 2 ^ 32 → word_at (bytes_of words) (4 * k) ≡ words k
unfolding word_at bytes_of
word_at-bytes_of words k h = ground (arith, byte 0, byte 1, byte 2, byte 3, value (words k) h)
  where
    byte :
        (i : ℕ)
        → i < 4
        → word_byte (words ((4 * k + i) / 4)) ((4 * k + i) % 4) ≡ word_byte (words k) i
    byte i hi = ap₂ (λ q r. word_byte (words q) r) (omega arith) (omega arith)

    value :
        (w : ℕ)
        → w < 2 ^ 32
        → word_byte w 0 + 2 ^ 8 * word_byte w 1 + 2 ^ 16 * word_byte w 2 + 2 ^ 24 * word_byte w 3
          ≡ w
    value w hw = unfold word_byte in omega arith

-- A list of words is read back from where each of its words is.
pub words_at-eq :
    (l : List ℕ) (b : Bytes) (a : ℕ)
    → ((i : ℕ) → i < length l → word_at b (a + 4 * i) ≡ get_or l i 0)
    → words_at b a (length l) ≡ l
unfolding words_at
words_at-eq [] b a h = refl
words_at-eq (x ∷ l) b a h =
    ap₂ ◌∷◌ (ground (arith, h 0 (omega arith)))
      (words_at-eq l b (a + 4) (λ i hi. ground (arith, h (suc i))))

pub word_byte-lt : (w j : ℕ) → word_byte w j < 256
unfolding word_byte
word_byte-lt w j = ground arith

pub bytes_of-lt : (words : ℕ → ℕ) (a : ℕ) → bytes_of words a < 256
unfolding bytes_of
bytes_of-lt words a = word_byte-lt (words (a / 4)) (a % 4)
