-- ===== src/Fs/Bitmap/Scan.antt =====
-- bitmap_find_free against the first free position of a set of positions.
use pico_shell.Base.{
  ==_iff, Bool, Bool-cases, Bytes, Option, ap, ap₂, arith, bit, false, inl, inr, leb, ltb, ltb→lt,
  memcpy, memcpy_to_start, none, refl, some, suc, sym, true, uninit, zero, ℕ, ◌%◌, ◌*◌, ◌+◌, ◌/◌,
  ◌<◌, ◌==◌, ◌∙◌, ◌≡◌, ◌≤◌,
}
use pico_shell.Fs.Bitmap.{
  BitScan, bit_loop, bitmap_find_free, byte_loop, next_byte, num_data_blocks, or_next, returned,
}
use pico_shell.Fs.Block.Access.{address, block_read_in}
use pico_shell.Fs.Disk.{block_size, num_blocks}
use native.Mathlib.Nat.{add-zero}

-- the bit of a position of a bitmap
abbrev pub bit_of : Bytes → ℕ → Bool
bit_of bitmap pos = bit (bitmap (pos / 8)) (pos % 8)

-- Is the position taken in the bitmap that block `bnum` holds?
abbrev pub taken : ℕ → Bytes → ℕ → Bool
taken bnum disk pos = bit (disk (address bnum (pos / 8))) (pos % 8)

-- `r` is the first position from `lo` on and below `limit` that is free, if one is.
abbrev pub IsFirstFree : (ℕ → Bool) → ℕ → ℕ → Option ℕ → Type 0
IsFirstFree used lo limit none = (q : ℕ) → lo ≤ q → q < limit → used q ≡ true
IsFirstFree used lo limit (some p) =
    (lo ≤ p) × (p < limit) × (used p ≡ false) × ((q : ℕ) → lo ≤ q → q < p → used q ≡ true)

-- A stretch of used positions before the range changes nothing.
IsFirstFree-append :
    (used : ℕ → Bool) (lo mid limit : ℕ) (r : Option ℕ)
    → lo ≤ mid
    → ((q : ℕ) → lo ≤ q → q < mid → used q ≡ true)
    → IsFirstFree used mid limit r
    → IsFirstFree used lo limit r
IsFirstFree-append used lo mid limit none le h f = λ q hq hl. elim (Bool-cases (ltb q mid)) [
  | inl below ↦ h q hq (ltb→lt q mid below)
  | inr above ↦ f q (ground arith) hl
]
IsFirstFree-append used lo mid limit (some p) le h f = (
  omega arith,
  f.1,
  f.2,
  λ q hq hl. elim (Bool-cases (ltb q mid)) [
    | inl below ↦ h q hq (ltb→lt q mid below)
    | inr above ↦ f.3 q (ground arith) hl
  ],
)

IsFirstFree-congr :
    (used used' : ℕ → Bool) (lo limit : ℕ) (r : Option ℕ)
    → ((q : ℕ) → q < limit → used q ≡ used' q)
    → IsFirstFree used lo limit r
    → IsFirstFree used' lo limit r
IsFirstFree-congr used used' lo limit none e f = λ q hq hl. sym (e q hl) ∙ f q hq hl
IsFirstFree-congr used used' lo limit (some p) e f =
    (f.0, f.1, sym (e p f.1) ∙ f.2, λ q hq hl. sym (e q (omega arith)) ∙ f.3 q hq hl)

module _ (bitmap : Bytes) (limit i : ℕ) where
  -- what the loop over the bits has found out, from bit j on
  Scanned : ℕ → BitScan → Type 0
  Scanned j (returned r) = IsFirstFree (bit_of bitmap) (i * 8 + j) limit r
  Scanned j next_byte = (q : ℕ) → i * 8 + j ≤ q → q < i * 8 + 8 → bit_of bitmap q ≡ true

  Scanned-append :
      (j : ℕ) (s : BitScan) → j < 8 → bit (bitmap i) j ≡ true → Scanned (j + 1) s → Scanned j s
  unfolding Scanned
  Scanned-append j (returned r) hj used f =
      IsFirstFree-append (bit_of bitmap) (i * 8 + j) (i * 8 + (j + 1)) limit r (omega arith)
        (λ q hq hl. at_j q (omega arith)) f
    where
      at_j : (q : ℕ) → q ≡ i * 8 + j → bit_of bitmap q ≡ true
      at_j q e = ap₂ (λ a b. bit (bitmap a) b) (omega arith) (omega arith) ∙ used
  Scanned-append j next_byte hj used f = λ q hq hl. elim (Bool-cases (q == i * 8 + j)) [
    | inl e ↦ at_j q ((==_iff q _).0 e)
    | inr ne ↦ f q (ground arith) hl
  ]
    where
      at_j : (q : ℕ) → q ≡ i * 8 + j → bit_of bitmap q ≡ true
      at_j q e = ap₂ (λ a b. bit (bitmap a) b) (omega arith) (omega arith) ∙ used

  bit_loop-Scanned : (left j : ℕ) → left + j ≡ 8 → Scanned j (bit_loop (bitmap i) i limit left j)
  unfolding Scanned bit_loop
  bit_loop-Scanned zero j e = λ q hq hl. absurd (omega arith)
  bit_loop-Scanned (suc left) j e = elim (Bool-cases (leb limit (i * 8 + j))) [
    | inl past ↦ rw past (λ q hq hl. absurd (ground arith))
    | inr inside ↦ elim (Bool-cases (bit (bitmap i) j)) [
      | inl used ↦
          rw (inside, used)
            (Scanned-append j _ (omega arith) used (bit_loop-Scanned left (j + 1) (omega arith)))
      | inr free ↦
          rw (inside, free)
            (omega arith, ground arith, at_j ∙ free, λ q hq hl. absurd (omega arith))
    ]
  ]
    where
      at_j : bit_of bitmap (i * 8 + j) ≡ bit (bitmap i) j
      at_j = ap₂ (λ a b. bit (bitmap a) b) (omega arith) (omega arith)

  or_next-IsFirstFree :
      (s : BitScan) (rest : Option ℕ)
      → Scanned 0 s
      → IsFirstFree (bit_of bitmap) ((i + 1) * 8) limit rest
      → IsFirstFree (bit_of bitmap) (i * 8) limit (or_next s rest)
  unfolding Scanned or_next
  or_next-IsFirstFree (returned r) rest f g = rw (← add-zero (i * 8)) f
  or_next-IsFirstFree next_byte rest f g =
      IsFirstFree-append (bit_of bitmap) (i * 8) ((i + 1) * 8) limit rest (omega arith)
        (λ q hq hl. f q (omega arith) (omega arith)) g

byte_loop-IsFirstFree :
    (bitmap : Bytes) (limit left i : ℕ)
    → limit ≤ (left + i) * 8
    → IsFirstFree (bit_of bitmap) (i * 8) limit (byte_loop bitmap limit left i)
unfolding byte_loop
byte_loop-IsFirstFree bitmap limit zero i h = λ q hq hl. absurd (omega arith)
byte_loop-IsFirstFree bitmap limit (suc left) i h =
    or_next-IsFirstFree bitmap limit i _ _ (bit_loop-Scanned bitmap limit i 8 0 refl)
      (byte_loop-IsFirstFree bitmap limit left (i + 1) (omega arith))

-- bitmap_find_free returns the first free position below the limit, and -1 only if all are taken.
-- The limit is at most the number of bits that the loops visit.
pub bitmap_find_free-IsFirstFree :
    (bnum limit : ℕ) (disk : Bytes)
    → bnum < num_blocks
    → limit ≤ num_data_blocks
    → IsFirstFree (taken bnum disk) 0 limit (bitmap_find_free bnum limit disk)
unfolding bitmap_find_free
bitmap_find_free-IsFirstFree bnum limit disk hb hl = rw (block_read_in uninit bnum disk hb) (
    IsFirstFree-congr (bit_of bitmap) (taken bnum disk) 0 limit _ same
      (byte_loop-IsFirstFree bitmap limit 15 0 hl))
  where
    bitmap : Bytes
    bitmap = memcpy uninit 0 disk (bnum * block_size) block_size

    same : (q : ℕ) → q < limit → bit_of bitmap q ≡ taken bnum disk q
    same q hq =
        ap (λ b. bit b (q % 8))
          (memcpy_to_start uninit disk (bnum * block_size) block_size (q / 8) (omega arith))

-- A bitmap with a free position below the limit has a first one.
pub bitmap_find_free-some :
    (bnum limit : ℕ) (disk : Bytes) (q : ℕ)
    → bnum < num_blocks
    → limit ≤ num_data_blocks
    → q < limit
    → taken bnum disk q ≡ false
    → (p : ℕ) × (bitmap_find_free bnum limit disk ≡ some p)
      × IsFirstFree (taken bnum disk) 0 limit (some p)
bitmap_find_free-some bnum limit disk q hb hl hq free =
    go (bitmap_find_free bnum limit disk) refl (bitmap_find_free-IsFirstFree bnum limit disk hb hl)
  where
    go :
        (r : Option ℕ)
        → bitmap_find_free bnum limit disk ≡ r
        → IsFirstFree (taken bnum disk) 0 limit r
        → (p : ℕ) × (bitmap_find_free bnum limit disk ≡ some p)
          × IsFirstFree (taken bnum disk) 0 limit (some p)
    go none e f = absurd (cc (f q (omega arith) hq))
    go (some p) e f = (p, e, f)

-- A bitmap with no free position below the limit has none to find.
pub bitmap_find_free-none :
    (bnum limit : ℕ) (disk : Bytes)
    → bnum < num_blocks
    → limit ≤ num_data_blocks
    → ((q : ℕ) → q < limit → taken bnum disk q ≡ true)
    → bitmap_find_free bnum limit disk ≡ none
bitmap_find_free-none bnum limit disk hb hl full =
    go (bitmap_find_free bnum limit disk) (bitmap_find_free-IsFirstFree bnum limit disk hb hl)
  where
    go : (r : Option ℕ) → IsFirstFree (taken bnum disk) 0 limit r → r ≡ none
    go none f = refl
    go (some p) f = absurd (cc (full p f.1, f.2))
