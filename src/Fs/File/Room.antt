-- ===== src/Fs/File/Room.antt =====
-- How many data blocks are free, and how many a write needs at most.
use pico_shell.Base.{
  ==_iff, Bool, Bool-cases, Bytes, ap, arith, false, if◌then◌else◌, inl, inr, refl, suc, true, zero,
  ℕ, ◌%◌, ◌+◌, ◌-◌, ◌/◌, ◌<◌, ◌==◌, ◌≡◌, ◌≤◌, ◌⊎◌,
}
use pico_shell.Fs.Bitmap.{num_data_blocks}
use pico_shell.Fs.Bitmap.Scan.{taken}
use pico_shell.Fs.Data.{data_bitmap_block}
use pico_shell.Fs.Data.Alloc.{DataAllocates}
use pico_shell.Fs.Disk.{block_size}
use pico_shell.Fs.File.{chunk}

-- the free positions below a bound
unfoldable pub count_free : (ℕ → Bool) → ℕ → ℕ
count_free used zero = 0
count_free used (suc m) = if used m then count_free used m else suc (count_free used m)

abbrev pub free_blocks : Bytes → ℕ
free_blocks disk = count_free (taken data_bitmap_block disk) num_data_blocks

-- the blocks that a range of a file touches
unfoldable pub touched : ℕ → ℕ → ℕ
touched offset zero = 0
touched offset (suc count) = (offset % block_size + count) / block_size + 1

count_free-congr :
    (used used' : ℕ → Bool) (m : ℕ)
    → ((q : ℕ) → q < m → used q ≡ used' q)
    → count_free used m ≡ count_free used' m
unfolding count_free
count_free-congr used used' zero e = refl
count_free-congr used used' (suc m) e =
    ground (arith, e m (omega arith), count_free-congr used used' m (λ q hq. e q (omega arith)))

-- Where there is one, it is found.
count_free_pos :
    (used : ℕ → Bool) (m : ℕ) → 0 < count_free used m → (q : ℕ) × (q < m) × (used q ≡ false)
unfolding count_free
count_free_pos used zero h = absurd (omega arith)
count_free_pos used (suc m) h = elim (Bool-cases (used m)) [
  | inl u ↦ let (q, hq, f) = count_free_pos used m (ground arith) in (q, omega arith, f)
  | inr f ↦ (m, omega arith, f)
]

count_free-take :
    (used used' : ℕ → Bool) (p m : ℕ)
    → p < m
    → used p ≡ false
    → ((q : ℕ) → q < m → used' q ≡ (if p == q then true else used q))
    → count_free used m ≡ suc (count_free used' m)
unfolding count_free
count_free-take used used' p zero hp f e = absurd (omega arith)
count_free-take used used' p (suc m) hp f e = elim (Bool-cases (p == m)) [
  | inl here ↦
      ground (arith, e m (omega arith), count_free-congr used used' m (λ q hq. ground (arith, e q)))
  | inr there ↦ ground (
    arith,
    e m (omega arith),
    count_free-take used used' p m (ground arith) f (λ q hq. e q (omega arith)),
  )
]

pub free_block :
    (disk : Bytes)
    → 0 < free_blocks disk
    → (q : ℕ) × (q < num_data_blocks) × (taken data_bitmap_block disk q ≡ false)
free_block disk h = count_free_pos (taken data_bitmap_block disk) num_data_blocks h

pub free_blocks-alloc :
    (disk : Bytes) (p : ℕ) (after : Bytes)
    → DataAllocates disk p after
    → free_blocks disk ≡ suc (free_blocks after)
free_blocks-alloc disk p after a =
    count_free-take (taken data_bitmap_block disk) (taken data_bitmap_block after) p num_data_blocks
      a.first.1 a.first.2 (λ q hq. a.bits q (omega arith))

pub free_blocks-congr :
    (disk disk' : Bytes)
    → ((q : ℕ)
        → q < num_data_blocks
        → taken data_bitmap_block disk q ≡ taken data_bitmap_block disk' q)
    → free_blocks disk ≡ free_blocks disk'
free_blocks-congr disk disk' e =
    count_free-congr (taken data_bitmap_block disk) (taken data_bitmap_block disk') num_data_blocks
      e

touched_zero : (offset count : ℕ) → count ≡ 0 → touched offset count ≡ 0
unfolding touched
touched_zero offset zero e = refl
touched_zero offset (suc count) e = absurd (omega arith)

touched_pos :
    (offset count : ℕ)
    → 0 < count
    → touched offset count ≡ (offset % block_size + (count - 1)) / block_size + 1
unfolding touched
touched_pos offset zero h = absurd (omega arith)
touched_pos offset (suc count) h =
    ap (λ c. (offset % block_size + c) / block_size + 1) (omega arith)

-- the same with the size of the chunk given
touched-size :
    (rest size offset : ℕ)
    → 0 < rest
    → size ≤ rest
    → (size ≡ rest) ⊎ (size ≡ block_size - offset % block_size)
    → touched (offset + size) (rest - size) + 1 ≤ touched offset rest
touched-size rest size offset h le (inl e) =
    omega (arith, touched_zero (offset + size) (rest - size), touched_pos offset rest h)
touched-size rest size offset h le (inr e) = elim (Bool-cases (rest - size == 0)) [
  | inl z ↦ omega (
    arith,
    touched_zero (offset + size) (rest - size) ((==_iff (rest - size) 0).0 z),
    touched_pos offset rest h,
  )
  | inr p ↦
      let more : 0 < rest - size = ground arith in
      omega (arith, touched_pos (offset + size) (rest - size) more, touched_pos offset rest h)
]

-- A round takes a block at most, and leaves enough for the rounds that follow.
pub touched-chunk :
    (count done offset : ℕ)
    → done < count
    → touched (offset + chunk count done offset) (count - (done + chunk count done offset)) + 1
      ≤ touched offset (count - done)
touched-chunk count done offset h = rw sub_sub (
    touched-size (count - done) (chunk count done offset) offset (omega arith) (ground arith)
      chunk_cases)
  where
    sub_sub : count - (done + chunk count done offset) ≡ count - done - chunk count done offset
    sub_sub = omega arith

    chunk_cases :
        (chunk count done offset ≡ count - done)
        ⊎ (chunk count done offset ≡ block_size - offset % block_size)
    chunk_cases = ground arith

pub touched-pos : (offset count : ℕ) → 0 < count → 0 < touched offset count
touched-pos offset count h = omega (arith, touched_pos offset count h)
