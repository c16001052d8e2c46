-- ===== src/Fs/Data/Alloc.antt =====
-- data_alloc and data_free: which data block is taken, and what else changes.
use pico_shell.Base.{
  Bytes, ap, arith, bit, false, if◌then◌else◌, inl, inr, memcpy, memcpy-lt, memcpy_in, memcpy_out,
  none, some, true, ℕ, ◌%◌, ◌*◌, ◌/◌, ◌<◌, ◌==◌, ◌^◌, ◌∙◌, ◌≡◌, ◌≢◌, ◌≤◌, ◌⊎◌,
}
use pico_shell.Fs.Bitmap.{num_data_blocks}
use pico_shell.Fs.Bitmap.Scan.{IsFirstFree, bitmap_find_free-none, bitmap_find_free-some, taken}
use pico_shell.Fs.Bitmap.Update.{
  IsByteDisk, Marks, bitmap_alloc_free, bitmap_free-taken, bitmap_free_free,
}
use pico_shell.Fs.Block.Access.{address, block_write_in}
use pico_shell.Fs.Data.{data_alloc, data_bitmap_block, data_free, dblock, zero_block}
use pico_shell.Fs.Disk.{block_size}
use pico_shell.Fs.Disk.Monad.{bind}

-- A call of data_alloc went from the disk `before` to `after` and returned `dnum`.
pub record DataAllocates (before : Bytes) (dnum : ℕ) (after : Bytes) : Type 0 where
  pub first : IsFirstFree (taken data_bitmap_block before) 0 num_data_blocks (some dnum)
  pub zeroed : (i : ℕ) → i < block_size → after (address (dblock dnum) i) ≡ 0
  pub bits :
      (q : ℕ)
      → q < 8 * block_size
      → taken data_bitmap_block after q
        ≡ (if dnum == q then true else taken data_bitmap_block before q)
  pub rest :
      (b i : ℕ)
      → i < block_size
      → b ≢ dblock dnum
      → b ≢ data_bitmap_block
      → after (address b i) ≡ before (address b i)
  pub bytes : IsByteDisk after

-- With no free data block data_alloc fails and changes nothing.
pub data_alloc_full :
    (disk : Bytes)
    → ((q : ℕ) → q < num_data_blocks → taken data_bitmap_block disk q ≡ true)
    → data_alloc disk ≡ (none, disk)
unfolding data_alloc
data_alloc_full disk full = rw (
  bitmap_find_free-none data_bitmap_block num_data_blocks disk (omega arith) (omega arith) full,
  bind,
)

-- With a free data block data_alloc returns the first one, filled with zeros and marked as taken,
-- and changes no other block of the disk and no other bit.
pub data_alloc-DataAllocates :
    (disk : Bytes) (q : ℕ)
    → IsByteDisk disk
    → q < num_data_blocks
    → taken data_bitmap_block disk q ≡ false
    → (dnum : ℕ) × (after : Bytes) × (data_alloc disk ≡ (some dnum, after))
      × DataAllocates disk dnum after
unfolding data_alloc
data_alloc-DataAllocates disk q byte hq free =
    let (p, found, first) =
      bitmap_find_free-some data_bitmap_block num_data_blocks disk q (omega arith) (omega arith) hq
        free in
    let start = dblock p * block_size in
    let middle = memcpy disk start zero_block 0 block_size in
    let same = λ (k : ℕ) (hk : k < 8 * block_size).
      ap (λ b. bit b (k % 8))
        (memcpy_out disk start zero_block 0 block_size (address data_bitmap_block (k / 8))
          (omega arith)) in
    let (after, done, marks) =
      bitmap_alloc_free data_bitmap_block p middle (omega arith) (omega arith)
        (memcpy-lt disk start zero_block 0 block_size byte (λ a. omega arith))
        (same p (omega arith) ∙ first.2) in
    (
      p,
      after,
      rw (found, bind, block_write_in zero_block (dblock p) disk (omega arith), done),
      record {
        first = first;
        zeroed = λ i hi.
            marks.frame _ (omega arith)
            ∙ memcpy_in disk start zero_block 0 block_size _ (omega arith) (omega arith);
        bits = λ k hk. ground (arith, marks.bits k, same k hk);
        rest = λ b i hi ne nb.
            marks.frame _ (omega arith)
            ∙ memcpy_out disk start zero_block 0 block_size _ (omega arith);
        bytes = marks.bytes;
      },
    )

-- data_free of an allocated data block clears its bit and no other, and no byte outside the data
-- bitmap. Of a free data block, or of a number that is none, it fails and changes nothing.
pub data_free_lem :
    (dnum : ℕ) (disk : Bytes)
    → IsByteDisk disk
    → dnum < 2 ^ 32
    → ((num_data_blocks ≤ dnum) ⊎ (taken data_bitmap_block disk dnum ≡ false)
        → data_free dnum disk ≡ (none, disk))
      × (dnum < num_data_blocks
          → taken data_bitmap_block disk dnum ≡ true
          → (after : Bytes) × (data_free dnum disk ≡ (some tt, after))
            × Marks data_bitmap_block dnum false disk after)
unfolding data_free
data_free_lem dnum disk byte hw = (
  elim [
    | inl out ↦ ground arith
    | inr free ↦ ground (arith, bitmap_free_free data_bitmap_block dnum disk (omega arith))
  ],
  λ h used.
      let (after, done, marks) =
        bitmap_free-taken data_bitmap_block dnum disk (omega arith) (omega arith) byte used in
      (after, ground arith, marks),
)
