-- ===== src/Fs/File/Content.antt =====
-- The abstract view of a file: the bytes that its inode's pointers lead to, a hole read as zeros.
use pico_shell.Base.{
  Bytes, arith, false, get_or, length, minus_one, true, ℕ, ◌%◌, ◌/◌, ◌<◌, ◌==◌, ◌≡◌, ◌≢◌, ◌⊎◌,
}
use pico_shell.Fs.Bitmap.{num_data_blocks}
use pico_shell.Fs.Bitmap.Scan.{taken}
use pico_shell.Fs.Bitmap.Update.{IsByteDisk}
use pico_shell.Fs.Block.Access.{address}
use pico_shell.Fs.Data.{data_bitmap_block, dblock}
use pico_shell.Fs.Disk.{block_size}
use pico_shell.Fs.Inode.{Inode, ndirect}

-- the pointer of the block that holds a byte of the file
abbrev pub pointer : Inode → ℕ → ℕ
pointer n i = get_or n.addrs (i / block_size) 0

-- where a byte of a file is on the disk
abbrev pub byte_address : Inode → ℕ → ℕ
byte_address n i = address (dblock (pointer n i)) (i % block_size)

unfoldable pub file_byte : Bytes → Inode → ℕ → ℕ
file_byte disk n i = elim (pointer n i == minus_one) [ true ↦ 0 | false ↦ disk (byte_address n i) ]

-- The inode owns its blocks: each pointer is -1 or an allocated data block, no two the same.
pub record Owns (disk : Bytes) (n : Inode) : Type 0 where
  pub pointers : length n.addrs ≡ ndirect
  pub allocated :
      (k : ℕ)
      → k < ndirect
      → (get_or n.addrs k 0 ≡ minus_one)
        ⊎ ((get_or n.addrs k 0 < num_data_blocks)
            × (taken data_bitmap_block disk (get_or n.addrs k 0) ≡ true))
  pub distinct :
      (j k : ℕ)
      → j < ndirect
      → k < ndirect
      → j ≢ k
      → get_or n.addrs j 0 ≢ minus_one
      → get_or n.addrs j 0 ≢ get_or n.addrs k 0
  pub bytes : IsByteDisk disk

pub file_byte_mapped :
    (disk : Bytes) (n : Inode) (i : ℕ)
    → pointer n i < num_data_blocks
    → file_byte disk n i ≡ disk (byte_address n i)
unfolding file_byte
file_byte_mapped disk n i h = ground arith

pub file_byte_hole :
    (disk : Bytes) (n : Inode) (i : ℕ) → pointer n i ≡ minus_one → file_byte disk n i ≡ 0
unfolding file_byte
file_byte_hole disk n i h = ground arith
