-- ===== src/Fs/Bitmap.antt =====
-- fs/bitmap.c: a block as an array of bits, the highest bit of a byte first.
pub mod Scan
pub mod Update
use pico_shell.Base.{
  Bytes, Option, bit, clear_bit, if◌then◌else◌, leb, none, not, set_bit, some, store, suc, uninit,
  zero, ℕ, ◌%◌, ◌*◌, ◌+◌, ◌-◌, ◌/◌,
}
use pico_shell.Fs.Block.{block_read, block_write}
use pico_shell.Fs.Disk.Monad.{M, fail, reads, ◌>>=◌, ◌>>◌}

-- NUM_DATA_BLOCKS of fs.h: what the superblock, the two bitmaps and the inode table leave.
abbrev pub num_data_blocks : ℕ
num_data_blocks = 128 - 80 * 64 / 1024 - 3

-- How the loop over the bits of a byte ends: by a return, or at its end.
pub data BitScan : Type 0 where
  returned : Option ℕ → BitScan
  next_byte : BitScan

-- the rounds left of the loop over j, from j on
pub bit_loop : ℕ → ℕ → ℕ → ℕ → ℕ → BitScan
bit_loop byte i limit zero j = next_byte
bit_loop byte i limit (suc left) j =
    let rest = bit_loop byte i limit left (j + 1) in
    if leb limit (i * 8 + j)
    then returned none
    else if not (bit byte j)
    then returned (some (i * 8 + j))
    else rest

pub or_next : BitScan → Option ℕ → Option ℕ
or_next (returned r) rest = r
or_next next_byte rest = rest

-- the rounds left of the loop over i, from i on
pub byte_loop : Bytes → ℕ → ℕ → ℕ → Option ℕ
byte_loop bitmap limit zero i = none
byte_loop bitmap limit (suc left) i =
    let rest = byte_loop bitmap limit left (i + 1) in or_next (bit_loop (bitmap i) i limit 8 0) rest

pub find_in : Option Bytes → ℕ → Option ℕ
find_in none limit = none
find_in (some bitmap) limit = byte_loop bitmap limit ((num_data_blocks + 7) / 8) 0

-- `none` for -1
unfoldable pub bitmap_find_free : ℕ → ℕ → Bytes → Option ℕ
unfolding find_in byte_loop bit_loop or_next
bitmap_find_free bnum limit disk = find_in (block_read (some uninit) bnum disk) limit

unfoldable pub bitmap_alloc : ℕ → ℕ → M (Unit {0})
bitmap_alloc bnum offset = do
  bitmap ← reads (block_read (some uninit) bnum)
  let byte = bitmap (offset / 8)
  let bit_ix = offset % 8
  if bit byte bit_ix
      then fail
      else block_write (some (store bitmap (offset / 8) (set_bit byte bit_ix))) bnum

unfoldable pub bitmap_free : ℕ → ℕ → M (Unit {0})
bitmap_free bnum offset = do
  bitmap ← reads (block_read (some uninit) bnum)
  let byte = bitmap (offset / 8)
  let bit_ix = offset % 8
  if not (bit byte bit_ix)
      then fail
      else block_write (some (store bitmap (offset / 8) (clear_bit byte bit_ix))) bnum
