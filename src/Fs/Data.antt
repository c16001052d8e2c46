-- ===== src/Fs/Data.antt =====
-- fs/data.c: the data blocks, and the bitmap that says which are allocated.
pub mod Access
pub mod Alloc
use pico_shell.Base.{Bool, Bytes, Option, Ptr, if◌then◌else◌, leb, none, slt, some, ℕ, ◌+◌, ◌||◌}
use pico_shell.Fs.Bitmap.{bitmap_alloc, bitmap_find_free, bitmap_free, num_data_blocks}
use pico_shell.Fs.Block.{block_read, block_write}
use pico_shell.Fs.Disk.Monad.{M, reads, ret, ◌>>=◌, ◌>>◌}

-- DATA_BITMAP_BLOCK and DATA_REGION_START of fs.h
abbrev pub data_bitmap_block : ℕ
data_bitmap_block = 2

abbrev pub data_region_start : ℕ
data_region_start = 8

-- DBLOCK: the block of the disk that holds a data block
abbrev pub dblock : ℕ → ℕ
dblock dnum = dnum + data_region_start

-- the test `dnum < 0 || dnum >= NUM_DATA_BLOCKS`
abbrev pub bad_dnum : ℕ → Bool
bad_dnum dnum = slt dnum 0 || leb num_data_blocks dnum

-- `block block = {0}`
abbrev pub zero_block : Bytes
zero_block _ = 0

unfoldable pub data_alloc : M ℕ
data_alloc = do
  dnum ← reads (bitmap_find_free data_bitmap_block num_data_blocks)
  block_write (some zero_block) (dblock dnum)
  bitmap_alloc data_bitmap_block dnum
  ret dnum

unfoldable pub data_free : ℕ → M (Unit {0})
data_free dnum disk =
    if bad_dnum dnum then (none, disk) else bitmap_free data_bitmap_block dnum disk

unfoldable pub data_read : Ptr Bytes → ℕ → Bytes → Option Bytes
data_read none dnum disk = none
data_read (some buf) dnum disk =
    if bad_dnum dnum then none else block_read (some buf) (dblock dnum) disk

unfoldable pub data_update : Ptr Bytes → ℕ → M (Unit {0})
data_update none dnum disk = (none, disk)
data_update (some buf) dnum disk =
    if bad_dnum dnum then (none, disk) else block_write (some buf) (dblock dnum) disk
