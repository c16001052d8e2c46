-- ===== src/Fs/Inode.antt =====
-- fs/inode.c: the inode table and its bitmap.
pub mod Struct
pub mod Table
pub mod Alloc
use pico_shell.Base.{
  Bool, Bytes, List, Option, Ptr, [], bytes_of, get_or, if◌then◌else◌, memcpy, minus_one, none, not,
  set, slt, some, suc, uninit, word_at, words_at, zero, ℕ, ◌%◌, ◌*◌, ◌+◌, ◌/◌, ◌==◌, ◌||◌,
}
use pico_shell.Fs.Bitmap.{bitmap_alloc, bitmap_find_free, bitmap_free}
use pico_shell.Fs.Block.{block_read, block_write}
use pico_shell.Fs.Data.{data_alloc}
use pico_shell.Fs.Disk.{block_size}
use pico_shell.Fs.Disk.Monad.{M, fail, reads, ret, ◌>>=◌, ◌>>◌}
use mathlib.Core.Option

-- The constants of inode.h and fs.h.
abbrev pub num_inodes : ℕ
num_inodes = 80

abbrev pub ndirect : ℕ
ndirect = 12

abbrev pub inode_bitmap_block : ℕ
inode_bitmap_block = 1

abbrev pub inode_table_start : ℕ
inode_table_start = 3

-- sizeof(struct inode), sixteen words
abbrev pub inode_size : ℕ
inode_size = 64

abbrev pub inodes_per_block : ℕ
inodes_per_block = block_size / inode_size

-- IBLOCK and IOFFSET
abbrev pub iblock : ℕ → ℕ
iblock inum = inum / inodes_per_block + inode_table_start

abbrev pub ioffset : ℕ → ℕ
ioffset inum = inum % inodes_per_block * inode_size

-- `enum file_type`, as the int that a field of the type holds
abbrev pub unused_t : ℕ
unused_t = 0

abbrev pub file_t : ℕ
file_t = 1

abbrev pub directory_t : ℕ
directory_t = 2

-- `struct inode`; every field is a 32-bit pattern, and `addrs` has `ndirect` of them.
pub record Inode : Type 0 where
  pub type : ℕ
  pub inum : ℕ
  pub size : ℕ
  pub num_links : ℕ
  pub addrs : List ℕ

-- what a local struct holds before it is written
abbrev pub uninit_inode : Inode
uninit_inode = record { type = 0; inum = 0; size = 0; num_links = 0; addrs = [] }

-- the words of the struct, in order
unfoldable pub inode_word : Inode → ℕ → ℕ
inode_word n zero = n.type
inode_word n (suc zero) = n.inum
inode_word n (suc (suc zero)) = n.size
inode_word n (suc (suc (suc zero))) = n.num_links
inode_word n (suc (suc (suc (suc k)))) = get_or n.addrs k 0

-- the struct at an offset of some bytes
unfoldable pub load_inode : Bytes → ℕ → Inode
load_inode b a = record {
  type = word_at b a;
  inum = word_at b (a + 4);
  size = word_at b (a + 8);
  num_links = word_at b (a + 12);
  addrs = words_at b (a + 16) ndirect;
}

-- `memcpy(&block[at], inode, sizeof(struct inode))`
unfoldable pub put_inode : Bytes → ℕ → Inode → Bytes
unfolding inode_word
put_inode block at n = memcpy block at (bytes_of (inode_word n)) 0 inode_size

-- the test `inum < 0 || inum >= NUM_INODES`
abbrev pub bad_inum : ℕ → Bool
bad_inum inum = slt inum 0 || not (slt inum num_inodes)

-- The result is the caller's struct, whose `inum` the call sets.
unfoldable pub inode_alloc : Ptr Inode → M Inode
inode_alloc none = fail
inode_alloc (some n) = do
  inum ← reads (bitmap_find_free inode_bitmap_block num_inodes)
  let n' = record n { inum = inum }
  block ← reads (block_read (some uninit) (iblock inum))
  block_write (some (put_inode block (ioffset inum) n')) (iblock inum)
  bitmap_alloc inode_bitmap_block inum
  ret n'

-- The check of the number prints a message and does not return.
unfoldable pub inode_free : ℕ → M (Unit {0})
inode_free inum = bitmap_free inode_bitmap_block inum

-- The out parameter is overwritten as a whole.
unfoldable pub inode_read : Ptr Inode → ℕ → Bytes → Option Inode
inode_read none inum disk = none
inode_read (some out) inum disk =
    if bad_inum inum
    then none
    else Option.map (λ block. load_inode block (ioffset inum))
        (block_read (some uninit) (iblock inum) disk)

unfoldable pub inode_update : Ptr Inode → ℕ → M (Unit {0})
inode_update none inum = fail
inode_update (some n) inum = if bad_inum inum then fail else do
  block ← reads (block_read (some uninit) (iblock inum))
  block_write (some (put_inode block (ioffset inum) n)) (iblock inum)

-- The data block that the nth pointer of the inode names, allocated if there is none, and the
-- caller's struct.
unfoldable pub inode_datamap : Inode → ℕ → M (ℕ × Inode)
inode_datamap n i =
    let dnum = get_or n.addrs i 0 in
    if dnum == minus_one
    then (do new ← data_alloc; ret (new, record n { addrs = set n.addrs i new }))
    else ret (dnum, n)
