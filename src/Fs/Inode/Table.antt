-- ===== src/Fs/Inode/Table.antt =====
-- The slots of the inode table: inode_read and inode_update.
use pico_shell.Base.{
  Bytes, Ptr, ap, arith, bytes_of, memcpy, memcpy_out, memcpy_to_start, none, refl, some, sym,
  uninit, ℕ, ◌*◌, ◌+◌, ◌<◌, ◌^◌, ◌∙◌, ◌≡◌, ◌≢◌, ◌≤◌, ◌⊎◌,
}
use pico_shell.Fs.Block.Access.{address, block_read_in, block_write_in, patch_lem}
use pico_shell.Fs.Disk.{block_size}
use pico_shell.Fs.Inode.{
  Inode, iblock, inode_read, inode_size, inode_update, inode_word, ioffset, load_inode, num_inodes,
  put_inode,
}
use pico_shell.Fs.Inode.Struct.{IsStruct, load_inode-congr, load_inode-put_inode}

abbrev pub inode_address : ℕ → ℕ
inode_address inum = address (iblock inum) (ioffset inum)

-- the inode in a slot of the table on the disk
abbrev pub inode_at : Bytes → ℕ → Inode
inode_at disk inum = load_inode disk (inode_address inum)

module _ (inum : ℕ) (disk : Bytes) where
  pub inode_read_in :
      (out : Inode)
      → inum < num_inodes
      → inode_read (some out) inum disk ≡ some (inode_at disk inum)
  unfolding inode_read
  inode_read_in out h = ground (
    arith,
    block_read_in uninit (iblock inum) disk,
    load_inode-congr loaded disk (ioffset inum) (inode_address inum) (λ i hi. ground (
      arith,
      memcpy_to_start uninit disk (iblock inum * block_size) block_size (ioffset inum + i),
    )),
  )
    where
      loaded : Bytes
      loaded = memcpy uninit 0 disk (iblock inum * block_size) block_size

  pub inode_read_out :
      (out : Ptr Inode) → num_inodes ≤ inum → inum < 2 ^ 32 → inode_read out inum disk ≡ none
  unfolding inode_read
  inode_read_out none h k = refl
  inode_read_out (some out) h k = ground arith

  pub inode_update_in :
      (n : Inode)
      → inum < num_inodes
      → inode_update (some n) inum disk ≡ (some tt, put_inode disk (inode_address inum) n)
  unfolding inode_update put_inode
  inode_update_in n h = ground (
    arith,
    block_read_in uninit (iblock inum) disk,
    block_write_in (put_inode loaded (ioffset inum) n) (iblock inum) disk,
    patch_lem (iblock inum) (ioffset inum) 0 inode_size (bytes_of (inode_word n)) disk,
  )
    where
      loaded : Bytes
      loaded = memcpy uninit 0 disk (iblock inum * block_size) block_size

  pub inode_update_out :
      (n : Ptr Inode) → num_inodes ≤ inum → inum < 2 ^ 32 → inode_update n inum disk ≡ (none, disk)
  unfolding inode_update
  inode_update_out none h k = refl
  inode_update_out (some n) h k = ground arith

-- A write of one slot leaves every byte outside it, and so every other slot.
pub put_inode_frame :
    (disk : Bytes) (at : ℕ) (n : Inode) (a : ℕ)
    → (a < at) ⊎ (at + inode_size ≤ a)
    → put_inode disk at n a ≡ disk a
unfolding put_inode
put_inode_frame disk at n a h = memcpy_out disk at (bytes_of (inode_word n)) 0 inode_size a h

pub inode_at-put_inode_ne :
    (disk : Bytes) (inum other : ℕ) (n : Inode)
    → other ≢ inum
    → inode_at (put_inode disk (inode_address inum) n) other ≡ inode_at disk other
inode_at-put_inode_ne disk inum other n ne =
    load_inode-congr (put_inode disk (inode_address inum) n) disk (inode_address other)
      (inode_address other) (λ i hi. put_inode_frame disk (inode_address inum) n _ (omega arith))

-- After inode_update of a slot with a well-formed struct, inode_read of that slot returns the
-- struct, and inode_read of any other slot returns what it returned before.
pub inode_read-inode_update :
    (n out : Inode) (inum other : ℕ) (disk : Bytes)
    → IsStruct n
    → inum < num_inodes
    → other < num_inodes
    → (inode_read (some out) inum (inode_update (some n) inum disk).1 ≡ some n)
      × (other ≢ inum
          → inode_read (some out) other (inode_update (some n) inum disk).1
            ≡ inode_read (some out) other disk)
inode_read-inode_update n out inum other disk v h k = (
  rw (inode_update_in inum disk n h, inode_read_in inum _ out h)
      (ap some (load_inode-put_inode disk (inode_address inum) n v)),
  λ ne. rw (inode_update_in inum disk n h) (
      inode_read_in other _ out k
      ∙ ap some (inode_at-put_inode_ne disk inum other n ne)
      ∙ sym (inode_read_in other disk out k)),
)
