-- ===== src/Fs/Inode/Alloc.antt =====
-- inode_alloc and inode_free: which slot is taken, and what else changes.
use pico_shell.Base.{
  Bool, Bool-cases, Bytes, ap, arith, bit, bytes_of, bytes_of-lt, false, if◌then◌else◌, inl, inr,
  memcpy, memcpy-lt, none, refl, some, suc, true, uninit, zero, ℕ, ◌%◌, ◌*◌, ◌<◌, ◌==◌, ◌^◌, ◌∙◌,
  ◌≡◌, ◌≢◌, ◌≤◌, ◌⊎◌,
}
use pico_shell.Fs.Bitmap.Scan.{IsFirstFree, bitmap_find_free-none, bitmap_find_free-some, taken}
use pico_shell.Fs.Bitmap.Update.{
  IsByteDisk, Marks, bitmap_alloc_free, bitmap_free-taken, bitmap_free_free,
}
use pico_shell.Fs.Block.Access.{block_read_in, block_write_in, patch_lem}
use pico_shell.Fs.Data.{data_region_start}
use pico_shell.Fs.Disk.{block_size}
use pico_shell.Fs.Disk.Monad.{bind}
use pico_shell.Fs.Inode.{
  Inode, iblock, inode_alloc, inode_bitmap_block, inode_free, inode_size, inode_table_start,
  inode_word, ioffset, num_inodes, put_inode,
}
use pico_shell.Fs.Inode.Struct.{IsStruct, load_inode-congr, load_inode-put_inode}
use pico_shell.Fs.Inode.Table.{inode_address, inode_at, inode_at-put_inode_ne, put_inode_frame}

-- The byte is neither in the inode bitmap nor in the inode table.
abbrev pub OutsideInodes : ℕ → Type 0
OutsideInodes a =
    (a < block_size)
    ⊎ ((2 * block_size ≤ a) × (a < inode_table_start * block_size))
    ⊎ (data_region_start * block_size ≤ a)

-- A call of inode_alloc on the struct `n` went from the disk `before` to `after` and left `n'` with
-- the caller.
pub record InodeAllocates (n : Inode) (before : Bytes) (n' : Inode) (after : Bytes) : Type 0 where
  pub slot : n' ≡ record n { inum = n'.inum }
  pub first : IsFirstFree (taken inode_bitmap_block before) 0 num_inodes (some n'.inum)
  pub stored : inode_at after n'.inum ≡ n'
  pub others : (i : ℕ) → i ≢ n'.inum → i < num_inodes → inode_at after i ≡ inode_at before i
  pub bits :
      (q : ℕ)
      → q < 8 * block_size
      → taken inode_bitmap_block after q
        ≡ (if n'.inum == q then true else taken inode_bitmap_block before q)
  pub rest : (a : ℕ) → OutsideInodes a → after a ≡ before a
  pub bytes : IsByteDisk after

pub put_inode-IsByteDisk :
    (disk : Bytes) (at : ℕ) (n : Inode) → IsByteDisk disk → IsByteDisk (put_inode disk at n)
unfolding put_inode
put_inode-IsByteDisk disk at n byte a =
    memcpy-lt disk at (bytes_of (inode_word n)) 0 inode_size byte (bytes_of-lt (inode_word n)) a

IsStruct-inum :
    (n : Inode) (inum : ℕ) → IsStruct n → inum < 2 ^ 32 → IsStruct (record n { inum = inum })
unfolding inode_word
IsStruct-inum n inum v h = record { words = words; pointers = v.pointers }
  where
    words : (k : ℕ) → k < 16 → inode_word (record n { inum = inum }) k < 2 ^ 32
    words zero hk = v.words 0 hk
    words (suc zero) hk = h
    words (suc (suc zero)) hk = v.words 2 hk
    words (suc (suc (suc zero))) hk = v.words 3 hk
    words (suc (suc (suc (suc k)))) hk = v.words (suc (suc (suc (suc k)))) hk

-- With no free slot inode_alloc fails and changes nothing.
pub inode_alloc_full :
    (n : Inode) (disk : Bytes)
    → ((q : ℕ) → q < num_inodes → taken inode_bitmap_block disk q ≡ true)
    → inode_alloc (some n) disk ≡ (none, disk)
unfolding inode_alloc
inode_alloc_full n disk full = rw (
  bitmap_find_free-none inode_bitmap_block num_inodes disk (omega arith) (omega arith) full,
  bind,
)

-- the disk with a struct put into a slot: the inode bitmap on it is as it was
taken-put_inode :
    (disk : Bytes) (inum : ℕ) (n : Inode) (q : ℕ)
    → q < 8 * block_size
    → taken inode_bitmap_block (put_inode disk (inode_address inum) n) q
      ≡ taken inode_bitmap_block disk q
taken-put_inode disk inum n q hq =
    ap (λ b. bit b (q % 8)) (put_inode_frame disk (inode_address inum) n _ (omega arith))

put_inode-patch :
    (inum : ℕ) (n : Inode) (disk : Bytes)
    → inum < num_inodes
    → memcpy disk
        (iblock inum * block_size)
        (put_inode (memcpy uninit 0 disk (iblock inum * block_size) block_size) (ioffset inum) n)
        0
        block_size
      ≡ put_inode disk (inode_address inum) n
unfolding put_inode
put_inode-patch inum n disk h =
    patch_lem (iblock inum) (ioffset inum) 0 inode_size (bytes_of (inode_word n)) disk (omega arith)
      (omega arith)

-- A change of the inode bitmap leaves the table.
pub inode_at-Marks :
    (offset i : ℕ) (b : Bool) (before after : Bytes)
    → Marks inode_bitmap_block offset b before after
    → offset < num_inodes
    → i < num_inodes
    → inode_at after i ≡ inode_at before i
inode_at-Marks offset i b before after marks ho hi =
    load_inode-congr after before (inode_address i) (inode_address i)
      (λ j hj. marks.frame _ (omega arith))

-- With a free slot inode_alloc takes the first one: it stores the struct there under that number
-- and sets the slot's bit, and changes no other slot, no other bit and no byte elsewhere.
pub inode_alloc-InodeAllocates :
    (n : Inode) (disk : Bytes) (q : ℕ)
    → IsByteDisk disk
    → IsStruct n
    → q < num_inodes
    → taken inode_bitmap_block disk q ≡ false
    → (n' : Inode) × (after : Bytes) × (inode_alloc (some n) disk ≡ (some n', after))
      × InodeAllocates n disk n' after
unfolding inode_alloc
inode_alloc-InodeAllocates n disk q byte v hq free =
    let (p, found, first) =
      bitmap_find_free-some inode_bitmap_block num_inodes disk q (omega arith) (omega arith) hq
        free in
    let n' : Inode = record n { inum = p } in
    let middle = put_inode disk (inode_address p) n' in
    let (after, done, marks) =
      bitmap_alloc_free inode_bitmap_block p middle (omega arith) (omega arith)
        (put_inode-IsByteDisk disk _ n' byte)
        (taken-put_inode disk p n' p (omega arith) ∙ first.2) in
    (
      n',
      after,
      rw (
        found,
        bind,
        block_read_in uninit (iblock p) disk (omega arith),
        block_write_in _ (iblock p) disk (omega arith),
        put_inode-patch p n' disk first.1,
        done,
      ),
      record {
        slot = refl;
        first = first;
        stored =
            inode_at-Marks p p true middle after marks first.1 first.1
            ∙ load_inode-put_inode disk (inode_address p) n' (IsStruct-inum n p v (omega arith));
        others = λ i ne hi.
            inode_at-Marks p i true middle after marks first.1 hi
            ∙ inode_at-put_inode_ne disk p i n' ne;
        bits = λ k hk. ground (arith, marks.bits k, taken-put_inode disk p n' k);
        rest = λ a out. ground (arith, marks.frame a, put_inode_frame disk (inode_address p) n' a);
        bytes = marks.bytes;
      },
    )

-- inode_free of an allocated inode clears its bit and no other: every inode of the table, every
-- other bit and every byte outside the inode bitmap are as they were. Of a free inode it fails, and
-- the disk stays as it was.
pub inode_free_lem :
    (inum : ℕ) (disk : Bytes)
    → IsByteDisk disk
    → inum < num_inodes
    → ((taken inode_bitmap_block disk inum ≡ false) × (inode_free inum disk ≡ (none, disk)))
      ⊎ ((after : Bytes) × (taken inode_bitmap_block disk inum ≡ true)
          × (inode_free inum disk ≡ (some tt, after))
          × Marks inode_bitmap_block inum false disk after
          × ((i : ℕ) → i < num_inodes → inode_at after i ≡ inode_at disk i))
unfolding inode_free
inode_free_lem inum disk byte h = elim (Bool-cases (taken inode_bitmap_block disk inum)) [
  | inl used ↦
      let (after, done, marks) =
        bitmap_free-taken inode_bitmap_block inum disk (omega arith) (omega arith) byte used in
      inr (after, used, done, marks, λ i hi. inode_at-Marks inum i false disk after marks h hi)
  | inr free ↦
      inl (free, bitmap_free_free inode_bitmap_block inum disk (omega arith) (omega arith) free)
]
