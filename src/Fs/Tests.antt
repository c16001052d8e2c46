-- ===== src/Fs/Tests.antt =====
-- The layers of src/fs at concrete inputs.
use pico_shell.Base.{
  Bytes, arith, bit, clear_bit, false, get_or, get_or-replicate, if◌then◌else◌, inl, memcpy,
  minus_one, none, refl, replicate, set_bit, some, store, suc, true, uninit, zero, ℕ, ◌%◌, ◌<◌,
  ◌==◌, ◌^◌, ◌∷◌, ◌≡◌, ◌≢◌, ◌≤◌, ◌⊎◌,
}
use pico_shell.Fs.Bitmap.{bitmap_alloc, bitmap_find_free, bitmap_free}
use pico_shell.Fs.Bitmap.Scan.{IsFirstFree, bitmap_find_free-IsFirstFree, taken}
use pico_shell.Fs.Bitmap.Update.{IsByteDisk, Marks}
use pico_shell.Fs.Block.{block_read, block_write}
use pico_shell.Fs.Data.{data_alloc, data_free}
use pico_shell.Fs.Data.Alloc.{DataAllocates, data_alloc-DataAllocates, data_free_lem}
use pico_shell.Fs.Disk.{disk_read, disk_write}
use pico_shell.Fs.File.{file_read, file_write}
use pico_shell.Fs.File.Content.{Owns}
use pico_shell.Fs.File.Room.{count_free, touched}
use pico_shell.Fs.File.Written.{FileWritten, file_read-file_write, file_write-FileWritten}
use pico_shell.Fs.Inode.{Inode, file_t, inode_alloc, inode_read, inode_update, inode_word, ndirect}
use pico_shell.Fs.Inode.Alloc.{InodeAllocates, inode_alloc-InodeAllocates}
use pico_shell.Fs.Inode.Struct.{IsStruct}
use pico_shell.Fs.Inode.Table.{inode_read-inode_update}

-- everything that a run of the lower layers computes with
disk_program : Unit {0}
unfolding disk_read disk_write block_read block_write memcpy store bit set_bit clear_bit
disk_program = tt

bitmap_program : Unit {0}
unfolding disk_program bitmap_find_free bitmap_alloc bitmap_free data_alloc data_free
bitmap_program = tt

-- the disk at the start of the program
abbrev blank : Bytes
blank _ = 0

abbrev sample : Bytes
sample i = i % 256

abbrev fresh_inode : Inode
fresh_inode = record {
  type = file_t;
  inum = 0;
  size = 0;
  num_links = 1;
  addrs = replicate ndirect minus_one;
}

blank-IsByteDisk : IsByteDisk blank
blank-IsByteDisk a = omega arith

fresh_pointer : (k : ℕ) → k < ndirect → get_or fresh_inode.addrs k 0 ≡ minus_one
fresh_pointer k h = get_or-replicate ndirect k minus_one 0 h

fresh-Owns : Owns blank fresh_inode
fresh-Owns = record {
  pointers = refl;
  allocated = λ k h. inl (fresh_pointer k h);
  distinct = λ j k hj hk ne h. absurd (h (fresh_pointer j hj));
  bytes = blank-IsByteDisk;
}

alloc_twice : (data_alloc (data_alloc blank).1).0 ≡ some 1
unfolding bitmap_program
alloc_twice = refl

file_read-file_write_example :
    (n' : Inode) × (after got : Bytes) × (file_write (some fresh_inode) (some sample) 0 1500 blank
      ≡ (some (1500, n'), after))
    × (file_read (some n') (some uninit) 0 1500 after ≡ some (1500, got))
    × ((i : ℕ) → i < 1500 → got i ≡ sample i)
unfolding touched count_free bit
file_read-file_write_example =
    file_read-file_write blank fresh_inode sample uninit 0 1500 fresh-Owns (λ i. omega arith)
      (omega arith) (omega arith) (omega arith) (omega arith) (omega arith)

bitmap_find_free-IsFirstFree_example :
    IsFirstFree (taken 1 blank) 0 80 (bitmap_find_free 1 80 blank)
bitmap_find_free-IsFirstFree_example =
    bitmap_find_free-IsFirstFree 1 80 blank (omega arith) (omega arith)

-- the first bit of the inode bitmap is set
abbrev one_taken : Bytes
one_taken a = if a == 1024 then 128 else 0

one_taken-IsByteDisk : IsByteDisk one_taken
one_taken-IsByteDisk a = ground arith

fresh-IsStruct : IsStruct fresh_inode
unfolding inode_word
fresh-IsStruct = record { words = words; pointers = refl }
  where
    words : (k : ℕ) → k < 16 → inode_word fresh_inode k < 2 ^ 32
    words zero h = omega arith
    words (suc zero) h = omega arith
    words (suc (suc zero)) h = omega arith
    words (suc (suc (suc zero))) h = omega arith
    words (suc (suc (suc (suc k)))) h = omega (arith, fresh_pointer k (omega arith))

inode_read-inode_update_example :
    (inode_read (some fresh_inode) 17 (inode_update (some fresh_inode) 17 blank).1
      ≡ some fresh_inode)
    × (◌≢◌ {A = ℕ} 5 17
        → inode_read (some fresh_inode) 5 (inode_update (some fresh_inode) 17 blank).1
          ≡ inode_read (some fresh_inode) 5 blank)
inode_read-inode_update_example =
    inode_read-inode_update fresh_inode fresh_inode 17 5 blank fresh-IsStruct (omega arith)
      (omega arith)

inode_alloc-InodeAllocates_example :
    (n' : Inode) × (after : Bytes) × (inode_alloc (some fresh_inode) one_taken ≡ (some n', after))
    × InodeAllocates fresh_inode one_taken n' after
unfolding bit
inode_alloc-InodeAllocates_example =
    inode_alloc-InodeAllocates fresh_inode one_taken 1 one_taken-IsByteDisk fresh-IsStruct
      (omega arith) refl

data_alloc-DataAllocates_example :
    (dnum : ℕ) × (after : Bytes) × (data_alloc blank ≡ (some dnum, after))
    × DataAllocates blank dnum after
unfolding bit
data_alloc-DataAllocates_example =
    data_alloc-DataAllocates blank 5 blank-IsByteDisk (omega arith) refl

data_free_lem_example :
    ((120 ≤ 7) ⊎ (taken 2 blank 7 ≡ false) → data_free 7 blank ≡ (none, blank))
    × (7 < 120
        → taken 2 blank 7 ≡ true
        → (after : Bytes) × (data_free 7 blank ≡ (some tt, after)) × Marks 2 7 false blank after)
data_free_lem_example = data_free_lem 7 blank blank-IsByteDisk (omega arith)

file_write-FileWritten_example :
    (n' : Inode) × (after : Bytes) × (file_write (some fresh_inode) (some sample) 0 1500 blank
      ≡ (some (1500, n'), after))
    × FileWritten blank fresh_inode sample 0 1500 n' after
unfolding touched count_free bit
file_write-FileWritten_example =
    file_write-FileWritten blank fresh_inode sample 0 1500 fresh-Owns (λ i. omega arith)
      (omega arith) (omega arith) (omega arith) (omega arith)

-- a file of one block
abbrev short_file : Inode
short_file = record fresh_inode { size = 10; addrs = 4 ∷ replicate 11 minus_one }
