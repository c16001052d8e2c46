-- ===== src/Fs/DirTests.antt =====
-- Directories at concrete inputs.
use pico_shell.Base.{
  Bytes, List, [], ap, arith, bit, false, get_or, get_or-replicate, if◌then◌else◌, inl, inr, leb,
  ltb, memcpy, minus_one, none, refl, replicate, set, some, store, str_eq, suc, true, uninit,
  word_at, word_byte, zero, ℕ, ◌&&◌, ◌++◌, ◌-◌, ◌/◌, ◌<◌, ◌==◌, ◌^◌, ◌∷◌, ◌≡◌, ◌≢◌, ◌⊎◌,
}
use pico_shell.Fs.Bitmap.{num_data_blocks}
use pico_shell.Fs.Bitmap.Scan.{taken}
use pico_shell.Fs.Bitmap.Update.{IsByteDisk}
use pico_shell.Fs.Data.{data_bitmap_block}
use pico_shell.Fs.Directory.{dir_add, dir_lookup, dir_remove, is_entry}
use pico_shell.Fs.Directory.Add.{all_valid, dir_add-Lists}
use pico_shell.Fs.Directory.Contents.{dir_lookup-dir_add, dir_lookup-dir_remove}
use pico_shell.Fs.Directory.Entry.{Dirent, load_dirent, put_dirent, string_at}
use pico_shell.Fs.Directory.Lookup.{DirectoryAt, dir_lookup_lem, lookup_in}
use pico_shell.Fs.Directory.Patch.{Lists}
use pico_shell.Fs.Directory.Remove.{blank_entry, dir_add_hole, dir_remove-Lists, index_of}
use pico_shell.Fs.Directory.Slots.{IsDirectory, slots, slots_from}
use pico_shell.Fs.Directory.Store.{IsName, put_dirent-lt}
use pico_shell.Fs.Disk.{block_size}
use pico_shell.Fs.File.Content.{Owns, file_byte, pointer}
use pico_shell.Fs.File.Room.{count_free, free_blocks}
use pico_shell.Fs.Inode.{Inode, directory_t, inode_word, ndirect, put_inode}
use pico_shell.Fs.Inode.Alloc.{put_inode-IsByteDisk}
use pico_shell.Fs.Inode.Struct.{IsStruct, load_inode-put_inode}
use pico_shell.Fs.Inode.Table.{inode_address}

abbrev entry : Dirent
entry = record { valid = true; name = 97 ∷ []; inum = 3 }

abbrev folder : Inode
folder = record {
  type = directory_t;
  inum = 5;
  size = 64;
  num_links = 1;
  addrs = 0 ∷ replicate 11 minus_one;
}

-- the first data block, taken, with the entry in it
abbrev stored_entry : Bytes
stored_entry a =
    if a == 2048 then 128 else if leb 8192 a && ltb a 8256 then put_dirent entry (a - 8192) else 0

abbrev folder_disk : Bytes
folder_disk = put_inode stored_entry (inode_address 5) folder

other_pointer : (k : ℕ) → k < 11 → get_or (replicate 11 minus_one) k 0 ≡ minus_one
other_pointer k h = get_or-replicate 11 k minus_one 0 h

folder-IsStruct : IsStruct folder
unfolding inode_word
folder-IsStruct = record { words = words; pointers = refl }
  where
    words : (k : ℕ) → k < 16 → inode_word folder k < 2 ^ 32
    words zero h = omega arith
    words (suc zero) h = omega arith
    words (suc (suc zero)) h = omega arith
    words (suc (suc (suc zero))) h = omega arith
    words (suc (suc (suc (suc zero)))) h = omega arith
    words (suc (suc (suc (suc (suc k))))) h = omega (arith, other_pointer k (omega arith))

folder-IsDirectory : IsDirectory folder
folder-IsDirectory = record { is_dir = refl; whole = refl; small = omega arith; covered = covered }
  where
    at_zero : get_or folder.addrs 0 0 < num_data_blocks
    at_zero = omega arith

    covered : (i : ℕ) → i < 64 → pointer folder i < num_data_blocks
    covered i h =
        let e : i / block_size ≡ 0 = omega arith in
        omega (arith, ap (λ q. get_or folder.addrs q 0) e, at_zero)

folder-DirectoryAt : DirectoryAt folder_disk 5 folder
folder-DirectoryAt = record {
  in_range = omega arith;
  in_slot = load_inode-put_inode stored_entry (inode_address 5) folder folder-IsStruct;
  is_directory = folder-IsDirectory;
}

folder_first : slots folder_disk folder ≡ entry ∷ []
unfolding slots_from load_dirent file_byte put_inode memcpy store put_dirent string_at word_at
    word_byte
folder_first = refl

abbrev entry_b : Dirent
entry_b = record { valid = true; name = 98 ∷ []; inum = 4 }

entry_b-IsName : IsName entry_b.name
entry_b-IsName = record { short = omega arith; chars = chars }
  where
    chars : (i : ℕ) → i < 1 → (0 < get_or entry_b.name i 0) × (get_or entry_b.name i 0 < 256)
    chars zero h = (omega arith, omega arith)
    chars (suc i) h = absurd (omega arith)

entry-IsName : IsName entry.name
entry-IsName = record { short = omega arith; chars = chars }
  where
    chars : (i : ℕ) → i < 1 → (0 < get_or entry.name i 0) × (get_or entry.name i 0 < 256)
    chars zero h = (omega arith, omega arith)
    chars (suc i) h = absurd (omega arith)

stored_entry-IsByteDisk : IsByteDisk stored_entry
stored_entry-IsByteDisk a = ground (arith, put_dirent-lt entry entry-IsName (a - 8192))

first_block_taken : taken data_bitmap_block folder_disk 0 ≡ true
unfolding put_inode memcpy bit
first_block_taken = refl

folder_free : 0 < free_blocks folder_disk
unfolding count_free bit put_inode memcpy store put_dirent
folder_free = omega arith

folder-Owns : Owns folder_disk folder
folder-Owns = record {
  pointers = refl;
  allocated = allocated;
  distinct = distinct;
  bytes = put_inode-IsByteDisk stored_entry (inode_address 5) folder stored_entry-IsByteDisk;
}
  where
    allocated :
        (k : ℕ)
        → k < ndirect
        → (get_or folder.addrs k 0 ≡ minus_one)
          ⊎ ((get_or folder.addrs k 0 < num_data_blocks)
              × (taken data_bitmap_block folder_disk (get_or folder.addrs k 0) ≡ true))
    allocated zero h = inr (omega arith, first_block_taken)
    allocated (suc k) h = inl (other_pointer k (omega arith))

    distinct :
        (j k : ℕ)
        → j < ndirect
        → k < ndirect
        → j ≢ k
        → get_or folder.addrs j 0 ≢ minus_one
        → get_or folder.addrs j 0 ≢ get_or folder.addrs k 0
    distinct zero zero hj hk ne h e = ne refl
    distinct zero (suc k) hj hk ne h e = omega (arith, e, other_pointer k (omega arith))
    distinct (suc j) k hj hk ne h e = h (other_pointer j (omega arith))

no_b : lookup_in entry_b.name (entry ∷ []) ≡ minus_one
unfolding lookup_in str_eq
no_b = refl

no_index_b : index_of (is_entry entry_b.name) (entry ∷ []) ≡ none
unfolding index_of str_eq
no_index_b = refl

all_a : all_valid (entry ∷ []) ≡ true
unfolding all_valid
all_a = refl

at_zero : index_of (λ e. str_eq e.name entry.name) (entry ∷ []) ≡ some 0
unfolding index_of str_eq
at_zero = refl

found_a : index_of (λ e. str_eq e.name entry.name) (slots folder_disk folder) ≡ some 0
found_a = rw folder_first at_zero

dir_lookup_lem_example :
    dir_lookup 5 (some (97 ∷ [])) folder_disk ≡ lookup_in (97 ∷ []) (slots folder_disk folder)
dir_lookup_lem_example = dir_lookup_lem folder_disk 5 folder (97 ∷ []) folder-DirectoryAt

dir_add-Lists_example :
    (n' : Inode) × (after : Bytes) × (dir_add uninit 5 (some entry_b) folder_disk
      ≡ (some tt, after))
    × Lists folder_disk folder (slots folder_disk folder ++ entry_b ∷ []) n' after
dir_add-Lists_example =
    dir_add-Lists uninit folder_disk folder entry_b folder-DirectoryAt folder-Owns folder-IsStruct
      entry_b-IsName (omega arith) (rw folder_first no_b) (rw folder_first all_a) (omega arith)
      folder_free

dir_lookup-dir_add_example :
    (after : Bytes) × (dir_add uninit 5 (some entry_b) folder_disk ≡ (some tt, after))
    × (dir_lookup 5 (some entry_b.name) after ≡ 4)
    × ((other : List ℕ)
        → str_eq entry_b.name other ≡ false
        → dir_lookup 5 (some other) after ≡ dir_lookup 5 (some other) folder_disk)
dir_lookup-dir_add_example =
    dir_lookup-dir_add uninit folder_disk folder entry_b folder-DirectoryAt folder-Owns
      folder-IsStruct entry_b-IsName (omega arith) refl (rw folder_first no_index_b)
      (rw folder_first all_a) (omega arith) folder_free

dir_remove-Lists_example :
    (after : Bytes) × (dir_remove 5 (some entry.name) folder_disk ≡ (some tt, after))
    × Lists folder_disk folder (set (slots folder_disk folder) 0 blank_entry) folder after
unfolding str_eq
dir_remove-Lists_example =
    dir_remove-Lists folder_disk folder entry.name 0 folder-DirectoryAt folder-Owns folder-IsStruct
      refl refl found_a folder_free

dir_lookup-dir_remove_example :
    (after : Bytes) × (dir_remove 5 (some entry.name) folder_disk ≡ (some tt, after))
    × ((other : List ℕ)
        → str_eq entry.name other ≡ false
        → dir_lookup 5 (some other) after ≡ dir_lookup 5 (some other) folder_disk)
    × (((j : ℕ)
          → j ≢ 0
          → is_entry entry.name (get_or (slots folder_disk folder) j blank_entry) ≡ false)
        → dir_lookup 5 (some entry.name) after ≡ minus_one)
unfolding str_eq
dir_lookup-dir_remove_example =
    dir_lookup-dir_remove folder_disk folder entry.name 0 folder-DirectoryAt folder-Owns
      folder-IsStruct refl refl found_a folder_free

-- the same directory, its entry all zeros
abbrev holey_disk : Bytes
holey_disk = put_inode (λ a. 0) (inode_address 5) folder

holey-DirectoryAt : DirectoryAt holey_disk 5 folder
holey-DirectoryAt = record {
  in_range = omega arith;
  in_slot = load_inode-put_inode (λ a. 0) (inode_address 5) folder folder-IsStruct;
  is_directory = folder-IsDirectory;
}

holey_first : slots holey_disk folder ≡ blank_entry ∷ []
unfolding slots_from load_dirent file_byte put_inode memcpy store string_at word_at
holey_first = refl

dir_add_hole_example :
    dir_add uninit 5 (some entry) holey_disk ≡ dir_add uninit 5 (some entry_b) holey_disk
unfolding lookup_in index_of
dir_add_hole_example =
    dir_add_hole uninit holey_disk folder entry entry_b 0 holey-DirectoryAt (rw holey_first refl)
      (rw holey_first refl) (rw holey_first refl)
