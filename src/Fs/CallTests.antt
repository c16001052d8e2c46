-- ===== src/Fs/CallTests.antt =====
-- Paths and calls at concrete inputs.
use pico_shell.Base.{
  Bytes, List, [], ap, arith, bit, false, get_or, get_or-replicate, if◌then◌else◌, inl, inr, leb,
  ltb, memcpy, minus_one, none, refl, replicate, set, some, store, str_eq, subst, suc, sym, true,
  word_at, word_byte, zero, ℕ, ◌&&◌, ◌-◌, ◌/◌, ◌<◌, ◌==◌, ◌^◌, ◌∙◌, ◌∷◌, ◌≡◌, ◌≢◌, ◌⊎◌,
}
use pico_shell.Fs.Bitmap.{num_data_blocks}
use pico_shell.Fs.Bitmap.Scan.{taken}
use pico_shell.Fs.Bitmap.Update.{IsByteDisk}
use pico_shell.Fs.Calls.{bad_type, fs_chdir, fs_delete, new_inode}
use pico_shell.Fs.Calls.Outcome.{fs_chdir_lem, fs_delete_empty_file}
use pico_shell.Fs.Data.{data_bitmap_block}
use pico_shell.Fs.Directory.Entry.{Dirent, load_dirent, put_dirent, string_at}
use pico_shell.Fs.Directory.Lookup.{DirectoryAt, lookup_in}
use pico_shell.Fs.Directory.Patch.{Lists}
use pico_shell.Fs.Directory.Remove.{blank_entry, index_of}
use pico_shell.Fs.Directory.Slots.{IsDirectory, slots, slots_from}
use pico_shell.Fs.Directory.Store.{IsName, put_dirent-lt}
use pico_shell.Fs.Disk.{block_size}
use pico_shell.Fs.File.Content.{Owns, file_byte, pointer}
use pico_shell.Fs.File.Room.{count_free, free_blocks}
use pico_shell.Fs.Inode.{Inode, directory_t, file_t, inode_word, ndirect, put_inode}
use pico_shell.Fs.Inode.Alloc.{put_inode-IsByteDisk}
use pico_shell.Fs.Inode.Struct.{IsStruct, load_inode-put_inode}
use pico_shell.Fs.Inode.Table.{inode_address, inode_at, inode_at-put_inode_ne}
use pico_shell.Fs.Path.{overruns, path_lookup, path_lookup_parent, root_inode, slash}
use pico_shell.Fs.Path.Components.{components}
use pico_shell.Fs.Path.Lookup.{
  AllShort, descend, in_directory, path_lookup_lem, path_lookup_parent_lem, path_lookup_parent_root,
}

abbrev held : Dirent
held = record { valid = true; name = 97 ∷ []; inum = 3 }

-- the root, with one entry for an empty file
abbrev top : Inode
top = record {
  type = directory_t;
  inum = 0;
  size = 64;
  num_links = 0;
  addrs = 0 ∷ replicate 11 minus_one;
}

abbrev empty_file : Inode
empty_file = record (new_inode file_t 1) { inum = 3 }

-- the bitmaps and the root's data block
abbrev tree_blocks : Bytes
tree_blocks a =
    if a == 1024
    then 144
    else if a == 2048
    then 128
    else if leb 8192 a && ltb a 8256
    then put_dirent held (a - 8192)
    else 0

abbrev tree_files : Bytes
tree_files = put_inode tree_blocks (inode_address 3) empty_file

abbrev tree : Bytes
tree = put_inode tree_files (inode_address 0) top

unused_pointer : (k : ℕ) → k < 11 → get_or (replicate 11 minus_one) k 0 ≡ minus_one
unused_pointer k h = get_or-replicate 11 k minus_one 0 h

top-IsStruct : IsStruct top
unfolding inode_word
top-IsStruct = record { words = words; pointers = refl }
  where
    words : (k : ℕ) → k < 16 → inode_word top k < 2 ^ 32
    words zero h = omega arith
    words (suc zero) h = omega arith
    words (suc (suc zero)) h = omega arith
    words (suc (suc (suc zero))) h = omega arith
    words (suc (suc (suc (suc zero)))) h = omega arith
    words (suc (suc (suc (suc (suc k))))) h = omega (arith, unused_pointer k (omega arith))

empty_file-IsStruct : IsStruct empty_file
unfolding inode_word
empty_file-IsStruct = record { words = words; pointers = refl }
  where
    words : (k : ℕ) → k < 16 → inode_word empty_file k < 2 ^ 32
    words zero h = omega arith
    words (suc zero) h = omega arith
    words (suc (suc zero)) h = omega arith
    words (suc (suc (suc zero))) h = omega arith
    words (suc (suc (suc (suc k)))) h =
        omega (arith, get_or-replicate 12 k minus_one 0 (omega arith))

tree-top : inode_at tree 0 ≡ top
tree-top = load_inode-put_inode tree_files (inode_address 0) top top-IsStruct

tree-empty_file : inode_at tree 3 ≡ empty_file
tree-empty_file =
    inode_at-put_inode_ne tree_files 0 3 top (omega arith)
    ∙ load_inode-put_inode tree_blocks (inode_address 3) empty_file empty_file-IsStruct

top-IsDirectory : IsDirectory top
top-IsDirectory = record { is_dir = refl; whole = refl; small = omega arith; covered = covered }
  where
    at_first : get_or top.addrs 0 0 < num_data_blocks
    at_first = omega arith

    covered : (i : ℕ) → i < 64 → pointer top i < num_data_blocks
    covered i h =
        let e : i / block_size ≡ 0 = omega arith in
        omega (arith, ap (λ q. get_or top.addrs q 0) e, at_first)

top-DirectoryAt : DirectoryAt tree 0 top
top-DirectoryAt = record {
  in_range = omega arith;
  in_slot = tree-top;
  is_directory = top-IsDirectory;
}

top_entries : slots tree top ≡ held ∷ []
unfolding slots_from load_dirent file_byte put_inode memcpy store put_dirent string_at word_at
    word_byte
top_entries = refl

held-IsName : IsName held.name
held-IsName = record { short = omega arith; chars = chars }
  where
    chars : (i : ℕ) → i < 1 → (0 < get_or held.name i 0) × (get_or held.name i 0 < 256)
    chars zero h = (omega arith, omega arith)
    chars (suc i) h = absurd (omega arith)

tree-IsByteDisk : IsByteDisk tree
tree-IsByteDisk = put_inode-IsByteDisk tree_files (inode_address 0) top (
    put_inode-IsByteDisk tree_blocks (inode_address 3) empty_file
      (λ a. ground (arith, put_dirent-lt held held-IsName (a - 8192))))

tree_block_taken : taken data_bitmap_block tree 0 ≡ true
unfolding put_inode memcpy bit
tree_block_taken = refl

tree_free : 0 < free_blocks tree
unfolding count_free bit put_inode memcpy store put_dirent
tree_free = omega arith

top-Owns : Owns tree top
top-Owns = record {
  pointers = refl;
  allocated = allocated;
  distinct = distinct;
  bytes = tree-IsByteDisk;
}
  where
    allocated :
        (k : ℕ)
        → k < ndirect
        → (get_or top.addrs k 0 ≡ minus_one)
          ⊎ ((get_or top.addrs k 0 < num_data_blocks)
              × (taken data_bitmap_block tree (get_or top.addrs k 0) ≡ true))
    allocated zero h = inr (omega arith, tree_block_taken)
    allocated (suc k) h = inl (unused_pointer k (omega arith))

    distinct :
        (j k : ℕ)
        → j < ndirect
        → k < ndirect
        → j ≢ k
        → get_or top.addrs j 0 ≢ minus_one
        → get_or top.addrs j 0 ≢ get_or top.addrs k 0
    distinct zero zero hj hk ne h e = ne refl
    distinct zero (suc k) hj hk ne h e = omega (arith, e, unused_pointer k (omega arith))
    distinct (suc j) k hj hk ne h e = h (unused_pointer j (omega arith))

-- "a//b/"
abbrev two_parts : List ℕ
two_parts = 97 ∷ 47 ∷ 47 ∷ 98 ∷ 47 ∷ []

two_parts-components : components two_parts ≡ (97 ∷ []) ∷ (98 ∷ []) ∷ []
unfolding components
two_parts-components = refl

two_parts-AllShort : AllShort (components two_parts)
unfolding components AllShort
two_parts-AllShort = (omega arith, (omega arith, tt))

path_lookup_lem_example :
    (overruns false (slash ∷ two_parts) tree ≡ false)
    × (path_lookup [] (slash ∷ two_parts) tree
        ≡ descend tree (inode_at tree 0) (components two_parts))
    × ((c : ℕ) → c ≢ slash → path_lookup [] (c ∷ two_parts) tree ≡ none)
    × (path_lookup [] [] tree ≡ none)
path_lookup_lem_example = path_lookup_lem [] two_parts tree two_parts-AllShort

path_lookup_parent_lem_example :
    (overruns true (slash ∷ two_parts) tree ≡ false)
    × (path_lookup_parent [] (slash ∷ two_parts) tree
        ≡ in_directory (98 ∷ []) (descend tree (inode_at tree 0) ((97 ∷ []) ∷ [])))
path_lookup_parent_lem_example =
    path_lookup_parent_lem [] two_parts tree ((97 ∷ []) ∷ []) (98 ∷ []) two_parts-components
      two_parts-AllShort

path_lookup_parent_root_example :
    path_lookup_parent (120 ∷ []) (slash ∷ slash ∷ []) tree ≡ some (inode_at tree 0, 120 ∷ [])
unfolding components
path_lookup_parent_root_example = path_lookup_parent_root (120 ∷ []) (slash ∷ []) tree refl

fs_chdir_lem_example :
    (overruns false (slash ∷ two_parts) tree ≡ false)
    × ((n : Inode)
        → descend tree (inode_at tree root_inode) (components two_parts) ≡ some n
        → fs_chdir top [] (some (slash ∷ two_parts)) tree
          ≡ (if n.type == directory_t then some n else none))
    × (descend tree (inode_at tree root_inode) (components two_parts) ≡ none
        → fs_chdir top [] (some (slash ∷ two_parts)) tree
          ≡ (if top.type == directory_t then some top else none))
fs_chdir_lem_example = fs_chdir_lem top [] two_parts tree two_parts-AllShort

-- the directory of a path of one component
in_top :
    (c : ℕ)
    → components (c ∷ []) ≡ (c ∷ []) ∷ []
    → path_lookup_parent [] (slash ∷ c ∷ []) tree ≡ some (top, c ∷ [])
unfolding descend in_directory AllShort
in_top c parts =
    (path_lookup_parent_lem [] (c ∷ []) tree [] (c ∷ []) parts
      (subst AllShort (sym parts) (omega arith, tt))).1
    ∙ ap (λ n. in_directory (c ∷ []) (some n)) tree-top

in_top_a : path_lookup_parent [] (slash ∷ 97 ∷ []) tree ≡ some (top, 97 ∷ [])
unfolding components
in_top_a = in_top 97 refl

fs_delete_empty_file_example :
    (after : Bytes) × (fs_delete [] (some (slash ∷ 97 ∷ [])) file_t tree ≡ (none, after))
    × Lists tree top (set (slots tree top) 0 blank_entry) top after
unfolding lookup_in str_eq index_of bad_type
fs_delete_empty_file_example =
    fs_delete_empty_file [] (slash ∷ 97 ∷ []) file_t tree top (97 ∷ []) 0 3 in_top_a refl refl
      top-DirectoryAt top-Owns top-IsStruct refl refl (rw top_entries refl) (rw top_entries refl)
      (omega arith) (rw tree-empty_file (omega arith)) (rw tree-empty_file refl) tree_free
