-- ===== src/Fs/Directory/Lookup.antt =====
-- dir_lookup and dir_empty against the list of entries.
use pico_shell.Base.{
  Bool, Bool-cases, Bytes, List, Ptr, [], arith, false, if◌then◌else◌, inl, inr, leb, minus_one,
  none, refl, some, suc, ℕ, ◌<◌, ◌||◌, ◌∷◌, ◌≡◌, ◌≢◌, ◌≤◌, ◌⊎◌,
}
use pico_shell.Fs.Directory.{
  dir_empty, dir_inode, dir_lookup, found_child, found_inum, is_child, is_entry,
}
use pico_shell.Fs.Directory.Entry.{Dirent}
use pico_shell.Fs.Directory.Slots.{IsDirectory, first_picked, scan_entries_lem, slots}
use pico_shell.Fs.Inode.{Inode, directory_t, num_inodes, uninit_inode}
use pico_shell.Fs.Inode.Table.{inode_at, inode_read_in}

-- the number that the first valid entry of a name holds, or -1
unfoldable pub lookup_in : List ℕ → List Dirent → ℕ
lookup_in name [] = minus_one
lookup_in name (e ∷ es) = if is_entry name e then e.inum else lookup_in name es

-- Is there an entry besides "." and ".."?
unfoldable pub has_child : List Dirent → Bool
has_child [] = false
has_child (e ∷ es) = is_child e || has_child es

-- The slot of the table holds the inode of a well-formed directory.
pub record DirectoryAt (disk : Bytes) (inum : ℕ) (n : Inode) : Type 0 where
  pub in_range : inum < num_inodes
  pub in_slot : inode_at disk inum ≡ n
  pub is_directory : IsDirectory n

pub dir_inode_lem :
    (disk : Bytes) (inum : ℕ) (n : Inode) → DirectoryAt disk inum n → dir_inode inum disk ≡ some n
unfolding dir_inode
dir_inode_lem disk inum n d = ground (
  arith,
  d.in_range,
  d.in_slot,
  d.is_directory.is_dir,
  inode_read_in inum disk uninit_inode d.in_range,
)

no_inode :
    (disk : Bytes) (inum : ℕ)
    → (num_inodes ≤ inum) ⊎ ((inode_at disk inum).type ≢ directory_t)
    → dir_inode inum disk ≡ none
unfolding dir_inode
no_inode disk inum (inl h) = ground arith
no_inode disk inum (inr h) = elim (Bool-cases (leb num_inodes inum)) [
  | inl out ↦ ground arith
  | inr inside ↦ ground (arith, inode_read_in inum disk uninit_inode)
]

first_picked-lookup_in :
    (name : List ℕ) (es : List Dirent) (k : ℕ)
    → found_inum (first_picked (is_entry name) es k) ≡ lookup_in name es
unfolding first_picked lookup_in found_inum
first_picked-lookup_in name [] k = refl
first_picked-lookup_in name (e ∷ es) k = ground (arith, first_picked-lookup_in name es (suc k))

first_picked-has_child :
    (es : List Dirent) (k : ℕ)
    → found_child (first_picked is_child es k) ≡ (if has_child es then 0 else 1)
unfolding first_picked has_child found_child
first_picked-has_child [] k = refl
first_picked-has_child (e ∷ es) k = ground (arith, first_picked-has_child es (suc k))

-- dir_lookup of a directory returns the number of the first valid entry of that name, and -1 if
-- there is none.
pub dir_lookup_lem :
    (disk : Bytes) (inum : ℕ) (n : Inode) (name : List ℕ)
    → DirectoryAt disk inum n
    → dir_lookup inum (some name) disk ≡ lookup_in name (slots disk n)
unfolding dir_lookup
dir_lookup_lem disk inum n name d =
    rw (dir_inode_lem disk inum n d, scan_entries_lem disk n d.is_directory)
      (first_picked-lookup_in name (slots disk n) 0)

-- dir_empty of a directory returns 0 if it has an entry besides "." and "..", and 1 if not.
pub dir_empty_lem :
    (disk : Bytes) (inum : ℕ) (n : Inode)
    → DirectoryAt disk inum n
    → dir_empty inum disk ≡ (if has_child (slots disk n) then 0 else 1)
unfolding dir_empty
dir_empty_lem disk inum n d =
    rw (dir_inode_lem disk inum n d, scan_entries_lem disk n d.is_directory)
      (first_picked-has_child (slots disk n) 0)

-- A number past the table, or an inode that is no directory, makes dir_lookup and dir_empty
-- return -1.
pub dir_lookup_rejects :
    (disk : Bytes) (inum : ℕ) (name : Ptr (List ℕ))
    → (num_inodes ≤ inum) ⊎ ((inode_at disk inum).type ≢ directory_t)
    → (dir_lookup inum name disk ≡ minus_one) × (dir_empty inum disk ≡ minus_one)
unfolding dir_lookup dir_empty
dir_lookup_rejects disk inum none h = (refl, rw (no_inode disk inum h))
dir_lookup_rejects disk inum (some name) h = (rw (no_inode disk inum h), rw (no_inode disk inum h))
