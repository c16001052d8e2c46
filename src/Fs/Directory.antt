-- ===== src/Fs/Directory.antt =====
-- fs/directory.c: a directory is a file of 64-byte entries.
pub mod Entry
pub mod Slots
pub mod Lookup
pub mod Store
pub mod Patch
pub mod Add
pub mod Remove
pub mod Contents
use pico_shell.Base.{
  Bool, Bytes, List, Option, Ptr, and_then, false, if◌then◌else◌, leb, ltb, minus_one, none, not,
  slt, some, str_eq, suc, true, uninit, zero, ℕ, ◌&&◌, ◌+◌, ◌/◌, ◌==◌, ◌||◌,
}
use pico_shell.Fs.Directory.Entry.{Dirent, dot, dot_dot, load_dirent, put_dirent, zero_dirent}
use pico_shell.Fs.Disk.Monad.{M, fail, reads, ret, ◌>>=◌, ◌>>◌}
use pico_shell.Fs.File.{file_read, file_write}
use pico_shell.Fs.Inode.{Inode, directory_t, inode_read, num_inodes, uninit_inode}

-- sizeof(struct dirent)
abbrev pub dirent_size : ℕ
dirent_size = 64

-- `file_read(&inode, &dirent, offset, sizeof(dirent))`, if that is the count returned
unfoldable pub read_dirent : Inode → ℕ → Bytes → Option Dirent
read_dirent n offset disk =
    and_then (file_read (some n) (some uninit) offset dirent_size disk)
      λ (count, buf). if count == dirent_size then some (load_dirent buf) else none

-- `file_write(&inode, buf, offset, sizeof(dirent)) != sizeof(dirent)` and the return of -1
unfoldable pub write_dirent : Inode → Bytes → ℕ → M (Unit {0})
write_dirent n buf offset = do
  (count, n') ← file_write (some n) (some buf) offset dirent_size
  if count == dirent_size then ret tt else fail

-- the checks that the functions share: the number, the slot of the table, the type
unfoldable pub dir_inode : ℕ → Bytes → Option Inode
dir_inode inum disk =
    if leb num_inodes inum
    then none
    else and_then (inode_read (some uninit_inode) inum disk)
        λ n. if n.type == directory_t then some n else none

-- How a scan of the entries ends: at an entry, at the end, or by an error. The result holds the
-- entry and its offset, or the offset of the end.
pub data Found : Type 0 where
  entry_at : Dirent → ℕ → Found
  end_at : ℕ → Found
  broken : Found

-- The loop over the entries, up to the first one that a test picks. `signed` is the type of the
-- loop's variable; a round advances by an entry, so that `size / 64 + 1` rounds are enough.
unfoldable pub scan_entries : Bool → (Dirent → Bool) → Inode → Bytes → ℕ → ℕ → Found
scan_entries signed picks n disk zero offset = broken
scan_entries signed picks n disk (suc fuel) offset =
    let rest = scan_entries signed picks n disk fuel (offset + dirent_size) in
    if (if signed then slt offset n.size else ltb offset n.size)
    then elim (read_dirent n offset disk) [
      | none ↦ broken
      | some e ↦ if picks e then entry_at e offset else rest
    ]
    else end_at offset

abbrev pub rounds : Inode → ℕ
rounds n = n.size / dirent_size + 1

-- `dirent.valid && strcmp(dirent.name, name) == 0`
abbrev pub is_entry : List ℕ → Dirent → Bool
is_entry name e = e.valid && str_eq e.name name

-- the scan of a directory that passed the checks
unfoldable pub scan_dir : Bool → (Dirent → Bool) → Option Inode → Bytes → Found
scan_dir signed picks none disk = broken
scan_dir signed picks (some n) disk = scan_entries signed picks n disk (rounds n) 0

-- `return dirent.inum` in the loop, and -1 behind it
unfoldable pub found_inum : Found → ℕ
found_inum (entry_at e offset) = e.inum
found_inum (end_at offset) = minus_one
found_inum broken = minus_one

-- `minus_one` if there is no such entry
unfoldable pub dir_lookup : ℕ → Ptr (List ℕ) → Bytes → ℕ
unfolding scan_dir found_inum
dir_lookup inum none disk = minus_one
dir_lookup inum (some name) disk =
    found_inum (scan_dir true (is_entry name) (dir_inode inum disk) disk)

-- a valid entry other than the two that every directory has
abbrev pub is_child : Dirent → Bool
is_child e = e.valid && not (str_eq e.name dot) && not (str_eq e.name dot_dot)

-- `return 0` in the loop, and 1 behind it
unfoldable pub found_child : Found → ℕ
found_child (entry_at e offset) = 0
found_child (end_at offset) = 1
found_child broken = minus_one

-- 1, 0, or `minus_one` on an error
unfoldable pub dir_empty : ℕ → Bytes → ℕ
unfolding scan_dir found_child
dir_empty inum disk = found_child (scan_dir true is_child (dir_inode inum disk) disk)

-- the end of dir_add, once the place is known
unfoldable pub put_new : Bytes → Inode → Dirent → Found → M (Unit {0})
put_new stack n e (entry_at hole offset) = write_dirent n stack offset
put_new stack n e (end_at offset) = write_dirent n (put_dirent e) offset
put_new stack n e broken = fail

-- `stack` is what lies at `&new_dirent`, the address of the parameter: the pointer's own bytes, and
-- the frame behind them. The code writes those into a hole, in place of the entry.
unfoldable pub dir_add : Bytes → ℕ → Ptr Dirent → M (Unit {0})
unfolding put_new
dir_add stack inum none = fail
dir_add stack inum (some e) = do
  n ← reads (dir_inode inum)
  reads (λ disk. if dir_lookup inum (some e.name) disk == minus_one then some tt else none)
  place ← reads (λ disk. some (scan_entries false (λ old. not old.valid) n disk (rounds n) 0))
  put_new stack n e place

unfoldable pub wipe : Inode → Found → M (Unit {0})
wipe n (entry_at e offset) = write_dirent n zero_dirent offset
wipe n (end_at offset) = fail
wipe n broken = fail

-- An invalid entry matches too.
unfoldable pub dir_remove : ℕ → Ptr (List ℕ) → M (Unit {0})
unfolding wipe
dir_remove inum none = fail
dir_remove inum (some name) = if str_eq name dot || str_eq name dot_dot then fail else do
  n ← reads (dir_inode inum)
  place ← reads (λ disk. some (scan_entries true (λ e. str_eq e.name name) n disk (rounds n) 0))
  wipe n place
