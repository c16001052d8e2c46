-- ===== src/Fs/Calls/Outcome.antt =====
-- What the calls do, and where they stop.
use pico_shell.Base.{
  Bytes, List, [], arith, false, get_or, if◌then◌else◌, inl, minus_one, none, refl, set, some,
  str_eq, ℕ, ◌<◌, ◌==◌, ◌∷◌, ◌≡◌, ◌≢◌,
}
use pico_shell.Fs.Bitmap.Update.{IsByteDisk}
use pico_shell.Fs.Calls.{
  bad_type, found_entry_inum, free_blocks_of, fs_chdir, fs_delete, looked_up, unlink_parent,
}
use pico_shell.Fs.Data.Alloc.{data_free_lem}
use pico_shell.Fs.Directory.Entry.{dot, dot_dot}
use pico_shell.Fs.Directory.Lookup.{DirectoryAt, dir_lookup_lem, lookup_in}
use pico_shell.Fs.Directory.Patch.{Lists}
use pico_shell.Fs.Directory.Remove.{blank_entry, dir_remove-Lists, index_of}
use pico_shell.Fs.Directory.Slots.{slots}
use pico_shell.Fs.Disk.Monad.{bind}
use pico_shell.Fs.File.Content.{Owns}
use pico_shell.Fs.File.Room.{free_blocks}
use pico_shell.Fs.Inode.{Inode, directory_t, num_inodes, uninit_inode}
use pico_shell.Fs.Inode.Struct.{IsStruct}
use pico_shell.Fs.Inode.Table.{inode_at, inode_read_in}
use pico_shell.Fs.Path.{overruns, path_lookup_parent, root_inode, slash}
use pico_shell.Fs.Path.Components.{components}
use pico_shell.Fs.Path.Lookup.{AllShort, descend, path_lookup_lem}

-- fs_chdir of an absolute path, whose components have fewer than 59 characters each, writes no name
-- past the end of its array. If they lead to a directory, it makes it the working directory, and
-- if they lead to another inode, it fails. If they lead nowhere, it does as the uninitialised inode says: it succeeds, with that inode, if it has a directory's type.
pub fs_chdir_lem :
    (dest : Inode) (name path : List ℕ) (disk : Bytes)
    → AllShort (components path)
    → (overruns false (slash ∷ path) disk ≡ false)
      × ((n : Inode)
          → descend disk (inode_at disk root_inode) (components path) ≡ some n
          → fs_chdir dest name (some (slash ∷ path)) disk
            ≡ (if n.type == directory_t then some n else none))
      × (descend disk (inode_at disk root_inode) (components path) ≡ none
          → fs_chdir dest name (some (slash ∷ path)) disk
            ≡ (if dest.type == directory_t then some dest else none))
unfolding fs_chdir looked_up
fs_chdir_lem dest name path disk short =
    let (inside, found, other, empty) = path_lookup_lem name path disk short in
    (inside, λ n e. rw (found, e) refl, λ e. rw (found, e) refl)

free_blocks_of-hole :
    (addrs : List ℕ) (disk : Bytes)
    → IsByteDisk disk
    → get_or addrs 0 0 ≡ minus_one
    → free_blocks_of addrs disk ≡ (none, disk)
unfolding free_blocks_of
free_blocks_of-hole [] disk byte h = absurd (omega (arith, h))
free_blocks_of-hole (dnum ∷ addrs) disk byte h =
    rw ((data_free_lem dnum disk byte (omega (arith, h))).0 (inl (omega (arith, h)))) refl

-- fs_delete of a file without a first data block, at a path whose directory has one entry of the
-- name, fails with the entry already removed: data_free rejects the pointer -1, and the inode stays
-- allocated.
pub fs_delete_empty_file :
    (name path : List ℕ) (type : ℕ) (disk : Bytes) (dir : Inode) (name' : List ℕ) (k inum : ℕ)
    → path_lookup_parent name path disk ≡ some (dir, name')
    → str_eq path (slash ∷ []) ≡ false
    → bad_type type ≡ false
    → DirectoryAt disk dir.inum dir
    → Owns disk dir
    → IsStruct dir
    → str_eq name' dot ≡ false
    → str_eq name' dot_dot ≡ false
    → index_of (λ e. str_eq e.name name') (slots disk dir) ≡ some k
    → lookup_in name' (slots disk dir) ≡ inum
    → inum < num_inodes
    → (inode_at disk inum).type ≢ directory_t
    → get_or (inode_at disk inum).addrs 0 0 ≡ minus_one
    → 0 < free_blocks disk
    → (after : Bytes) × (fs_delete name (some path) type disk ≡ (none, after))
      × Lists disk dir (set (slots disk dir) k blank_entry) dir after
unfolding fs_delete found_entry_inum unlink_parent
fs_delete_empty_file name path type disk dir name' k inum found proper ok at o v no_dot no_dots has
      looked small plain empty free =
    let (after, run, l) = dir_remove-Lists disk dir name' k at o v no_dot no_dots has free in
    let real : (inum == minus_one) ≡ false = ground arith in
    let no_dir : ((inode_at disk inum).type == directory_t) ≡ false = ground arith in
    (
      after,
      rw
          (
            proper,
            ok,
            found,
            bind,
            dir_lookup_lem disk dir.inum dir name' at,
            looked,
            real,
            bind,
            inode_read_in inum disk uninit_inode small,
            no_dir,
            run,
            free_blocks_of-hole (inode_at disk inum).addrs after l.owns.bytes empty,
          )
          refl,
      l,
    )
