-- ===== src/Fs/Calls.antt =====
-- fs/fs.c: the calls that the shell makes. Their disk is the argument and the result of the layers
-- below; `cwd` is an inode.
pub mod Outcome
use pico_shell.Base.{
  Bool, Bytes, List, Option, Ptr, [], add32, bytes_of, if◌then◌else◌, memcpy, minus_one, none, not,
  replicate, some, str_eq, sub32, suc, true, zero, ℕ, ◌&&◌, ◌==◌, ◌||◌, ◌∷◌,
}
use pico_shell.Fs.Bitmap.{num_data_blocks}
use pico_shell.Fs.Block.{block_write}
use pico_shell.Fs.Data.{data_free}
use pico_shell.Fs.Directory.{dir_add, dir_empty, dir_lookup, dir_remove}
use pico_shell.Fs.Directory.Entry.{Dirent, dot, dot_dot}
use pico_shell.Fs.Disk.{block_size}
use pico_shell.Fs.Disk.Monad.{M, fail, reads, ret, ◌>>=◌, ◌>>◌}
use pico_shell.Fs.Inode.{
  Inode, directory_t, file_t, inode_alloc, inode_free, inode_read, inode_table_start, inode_update,
  ndirect, num_inodes, uninit_inode,
}
use pico_shell.Fs.Path.{path_lookup, path_lookup_parent, root_inode, slash}

-- the words of the superblock: "idk" with its terminator, then the ints
superblock_word : ℕ → ℕ
superblock_word zero = 0x6b6469
superblock_word (suc zero) = num_inodes
superblock_word (suc (suc zero)) = inode_table_start
superblock_word (suc (suc (suc zero))) = num_data_blocks
superblock_word (suc (suc (suc (suc k)))) = block_size

-- `buf` is what the array holds before the copy.
unfoldable pub superblock_init : Bytes → M (Unit {0})
unfolding superblock_word
superblock_init buf = block_write (some (memcpy buf 0 (bytes_of superblock_word) 0 20)) 0

-- an inode with no data block
abbrev pub new_inode : ℕ → ℕ → Inode
new_inode type num_links = record {
  type = type;
  inum = 0;
  size = 0;
  num_links = num_links;
  addrs = replicate ndirect minus_one;
}

abbrev pub link : List ℕ → ℕ → Dirent
link name inum = record { valid = true; name = name; inum = inum }

-- "." and ".." of a directory and its parent
unfoldable pub add_dots : Bytes → ℕ → ℕ → M (Unit {0})
add_dots stack inum parent = do
  dir_add stack inum (some (link dot inum))
  dir_add stack inum (some (link dot_dot parent))

-- `stack` is what lies at the address of dir_add's parameter.
unfoldable pub root_init : Bytes → M (Unit {0})
root_init stack = do
  root ← inode_alloc (some (new_inode directory_t 0))
  if root.inum == root_inode then add_dots stack root.inum root.inum else fail

-- the result is `cwd`
unfoldable pub fs_init : Bytes → Bytes → M Inode
fs_init buf stack = do
  superblock_init buf
  root_init stack
  reads (inode_read (some uninit_inode) root_inode)

-- what path_lookup leaves in `dest_inode`; the call does not look at its result
unfoldable pub looked_up : Inode → Option Inode → Inode
looked_up dest none = dest
looked_up dest (some found) = found

-- the new `cwd`; `dest` and `name` are what those variables hold before they are set
unfoldable pub fs_chdir : Inode → List ℕ → Ptr (List ℕ) → Bytes → Option Inode
unfolding looked_up
fs_chdir dest name none disk = none
fs_chdir dest name (some path) disk =
    let dest' = looked_up dest (path_lookup name path disk) in
    if dest'.type == directory_t then some dest' else none

-- the part of fs_create for a directory, after inode_alloc
unfoldable pub link_directory : Bytes → Inode → Inode → List ℕ → M (Unit {0})
unfolding add_dots
link_directory stack inode dir name = do
  add_dots stack inode.inum dir.inum
  let dir' = record dir { num_links = add32 dir.num_links 1 }
  inode_update (some dir') dir'.inum
  dir_add stack dir'.inum (some (link name inode.inum))

unfoldable pub bad_type : ℕ → Bool
bad_type type = not (type == file_t) && not (type == directory_t)

-- `name` is what the array of that name holds before the call.
unfoldable pub fs_create : Bytes → List ℕ → Ptr (List ℕ) → ℕ → M (Unit {0})
unfolding bad_type
fs_create stack name none type = fail
fs_create stack name (some path) type = if bad_type type then fail else do
  (dir, name') ← reads (path_lookup_parent name path)
  reads (λ disk. if dir_lookup dir.inum (some name') disk == minus_one then some tt else none)
  inode ← inode_alloc (some (new_inode type 1))
  if type == directory_t then link_directory stack inode dir name' else ret tt

-- the loop over the pointers, which ends at the first that data_free rejects
unfoldable pub free_blocks_of : List ℕ → M (Unit {0})
free_blocks_of [] = ret tt
free_blocks_of (dnum ∷ addrs) = do data_free dnum; free_blocks_of addrs

-- the entry that fs_delete looks up
unfoldable pub found_entry_inum : ℕ → List ℕ → Bytes → Option ℕ
found_entry_inum dir name disk =
    let inum = dir_lookup dir (some name) disk in if inum == minus_one then none else some inum

unfoldable pub unlink_parent : Inode → Inode → M (Unit {0})
unlink_parent inode dir =
    if inode.type == directory_t
    then inode_update (some (record dir { num_links = sub32 dir.num_links 1 })) dir.inum
    else ret tt

unfoldable pub fs_delete : List ℕ → Ptr (List ℕ) → ℕ → M (Unit {0})
unfolding bad_type
fs_delete name none type = fail
fs_delete name (some path) type = if str_eq path (slash ∷ []) || bad_type type then fail else do
  (dir, name') ← reads (path_lookup_parent name path)
  inum ← reads (found_entry_inum dir.inum name')
  inode ← reads (inode_read (some uninit_inode) inum)
  reads (λ disk.
      if inode.type == directory_t && not (dir_empty inode.inum disk == 1) then none else some tt)
  dir_remove dir.inum (some name')
  unlink_parent inode dir
  free_blocks_of inode.addrs
  inode_free inode.inum
