-- ===== src/Fs/File.antt =====
-- fs/file.c: a file as a sequence of bytes, over the blocks that its inode points to.
pub mod Content
pub mod Read
pub mod Effect
pub mod Blocks
pub mod Datamap
pub mod Room
pub mod Round
pub mod Write
pub mod Written
use pico_shell.Base.{
  Bytes, Option, Ptr, add32, and_then, get_or, if◌then◌else◌, ltb, memcpy, minus_one, none, slt,
  some, suc, uninit, zero, ℕ, ◌%◌, ◌*◌, ◌+◌, ◌-◌, ◌/◌, ◌==◌,
}
use pico_shell.Fs.Data.{data_read, data_update}
use pico_shell.Fs.Disk.{block_size}
use pico_shell.Fs.Disk.Monad.{M, fail, reads, ret, ◌>>=◌, ◌>>◌}
use pico_shell.Fs.Inode.{Inode, inode_datamap, inode_update, ndirect}

abbrev pub max_file_size : ℕ
max_file_size = ndirect * block_size

-- `min(count - done, BLOCK_SIZE - offset % BLOCK_SIZE)`
abbrev pub chunk : ℕ → ℕ → ℕ → ℕ
chunk count done offset =
    if ltb (count - done) (block_size - offset % block_size)
    then count - done
    else block_size - offset % block_size

-- The loop of file_read with `read` bytes in the buffer: what the call returns, and the buffer. A
-- round reads at least a byte, so that `byte_count` rounds are enough.
pub read_loop : Inode → Bytes → ℕ → ℕ → Bytes → ℕ → ℕ → Option (ℕ × Bytes)
read_loop n disk byte_count zero buf read offset =
    if ltb read byte_count then none else some (byte_count, buf)
read_loop n disk byte_count (suc fuel) buf read offset =
    let dnum = get_or n.addrs (offset / block_size) 0 in
    let size = chunk byte_count read offset in
    let more = and_then (data_read (some uninit) dnum disk) λ block.
      read_loop n disk byte_count fuel (memcpy buf read block (offset % block_size) size)
        (read + size) (offset + size) in
    if ltb read byte_count
    then (if dnum == minus_one then some (read, buf) else more)
    else some (byte_count, buf)

-- The sums are those of ints, which wrap in the model.
unfoldable pub file_read : Ptr Inode → Ptr Bytes → ℕ → ℕ → Bytes → Option (ℕ × Bytes)
unfolding read_loop
file_read none buf offset byte_count disk = none
file_read (some n) none offset byte_count disk = none
file_read (some n) (some buf) offset byte_count disk =
    if slt n.size offset
    then none
    else if slt (add32 offset byte_count) offset
    then none
    else if slt max_file_size (add32 offset byte_count)
    then none
    else read_loop n disk byte_count byte_count buf 0 offset

-- The loop of file_write with `written` bytes done: the offset and the caller's inode at its end.
-- Where inode_datamap returns -1, the data_read of that number fails, as the bind does.
pub write_loop : Bytes → ℕ → ℕ → Inode → ℕ → ℕ → M (ℕ × Inode)
write_loop buf byte_count zero n written offset =
    if ltb written byte_count then fail else ret (offset, n)
write_loop buf byte_count (suc fuel) n written offset =
    let size = chunk byte_count written offset in
    let more = (do
      (dnum, n') ← inode_datamap n (offset / block_size)
      block ← reads (data_read (some uninit) dnum)
      data_update (some (memcpy block (offset % block_size) buf written size)) dnum
      write_loop buf byte_count fuel n' (written + size) (offset + size)) in
    if ltb written byte_count then more else ret (offset, n)

-- `if (offset > inode->size)` and what follows
pub grow : ℕ → ℕ → Inode → M (ℕ × Inode)
grow byte_count offset n =
    let n' = record n { size = offset } in
    if ltb n.size offset
    then (do inode_update (some n') n'.inum; ret (byte_count, n'))
    else ret (byte_count, n)

-- The arguments are unsigned. The result holds the caller's struct, which the call may change.
unfoldable pub file_write : Ptr Inode → Ptr Bytes → ℕ → ℕ → M (ℕ × Inode)
unfolding write_loop grow
file_write none buf offset byte_count = fail
file_write (some n) none offset byte_count = fail
file_write (some n) (some buf) offset byte_count =
    if ltb n.size offset
    then fail
    else if ltb (add32 offset byte_count) offset
    then fail
    else if ltb max_file_size (add32 offset byte_count)
    then fail
    else do (end, n') ← write_loop buf byte_count byte_count n 0 offset; grow byte_count end n'
