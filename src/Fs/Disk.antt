-- ===== src/Fs/Disk.antt =====
-- fs/disk.c: the disk is an array of bytes, read and written by ranges.
pub mod Monad
pub mod Access
use pico_shell.Base.{
  Bytes, Option, Ptr, if◌then◌else◌, memcpy, none, not, slt, some, sub32, ℕ, ◌*◌, ◌||◌,
}
use Monad.{M}

-- The constants of fs.h and disk.h: a disk of 128 blocks of 1 kB.
abbrev pub block_size : ℕ
block_size = 1024

abbrev pub num_blocks : ℕ
num_blocks = 128

abbrev pub disk_size : ℕ
disk_size = num_blocks * block_size

-- the buffer after the call, or `none` for -1
unfoldable pub disk_read : Ptr Bytes → ℕ → ℕ → Bytes → Option Bytes
disk_read none size offset disk = none
disk_read (some buf) size offset disk =
    if slt size 0 || slt (sub32 disk_size offset) size
    then none
    else if slt offset 0 || not (slt offset disk_size)
    then none
    else some (memcpy buf 0 disk offset size)

unfoldable pub disk_write : Ptr Bytes → ℕ → ℕ → M (Unit {0})
disk_write none size offset disk = (none, disk)
disk_write (some buf) size offset disk =
    if slt size 0 || slt (sub32 disk_size offset) size
    then (none, disk)
    else if slt offset 0 || not (slt offset disk_size)
    then (none, disk)
    else (some tt, memcpy disk offset buf 0 size)
