-- ===== src/Fs/Block.antt =====
-- fs/block.c: the disk by whole blocks.
pub mod Access
use pico_shell.Base.{Bytes, Option, Ptr, if◌then◌else◌, mul32, none, not, slt, some, ℕ, ◌||◌}
use pico_shell.Fs.Disk.{block_size, disk_read, disk_write, num_blocks}
use pico_shell.Fs.Disk.Monad.{M}

unfoldable pub block_read : Ptr Bytes → ℕ → Bytes → Option Bytes
block_read none bnum disk = none
block_read (some buf) bnum disk =
    if slt bnum 0 || not (slt bnum num_blocks)
    then none
    else disk_read (some buf) block_size (mul32 bnum block_size) disk

unfoldable pub block_write : Ptr Bytes → ℕ → M (Unit {0})
block_write none bnum disk = (none, disk)
block_write (some buf) bnum disk =
    if slt bnum 0 || not (slt bnum num_blocks)
    then (none, disk)
    else disk_write (some buf) block_size (mul32 bnum block_size) disk
