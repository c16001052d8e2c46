-- ===== src/Fs/Data/Access.antt =====
-- data_read and data_update of a data block that exists.
use pico_shell.Base.{
  Bytes, arith, memcpy, memcpy_in, memcpy_out, memcpy_to_start, none, some, ℕ, ◌*◌, ◌+◌, ◌<◌, ◌^◌,
  ◌≡◌, ◌≤◌, ◌⊎◌,
}
use pico_shell.Fs.Bitmap.{num_data_blocks}
use pico_shell.Fs.Block.Access.{block_read_in, block_write_in}
use pico_shell.Fs.Data.{data_read, data_update, dblock}
use pico_shell.Fs.Disk.{block_size}

module _ (dnum : ℕ) (disk buf : Bytes) where
  pub data_read_in :
      dnum < num_data_blocks
      → data_read (some buf) dnum disk
        ≡ some (memcpy buf 0 disk (dblock dnum * block_size) block_size)
  unfolding data_read
  data_read_in h = ground (arith, block_read_in buf (dblock dnum) disk)

  pub data_update_in :
      dnum < num_data_blocks
      → data_update (some buf) dnum disk
        ≡ (some tt, memcpy disk (dblock dnum * block_size) buf 0 block_size)
  unfolding data_update
  data_update_in h = ground (arith, block_write_in buf (dblock dnum) disk)

  pub data_read_out : num_data_blocks ≤ dnum → dnum < 2 ^ 32 → data_read (some buf) dnum disk ≡ none
  unfolding data_read
  data_read_out h k = ground arith

  pub data_update_out :
      num_data_blocks ≤ dnum → dnum < 2 ^ 32 → data_update (some buf) dnum disk ≡ (none, disk)
  unfolding data_update
  data_update_out h k = ground arith

-- After data_update of a data block, data_read of it returns the bytes written, and every other
-- byte of the disk is as it was.
pub data_read-data_update :
    (buf out : Bytes) (dnum : ℕ) (disk : Bytes)
    → dnum < num_data_blocks
    → (got : Bytes) × (data_read (some out) dnum (data_update (some buf) dnum disk).1 ≡ some got)
      × ((i : ℕ) → i < block_size → got i ≡ buf i)
      × ((a : ℕ)
          → (a < dblock dnum * block_size) ⊎ (dblock dnum * block_size + block_size ≤ a)
          → (data_update (some buf) dnum disk).1 a ≡ disk a)
data_read-data_update buf out dnum disk h =
    let start = dblock dnum * block_size in
    let after = memcpy disk start buf 0 block_size in
    rw data_update_in (
      memcpy out 0 after start block_size,
      data_read_in dnum after out h,
      λ i hi. ground (
        arith,
        memcpy_to_start out after start block_size i,
        memcpy_in disk start buf 0 block_size (start + i),
      ),
      λ a far. memcpy_out disk start buf 0 block_size a far,
    )
