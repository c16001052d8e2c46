-- ===== src/Fs/Disk/Access.antt =====
-- The ranges that disk_read and disk_write accept, and what a write leaves behind.
use pico_shell.Base.{
  Bytes, Ptr, arith, memcpy, memcpy_in, memcpy_out, none, refl, some, ℕ, ◌+◌, ◌<◌, ◌^◌, ◌↔◌, ◌≡◌,
  ◌≤◌, ◌⊎◌,
}
use pico_shell.Fs.Disk.{disk_read, disk_size, disk_write}

-- The range is inside the disk, and does not begin at its end.
abbrev pub Fits : ℕ → ℕ → Type 0
Fits size offset = (offset < disk_size) × (offset + size ≤ disk_size)

module _ (buf : Bytes) (size offset : ℕ) (disk : Bytes) where
  pub disk_read_in :
      Fits size offset
      → disk_read (some buf) size offset disk ≡ some (memcpy buf 0 disk offset size)
  unfolding disk_read
  disk_read_in h = ground arith

  pub disk_write_in :
      Fits size offset
      → disk_write (some buf) size offset disk ≡ (some tt, memcpy disk offset buf 0 size)
  unfolding disk_write
  disk_write_in h = ground arith

  pub disk_read_out :
      size < 2 ^ 32
      → offset < 2 ^ 32
      → ¬ Fits size offset
      → disk_read (some buf) size offset disk ≡ none
  unfolding disk_read
  disk_read_out hs ho h = ground arith

  pub disk_write_out :
      size < 2 ^ 32
      → offset < 2 ^ 32
      → ¬ Fits size offset
      → disk_write (some buf) size offset disk ≡ (none, disk)
  unfolding disk_write
  disk_write_out hs ho h = ground arith

-- On patterns of ints disk_write succeeds exactly on the ranges that fit.
pub disk_write-Fits :
    (buf : Bytes) (size offset : ℕ) (disk : Bytes)
    → size < 2 ^ 32
    → offset < 2 ^ 32
    → ((disk_write (some buf) size offset disk).0 ≡ some tt) ↔ Fits size offset
unfolding disk_write
disk_write-Fits buf size offset disk hs ho = (λ h. ground arith, λ h. ground arith)

-- Whatever the arguments, disk_write changes no byte outside its range, nor one past the disk's end.
pub disk_write_frame :
    (buf : Ptr Bytes) (size offset : ℕ) (disk : Bytes) (a : ℕ)
    → size < 2 ^ 32
    → offset < 2 ^ 32
    → (a < offset) ⊎ (offset + size ≤ a) ⊎ (disk_size ≤ a)
    → (disk_write buf size offset disk).1 a ≡ disk a
unfolding disk_write
disk_write_frame none size offset disk a hs ho h = refl
disk_write_frame (some buf) size offset disk a hs ho h =
    ground (arith, memcpy_out disk offset buf 0 size a)

-- After disk_write on a range that fits, disk_read of the range returns the bytes written.
pub disk_read-disk_write :
    (buf buf' : Bytes) (size offset : ℕ) (disk : Bytes)
    → Fits size offset
    → (out : Bytes) × (disk_read (some buf') size offset (disk_write (some buf) size offset disk).1
        ≡ some out)
      × ((i : ℕ) → i < size → out i ≡ buf i)
disk_read-disk_write buf buf' size offset disk h =
    let after = memcpy disk offset buf 0 size in
    (
      memcpy buf' 0 after offset size,
      rw disk_write_in (disk_read_in buf' size offset after h),
      λ i hi. ground (
        arith,
        memcpy_in buf' 0 after offset size i,
        memcpy_in disk offset buf 0 size (offset + i),
      ),
    )
