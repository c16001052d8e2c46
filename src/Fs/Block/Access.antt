-- ===== src/Fs/Block/Access.antt =====
-- What block_read and block_write do on the blocks of the disk and beyond them.
use pico_shell.Base.{
  Bool-cases, Bytes, arith, fun_ext, inl, inr, leb, ltb, memcpy, memcpy_in, memcpy_out,
  memcpy_to_start, mul32, none, some, uninit, ℕ, ◌&&◌, ◌*◌, ◌+◌, ◌-◌, ◌<◌, ◌^◌, ◌≡◌, ◌≢◌, ◌≤◌,
}
use pico_shell.Fs.Block.{block_read, block_write}
use pico_shell.Fs.Disk.{block_size, num_blocks}
use pico_shell.Fs.Disk.Access.{disk_read_in, disk_write_in}

-- the address of a byte of a block
abbrev pub address : ℕ → ℕ → ℕ
address bnum i = bnum * block_size + i

module _ (buf : Bytes) (bnum : ℕ) (disk : Bytes) where
  pub block_read_in :
      bnum < num_blocks
      → block_read (some buf) bnum disk ≡ some (memcpy buf 0 disk (bnum * block_size) block_size)
  unfolding block_read
  block_read_in h = ground (arith, disk_read_in buf block_size (mul32 bnum block_size) disk)

  pub block_write_in :
      bnum < num_blocks
      → block_write (some buf) bnum disk
        ≡ (some tt, memcpy disk (bnum * block_size) buf 0 block_size)
  unfolding block_write
  block_write_in h = ground (arith, disk_write_in buf block_size (mul32 bnum block_size) disk)

  pub block_read_out : num_blocks ≤ bnum → bnum < 2 ^ 32 → block_read (some buf) bnum disk ≡ none
  unfolding block_read
  block_read_out h k = ground arith

  pub block_write_out :
      num_blocks ≤ bnum → bnum < 2 ^ 32 → block_write (some buf) bnum disk ≡ (none, disk)
  unfolding block_write
  block_write_out h k = ground arith

-- A block that block_write wrote reads back, and every other block of the disk is as it was.
pub block_read-block_write :
    (buf : Bytes) (bnum b i : ℕ) (disk : Bytes)
    → bnum < num_blocks
    → i < block_size
    → ((block_write (some buf) bnum disk).1 (address bnum i) ≡ buf i)
      × (b ≢ bnum → (block_write (some buf) bnum disk).1 (address b i) ≡ disk (address b i))
block_read-block_write buf bnum b i disk hb hi = rw block_write_in (
  ground (arith, memcpy_in disk (bnum * block_size) buf 0 block_size (address bnum i)),
  λ ne. memcpy_out disk (bnum * block_size) buf 0 block_size (address b i) (omega arith),
)

-- To read a block, copy into it and write it back is to copy onto the disk.
pub patch_lem :
    (bnum off from n : ℕ) (src disk : Bytes)
    → bnum < num_blocks
    → off + n ≤ block_size
    → memcpy disk
        (bnum * block_size)
        (memcpy (memcpy uninit 0 disk (bnum * block_size) block_size) off src from n)
        0
        block_size
      ≡ memcpy disk (address bnum off) src from n
patch_lem bnum off from n src disk hb hn = fun_ext at
  where
    base : ℕ
    base = bnum * block_size

    block : Bytes
    block = memcpy uninit 0 disk base block_size

    at :
        (a : ℕ)
        → memcpy disk base (memcpy block off src from n) 0 block_size a
          ≡ memcpy disk (base + off) src from n a
    at a = elim (Bool-cases (leb base a && ltb a (base + block_size))) [
      | inl inside ↦ elim (Bool-cases (leb (base + off) a && ltb a (base + off + n))) [
        | inl within ↦ ground (
          arith,
          memcpy_in disk base (memcpy block off src from n) 0 block_size a,
          memcpy_in block off src from n (a - base),
          memcpy_in disk (base + off) src from n a,
        )
        | inr beside ↦ ground (
          arith,
          memcpy_in disk base (memcpy block off src from n) 0 block_size a,
          memcpy_out block off src from n (a - base),
          memcpy_out disk (base + off) src from n a,
          memcpy_to_start uninit disk base block_size (a - base),
        )
      ]
      | inr outside ↦ ground (
        arith,
        memcpy_out disk base (memcpy block off src from n) 0 block_size a,
        memcpy_out disk (base + off) src from n a,
      )
    ]
