-- ===== src/Fs/File/Round.antt =====
-- A round of the loop of file_write, when there is a block for it.
use pico_shell.Base.{
  Bytes, arith, get_or-set_self, inl, inr, memcpy, memcpy-congr, set, some, suc, ℕ, ◌%◌, ◌+◌, ◌/◌,
  ◌<◌, ◌≡◌, ◌≤◌,
}
use pico_shell.Fs.Bitmap.{num_data_blocks}
use pico_shell.Fs.Data.Alloc.{data_alloc-DataAllocates}
use pico_shell.Fs.Disk.{block_size}
use pico_shell.Fs.File.{max_file_size}
use pico_shell.Fs.File.Blocks.{patched-Writes, patched-taken}
use pico_shell.Fs.File.Content.{Owns, byte_address, file_byte, pointer}
use pico_shell.Fs.File.Datamap.{mapped-Writes}
use pico_shell.Fs.File.Effect.{Writes, Writes-content, Writes-refl, Writes-trans}
use pico_shell.Fs.File.Room.{free_block, free_blocks, free_blocks-alloc, free_blocks-congr}
use pico_shell.Fs.Inode.{Inode, inode_datamap}

-- What a round needs: an offset inside the largest file, and a block that is there or free.
module _ (disk : Bytes) (n : Inode) (o : Owns disk n) (offset : ℕ) (ho : offset < max_file_size)
    (room : 0 < free_blocks disk) where
  -- inode_datamap at the offset
  pub inode_datamap-Writes :
      (m : Inode) × (middle : Bytes) × (inode_datamap n (offset / block_size) disk
        ≡ (some (pointer m offset, m), middle))
      × (pointer m offset < num_data_blocks)
      × (free_blocks disk ≤ suc (free_blocks middle))
      × Writes disk n middle m (file_byte disk n)
  unfolding inode_datamap
  inode_datamap-Writes = elim (o.allocated (offset / block_size) (omega arith)) [
    | inl hole ↦
        let (q, hq, free) = free_block disk room in
        let (p, after, done, a) = data_alloc-DataAllocates disk q o.bytes hq free in
        let w = mapped-Writes disk n o (offset / block_size) (omega arith) hole p after a in
        let at = get_or-set_self n.addrs (offset / block_size) p 0 (omega (arith, o.pointers)) in
        (
          record n { addrs = set n.addrs (offset / block_size) p },
          after,
          ground (arith, hole, done, at),
          omega (arith, at, a.first),
          omega (arith, free_blocks-alloc disk p after a),
          w,
        )
    | inr own ↦ (n, disk, ground (arith, own), own.0, omega arith, Writes-refl disk n o)
  ]

  module _ (buf : Bytes) (from size : ℕ) (fits : offset % block_size + size ≤ block_size)
      (small : (i : ℕ) → buf i < 256) where
    -- the round: the block of the offset is there, and takes `size` bytes of the buffer
    pub round-Writes :
        (m : Inode) (middle after : Bytes)
        → pointer m offset < num_data_blocks
        → Writes disk n middle m (file_byte disk n)
        → after ≡ memcpy middle (byte_address m offset) buf from size
        → Writes disk n after m (memcpy (file_byte disk n) offset buf from size)
    round-Writes m middle after mapped w e = rw e (
        Writes-trans disk n middle m _ m _ _ w (
          Writes-content middle m _ m _ _
            (λ i hi.
              memcpy-congr (file_byte middle m) (file_byte disk n) offset buf from size i
                (w.holds i hi))
            (patched-Writes middle m w.owns buf offset from size ho mapped fits small)))

-- the write of a part of a block takes no block
pub free_blocks-patched :
    (disk : Bytes) (n : Inode)
    → Owns disk n
    → (buf : Bytes) (offset from size : ℕ) → offset < max_file_size
    → pointer n offset < num_data_blocks
    → offset % block_size + size ≤ block_size
    → ((i : ℕ) → buf i < 256)
    → free_blocks (memcpy disk (byte_address n offset) buf from size) ≡ free_blocks disk
free_blocks-patched disk n o buf offset from size ho mapped fits small =
    free_blocks-congr (memcpy disk (byte_address n offset) buf from size) disk
      (λ q hq. patched-taken disk n o buf offset from size ho mapped fits small q (omega arith))
