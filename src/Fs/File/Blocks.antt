-- ===== src/Fs/File/Blocks.antt =====
-- One round of the loop of file_write: inode_datamap, and the write of a part of one block.
use pico_shell.Base.{
  ==_iff, Bool-cases, Bytes, ap, arith, bit, get_or, inl, inr, leb, ltb, memcpy, memcpy-lt,
  memcpy_in, memcpy_out, refl, sym, ℕ, ◌%◌, ◌&&◌, ◌*◌, ◌+◌, ◌-◌, ◌/◌, ◌<◌, ◌==◌, ◌∙◌, ◌≡◌, ◌≢◌, ◌≤◌,
  ◌⊎◌,
}
use pico_shell.Fs.Bitmap.{num_data_blocks}
use pico_shell.Fs.Bitmap.Scan.{taken}
use pico_shell.Fs.Block.Access.{address}
use pico_shell.Fs.Data.{data_bitmap_block, dblock}
use pico_shell.Fs.Disk.{block_size}
use pico_shell.Fs.File.{max_file_size}
use pico_shell.Fs.File.Content.{
  Owns, byte_address, file_byte, file_byte_hole, file_byte_mapped, pointer,
}
use pico_shell.Fs.File.Effect.{Foreign, Writes}
use pico_shell.Fs.Inode.{Inode}

-- A write inside the block of one pointer is a write inside the file.
module _ (disk : Bytes) (n : Inode) (o : Owns disk n) (buf : Bytes) (offset from size : ℕ)
    (ho : offset < max_file_size) (mapped : pointer n offset < num_data_blocks)
    (fits : offset % block_size + size ≤ block_size) (small : (i : ℕ) → buf i < 256) where
  abbrev patched : Bytes
  patched = memcpy disk (byte_address n offset) buf from size

  patched-far :
      (b i : ℕ)
      → b ≢ dblock (pointer n offset)
      → i < block_size
      → patched (address b i) ≡ disk (address b i)
  patched-far b i ne hi =
      memcpy_out disk (byte_address n offset) buf from size (address b i) (omega arith)

  pub patched-taken :
      (q : ℕ)
      → q < 8 * block_size
      → taken data_bitmap_block patched q ≡ taken data_bitmap_block disk q
  patched-taken q hq =
      ap (λ b. bit b (q % 8)) (patched-far data_bitmap_block (q / 8) (omega arith) (omega arith))

  patched-Owns : Owns patched n
  patched-Owns = record {
    pointers = o.pointers;
    allocated = λ k hk. ground (arith, o.allocated k hk, patched-taken (get_or n.addrs k 0));
    distinct = o.distinct;
    bytes = memcpy-lt disk (byte_address n offset) buf from size o.bytes small;
  }

  -- an allocated byte of the file that is not in the range written is not at an address written
  patched-other :
      (i : ℕ)
      → i < max_file_size
      → pointer n i < num_data_blocks
      → (i < offset) ⊎ (offset + size ≤ i)
      → patched (byte_address n i) ≡ disk (byte_address n i)
  patched-other i hi hp far = elim (Bool-cases (i / block_size == offset / block_size)) [
    | inl e ↦ memcpy_out disk (byte_address n offset) buf from size _ (
        ground (
          arith,
          ap (λ q. get_or n.addrs q 0) ((==_iff (i / block_size) (offset / block_size)).0 e),
        ))
    | inr ne ↦
        patched-far (dblock (pointer n i)) (i % block_size)
          (λ e.
            o.distinct (i / block_size) (offset / block_size) (omega arith) (omega arith)
              (ground arith) (omega arith) (omega arith))
          (omega arith)
  ]

  -- a byte in the range is at its place in the block
  patched-inside :
      (i : ℕ) → offset ≤ i → i < offset + size → file_byte patched n i ≡ buf (from + (i - offset))
  patched-inside i h k =
      file_byte_mapped patched n i (omega (arith, same))
      ∙ memcpy_in disk (byte_address n offset) buf from size (byte_address n i)
          (omega (arith, same)) (omega (arith, same))
      ∙ ap buf (omega (arith, same))
    where
      same : pointer n i ≡ pointer n offset
      same = ap (λ q. get_or n.addrs q 0) (omega arith)

  patched-outside :
      (i : ℕ)
      → i < max_file_size
      → (i < offset) ⊎ (offset + size ≤ i)
      → file_byte patched n i ≡ file_byte disk n i
  patched-outside i hi far = elim (o.allocated (i / block_size) (omega arith)) [
    | inl hole ↦ file_byte_hole patched n i hole ∙ sym (file_byte_hole disk n i hole)
    | inr own ↦
        file_byte_mapped patched n i own.0
        ∙ patched-other i hi own.0 far
        ∙ sym (file_byte_mapped disk n i own.0)
  ]

  patched-holds :
      (i : ℕ)
      → i < max_file_size
      → file_byte patched n i ≡ memcpy (file_byte disk n) offset buf from size i
  patched-holds i hi = elim (Bool-cases (leb offset i && ltb i (offset + size))) [
    | inl inside ↦
        patched-inside i (ground arith) (ground arith)
        ∙ sym (memcpy_in (file_byte disk n) offset buf from size i (ground arith) (ground arith))
    | inr outside ↦
        patched-outside i hi (ground arith)
        ∙ sym (memcpy_out (file_byte disk n) offset buf from size i (ground arith))
  ]

  patched-Foreign : (b : ℕ) → Foreign disk n b → Foreign patched n b
  patched-Foreign b (inl f) = inl f
  patched-Foreign b (inr (d, e, lt, used, other)) =
      inr (d, e, lt, patched-taken d (omega arith) ∙ used, other)

  Foreign-ne : (b : ℕ) → Foreign disk n b → b ≢ dblock (pointer n offset)
  Foreign-ne b (inl f) e = absurd (omega arith)
  Foreign-ne b (inr (d, e, lt, used, other)) e' =
      other (offset / block_size) (omega arith) (omega arith)

  pub patched-Writes : Writes disk n patched n (memcpy (file_byte disk n) offset buf from size)
  patched-Writes = record {
    owns = patched-Owns;
    keeps = refl;
    holds = patched-holds;
    grows = λ k hk h. refl;
    foreign = patched-Foreign;
    frame = λ b i f hi. patched-far b i (Foreign-ne b f) hi;
  }
