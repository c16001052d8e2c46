-- ===== src/Fs/File/Read.antt =====
-- file_read: the bytes that it puts into the buffer, and how many.
use pico_shell.Base.{
  Bool-cases, Bytes, ap, arith, false, get_or, inl, inr, ltb, ltb→lt, memcpy, memcpy_in, memcpy_out,
  memcpy_to_start, minus_one, none, refl, some, subst, suc, sym, true, uninit, zero, ℕ, ◌%◌, ◌*◌,
  ◌+◌, ◌-◌, ◌<◌, ◌==◌, ◌^◌, ◌∙◌, ◌≡◌, ◌≤◌, ◌⊎◌,
}
use pico_shell.Fs.Bitmap.{num_data_blocks}
use pico_shell.Fs.Data.{dblock}
use pico_shell.Fs.Data.Access.{data_read_in}
use pico_shell.Fs.Disk.{block_size}
use pico_shell.Fs.File.{chunk, file_read, max_file_size, read_loop}
use pico_shell.Fs.File.Content.{file_byte, file_byte_mapped, pointer}
use pico_shell.Fs.Inode.{Inode}

module _ (n : Inode) (disk : Bytes) (byte_count start : ℕ) (first : Bytes) where
  -- the buffer with the first `read` bytes of the range in it
  abbrev Filled : ℕ → Bytes → Type 0
  Filled read buf =
      ((i : ℕ) → i < read → buf i ≡ file_byte disk n (start + i))
      × ((i : ℕ) → read ≤ i → buf i ≡ first i)

  -- Every byte of the range lies in a data block.
  abbrev Mapped : Type 0
  Mapped = (i : ℕ) → i < byte_count → pointer n (start + i) < num_data_blocks

  round-Filled :
      (buf : Bytes) (read size : ℕ)
      → pointer n (start + read) < num_data_blocks
      → (start + read) % block_size + size ≤ block_size
      → Filled read buf
      → let block =
          memcpy uninit 0 disk (dblock (pointer n (start + read)) * block_size) block_size in
        Filled (read + size) (memcpy buf read block ((start + read) % block_size) size)
  round-Filled buf read size mapped fits f =
      (inside, λ i hi. ground (arith, memcpy_out buf read block off size i, f.1 i))
    where
      off : ℕ
      off = (start + read) % block_size

      block : Bytes
      block = memcpy uninit 0 disk (dblock (pointer n (start + read)) * block_size) block_size

      here :
          (i : ℕ)
          → read ≤ i
          → i < read + size
          → memcpy buf read block off size i ≡ file_byte disk n (start + i)
      here i hi hs =
          memcpy_in buf read block off size i hi hs
          ∙ memcpy_to_start uninit disk (dblock (pointer n (start + read)) * block_size) block_size
              (off + (i - read)) (omega arith)
          ∙ ap disk (omega (arith, same))
          ∙ sym (file_byte_mapped disk n (start + i) (omega (arith, same)))
        where
          same : pointer n (start + i) ≡ pointer n (start + read)
          same = ap (λ q. get_or n.addrs q 0) (omega arith)

      inside :
          (i : ℕ)
          → i < read + size
          → memcpy buf read block off size i ≡ file_byte disk n (start + i)
      inside i hi = elim (Bool-cases (ltb i read)) [
        | inl old ↦ ground (arith, memcpy_out buf read block off size i, f.0 i)
        | inr new ↦ here i (ground arith) hi
      ]

  read_loop-Filled :
      (fuel : ℕ) (buf : Bytes) (read offset : ℕ)
      → Mapped
      → offset ≡ start + read
      → read ≤ byte_count
      → byte_count ≤ fuel + read
      → Filled read buf
      → (out : Bytes) × (read_loop n disk byte_count fuel buf read offset ≡ some (byte_count, out))
        × Filled byte_count out
  unfolding read_loop
  read_loop-Filled zero buf read offset m e le enough f =
      (buf, ground arith, subst (λ k. Filled k buf) (omega arith) f)
  read_loop-Filled (suc fuel) buf read offset m e le enough f =
      rw e (elim (Bool-cases (ltb read byte_count)) [
        | inl more ↦
            let size = chunk byte_count read (start + read) in
            let mapped = m read (ltb→lt read byte_count more) in
            let (out, run, filled) =
              read_loop-Filled fuel _ (read + size) (start + read + size) m (omega arith)
                (chunk_le more) (chunk_pos more) (round-Filled buf read size mapped chunk_fits f) in
            (out, rw (more, not_hole mapped, data_read_in _ disk uninit mapped) run, filled)
        | inr done ↦ (buf, rw done, subst (λ k. Filled k buf) (ground arith) f)
      ])
    where
      not_hole :
          pointer n (start + read) < num_data_blocks
          → (pointer n (start + read) == minus_one) ≡ false
      not_hole h = ground arith

      chunk_le :
          ltb read byte_count ≡ true → read + chunk byte_count read (start + read) ≤ byte_count
      chunk_le h = ground arith

      chunk_pos :
          ltb read byte_count ≡ true
          → byte_count ≤ fuel + (read + chunk byte_count read (start + read))
      chunk_pos h = ground arith

      chunk_fits : (start + read) % block_size + chunk byte_count read (start + read) ≤ block_size
      chunk_fits = ground arith

-- file_read of a range that begins within the file, does not pass the largest file size and lies in
-- data blocks returns the byte count: the buffer then begins with the bytes of the file in that
-- range, and the rest of it is as it was.
pub file_read_lem :
    (n : Inode) (disk buf : Bytes) (offset byte_count : ℕ)
    → n.size < 2 ^ 31
    → offset ≤ n.size
    → offset + byte_count ≤ max_file_size
    → ((i : ℕ) → i < byte_count → pointer n (offset + i) < num_data_blocks)
    → (out : Bytes) × (file_read (some n) (some buf) offset byte_count disk
        ≡ some (byte_count, out))
      × ((i : ℕ) → i < byte_count → out i ≡ file_byte disk n (offset + i))
      × ((i : ℕ) → byte_count ≤ i → out i ≡ buf i)
unfolding file_read
file_read_lem n disk buf offset byte_count small inside fits m =
    let (out, run, filled) =
      read_loop-Filled n disk byte_count offset buf byte_count buf 0 offset m (omega arith)
        (omega arith) (omega arith) (λ i hi. absurd (omega arith), λ i hi. refl) in
    (out, ground arith, filled.0, filled.1)

-- file_read fails on an offset past the end of the file and on a range past the largest file size.
pub file_read_rejects :
    (n : Inode) (disk buf : Bytes) (offset byte_count : ℕ)
    → n.size < 2 ^ 31
    → offset < 2 ^ 31
    → byte_count < 2 ^ 31
    → (n.size < offset) ⊎ (max_file_size < offset + byte_count)
    → file_read (some n) (some buf) offset byte_count disk ≡ none
unfolding file_read
file_read_rejects n disk buf offset byte_count hs ho hb h = ground arith
