-- ===== src/Fs/File/Write.antt =====
-- The loop of file_write: with enough free blocks it writes the whole range.
use pico_shell.Base.{
  Bool-cases, Bytes, Option, ap, arith, get_or, inl, inr, ltb, ltb→lt, memcpy, memcpy-congr,
  memcpy_join, memcpy_out, refl, some, subst, suc, sym, uninit, zero, ℕ, ◌%◌, ◌+◌, ◌-◌, ◌/◌, ◌<◌,
  ◌∙◌, ◌≡◌, ◌≤◌,
}
use pico_shell.Fs.Bitmap.{num_data_blocks}
use pico_shell.Fs.Block.Access.{patch_lem}
use pico_shell.Fs.Data.{dblock}
use pico_shell.Fs.Data.Access.{data_read_in, data_update_in}
use pico_shell.Fs.Disk.{block_size}
use pico_shell.Fs.Disk.Monad.{bind}
use pico_shell.Fs.File.{chunk, max_file_size, write_loop}
use pico_shell.Fs.File.Content.{Owns, byte_address, file_byte, pointer}
use pico_shell.Fs.File.Effect.{Writes, Writes-content, Writes-refl, Writes-trans}
use pico_shell.Fs.File.Room.{free_blocks, touched, touched-chunk, touched-pos}
use pico_shell.Fs.File.Round.{free_blocks-patched, inode_datamap-Writes, round-Writes}
use pico_shell.Fs.Inode.{Inode}

-- what a run of the loop reaches from `offset` with `rest` bytes to go
pub record Reaches (disk : Bytes) (n : Inode) (buf : Bytes) (written offset rest : ℕ)
    (out : Option (ℕ × Inode) × Bytes) : Type 0 where
  pub inode : Inode
  pub after : Bytes
  pub returns : out ≡ (some (offset + rest, inode), after)
  pub writes : Writes disk n after inode (memcpy (file_byte disk n) offset buf written rest)
  pub covers : (i : ℕ) → offset ≤ i → i < offset + rest → pointer inode i < num_data_blocks

Reaches-done :
    (disk : Bytes) (n : Inode) (buf : Bytes) (written offset rest : ℕ)
    → Owns disk n
    → rest ≡ 0
    → Reaches disk n buf written offset rest (some (offset, n), disk)
Reaches-done disk n buf written offset rest o e = record {
  inode = n;
  after = disk;
  returns = ground arith;
  writes =
      Writes-content disk n disk n _ _
        (λ i hi. sym (memcpy_out (file_byte disk n) offset buf written rest i (omega arith)))
        (Writes-refl disk n o);
  covers = λ i h k. absurd (omega arith);
}

module _ (disk : Bytes) (n : Inode) (buf : Bytes) (written offset size rest total : ℕ)
    (e : size + rest ≡ total) (m : Inode) (middle : Bytes) (hm : offset + total ≤ max_file_size)
    (mapped : pointer m offset < num_data_blocks) (fits : offset % block_size + size ≤ block_size)
    (w : Writes disk n middle m (memcpy (file_byte disk n) offset buf written size)) where
  -- a round and the rounds that follow it
  Reaches-step :
      (out : Option (ℕ × Inode) × Bytes)
      → Reaches middle m buf (written + size) (offset + size) rest out
      → Reaches disk n buf written offset total out
  Reaches-step out r = record {
    inode = r.inode;
    after = r.after;
    returns = r.returns ∙ ap (λ t. (some (t, r.inode), r.after)) (omega arith);
    writes = Writes-trans disk n middle m r.after r.inode _ _ w (
        Writes-content middle m r.after r.inode _ _
          (λ i hi.
            memcpy-congr (file_byte middle m) _ (offset + size) buf (written + size) rest i
              (w.holds i hi)
            ∙ memcpy_join (file_byte disk n) offset buf written size rest i
            ∙ ap (λ t. memcpy (file_byte disk n) offset buf written t i) e)
          r.writes);
    covers = λ i h k. elim (Bool-cases (ltb i (offset + size))) [
      | inl here ↦
          let lt = ltb→lt i (offset + size) here in
          let same : pointer m i ≡ pointer m offset = ap (λ q. get_or m.addrs q 0) (omega arith) in
          omega (arith, same, r.writes.grows (i / block_size) (omega arith) (omega (arith, same)))
      | inr later ↦ r.covers i (ground arith) (omega arith)
    ];
  }

module _ (buf : Bytes) (byte_count : ℕ) (small : (i : ℕ) → buf i < 256) where
  chunk_bounds :
      (written offset : ℕ)
      → written < byte_count
      → (0 < chunk byte_count written offset)
        × (chunk byte_count written offset ≤ byte_count - written)
        × (offset % block_size + chunk byte_count written offset ≤ block_size)
  chunk_bounds written offset h = (ground arith, ground arith, ground arith)

  -- Enough rounds, and enough free blocks for what is left of the range.
  pub write_loop-Reaches :
      (fuel : ℕ) (n : Inode) (written offset : ℕ) (disk : Bytes)
      → Owns disk n
      → written ≤ byte_count
      → byte_count ≤ fuel + written
      → offset + (byte_count - written) ≤ max_file_size
      → touched offset (byte_count - written) ≤ free_blocks disk
      → Reaches disk n buf written offset
          (byte_count - written)
          (write_loop buf byte_count fuel n written offset disk)
  unfolding write_loop
  write_loop-Reaches zero n written offset disk o le enough hm room =
      subst (Reaches disk n buf written offset (byte_count - written)) (ground arith)
        (Reaches-done disk n buf written offset (byte_count - written) o (omega arith))
  write_loop-Reaches (suc fuel) n written offset disk o le enough hm room =
      elim (Bool-cases (ltb written byte_count)) [
        | inr done ↦
            subst (Reaches disk n buf written offset (byte_count - written)) (rw done)
              (Reaches-done disk n buf written offset (byte_count - written) o (ground arith))
        | inl more ↦
            let lt = ltb→lt written byte_count more in
            let size = chunk byte_count written offset in
            let bounds = chunk_bounds written offset lt in
            let shrinks = touched-chunk byte_count written offset lt in
            let (m, middle, run, mapped, fewer, w) =
              inode_datamap-Writes disk n o offset (omega arith)
                (omega (arith, touched-pos offset (byte_count - written))) in
            let after = memcpy middle (byte_address m offset) buf written size in
            let w' =
              round-Writes disk n o offset (omega arith)
                (omega (arith, touched-pos offset (byte_count - written))) buf written size bounds.2
                small m middle after mapped w refl in
            let room_left : touched (offset + size) (byte_count - (written + size))
                ≤ free_blocks after =
              omega (
                arith,
                shrinks,
                free_blocks-patched middle m w.owns buf offset written size (omega arith) mapped
                    bounds.2 small,
              ) in
            let rest =
              write_loop-Reaches fuel m (written + size) (offset + size) after w'.owns
                (omega (arith, bounds)) (omega (arith, bounds)) (omega (arith, bounds)) room_left in
            let step =
              Reaches-step disk n buf written offset size (byte_count - (written + size))
                (byte_count - written) (omega (arith, bounds)) m after hm mapped bounds.2 w' _
                rest in
            rw
              (
                more,
                run,
                bind,
                data_read_in _ middle uninit mapped,
                data_update_in _ middle _ mapped,
                patch_lem (dblock (pointer m offset)) (offset % block_size) written size buf middle
                    (omega arith) bounds.2,
              )
              step
      ]

  -- the whole loop
  pub write_loop_lem :
      (n : Inode) (offset : ℕ) (disk : Bytes)
      → Owns disk n
      → offset + byte_count ≤ max_file_size
      → touched offset byte_count ≤ free_blocks disk
      → Reaches disk n buf 0 offset byte_count
          (write_loop buf byte_count byte_count n 0 offset disk)
  write_loop_lem n offset disk o fits room =
      subst
        (λ t. Reaches disk n buf 0 offset t (write_loop buf byte_count byte_count n 0 offset disk))
        all
        (write_loop-Reaches byte_count n 0 offset disk o (omega arith) (omega arith) (omega arith)
          (rw all room))
    where
      all : byte_count - 0 ≡ byte_count
      all = omega arith
