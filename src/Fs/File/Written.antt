-- ===== src/Fs/File/Written.antt =====
-- file_write as a whole, and file_read after it.
use pico_shell.Base.{
  Bool-cases, Bytes, ap, arith, bit, false, get_or, if◌then◌else◌, inl, inr, ltb, memcpy, memcpy_in,
  some, subst, true, ℕ, ◌%◌, ◌*◌, ◌+◌, ◌/◌, ◌<◌, ◌^◌, ◌∙◌, ◌≡◌, ◌≢◌, ◌≤◌, ◌⊎◌,
}
use pico_shell.Fs.Bitmap.{num_data_blocks}
use pico_shell.Fs.Bitmap.Scan.{taken}
use pico_shell.Fs.Block.Access.{address}
use pico_shell.Fs.Data.{data_bitmap_block, data_region_start, dblock}
use pico_shell.Fs.Disk.{block_size}
use pico_shell.Fs.File.{file_read, file_write, grow, max_file_size}
use pico_shell.Fs.File.Content.{Owns, file_byte, pointer}
use pico_shell.Fs.File.Effect.{Foreign, Writes}
use pico_shell.Fs.File.Read.{file_read_lem}
use pico_shell.Fs.File.Room.{free_blocks, touched}
use pico_shell.Fs.File.Write.{write_loop_lem}
use pico_shell.Fs.Inode.{Inode, iblock, inode_table_start, ioffset, ndirect, num_inodes, put_inode}
use pico_shell.Fs.Inode.Alloc.{put_inode-IsByteDisk}
use pico_shell.Fs.Inode.Struct.{IsStruct, load_inode-congr, load_inode-put_inode}
use pico_shell.Fs.Inode.Table.{
  inode_address, inode_at, inode_at-put_inode_ne, inode_update_in, put_inode_frame,
}

-- A block that is neither foreign to the inode's owner nor part of the inode table.
abbrev pub Elsewhere : Bytes → Inode → ℕ → Type 0
Elsewhere disk n b = Foreign disk n b × ((b < inode_table_start) ⊎ (data_region_start ≤ b))

-- A call of file_write put `byte_count` bytes of the buffer at `offset` and left the inode `n'`.
pub record FileWritten (disk : Bytes) (n : Inode) (buf : Bytes) (offset byte_count : ℕ) (n' : Inode)
    (after : Bytes) : Type 0 where
  pub owns : Owns after n'
  pub size : n'.size ≡ (if ltb n.size (offset + byte_count) then offset + byte_count else n.size)
  pub keeps : n' ≡ record n { size = n'.size; addrs = n'.addrs }
  pub holds :
      (i : ℕ)
      → i < max_file_size
      → file_byte after n' i ≡ memcpy (file_byte disk n) offset buf 0 byte_count i
  pub covers : (i : ℕ) → i < byte_count → pointer n' (offset + i) < num_data_blocks
  pub frame :
      (b i : ℕ) → Elsewhere disk n b → i < block_size → after (address b i) ≡ disk (address b i)
  pub stored : n.size < offset + byte_count → IsStruct n' → inode_at after n.inum ≡ n'
  pub grows :
      (k : ℕ)
      → k < ndirect
      → get_or n.addrs k 0 < num_data_blocks
      → get_or n'.addrs k 0 ≡ get_or n.addrs k 0
  pub others :
      (j : ℕ)
      → j < num_inodes
      → (j ≢ n.inum) ⊎ (offset + byte_count ≤ n.size)
      → inode_at after j ≡ inode_at disk j

-- A store of the inode with another size leaves the file's blocks and the data bitmap alone.
module _ (disk : Bytes) (n m : Inode) (inum : ℕ) (h : inum < num_inodes) where
  abbrev kept : Bytes
  kept = put_inode disk (inode_address inum) m

  kept-frame :
      (b i : ℕ)
      → (b < inode_table_start) ⊎ (data_region_start ≤ b)
      → i < block_size
      → kept (address b i) ≡ disk (address b i)
  kept-frame b i far hi = put_inode_frame disk (inode_address inum) m (address b i) (omega arith)

  kept-taken :
      (q : ℕ) → q < 8 * block_size → taken data_bitmap_block kept q ≡ taken data_bitmap_block disk q
  kept-taken q hq =
      ap (λ b. bit b (q % 8)) (kept-frame data_bitmap_block (q / 8) (omega arith) (omega arith))

  kept-Owns : Owns disk n → Owns kept n
  kept-Owns o = record {
    pointers = o.pointers;
    allocated = λ k hk. ground (arith, o.allocated k hk, kept-taken (get_or n.addrs k 0));
    distinct = o.distinct;
    bytes = put_inode-IsByteDisk disk (inode_address inum) m o.bytes;
  }

  kept-holds : (i : ℕ) → file_byte kept n i ≡ file_byte disk n i
  unfolding file_byte
  kept-holds i = ground (arith, kept-frame (dblock (pointer n i)) (i % block_size))

Owns-size : (disk : Bytes) (n : Inode) (s : ℕ) → Owns disk n → Owns disk (record n { size = s })
Owns-size disk n s o = record {
  pointers = o.pointers;
  allocated = o.allocated;
  distinct = o.distinct;
  bytes = o.bytes;
}

module _ (disk : Bytes) (n : Inode) (buf : Bytes) (offset byte_count : ℕ) (h : n.inum < num_inodes)
    (m : Inode) (middle : Bytes)
    (w : Writes disk n middle m (memcpy (file_byte disk n) offset buf 0 byte_count))
    (covers : (i : ℕ) → offset ≤ i → i < offset + byte_count → pointer m i < num_data_blocks) where
  abbrev end : ℕ
  end = offset + byte_count

  table_kept : (j : ℕ) → j < num_inodes → inode_at middle j ≡ inode_at disk j
  table_kept j hj = load_inode-congr middle disk (inode_address j) (inode_address j) (λ i hi.
      subst (λ a. middle a ≡ disk a) (omega arith)
        (w.frame (iblock j) (ioffset j + i) (inl (omega arith, omega arith)) (omega arith)))

  -- the call ends without a change of the size
  grow_same :
      ltb n.size end ≡ false
      → (grow byte_count end m middle ≡ (some (byte_count, m), middle))
        × FileWritten disk n buf offset byte_count m middle
  unfolding grow
  grow_same e = (
    ground (arith, w.keeps, e),
    record {
      owns = w.owns;
      size = ground (arith, w.keeps, e);
      keeps = ground (arith, w.keeps);
      holds = w.holds;
      covers = λ i hi. covers (offset + i) (omega arith) (omega arith);
      frame = λ b i f hi. w.frame b i f.0 hi;
      stored = λ lt. absurd (ground arith);
      grows = w.grows;
      others = λ j hj ne. table_kept j hj;
    },
  )

  -- the call ends with the store of the new size
  grow_larger :
      ltb n.size end ≡ true
      → let m' = record m { size = end } in
        let after = put_inode middle (inode_address n.inum) m' in
        (grow byte_count end m middle ≡ (some (byte_count, m'), after))
        × FileWritten disk n buf offset byte_count m' after
  unfolding grow file_byte
  grow_larger e =
      let m' : Inode = record m { size = end } in
      (
        ground (arith, w.keeps, e, inode_update_in n.inum middle m'),
        record {
          owns = Owns-size _ m end (kept-Owns middle m m' n.inum h w.owns);
          size = ground (arith, e);
          keeps = ground (arith, w.keeps);
          holds = λ i hi. kept-holds middle m m' n.inum h i ∙ w.holds i hi;
          covers = λ i hi. covers (offset + i) (omega arith) (omega arith);
          frame = λ b i f hi. kept-frame middle m m' n.inum h b i f.1 hi ∙ w.frame b i f.0 hi;
          stored = λ lt v. load_inode-put_inode middle (inode_address n.inum) m' v;
          grows = w.grows;
          others =
              λ j hj ne. inode_at-put_inode_ne middle n.inum j m' (other j ne) ∙ table_kept j hj;
        },
      )
    where
      other : (j : ℕ) → (j ≢ n.inum) ⊎ (end ≤ n.size) → j ≢ n.inum
      other j (inl ne) = ne
      other j (inr le) = absurd (ground (arith, e))

  grow-FileWritten :
      (n' : Inode) × (after : Bytes) × (grow byte_count end m middle
        ≡ (some (byte_count, n'), after))
      × FileWritten disk n buf offset byte_count n' after
  grow-FileWritten = elim (Bool-cases (ltb n.size end)) [
    | inl e ↦ (_, _, (grow_larger e).0, (grow_larger e).1)
    | inr e ↦ (_, _, (grow_same e).0, (grow_same e).1)
  ]

-- file_write at an offset within the file, with the end of the range within the largest file size
-- and as many free data blocks as the range touches, returns the byte count. The inode then owns
-- its blocks, the content of the file is the old one with the buffer copied over the range, the size
-- is the larger of the old size and the end of the range, and every block that neither belongs to
-- the file nor holds the inode table or the data bitmap is untouched. Where the file grew, its slot
-- of the table holds the caller's struct.
pub file_write-FileWritten :
    (disk : Bytes) (n : Inode) (buf : Bytes) (offset byte_count : ℕ)
    → Owns disk n
    → ((i : ℕ) → buf i < 256)
    → n.inum < num_inodes
    → offset ≤ n.size
    → offset + byte_count ≤ max_file_size
    → touched offset byte_count ≤ free_blocks disk
    → (n' : Inode) × (after : Bytes) × (file_write (some n) (some buf) offset byte_count disk
        ≡ (some (byte_count, n'), after))
      × FileWritten disk n buf offset byte_count n' after
unfolding file_write
file_write-FileWritten disk n buf offset byte_count o small h inside fits room =
    let r = write_loop_lem buf byte_count small n offset disk o fits room in
    let (n', after, run, done) =
      grow-FileWritten disk n buf offset byte_count h r.inode r.after r.writes r.covers in
    (n', after, ground (arith, r.returns, run), done)

-- A file that file_write put a buffer into gives it back: file_read of the same range of the
-- struct that file_write left returns the byte count, with the bytes of the buffer.
pub file_read-file_write :
    (disk : Bytes) (n : Inode) (buf out : Bytes) (offset byte_count : ℕ)
    → Owns disk n
    → ((i : ℕ) → buf i < 256)
    → n.inum < num_inodes
    → offset ≤ n.size
    → n.size < 2 ^ 31
    → offset + byte_count ≤ max_file_size
    → touched offset byte_count ≤ free_blocks disk
    → (n' : Inode) × (after got : Bytes) × (file_write (some n) (some buf) offset byte_count disk
        ≡ (some (byte_count, n'), after))
      × (file_read (some n') (some out) offset byte_count after ≡ some (byte_count, got))
      × ((i : ℕ) → i < byte_count → got i ≡ buf i)
file_read-file_write disk n buf out offset byte_count o small h inside short fits room =
    let (n', after, run, w) =
      file_write-FileWritten disk n buf offset byte_count o small h inside fits room in
    let (got, read, bytes, rest) =
      file_read_lem n' after out offset byte_count (ground (arith, w.size)) (ground (arith, w.size))
        fits w.covers in
    (
      n',
      after,
      got,
      run,
      read,
      λ i hi.
          bytes i hi
          ∙ w.holds (offset + i) (omega arith)
          ∙ memcpy_in (file_byte disk n) offset buf 0 byte_count (offset + i) (omega arith)
              (omega arith)
          ∙ ap buf (omega arith),
    )
