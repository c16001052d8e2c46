-- ===== src/Fs/Directory/Patch.antt =====
-- What a write of one entry does to a directory.
-- A write of an entry's bytes at an entry's place, seen as a change of the list.
use pico_shell.Base.{
  Bytes, List, ap, arith, inl, inr, memcpy_in, memcpy_out, subst, suc, zero, ℕ, ◌*◌, ◌+◌, ◌-◌, ◌/◌,
  ◌<◌, ◌^◌, ◌∙◌, ◌≡◌, ◌≢◌, ◌≤◌, ◌⊎◌,
}
use pico_shell.Fs.Bitmap.{num_data_blocks}
use pico_shell.Fs.Block.Access.{address}
use pico_shell.Fs.Directory.{dirent_size}
use pico_shell.Fs.Directory.Entry.{Dirent, load_dirent}
use pico_shell.Fs.Directory.Lookup.{DirectoryAt}
use pico_shell.Fs.Directory.Slots.{IsDirectory, load_dirent-congr, slot, slots}
use pico_shell.Fs.Disk.{block_size}
use pico_shell.Fs.File.{max_file_size}
use pico_shell.Fs.File.Content.{Owns, file_byte, pointer}
use pico_shell.Fs.File.Written.{Elsewhere, FileWritten}
use pico_shell.Fs.Inode.{Inode, inode_word, num_inodes}
use pico_shell.Fs.Inode.Struct.{IsStruct}
use pico_shell.Fs.Inode.Table.{inode_at}

module _ (disk : Bytes) (n : Inode) (b : Bytes) (k : ℕ) (n' : Inode) (after : Bytes)
    (w : FileWritten disk n b (k * dirent_size) dirent_size n' after) where
  pub slot-written : k * dirent_size + dirent_size ≤ max_file_size → slot after n' k ≡ load_dirent b
  slot-written fits = load_dirent-congr _ _ λ i hi.
      w.holds (k * dirent_size + i) (omega arith)
      ∙ memcpy_in (file_byte disk n) (k * dirent_size) b 0 dirent_size (k * dirent_size + i)
          (omega arith) (omega arith)
      ∙ ap b (omega arith)

  pub byte-kept :
      (i : ℕ)
      → i < max_file_size
      → (i < k * dirent_size) ⊎ (k * dirent_size + dirent_size ≤ i)
      → file_byte after n' i ≡ file_byte disk n i
  byte-kept i hi far =
      w.holds i hi ∙ memcpy_out (file_byte disk n) (k * dirent_size) b 0 dirent_size i far

  pub covered-written :
      IsDirectory n
      → (i : ℕ) → (i < n.size) ⊎ ((k * dirent_size ≤ i) × (i < k * dirent_size + dirent_size))
      → pointer n' i < num_data_blocks
  covered-written d i (inl h) =
      ground
        (arith, w.grows (i / block_size) (omega (arith, d.small)) (d.covered i h), d.covered i h)
  covered-written d i (inr (h, h')) =
      subst (λ j. pointer n' j < num_data_blocks) (omega arith)
        (w.covers (i - k * dirent_size) (omega arith))

  pub IsStruct-written : IsStruct n → n'.size < 2 ^ 32 → IsStruct n'
  unfolding inode_word
  IsStruct-written v small = record { words = words; pointers = w.owns.pointers }
    where
      words : (j : ℕ) → j < 16 → inode_word n' j < 2 ^ 32
      words zero h = ground (arith, w.keeps, v.words 0)
      words (suc zero) h = ground (arith, w.keeps, v.words 1)
      words (suc (suc zero)) h = ground arith
      words (suc (suc (suc zero))) h = ground (arith, w.keeps, v.words 3)
      words (suc (suc (suc (suc j)))) h = ground (arith, w.owns.allocated j (omega arith))

-- From a directory `n` to `n'` and the disk `after`: the slot of the table holds `n'`, whose entries
-- are the given ones, and no other inode and no block of another file changed.
pub record Lists (disk : Bytes) (n : Inode) (es : List Dirent) (n' : Inode) (after : Bytes)
    : Type 0 where
  pub at : DirectoryAt after n.inum n'
  pub entries : slots after n' ≡ es
  pub owns : Owns after n'
  pub struct : IsStruct n'
  pub others : (j : ℕ) → j < num_inodes → j ≢ n.inum → inode_at after j ≡ inode_at disk j
  pub frame :
      (b i : ℕ) → Elsewhere disk n b → i < block_size → after (address b i) ≡ disk (address b i)
