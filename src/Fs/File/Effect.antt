-- ===== src/Fs/File/Effect.antt =====
-- What a write to a file may change: the file's content, and no block that belongs to anybody else.
use pico_shell.Base.{Bytes, arith, get_or, refl, true, ℕ, ◌<◌, ◌∙◌, ◌≡◌, ◌≢◌, ◌⊎◌}
use pico_shell.Fs.Bitmap.{num_data_blocks}
use pico_shell.Fs.Bitmap.Scan.{taken}
use pico_shell.Fs.Block.Access.{address}
use pico_shell.Fs.Data.{data_bitmap_block, data_region_start, dblock}
use pico_shell.Fs.Disk.{block_size}
use pico_shell.Fs.File.{max_file_size}
use pico_shell.Fs.File.Content.{Owns, file_byte}
use pico_shell.Fs.Inode.{Inode, ndirect}

-- A block of the disk that the inode has no part in: neither the data bitmap nor a data block, or an
-- allocated data block that is not its own.
abbrev pub Foreign : Bytes → Inode → ℕ → Type 0
Foreign disk n b =
    ((b < data_region_start) × (b ≢ data_bitmap_block))
    ⊎ ((d : ℕ) × (b ≡ dblock d)
        × (d < num_data_blocks)
        × (taken data_bitmap_block disk d ≡ true)
        × ((k : ℕ) → k < ndirect → get_or n.addrs k 0 ≢ d))

-- From the disk `before` and the inode `n` to `after` and `n'`: the inode owns its blocks, at most
-- its holes are filled, the file holds `content`, and foreign blocks are untouched.
pub record Writes (before : Bytes) (n : Inode) (after : Bytes) (n' : Inode) (content : Bytes)
    : Type 0 where
  pub owns : Owns after n'
  pub keeps : n' ≡ record n { addrs = n'.addrs }
  pub holds : (i : ℕ) → i < max_file_size → file_byte after n' i ≡ content i
  pub grows :
      (k : ℕ)
      → k < ndirect
      → get_or n.addrs k 0 < num_data_blocks
      → get_or n'.addrs k 0 ≡ get_or n.addrs k 0
  pub foreign : (b : ℕ) → Foreign before n b → Foreign after n' b
  pub frame :
      (b i : ℕ) → Foreign before n b → i < block_size → after (address b i) ≡ before (address b i)

pub Writes-refl : (disk : Bytes) (n : Inode) → Owns disk n → Writes disk n disk n (file_byte disk n)
Writes-refl disk n o = record {
  owns = o;
  keeps = refl;
  holds = λ i hi. refl;
  grows = λ k hk h. refl;
  foreign = λ b f. f;
  frame = λ b i f hi. refl;
}

pub Writes-trans :
    (before : Bytes) (n : Inode) (middle : Bytes) (m : Inode) (after : Bytes) (n' : Inode)
    (content content' : Bytes)
    → Writes before n middle m content
    → Writes middle m after n' content'
    → Writes before n after n' content'
Writes-trans before n middle m after n' content content' v w = record {
  owns = w.owns;
  keeps = ground (arith, v.keeps, w.keeps);
  holds = w.holds;
  grows = λ k hk h. ground (arith, v.grows k hk h, w.grows k hk);
  foreign = λ b f. w.foreign b (v.foreign b f);
  frame = λ b i f hi. w.frame b i (v.foreign b f) hi ∙ v.frame b i f hi;
}

pub Writes-content :
    (before : Bytes) (n : Inode) (after : Bytes) (n' : Inode) (content content' : Bytes)
    → ((i : ℕ) → i < max_file_size → content i ≡ content' i)
    → Writes before n after n' content
    → Writes before n after n' content'
Writes-content before n after n' content content' e w = record {
  owns = w.owns;
  keeps = w.keeps;
  holds = λ i hi. w.holds i hi ∙ e i hi;
  grows = w.grows;
  foreign = w.foreign;
  frame = w.frame;
}
