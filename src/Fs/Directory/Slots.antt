-- ===== src/Fs/Directory/Slots.antt =====
-- The abstract view of a directory: the list of its entries.
use pico_shell.Base.{
  Bool, Bytes, List, [], and_then, ap, arith, false, if◌then◌else◌, ltb, refl, slt, some, suc, true,
  uninit, word_at-congr, zero, ℕ, ◌*◌, ◌+◌, ◌/◌, ◌<◌, ◌∙◌, ◌∷◌, ◌≡◌, ◌≤◌,
}
use pico_shell.Fs.Bitmap.{num_data_blocks}
use pico_shell.Fs.Directory.{
  Found, dirent_size, end_at, entry_at, read_dirent, rounds, scan_entries,
}
use pico_shell.Fs.Directory.Entry.{Dirent, load_dirent, max_filename_len, string_at}
use pico_shell.Fs.File.{max_file_size}
use pico_shell.Fs.File.Content.{file_byte, pointer}
use pico_shell.Fs.File.Read.{file_read_lem}
use pico_shell.Fs.Inode.{Inode, directory_t}

-- the entry that begins at byte 64 k of the file
abbrev pub slot : Bytes → Inode → ℕ → Dirent
slot disk n k = load_dirent (λ i. file_byte disk n (k * dirent_size + i))

-- `m` entries from the k-th on
unfoldable pub slots_from : Bytes → Inode → ℕ → ℕ → List Dirent
slots_from disk n k zero = []
slots_from disk n k (suc m) = slot disk n k ∷ slots_from disk n (suc k) m

abbrev pub slots : Bytes → Inode → List Dirent
slots disk n = slots_from disk n 0 (n.size / dirent_size)

-- The size is a multiple of an entry's, and every byte of the file is in a data block.
pub record IsDirectory (n : Inode) : Type 0 where
  pub is_dir : n.type ≡ directory_t
  pub whole : n.size ≡ n.size / dirent_size * dirent_size
  pub small : n.size ≤ max_file_size
  pub covered : (i : ℕ) → i < n.size → pointer n i < num_data_blocks

-- the first entry of a list that a test picks, with the offset of its place
unfoldable pub first_picked : (Dirent → Bool) → List Dirent → ℕ → Found
first_picked picks [] k = end_at (k * dirent_size)
first_picked picks (e ∷ es) k =
    if picks e then entry_at e (k * dirent_size) else first_picked picks es (suc k)

string_at-congr :
    (m : ℕ) (b b' : Bytes) (a : ℕ)
    → ((i : ℕ) → i < a + m → b i ≡ b' i)
    → string_at b a m ≡ string_at b' a m
unfolding string_at
string_at-congr zero b b' a h = refl
string_at-congr (suc m) b b' a h =
    ground (arith, h a (omega arith), string_at-congr m b b' (a + 1) (λ i hi. h i (omega arith)))

pub load_dirent-congr :
    (b b' : Bytes) → ((i : ℕ) → i < dirent_size → b i ≡ b' i) → load_dirent b ≡ load_dirent b'
unfolding load_dirent
load_dirent-congr b b' h = ground (
  arith,
  h 0 (omega arith),
  string_at-congr max_filename_len b b' 1 (λ i hi. h i (omega arith)),
  word_at-congr b b' 60 60 (λ i hi. h (60 + i) (omega arith)),
)

module _ (disk : Bytes) (n : Inode) (d : IsDirectory n) where
  -- a read of an entry inside the file
  pub read_dirent_lem :
      (k : ℕ)
      → k * dirent_size + dirent_size ≤ n.size
      → read_dirent n (k * dirent_size) disk ≡ some (slot disk n k)
  unfolding read_dirent
  read_dirent_lem k h =
      let (out, run, bytes, rest) =
        file_read_lem n disk uninit (k * dirent_size) dirent_size (omega (arith, d.small))
          (omega arith) (omega (arith, d.small)) (λ i hi. d.covered _ (omega arith)) in
      rw (run, and_then) (ap some (load_dirent-congr out _ bytes))

  pub scan_entries-first_picked :
      (signed : Bool) (picks : Dirent → Bool) (m fuel k : ℕ)
      → m < fuel
      → k * dirent_size + m * dirent_size ≡ n.size
      → scan_entries signed picks n disk fuel (k * dirent_size)
        ≡ first_picked picks (slots_from disk n k m) k
  unfolding scan_entries first_picked slots_from
  scan_entries-first_picked signed picks zero zero k h e = absurd (omega arith)
  scan_entries-first_picked signed picks zero (suc fuel) k h e = rw (at_end signed)
    where
      at_end :
          (s : Bool)
          → (if s then slt (k * dirent_size) n.size else ltb (k * dirent_size) n.size) ≡ false
      at_end true = ground (arith, d.small)
      at_end false = ground arith
  scan_entries-first_picked signed picks (suc m) zero k h e = absurd (omega arith)
  scan_entries-first_picked signed picks (suc m) (suc fuel) k h e =
      rw (inside signed, read_dirent_lem k (omega arith))
        (ap (λ r. if picks (slot disk n k) then entry_at (slot disk n k) (k * dirent_size) else r)
          (ap (scan_entries signed picks n disk fuel) (omega arith)
            ∙ scan_entries-first_picked signed picks m fuel (suc k) (omega arith) (omega arith)))
    where
      inside :
          (s : Bool)
          → (if s then slt (k * dirent_size) n.size else ltb (k * dirent_size) n.size) ≡ true
      inside true = ground (arith, d.small)
      inside false = ground arith

  -- the whole scan
  pub scan_entries_lem :
      (signed : Bool) (picks : Dirent → Bool)
      → scan_entries signed picks n disk (rounds n) 0 ≡ first_picked picks (slots disk n) 0
  scan_entries_lem signed picks =
      scan_entries-first_picked signed picks (n.size / dirent_size) (rounds n) 0 (omega arith)
        (omega (arith, d.whole))
