-- ===== src/Fs/Directory/Remove.antt =====
-- dir_remove, and dir_add where an entry is invalid: a write over an entry.
use pico_shell.Base.{
  Bool, Bool-cases, Bytes, List, Option, Option-cases, [], and_then, ap, ap₂, arith, false,
  if◌then◌else◌, inl, inr, length, minus_one, none, not, refl, set, some, str_eq, subst, suc,
  word_at, zero, ℕ, ◌*◌, ◌+◌, ◌/◌, ◌<◌, ◌∙◌, ◌∷◌, ◌≡◌, ◌≢◌, ◌≤◌,
}
use pico_shell.Fs.Directory.{
  dir_add, dir_remove, dirent_size, entry_at, put_new, wipe, write_dirent,
}
use pico_shell.Fs.Directory.Add.{length-slots_from, write_dirent-written}
use pico_shell.Fs.Directory.Entry.{Dirent, dot, dot_dot, load_dirent, string_at, zero_dirent}
use pico_shell.Fs.Directory.Lookup.{DirectoryAt, dir_inode_lem, dir_lookup_lem, lookup_in}
use pico_shell.Fs.Directory.Patch.{Lists, byte-kept, slot-written}
use pico_shell.Fs.Directory.Slots.{
  first_picked, load_dirent-congr, scan_entries_lem, slot, slots, slots_from,
}
use pico_shell.Fs.Disk.{block_size}
use pico_shell.Fs.Disk.Monad.{bind}
use pico_shell.Fs.File.Content.{Owns, file_byte}
use pico_shell.Fs.File.Room.{free_blocks, touched}
use pico_shell.Fs.File.Written.{FileWritten, file_write-FileWritten}
use pico_shell.Fs.Inode.{Inode}
use pico_shell.Fs.Inode.Struct.{IsStruct}

slots_from-congr :
    (disk after : Bytes) (n : Inode) (m k : ℕ)
    → ((i : ℕ) → k ≤ i → i < k + m → slot after n i ≡ slot disk n i)
    → slots_from after n k m ≡ slots_from disk n k m
unfolding slots_from
slots_from-congr disk after n zero k same = refl
slots_from-congr disk after n (suc m) k same =
    ap₂ ◌∷◌ (same k (omega arith) (omega arith))
      (slots_from-congr disk after n m (suc k) (λ i h h'. same i (omega arith) (omega arith)))

slots_from-set :
    (disk after : Bytes) (n : Inode) (m k j : ℕ)
    → j < m
    → ((i : ℕ) → k ≤ i → i < k + m → i ≢ k + j → slot after n i ≡ slot disk n i)
    → slots_from after n k m ≡ set (slots_from disk n k m) j (slot after n (k + j))
unfolding slots_from
slots_from-set disk after n zero k j h same = absurd (omega arith)
slots_from-set disk after n (suc m) k zero h same = ap₂ ◌∷◌ (ap (slot after n) (omega arith)) (
    slots_from-congr disk after n m (suc k)
      (λ i h h'. same i (omega arith) (omega arith) (omega arith)))
slots_from-set disk after n (suc m) k (suc j) h same =
    ap₂ ◌∷◌ (same k (omega arith) (omega arith) (omega arith)) (
      slots_from-set disk after n m (suc k) j (omega arith)
        (λ i h h' ne. same i (omega arith) (omega arith) (omega arith))
      ∙ ap (λ q. set (slots_from disk n (suc k) m) j (slot after n q)) (omega arith))

module _ (disk : Bytes) (n : Inode) (b : Bytes) (k : ℕ) (n' : Inode) (after : Bytes)
    (at : DirectoryAt disk n.inum n) (o : Owns disk n) (v : IsStruct n)
    (w : FileWritten disk n b (k * dirent_size) dirent_size n' after)
    (inside : k < n.size / dirent_size) where
  -- the blocks that the inode had are those it has
  same-byte : (i : ℕ) → i < n.size → file_byte after n i ≡ file_byte after n' i
  unfolding file_byte
  same-byte i h = ground (
    arith,
    w.grows (i / block_size) (omega (arith, at.is_directory.small)) (at.is_directory.covered i h),
  )

  old-Owns : Owns after n
  old-Owns = record {
    pointers = o.pointers;
    allocated = λ j hj. ground (arith, o.allocated j hj, w.grows j hj, w.owns.allocated j hj);
    distinct = o.distinct;
    bytes = w.owns.bytes;
  }

  overwritten-Lists : Lists disk n (set (slots disk n) k (load_dirent b)) n after
  overwritten-Lists =
      let d = at.is_directory in
      record {
        at = record {
          in_range = at.in_range;
          in_slot = w.others n.inum at.in_range (inr (omega (arith, d.whole))) ∙ at.in_slot;
          is_directory = d;
        };
        entries =
            slots_from-set disk after n (n.size / dirent_size) 0 k inside (λ i h h' ne.
              load_dirent-congr _ _ λ q hq.
                same-byte (i * dirent_size + q) (omega (arith, d.whole))
                ∙ byte-kept disk n b k n' after w (i * dirent_size + q)
                    (omega (arith, d.whole, d.small)) (omega arith))
            ∙ ap (set (slots disk n) k) (
                load_dirent-congr _ _ (λ q hq.
                  same-byte ((0 + k) * dirent_size + q) (omega (arith, d.whole))
                  ∙ ap (file_byte after n') (omega arith))
                ∙ slot-written disk n b k n' after w (omega (arith, d.whole, d.small)));
        owns = old-Owns;
        struct = v;
        others = λ j hj ne. w.others j hj (inl ne);
        frame = w.frame;
      }

-- the index of the first entry that a test picks, if there is one
unfoldable pub index_of : (Dirent → Bool) → List Dirent → Option ℕ
index_of picks [] = none
index_of picks (e ∷ es) =
    if picks e then some 0 else and_then (index_of picks es) (λ j. some (suc j))

found_entry :
    (picks : Dirent → Bool) (es : List Dirent) (k j : ℕ)
    → index_of picks es ≡ some j
    → (j < length es)
      × (e : Dirent) × (first_picked picks es k ≡ entry_at e ((k + j) * dirent_size))
unfolding index_of first_picked
found_entry picks [] k j h = absurd (ground arith)
found_entry picks (e ∷ es) k j h = elim (Bool-cases (picks e)) [
  | inl p ↦
      let q : j ≡ 0 = ground (arith, p) in (omega arith, e, rw p (ap (entry_at e) (omega arith)))
  | inr p ↦ elim (Option-cases (index_of picks es)) [
    | inl m ↦ absurd (ground (arith, p, m))
    | inr (i, m) ↦
        let q : j ≡ suc i = ground (arith, p, m) in
        let (lt, f, run) = found_entry picks es (suc k) i m in
        (omega arith, f, rw p (run ∙ ap (entry_at f) (omega arith)))
  ]
]

-- the entry that 64 zeros are
abbrev pub blank_entry : Dirent
blank_entry = record { valid = false; name = []; inum = 0 }

load_zero : load_dirent zero_dirent ≡ blank_entry
unfolding load_dirent string_at word_at
load_zero = refl

-- dir_remove of a name other than "." and "..", for which a well-formed directory has an entry,
-- valid or not, succeeds if a data block is free: it puts zeros over the first such entry, and leaves
-- the other entries, every inode of the table and every block of another file.
pub dir_remove-Lists :
    (disk : Bytes) (n : Inode) (name : List ℕ) (k : ℕ)
    → DirectoryAt disk n.inum n
    → Owns disk n
    → IsStruct n
    → str_eq name dot ≡ false
    → str_eq name dot_dot ≡ false
    → index_of (λ e. str_eq e.name name) (slots disk n) ≡ some k
    → 0 < free_blocks disk
    → (after : Bytes) × (dir_remove n.inum (some name) disk ≡ (some tt, after))
      × Lists disk n (set (slots disk n) k blank_entry) n after
unfolding dir_remove wipe touched
dir_remove-Lists disk n name k at o v not_dot not_dots found free =
    let d = at.is_directory in
    let (lt, e, first) = found_entry (λ e. str_eq e.name name) (slots disk n) 0 k found in
    let inside : k < n.size / dirent_size =
      omega (arith, lt, length-slots_from disk n (n.size / dirent_size) 0) in
    let (n', after, run, w) =
      file_write-FileWritten disk n zero_dirent (k * dirent_size) dirent_size o (λ i. omega arith)
        at.in_range (omega (arith, d.whole)) (omega (arith, d.whole, d.small)) (omega arith) in
    (
      after,
      rw (not_dot, not_dots, dir_inode_lem disk n.inum n at, bind, scan_entries_lem disk n d, first)
          (ap (λ o. write_dirent n zero_dirent o disk)
              (let q : (0 + k) * dirent_size ≡ k * dirent_size = omega arith in q)
            ∙ write_dirent-written n zero_dirent (k * dirent_size) disk n' after run),
      subst (λ x. Lists disk n (set (slots disk n) k x) n after) load_zero
          (overwritten-Lists disk n zero_dirent k n' after at o v w inside),
    )

-- dir_add to a directory with an invalid entry ignores the entry that it is given: as long as the
-- directory has neither name, a call with one entry and a call with another do the same.
pub dir_add_hole :
    (stack disk : Bytes) (n : Inode) (e e' : Dirent) (k : ℕ)
    → DirectoryAt disk n.inum n
    → lookup_in e.name (slots disk n) ≡ minus_one
    → lookup_in e'.name (slots disk n) ≡ minus_one
    → index_of (λ old. not old.valid) (slots disk n) ≡ some k
    → dir_add stack n.inum (some e) disk ≡ dir_add stack n.inum (some e') disk
unfolding dir_add put_new
dir_add_hole stack disk n e e' k at absent absent' hole =
    let d = at.is_directory in
    let (lt, old, first) = found_entry (λ old. not old.valid) (slots disk n) 0 k hole in
    rw (
      dir_inode_lem disk n.inum n at,
      bind,
      dir_lookup_lem disk n.inum n e.name at,
      absent,
      dir_lookup_lem disk n.inum n e'.name at,
      absent',
      scan_entries_lem disk n d,
      first,
    )
