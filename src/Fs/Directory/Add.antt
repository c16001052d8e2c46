-- ===== src/Fs/Directory/Add.antt =====
-- dir_add at the end of a directory without holes.
use pico_shell.Base.{
  Bool, Bytes, List, [], ap, ap₂, arith, inl, length, minus_one, not, refl, some, subst, suc, true,
  zero, ℕ, ◌&&◌, ◌*◌, ◌++◌, ◌+◌, ◌/◌, ◌<◌, ◌^◌, ◌∙◌, ◌∷◌, ◌≡◌, ◌≤◌,
}
use pico_shell.Fs.Directory.{dir_add, dirent_size, end_at, put_new, write_dirent}
use pico_shell.Fs.Directory.Entry.{Dirent, put_dirent}
use pico_shell.Fs.Directory.Lookup.{DirectoryAt, dir_inode_lem, dir_lookup_lem, lookup_in}
use pico_shell.Fs.Directory.Patch.{
  IsStruct-written, Lists, byte-kept, covered-written, slot-written,
}
use pico_shell.Fs.Directory.Slots.{
  first_picked, load_dirent-congr, scan_entries_lem, slot, slots, slots_from,
}
use pico_shell.Fs.Directory.Store.{IsName, load_dirent-put_dirent, put_dirent-lt}
use pico_shell.Fs.Disk.Monad.{bind}
use pico_shell.Fs.File.{file_write, max_file_size}
use pico_shell.Fs.File.Content.{Owns, file_byte}
use pico_shell.Fs.File.Room.{free_blocks, touched}
use pico_shell.Fs.File.Written.{FileWritten, file_write-FileWritten}
use pico_shell.Fs.Inode.{Inode}
use pico_shell.Fs.Inode.Struct.{IsStruct}

slots_from-append :
    (disk : Bytes) (n : Inode) (k m : ℕ)
    → slots_from disk n k (suc m) ≡ slots_from disk n k m ++ slot disk n (k + m) ∷ []
unfolding slots_from
slots_from-append disk n k zero = ap (λ j. slot disk n j ∷ []) (omega arith)
slots_from-append disk n k (suc m) = ap (slot disk n k ∷◌) (
    slots_from-append disk n (suc k) m
    ∙ ap (λ j. slots_from disk n (suc k) m ++ slot disk n j ∷ []) (omega arith))

-- Entries before the end of a range that was written are as they were.
pub slots_from-same :
    (disk disk' : Bytes) (n n' : Inode) (m k : ℕ)
    → ((i : ℕ) → i < (k + m) * dirent_size → file_byte disk' n' i ≡ file_byte disk n i)
    → slots_from disk' n' k m ≡ slots_from disk n k m
unfolding slots_from
slots_from-same disk disk' n n' zero k h = refl
slots_from-same disk disk' n n' (suc m) k h =
    ap₂ ◌∷◌ (load_dirent-congr _ _ (λ i hi. h _ (omega arith)))
      (slots_from-same disk disk' n n' m (suc k) (λ i hi. h i (omega arith)))

-- no invalid entry
unfoldable pub all_valid : List Dirent → Bool
all_valid [] = true
all_valid (e ∷ es) = e.valid && all_valid es

first_picked-all_valid :
    (es : List Dirent) (k : ℕ)
    → all_valid es ≡ true
    → first_picked (λ old. not old.valid) es k ≡ end_at ((k + length es) * dirent_size)
unfolding first_picked all_valid
first_picked-all_valid [] k h = ap end_at (omega arith)
first_picked-all_valid (e ∷ es) k h = ground (arith, first_picked-all_valid es (suc k))

pub length-slots_from : (disk : Bytes) (n : Inode) (m k : ℕ) → length (slots_from disk n k m) ≡ m
unfolding slots_from
length-slots_from disk n zero k = refl
length-slots_from disk n (suc m) k = ap suc (length-slots_from disk n m (suc k))

module _ (disk : Bytes) (n : Inode) (e : Dirent) (at : DirectoryAt disk n.inum n) (v : IsStruct n)
    (named : IsName e.name) (small : e.inum < 2 ^ 32)
    (room : n.size + dirent_size ≤ max_file_size) where
  abbrev count : ℕ
  count = n.size / dirent_size

  appended-Lists :
      (n' : Inode) (after : Bytes)
      → FileWritten disk n (put_dirent e) n.size dirent_size n' after
      → Lists disk n (slots disk n ++ e ∷ []) n' after
  appended-Lists n' after w =
      let whole : n.size ≡ count * dirent_size = at.is_directory.whole in
      let w' : FileWritten disk n (put_dirent e) (count * dirent_size) dirent_size n' after =
        subst (λ o. FileWritten disk n (put_dirent e) o dirent_size n' after) whole w in
      let size : n'.size ≡ n.size + dirent_size = ground (arith, w.size) in
      let struct : IsStruct n' =
        IsStruct-written disk n _ count n' after w' v (omega (arith, size)) in
      record {
        at = record {
          in_range = at.in_range;
          in_slot = w.stored (omega arith) struct;
          is_directory = record {
            is_dir = ground (arith, w.keeps, at.is_directory.is_dir);
            whole = omega (arith, size, whole);
            small = omega (arith, size);
            covered = λ i hi.
                covered-written disk n _ count n' after w' at.is_directory i
                  (omega (arith, size, whole));
          };
        };
        entries =
            ap (slots_from after n' 0)
              (let q : n'.size / dirent_size ≡ suc count = omega (arith, size, whole) in q)
            ∙ slots_from-append after n' 0 count
            ∙ ap (λ j. slots_from after n' 0 count ++ slot after n' j ∷ [])
                (let q : 0 + count ≡ count = omega arith in q)
            ∙ ap₂ (λ l x. l ++ x ∷ [])
                (slots_from-same disk after n n' count 0 (λ i hi.
                  byte-kept disk n _ count n' after w' i (omega (arith, whole)) (omega arith)))
                (slot-written disk n _ count n' after w' (omega (arith, whole))
                  ∙ load_dirent-put_dirent e named small);
        owns = w.owns;
        struct = struct;
        others = λ j hj ne. w.others j hj (inl ne);
        frame = w.frame;
      }

-- what file_write returned, seen by write_dirent
pub write_dirent-written :
    (n : Inode) (b : Bytes) (offset : ℕ) (disk : Bytes) (n' : Inode) (after : Bytes)
    → file_write (some n) (some b) offset dirent_size disk ≡ (some (dirent_size, n'), after)
    → write_dirent n b offset disk ≡ (some tt, after)
unfolding write_dirent
write_dirent-written n b offset disk n' after run = rw (run, bind) refl

-- dir_add to a well-formed directory, all of whose entries are valid, of an entry whose name it does
-- not have, with a free data block and room for another entry, succeeds: the new entry stands behind
-- the old ones, which are as they were, the table holds the grown inode, and no other inode and no
-- block of another file is touched.
pub dir_add-Lists :
    (stack disk : Bytes) (n : Inode) (e : Dirent)
    → DirectoryAt disk n.inum n
    → Owns disk n
    → IsStruct n
    → IsName e.name
    → e.inum < 2 ^ 32
    → lookup_in e.name (slots disk n) ≡ minus_one
    → all_valid (slots disk n) ≡ true
    → n.size + dirent_size ≤ max_file_size
    → 0 < free_blocks disk
    → (n' : Inode) × (after : Bytes) × (dir_add stack n.inum (some e) disk ≡ (some tt, after))
      × Lists disk n (slots disk n ++ e ∷ []) n' after
unfolding dir_add put_new touched
dir_add-Lists stack disk n e at o v named small absent full room free =
    let d = at.is_directory in
    let (n', after, run, w) =
      file_write-FileWritten disk n (put_dirent e) n.size dirent_size o (put_dirent-lt e named)
        at.in_range (omega arith) room (omega (arith, d.whole)) in
    (
      n',
      after,
      rw
          (
            dir_inode_lem disk n.inum n at,
            bind,
            dir_lookup_lem disk n.inum n e.name at,
            absent,
            scan_entries_lem disk n d,
            first_picked-all_valid (slots disk n) 0 full,
            length-slots_from disk n (n.size / dirent_size) 0,
          )
          (ap (λ k. write_dirent n (put_dirent e) k disk)
              (let q : (0 + n.size / dirent_size) * dirent_size ≡ n.size = omega (arith, d.whole) in
                q)
            ∙ write_dirent-written n (put_dirent e) n.size disk n' after run),
      appended-Lists disk n e at v named small room n' after w,
    )
