-- ===== src/Fs/Directory/Contents.antt =====
-- A directory after dir_add and dir_remove, as dir_lookup sees it.
use pico_shell.Base.{
  Bool-cases, Bytes, List, Option-cases, [], ap, arith, false, get_or, if◌then◌else◌, inl, inr,
  minus_one, none, refl, set, some, str_eq, str_eq_refl, str_eq_sound, suc, true, zero, ℕ, ◌++◌,
  ◌+◌, ◌<◌, ◌^◌, ◌∷◌, ◌≡◌, ◌≢◌, ◌≤◌,
}
use pico_shell.Fs.Directory.{dir_add, dir_lookup, dir_remove, dirent_size, is_entry}
use pico_shell.Fs.Directory.Add.{all_valid, dir_add-Lists}
use pico_shell.Fs.Directory.Entry.{Dirent, dot, dot_dot}
use pico_shell.Fs.Directory.Lookup.{DirectoryAt, dir_lookup_lem, lookup_in}
use pico_shell.Fs.Directory.Remove.{blank_entry, dir_remove-Lists, index_of}
use pico_shell.Fs.Directory.Slots.{slots}
use pico_shell.Fs.Directory.Store.{IsName}
use pico_shell.Fs.File.{max_file_size}
use pico_shell.Fs.File.Content.{Owns}
use pico_shell.Fs.File.Room.{free_blocks}
use pico_shell.Fs.Inode.{Inode}
use pico_shell.Fs.Inode.Struct.{IsStruct}

lookup_in-append_new :
    (name : List ℕ) (es : List Dirent) (e : Dirent)
    → index_of (is_entry name) es ≡ none
    → is_entry name e ≡ true
    → lookup_in name (es ++ e ∷ []) ≡ e.inum
unfolding lookup_in index_of
lookup_in-append_new name [] e h named = ground (arith, named)
lookup_in-append_new name (x ∷ es) e h named = elim (Bool-cases (is_entry name x)) [
  | inl p ↦ absurd (ground (arith, p))
  | inr p ↦ elim (Option-cases (index_of (is_entry name) es)) [
    | inl m ↦ rw p (lookup_in-append_new name es e m named)
    | inr (i, m) ↦ absurd (ground (arith, p, m))
  ]
]

lookup_in-append_old :
    (name : List ℕ) (es : List Dirent) (e : Dirent)
    → is_entry name e ≡ false
    → lookup_in name (es ++ e ∷ []) ≡ lookup_in name es
unfolding lookup_in
lookup_in-append_old name [] e h = rw h refl
lookup_in-append_old name (x ∷ es) e h = ground (arith, lookup_in-append_old name es e h)

lookup_in-set :
    (name other : List ℕ) (es : List Dirent) (k : ℕ)
    → index_of (λ e. str_eq e.name name) es ≡ some k
    → str_eq name other ≡ false
    → lookup_in other (set es k blank_entry) ≡ lookup_in other es
unfolding lookup_in index_of
lookup_in-set name other [] k found ne = refl
lookup_in-set name other (x ∷ es) k found ne = elim (Bool-cases (str_eq x.name name)) [
  | inl p ↦
      let at : k ≡ 0 = ground (arith, p) in
      let same : x.name ≡ name = str_eq_sound x.name name p in
      rw at (ground (arith, ap (λ s. str_eq s other) same))
  | inr p ↦ elim (Option-cases (index_of (λ e. str_eq e.name name) es)) [
    | inl m ↦ absurd (ground (arith, p, m))
    | inr (i, m) ↦
        let at : k ≡ suc i = ground (arith, p, m) in
        rw at
          (ap (λ r. if is_entry other x then x.inum else r) (lookup_in-set name other es i m ne))
  ]
]

lookup_in_none :
    (name : List ℕ) (es : List Dirent)
    → ((j : ℕ) → is_entry name (get_or es j blank_entry) ≡ false)
    → lookup_in name es ≡ minus_one
unfolding lookup_in
lookup_in_none name [] h = refl
lookup_in_none name (x ∷ es) h = ground (arith, h 0, lookup_in_none name es (λ j. h (suc j)))

lookup_in-gone :
    (name : List ℕ) (es : List Dirent) (k : ℕ)
    → ((j : ℕ) → j ≢ k → is_entry name (get_or es j blank_entry) ≡ false)
    → lookup_in name (set es k blank_entry) ≡ minus_one
unfolding lookup_in
lookup_in-gone name [] k h = refl
lookup_in-gone name (x ∷ es) zero h = lookup_in_none name es (λ j. h (suc j) (omega arith))
lookup_in-gone name (x ∷ es) (suc k) h =
    ground (arith, h 0 (omega arith), lookup_in-gone name es k (λ j ne. h (suc j) (omega arith)))

index_of-lookup_in :
    (name : List ℕ) (es : List Dirent)
    → index_of (is_entry name) es ≡ none
    → lookup_in name es ≡ minus_one
unfolding lookup_in index_of
index_of-lookup_in name [] h = refl
index_of-lookup_in name (x ∷ es) h = elim (Bool-cases (is_entry name x)) [
  | inl p ↦ absurd (ground (arith, p))
  | inr p ↦ elim (Option-cases (index_of (is_entry name) es)) [
    | inl m ↦ rw p (index_of-lookup_in name es m)
    | inr (i, m) ↦ absurd (ground (arith, p, m))
  ]
]

-- After dir_add of a valid entry, under the conditions of dir_add-Lists and with no valid entry of
-- that name before, dir_lookup of its name returns its number, and dir_lookup of any other name
-- returns what it returned before.
pub dir_lookup-dir_add :
    (stack disk : Bytes) (n : Inode) (e : Dirent)
    → DirectoryAt disk n.inum n
    → Owns disk n
    → IsStruct n
    → IsName e.name
    → e.inum < 2 ^ 32
    → e.valid ≡ true
    → index_of (is_entry e.name) (slots disk n) ≡ none
    → all_valid (slots disk n) ≡ true
    → n.size + dirent_size ≤ max_file_size
    → 0 < free_blocks disk
    → (after : Bytes) × (dir_add stack n.inum (some e) disk ≡ (some tt, after))
      × (dir_lookup n.inum (some e.name) after ≡ e.inum)
      × ((other : List ℕ)
          → str_eq e.name other ≡ false
          → dir_lookup n.inum (some other) after ≡ dir_lookup n.inum (some other) disk)
dir_lookup-dir_add stack disk n e at o v named small valid absent full room free =
    let (n', after, run, l) =
      dir_add-Lists stack disk n e at o v named small
        (index_of-lookup_in e.name (slots disk n) absent) full room free in
    (
      after,
      run,
      rw (dir_lookup_lem after n.inum n' e.name l.at, l.entries)
          (lookup_in-append_new e.name (slots disk n) e absent
            (ground (arith, valid, str_eq_refl e.name))),
      λ other ne.
          rw
            (
              dir_lookup_lem after n.inum n' other l.at,
              l.entries,
              dir_lookup_lem disk n.inum n other at,
            )
            (lookup_in-append_old other (slots disk n) e (ground (arith, ne))),
    )

-- After dir_remove, under the conditions of dir_remove-Lists, dir_lookup of any other name returns
-- what it returned before; if the name stood nowhere else, dir_lookup of it returns -1.
pub dir_lookup-dir_remove :
    (disk : Bytes) (n : Inode) (name : List ℕ) (k : ℕ)
    → DirectoryAt disk n.inum n
    → Owns disk n
    → IsStruct n
    → str_eq name dot ≡ false
    → str_eq name dot_dot ≡ false
    → index_of (λ e. str_eq e.name name) (slots disk n) ≡ some k
    → 0 < free_blocks disk
    → (after : Bytes) × (dir_remove n.inum (some name) disk ≡ (some tt, after))
      × ((other : List ℕ)
          → str_eq name other ≡ false
          → dir_lookup n.inum (some other) after ≡ dir_lookup n.inum (some other) disk)
      × (((j : ℕ) → j ≢ k → is_entry name (get_or (slots disk n) j blank_entry) ≡ false)
          → dir_lookup n.inum (some name) after ≡ minus_one)
dir_lookup-dir_remove disk n name k at o v not_dot not_dots found free =
    let (after, run, l) = dir_remove-Lists disk n name k at o v not_dot not_dots found free in
    (
      after,
      run,
      λ other ne.
          rw
            (
              dir_lookup_lem after n.inum n other l.at,
              l.entries,
              dir_lookup_lem disk n.inum n other at,
            )
            (lookup_in-set name other (slots disk n) k found ne),
      λ alone.
          rw (dir_lookup_lem after n.inum n name l.at, l.entries)
            (lookup_in-gone name (slots disk n) k alone),
    )
