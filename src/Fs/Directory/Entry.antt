-- ===== src/Fs/Directory/Entry.antt =====
-- `struct dirent` of fs/directory.h, and its 64 bytes: a bool, 59 characters, an int.
use pico_shell.Base.{
  Bool, Bytes, List, [], get_or, if◌then◌else◌, ltb, not, suc, word_at, word_byte, zero, ℕ, ◌+◌,
  ◌-◌, ◌==◌, ◌∷◌,
}

-- The name is the C string in the array: the characters before the first zero.
pub record Dirent : Type 0 where
  pub valid : Bool
  pub name : List ℕ
  pub inum : ℕ

abbrev pub max_filename_len : ℕ
max_filename_len = 59

-- the C string that begins at an offset, in an array of the given size
unfoldable pub string_at : Bytes → ℕ → ℕ → List ℕ
string_at b a zero = []
string_at b a (suc size) =
    let rest = string_at b (a + 1) size in if b a == 0 then [] else b a ∷ rest

-- The characters behind the string are zeros; no code reads them.
unfoldable pub put_dirent : Dirent → Bytes
put_dirent e i =
    if i == 0
    then (if e.valid then 1 else 0)
    else if ltb i 60
    then get_or e.name (i - 1) 0
    else word_byte e.inum (i - 60)

unfoldable pub load_dirent : Bytes → Dirent
unfolding string_at
load_dirent b = record {
  valid = not (b 0 == 0);
  name = string_at b 1 max_filename_len;
  inum = word_at b 60;
}

-- `memset(&dirent, 0, sizeof(dirent))`
abbrev pub zero_dirent : Bytes
zero_dirent _ = 0

-- "." and ".."
abbrev pub dot : List ℕ
dot = b'.' ∷ []

abbrev pub dot_dot : List ℕ
dot_dot = b'.' ∷ b'.' ∷ []
