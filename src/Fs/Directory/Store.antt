-- ===== src/Fs/Directory/Store.antt =====
-- An entry in memory: what put_dirent lays out, load_dirent reads back.
use pico_shell.Base.{
  Bool-cases, Bytes, List, [], ap, arith, get_or, inl, inr, length, ltb, not, refl, suc, word_at,
  word_byte, word_byte-lt, zero, ℕ, ◌+◌, ◌-◌, ◌<◌, ◌==◌, ◌^◌, ◌∙◌, ◌∷◌, ◌≡◌, ◌≤◌,
}
use pico_shell.Fs.Directory.Entry.{Dirent, load_dirent, max_filename_len, put_dirent, string_at}

-- A name that fits the array with its terminator.
pub record IsName (name : List ℕ) : Type 0 where
  pub short : length name < max_filename_len
  pub chars : (i : ℕ) → i < length name → (0 < get_or name i 0) × (get_or name i 0 < 256)

string_at-eq :
    (l : List ℕ) (b : Bytes) (a m : ℕ)
    → length l < m
    → ((i : ℕ) → i < length l → (0 < get_or l i 0) × (b (a + i) ≡ get_or l i 0))
    → b (a + length l) ≡ 0
    → string_at b a m ≡ l
unfolding string_at
string_at-eq l b a zero h same end = absurd (omega arith)
string_at-eq [] b a (suc m) h same end = ground arith
string_at-eq (x ∷ l) b a (suc m) h same end = ground (
  arith,
  same 0 (omega arith),
  string_at-eq l b (a + 1) m (omega arith) (λ i hi. ground (arith, same (suc i) (omega arith)))
      (ground arith),
)

get_or_past : (l : List ℕ) (i : ℕ) → length l ≤ i → get_or l i 0 ≡ 0
get_or_past [] i h = refl
get_or_past (x ∷ l) zero h = absurd (omega arith)
get_or_past (x ∷ l) (suc i) h = get_or_past l i (omega arith)

module _ (e : Dirent) (v : IsName e.name) where
  put-char : (i : ℕ) → i ≤ length e.name → put_dirent e (1 + i) ≡ get_or e.name i 0
  unfolding put_dirent
  put-char i h =
      ground
        (arith, v.short, ap (λ k. get_or e.name k 0) (let q : 1 + i - 1 ≡ i = omega arith in q))

  put-name : string_at (put_dirent e) 1 max_filename_len ≡ e.name
  put-name =
      string_at-eq e.name (put_dirent e) 1 max_filename_len v.short
        (λ i hi. ((v.chars i hi).0, put-char i (omega arith)))
        (put-char (length e.name) (omega arith) ∙ get_or_past e.name (length e.name) (omega arith))

  put-valid : not (put_dirent e 0 == 0) ≡ e.valid
  unfolding put_dirent
  put-valid = ground arith

  put-inum : e.inum < 2 ^ 32 → word_at (put_dirent e) 60 ≡ e.inum
  unfolding put_dirent word_at word_byte
  put-inum h = ground arith

  pub load_dirent-put_dirent : e.inum < 2 ^ 32 → load_dirent (put_dirent e) ≡ e
  unfolding load_dirent
  load_dirent-put_dirent h = ground (arith, put-name, put-valid, put-inum h)

  pub put_dirent-lt : (i : ℕ) → put_dirent e i < 256
  unfolding put_dirent
  put_dirent-lt i = elim (Bool-cases (ltb (i - 1) (length e.name))) [
    | inl inside ↦ ground (arith, v.chars (i - 1), word_byte-lt e.inum (i - 60))
    | inr past ↦ ground (arith, get_or_past e.name (i - 1), word_byte-lt e.inum (i - 60))
  ]
