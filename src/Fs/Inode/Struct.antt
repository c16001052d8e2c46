-- ===== src/Fs/Inode/Struct.antt =====
-- An inode in memory: what put_inode lays out, load_inode reads back.
use pico_shell.Base.{
  Bytes, ap, arith, bytes_of, get_or, length, memcpy, memcpy_in, suc, sym, word_at,
  word_at-bytes_of, word_at-congr, words_at, words_at-congr, words_at-eq, ℕ, ◌*◌, ◌+◌, ◌<◌, ◌^◌,
  ◌∙◌, ◌≡◌, ◌≤◌,
}
use pico_shell.Fs.Inode.{Inode, inode_size, inode_word, load_inode, ndirect, put_inode}

-- Every word of the struct is a 32-bit pattern, and there are `ndirect` pointers.
pub record IsStruct (n : Inode) : Type 0 where
  pub words : (k : ℕ) → k < 16 → inode_word n k < 2 ^ 32
  pub pointers : length n.addrs ≡ ndirect

pub load_inode-congr :
    (b b' : Bytes) (a a' : ℕ)
    → ((i : ℕ) → i < inode_size → b (a + i) ≡ b' (a' + i))
    → load_inode b a ≡ load_inode b' a'
unfolding load_inode
load_inode-congr b b' a a' h = ground (
  arith,
  word 0 (omega arith),
  word 4 (omega arith),
  word 8 (omega arith),
  word 12 (omega arith),
  words_at-congr ndirect b b' (a + 16) (a' + 16) (λ j hj. ground (arith, h (16 + j))),
)
  where
    word : (k : ℕ) → k ≤ 60 → word_at b (a + k) ≡ word_at b' (a' + k)
    word k hk = word_at-congr b b' (a + k) (a' + k) (λ j hj. ground (arith, h (k + j)))

module _ (block : Bytes) (at : ℕ) (n : Inode) (v : IsStruct n) where
  word_at-put_inode :
      (k : ℕ) → k < 16 → word_at (put_inode block at n) (at + 4 * k) ≡ inode_word n k
  unfolding put_inode
  word_at-put_inode k hk =
      word_at-congr (memcpy block at words 0 inode_size) words (at + 4 * k) (4 * k)
        (λ i hi. ground (arith, memcpy_in block at words 0 inode_size (at + 4 * k + i)))
      ∙ word_at-bytes_of (inode_word n) k (v.words k hk)
    where
      words : Bytes
      words = bytes_of (inode_word n)

  -- A struct that was copied to an offset is read back from there.
  pub load_inode-put_inode : load_inode (put_inode block at n) at ≡ n
  unfolding load_inode inode_word
  load_inode-put_inode = ground (
    arith,
    word_at-put_inode 0,
    word_at-put_inode 1,
    word_at-put_inode 2,
    word_at-put_inode 3,
    pointers,
  )
    where
      pointer :
          (i : ℕ)
          → i < length n.addrs
          → word_at (put_inode block at n) (at + 16 + 4 * i) ≡ get_or n.addrs i 0
      pointer i hi = ground (arith, word_at-put_inode (suc (suc (suc (suc i)))), v.pointers)

      pointers : words_at (put_inode block at n) (at + 16) ndirect ≡ n.addrs
      pointers =
          ap (words_at (put_inode block at n) (at + 16)) (sym v.pointers)
          ∙ words_at-eq n.addrs (put_inode block at n) (at + 16) pointer
