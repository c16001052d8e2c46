-- ===== src/Fs/File/Datamap.antt =====
-- inode_datamap: a hole of the file gets a fresh block of zeros, and the content stays the same.
use pico_shell.Base.{
  ==_iff, Bool-cases, Bytes, ap, arith, get_or, get_or-set_ne, get_or-set_self, inl, inr,
  length-set, minus_one, refl, set, sym, true, ℕ, ◌%◌, ◌/◌, ◌<◌, ◌==◌, ◌∙◌, ◌≡◌, ◌≢◌, ◌⊎◌,
}
use pico_shell.Fs.Bitmap.{num_data_blocks}
use pico_shell.Fs.Bitmap.Scan.{taken}
use pico_shell.Fs.Block.Access.{address}
use pico_shell.Fs.Data.{data_bitmap_block, dblock}
use pico_shell.Fs.Data.Alloc.{DataAllocates}
use pico_shell.Fs.Disk.{block_size}
use pico_shell.Fs.File.{max_file_size}
use pico_shell.Fs.File.Content.{Owns, file_byte, file_byte_hole, file_byte_mapped, pointer}
use pico_shell.Fs.File.Effect.{Foreign, Writes}
use pico_shell.Fs.Inode.{Inode, ndirect}

module _ (disk : Bytes) (n : Inode) (o : Owns disk n) (k : ℕ) (hk : k < ndirect)
    (hole : get_or n.addrs k 0 ≡ minus_one) (p : ℕ) (after : Bytes)
    (a : DataAllocates disk p after) where
  abbrev mapped : Inode
  mapped = record n { addrs = set n.addrs k p }

  fresh-ne : (d : ℕ) → taken data_bitmap_block disk d ≡ true → p ≢ d
  fresh-ne d used e = absurd (ground (arith, a.first, used))

  at_k : get_or mapped.addrs k 0 ≡ p
  at_k = get_or-set_self n.addrs k p 0 (omega (arith, o.pointers))

  at_other : (j : ℕ) → k ≢ j → get_or mapped.addrs j 0 ≡ get_or n.addrs j 0
  at_other j ne = get_or-set_ne n.addrs k j p 0 ne

  still_taken :
      (d : ℕ)
      → d < num_data_blocks
      → taken data_bitmap_block disk d ≡ true
      → taken data_bitmap_block after d ≡ true
  still_taken d hd used = ground (arith, a.bits d (omega arith))

  fresh_taken : taken data_bitmap_block after p ≡ true
  fresh_taken = ground (arith, a.bits p (omega (arith, a.first)))

  mapped-allocated :
      (j : ℕ)
      → j < ndirect
      → (get_or mapped.addrs j 0 ≡ minus_one)
        ⊎ ((get_or mapped.addrs j 0 < num_data_blocks)
            × (taken data_bitmap_block after (get_or mapped.addrs j 0) ≡ true))
  mapped-allocated j hj = elim (Bool-cases (k == j)) [
    | inl e ↦ rw (← (==_iff k j).0 e, at_k) (inr (a.first.1, fresh_taken))
    | inr ne ↦ rw (at_other j (ground arith)) (elim (o.allocated j hj) [
      | inl h ↦ inl h
      | inr own ↦ inr (own.0, still_taken _ own.0 own.1)
    ])
  ]

  -- an old pointer is not the new block
  old-ne : (j : ℕ) → j < ndirect → get_or n.addrs j 0 ≢ p
  old-ne j hj e = elim (o.allocated j hj) [
    | inl h ↦ absurd (omega (arith, a.first))
    | inr own ↦ fresh-ne _ own.1 (sym e)
  ]

  mapped-distinct :
      (i j : ℕ)
      → i < ndirect
      → j < ndirect
      → i ≢ j
      → get_or mapped.addrs i 0 ≢ minus_one
      → get_or mapped.addrs i 0 ≢ get_or mapped.addrs j 0
  mapped-distinct i j hi hj ne some_i e = elim (Bool-cases (k == i)) [
    | inl ki ↦ old-ne j hj (ground (arith, at_k, at_other j (ground arith), e))
    | inr ni ↦ elim (Bool-cases (k == j)) [
      | inl kj ↦ old-ne i hi (ground (arith, at_k, at_other i (ground arith), e))
      | inr nj ↦
          o.distinct i j hi hj ne (ground (arith, at_other i (ground arith), some_i))
            (ground (arith, at_other i (ground arith), at_other j (ground arith), e))
    ]
  ]

  -- the bytes of the new block
  mapped-fresh : (i : ℕ) → k ≡ i / block_size → file_byte after mapped i ≡ file_byte disk n i
  mapped-fresh i e =
      file_byte_mapped after mapped i (omega (arith, here, a.first))
      ∙ ap after (omega (arith, here))
      ∙ a.zeroed (i % block_size) (omega arith)
      ∙ sym (file_byte_hole disk n i (ap (λ q. get_or n.addrs q 0) (sym e) ∙ hole))
    where
      here : pointer mapped i ≡ p
      here = ap (λ q. get_or mapped.addrs q 0) (sym e) ∙ at_k

  -- the bytes of the other blocks
  mapped-old :
      (i : ℕ)
      → i < max_file_size
      → k ≢ i / block_size
      → file_byte after mapped i ≡ file_byte disk n i
  mapped-old i hi ne = elim (o.allocated (i / block_size) (omega arith)) [
    | inl h ↦ file_byte_hole after mapped i (same ∙ h) ∙ sym (file_byte_hole disk n i h)
    | inr own ↦
        file_byte_mapped after mapped i (omega (arith, same, own.0))
        ∙ ap after (omega (arith, same))
        ∙ a.rest (dblock (pointer n i)) (i % block_size) (omega arith)
            (λ e. fresh-ne _ own.1 (omega arith)) (omega arith)
        ∙ sym (file_byte_mapped disk n i own.0)
  ]
    where
      same : pointer mapped i ≡ pointer n i
      same = at_other (i / block_size) ne

  mapped-holds : (i : ℕ) → i < max_file_size → file_byte after mapped i ≡ file_byte disk n i
  mapped-holds i hi = elim (Bool-cases (k == i / block_size)) [
    | inl e ↦ mapped-fresh i ((==_iff k (i / block_size)).0 e)
    | inr ne ↦ mapped-old i hi (ground arith)
  ]

  mapped-Foreign : (b : ℕ) → Foreign disk n b → Foreign after mapped b
  mapped-Foreign b (inl f) = inl f
  mapped-Foreign b (inr (d, e, lt, used, other)) = inr (
    d,
    e,
    lt,
    still_taken d lt used,
    λ j hj. elim (Bool-cases (k == j)) [
      | inl kj ↦ rw (← (==_iff k j).0 kj, at_k) (fresh-ne d used)
      | inr nj ↦ rw (at_other j (ground arith)) (other j hj)
    ],
  )

  mapped-frame :
      (b i : ℕ) → Foreign disk n b → i < block_size → after (address b i) ≡ disk (address b i)
  mapped-frame b i (inl f) hi = a.rest b i hi (omega arith) f.1
  mapped-frame b i (inr (d, e, lt, used, other)) hi =
      a.rest b i hi (λ e'. fresh-ne d used (omega arith)) (omega arith)

  pub mapped-Writes : Writes disk n after mapped (file_byte disk n)
  mapped-Writes = record {
    owns = record {
      pointers = length-set n.addrs k p ∙ o.pointers;
      allocated = mapped-allocated;
      distinct = mapped-distinct;
      bytes = a.bytes;
    };
    keeps = refl;
    holds = mapped-holds;
    grows = λ j hj h. at_other j (λ e. absurd (ground (arith, e)));
    foreign = mapped-Foreign;
    frame = mapped-frame;
  }
