-- ===== src/Fs/Bitmap/Update.antt =====
-- bitmap_alloc and bitmap_free set and clear one bit, and nothing else on the disk.
use pico_shell.Base.{
  Bool, Bool-cases, Bytes, arith, bit, bit-clear_bit, bit-set_bit, clear_bit, clear_bit-lt, false,
  if◌then◌else◌, inl, inr, leb, ltb, memcpy, memcpy_in, memcpy_out, memcpy_to_start, none, set_bit,
  set_bit-lt, some, store, store_ne, store_self, true, uninit, ℕ, ◌%◌, ◌&&◌, ◌*◌, ◌+◌, ◌-◌, ◌/◌,
  ◌<◌, ◌==◌, ◌≡◌, ◌≢◌,
}
use pico_shell.Fs.Bitmap.{bitmap_alloc, bitmap_free}
use pico_shell.Fs.Bitmap.Scan.{taken}
use pico_shell.Fs.Block.Access.{address, block_read_in, block_write_in}
use pico_shell.Fs.Disk.{block_size, num_blocks}
use pico_shell.Fs.Disk.Monad.{bind}

-- uint8_t: every byte of the disk is below 256.
abbrev pub IsByteDisk : Bytes → Type 0
IsByteDisk disk = (a : ℕ) → disk a < 256

-- A read, modify and write of one byte of a block.
module _ (bnum ix v : ℕ) (disk : Bytes) (hb : bnum < num_blocks) where
  abbrev loaded : Bytes
  loaded = memcpy uninit 0 disk (bnum * block_size) block_size

  abbrev written : Bytes
  written = memcpy disk (bnum * block_size) (store loaded ix v) 0 block_size

  pub written_self : ix < block_size → written (address bnum ix) ≡ v
  written_self h = ground (
    arith,
    memcpy_in disk (bnum * block_size) (store loaded ix v) 0 block_size (address bnum ix),
    store_self loaded ix v,
  )

  pub written_ne : (a : ℕ) → ix < block_size → a ≢ address bnum ix → written a ≡ disk a
  written_ne a h ne =
      elim (Bool-cases (leb (bnum * block_size) a && ltb a (bnum * block_size + block_size))) [
        | inl inside ↦ ground (
          arith,
          memcpy_in disk (bnum * block_size) (store loaded ix v) 0 block_size a,
          store_ne loaded ix v (a - bnum * block_size),
          memcpy_to_start uninit disk (bnum * block_size) block_size (a - bnum * block_size),
        )
        | inr outside ↦
            ground (arith, memcpy_out disk (bnum * block_size) (store loaded ix v) 0 block_size a)
      ]

-- After the update the bit of position `offset` of block `bnum` is `b`, every other bit of that
-- bitmap is as it was, and so is every byte of the disk but the one that holds the bit.
pub record Marks (bnum offset : ℕ) (b : Bool) (before after : Bytes) : Type 0 where
  pub bits :
      (q : ℕ)
      → q < 8 * block_size
      → taken bnum after q ≡ (if offset == q then b else taken bnum before q)
  pub frame : (a : ℕ) → a ≢ address bnum (offset / 8) → after a ≡ before a
  pub bytes : IsByteDisk after

module _ (bnum offset v : ℕ) (b : Bool) (disk : Bytes) (hb : bnum < num_blocks)
    (ho : offset < 8 * block_size) (byte : IsByteDisk disk) (small : v < 256)
    (bits : (k : ℕ)
      → k < 8
      → bit v k ≡ (if offset % 8 == k then b else bit (disk (address bnum (offset / 8))) k)) where
  written-bits :
      (q : ℕ)
      → q < 8 * block_size
      → taken bnum (written bnum (offset / 8) v disk hb) q
        ≡ (if offset == q then b else taken bnum disk q)
  written-bits q hq = elim (Bool-cases (q / 8 == offset / 8)) [
    | inl e ↦ ground (arith, written_self bnum (offset / 8) v disk hb, bits (q % 8))
    | inr ne ↦ ground (arith, written_ne bnum (offset / 8) v disk hb (address bnum (q / 8)))
  ]

  written-Marks : Marks bnum offset b disk (written bnum (offset / 8) v disk hb)
  written-Marks = record {
    bits = written-bits;
    frame = λ a ne. written_ne bnum (offset / 8) v disk hb a (omega arith) ne;
    bytes = λ a. elim (Bool-cases (a == address bnum (offset / 8))) [
      | inl e ↦ ground (arith, written_self bnum (offset / 8) v disk hb)
      | inr ne ↦ ground (arith, written_ne bnum (offset / 8) v disk hb a, byte a)
    ];
  }

module _ (bnum offset : ℕ) (disk : Bytes) (hb : bnum < num_blocks)
    (ho : offset < 8 * block_size) where
  -- what the read of the byte returns
  loaded_byte : loaded bnum (offset / 8) 0 disk hb (offset / 8) ≡ disk (address bnum (offset / 8))
  loaded_byte =
      memcpy_to_start uninit disk (bnum * block_size) block_size (offset / 8) (omega arith)

  -- bitmap_alloc fails on a taken bit, and leaves the disk as it was.
  pub bitmap_alloc-taken :
      taken bnum disk offset ≡ true → bitmap_alloc bnum offset disk ≡ (none, disk)
  unfolding bitmap_alloc
  bitmap_alloc-taken h = rw (block_read_in uninit bnum disk hb, bind, loaded_byte, h)

  -- bitmap_free fails on a free bit, and leaves the disk as it was.
  pub bitmap_free_free :
      taken bnum disk offset ≡ false → bitmap_free bnum offset disk ≡ (none, disk)
  unfolding bitmap_free
  bitmap_free_free h = rw (block_read_in uninit bnum disk hb, bind, loaded_byte, h)

  module _ (byte : IsByteDisk disk) where
    -- bitmap_alloc of a free bit succeeds, and sets that bit only.
    pub bitmap_alloc_free :
        taken bnum disk offset ≡ false
        → (after : Bytes) × (bitmap_alloc bnum offset disk ≡ (some tt, after))
          × Marks bnum offset true disk after
    unfolding bitmap_alloc
    bitmap_alloc_free h =
        let old = disk (address bnum (offset / 8)) in
        (
          written bnum (offset / 8) (set_bit old (offset % 8)) disk hb,
          rw (
            block_read_in uninit bnum disk hb,
            bind,
            loaded_byte,
            h,
            block_write_in _ bnum disk hb,
          ),
          written-Marks bnum offset _ true disk hb ho byte (set_bit-lt old _ (byte _) (omega arith))
              (λ k hk. ground (arith, bit-set_bit old (offset % 8) (byte _) (omega arith) k)),
        )

    -- bitmap_free of a taken bit succeeds, and clears that bit only.
    pub bitmap_free-taken :
        taken bnum disk offset ≡ true
        → (after : Bytes) × (bitmap_free bnum offset disk ≡ (some tt, after))
          × Marks bnum offset false disk after
    unfolding bitmap_free
    bitmap_free-taken h =
        let old = disk (address bnum (offset / 8)) in
        (
          written bnum (offset / 8) (clear_bit old (offset % 8)) disk hb,
          rw (
            block_read_in uninit bnum disk hb,
            bind,
            loaded_byte,
            h,
            block_write_in _ bnum disk hb,
          ),
          written-Marks bnum offset _ false disk hb ho byte
              (clear_bit-lt old _ (byte _) (omega arith))
              (λ k hk. ground (arith, bit-clear_bit old (offset % 8) (byte _) (omega arith) k)),
        )
