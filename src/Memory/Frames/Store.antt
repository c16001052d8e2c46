-- ===== src/Memory/Frames/Store.antt =====
-- The frame store as an array of lines.
use pico_shell.Base.{
  Bool, Bool-cases, List, Option, Ptr, ap, arith, false, get_or, get_or-set_ne, get_or-set_self,
  if◌then◌else◌, inl, inr, leb, length, length-set, ltb, none, refl, set, some, subst, suc, sym,
  true, zero, ℕ, ◌&&◌, ◌*◌, ◌+◌, ◌<◌, ◌==◌, ◌^◌, ◌∙◌, ◌≡◌, ◌≢◌, ◌≤◌,
}
use pico_shell.Memory.Frames.{
  FrameStore, clear_lines, find_frame, frame_size, frame_store_size, fstore_evict_frame,
  fstore_find_available_frame, fstore_get, fstore_set,
}
use pico_shell.Memory.Lru.{num_frames}
use pico_shell.Memory.Variables.{is_free}

-- the first line of the frame is NULL
abbrev pub vacant : FrameStore → ℕ → Bool
vacant s frame = is_free (get_or s.memory (frame * frame_size) none)

-- What a search of the frames from one up to another returns: the first vacant one, or -1 if none is.
unfoldable pub IsFirstVacant : FrameStore → ℕ → ℕ → Option ℕ → Type 0
IsFirstVacant s lo limit none = (q : ℕ) → lo ≤ q → q < limit → vacant s q ≡ false
IsFirstVacant s lo limit (some p) =
    (lo ≤ p) × (p < limit) × (vacant s p ≡ true) × ((q : ℕ) → lo ≤ q → q < p → vacant s q ≡ false)

taken_from :
    (s : FrameStore) (lo top : ℕ)
    → vacant s lo ≡ false
    → ((q : ℕ) → lo + 1 ≤ q → q < top → vacant s q ≡ false)
    → (q : ℕ) → lo ≤ q
    → q < top
    → vacant s q ≡ false
taken_from s lo top h f q a b = elim (Bool-cases (q == lo)) [
  | inl e ↦ let same : q ≡ lo = ground (arith, e) in ap (vacant s) same ∙ h
  | inr e ↦ f q (ground (arith, e)) b
]

after_taken :
    (s : FrameStore) (lo limit : ℕ) (r : Option ℕ)
    → vacant s lo ≡ false
    → IsFirstVacant s (lo + 1) limit r
    → IsFirstVacant s lo limit r
unfolding IsFirstVacant
after_taken s lo limit none h f = taken_from s lo limit h f
after_taken s lo limit (some p) h (above, below, free, rest) =
    (omega arith, below, free, taken_from s lo p h rest)

find_frame-IsFirstVacant :
    (s : FrameStore) (left lo : ℕ) → IsFirstVacant s lo (lo + left) (find_frame s.memory left lo)
unfolding find_frame IsFirstVacant
find_frame-IsFirstVacant s zero lo = λ q a b. absurd (omega arith)
find_frame-IsFirstVacant s (suc left) lo = elim (Bool-cases (vacant s lo)) [
  | inl e ↦ rw e (omega arith, omega arith, e, λ q a b. absurd (omega arith))
  | inr e ↦ rw e (
      after_taken s lo (lo + suc left) (find_frame s.memory left (lo + 1)) e (
        subst (λ m. IsFirstVacant s (lo + 1) m (find_frame s.memory left (lo + 1))) (omega arith)
          (find_frame-IsFirstVacant s left (lo + 1))))
]

-- fstore_find_available_frame returns the first frame whose first line is NULL, and -1 only if there
-- is none.
pub fstore_find_available_frame-IsFirstVacant :
    (s : FrameStore) → IsFirstVacant s 0 num_frames (fstore_find_available_frame s)
unfolding fstore_find_available_frame
fstore_find_available_frame-IsFirstVacant s = find_frame-IsFirstVacant s num_frames 0

pub fstore_set_in :
    (s : FrameStore) (value : List ℕ) (address : ℕ)
    → length s.memory ≡ frame_store_size
    → address < frame_store_size
    → fstore_set s value address ≡ some (record s { memory = set s.memory address (some value) })
unfolding fstore_set
fstore_set_in s value address size h = ground arith

-- fstore_set of an address of the store puts the string there: fstore_get of the address returns it,
-- of any other what it returned before, and the frame table is kept.
pub fstore_get-fstore_set :
    (s : FrameStore) (value : List ℕ) (address : ℕ)
    → length s.memory ≡ frame_store_size
    → address < frame_store_size
    → (s' : FrameStore) × (fstore_set s value address ≡ some s')
      × (fstore_get s' address ≡ some (some value))
      × ((other : ℕ) → other ≢ address → fstore_get s' other ≡ fstore_get s other)
      × (s'.frame_table ≡ s.frame_table)
unfolding fstore_set fstore_get
fstore_get-fstore_set s value address size h = (
  record s { memory = set s.memory address (some value) },
  ground arith,
  ground (
    arith,
    length-set s.memory address (some value),
    get_or-set_self s.memory address (some value) none,
  ),
  λ other ne. ground (
    arith,
    length-set s.memory address (some value),
    get_or-set_ne s.memory address other (some value) none (λ e. ne (sym e)),
  ),
  refl,
)

-- fstore_set of an address outside the store changes nothing, except for the one right behind its
-- end, which passes the test and is written outside the array.
pub fstore_set_outside :
    (s : FrameStore) (value : List ℕ) (address : ℕ)
    → length s.memory ≡ frame_store_size
    → address < 2 ^ 32
    → frame_store_size ≤ address
    → fstore_set s value address ≡ (if address == frame_store_size then none else some s)
unfolding fstore_set
fstore_set_outside s value address size h past = ground arith

pub clear_lines_lem :
    (left address : ℕ) (memory : List (Ptr (List ℕ)))
    → address + left ≤ length memory
    → (memory' : List (Ptr (List ℕ))) × (clear_lines memory left address ≡ some memory')
      × (length memory' ≡ length memory)
      × ((a : ℕ)
          → get_or memory' a none
            ≡ (if leb address a && ltb a (address + left) then none else get_or memory a none))
unfolding clear_lines
clear_lines_lem zero address memory h = (memory, refl, refl, λ a. ground arith)
clear_lines_lem (suc left) address memory h =
    let here : ltb address (length memory) ≡ true = ground arith in
    let (memory', run, size, lines) =
      clear_lines_lem left (address + 1) (set memory address none)
        (omega (arith, length-set memory address none)) in
    (
      memory',
      rw (here, run) refl,
      size ∙ length-set memory address none,
      λ a. elim (Bool-cases (a == address)) [
        | inl e ↦
            let same : a ≡ address = ground (arith, e) in
            ground (arith, lines a, same, get_or-set_self memory address none none (omega arith))
        | inr e ↦
            let other : address ≢ a = ground (arith, e) in
            ground (arith, lines a, get_or-set_ne memory address a none none other)
      ],
    )

-- fstore_evict_frame of a frame of the store sets its three lines to NULL, so that the frame is
-- vacant, and keeps every other line and the frame table.
pub fstore_evict_frame_lem :
    (s : FrameStore) (frame : ℕ)
    → length s.memory ≡ frame_store_size
    → frame < num_frames
    → (s' : FrameStore) × (fstore_evict_frame s frame ≡ some s')
      × (vacant s' frame ≡ true)
      × ((a : ℕ)
          → fstore_get s' a ≡ (
              if leb (frame * frame_size) a && ltb a (frame * frame_size + frame_size)
              then some none
              else fstore_get s a))
      × (s'.frame_table ≡ s.frame_table)
unfolding fstore_evict_frame fstore_get is_free
fstore_evict_frame_lem s frame size h =
    let (memory, run, same, lines) =
      clear_lines_lem frame_size (frame * frame_size) s.memory (omega (arith, size)) in
    (
      record s { memory = memory },
      rw run refl,
      ground (arith, lines (frame * frame_size)),
      λ a. ground (arith, lines a, same, size),
      refl,
    )
