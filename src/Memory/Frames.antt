-- ===== src/Memory/Frames.antt =====
-- memory/frame_store.c: the lines of the programs in memory, by frames of three.
pub mod Store
pub mod Vacancies
use pico_shell.Base.{
  List, Option, Ptr, and_then, get_or, if◌then◌else◌, length, ltb, minus_one, none, replicate, set,
  slt, some, suc, zero, ℕ, ◌*◌, ◌+◌, ◌||◌,
}
use pico_shell.Memory.Lru.{num_frames}
use pico_shell.Memory.Variables.{is_free}

abbrev pub frame_size : ℕ
frame_size = 3

abbrev pub frame_store_size : ℕ
frame_store_size = 300

-- `pcb` is the address of a process.
pub record FrameEntry : Type 0 where
  pub page : ℕ
  pub pcb : Ptr ℕ

pub record FrameStore : Type 0 where
  pub memory : List (Ptr (List ℕ))
  pub frame_table : List FrameEntry

abbrev pub fstore_init : FrameStore
fstore_init = record {
  memory = replicate frame_store_size none;
  frame_table = replicate num_frames (record { page = minus_one; pcb = none });
}

-- the rounds left of the search, from a frame on
unfoldable pub find_frame : List (Ptr (List ℕ)) → ℕ → ℕ → Option ℕ
unfolding is_free
find_frame memory zero frame = none
find_frame memory (suc left) frame =
    let rest = find_frame memory left (frame + 1) in
    if is_free (get_or memory (frame * frame_size) none) then some frame else rest

-- `none` for -1
unfoldable pub fstore_find_available_frame : FrameStore → Option ℕ
unfolding find_frame
fstore_find_available_frame s = find_frame s.memory num_frames 0

-- the string or NULL; `none` for an address outside the array, which the code does not check
unfoldable pub fstore_get : FrameStore → ℕ → Option (Ptr (List ℕ))
fstore_get s address =
    if ltb address (length s.memory) then some (get_or s.memory address none) else none

-- The address is an int. `none` where the write is outside the array.
unfoldable pub fstore_set : FrameStore → List ℕ → ℕ → Option FrameStore
fstore_set s value_in address =
    if slt address 0 || slt frame_store_size address
    then some s
    else if ltb address (length s.memory)
    then some (record s { memory = set s.memory address (some value_in) })
    else none

-- the rounds left of the loop that frees the lines, from an address on
unfoldable pub clear_lines : List (Ptr (List ℕ)) → ℕ → ℕ → Option (List (Ptr (List ℕ)))
clear_lines memory zero address = some memory
clear_lines memory (suc left) address =
    let rest = clear_lines (set memory address none) left (address + 1) in
    if ltb address (length memory) then rest else none

unfoldable pub fstore_evict_frame : FrameStore → ℕ → Option FrameStore
unfolding clear_lines
fstore_evict_frame s frame =
    and_then (clear_lines s.memory frame_size (frame * frame_size))
      λ memory. some (record s { memory = memory })
