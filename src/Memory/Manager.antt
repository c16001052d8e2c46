-- ===== src/Memory/Manager.antt =====
-- memory/memory.c and `struct PCB` of scheduling/pcb.h: frames, page tables and the order of use.
pub mod Paging
pub mod Invariant
pub mod Load
pub mod Evict
use pico_shell.Base.{
  Bool, List, Option, Ptr, [], and_then, get_or, if◌then◌else◌, length, ltb, minus_one, mul32, none,
  not, set, slt, some, suc, zero, ℕ, ◌&&◌, ◌*◌, ◌+◌, ◌==◌, ◌||◌,
}
use pico_shell.Memory.Frames.{
  FrameEntry, FrameStore, frame_size, fstore_evict_frame, fstore_find_available_frame, fstore_set,
}
use pico_shell.Memory.Lru.{Lru, access_frame}
use pico_shell.Memory.Variables.{VarEntry, is_free}

abbrev pub max_file_lines : ℕ
max_file_lines = 100

abbrev pub max_page_table_size : ℕ
max_page_table_size = 34

-- `next` is the address of a process.
pub record Pcb : Type 0 where
  pub pid : ℕ
  pub filename : Ptr (List ℕ)
  pub file_contents : List (List ℕ)
  pub file_length : ℕ
  pub page_table : List ℕ
  pub program_counter : ℕ
  pub job_score : ℕ
  pub next : Ptr ℕ

-- what `mem` points to, the list of lru.c, and the processes in memory by their addresses
pub record MemState : Type 0 where
  pub vstore : List VarEntry
  pub fstore : FrameStore
  pub lru : Lru
  pub process : ℕ → Pcb

unfoldable pub set_process : (ℕ → Pcb) → ℕ → Pcb → ℕ → Pcb
set_process process at pcb a = if a == at then pcb else process a

-- The rounds left of the loop over the lines of a page, from an offset on. `none` where the code
-- leaves an array.
unfoldable pub copy_lines : List (List ℕ) → ℕ → ℕ → ℕ → ℕ → ℕ → FrameStore → Option FrameStore
copy_lines contents file_length page frame zero offset s = some s
copy_lines contents file_length page frame (suc left) offset s =
    let line = page * frame_size + offset in
    let address = frame * frame_size + offset in
    let skip = copy_lines contents file_length page frame left (offset + 1) s in
    let copied =
      and_then (fstore_set s (get_or contents line []) address)
        λ s'. copy_lines contents file_length page frame left (offset + 1) s' in
    if ltb line file_length then (if ltb line (length contents) then copied else none) else skip

-- the frame table, the page table of the process at `at`, and the order of use, updated
unfoldable pub entered : MemState → ℕ → ℕ → ℕ → FrameStore → Lru → MemState
unfolding set_process
entered s at page frame fstore lru =
    let pcb = s.process at in
    let pcb' = record pcb { page_table = set pcb.page_table page frame } in
    let entry : FrameEntry = record { page = page; pcb = some at } in
    record s {
      fstore = record fstore { frame_table = set fstore.frame_table frame entry };
      lru = lru;
      process = set_process s.process at pcb';
    }

-- what follows the copy
unfoldable pub enter_page : MemState → ℕ → ℕ → ℕ → FrameStore → Option MemState
unfolding entered
enter_page s at page frame fstore =
    if not (ltb frame (length fstore.frame_table) && ltb page (length (s.process at).page_table))
    then none
    else and_then (access_frame frame s.lru) λ lru. some (entered s at page frame fstore lru)

unfoldable pub mem_load_page_into_frame : MemState → ℕ → ℕ → ℕ → Option MemState
unfolding copy_lines enter_page
mem_load_page_into_frame s at page frame =
    let pcb = s.process at in
    if slt page 0 || not (slt (mul32 page frame_size) pcb.file_length)
    then some s
    else and_then (copy_lines pcb.file_contents pcb.file_length page frame frame_size 0 s.fstore)
        (enter_page s at page frame)

abbrev pub mem_find_available_frame : MemState → Option ℕ
mem_find_available_frame s = fstore_find_available_frame s.fstore

abbrev pub vacant_entry : FrameEntry
vacant_entry = record { page = minus_one; pcb = none }

-- A process that was made and is not freed: freeing it ends its name.
abbrev pub is_allocated : Pcb → Bool
is_allocated pcb = not (is_free pcb.filename)

-- The page table of the frame's owner and the frame's entry, after the eviction. The write is
-- undefined where the owner is freed.
unfoldable pub leave_page : MemState → ℕ → FrameStore → FrameEntry → Ptr ℕ → Option MemState
unfolding set_process is_free
leave_page s frame fstore entry none = none
leave_page s frame fstore entry (some at) =
    let pcb = s.process at in
    if is_allocated pcb && ltb entry.page (length pcb.page_table)
    then some (record s {
      fstore = record fstore { frame_table = set fstore.frame_table frame vacant_entry };
      process =
          set_process s.process at
            (record pcb { page_table = set pcb.page_table entry.page minus_one });
    })
    else none

unfoldable pub mem_free_memory_frame : MemState → ℕ → Option MemState
unfolding leave_page
mem_free_memory_frame s frame = and_then (fstore_evict_frame s.fstore frame) λ fstore.
    let entry = get_or fstore.frame_table frame vacant_entry in
    leave_page s frame fstore entry entry.pcb
