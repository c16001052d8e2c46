-- ===== src/Scheduling/Scheduler.antt =====
-- scheduling/scheduler.c: the policies. `parse` is parseInput, which runs a line.
pub mod Fault
pub mod Line
pub mod Steps
pub mod Process
pub mod Pages
pub mod Completion
pub mod Tasks
pub mod Turns
pub mod Fcfs
pub mod Sjf
use pico_shell.Base.{
  Bool, List, Option, Ptr, [], add32, and_then, codes, get_or, if◌then◌else◌, length, ltb,
  minus_one, none, not, slt, some, suc, zero, ℕ, ◌%◌, ◌*◌, ◌+◌, ◌/◌, ◌==◌, ◌∷◌,
}
use pico_shell.Memory.Frames.{frame_size, fstore_get}
use pico_shell.Memory.Lru.{access_frame, get_lru_frame}
use pico_shell.Memory.Manager.{
  Pcb, mem_find_available_frame, mem_free_memory_frame, mem_load_page_into_frame,
}
use pico_shell.Scheduling.Process.{pcb_deinit, process_at, put_process}
use pico_shell.Scheduling.Queue.{age_ready_queue, append_process, appendleft_process, pop_process}
use pico_shell.Scheduling.Queue.Sort.{sort_ready_queue}
use pico_shell.System.{
  Host, M, System, faults, gets, on_memory, on_queue, or_faults, prints, puts, queue_of, ret, spent,
  with_queue, ◌>>=◌, ◌>>◌,
}

-- `content[strcspn(content, "\n")] = '\0'`, or the text for NULL
unfoldable pub first_line : List ℕ → List ℕ
first_line [] = []
first_line (c ∷ content) = let rest = first_line content in if c == 10 then [] else c ∷ rest

unfoldable pub content_line : Ptr (List ℕ) → List ℕ
unfolding first_line
content_line none = codes "NULL"
content_line (some content) = first_line content

-- the rounds left of the loop that prints the victim
unfoldable pub print_page : ℕ → ℕ → M (Unit {0})
unfolding content_line fstore_get
print_page zero address = ret tt
print_page (suc left) address = do
  mem ← gets λ s. s.mem
  content ← or_faults (fstore_get mem.fstore address)
  prints (content_line content)
  print_page left (address + 1)

unfoldable pub evict : ℕ → ℕ → ℕ → M (Unit {0})
unfolding print_page
evict at page victim = do
  prints (codes "Page fault! Victim page contents:")
  prints []
  print_page frame_size (victim * frame_size)
  prints []
  prints (codes "End of victim page contents.")
  on_memory λ mem. mem_free_memory_frame mem victim
  on_memory λ mem. mem_load_page_into_frame mem at page victim

-- what a page fault does with mem_find_available_frame's result; the frame is the result
unfoldable pub load_into : ℕ → ℕ → Option ℕ → M ℕ
unfolding evict
load_into at page (some frame) = do
  prints (codes "Page fault!")
  on_memory λ mem. mem_load_page_into_frame mem at page frame
  ret frame
load_into at page none = do
  mem ← gets λ s. s.mem
  victim ← or_faults (get_lru_frame mem.lru)
  evict at page victim
  ret victim

unfoldable pub handle_page_fault : ℕ → ℕ → M ℕ
unfolding load_into
handle_page_fault at page = do
  found ← gets λ s. mem_find_available_frame s.mem
  load_into at page found

-- the frame of the line that comes next, or -1; `none` outside the page table
unfoldable pub frame_of : Pcb → Option ℕ
frame_of pcb =
    let page = pcb.program_counter / frame_size in
    if ltb page (length pcb.page_table) then some (get_or pcb.page_table page minus_one) else none

-- `parseInput` of a string, or of NULL, which strtok does not take here
unfoldable pub parse_line : (List ℕ → M ℕ) → Ptr (List ℕ) → M ℕ
parse_line parse none s = faults
parse_line parse (some line) s = parse line s

-- access_frame, the line, and the next program counter
unfoldable pub run_line : (List ℕ → M ℕ) → ℕ → ℕ → M ℕ
unfolding parse_line process_at put_process fstore_get
run_line parse at frame = do
  on_memory λ mem. and_then (access_frame frame mem.lru) λ lru. some (record mem { lru = lru })
  s ← gets λ s. s
  line ← or_faults (
      fstore_get s.mem.fstore
        (frame * frame_size + (s.mem.process at).program_counter % frame_size))
  code ← parse_line parse line
  pcb ← process_at at
  put_process at (record pcb { program_counter = add32 pcb.program_counter 1 })
  ret code

-- pop_process, where the queue has a process
unfoldable pub next_process : M ℕ
next_process = do
  q ← gets queue_of
  let (popped, q') = pop_process q
  puts λ s. with_queue s q'
  or_faults popped

-- `get_process_count() > 0`
unfoldable pub is_pending : System → Bool
is_pending s = slt 0 s.process_count

-- A round of the loop of scheduler_fcfs over a process's lines, which are run from `again` on.
unfoldable pub fcfs_round : (List ℕ → M ℕ) → ℕ → (ℕ → M ℕ) → ℕ → Pcb → M ℕ
unfolding handle_page_fault run_line frame_of
fcfs_round parse at again code pcb =
    if not (slt pcb.program_counter pcb.file_length) then ret code else do
      frame ← or_faults (frame_of pcb)
      if frame == minus_one
          then (handle_page_fault at (pcb.program_counter / frame_size) >>= λ loaded. again code)
          else (run_line parse at frame >>= again)

-- the loop, for as many rounds
unfoldable pub run_process : (List ℕ → M ℕ) → ℕ → ℕ → ℕ → M ℕ
unfolding fcfs_round process_at
run_process parse zero at code s = spent
run_process parse (suc fuel) at code s =
    fcfs_round parse at (run_process parse fuel at) code (s.mem.process at) s

-- The loop over the queue, with what `errCode` holds. The result is `errCode`.
unfoldable pub fcfs_loop : (List ℕ → M ℕ) → ℕ → ℕ → M ℕ
unfolding is_pending next_process run_process pcb_deinit
fcfs_loop parse zero code s = spent
fcfs_loop parse (suc fuel) code s =
    if not (is_pending s)
    then ret code s
    else (next_process >>= λ at.
          run_process parse fuel at code >>= λ code'. pcb_deinit at >> fcfs_loop parse fuel code')
        s

-- `errCode` is not initialised.
unfoldable pub scheduler_fcfs : Host → (List ℕ → M ℕ) → ℕ → M ℕ
unfolding fcfs_loop
scheduler_fcfs host parse fuel = fcfs_loop parse fuel host.stray_int

unfoldable pub scheduler_sjf : Host → (List ℕ → M ℕ) → ℕ → M ℕ
unfolding scheduler_fcfs sort_ready_queue
scheduler_sjf host parse fuel = do on_queue sort_ready_queue; scheduler_fcfs host parse fuel

-- A round of the slice; `again` is the rest of it.
unfoldable pub slice_round : (List ℕ → M ℕ) → ℕ → (ℕ → M ℕ) → ℕ → Pcb → M ℕ
unfolding handle_page_fault run_line frame_of
slice_round parse at again code pcb =
    if pcb.program_counter == pcb.file_length then ret code else do
      frame ← or_faults (frame_of pcb)
      if frame == minus_one
          then (handle_page_fault at (pcb.program_counter / frame_size) >>= λ loaded. ret code)
          else (run_line parse at frame >>= again)

-- the rounds left of the slice
unfoldable pub run_slice : (List ℕ → M ℕ) → ℕ → ℕ → ℕ → M ℕ
unfolding slice_round
run_slice parse zero at code s = ret code s
run_slice parse (suc left) at code s =
    slice_round parse at (run_slice parse left at) code (s.mem.process at) s

-- `pcb_deinit`, or the process put back; `back` does that
unfoldable pub end_or : ℕ → M (Unit {0}) → M (Unit {0})
unfolding process_at pcb_deinit
end_or at back = do
  pcb ← process_at at
  if pcb.program_counter == pcb.file_length then pcb_deinit at else back

unfoldable pub rr_loop : (List ℕ → M ℕ) → ℕ → ℕ → ℕ → M ℕ
unfolding is_pending next_process run_slice end_or append_process
rr_loop parse time_slice zero code s = spent
rr_loop parse time_slice (suc fuel) code s =
    if not (is_pending s)
    then ret code s
    else (next_process >>= λ at. run_slice parse time_slice at code >>= λ code'.
          end_or at (on_queue λ q. append_process q at) >> rr_loop parse time_slice fuel code')
        s

unfoldable pub scheduler_rr : Host → (List ℕ → M ℕ) → ℕ → ℕ → M ℕ
unfolding rr_loop
scheduler_rr host parse fuel time_slice = rr_loop parse time_slice fuel host.stray_int

-- the line that comes next, whose page is loaded first where it is absent
unfoldable pub run_next : (List ℕ → M ℕ) → ℕ → M ℕ
unfolding handle_page_fault run_line frame_of process_at
run_next parse at = do
  pcb ← process_at at
  entry ← or_faults (frame_of pcb)
  frame ←
      if entry == minus_one
      then handle_page_fault at (pcb.program_counter / frame_size)
      else ret entry
  run_line parse at frame

-- the queue aged, the process put in front of it, and the whole sorted
unfoldable pub age_and_sort : ℕ → M (Unit {0})
unfolding age_ready_queue appendleft_process sort_ready_queue
age_and_sort at = do
  on_queue age_ready_queue
  on_queue λ q. some (appendleft_process q at)
  on_queue sort_ready_queue

unfoldable pub aging_loop : (List ℕ → M ℕ) → ℕ → ℕ → M ℕ
unfolding is_pending next_process run_next end_or age_and_sort
aging_loop parse zero code s = spent
aging_loop parse (suc fuel) code s =
    if not (is_pending s)
    then ret code s
    else (next_process >>= λ at.
          run_next parse at >>= λ code'. end_or at (age_and_sort at) >> aging_loop parse fuel code')
        s

unfoldable pub scheduler_aging : Host → (List ℕ → M ℕ) → ℕ → M ℕ
unfolding aging_loop
scheduler_aging host parse fuel = do on_queue sort_ready_queue; aging_loop parse fuel host.stray_int
