-- ===== src/Scheduling/Process.antt =====
-- scheduling/pcb.c: processes made and freed. A process is its address.
pub mod Init
pub mod FirstPages
pub mod Loaded
use pico_shell.Base.{
  List, Option, [], add32, if◌then◌else◌, minus_one, mul32, none, replicate, set, slt, some, suc,
  take, zero, ℕ, ◌+◌,
}
use pico_shell.Memory.Frames.{frame_size}
use pico_shell.Memory.Manager.{
  Pcb, max_page_table_size, mem_find_available_frame, mem_load_page_into_frame, set_process,
}
use pico_shell.System.{M, gets, on_memory, puts, ret, ◌>>=◌, ◌>>◌}

unfoldable pub process_at : ℕ → M Pcb
process_at at = gets λ s. s.mem.process at

unfoldable pub put_process : ℕ → Pcb → M (Unit {0})
unfolding set_process
put_process at pcb =
    puts λ s. record s { mem = record s.mem { process = set_process s.mem.process at pcb } }

-- `malloc`, the next pid, and the fields; the result is the address
unfoldable pub new_process : (ℕ → Pcb) → M ℕ
unfolding set_process
new_process fields = do
  s ← gets λ s. s
  puts λ s. record s {
    mem = record s.mem { process = set_process s.mem.process s.next_pcb (fields s.next_pid) };
    next_pid = add32 s.next_pid 1;
    next_pcb = s.next_pcb + 1;
  }
  ret s.next_pcb

-- what the loop does with mem_find_available_frame's result; `more` is the rest of the loop
unfoldable pub load_page : ℕ → ℕ → M (Unit {0}) → Option ℕ → M (Unit {0})
unfolding process_at put_process
load_page at page more none = ret tt
load_page at page more (some frame) = do
  on_memory λ mem. mem_load_page_into_frame mem at page frame
  pcb ← process_at at
  put_process at (record pcb { page_table = set pcb.page_table page frame })
  more

-- the rounds left of the loop that loads the first pages
unfoldable pub load_pages : ℕ → ℕ → ℕ → M (Unit {0})
unfolding load_page process_at
load_pages zero at page = ret tt
load_pages (suc left) at page = do
  pcb ← process_at at
  found ← gets λ s. mem_find_available_frame s.mem
  if slt (mul32 page frame_size) pcb.file_length
      then load_page at page (load_pages left at (page + 1)) found
      else ret tt

-- malloc never fails here.
unfoldable pub pcb_init : List ℕ → List (List ℕ) → ℕ → M ℕ
unfolding new_process load_pages
pcb_init filename file_contents file_length = do
  at ← new_process λ pid. record {
    pid = pid;
    filename = some filename;
    file_contents = take file_length file_contents;
    file_length = file_length;
    page_table = replicate max_page_table_size minus_one;
    program_counter = 0;
    job_score = file_length;
    next = none;
  }
  load_pages 2 at 0
  ret at

-- The array `file_contents` of the new process is not set: it has no lines here.
unfoldable pub pcb_dup_init : ℕ → M ℕ
unfolding new_process process_at
pcb_dup_init dup = do
  pcb ← process_at dup
  new_process λ pid. record {
    pid = pid;
    filename = pcb.filename;
    file_contents = [];
    file_length = pcb.file_length;
    page_table = pcb.page_table;
    program_counter = 0;
    job_score = pcb.job_score;
    next = none;
  }

-- The search and the loop over the page table have no effect. The process is freed: is_allocated is
-- false of it from here on, and a write through a stale pointer of the frame table is undefined. No
-- pointer of the queue is stale, since the schedulers take a process out before they free it.
unfoldable pub pcb_deinit : ℕ → M (Unit {0})
unfolding process_at put_process
pcb_deinit at = do pcb ← process_at at; put_process at (record pcb { filename = none })
