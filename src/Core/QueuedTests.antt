-- ===== src/Core/QueuedTests.antt =====
-- The schedulers, with a process in the queue.
use pico_shell.Base.{
  List, [], arith, codes, get_or-replicate_default, minus_one, none, refl, replicate, some, ℕ, ◌<◌,
  ◌^◌, ◌∷◌, ◌≡◌,
}
use pico_shell.Core.Shell.{initial_mem}
use pico_shell.Core.Shell.Initial.{initial_mem-IsPaged}
use pico_shell.Core.Tests.{
  AnyLine, calm_host, count_call, note, note-OnlyWorld, own_line, started, two_lines,
}
use pico_shell.Memory.Frames.Vacancies.{vacancies}
use pico_shell.Memory.Lru.{num_frames}
use pico_shell.Memory.Lru.Chain.{AllFresh, Fresh}
use pico_shell.Memory.Manager.{MemState, Pcb, mem_load_page_into_frame, set_process}
use pico_shell.Memory.Manager.Invariant.{IsPaged}
use pico_shell.Memory.Manager.Load.{PageIn, mem_load_page_into_frame-IsPaged}
use pico_shell.Memory.Manager.Paging.{IsProgram}
use pico_shell.Memory.Variables.{is_free}
use pico_shell.Scheduling.Process.Init.{new-IsPaged}
use pico_shell.Scheduling.Queue.Order.{Follows, IsQueue}
use pico_shell.Scheduling.Queue.Sorted.{IsSorted}
use pico_shell.Scheduling.Scheduler.{scheduler_fcfs, scheduler_sjf}
use pico_shell.Scheduling.Scheduler.Fcfs.{QueueDone}
use pico_shell.Scheduling.Scheduler.Line.{AllLines}
use pico_shell.Scheduling.Scheduler.Process.{run_lines}
use pico_shell.Scheduling.Scheduler.Sjf.{scheduler_fcfs-QueueDone, scheduler_sjf-IsSorted}
use pico_shell.Scheduling.Scheduler.Tasks.{AllReady, queue_lines, queue_pages}
use pico_shell.System.{System, finished, queue_of, world_of}
use mathlib.Core.List.{Perm}

any_line : (lines : List (List ℕ)) → AllLines AnyLine lines
unfolding AllLines
any_line [] = tt
any_line (line ∷ lines) = (tt, any_line lines)

-- the process 1, which has no page in memory, in the queue
abbrev waiting : Pcb
waiting = record {
  pid = 1;
  filename = some (codes "p");
  file_contents = two_lines;
  file_length = 2;
  page_table = replicate 34 minus_one;
  program_counter = 0;
  job_score = 2;
  next = none;
}

abbrev queued : System
queued = record started {
  mem = record initial_mem { process = set_process initial_mem.process 1 waiting };
  head = some 1;
  process_count = 1;
  next_pcb = 2;
}

queued-IsPaged : IsPaged queued.mem
queued-IsPaged =
    new-IsPaged initial_mem 1 waiting initial_mem-IsPaged refl
      (λ p. get_or-replicate_default 34 p minus_one)

queued-IsProgram : IsProgram (queued.mem.process 1)
unfolding set_process is_free
queued-IsProgram = record { lines = omega arith; short = omega arith; pages = refl; alive = refl }

queued-AllReady : AllReady queued.mem.process (1 ∷ [])
unfolding AllReady set_process
queued-AllReady = (queued-IsProgram, omega arith, tt)

queued-IsQueue : IsQueue (queue_of queued) (1 ∷ [])
unfolding set_process Follows AllFresh Fresh
queued-IsQueue = record {
  follows = (refl, refl);
  fresh = (tt, tt);
  count = refl;
  few = omega arith;
}

queued_scores : (a : ℕ) → (queued.mem.process a).job_score < 2 ^ 31
unfolding set_process
queued_scores a = ground arith

all_vacant : vacancies queued.mem.fstore num_frames ≡ 100
unfolding vacancies is_free
all_vacant = refl

pages_queued : queue_pages queued.mem.process (1 ∷ []) ≡ 2
unfolding queue_pages set_process
pages_queued = refl

scheduler_fcfs-QueueDone_example :
    (code : ℕ) × (s' : System) × (scheduler_fcfs calm_host note 300 queued ≡ finished code s')
    × QueueDone count_call (1 ∷ []) 0 queued code s'
scheduler_fcfs-QueueDone_example =
    scheduler_fcfs-QueueDone calm_host note count_call own_line queued (1 ∷ []) 300 note-OnlyWorld
      queued-IsQueue queued-IsPaged queued-AllReady
      (any_line (queue_lines queued.mem.process (1 ∷ []))) (omega (arith, pages_queued, all_vacant))
      (omega arith)

scheduler_sjf-IsSorted_example :
    (code : ℕ) × (s' : System) × (sorted : List ℕ) × (scheduler_sjf calm_host note 300 queued
      ≡ finished code s')
    × Perm (1 ∷ []) sorted
    × IsSorted queued.mem.process sorted
    × ((code, world_of s')
        ≡ run_lines count_call (queue_lines queued.mem.process sorted) (0, world_of queued))
    × IsQueue (queue_of s') []
    × IsPaged s'.mem
scheduler_sjf-IsSorted_example =
    scheduler_sjf-IsSorted calm_host note count_call own_line queued (1 ∷ []) 300 note-OnlyWorld
      queued-IsQueue queued-IsPaged queued-AllReady
      (any_line (queue_lines queued.mem.process (1 ∷ []))) (omega (arith, pages_queued, all_vacant))
      (omega arith) queued_scores (omega arith)

mem_load_page_into_frame-IsPaged_example :
    (s' : MemState) × (mem_load_page_into_frame queued.mem 1 0 5 ≡ some s')
    × IsPaged s'
    × PageIn queued.mem 1 0 5 s'
unfolding set_process is_free
mem_load_page_into_frame-IsPaged_example =
    mem_load_page_into_frame-IsPaged queued.mem 1 0 5 queued-IsPaged queued-IsProgram (omega arith)
      (omega arith) refl
