-- ===== src/Scheduling/QueueTests.antt =====
-- The ready queue at concrete inputs.
use pico_shell.Base.{
  List, Ptr, [], arith, if◌then◌else◌, inl, none, refl, some, ℕ, ◌++◌, ◌<◌, ◌==◌, ◌^◌, ◌∷◌, ◌≡◌,
}
use pico_shell.Memory.Lru.Chain.{AllFresh, Fresh, listed}
use pico_shell.Memory.Manager.{Pcb}
use pico_shell.Scheduling.Queue.{ReadyQueue, age_ready_queue, append_process, pop_process}
use pico_shell.Scheduling.Queue.Order.{Follows, IsQueue, append_process-IsQueue, pop_process_lem}
use pico_shell.Scheduling.Queue.Search.{age_ready_queue_lem, lowered}
use pico_shell.Scheduling.Queue.Slots.{without_link}
use pico_shell.Scheduling.Queue.Sort.{sort_ready_queue}
use pico_shell.Scheduling.Queue.Sorted.{IsSorted}
use pico_shell.Scheduling.Queue.Sorting.{sort_ready_queue-IsSorted}
use mathlib.Core.List.{Perm}

abbrev job : ℕ → ℕ → Ptr ℕ → Pcb
job pid score next = record {
  pid = pid;
  filename = some (112 ∷ []);
  file_contents = [];
  file_length = score;
  page_table = [];
  program_counter = 0;
  job_score = score;
  next = next;
}

-- the processes 1 and 2 in the queue, and the process 3
abbrev two_jobs : ReadyQueue
two_jobs = record {
  process = λ a. if a == 1 then job 1 4 (some 2) else job a 0 none;
  head = some 1;
  process_count = 2;
}

two_jobs-IsQueue : IsQueue two_jobs (1 ∷ 2 ∷ [])
unfolding Follows AllFresh Fresh
two_jobs-IsQueue = record {
  follows = (refl, (refl, refl));
  fresh = ((omega arith, tt), (tt, tt));
  count = refl;
  few = omega arith;
}

pop_process_lem_example :
    ((at : ℕ) (l : List ℕ)
      → IsQueue two_jobs (at ∷ l)
      → (q' : ReadyQueue) × (pop_process two_jobs ≡ (some at, q'))
        × IsQueue q' l
        × (q'.process at ≡ record (two_jobs.process at) { next = none }))
    × (IsQueue two_jobs [] → pop_process two_jobs ≡ (none, two_jobs))
pop_process_lem_example = pop_process_lem two_jobs

append_process-IsQueue_example :
    (q' : ReadyQueue) × (append_process two_jobs 3 ≡ some q') × IsQueue q' (1 ∷ 2 ∷ 3 ∷ [])
unfolding Fresh
append_process-IsQueue_example =
    append_process-IsQueue two_jobs 3 (1 ∷ 2 ∷ []) two_jobs-IsQueue (omega arith, (omega arith, tt))
      refl (omega arith)

age_ready_queue_lem_example :
    (q' : ReadyQueue) × (age_ready_queue two_jobs ≡ some q')
    × IsQueue q' (1 ∷ 2 ∷ [])
    × ((a : ℕ)
        → q'.process a ≡ (
            if listed a (1 ∷ 2 ∷ [])
            then record (two_jobs.process a) { job_score = lowered (two_jobs.process a).job_score }
            else two_jobs.process a))
age_ready_queue_lem_example = age_ready_queue_lem two_jobs (1 ∷ 2 ∷ []) two_jobs-IsQueue

two_jobs_scores : (a : ℕ) → (two_jobs.process a).job_score < 2 ^ 31
two_jobs_scores a = ground arith

sort_ready_queue-IsSorted_example :
    (q' : ReadyQueue) × (l : List ℕ) × (sort_ready_queue two_jobs ≡ some q')
    × IsQueue q' ([] ++ l)
    × Perm (1 ∷ 2 ∷ []) l
    × IsSorted q'.process l
    × ((a : ℕ) → without_link (q'.process a) ≡ without_link (two_jobs.process a))
sort_ready_queue-IsSorted_example =
    sort_ready_queue-IsSorted two_jobs (1 ∷ 2 ∷ []) [] two_jobs-IsQueue (omega arith) (inl refl)
      two_jobs_scores
