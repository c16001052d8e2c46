-- ===== src/Scheduling/Queue.antt =====
-- scheduling/ready_queue.c: the processes that are ready, linked by their `next` pointers.
pub mod Order
pub mod Search
pub mod Sort
pub mod Arranged
pub mod Sorted
pub mod Slots
pub mod Sorting
use pico_shell.Base.{
  Bool, List, Option, Ptr, add32, and_then, false, if◌then◌else◌, minus_one, none, slt, some,
  str_eq, sub32, suc, zero, ℕ, ◌&&◌, ◌==◌,
}
use pico_shell.Memory.Manager.{Pcb}

-- the processes by their addresses, and the static variables
pub record ReadyQueue : Type 0 where
  pub process : ℕ → Pcb
  pub head : Ptr ℕ
  pub process_count : ℕ

-- `at->next = to`
unfoldable pub set_link : (ℕ → Pcb) → ℕ → Ptr ℕ → ℕ → Pcb
set_link process at to a = if a == at then record (process a) { next = to } else process a

unfoldable pub step_last : (ℕ → Option ℕ) → ℕ → Ptr ℕ → Option ℕ
step_last more at none = some at
step_last more at (some following) = more following

-- The loop to the end of the queue; it takes a round for each process.
unfoldable pub last_process : (ℕ → Pcb) → ℕ → ℕ → Option ℕ
unfolding step_last
last_process process zero at = none
last_process process (suc fuel) at = step_last (last_process process fuel) at (process at).next

-- the process put behind the last one
unfoldable pub link_last : ReadyQueue → ℕ → Ptr ℕ → Option ReadyQueue
unfolding set_link last_process
link_last q at none = some (record q { head = some at })
link_last q at (some first) =
    and_then (last_process q.process q.process_count first)
      λ last. some (record q { process = set_link q.process last (some at) })

-- The pid returned is left out here and below: it is the argument's.
unfoldable pub append_process : ReadyQueue → ℕ → Option ReadyQueue
unfolding link_last
append_process q at = link_last (record q { process_count = add32 q.process_count 1 }) at q.head

unfoldable pub link_first : ReadyQueue → ℕ → Ptr ℕ → ReadyQueue
unfolding set_link
link_first q at none = record q { head = some at }
link_first q at (some first) = record q {
  process = set_link q.process at (some first);
  head = some at;
}

unfoldable pub appendleft_process : ReadyQueue → ℕ → ReadyQueue
unfolding link_first
appendleft_process q at =
    link_first (record q { process_count = add32 q.process_count 1 }) at q.head

unfoldable pub pop_from : ReadyQueue → Ptr ℕ → Ptr ℕ × ReadyQueue
unfolding set_link
pop_from q none = (none, q)
pop_from q (some popped) = (
  some popped,
  record q {
    head = (q.process popped).next;
    process = set_link q.process popped none;
    process_count = sub32 q.process_count 1;
  },
)

unfoldable pub pop_process : ReadyQueue → Ptr ℕ × ReadyQueue
unfolding pop_from
pop_process q = pop_from q q.head

unfoldable pub score_of : ReadyQueue → Ptr ℕ → ℕ
score_of q none = minus_one
score_of q (some at) = (q.process at).job_score

abbrev pub peek_ready_queue : ReadyQueue → ℕ
peek_ready_queue q = score_of q q.head

-- `if (curr->job_score > 0) curr->job_score--`
unfoldable pub aged : (ℕ → Pcb) → ℕ → ℕ → Pcb
aged process at a =
    let pcb = process a in
    if a == at && slt 0 pcb.job_score then record pcb { job_score = sub32 pcb.job_score 1 } else pcb

-- the loop over the queue; `none` if the rounds do not reach its end
unfoldable pub age_from : ℕ → (ℕ → Pcb) → Ptr ℕ → Option (ℕ → Pcb)
unfolding aged
age_from fuel process none = some process
age_from zero process (some curr) = none
age_from (suc fuel) process (some curr) =
    age_from fuel (aged process curr) (aged process curr curr).next

unfoldable pub age_ready_queue : ReadyQueue → Option ReadyQueue
unfolding age_from
age_ready_queue q =
    and_then (age_from q.process_count q.process q.head)
      λ process. some (record q { process = process })

-- `strcmp(curr->filename, script) == 0`
unfoldable pub runs_script : List ℕ → Ptr (List ℕ) → Bool
runs_script script none = false
runs_script script (some filename) = str_eq filename script

-- the loop over the queue, for as many rounds
unfoldable pub find_script : (ℕ → Pcb) → ℕ → List ℕ → Ptr ℕ → Ptr ℕ
unfolding runs_script
find_script process fuel script none = none
find_script process zero script (some curr) = none
find_script process (suc fuel) script (some curr) =
    let rest = find_script process fuel script (process curr).next in
    if runs_script script (process curr).filename then some curr else rest

-- NULL if there is none
unfoldable pub find_duplicate_script : ReadyQueue → List ℕ → Ptr ℕ
unfolding find_script
find_duplicate_script q script = find_script q.process q.process_count script q.head
