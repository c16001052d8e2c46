-- ===== src/Commands/Programs.antt =====
-- The commands exec, run and fork. `parse` is parseInput, and `fuel` bounds the rounds of a
pub mod Loading
pub mod Enqueued
pub mod Built
pub mod Execution
-- scheduler.
use pico_shell.Base.{
  List, Option, Ptr, [], codes, if◌then◌else◌, length, none, some, str_eq, take, ℕ, ◌==◌, ◌∷◌,
}
use pico_shell.Commands.Messages.{
  bad_command_error_occurred, badcommand_file_does_not_exist, badcommand_invalid_policy,
}
use pico_shell.Memory.Manager.{max_file_lines}
use pico_shell.Scheduling.Process.{pcb_dup_init, pcb_init}
use pico_shell.Scheduling.Queue.{append_process, find_duplicate_script}
use pico_shell.Scheduling.Scheduler.{scheduler_aging, scheduler_fcfs, scheduler_rr, scheduler_sjf}
use pico_shell.System.{Host, M, ask, gets, on_queue, queue_of, ret, ◌>>=◌, ◌>>◌}

-- the new process for a file's lines, of which it takes the first; `none` if it did not open
unfoldable pub init_from_file : List ℕ → Option (List (List ℕ)) → M (Option ℕ)
unfolding pcb_init take
init_from_file script none = ret none
init_from_file script (some lines) = do
  let contents = take max_file_lines lines
  at ← pcb_init script contents (length contents)
  ret (some at)

-- the process for a script: a copy of one that is in the queue, or a new one
unfoldable pub init_script : Host → List ℕ → Ptr ℕ → M (Option ℕ)
unfolding pcb_dup_init init_from_file
init_script host script (some duplicate) = do at ← pcb_dup_init duplicate; ret (some at)
init_script host script none = do
  lines ← ask λ call. host.script_lines call (take 255 script)
  init_from_file script lines

-- append_process and the rest of the loop, or the error
unfoldable pub enqueue_or : M ℕ → Option ℕ → M ℕ
unfolding badcommand_file_does_not_exist append_process
enqueue_or more none = badcommand_file_does_not_exist
enqueue_or more (some at) = do on_queue λ q. append_process q at; more

-- The loop over the array. An error leaves the processes of the programs before it in the queue.
unfoldable pub build_ready_queue : Host → List (Ptr (List ℕ)) → M ℕ
unfolding find_duplicate_script init_script enqueue_or
build_ready_queue host [] = ret 0
build_ready_queue host (none ∷ programs) = build_ready_queue host programs
build_ready_queue host (some script ∷ programs) = do
  duplicate ← gets λ s. find_duplicate_script (queue_of s) script
  at ← init_script host script duplicate
  enqueue_or (build_ready_queue host programs) at

abbrev pub rr_timeslice : ℕ
rr_timeslice = 2

abbrev pub rr30_timeslice : ℕ
rr30_timeslice = 30

-- the comparisons of the policy's name
unfoldable pub schedule : Host → (List ℕ → M ℕ) → ℕ → List ℕ → M ℕ
unfolding scheduler_fcfs scheduler_sjf scheduler_rr scheduler_aging badcommand_invalid_policy
schedule host parse fuel policy =
    if str_eq policy (codes "FCFS")
    then scheduler_fcfs host parse fuel
    else if str_eq policy (codes "SJF")
    then scheduler_sjf host parse fuel
    else if str_eq policy (codes "RR")
    then scheduler_rr host parse fuel rr_timeslice
    else if str_eq policy (codes "RR30")
    then scheduler_rr host parse fuel rr30_timeslice
    else if str_eq policy (codes "AGING")
    then scheduler_aging host parse fuel
    else badcommand_invalid_policy

unfoldable pub exec : Host → (List ℕ → M ℕ) → ℕ → List (Ptr (List ℕ)) → List ℕ → M ℕ
unfolding build_ready_queue schedule
exec host parse fuel programs policy = do
  code ← build_ready_queue host programs
  if code == 0 then schedule host parse fuel policy else ret code

-- Only the first program is set.
unfoldable pub run_script : Host → (List ℕ → M ℕ) → ℕ → List ℕ → M ℕ
unfolding exec
run_script host parse fuel script =
    exec host parse fuel (some script ∷ host.stray_programs) (codes "FCFS")

-- what the parent does; `none` where `fork` fails
unfoldable pub wait_child : Option ℕ → M ℕ
unfolding bad_command_error_occurred
wait_child none = bad_command_error_occurred
wait_child (some status) = ret status

unfoldable pub ffork : Host → List (List ℕ) → M ℕ
unfolding wait_child
ffork host args = do status ← ask λ call. host.child_status call args; wait_child status
