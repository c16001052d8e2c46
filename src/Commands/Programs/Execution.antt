-- ===== src/Commands/Programs/Execution.antt =====
-- exec of programs from end to end.
use pico_shell.Base.{
  List, Ptr, [], ap₂, arith, codes, length, length-append, none, some, str_eq_refl, subst, sym, ℕ,
  ◌++◌, ◌+◌, ◌<◌, ◌^◌, ◌∙◌, ◌∷◌, ◌≡◌, ◌≤◌,
}
use pico_shell.Commands.Programs.{exec, schedule}
use pico_shell.Commands.Programs.Built.{build_ready_queue-Schedulable}
use pico_shell.Commands.Programs.Loading.{
  AllDistinct, AllOpen, NoneRuns, Schedulable, file_frames, file_lines, program_count, with_calls,
}
use pico_shell.Memory.Frames.Vacancies.{vacancies}
use pico_shell.Memory.Lru.{num_frames}
use pico_shell.Memory.Manager.Invariant.{IsPaged}
use pico_shell.Scheduling.Queue.Order.{IsQueue}
use pico_shell.Scheduling.Scheduler.Line.{AllLines, OnlyWorld}
use pico_shell.Scheduling.Scheduler.Process.{run_lines}
use pico_shell.Scheduling.Scheduler.Sjf.{scheduler_fcfs-QueueDone}
use pico_shell.Scheduling.Scheduler.Tasks.{queue_lines, queue_pages}
use pico_shell.System.{Host, M, System, World, finished, queue_of, world_of}

program_count_most : (programs : List (Ptr (List ℕ))) → program_count programs ≤ length programs
unfolding program_count
program_count_most [] = omega arith
program_count_most (none ∷ programs) = omega (arith, program_count_most programs)
program_count_most (some script ∷ programs) = omega (arith, program_count_most programs)

-- exec with the policy FCFS, of programs that open and are different and that no process of the queue
-- runs, runs the lines that the queue has left and then the first hundred lines of each file, in
-- order and each once; it ends and leaves the queue empty. The lines are allowed ones, which act on
-- the variables, the disk and the operating system alone, which has opened each file before.
pub exec-scheduler_fcfs :
    {Allowed : List ℕ → Type 0} (host : Host) (files : List ℕ → List (List ℕ))
    (parse : List ℕ → M ℕ) (act : List ℕ → World → ℕ × World)
    (says : List ℕ → World → List (List ℕ)) (programs : List (Ptr (List ℕ))) (s : System)
    (l : List ℕ) (fuel : ℕ)
    → OnlyWorld Allowed parse act says
    → Schedulable s l
    → AllOpen host files programs
    → AllDistinct programs
    → NoneRuns s.mem.process l programs
    → AllLines Allowed (queue_lines s.mem.process l ++ file_lines files programs)
    → queue_pages s.mem.process l + file_frames files programs ≤ vacancies s.mem.fstore num_frames
    → length l + length programs + 201 < fuel
    → length l + length programs < 2 ^ 31
    → (code : ℕ) × (s' : System) × (exec host parse fuel programs (codes "FCFS") s
        ≡ finished code s')
      × ((code, world_of s')
          ≡ run_lines act
              (queue_lines s.mem.process l ++ file_lines files programs)
              (host.stray_int, with_calls (world_of s) (program_count programs)))
      × IsQueue (queue_of s') []
      × IsPaged s'.mem
unfolding exec schedule
exec-scheduler_fcfs {Allowed = Allowed} host files parse act says programs s l fuel only v opens d n
      ok vac enough room =
    let (s₁, new, builds, v₁, count, tasks, frames, work, world) =
      build_ready_queue-Schedulable host files programs s l v opens d n room in
    let (code, s', run, end) =
      scheduler_fcfs-QueueDone host parse act says s₁ (l ++ new) fuel only v₁.queue v₁.paged
        v₁.ready (subst (AllLines Allowed) (sym work) ok) (omega (arith, frames, vac))
        (omega (arith, enough, count, length-append l new, program_count_most programs)) in
    (
      code,
      s',
      rw (builds, str_eq_refl (codes "FCFS")) run,
      end.effect ∙ ap₂ (λ q b. run_lines act q (host.stray_int, b)) work world,
      end.empty,
      end.paged,
    )
