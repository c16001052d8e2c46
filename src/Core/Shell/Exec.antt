-- ===== src/Core/Shell/Exec.antt =====
-- The command exec of a line, from parseInput to the scheduler and back.
use pico_shell.Base.{
  List, Ptr, [], ap, ap₂, arith, codes, length, length-append, map, none, refl, replicate, some,
  str_eq, suc, ℕ, ◌++◌, ◌+◌, ◌-◌, ◌<◌, ◌^◌, ◌∙◌, ◌∷◌, ◌≡◌, ◌≤◌,
}
use pico_shell.Commands.Programs.{exec}
use pico_shell.Commands.Programs.Loading.{
  AllDistinct, AllOpen, NoneRuns, Schedulable, file_frames, file_lines, program_count, with_calls,
}
use pico_shell.Core.Interpreter.{arity, cut_newline, dispatch, join_words, programs_of}
use pico_shell.Core.Shell.{parse_input}
use pico_shell.Core.Shell.Line.{interpreter_run, parse_input-join_words}
use pico_shell.Core.Shell.Program.{PlainLine, alone, exec-alone}
use pico_shell.Core.Tokens.{max_user_input, newline}
use pico_shell.Core.Tokens.Commands.{IsWhole}
use pico_shell.Core.Tokens.Words.{AllWords}
use pico_shell.Memory.Frames.Vacancies.{vacancies}
use pico_shell.Memory.Lru.{num_frames}
use pico_shell.Memory.Manager.Invariant.{IsPaged}
use pico_shell.Scheduling.Queue.Order.{IsQueue}
use pico_shell.Scheduling.Queue.Sort.{max_num_programs}
use pico_shell.Scheduling.Scheduler.Line.{AllLines}
use pico_shell.Scheduling.Scheduler.Process.{run_lines}
use pico_shell.Scheduling.Scheduler.Tasks.{queue_lines, queue_pages}
use pico_shell.System.{Host, M, System, finished, queue_of, world_of}
use mathlib.Core.List.{map-append}

-- the array of programs that exec is given
abbrev pub program_array : List (List ℕ) → List (Ptr (List ℕ))
program_array scripts = map some scripts ++ replicate (max_num_programs - length scripts) none

abbrev pub exec_words : List (List ℕ) → List (List ℕ)
exec_words scripts = scripts ++ codes "FCFS" ∷ []

abbrev pub exec_line : List (List ℕ) → List ℕ
exec_line scripts = join_words (codes "exec" ∷ exec_words scripts) ++ newline ∷ []

dispatch-exec :
    (host : Host) (parse : List ℕ → M ℕ) (fuel : ℕ) (scripts : List (List ℕ))
    → 1 ≤ length scripts
    → length scripts ≤ max_num_programs
    → dispatch host parse fuel (codes "exec" ∷ exec_words scripts)
      ≡ exec host parse fuel (program_array scripts) (codes "FCFS")
unfolding dispatch str_eq programs_of arity replicate
dispatch-exec host parse fuel [] some_script few = absurd (omega arith)
dispatch-exec host parse fuel (a ∷ []) some_script few = refl
dispatch-exec host parse fuel (a ∷ b ∷ []) some_script few = refl
dispatch-exec host parse fuel (a ∷ b ∷ c ∷ []) some_script few = refl
dispatch-exec host parse fuel (a ∷ b ∷ c ∷ d ∷ scripts) some_script few = absurd (omega arith)

fixed_clean :
    (cut_newline (codes "exec") ≡ codes "exec") × (cut_newline (codes "FCFS") ≡ codes "FCFS")
unfolding cut_newline
fixed_clean = (refl, refl)

-- parseInput of the line exec with one to three names and FCFS, where the names are different, are
-- words of a line, open and are run by no process of the queue, no line left to run has a command run,
-- exec, quit, mkdir, rmdir or cd, and the frames that are vacant are enough for the pages: it ends and
-- leaves the queue empty. It has run the lines that the queue had left and then the first hundred
-- lines of each file, in the order of the names and each once, and each line had the code and the
-- effect on the variables, the disk and the operating system that parseInput of it has in a shell
-- without processes.
pub parse_input-exec :
    (host : Host) (files : List ℕ → List (List ℕ)) (scripts : List (List ℕ)) (s : System)
    (l : List ℕ) (fuel : ℕ)
    → 1 ≤ length scripts
    → length scripts ≤ max_num_programs
    → AllWords (codes "exec" ∷ exec_words scripts)
    → IsWhole (exec_line scripts)
    → length (exec_line scripts) ≤ max_user_input
    → map cut_newline scripts ≡ scripts
    → Schedulable s l
    → AllOpen host files (program_array scripts)
    → AllDistinct (program_array scripts)
    → NoneRuns s.mem.process l (program_array scripts)
    → AllLines PlainLine (queue_lines s.mem.process l ++ file_lines files (program_array scripts))
    → queue_pages s.mem.process l + file_frames files (program_array scripts)
      ≤ vacancies s.mem.fstore num_frames
    → length l + length (program_array scripts) + 201 < suc fuel
    → length l + length (program_array scripts) < 2 ^ 31
    → (code : ℕ) × (s' : System) × (parse_input host (suc (suc fuel)) (exec_line scripts) s
        ≡ finished code s')
      × ((code, world_of s')
          ≡ run_lines
              (alone host (suc fuel))
              (queue_lines s.mem.process l ++ file_lines files (program_array scripts))
              (host.stray_int, with_calls (world_of s) (program_count (program_array scripts))))
      × IsQueue (queue_of s') []
      × IsPaged s'.mem
parse_input-exec host files scripts s l fuel some_script few w whole h clean v opens d n plain vac
      enough room =
    let size : length (exec_words scripts) ≡ length scripts + 1 =
      length-append scripts (codes "FCFS" ∷ []) in
    let parse = parse_input host (suc fuel) in
    let cleaned : map cut_newline (codes "exec" ∷ exec_words scripts)
        ≡ codes "exec" ∷ exec_words scripts =
      ap₂ ◌∷◌ fixed_clean.0 (
        map-append cut_newline scripts (codes "FCFS" ∷ [])
        ∙ ap₂ (λ a b. a ++ b ∷ []) clean fixed_clean.1) in
    let (code, s', run, effect, empty, paged) =
      exec-alone host files (program_array scripts) s l fuel v opens d n plain vac enough room in
    (
      code,
      s',
      parse_input-join_words host (suc fuel) (codes "exec") (exec_words scripts) s w whole
            (omega (arith, size, few))
            (omega (
              arith,
              h,
              length-append (join_words (codes "exec" ∷ exec_words scripts)) (newline ∷ []),
            ))
          ∙ ap (λ r. r s)
              (interpreter_run host parse (suc fuel) (codes "exec" ∷ exec_words scripts) cleaned
                  (omega arith) (omega (arith, size, few))
                ∙ dispatch-exec host parse (suc fuel) scripts some_script few)
          ∙ run,
      effect,
      empty,
      paged,
    )
