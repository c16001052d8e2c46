-- ===== src/Core/Tests.antt =====
-- A shell whose files have two lines, and exec in it.
use pico_shell.Base.{
  List, Ptr, [], arith, codes, length, none, refl, replicate, some, str_eq, take, true, ℕ, ◌++◌,
  ◌+◌, ◌∷◌, ◌≡◌, ◌≤◌,
}
use pico_shell.Commands.Programs.{build_ready_queue}
use pico_shell.Commands.Programs.Built.{build_ready_queue-Schedulable}
use pico_shell.Commands.Programs.Loading.{
  AllDistinct, AllOpen, NoneRuns, Schedulable, file_frames, file_lines, file_tasks, program_count,
  tasks_of, with_calls,
}
use pico_shell.Core.Interpreter.{cut_newline, join_words}
use pico_shell.Core.Interpreter.Commands.{IsOrdinary}
use pico_shell.Core.Shell.{initial, parse_input}
use pico_shell.Core.Shell.Exec.{exec_line, exec_words, parse_input-exec, program_array}
use pico_shell.Core.Shell.Initial.{initial-Schedulable, initial_mem-IsPaged}
use pico_shell.Core.Shell.Program.{PlainLine, alone, join_words-PlainLine}
use pico_shell.Core.Tokens.{newline, word_ending}
use pico_shell.Core.Tokens.Commands.{IsWhole}
use pico_shell.Core.Tokens.Words.{AllWords}
use pico_shell.Fs.Inode.{uninit_inode}
use pico_shell.Memory.Frames.Vacancies.{vacancies}
use pico_shell.Memory.Lru.{num_frames}
use pico_shell.Memory.Manager.Invariant.{IsPaged}
use pico_shell.Memory.Variables.{is_free}
use pico_shell.Scheduling.Process.{pcb_init}
use pico_shell.Scheduling.Process.Loaded.{Created, pcb_init-Created}
use pico_shell.Scheduling.Queue.Order.{IsQueue}
use pico_shell.Scheduling.Queue.Search.{first_running}
use pico_shell.Scheduling.Scheduler.Line.{AllLines, AllLines-append, OnlyWorld}
use pico_shell.Scheduling.Scheduler.Process.{run_lines}
use pico_shell.Scheduling.Scheduler.Tasks.{queue_lines, queue_pages}
use pico_shell.System.{Host, M, System, World, finished, in_world, queue_of, world_of}

-- what `fgets` returns for a line with two words
abbrev echo_line : List ℕ → List ℕ
echo_line word = join_words (codes "echo" ∷ word ∷ []) ++ newline ∷ []

abbrev pub two_lines : List (List ℕ)
two_lines = echo_line (codes "a") ∷ echo_line (codes "b") ∷ []

-- every file opens and has these lines
abbrev pub calm_host : Host
calm_host = record {
  script_lines = λ call name. some two_lines;
  opens = λ call name. true;
  closes = λ call name. true;
  child_status = λ call args. some 0;
  stray_int = 0;
  stray_inode = uninit_inode;
  stray_name = [];
  stray_block = λ a. 0;
  stray_stack = λ a. 0;
  stray_programs = none ∷ none ∷ [];
}

echo-IsOrdinary : IsOrdinary (cut_newline (codes "echo"))
unfolding cut_newline str_eq
echo-IsOrdinary = record { run = refl; exec = refl; mkdir = refl; rmdir = refl; cd = refl }

two_lines-PlainLine : AllLines PlainLine two_lines
unfolding AllWords word_ending IsWhole join_words cut_newline str_eq AllLines
two_lines-PlainLine = (
  join_words-PlainLine (codes "echo") (codes "a" ∷ [])
      (
        (refl, (refl, (refl, (refl, tt)))),
        omega arith,
        omega arith,
        ((refl, tt), omega arith, omega arith, tt),
      )
      (refl, (refl, (refl, (refl, (refl, (refl, (refl, tt))))))) (omega arith) (omega arith) refl
      echo-IsOrdinary,
  (
    join_words-PlainLine (codes "echo") (codes "b" ∷ [])
        (
          (refl, (refl, (refl, (refl, tt)))),
          omega arith,
          omega arith,
          ((refl, tt), omega arith, omega arith, tt),
        )
        (refl, (refl, (refl, (refl, (refl, (refl, (refl, tt))))))) (omega arith) (omega arith) refl
        echo-IsOrdinary,
    tt,
  ),
)

-- a line that counts a call and prints itself
abbrev pub count_call : List ℕ → World → ℕ × World
count_call line w = (length line, record w { calls = w.calls + 1 })

-- any line
abbrev pub AnyLine : List ℕ → Type 0
AnyLine line = Unit {0}

abbrev pub own_line : List ℕ → World → List (List ℕ)
own_line line w = line ∷ []

abbrev pub note : List ℕ → M ℕ
note line s =
    finished (length line) (in_world s (record (world_of s) { calls = s.calls + 1 }) (line ∷ []))

pub note-OnlyWorld : OnlyWorld AnyLine note count_call own_line
note-OnlyWorld = record { runs = λ line s ok. refl }

abbrev pub started : System
started = initial calm_host (λ a. 0) uninit_inode

abbrev two_programs : List (Ptr (List ℕ))
two_programs = some (codes "a") ∷ some (codes "b") ∷ none ∷ []

two_programs-AllOpen : AllOpen calm_host (λ name. two_lines) two_programs
unfolding AllOpen
two_programs-AllOpen = (λ call. refl, (λ call. refl, tt))

two_programs-AllDistinct : AllDistinct two_programs
unfolding AllDistinct str_eq
two_programs-AllDistinct = ((refl, tt), (tt, tt))

two_programs-NoneRuns : NoneRuns started.mem.process [] two_programs
unfolding NoneRuns first_running
two_programs-NoneRuns = (refl, (refl, tt))

their_lines-PlainLine : AllLines PlainLine (file_lines (λ name. two_lines) two_programs)
unfolding file_lines take AllLines
their_lines-PlainLine =
    AllLines-append PlainLine two_lines (two_lines ++ []) two_lines-PlainLine
      (AllLines-append PlainLine two_lines [] two_lines-PlainLine tt)

abbrev two_scripts : List (List ℕ)
two_scripts = codes "a" ∷ codes "b" ∷ []

exec_words-AllWords : AllWords (codes "exec" ∷ exec_words two_scripts)
unfolding AllWords word_ending
exec_words-AllWords = (
  (refl, (refl, (refl, (refl, tt)))),
  omega arith,
  omega arith,
  (
    (refl, tt),
    omega arith,
    omega arith,
    (
      (refl, tt),
      omega arith,
      omega arith,
      ((refl, (refl, (refl, (refl, tt)))), omega arith, omega arith, tt),
    ),
  ),
)

exec_line-IsWhole : IsWhole (exec_line two_scripts)
unfolding IsWhole join_words
exec_line-IsWhole = (
  refl,
  (
    refl,
    (
      refl,
      (refl, (refl, (refl, (refl, (refl, (refl, (refl, (refl, (refl, (refl, (refl, tt))))))))))),
    ),
  ),
)

all_free : vacancies started.mem.fstore num_frames ≡ 100
unfolding vacancies is_free
all_free = refl

parse_input-exec_example :
    (code : ℕ) × (s' : System) × (parse_input calm_host 301 (exec_line two_scripts) started
      ≡ finished code s')
    × ((code, world_of s')
        ≡ run_lines
            (alone calm_host 300)
            (queue_lines started.mem.process []
              ++ file_lines (λ name. two_lines) (program_array two_scripts))
            (0, with_calls (world_of started) (program_count (program_array two_scripts))))
    × IsQueue (queue_of s') []
    × IsPaged s'.mem
unfolding queue_lines queue_pages file_frames take replicate join_words cut_newline
parse_input-exec_example =
    parse_input-exec calm_host (λ name. two_lines) two_scripts started [] 299 (omega arith)
      (omega arith) exec_words-AllWords exec_line-IsWhole (omega arith) refl
      (initial-Schedulable calm_host (λ a. 0) uninit_inode) two_programs-AllOpen
      two_programs-AllDistinct two_programs-NoneRuns their_lines-PlainLine (omega (arith, all_free))
      (omega arith) (omega arith)

build_ready_queue-Schedulable_example :
    (s' : System) × (new : List ℕ) × (build_ready_queue calm_host two_programs started
      ≡ finished 0 s')
    × Schedulable s' ([] ++ new)
    × (length new ≡ program_count two_programs)
    × (tasks_of s'.mem.process ([] ++ new)
        ≡ tasks_of started.mem.process [] ++ file_tasks (λ name. two_lines) two_programs)
    × (queue_pages s'.mem.process ([] ++ new) + vacancies started.mem.fstore num_frames
        ≤ queue_pages started.mem.process []
          + vacancies s'.mem.fstore num_frames
          + file_frames (λ name. two_lines) two_programs)
    × (queue_lines s'.mem.process ([] ++ new)
        ≡ queue_lines started.mem.process [] ++ file_lines (λ name. two_lines) two_programs)
    × (world_of s' ≡ with_calls (world_of started) (program_count two_programs))
build_ready_queue-Schedulable_example =
    build_ready_queue-Schedulable calm_host (λ name. two_lines) two_programs started []
      (initial-Schedulable calm_host (λ a. 0) uninit_inode) two_programs-AllOpen
      two_programs-AllDistinct two_programs-NoneRuns (omega arith)

pcb_init-Created_example :
    (s' : System) × (pcb_init (codes "p") two_lines 2 started ≡ finished 1 s')
    × Created (codes "p") two_lines 2 started s'
pcb_init-Created_example =
    pcb_init-Created started (codes "p") two_lines 2 initial_mem-IsPaged
      (initial-Schedulable calm_host (λ a. 0) uninit_inode).unallocated (omega arith) (omega arith)
