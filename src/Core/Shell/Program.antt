-- ===== src/Core/Shell/Program.antt =====
-- Programs whose lines hold commands other than run, exec, quit, mkdir, rmdir and cd: what exec makes
-- of them.
use pico_shell.Base.{
  List, Ptr, [], ap, ap₂, arith, codes, false, get_or, length, length-append, map, some, str_eq,
  subst, suc, sym, ℕ, ◌++◌, ◌+◌, ◌<◌, ◌^◌, ◌∙◌, ◌∷◌, ◌≡◌, ◌≤◌,
}
use pico_shell.Commands.Programs.{exec}
use pico_shell.Commands.Programs.Execution.{exec-scheduler_fcfs}
use pico_shell.Commands.Programs.Loading.{
  AllDistinct, AllOpen, NoneRuns, Schedulable, file_frames, file_lines, program_count, with_calls,
}
use pico_shell.Core.Interpreter.{cut_newline, interpreter, join_words}
use pico_shell.Core.Interpreter.Commands.{IsOrdinary, dispatch-Effect}
use pico_shell.Core.Interpreter.Effects.{
  Effect, badcommand-Effect, badcommand_too_many_tokens-Effect, if-Effect, ret-Effect, seq-Effect,
}
use pico_shell.Core.Shell.{initial, parse_input, run_commands}
use pico_shell.Core.Tokens.{max_user_input, newline, split_commands, words_of}
use pico_shell.Core.Tokens.Commands.{AllWhole, IsWhole, join_commands, split_commands-join_commands}
use pico_shell.Core.Tokens.Words.{AllWords, at_newline, words_of-join_words}
use pico_shell.Memory.Frames.Vacancies.{vacancies}
use pico_shell.Memory.Lru.{num_frames}
use pico_shell.Memory.Manager.Invariant.{IsPaged}
use pico_shell.Scheduling.Queue.Order.{IsQueue}
use pico_shell.Scheduling.Scheduler.Line.{AllLines, OnlyWorld}
use pico_shell.Scheduling.Scheduler.Process.{run_lines}
use pico_shell.Scheduling.Scheduler.Tasks.{queue_lines, queue_pages}
use pico_shell.System.{
  Host, M, Outcome, System, World, exits, faults, finished, in_world, or_faults, queue_of, spent,
  world_of, ◌>>=◌,
}
use mathlib.Core.List.{append-nil}

-- a command that is none of run, exec, quit, mkdir, rmdir and cd, and whose words strtok finds
abbrev pub IsPlain : List ℕ → Type 0
IsPlain cmd =
    (words : List (List ℕ)) × (words_of cmd ≡ some words)
    × (str_eq (get_or (map cut_newline words) 0 []) (codes "quit") ≡ false)
    × IsOrdinary (get_or (map cut_newline words) 0 [])

-- a line whose commands are all such
abbrev pub PlainLine : List ℕ → Type 0
PlainLine line = AllLines IsPlain (split_commands line)

-- a line of a single command
pub join_words-PlainLine :
    (word : List ℕ) (words : List (List ℕ))
    → AllWords (word ∷ words)
    → IsWhole (join_words (word ∷ words) ++ newline ∷ [])
    → length words < 100
    → length (join_words (word ∷ words)) ≤ max_user_input
    → str_eq (cut_newline word) (codes "quit") ≡ false
    → IsOrdinary (cut_newline word)
    → PlainLine (join_words (word ∷ words) ++ newline ∷ [])
unfolding AllWhole join_commands AllLines
join_words-PlainLine word words w whole few h q o =
    let line = join_words (word ∷ words) ++ newline ∷ [] in
    let one =
      split_commands-join_commands line []
        (whole, omega (arith, length-append (join_words (word ∷ words)) (newline ∷ [])), tt)
        (omega arith) in
    subst (AllLines IsPlain) (sym one)
      ((word ∷ words, words_of-join_words word words (newline ∷ []) w at_newline few h, q, o), tt)

interpreter-Effect :
    (host : Host) (parse : List ℕ → M ℕ) (fuel : ℕ) (args : List (List ℕ))
    → str_eq (get_or (map cut_newline args) 0 []) (codes "quit") ≡ false
    → IsOrdinary (get_or (map cut_newline args) 0 [])
    → Effect (interpreter host parse fuel args)
unfolding interpreter
interpreter-Effect host parse fuel args q o = if-Effect _ _ _ badcommand-Effect (
    if-Effect _ _ _ badcommand_too_many_tokens-Effect
      (dispatch-Effect host parse fuel (map cut_newline args) q o))

-- the commands of a line one after the other
run_commands-Effect :
    (host : Host) (parse : List ℕ → M ℕ) (fuel : ℕ) (commands : List (List ℕ)) (code : ℕ)
    → AllLines IsPlain commands
    → Effect (run_commands (interpreter host parse fuel) commands code)
unfolding run_commands AllLines
run_commands-Effect host parse fuel [] code p = ret-Effect code
run_commands-Effect host parse fuel (cmd ∷ commands) code ((words, found, q, o), p) =
    subst
      (λ o. Effect (
        or_faults o >>= λ args.
        interpreter host parse fuel args >>= run_commands (interpreter host parse fuel) commands))
      (sym found)
      (seq-Effect (interpreter host parse fuel words)
        (run_commands (interpreter host parse fuel) commands)
        (interpreter-Effect host parse fuel words q o)
        (λ code'. run_commands-Effect host parse fuel commands code' p))

parse_input-Effect :
    (host : Host) (fuel : ℕ) (line : List ℕ)
    → PlainLine line
    → Effect (parse_input host (suc fuel) line)
unfolding parse_input
parse_input-Effect host fuel line p =
    run_commands-Effect host (parse_input host fuel) fuel (split_commands line) host.stray_int p

-- the code and the world that a run returned, or a world for a run that did not return
unfoldable result_of : World → Outcome ℕ → ℕ × World
result_of w (finished code s) = (code, world_of s)
result_of w (exits code) = (0, w)
result_of w faults = (0, w)
result_of w spent = (0, w)

unfoldable said_by : Outcome ℕ → List (List ℕ)
said_by (finished code s) = s.out
said_by (exits code) = []
said_by faults = []
said_by spent = []

-- The shell with that world, and no process.
abbrev fresh_shell : Host → World → System
fresh_shell host w = in_world (initial host (λ a. 0) host.stray_inode) w []

-- what parseInput of a line does in a shell that runs nothing else, and what it prints
unfoldable pub alone : Host → ℕ → List ℕ → World → ℕ × World
unfolding result_of
alone host fuel line w = result_of w (parse_input host fuel line (fresh_shell host w))

unfoldable pub alone_says : Host → ℕ → List ℕ → World → List (List ℕ)
unfolding said_by
alone_says host fuel line w = said_by (parse_input host fuel line (fresh_shell host w))

pub parse_input-OnlyWorld :
    (host : Host) (fuel : ℕ)
    → OnlyWorld PlainLine
        (parse_input host (suc fuel))
        (alone host (suc fuel))
        (alone_says host (suc fuel))
unfolding alone alone_says
parse_input-OnlyWorld host fuel = record {
  runs = λ line s p.
      let e = parse_input-Effect host fuel line p in
      let w = world_of s in
      let run = e.runs (fresh_shell host w) in
      e.runs s
      ∙ ap₂ (λ d o. finished d.0 (in_world s d.1 o)) (sym (ap (result_of w) run))
          (sym (ap said_by run ∙ append-nil (e.says w)));
}

-- exec with the policy FCFS, of programs that open and are different and that no process of the queue
-- runs, where no line left to run has a command run, exec, quit, mkdir, rmdir or cd, and a frame is
-- vacant for each page that they can have to load: it ends and leaves the queue
-- empty. It has run the lines that the queue had left and then the first hundred lines of each file,
-- in order and each once, and each line had the code and the effect on the variables, the disk and
-- the operating system that parseInput of it has in a shell without processes.
pub exec-alone :
    (host : Host) (files : List ℕ → List (List ℕ)) (programs : List (Ptr (List ℕ))) (s : System)
    (l : List ℕ) (fuel : ℕ)
    → Schedulable s l
    → AllOpen host files programs
    → AllDistinct programs
    → NoneRuns s.mem.process l programs
    → AllLines PlainLine (queue_lines s.mem.process l ++ file_lines files programs)
    → queue_pages s.mem.process l + file_frames files programs ≤ vacancies s.mem.fstore num_frames
    → length l + length programs + 201 < suc fuel
    → length l + length programs < 2 ^ 31
    → (code : ℕ) × (s' : System) × (exec host
          (parse_input host (suc fuel))
          (suc fuel)
          programs
          (codes "FCFS")
          s
        ≡ finished code s')
      × ((code, world_of s')
          ≡ run_lines
              (alone host (suc fuel))
              (queue_lines s.mem.process l ++ file_lines files programs)
              (host.stray_int, with_calls (world_of s) (program_count programs)))
      × IsQueue (queue_of s') []
      × IsPaged s'.mem
exec-alone host files programs s l fuel v opens d n plain vac enough room =
    exec-scheduler_fcfs host files (parse_input host (suc fuel)) (alone host (suc fuel))
      (alone_says host (suc fuel)) programs s l (suc fuel) (parse_input-OnlyWorld host fuel) v opens
      d n plain vac enough room
