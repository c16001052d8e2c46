-- ===== src/Core/Shell.antt =====
-- core/shell.c: parseInput and main.
pub mod Initial
pub mod Line
pub mod Program
pub mod Exec
use pico_shell.Base.{
  Bool, Bytes, List, Option, [], codes, false, if◌then◌else◌, minus_one, none, some, suc, true,
  zero, ℕ, ◌==◌, ◌∷◌,
}
use pico_shell.Core.Interpreter.{interpreter}
use pico_shell.Core.Tokens.{split_commands, words_of}
use pico_shell.Fs.Calls.{fs_init}
use pico_shell.Fs.Inode.{Inode}
use pico_shell.Memory.Frames.{fstore_init}
use pico_shell.Memory.Lru.{lru_init}
use pico_shell.Memory.Manager.{MemState}
use pico_shell.Memory.Variables.{vstore_init}
use pico_shell.System.{Host, M, Outcome, System, exits, or_faults, prints, ret, spent, ◌>>=◌, ◌>>◌}

-- the loop over the commands, with what `errorCode` holds
unfoldable pub run_commands : (List (List ℕ) → M ℕ) → List (List ℕ) → ℕ → M ℕ
unfolding words_of
run_commands interpret [] code = ret code
run_commands interpret (cmd ∷ commands) code = do
  words ← or_faults (words_of cmd)
  code' ← interpret words
  run_commands interpret commands code'

-- The fuel bounds how deep scripts run scripts, and the rounds of each scheduler. Without a command
-- `errorCode` is not initialised.
unfoldable pub parse_input : Host → ℕ → List ℕ → M ℕ
unfolding run_commands split_commands interpreter
parse_input host zero inp s = spent
parse_input host (suc fuel) inp s =
    run_commands (interpreter host (parse_input host fuel) fuel) (split_commands inp) host.stray_int
      s

-- the loop of main over what `fgets` returns; the program's exit status
unfoldable pub shell_loop : Host → ℕ → Bool → List (List ℕ) → M ℕ
unfolding parse_input
shell_loop host fuel is_interactive [] = ret 0
shell_loop host fuel is_interactive (line ∷ input) = do
  if is_interactive then prints (codes "$ ") else ret tt
  code ← parse_input host fuel line
  if code == minus_one then (λ s. exits 99) else shell_loop host fuel is_interactive input

-- mem_init, and the other static variables
abbrev pub initial_mem : MemState
initial_mem = record {
  vstore = vstore_init;
  fstore = fstore_init;
  lru = lru_init;
  process = λ a. record {
    pid = 0;
    filename = none;
    file_contents = [];
    file_length = 0;
    page_table = [];
    program_counter = 0;
    job_score = 0;
    next = none;
  };
}

abbrev pub initial : Host → Bytes → Inode → System
initial host disk cwd = record {
  mem = initial_mem;
  head = none;
  process_count = 0;
  next_pid = 1;
  next_pcb = 1;
  disk = disk;
  cwd = cwd;
  calls = 0;
  out = [];
}

unfoldable pub print_banner : M (Unit {0})
print_banner = do
  prints (codes "Welcome to pico-shell!")
  prints (codes "Frame Size = 3, Frame Store Size = 300; Variable Store Size = 10")
  prints (codes "►  Type help to get list of commands")
  prints []

-- what main does with the result of fs_init
unfoldable pub start : Host → ℕ → Bool → List (List ℕ) → Option Inode × Bytes → Outcome ℕ
unfolding shell_loop print_banner
start host fuel is_interactive input (none, disk) = exits 99
start host fuel is_interactive input (some cwd, disk) =
    (if is_interactive
        then (print_banner >> shell_loop host fuel true input)
        else shell_loop host fuel false input)
      (initial host disk cwd)

-- `disk` is the memory that the disk is in.
unfoldable pub main : Host → ℕ → Bool → List (List ℕ) → Bytes → Outcome ℕ
unfolding start fs_init
main host fuel is_interactive input disk =
    start host fuel is_interactive input (fs_init host.stray_block host.stray_stack disk)
