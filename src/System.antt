-- ===== src/System.antt =====
-- What the shell's code works on: its static variables, the heap of processes, the disk, the
-- output, and the answers of the operating system.
use pico_shell.Base.{Bool, Bytes, List, Option, Ptr, none, some, ℕ, ◌++◌, ◌+◌, ◌∷◌}
use pico_shell.Fs.Inode.{Inode}
use pico_shell.Memory.Manager.{MemState}
use pico_shell.Memory.Variables.{VarEntry}
use pico_shell.Scheduling.Queue.{ReadyQueue}

-- The operating system, and what uninitialised memory holds. The first argument of an answer
-- counts the calls, so that a later call may have another answer.
pub record Host : Type 0 where
  -- `fopen` and the lines that `fgets` returns, or NULL
  pub script_lines : ℕ → List ℕ → Option (List (List ℕ))
  -- `fopen(name, "w")` and `fclose`: both worked
  pub opens : ℕ → List ℕ → Bool
  pub closes : ℕ → List ℕ → Bool
  -- the status of the child that `fork` makes, or `none` if it makes none
  pub child_status : ℕ → List (List ℕ) → Option ℕ
  -- an uninitialised int, struct inode, name array, block buffer, and stack
  pub stray_int : ℕ
  pub stray_inode : Inode
  pub stray_name : List ℕ
  pub stray_block : Bytes
  pub stray_stack : Bytes
  -- the strings that two uninitialised pointers point to, or NULL
  pub stray_programs : List (Ptr (List ℕ))

-- `head` and `process_count` are those of the ready queue, whose processes are in `mem`. `malloc`
-- gives the next process the address `next_pcb`. `out` is what was printed, the last line first.
pub record System : Type 0 where
  pub mem : MemState
  pub head : Ptr ℕ
  pub process_count : ℕ
  pub next_pid : ℕ
  pub next_pcb : ℕ
  pub disk : Bytes
  pub cwd : Inode
  pub calls : ℕ
  pub out : List (List ℕ)

-- What the commands other than run and exec work on: the variables, the disk with the working directory, and the
-- operating system.
pub record World : Type 0 where
  pub vstore : List VarEntry
  pub disk : Bytes
  pub cwd : Inode
  pub calls : ℕ

abbrev pub world_of : System → World
world_of s = record { vstore = s.mem.vstore; disk = s.disk; cwd = s.cwd; calls = s.calls }

-- another world, and lines that were printed
abbrev pub in_world : System → World → List (List ℕ) → System
in_world s w said = record s {
  mem = record s.mem { vstore = w.vstore };
  disk = w.disk;
  cwd = w.cwd;
  calls = w.calls;
  out = said ++ s.out;
}

-- A function returns, or the program exits, or it does what C leaves undefined, or the fuel of a
-- loop is spent.
pub data Outcome (A : Type 0) : Type 0 where
  finished : A → System → Outcome A
  exits : ℕ → Outcome A
  faults : Outcome A
  spent : Outcome A

abbrev pub M : Type 0 → Type 0
M A = System → Outcome A

-- what follows a step
abbrev pub go_on : {A B : Type 0} → Outcome A → (A → M B) → Outcome B
go_on (finished a s) next = next a s
go_on (exits code) next = exits code
go_on faults next = faults
go_on spent next = spent

infixl 5 ◌>>=◌
abbrev pub ◌>>=◌ : {A B : Type 0} → M A → (A → M B) → M B
(step >>= next) s = go_on (step s) next

infixl 5 ◌>>◌
abbrev pub ◌>>◌ : {B : Type 0} → M (Unit {0}) → M B → M B
step >> next = step >>= λ _. next

abbrev pub ret : {A : Type 0} → A → M A
ret a s = finished a s

abbrev pub gets : {A : Type 0} → (System → A) → M A
gets look s = finished (look s) s

abbrev pub puts : (System → System) → M (Unit {0})
puts change s = finished tt (change s)

-- a step of a component, where `none` is undefined behaviour
abbrev pub or_faults : {A : Type 0} → Option A → M A
or_faults none s = faults
or_faults (some a) s = finished a s

-- `printf` of a line
abbrev pub prints : List ℕ → M (Unit {0})
prints line = puts λ s. record s { out = line ∷ s.out }

abbrev pub on_memory : (MemState → Option MemState) → M (Unit {0})
on_memory step = do
  mem ← gets λ s. s.mem
  mem' ← or_faults (step mem)
  puts λ s. record s { mem = mem' }

-- the ready queue, with the processes in memory
abbrev pub queue_of : System → ReadyQueue
queue_of s = record { process = s.mem.process; head = s.head; process_count = s.process_count }

abbrev pub with_queue : System → ReadyQueue → System
with_queue s q = record s {
  mem = record s.mem { process = q.process };
  head = q.head;
  process_count = q.process_count;
}

abbrev pub on_queue : (ReadyQueue → Option ReadyQueue) → M (Unit {0})
on_queue step = do q ← gets queue_of; q' ← or_faults (step q); puts λ s. with_queue s q'

-- a call of the file system, which returns 0 where the result is not `none`
abbrev pub on_disk : {A : Type 0} → (Bytes → Option A × Bytes) → M (Option A)
on_disk call s = let (result, disk) = call s.disk in finished result (record s { disk = disk })

-- an answer of the operating system
abbrev pub ask : {A : Type 0} → (ℕ → A) → M A
ask answer s = finished (answer s.calls) (record s { calls = s.calls + 1 })
