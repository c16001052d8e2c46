-- ===== src/Commands/Programs/Loading.antt =====
-- What build_ready_queue leaves.
use pico_shell.Base.{
  List, Ptr, [], ap, ap₂, arith, false, get_or, length, length-append, none, refl, some, str_eq,
  suc, sym, take, ℕ, ◌++◌, ◌+◌, ◌-◌, ◌∙◌, ◌∷◌, ◌≡◌, ◌≢◌, ◌≤◌,
}
use pico_shell.Memory.Lru.Chain.{Fresh}
use pico_shell.Memory.Manager.{Pcb, max_file_lines}
use pico_shell.Memory.Manager.Invariant.{IsPaged, without_table}
use pico_shell.Memory.Manager.Paging.{IsProgram}
use pico_shell.Scheduling.Process.Init.{Unallocated}
use pico_shell.Scheduling.Process.Loaded.{fresh_pcb}
use pico_shell.Scheduling.Queue.Order.{IsQueue}
use pico_shell.Scheduling.Queue.Search.{first_running}
use pico_shell.Scheduling.Scheduler.Pages.{most_pages}
use pico_shell.Scheduling.Scheduler.Process.{lines_from}
use pico_shell.Scheduling.Scheduler.Tasks.{
  AllReady, SameTasks, left_lines, left_pages, queue_lines, queue_pages,
}
use pico_shell.System.{Host, System, World, queue_of}
use mathlib.Core.List.{append-nil, append_assoc}

-- The programs of an array open, with these lines.
unfoldable pub AllOpen : Host → (List ℕ → List (List ℕ)) → List (Ptr (List ℕ)) → Type 0
AllOpen host files [] = Unit {0}
AllOpen host files (none ∷ programs) = AllOpen host files programs
AllOpen host files (some script ∷ programs) =
    ((call : ℕ) → host.script_lines call (take 255 script) ≡ some (files script))
    × AllOpen host files programs

-- no program of an array has a name
unfoldable pub Differs : List ℕ → List (Ptr (List ℕ)) → Type 0
Differs script [] = Unit {0}
Differs script (none ∷ programs) = Differs script programs
Differs script (some other ∷ programs) = (str_eq script other ≡ false) × Differs script programs

unfoldable pub AllDistinct : List (Ptr (List ℕ)) → Type 0
unfolding Differs
AllDistinct [] = Unit {0}
AllDistinct (none ∷ programs) = AllDistinct programs
AllDistinct (some script ∷ programs) = Differs script programs × AllDistinct programs

-- no process of a list runs a program of an array
unfoldable pub NoneRuns : (ℕ → Pcb) → List ℕ → List (Ptr (List ℕ)) → Type 0
NoneRuns process l [] = Unit {0}
NoneRuns process l (none ∷ programs) = NoneRuns process l programs
NoneRuns process l (some script ∷ programs) =
    (first_running process script l ≡ none) × NoneRuns process l programs

-- the first hundred lines of each program
unfoldable pub file_lines : (List ℕ → List (List ℕ)) → List (Ptr (List ℕ)) → List (List ℕ)
file_lines files [] = []
file_lines files (none ∷ programs) = file_lines files programs
file_lines files (some script ∷ programs) =
    take max_file_lines (files script) ++ file_lines files programs

-- the most frames that the processes of the programs take: those that pcb_init loads, and the pages
-- that they can load later
unfoldable pub file_frames : (List ℕ → List (List ℕ)) → List (Ptr (List ℕ)) → ℕ
file_frames files [] = 0
file_frames files (none ∷ programs) = file_frames files programs
file_frames files (some script ∷ programs) =
    most_pages (length (take max_file_lines (files script))) + 2 + file_frames files programs

-- what a process runs: its program's name and the lines that it has left
abbrev pub Task : Type 0
Task = Ptr (List ℕ) × List (List ℕ)

unfoldable pub tasks_of : (ℕ → Pcb) → List ℕ → List Task
tasks_of process [] = []
tasks_of process (a ∷ l) = ((process a).filename, left_lines (process a)) ∷ tasks_of process l

-- a process for each program: its name and its first hundred lines
unfoldable pub file_tasks : (List ℕ → List (List ℕ)) → List (Ptr (List ℕ)) → List Task
file_tasks files [] = []
file_tasks files (none ∷ programs) = file_tasks files programs
file_tasks files (some script ∷ programs) =
    (some script, take max_file_lines (files script)) ∷ file_tasks files programs

-- how many programs there are
unfoldable pub program_count : List (Ptr (List ℕ)) → ℕ
program_count [] = 0
program_count (none ∷ programs) = program_count programs
program_count (some script ∷ programs) = suc (program_count programs)

-- the world after as many calls more
abbrev pub with_calls : World → ℕ → World
with_calls w calls = record w { calls = w.calls + calls }

-- The queue is a list of processes with programs, and the memory's invariant holds.
pub record Schedulable (s : System) (l : List ℕ) : Type 0 where
  pub queue : IsQueue (queue_of s) l
  pub paged : IsPaged s.mem
  pub unallocated : Unallocated s
  pub ready : AllReady s.mem.process l

-- an address without a page table is in no queue of programs
pub unallocated-Fresh :
    (process : ℕ → Pcb) (at : ℕ) (l : List ℕ)
    → (process at).page_table ≡ []
    → AllReady process l
    → Fresh at l
unfolding AllReady Fresh
unallocated-Fresh process at [] e r = tt
unallocated-Fresh process at (a ∷ l) e (p, h, r) = (
  λ u. absurd (omega (arith, p.pages, ap (λ q. length (process q).page_table) u, ap length e)),
  unallocated-Fresh process at l e r,
)

pub AllReady-snoc :
    (process : ℕ → Pcb) (l : List ℕ) (at : ℕ)
    → AllReady process l
    → IsProgram (process at)
    → (process at).program_counter ≤ (process at).file_length
    → AllReady process (l ++ at ∷ [])
unfolding AllReady
AllReady-snoc process [] at r p h = (p, h, tt)
AllReady-snoc process (a ∷ l) at (q, b, r) p h = (q, b, AllReady-snoc process l at r p h)

pub queue_lines-snoc :
    (process : ℕ → Pcb) (l : List ℕ) (at : ℕ)
    → queue_lines process (l ++ at ∷ []) ≡ queue_lines process l ++ left_lines (process at)
unfolding queue_lines
queue_lines-snoc process [] at = append-nil (left_lines (process at))
queue_lines-snoc process (a ∷ l) at =
    ap (left_lines (process a) ++◌) (queue_lines-snoc process l at)
    ∙ sym (append_assoc (left_lines (process a)) (queue_lines process l) (left_lines (process at)))

pub tasks_of-snoc :
    (process : ℕ → Pcb) (l : List ℕ) (at : ℕ)
    → tasks_of process (l ++ at ∷ [])
      ≡ tasks_of process l ++ ((process at).filename, left_lines (process at)) ∷ []
unfolding tasks_of
tasks_of-snoc process [] at = refl
tasks_of-snoc process (a ∷ l) at =
    ap (((process a).filename, left_lines (process a)) ∷◌) (tasks_of-snoc process l at)

pub queue_pages-snoc :
    (process : ℕ → Pcb) (l : List ℕ) (at : ℕ)
    → queue_pages process (l ++ at ∷ []) ≡ queue_pages process l + left_pages (process at)
unfolding queue_pages
queue_pages-snoc process [] at = omega arith
queue_pages-snoc process (a ∷ l) at = omega (arith, queue_pages-snoc process l at)

-- names and tasks that are the same but for one process
pub tasks_of-SameTasks :
    (at : ℕ) (process process' : ℕ → Pcb) (l : List ℕ)
    → SameTasks at process process'
    → ((c : ℕ) → c ≢ at → (process' c).filename ≡ (process c).filename)
    → Fresh at l
    → tasks_of process' l ≡ tasks_of process l
unfolding tasks_of left_lines Fresh
tasks_of-SameTasks at process process' [] same names f = refl
tasks_of-SameTasks at process process' (a ∷ l) same names f =
    ap₂ ◌∷◌
      (ap₂ (λ n c. (n, c)) (names a (λ e. f.0 (sym e)))
        (ap left_lines (same.tasks a (λ e. f.0 (sym e)))))
      (tasks_of-SameTasks at process process' l same names f.1)

take_all : {A : Type 0} (l : List A) → take (length l) l ≡ l
unfolding take
take_all [] = refl
take_all (a ∷ l) = ap (a ∷◌) (take_all l)

get_or-front :
    (pre : List (List ℕ)) (a : List ℕ) (l : List (List ℕ))
    → get_or (pre ++ a ∷ l) (length pre) [] ≡ a
get_or-front [] a l = refl
get_or-front (b ∷ pre) a l = get_or-front pre a l

lines_from-suffix : (pre l : List (List ℕ)) → lines_from (pre ++ l) (length pre) (length l) ≡ l
unfolding lines_from
lines_from-suffix pre [] = refl
lines_from-suffix pre (a ∷ l) = ap₂ ◌∷◌ (get_or-front pre a l) (
    ap₂ (λ c k. lines_from c k (length l)) (sym (append_assoc pre (a ∷ []) l))
      (omega (arith, length-append pre (a ∷ [])))
    ∙ lines_from-suffix (pre ++ a ∷ []) l)

no_less : (l : List (List ℕ)) (n : ℕ) → lines_from l 0 (n - 0) ≡ lines_from l 0 n
no_less l n = ap (lines_from l 0) (omega arith)

-- a new process has all lines of its program to run
pub left_lines_new :
    (pcb : Pcb) (filename : List ℕ) (contents : List (List ℕ)) (pid : ℕ)
    → without_table pcb ≡ without_table (fresh_pcb filename contents (length contents) pid)
    → left_lines pcb ≡ contents
unfolding left_lines
left_lines_new pcb filename contents pid e =
    ap (λ x. lines_from x.file_contents x.program_counter (x.file_length - x.program_counter)) e
    ∙ no_less (take (length contents) contents) (length contents)
    ∙ ap (λ c. lines_from c 0 (length contents)) (take_all contents)
    ∙ lines_from-suffix [] contents
