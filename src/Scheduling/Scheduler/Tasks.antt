-- ===== src/Scheduling/Scheduler/Tasks.antt =====
-- What the processes of a queue have left to run.
use pico_shell.Base.{
  List, [], ap, ap₂, arith, length, none, refl, sym, ℕ, ◌++◌, ◌+◌, ◌-◌, ◌∙◌, ◌∷◌, ◌≡◌, ◌≢◌, ◌≤◌,
}
use pico_shell.Memory.Lru.Chain.{Fresh}
use pico_shell.Memory.Manager.{Pcb, is_allocated}
use pico_shell.Memory.Manager.Paging.{IsProgram}
use pico_shell.Scheduling.Scheduler.Pages.{most_pages}
use pico_shell.Scheduling.Scheduler.Process.{lines_from, run_lines}
use pico_shell.Scheduling.Scheduler.Steps.{Ran}
use pico_shell.System.{System, World}

-- the lines of a process from its program counter on
unfoldable pub left_lines : Pcb → List (List ℕ)
left_lines pcb =
    lines_from pcb.file_contents pcb.program_counter (pcb.file_length - pcb.program_counter)

-- the lines of the processes of a list, one process after the other
unfoldable pub queue_lines : (ℕ → Pcb) → List ℕ → List (List ℕ)
queue_lines process [] = []
queue_lines process (a ∷ l) = left_lines (process a) ++ queue_lines process l

-- the most pages that a process has left to load
abbrev pub left_pages : Pcb → ℕ
left_pages pcb = most_pages (pcb.file_length - pcb.program_counter)

unfoldable pub queue_pages : (ℕ → Pcb) → List ℕ → ℕ
queue_pages process [] = 0
queue_pages process (a ∷ l) = left_pages (process a) + queue_pages process l

-- The processes of a list have programs, whose counters are in range.
unfoldable pub AllReady : (ℕ → Pcb) → List ℕ → Type 0
AllReady process [] = Unit {0}
AllReady process (a ∷ l) =
    IsProgram (process a)
    × ((process a).program_counter ≤ (process a).file_length)
    × AllReady process l

-- a process's program, with its name, and program counter
abbrev pub task_of : Pcb → Pcb
task_of pcb = record pcb { pid = 0; page_table = []; job_score = 0; next = none }

-- the same tasks, except for one process
pub record SameTasks (at : ℕ) (process process' : ℕ → Pcb) : Type 0 where
  pub tasks : (c : ℕ) → c ≢ at → task_of (process' c) ≡ task_of (process c)
  pub sizes : (c : ℕ) → c ≢ at → length (process' c).page_table ≡ length (process c).page_table

pub SameTasks-trans :
    (at : ℕ) (p q r : ℕ → Pcb) → SameTasks at p q → SameTasks at q r → SameTasks at p r
SameTasks-trans at p q r s t = record {
  tasks = λ c ne. t.tasks c ne ∙ s.tasks c ne;
  sizes = λ c ne. t.sizes c ne ∙ s.sizes c ne;
}

pub queue_lines-SameTasks :
    (at : ℕ) (process process' : ℕ → Pcb) (l : List ℕ)
    → SameTasks at process process'
    → Fresh at l
    → queue_lines process' l ≡ queue_lines process l
unfolding queue_lines left_lines Fresh
queue_lines-SameTasks at process process' [] same f = refl
queue_lines-SameTasks at process process' (a ∷ l) same f =
    ap₂ ◌++◌ (ap left_lines (same.tasks a (λ e. f.0 (sym e))))
      (queue_lines-SameTasks at process process' l same f.1)

pub queue_pages-SameTasks :
    (at : ℕ) (process process' : ℕ → Pcb) (l : List ℕ)
    → SameTasks at process process'
    → Fresh at l
    → queue_pages process' l ≡ queue_pages process l
unfolding queue_pages Fresh
queue_pages-SameTasks at process process' [] same f = refl
queue_pages-SameTasks at process process' (a ∷ l) same f =
    ap₂ ◌+◌ (ap left_pages (same.tasks a (λ e. f.0 (sym e))))
      (queue_pages-SameTasks at process process' l same f.1)

pub AllReady-SameTasks :
    (at : ℕ) (process process' : ℕ → Pcb) (l : List ℕ)
    → SameTasks at process process'
    → Fresh at l
    → AllReady process l
    → AllReady process' l
unfolding AllReady Fresh
AllReady-SameTasks at process process' [] same f r = tt
AllReady-SameTasks at process process' (a ∷ l) same f (p, h, r) =
    let task = same.tasks a (λ e. f.0 (sym e)) in
    (
      record {
        lines =
            omega
              (arith, p.lines, ap (λ x. x.file_length) task, ap (λ x. length x.file_contents) task);
        short = omega (arith, p.short, ap (λ x. x.file_length) task);
        pages = same.sizes a (λ e. f.0 (sym e)) ∙ p.pages;
        alive = ap is_allocated task ∙ p.alive;
      },
      omega (arith, h, ap (λ x. x.file_length) task, ap (λ x. x.program_counter) task),
      AllReady-SameTasks at process process' l same f.1 r,
    )

-- what a process ran, the others did not
pub Ran-SameTasks :
    (at : ℕ) (s s' : System) → Ran at s s' → SameTasks at s.mem.process s'.mem.process
Ran-SameTasks at s s' r = record {
  tasks = λ c ne.
      ap₂ (λ x k. record (task_of x) { program_counter = k }) (r.programs c) (r.others c ne);
  sizes = λ c ne. r.sizes c;
}

pub run_lines-append :
    (act : List ℕ → World → ℕ × World) (l m : List (List ℕ)) (r : ℕ × World)
    → run_lines act (l ++ m) r ≡ run_lines act m (run_lines act l r)
unfolding run_lines
run_lines-append act [] m r = refl
run_lines-append act (line ∷ l) m r = run_lines-append act l m (act line r.1)
