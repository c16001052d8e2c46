-- ===== src/Scheduling/Scheduler/Steps.antt =====
-- What running the lines of a process leaves as it was.
use pico_shell.Base.{
  Bool-cases, List, [], add32, ap, arith, inl, inr, length, refl, sym, ℕ, ◌==◌, ◌∙◌, ◌≡◌, ◌≢◌,
}
use pico_shell.Memory.Lru.{Lru}
use pico_shell.Memory.Manager.{MemState, Pcb, is_allocated, set_process}
use pico_shell.Memory.Manager.Invariant.{SamePrograms}
use pico_shell.Memory.Manager.Paging.{IsProgram}
use pico_shell.Scheduling.Scheduler.Line.{moved_on}
use pico_shell.System.{System, World}

-- a process without its page table and its program counter
abbrev pub still : Pcb → Pcb
still pcb = record pcb { page_table = []; program_counter = 0 }

-- From one state to another, the process at an address may have run lines.
pub record Ran (at : ℕ) (s s' : System) : Type 0 where
  pub head : s'.head ≡ s.head
  pub process_count : s'.process_count ≡ s.process_count
  pub programs : (a : ℕ) → still (s'.mem.process a) ≡ still (s.mem.process a)
  pub sizes : (a : ℕ) → length (s'.mem.process a).page_table ≡ length (s.mem.process a).page_table
  pub others :
      (a : ℕ) → a ≢ at → (s'.mem.process a).program_counter ≡ (s.mem.process a).program_counter

pub Ran-refl : (at : ℕ) (s : System) → Ran at s s
Ran-refl at s = record {
  head = refl;
  process_count = refl;
  programs = λ a. refl;
  sizes = λ a. refl;
  others = λ a ne. refl;
}

pub Ran-trans : (at : ℕ) (s s' s'' : System) → Ran at s s' → Ran at s' s'' → Ran at s s''
Ran-trans at s s' s'' r t = record {
  head = t.head ∙ r.head;
  process_count = t.process_count ∙ r.process_count;
  programs = λ a. t.programs a ∙ r.programs a;
  sizes = λ a. t.sizes a ∙ r.sizes a;
  others = λ a ne. t.others a ne ∙ r.others a ne;
}

-- a page fault
pub Ran-fault :
    (at : ℕ) (s : System) (mem : MemState) (out : List (List ℕ))
    → SamePrograms s.mem mem
    → Ran at s (record s { mem = mem; out = out })
Ran-fault at s mem out same = record {
  head = refl;
  process_count = refl;
  programs = λ a. ap still (same.rest a);
  sizes = same.sizes;
  others = λ a ne. ap (λ x. x.program_counter) (same.rest a);
}

-- a line
pub Ran-moved_on :
    (at : ℕ) (s : System) (lru : Lru) (w : World) (said : List (List ℕ))
    → Ran at s (moved_on s at lru w said)
unfolding moved_on set_process
Ran-moved_on at s lru w said = record {
  head = refl;
  process_count = refl;
  programs = λ a. elim (Bool-cases (a == at)) [
    | inl e ↦
        let here : a ≡ at = ground (arith, e) in rw e (ap (λ q. still (s.mem.process q)) (sym here))
    | inr e ↦ rw e refl
  ];
  sizes = λ a. elim (Bool-cases (a == at)) [
    | inl e ↦
        let here : a ≡ at = ground (arith, e) in
        rw e (ap (λ q. length (s.mem.process q).page_table) (sym here))
    | inr e ↦ rw e refl
  ];
  others = λ a ne. ground (arith, ne);
}

-- a process that ran has its program
pub Ran-IsProgram :
    (at a : ℕ) (s s' : System)
    → Ran at s s'
    → IsProgram (s.mem.process a)
    → IsProgram (s'.mem.process a)
Ran-IsProgram at a s s' r p =
    let same = r.programs a in
    record {
      lines =
          omega
            (arith, p.lines, ap (λ x. x.file_length) same, ap (λ x. length x.file_contents) same);
      short = omega (arith, p.short, ap (λ x. x.file_length) same);
      pages = r.sizes a ∙ p.pages;
      alive = ap is_allocated same ∙ p.alive;
    }

pub moved_on_counter :
    (s : System) (at : ℕ) (lru : Lru) (w : World) (said : List (List ℕ))
    → ((moved_on s at lru w said).mem.process at).program_counter
      ≡ add32 (s.mem.process at).program_counter 1
unfolding moved_on set_process
moved_on_counter s at lru w said = ground arith
