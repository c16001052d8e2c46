-- ===== src/Scheduling/Scheduler/Turns.antt =====
-- A process leaves the queue for its turn, and is freed after it.
use pico_shell.Base.{
  Bool-cases, List, ap, arith, inl, inr, length, none, refl, sym, ℕ, ◌==◌, ◌∷◌, ◌≡◌,
}
use pico_shell.Memory.Manager.{Pcb, set_process}
use pico_shell.Memory.Manager.Invariant.{
  IsPaged, IsPaged-program_of, program_of, program_of-set_process,
}
use pico_shell.Scheduling.Process.{pcb_deinit, process_at, put_process}
use pico_shell.Scheduling.Process.Init.{set_process_other}
use pico_shell.Scheduling.Queue.Order.{Follows, IsQueue, IsQueue-same, pop_process_lem}
use pico_shell.Scheduling.Queue.Slots.{pop_process-without_link, without_link}
use pico_shell.Scheduling.Scheduler.{next_process}
use pico_shell.Scheduling.Scheduler.Tasks.{SameTasks, task_of}
use pico_shell.System.{System, finished, queue_of, with_queue, world_of}

-- the first process taken out of the queue
pub next_process_lem :
    (s : System) (at : ℕ) (l : List ℕ)
    → IsQueue (queue_of s) (at ∷ l)
    → IsPaged s.mem
    → (s' : System) × (next_process s ≡ finished at s')
      × IsQueue (queue_of s') l
      × IsPaged s'.mem
      × ((c : ℕ) → without_link (s'.mem.process c) ≡ without_link (s.mem.process c))
      × (s'.mem.fstore ≡ s.mem.fstore)
      × (world_of s' ≡ world_of s)
unfolding next_process Follows
next_process_lem s at l o g =
    let (q, pops, o', first) = (pop_process_lem (queue_of s)).0 at l o in
    let links = λ (c : ℕ). pop_process-without_link (queue_of s) q at c o.follows.0 pops in
    (
      with_queue s q,
      rw pops refl,
      o',
      IsPaged-program_of s.mem q.process (λ a. ap program_of (links a)) g,
      links,
      refl,
      refl,
    )

without_name :
    (process : ℕ → Pcb) (at a : ℕ)
    → record (set_process process at (record (process at) { filename = none }) a) {
      filename = none;
    }
      ≡ record (process a) { filename = none }
unfolding set_process
without_name process at a = elim (Bool-cases (a == at)) [
  | inl e ↦
      let here : a ≡ at = ground (arith, e) in
      rw e (ap (λ q. record (process q) { filename = none }) (sym here))
  | inr e ↦ rw e refl
]

-- the process freed
pub pcb_deinit_lem :
    (s : System) (at : ℕ) (l : List ℕ)
    → IsQueue (queue_of s) l
    → IsPaged s.mem
    → (s' : System) × (pcb_deinit at s ≡ finished tt s')
      × IsQueue (queue_of s') l
      × IsPaged s'.mem
      × SameTasks at s.mem.process s'.mem.process
      × (s'.mem.fstore ≡ s.mem.fstore)
      × (world_of s' ≡ world_of s)
unfolding pcb_deinit process_at put_process
pcb_deinit_lem s at l o g =
    let pcb' = record (s.mem.process at) { filename = none } in
    let process = set_process s.mem.process at pcb' in
    let s' : System = record s { mem = record s.mem { process = process } } in
    (
      s',
      refl,
      IsQueue-same (queue_of s) (queue_of s') l refl refl
          (λ a. ap (λ x. x.next) (without_name s.mem.process at a)) o,
      IsPaged-program_of s.mem process (λ a. program_of-set_process s.mem.process at a pcb' refl) g,
      record {
        tasks = λ c ne. ap task_of (set_process_other s.mem.process at c pcb' ne);
        sizes = λ c ne. ap (λ x. length x.page_table) (without_name s.mem.process at c);
      },
      refl,
      refl,
    )
