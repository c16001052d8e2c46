-- ===== src/Scheduling/Scheduler/Fcfs.antt =====
-- scheduler_fcfs runs the programs of the queue one after the other.
use pico_shell.Base.{
  List, [], ap, ap₂, arith, false, length, not, refl, subst, suc, sym, true, zero, ℕ, ◌+◌, ◌-◌, ◌<◌,
  ◌∙◌, ◌∷◌, ◌≡◌, ◌≤◌,
}
use pico_shell.Memory.Frames.Vacancies.{vacancies}
use pico_shell.Memory.Lru.{num_frames}
use pico_shell.Memory.Lru.Chain.{AllFresh, Fresh}
use pico_shell.Memory.Manager.Invariant.{IsPaged, IsProgram-program_of, program_of}
use pico_shell.Scheduling.Queue.{ReadyQueue}
use pico_shell.Scheduling.Queue.Order.{IsQueue, IsQueue-same}
use pico_shell.Scheduling.Scheduler.{fcfs_loop, is_pending}
use pico_shell.Scheduling.Scheduler.Completion.{run_process-Finished}
use pico_shell.Scheduling.Scheduler.Line.{AllLines, AllLines-parts, OnlyWorld}
use pico_shell.Scheduling.Scheduler.Pages.{needed_most}
use pico_shell.Scheduling.Scheduler.Process.{lines_from, run_lines}
use pico_shell.Scheduling.Scheduler.Tasks.{
  AllReady, AllReady-SameTasks, Ran-SameTasks, SameTasks, SameTasks-trans, left_lines, left_pages,
  queue_lines, queue_lines-SameTasks, queue_pages, queue_pages-SameTasks, run_lines-append, task_of,
}
use pico_shell.Scheduling.Scheduler.Turns.{next_process_lem, pcb_deinit_lem}
use pico_shell.System.{M, System, World, finished, go_on, queue_of, world_of}

-- The loop ended with these: the last code and the world after all lines, and an empty queue.
pub record QueueDone (act : List ℕ → World → ℕ × World) (l : List ℕ) (code : ℕ) (s : System)
    (code' : ℕ) (s' : System) : Type 0 where
  pub effect : (code', world_of s') ≡ run_lines act (queue_lines s.mem.process l) (code, world_of s)
  pub empty : IsQueue (queue_of s') []
  pub paged : IsPaged s'.mem

module _ {Allowed : List ℕ → Type 0} (parse : List ℕ → M ℕ) (act : List ℕ → World → ℕ × World)
    (says : List ℕ → World → List (List ℕ)) (only : OnlyWorld Allowed parse act says) where
  IsQueue-Fresh : (q : ReadyQueue) (at : ℕ) (l : List ℕ) → IsQueue q (at ∷ l) → Fresh at l
  unfolding AllFresh
  IsQueue-Fresh q at l o = o.fresh.0

  -- the rounds of a process, and what its end leaves to the others
  process_done :
      (at : ℕ) (l : List ℕ) (fuel code : ℕ) (s : System)
      → IsQueue (queue_of s) (at ∷ l)
      → IsPaged s.mem
      → AllReady s.mem.process (at ∷ l)
      → AllLines Allowed (left_lines (s.mem.process at))
      → left_pages (s.mem.process at) ≤ vacancies s.mem.fstore num_frames
      → 201 < fuel
      → (code' : ℕ) × (s' : System) × (fcfs_loop parse (suc fuel) code s
          ≡ fcfs_loop parse fuel code' s')
        × IsQueue (queue_of s') l
        × IsPaged s'.mem
        × SameTasks at s.mem.process s'.mem.process
        × (vacancies s.mem.fstore num_frames
            ≤ vacancies s'.mem.fstore num_frames + left_pages (s.mem.process at))
        × ((code', world_of s') ≡ run_lines act (left_lines (s.mem.process at)) (code, world_of s))
  unfolding fcfs_loop is_pending AllReady left_lines
  process_done at l fuel code s o g (p, h, ready) ok vac b =
      let (s₁, pops, o₁, g₁, links, store₁, world₁) = next_process_lem s at l o g in
      let left = (s.mem.process at).file_length - (s.mem.process at).program_counter in
      let same = links at in
      let most = needed_most s₁.mem at left in
      let frames₁ = ap (λ x. vacancies x num_frames) store₁ in
      let (code₂, s₂, run, end) =
        run_process-Finished parse act says only at left fuel code s₁ g₁
          (IsProgram-program_of (s.mem.process at) (s₁.mem.process at) (ap program_of same)
            (ap (λ x. x.filename) same) p)
          (subst (λ x. AllLines Allowed (lines_from x.file_contents x.program_counter left))
            (sym same) ok)
          (omega (arith, vac, most, frames₁))
          (omega (arith, h, ap (λ x. x.file_length) same, ap (λ x. x.program_counter) same))
          (omega (arith, b, p.short)) in
      let o₂ =
        IsQueue-same (queue_of s₁) (queue_of s₂) l end.ran.head end.ran.process_count
          (λ a. ap (λ x. x.next) (end.ran.programs a)) o₁ in
      let (s₃, frees, o₃, g₃, tasks₃, store₃, world₃) = pcb_deinit_lem s₂ at l o₂ end.paged in
      let pending : not (is_pending s) ≡ false = ground (arith, o.count, o.few) in
      let tasks₁ : SameTasks at s.mem.process s₁.mem.process = record {
        tasks = λ c ne. ap task_of (links c);
        sizes = λ c ne. ap (λ x. length x.page_table) (links c);
      } in
      (
        code₂,
        s₃,
        rw (pending, pops, go_on, run) (ap (λ r. go_on r (λ x. fcfs_loop parse fuel code₂)) frees),
        o₃,
        g₃,
        SameTasks-trans at s.mem.process s₁.mem.process s₃.mem.process tasks₁ (
            SameTasks-trans at s₁.mem.process s₂.mem.process s₃.mem.process
              (Ran-SameTasks at s₁ s₂ end.ran) tasks₃),
        omega (arith, most, frames₁, ap (λ x. vacancies x num_frames) store₃, end.room),
        ap (λ d. (code₂, d)) world₃
            ∙ end.effect
            ∙ ap₂
                (λ x d. run_lines act (lines_from x.file_contents x.program_counter left) (code, d))
                same world₁,
      )

  pub fcfs_loop-QueueDone :
      (l : List ℕ) (fuel code : ℕ) (s : System)
      → IsQueue (queue_of s) l
      → IsPaged s.mem
      → AllReady s.mem.process l
      → AllLines Allowed (queue_lines s.mem.process l)
      → queue_pages s.mem.process l ≤ vacancies s.mem.fstore num_frames
      → length l + 201 < fuel
      → (code' : ℕ) × (s' : System) × (fcfs_loop parse fuel code s ≡ finished code' s')
        × QueueDone act l code s code' s'
  unfolding fcfs_loop is_pending AllReady queue_lines queue_pages run_lines
  fcfs_loop-QueueDone l zero code s o g ready ok vac b = absurd (omega arith)
  fcfs_loop-QueueDone [] (suc fuel) code s o g ready ok vac b =
      let over : not (is_pending s) ≡ true = ground (arith, o.count) in
      (code, s, rw over refl, record { effect = refl; empty = o; paged = g })
  fcfs_loop-QueueDone (at ∷ l) (suc fuel) code s o g ready ok vac b =
      let (own, others) =
        AllLines-parts Allowed (left_lines (s.mem.process at)) (queue_lines s.mem.process l) ok in
      let (code₁, s₁, round, o₁, g₁, tasks, frames, effect) =
        process_done at l fuel code s o g ready own (omega (arith, vac)) (omega (arith, b)) in
      let (code', s', run, end) =
        fcfs_loop-QueueDone l fuel code₁ s₁ o₁ g₁
          (AllReady-SameTasks at s.mem.process s₁.mem.process l tasks
            (IsQueue-Fresh (queue_of s) at l o) ready.2)
          (subst (AllLines Allowed)
            (sym (
              queue_lines-SameTasks at s.mem.process s₁.mem.process l tasks
                (IsQueue-Fresh (queue_of s) at l o)))
            others)
          (omega (
            arith,
            vac,
            frames,
            queue_pages-SameTasks at s.mem.process s₁.mem.process l tasks
                (IsQueue-Fresh (queue_of s) at l o),
          ))
          (omega arith) in
      (
        code',
        s',
        round ∙ run,
        record {
          effect =
              end.effect
              ∙ ap₂ (run_lines act)
                  (queue_lines-SameTasks at s.mem.process s₁.mem.process l tasks
                    (IsQueue-Fresh (queue_of s) at l o))
                  effect
              ∙ sym (
                  run_lines-append act (left_lines (s.mem.process at)) (queue_lines s.mem.process l)
                    (code, world_of s));
          empty = end.empty;
          paged = end.paged;
        },
      )
