-- ===== src/Commands/Programs/Built.antt =====
-- build_ready_queue puts the programs into the queue, one process for each.
use pico_shell.Base.{
  List, Ptr, [], ap, arith, length, length-append, none, refl, some, subst, suc, sym, take, zero, ℕ,
  ◌++◌, ◌+◌, ◌<◌, ◌^◌, ◌∙◌, ◌∷◌, ◌≡◌, ◌≤◌,
}
use pico_shell.Commands.Programs.{build_ready_queue, enqueue_or, init_from_file, init_script}
use pico_shell.Commands.Programs.Enqueued.{NoneRuns-snoc, enqueue_new}
use pico_shell.Commands.Programs.Loading.{
  AllDistinct, AllOpen, NoneRuns, Schedulable, file_frames, file_lines, file_tasks, program_count,
  tasks_of, with_calls,
}
use pico_shell.Memory.Frames.Vacancies.{vacancies}
use pico_shell.Memory.Lru.{num_frames}
use pico_shell.Memory.Manager.{max_file_lines}
use pico_shell.Scheduling.Queue.{find_duplicate_script}
use pico_shell.Scheduling.Queue.Search.{find_duplicate_script_lem}
use pico_shell.Scheduling.Scheduler.Tasks.{queue_lines, queue_pages}
use pico_shell.System.{Host, System, World, finished, go_on, queue_of, world_of}
use mathlib.Core.List.{append-nil, append_assoc}

-- an answer of the operating system changes nothing of these
Schedulable-asked :
    (s : System) (l : List ℕ) → Schedulable s l → Schedulable (record s { calls = s.calls + 1 }) l
Schedulable-asked s l v = record {
  queue = v.queue;
  paged = v.paged;
  unallocated = record { blank = v.unallocated.blank; loose = v.unallocated.loose };
  ready = v.ready;
}

length-take_le : (n : ℕ) (l : List (List ℕ)) → length (take n l) ≤ n
unfolding take
length-take_le zero l = omega arith
length-take_le (suc n) [] = omega arith
length-take_le (suc n) (a ∷ l) = omega (arith, length-take_le n l)

abbrev set_calls : World → ℕ → World
set_calls w calls = record w { calls = calls }

module _ (host : Host) (files : List ℕ → List (List ℕ)) where
  -- The programs of an array, each of which opens and none of which runs or occurs twice, are put
  -- behind the queue in their order: there is one process more for each, with its name, which has
  -- the first hundred lines of its file to run. The processes before are there as before, with their
  -- names and the lines that they have left. The frames taken are no more than two for each program.
  pub build_ready_queue-Schedulable :
      (programs : List (Ptr (List ℕ))) (s : System) (l : List ℕ)
      → Schedulable s l
      → AllOpen host files programs
      → AllDistinct programs
      → NoneRuns s.mem.process l programs
      → length l + length programs < 2 ^ 31
      → (s' : System) × (new : List ℕ) × (build_ready_queue host programs s ≡ finished 0 s')
        × Schedulable s' (l ++ new)
        × (length new ≡ program_count programs)
        × (tasks_of s'.mem.process (l ++ new)
            ≡ tasks_of s.mem.process l ++ file_tasks files programs)
        × (queue_pages s'.mem.process (l ++ new) + vacancies s.mem.fstore num_frames
            ≤ queue_pages s.mem.process l
              + vacancies s'.mem.fstore num_frames
              + file_frames files programs)
        × (queue_lines s'.mem.process (l ++ new)
            ≡ queue_lines s.mem.process l ++ file_lines files programs)
        × (world_of s' ≡ with_calls (world_of s) (program_count programs))
  unfolding build_ready_queue enqueue_or init_script init_from_file AllOpen AllDistinct NoneRuns
      file_lines program_count file_tasks file_frames
  build_ready_queue-Schedulable [] s l v opens d n room = (
    s,
    [],
    refl,
    subst (Schedulable s) (sym (append-nil l)) v,
    refl,
    ap (tasks_of s.mem.process) (append-nil l) ∙ sym (append-nil (tasks_of s.mem.process l)),
    omega (arith, ap (queue_pages s.mem.process) (append-nil l)),
    ap (queue_lines s.mem.process) (append-nil l) ∙ sym (append-nil (queue_lines s.mem.process l)),
    ap (set_calls (world_of s)) (omega arith),
  )
  build_ready_queue-Schedulable (none ∷ programs) s l v opens d n room =
      build_ready_queue-Schedulable programs s l v opens d n (omega arith)
  build_ready_queue-Schedulable (some script ∷ programs) s l v opens d n room =
      let lines = take max_file_lines (files script) in
      let asked : System = record s { calls = s.calls + 1 } in
      let (s₁, s₂, inits, appends, e) =
        enqueue_new asked l script lines (Schedulable-asked s l v)
          (length-take_le max_file_lines (files script)) (omega arith) in
      let alone : find_duplicate_script (queue_of s) script ≡ none =
        find_duplicate_script_lem (queue_of s) l script v.queue ∙ n.0 in
      let (s', new, run, v', count, tasks, frames, work, world) =
        build_ready_queue-Schedulable programs s₂ (l ++ s.next_pcb ∷ []) e.schedulable opens.1 d.1
          (NoneRuns-snoc s.mem.process s₂.mem.process l s.next_pcb script programs e.others e.name
            e.absent d.0 n.1)
          (omega (arith, room, length-append l (s.next_pcb ∷ []))) in
      let parts : (l ++ s.next_pcb ∷ []) ++ new ≡ l ++ s.next_pcb ∷ new =
        append_assoc l (s.next_pcb ∷ []) new in
      (
        s',
        s.next_pcb ∷ new,
        rw (alone, opens.0 s.calls, inits, go_on, appends) run,
        subst (Schedulable s') parts v',
        ap suc count,
        sym (ap (tasks_of s'.mem.process) parts)
            ∙ tasks
            ∙ ap (λ q. q ++ file_tasks files programs) e.tasks
            ∙ append_assoc (tasks_of s.mem.process l) ((some script, lines) ∷ [])
                (file_tasks files programs),
        omega (arith, frames, e.frames, ap (queue_pages s'.mem.process) parts),
        sym (ap (queue_lines s'.mem.process) parts)
            ∙ work
            ∙ ap (λ q. q ++ file_lines files programs) e.work
            ∙ append_assoc (queue_lines s.mem.process l) lines (file_lines files programs),
        world
            ∙ ap (λ w. with_calls w (program_count programs)) e.world
            ∙ ap (set_calls (world_of s)) (omega arith),
      )
