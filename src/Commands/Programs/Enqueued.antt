-- ===== src/Commands/Programs/Enqueued.antt =====
-- A new process is put into the queue.
use pico_shell.Base.{
  Bool-cases, List, Ptr, [], ap, ap₂, arith, false, if◌then◌else◌, inl, inr, length, none, refl,
  some, str_eq, sym, ℕ, ◌++◌, ◌+◌, ◌<◌, ◌==◌, ◌^◌, ◌∙◌, ◌∷◌, ◌≡◌, ◌≢◌, ◌≤◌,
}
use pico_shell.Commands.Programs.Loading.{
  AllReady-snoc, Differs, NoneRuns, Schedulable, left_lines_new, queue_lines-snoc, queue_pages-snoc,
  tasks_of, tasks_of-SameTasks, tasks_of-snoc, unallocated-Fresh,
}
use pico_shell.Memory.Frames.Vacancies.{vacancies}
use pico_shell.Memory.Lru.{num_frames}
use pico_shell.Memory.Lru.Chain.{Fresh}
use pico_shell.Memory.Manager.{Pcb, max_file_lines}
use pico_shell.Memory.Manager.Invariant.{
  IsPaged-program_of, IsProgram-program_of, program_of, without_table,
}
use pico_shell.Scheduling.Process.{pcb_init}
use pico_shell.Scheduling.Process.Init.{Unallocated}
use pico_shell.Scheduling.Process.Loaded.{pcb_init-Created}
use pico_shell.Scheduling.Queue.{append_process, runs_script}
use pico_shell.Scheduling.Queue.Order.{IsQueue-same, append_process-IsQueue}
use pico_shell.Scheduling.Queue.Search.{first_running}
use pico_shell.Scheduling.Queue.Slots.{append_process-kept}
use pico_shell.Scheduling.Scheduler.Pages.{most_pages}
use pico_shell.Scheduling.Scheduler.Tasks.{
  AllReady-SameTasks, SameTasks, SameTasks-trans, left_pages, queue_lines, queue_lines-SameTasks,
  queue_pages, queue_pages-SameTasks, task_of,
}
use pico_shell.System.{System, finished, on_queue, queue_of, with_queue, world_of}

first_running-snoc :
    (process : ℕ → Pcb) (script name : List ℕ) (l : List ℕ) (at : ℕ)
    → first_running process script l ≡ none
    → (process at).filename ≡ some name
    → str_eq name script ≡ false
    → first_running process script (l ++ at ∷ []) ≡ none
unfolding first_running runs_script
first_running-snoc process script name [] at e f d = rw (f, d) refl
first_running-snoc process script name (a ∷ l) at e f d =
    elim (Bool-cases (runs_script script (process a).filename)) [
      | inl u ↦ absurd (ground (arith, e, u))
      | inr u ↦ rw u (first_running-snoc process script name l at (ground (arith, e, u)) f d)
    ]

first_running-same :
    (process process' : ℕ → Pcb) (script : List ℕ) (at : ℕ) (l : List ℕ)
    → ((c : ℕ) → c ≢ at → (process' c).filename ≡ (process c).filename)
    → Fresh at l
    → first_running process' script l ≡ first_running process script l
unfolding first_running Fresh
first_running-same process process' script at [] same f = refl
first_running-same process process' script at (a ∷ l) same f =
    ap₂ (λ n r. if runs_script script n then some a else r) (same a (λ e. f.0 (sym e)))
      (first_running-same process process' script at l same f.1)

-- the names after a process was put behind the queue
pub NoneRuns-snoc :
    (process process' : ℕ → Pcb) (l : List ℕ) (at : ℕ) (name : List ℕ)
    (programs : List (Ptr (List ℕ)))
    → ((c : ℕ) → c ≢ at → (process' c).filename ≡ (process c).filename)
    → (process' at).filename ≡ some name
    → Fresh at l
    → Differs name programs
    → NoneRuns process l programs
    → NoneRuns process' (l ++ at ∷ []) programs
unfolding NoneRuns Differs
NoneRuns-snoc process process' l at name [] same f new d n = tt
NoneRuns-snoc process process' l at name (none ∷ programs) same f new d n =
    NoneRuns-snoc process process' l at name programs same f new d n
NoneRuns-snoc process process' l at name (some script ∷ programs) same f new d n = (
  first_running-snoc process' script name l at
      (first_running-same process process' script at l same new ∙ n.0) f d.0,
  NoneRuns-snoc process process' l at name programs same f new d.1 n.1,
)

-- The queue has one process more, at the end, for a script with these lines.
pub record Enqueued (script : List ℕ) (lines : List (List ℕ)) (s s' : System) (l : List ℕ)
    : Type 0 where
  pub schedulable : Schedulable s' (l ++ s.next_pcb ∷ [])
  pub work :
      queue_lines s'.mem.process (l ++ s.next_pcb ∷ []) ≡ queue_lines s.mem.process l ++ lines
  pub tasks :
      tasks_of s'.mem.process (l ++ s.next_pcb ∷ [])
      ≡ tasks_of s.mem.process l ++ (some script, lines) ∷ []
  pub frames :
      queue_pages s'.mem.process (l ++ s.next_pcb ∷ []) + vacancies s.mem.fstore num_frames
      ≤ queue_pages s.mem.process l
        + vacancies s'.mem.fstore num_frames
        + (most_pages (length lines) + 2)
  pub name : (s'.mem.process s.next_pcb).filename ≡ some script
  pub others : (c : ℕ) → c ≢ s.next_pcb → (s'.mem.process c).filename ≡ (s.mem.process c).filename
  pub world : world_of s' ≡ world_of s
  pub absent : Fresh s.next_pcb l

links_kept :
    (s s' : System) (at : ℕ)
    → Unallocated s
    → at ≡ s.next_pcb
    → (s'.mem.process at).next ≡ none
    → ((a : ℕ) → a ≢ at → (s'.mem.process a).next ≡ (s.mem.process a).next)
    → (a : ℕ) → (s'.mem.process a).next ≡ (s.mem.process a).next
links_kept s s' at u e n others a = elim (Bool-cases (a == at)) [
  | inl h ↦
      let here : a ≡ at = ground (arith, h) in
      ap (λ q. (s'.mem.process q).next) here ∙ n ∙ sym (u.loose a (omega (arith, here, e)))
  | inr h ↦ others a (ground (arith, h))
]

-- a new process put into the queue
pub enqueue_new :
    (s : System) (l script : List ℕ) (lines : List (List ℕ))
    → Schedulable s l
    → length lines ≤ max_file_lines
    → length l + 1 < 2 ^ 31
    → (s₁ s' : System) × (pcb_init script lines (length lines) s ≡ finished s.next_pcb s₁)
      × (on_queue (λ q. append_process q s.next_pcb) s₁ ≡ finished tt s')
      × Enqueued script lines s s' l
enqueue_new s l script lines v b room =
    let at = s.next_pcb in
    let new = unallocated-Fresh s.mem.process at l (v.unallocated.blank at (omega arith)) v.ready in
    let (s₁, run, c) =
      pcb_init-Created s script lines (length lines) v.paged v.unallocated (omega arith) b in
    let tasks : SameTasks at s.mem.process s₁.mem.process = record {
      tasks = λ a ne. ap task_of (c.others a ne);
      sizes = λ a ne. ap (λ x. length x.page_table) (c.others a ne);
    } in
    let o₁ =
      IsQueue-same (queue_of s) (queue_of s₁) l c.head c.process_count
        (links_kept s s₁ at v.unallocated refl (ap (λ x. x.next) c.process)
          (λ a ne. ap (λ x. x.next) (c.others a ne)))
        v.queue in
    let (q, appends, o₂) =
      append_process-IsQueue (queue_of s₁) at l o₁ new (ap (λ x. x.next) c.process) room in
    let (kept, links) = append_process-kept (queue_of s₁) q at l o₁ appends in
    let s' = with_queue s₁ q in
    let tasks' : SameTasks at s₁.mem.process q.process = record {
      tasks = λ a ne. ap task_of (links a);
      sizes = λ a ne. ap (λ x. length x.page_table) (links a);
    } in
    let all = SameTasks-trans at s.mem.process s₁.mem.process q.process tasks tasks' in
    let ready = AllReady-SameTasks at s.mem.process q.process l all new v.ready in
    let program =
      IsProgram-program_of (s₁.mem.process at) (q.process at) (ap program_of (links at))
        (ap (λ x. x.filename) (links at)) c.program in
    let task = ap task_of (links at) ∙ ap task_of c.process in
    let left =
      left_lines_new (q.process at) script lines s.next_pid
        (ap without_table (kept at new) ∙ c.process) in
    let named = ap (λ x. x.filename) (links at) ∙ ap (λ x. x.filename) c.process in
    let names = λ (a : ℕ) (ne : a ≢ at).
      ap (λ x. x.filename) (links a) ∙ ap (λ x. x.filename) (c.others a ne) in
    let pages : left_pages (q.process at) ≡ most_pages (length lines) =
      ap left_pages task ∙ omega arith in
    (
      s₁,
      s',
      run,
      rw appends refl,
      record {
        schedulable = record {
          queue = o₂;
          paged = IsPaged-program_of s₁.mem q.process (λ a. ap program_of (links a)) c.paged;
          unallocated = record {
            blank = λ a b. ap (λ x. x.page_table) (links a) ∙ c.unallocated.blank a b;
            loose = λ a b.
                ap (λ x. x.next)
                  (kept a (
                    unallocated-Fresh s₁.mem.process a l (c.unallocated.blank a b)
                      (AllReady-SameTasks at s.mem.process s₁.mem.process l tasks new v.ready)))
                ∙ c.unallocated.loose a b;
          };
          ready =
              AllReady-snoc q.process l at ready program
                (omega (arith, ap (λ x. x.program_counter) task));
        };
        work =
            queue_lines-snoc q.process l at
            ∙ ap₂ ◌++◌ (queue_lines-SameTasks at s.mem.process q.process l all new) left;
        tasks =
            tasks_of-snoc q.process l at
            ∙ ap₂ (λ t x. t ++ x ∷ [])
                (tasks_of-SameTasks at s.mem.process q.process l all names new)
                (ap₂ (λ n x. (n, x)) named left);
        frames = omega (
          arith,
          queue_pages-snoc q.process l at,
          queue_pages-SameTasks at s.mem.process q.process l all new,
          pages,
          c.room,
        );
        name = named;
        others = names;
        world = c.world;
        absent = new;
      },
    )
