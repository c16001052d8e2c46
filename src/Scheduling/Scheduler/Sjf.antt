-- ===== src/Scheduling/Scheduler/Sjf.antt =====
-- scheduler_sjf runs the programs of the queue by their lengths.
use pico_shell.Base.{
  List, [], ap, ap₂, arith, inl, length, refl, subst, sym, ℕ, ◌++◌, ◌+◌, ◌<◌, ◌^◌, ◌∙◌, ◌∷◌, ◌≡◌,
  ◌≤◌,
}
use pico_shell.Memory.Frames.Vacancies.{vacancies}
use pico_shell.Memory.Lru.{num_frames}
use pico_shell.Memory.Manager.{Pcb}
use pico_shell.Memory.Manager.Invariant.{
  IsPaged, IsPaged-program_of, IsProgram-program_of, program_of,
}
use pico_shell.Scheduling.Queue.Arranged.{
  Arranged, Perm-Arranged, behind, in_place, in_turn, length-Arranged, neighbours,
}
use pico_shell.Scheduling.Queue.Order.{IsQueue}
use pico_shell.Scheduling.Queue.Slots.{without_link}
use pico_shell.Scheduling.Queue.Sort.{max_num_programs}
use pico_shell.Scheduling.Queue.Sorted.{IsSorted}
use pico_shell.Scheduling.Queue.Sorting.{IsSorted-same, sort_ready_queue-Arranged}
use pico_shell.Scheduling.Scheduler.{scheduler_fcfs, scheduler_sjf}
use pico_shell.Scheduling.Scheduler.Fcfs.{QueueDone, fcfs_loop-QueueDone}
use pico_shell.Scheduling.Scheduler.Line.{AllLines, AllLines-append, AllLines-parts, OnlyWorld}
use pico_shell.Scheduling.Scheduler.Process.{run_lines}
use pico_shell.Scheduling.Scheduler.Tasks.{
  AllReady, left_lines, left_pages, queue_lines, queue_pages,
}
use pico_shell.System.{Host, M, System, World, finished, queue_of, with_queue, world_of}
use mathlib.Core.List.{Perm, append-nil}

AllReady-Arranged :
    (process : ℕ → Pcb) {l m : List ℕ} → Arranged l m → AllReady process l → AllReady process m
unfolding AllReady
AllReady-Arranged process (in_place l) r = r
AllReady-Arranged process (behind a l m e) (p, h, r) = (p, h, AllReady-Arranged process e r)
AllReady-Arranged process (neighbours a b l) (p, h, (q, b', r)) = (q, b', (p, h, r))
AllReady-Arranged process (in_turn l m n e t) r =
    AllReady-Arranged process t (AllReady-Arranged process e r)

AllLines-Arranged :
    (Allowed : List ℕ → Type 0) (process : ℕ → Pcb) {l m : List ℕ}
    → Arranged l m
    → AllLines Allowed (queue_lines process l)
    → AllLines Allowed (queue_lines process m)
unfolding queue_lines
AllLines-Arranged Allowed process (in_place l) ok = ok
AllLines-Arranged Allowed process (behind a l m e) ok =
    let (own, others) =
      AllLines-parts Allowed (left_lines (process a)) (queue_lines process l) ok in
    AllLines-append Allowed (left_lines (process a)) (queue_lines process m) own
      (AllLines-Arranged Allowed process e others)
AllLines-Arranged Allowed process (neighbours a b l) ok =
    let rest = queue_lines process l in
    let (own, others) =
      AllLines-parts Allowed (left_lines (process a)) (left_lines (process b) ++ rest) ok in
    let (next, behind_both) = AllLines-parts Allowed (left_lines (process b)) rest others in
    AllLines-append Allowed (left_lines (process b)) (left_lines (process a) ++ rest) next
      (AllLines-append Allowed (left_lines (process a)) rest own behind_both)
AllLines-Arranged Allowed process (in_turn l m n e t) ok =
    AllLines-Arranged Allowed process t (AllLines-Arranged Allowed process e ok)

-- programs and counters that are the same for all processes
AllReady-same :
    (process process' : ℕ → Pcb) (l : List ℕ)
    → ((a : ℕ) → without_link (process' a) ≡ without_link (process a))
    → AllReady process l
    → AllReady process' l
unfolding AllReady
AllReady-same process process' [] same r = tt
AllReady-same process process' (a ∷ l) same (p, h, r) = (
  IsProgram-program_of (process a) (process' a) (ap program_of (same a))
      (ap (λ x. x.filename) (same a)) p,
  omega (arith, h, ap (λ x. x.file_length) (same a), ap (λ x. x.program_counter) (same a)),
  AllReady-same process process' l same r,
)

queue_pages-same :
    (process process' : ℕ → Pcb) (l : List ℕ)
    → ((a : ℕ) → without_link (process' a) ≡ without_link (process a))
    → queue_pages process' l ≡ queue_pages process l
unfolding queue_pages
queue_pages-same process process' [] same = refl
queue_pages-same process process' (a ∷ l) same =
    ap₂ ◌+◌ (ap left_pages (same a)) (queue_pages-same process process' l same)

queue_pages-Arranged :
    (process : ℕ → Pcb) {l m : List ℕ}
    → Arranged l m
    → queue_pages process m ≡ queue_pages process l
unfolding queue_pages
queue_pages-Arranged process (in_place l) = refl
queue_pages-Arranged process (behind a l m e) =
    ap (left_pages (process a) +◌) (queue_pages-Arranged process e)
queue_pages-Arranged process (neighbours a b l) = omega arith
queue_pages-Arranged process (in_turn l m n e t) =
    queue_pages-Arranged process t ∙ queue_pages-Arranged process e

queue_lines-same :
    (process process' : ℕ → Pcb) (l : List ℕ)
    → ((a : ℕ) → without_link (process' a) ≡ without_link (process a))
    → queue_lines process' l ≡ queue_lines process l
unfolding queue_lines left_lines
queue_lines-same process process' [] same = refl
queue_lines-same process process' (a ∷ l) same =
    ap₂ ◌++◌ (ap left_lines (same a)) (queue_lines-same process process' l same)

-- scheduler_fcfs runs, in the order of the queue and one process after the other, every line that a
-- process has left, and leaves the queue empty. A frame is vacant for each page that the processes can
-- have left to load; the lines are those of the programs, whatever pages are present. It ends, with 202 rounds and one more for each
-- process as fuel, and returns the code of the last line. The lines are allowed ones, which act on
-- the variables, the disk and the operating system alone.
pub scheduler_fcfs-QueueDone :
    {Allowed : List ℕ → Type 0} (host : Host) (parse : List ℕ → M ℕ)
    (act : List ℕ → World → ℕ × World) (says : List ℕ → World → List (List ℕ)) (s : System)
    (l : List ℕ) (fuel : ℕ)
    → OnlyWorld Allowed parse act says
    → IsQueue (queue_of s) l
    → IsPaged s.mem
    → AllReady s.mem.process l
    → AllLines Allowed (queue_lines s.mem.process l)
    → queue_pages s.mem.process l ≤ vacancies s.mem.fstore num_frames
    → length l + 201 < fuel
    → (code : ℕ) × (s' : System) × (scheduler_fcfs host parse fuel s ≡ finished code s')
      × QueueDone act l host.stray_int s code s'
unfolding scheduler_fcfs
scheduler_fcfs-QueueDone host parse act says s l fuel only o g ready ok vac b =
    fcfs_loop-QueueDone parse act says only l fuel host.stray_int s o g ready ok vac b

-- scheduler_sjf, for a queue of at most three processes with allowed lines and with a vacant frame
-- for each page that they can have left to load, runs the lines of the processes that have
-- the lowest scores first, each process's in order and all of them, and ends as scheduler_fcfs does.
pub scheduler_sjf-IsSorted :
    {Allowed : List ℕ → Type 0} (host : Host) (parse : List ℕ → M ℕ)
    (act : List ℕ → World → ℕ × World) (says : List ℕ → World → List (List ℕ)) (s : System)
    (l : List ℕ) (fuel : ℕ)
    → OnlyWorld Allowed parse act says
    → IsQueue (queue_of s) l
    → IsPaged s.mem
    → AllReady s.mem.process l
    → AllLines Allowed (queue_lines s.mem.process l)
    → queue_pages s.mem.process l ≤ vacancies s.mem.fstore num_frames
    → length l ≤ max_num_programs
    → ((a : ℕ) → (s.mem.process a).job_score < 2 ^ 31)
    → length l + 201 < fuel
    → (code : ℕ) × (s' : System) × (sorted : List ℕ) × (scheduler_sjf host parse fuel s
        ≡ finished code s')
      × Perm l sorted
      × IsSorted s.mem.process sorted
      × ((code, world_of s')
          ≡ run_lines act (queue_lines s.mem.process sorted) (host.stray_int, world_of s))
      × IsQueue (queue_of s') []
      × IsPaged s'.mem
unfolding scheduler_sjf
scheduler_sjf-IsSorted {Allowed = Allowed} host parse act says s l fuel only o g ready ok vac few
      small b =
    let (q, sorted, sorts, o', order, up, same) =
      sort_ready_queue-Arranged (queue_of s) l []
        (subst (IsQueue (queue_of s)) (sym (append-nil l)) o) few (inl refl) small in
    let s₁ = with_queue s q in
    let (code, s', run, end) =
      scheduler_fcfs-QueueDone host parse act says s₁ sorted fuel only o'
        (IsPaged-program_of s.mem q.process (λ a. ap program_of (same a)) g)
        (AllReady-same s.mem.process q.process sorted same
          (AllReady-Arranged s.mem.process order ready))
        (subst (AllLines Allowed) (sym (queue_lines-same s.mem.process q.process sorted same))
          (AllLines-Arranged Allowed s.mem.process order ok))
        (omega (
          arith,
          vac,
          queue_pages-same s.mem.process q.process sorted same,
          queue_pages-Arranged s.mem.process order,
        ))
        (omega (arith, b, length-Arranged order)) in
    (
      code,
      s',
      sorted,
      rw sorts run,
      Perm-Arranged order,
      IsSorted-same q.process s.mem.process sorted (λ a. sym (ap (λ x. x.job_score) (same a))) up,
      end.effect
          ∙ ap (λ q. run_lines act q (host.stray_int, world_of s))
              (queue_lines-same s.mem.process q.process sorted same),
      end.empty,
      end.paged,
    )
