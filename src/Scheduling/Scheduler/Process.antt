-- ===== src/Scheduling/Scheduler/Process.antt =====
-- The loop over the lines of a process, in FCFS.
use pico_shell.Base.{
  List, [], arith, false, get_or, inl, length, ltb, minus_one, not, refl, slt, suc, true, zero, ℕ,
  ◌+◌, ◌/◌, ◌<◌, ◌==◌, ◌∷◌, ◌≡◌, ◌≢◌, ◌≤◌,
}
use pico_shell.Memory.Frames.{frame_size}
use pico_shell.Memory.Frames.Vacancies.{vacancies, vacancies_but_one}
use pico_shell.Memory.Lru.{Lru, num_frames}
use pico_shell.Memory.Manager.{MemState}
use pico_shell.Memory.Manager.Invariant.{IsPaged, SamePrograms, table_at}
use pico_shell.Memory.Manager.Paging.{IsProgram}
use pico_shell.Scheduling.Scheduler.{fcfs_round, frame_of, run_process}
use pico_shell.Scheduling.Scheduler.Fault.{handle_page_fault-IsPaged}
use pico_shell.Scheduling.Scheduler.Line.{OnlyWorld, did, line_of, run_line_lem, went}
use pico_shell.System.{M, System, World, go_on}

-- as many lines of a program, from one on
unfoldable pub lines_from : List (List ℕ) → ℕ → ℕ → List (List ℕ)
lines_from contents counter zero = []
lines_from contents counter (suc left) =
    get_or contents counter [] ∷ lines_from contents (counter + 1) left

-- the lines run one after the other: the last code and the world, from a code and a world on
unfoldable pub run_lines : (List ℕ → World → ℕ × World) → List (List ℕ) → ℕ × World → ℕ × World
run_lines act [] (code, w) = (code, w)
run_lines act (line ∷ lines) (code, w) = run_lines act lines (act line w)

-- a round for a page that is present
pub round_present :
    {Allowed : List ℕ → Type 0} (parse : List ℕ → M ℕ) (act : List ℕ → World → ℕ × World)
    (says : List ℕ → World → List (List ℕ)) (s : System) (at code fuel : ℕ)
    → OnlyWorld Allowed parse act says
    → Allowed (line_of (s.mem.process at))
    → IsPaged s.mem
    → IsProgram (s.mem.process at)
    → (s.mem.process at).program_counter < (s.mem.process at).file_length
    → table_at s.mem at ((s.mem.process at).program_counter / frame_size) ≢ minus_one
    → (lru : Lru) × IsPaged (went act says s at lru).mem
      × (run_process parse (suc fuel) at code s
          ≡ run_process parse fuel at (did act s at).0 (went act says s at lru))
unfolding run_process fcfs_round frame_of
round_present parse act says s at code fuel only ok g p h present =
    let pcb = s.mem.process at in
    let (lru, g', run) = run_line_lem parse act says s at only ok g p h present in
    let more : not (slt pcb.program_counter pcb.file_length) ≡ false = ground (arith, p.short) in
    let bound : ltb (pcb.program_counter / frame_size) (length pcb.page_table) ≡ true =
      ground (arith, p.pages, p.short) in
    let there : table_at s.mem at (pcb.program_counter / frame_size) == minus_one ≡ false =
      ground (arith, present) in
    (lru, g', rw (more, bound, there, run, go_on) refl)

-- a round for a page that is absent
pub round_absent :
    (parse : List ℕ → M ℕ) (s : System) (at code fuel : ℕ)
    → IsPaged s.mem
    → IsProgram (s.mem.process at)
    → (s.mem.process at).program_counter < (s.mem.process at).file_length
    → table_at s.mem at ((s.mem.process at).program_counter / frame_size) ≡ minus_one
    → 0 < vacancies s.mem.fstore num_frames
    → (mem : MemState) × (out : List (List ℕ)) × IsPaged mem
      × SamePrograms s.mem mem
      × (table_at mem at ((s.mem.process at).program_counter / frame_size) ≢ minus_one)
      × (vacancies s.mem.fstore num_frames ≤ vacancies mem.fstore num_frames + 1)
      × (run_process parse (suc fuel) at code s
          ≡ run_process parse fuel at code (record s { mem = mem; out = out }))
unfolding run_process fcfs_round frame_of
round_absent parse s at code fuel g p h absent room =
    let pcb = s.mem.process at in
    let (frame, mem, out, run, b, chosen, g', f) =
      handle_page_fault-IsPaged s at (pcb.program_counter / frame_size) g p (omega arith)
        (inl room) in
    let more : not (slt pcb.program_counter pcb.file_length) ≡ false = ground (arith, p.short) in
    let bound : ltb (pcb.program_counter / frame_size) (length pcb.page_table) ≡ true =
      ground (arith, p.pages, p.short) in
    let gone : table_at s.mem at (pcb.program_counter / frame_size) == minus_one ≡ true =
      ground (arith, absent) in
    (
      mem,
      out,
      g',
      f.programs,
      λ e. absurd (ground (arith, e, f.slots at (pcb.program_counter / frame_size), b)),
      vacancies_but_one s.mem.fstore mem.fstore frame num_frames f.frames,
      rw (more, bound, gone, run, go_on) refl,
    )
