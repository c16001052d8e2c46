-- ===== src/Scheduling/Scheduler/Completion.antt =====
-- A process runs all its lines.
use pico_shell.Base.{
  Bool-cases, List, add32, ap, ap₂, arith, inl, inr, minus_one, not, refl, slt, subst, suc, sym,
  true, zero, ℕ, ◌*◌, ◌+◌, ◌/◌, ◌<◌, ◌==◌, ◌^◌, ◌∙◌, ◌≡◌, ◌≢◌, ◌≤◌,
}
use pico_shell.Memory.Frames.{frame_size}
use pico_shell.Memory.Frames.Vacancies.{vacancies}
use pico_shell.Memory.Lru.{Lru, num_frames}
use pico_shell.Memory.Manager.{MemState, set_process}
use pico_shell.Memory.Manager.Invariant.{IsPaged, IsProgram-same, SamePrograms, table_at}
use pico_shell.Memory.Manager.Paging.{IsProgram}
use pico_shell.Scheduling.Process.Init.{set_process_self}
use pico_shell.Scheduling.Scheduler.{fcfs_round, run_process}
use pico_shell.Scheduling.Scheduler.Line.{AllLines, OnlyWorld, did, line_of, moved_on, went}
use pico_shell.Scheduling.Scheduler.Pages.{needed, needed-fault, needed-line, needed_absent}
use pico_shell.Scheduling.Scheduler.Process.{lines_from, round_absent, round_present, run_lines}
use pico_shell.Scheduling.Scheduler.Steps.{
  Ran, Ran-IsProgram, Ran-fault, Ran-moved_on, Ran-refl, Ran-trans, moved_on_counter,
}
use pico_shell.System.{M, System, World, finished, world_of}

-- the end of a run of as many lines of a process
pub record Finished (act : List ℕ → World → ℕ × World) (at left code : ℕ) (s : System) (code' : ℕ)
    (s' : System) : Type 0 where
  pub ran : Ran at s s'
  pub paged : IsPaged s'.mem
  pub effect :
      (code', world_of s')
      ≡ run_lines act
          (lines_from (s.mem.process at).file_contents (s.mem.process at).program_counter left)
          (code, world_of s)
  -- it has not taken more vacant frames than the pages that it needed
  pub room :
      vacancies s.mem.fstore num_frames ≤ vacancies s'.mem.fstore num_frames + needed s.mem at left
  pub at_end : (s'.mem.process at).program_counter ≡ (s.mem.process at).file_length

module _ {Allowed : List ℕ → Type 0} (parse : List ℕ → M ℕ) (act : List ℕ → World → ℕ × World)
    (says : List ℕ → World → List (List ℕ)) (only : OnlyWorld Allowed parse act says) (at : ℕ) where
  -- the lines that are left after the next
  went_lines :
      (s : System) (lru : Lru) (left : ℕ)
      → (s.mem.process at).program_counter < 2 ^ 31
      → lines_from
          ((went act says s at lru).mem.process at).file_contents
          ((went act says s at lru).mem.process at).program_counter
          left
        ≡ lines_from (s.mem.process at).file_contents ((s.mem.process at).program_counter + 1) left
  unfolding moved_on set_process
  went_lines s lru left small =
      let pcb = s.mem.process at in
      let pcb' = record pcb { program_counter = add32 pcb.program_counter 1 } in
      let counter : add32 pcb.program_counter 1 ≡ pcb.program_counter + 1 = omega (arith, small) in
      ap (λ x. lines_from x.file_contents x.program_counter left)
        (set_process_self s.mem.process at pcb')
      ∙ ap (λ c. lines_from pcb.file_contents c left) counter

  -- the end of a run whose first line is that of the program counter
  first_line_run :
      (s s' : System) (lru : Lru) (left code code' : ℕ)
      → (s.mem.process at).program_counter < 2 ^ 31
      → table_at s.mem at ((s.mem.process at).program_counter / frame_size) ≢ minus_one
      → Finished act at left (did act s at).0 (went act says s at lru) code' s'
      → Finished act at (suc left) code s code' s'
  unfolding run_lines lines_from moved_on set_process
  first_line_run s s' lru left code code' small there end =
      let pcb = s.mem.process at in
      let pcb' = record pcb { program_counter = add32 pcb.program_counter 1 } in
      let self = set_process_self s.mem.process at pcb' in
      record {
        ran =
            Ran-trans at s (went act says s at lru) s'
              (Ran-moved_on at s lru (did act s at).1
                (says (line_of (s.mem.process at)) (world_of s)))
              end.ran;
        paged = end.paged;
        effect =
            end.effect ∙ ap (λ q. run_lines act q (did act s at)) (went_lines s lru left small);
        room =
            let taken =
              needed-line s.mem (went act says s at lru).mem at left
                (moved_on_counter s at lru (did act s at).1
                    (says (line_of (s.mem.process at)) (world_of s))
                  ∙ omega (arith, small))
                (ap (λ x. x.page_table) self) there in
            omega (arith, taken, end.room);
        at_end = end.at_end ∙ ap (λ x. x.file_length) self;
      }

  -- after a page fault
  fault_run :
      (s s' : System) (mem : MemState) (out : List (List ℕ)) (left code code' : ℕ)
      → SamePrograms s.mem mem
      → table_at s.mem at ((s.mem.process at).program_counter / frame_size) ≡ minus_one
      → table_at mem at ((s.mem.process at).program_counter / frame_size) ≢ minus_one
      → vacancies s.mem.fstore num_frames ≤ vacancies mem.fstore num_frames + 1
      → Finished act at (suc left) code (record s { mem = mem; out = out }) code' s'
      → Finished act at (suc left) code s code' s'
  fault_run s s' mem out left code code' same absent there one end =
      let rest = same.rest at in
      record {
        ran =
            Ran-trans at s (record s { mem = mem; out = out }) s' (Ran-fault at s mem out same)
              end.ran;
        paged = end.paged;
        effect =
            end.effect
            ∙ ap₂
                (λ x v.
                  run_lines act (lines_from x.file_contents x.program_counter (suc left))
                    (code, record (world_of s) { vstore = v }))
                rest same.variables;
        room =
            let taken =
              needed-fault s.mem mem at left (ap (λ x. x.program_counter) rest) absent there in
            omega (arith, taken, one, end.room);
        at_end = end.at_end ∙ ap (λ x. x.file_length) rest;
      }

  -- the lines that a process has left are allowed
  abbrev Permits : ℕ → System → Type 0
  Permits left s =
      AllLines Allowed
        (lines_from (s.mem.process at).file_contents (s.mem.process at).program_counter left)

  -- the run comes to such an end
  abbrev Ends : ℕ → ℕ → ℕ → System → Type 0
  Ends left fuel code s =
      (code' : ℕ) × (s' : System) × (run_process parse fuel at code s ≡ finished code' s')
      × Finished act at left code s code' s'

  -- the line and the lines after it
  after_line :
      (left fuel code : ℕ) (s : System)
      → IsPaged s.mem
      → IsProgram (s.mem.process at)
      → Permits (suc left) s
      → needed s.mem at (suc left) ≤ vacancies s.mem.fstore num_frames
      → (s.mem.process at).program_counter + suc left ≡ (s.mem.process at).file_length
      → table_at s.mem at ((s.mem.process at).program_counter / frame_size) ≢ minus_one
      → ((code₁ : ℕ) (s₁ : System)
          → IsPaged s₁.mem
          → IsProgram (s₁.mem.process at)
          → Permits left s₁
          → needed s₁.mem at left ≤ vacancies s₁.mem.fstore num_frames
          → (s₁.mem.process at).program_counter + left ≡ (s₁.mem.process at).file_length
          → Ends left fuel code₁ s₁)
      → Ends (suc left) (suc fuel) code s
  unfolding AllLines lines_from moved_on set_process
  after_line left fuel code s g p (ok, oks) vac e there rest =
      let small : (s.mem.process at).program_counter < 2 ^ 31 = omega (arith, e, p.short) in
      let (lru, g', round) =
        round_present parse act says s at code fuel only ok g p (omega (arith, e)) there in
      let ran =
        Ran-moved_on at s lru (did act s at).1 (says (line_of (s.mem.process at)) (world_of s)) in
      let taken =
        needed-line s.mem (went act says s at lru).mem at left
          (moved_on_counter s at lru (did act s at).1
              (says (line_of (s.mem.process at)) (world_of s))
            ∙ omega (arith, small))
          (ap (λ x. x.page_table)
            (set_process_self s.mem.process at (record (s.mem.process at) {
              program_counter = add32 (s.mem.process at).program_counter 1;
            })))
          there in
      let (code', s', run, end) =
        rest (did act s at).0 (went act says s at lru) g'
          (Ran-IsProgram at at s (went act says s at lru) ran p)
          (subst (AllLines Allowed) (sym (went_lines s lru left small)) oks)
          (omega (arith, vac, taken))
          (omega (
            arith,
            e,
            small,
            moved_on_counter s at lru (did act s at).1
                (says (line_of (s.mem.process at)) (world_of s)),
            ap (λ x. x.file_length) (ran.programs at),
          )) in
      (code', s', round ∙ run, first_line_run s s' lru left code code' small there end)

  pub run_process-Finished :
      (left fuel code : ℕ) (s : System)
      → IsPaged s.mem
      → IsProgram (s.mem.process at)
      → Permits left s
      → needed s.mem at left ≤ vacancies s.mem.fstore num_frames
      → (s.mem.process at).program_counter + left ≡ (s.mem.process at).file_length
      → 2 * left < fuel
      → Ends left fuel code s
  unfolding run_process fcfs_round run_lines lines_from
  run_process-Finished left zero code s g p ok vac e h = absurd (omega arith)
  run_process-Finished zero (suc fuel) code s g p ok vac e h =
      let pcb = s.mem.process at in
      let over : not (slt pcb.program_counter pcb.file_length) ≡ true =
        ground (arith, e, p.short) in
      (
        code,
        s,
        rw over refl,
        record {
          ran = Ran-refl at s;
          paged = g;
          effect = refl;
          room = omega arith;
          at_end = omega (arith, e);
        },
      )
  run_process-Finished (suc left) (suc zero) code s g p ok vac e h = absurd (omega arith)
  run_process-Finished (suc left) (suc (suc fuel)) code s g p ok vac e h =
      elim (Bool-cases
        (table_at s.mem at ((s.mem.process at).program_counter / frame_size) == minus_one)) [
          | inl absent ↦
              let gone : table_at s.mem at ((s.mem.process at).program_counter / frame_size)
                  ≡ minus_one =
                ground (arith, absent) in
              let some_page = needed_absent s.mem at left gone in
              let (mem, out, g', same, there, one, round) =
                round_absent parse s at code (suc fuel) g p (omega (arith, e)) gone
                  (omega (arith, vac, some_page)) in
              let s₁ : System = record s { mem = mem; out = out } in
              let rest = same.rest at in
              let counter = ap (λ x. x.program_counter) rest in
              let (code', s', run, end) =
                after_line left fuel code s₁ g' (IsProgram-same s.mem mem at same p)
                  (subst
                    (λ x.
                      AllLines Allowed (lines_from x.file_contents x.program_counter (suc left)))
                    (sym rest) ok)
                  (omega (arith, vac, one, needed-fault s.mem mem at left counter gone there))
                  (omega (arith, e, counter, ap (λ x. x.file_length) rest))
                  (λ u. there (ap (λ c. table_at mem at (c / frame_size)) (sym counter) ∙ u))
                  (λ code₁ s₂ g₂ p₂ ok₂ vac₂ e₂.
                    run_process-Finished left fuel code₁ s₂ g₂ p₂ ok₂ vac₂ e₂ (omega arith)) in
              (
                code',
                s',
                round ∙ run,
                fault_run s s' mem out left code code' same gone there one end,
              )
          | inr present ↦
              after_line left (suc fuel) code s g p ok vac e (ground (arith, present))
                (λ code₁ s₂ g₂ p₂ ok₂ vac₂ e₂.
                  run_process-Finished left (suc fuel) code₁ s₂ g₂ p₂ ok₂ vac₂ e₂ (omega arith))
        ]
