-- ===== src/Scheduling/Process/FirstPages.antt =====
-- The loop of pcb_init that loads the first pages.
use pico_shell.Base.{
  Bool-cases, Option-cases, ap, arith, inl, inr, minus_one, mul32, refl, slt, subst, suc, zero, ℕ,
  ◌*◌, ◌+◌, ◌<◌, ◌==◌, ◌^◌, ◌∙◌, ◌≡◌, ◌≢◌, ◌≤◌,
}
use pico_shell.Memory.Frames.{frame_size}
use pico_shell.Memory.Frames.Store.{IsFirstVacant, fstore_find_available_frame-IsFirstVacant}
use pico_shell.Memory.Frames.Vacancies.{vacancies, vacancies_but_one, vacancies_none}
use pico_shell.Memory.Lru.{num_frames}
use pico_shell.Memory.Manager.{MemState, mem_find_available_frame}
use pico_shell.Memory.Manager.Invariant.{
  IsPaged, IsProgram-same, SamePrograms, SamePrograms-refl, SamePrograms-trans, table_at,
}
use pico_shell.Memory.Manager.Load.{PageIn}
use pico_shell.Memory.Manager.Paging.{IsProgram}
use pico_shell.Scheduling.Process.{load_page, load_pages}
use pico_shell.Scheduling.Process.Init.{load_one}
use pico_shell.System.{System, finished}

-- From one state to another, as many pages of a process, from one on, were put into vacant frames:
-- all that its program has, if there were vacant frames for them. No other process has changed.
pub record FirstPages (s : MemState) (at page left : ℕ) (s' : MemState) : Type 0 where
  pub programs : SamePrograms s s'
  pub others : (a : ℕ) → a ≢ at → s'.process a ≡ s.process a
  pub room : vacancies s.fstore num_frames ≤ vacancies s'.fstore num_frames + left
  pub kept : (p : ℕ) → table_at s at p ≢ minus_one → table_at s' at p ≢ minus_one
  pub loaded :
      (p : ℕ)
      → page ≤ p
      → p < page + left
      → p * frame_size < (s.process at).file_length
      → p < page + vacancies s.fstore num_frames
      → table_at s' at p ≢ minus_one

-- no page is loaded
no_pages :
    (s : MemState) (at page left : ℕ)
    → ((p : ℕ)
        → page ≤ p
        → p < page + left
        → p * frame_size < (s.process at).file_length
        → p < page + vacancies s.fstore num_frames
        → ⊥)
    → FirstPages s at page left s
no_pages s at page left none_due = record {
  programs = SamePrograms-refl s;
  others = λ a ne. refl;
  room = omega arith;
  kept = λ p present. present;
  loaded = λ p low high inside some_frame. absurd (none_due p low high inside some_frame);
}

-- a page is loaded before the others
one_page :
    (s m s' : MemState) (at page left frame : ℕ)
    → frame < num_frames
    → PageIn s at page frame m
    → FirstPages m at (page + 1) left s'
    → FirstPages s at page (suc left) s'
one_page s m s' at page left frame b into f =
    let one = vacancies_but_one s.fstore m.fstore frame num_frames into.frames in
    let length_kept = ap (λ x. x.file_length) (into.programs.rest at) in
    record {
      programs = SamePrograms-trans s m s' into.programs f.programs;
      others = λ a ne. f.others a ne ∙ into.others a ne;
      room = omega (arith, one, f.room);
      kept = λ p present. f.kept p (λ e. absurd (ground (arith, e, present, b, into.slots at p)));
      loaded = λ p low high inside some_frame. elim (Bool-cases (p == page)) [
        | inl e ↦ f.kept p (λ u. absurd (ground (arith, e, u, b, into.slots at p)))
        | inr e ↦
            let ne : p ≢ page = ground (arith, e) in
            f.loaded p (omega (arith, low, ne)) (omega (arith, high))
              (omega (arith, inside, length_kept)) (omega (arith, some_frame, one))
      ];
    }

-- the loop that loads the first pages, which ends early where no frame is vacant
pub load_pages_lem :
    (left at page : ℕ) (s : System)
    → IsPaged s.mem
    → IsProgram (s.mem.process at)
    → page + left < 2 ^ 20
    → (mem : MemState) × (load_pages left at page s ≡ finished tt (record s { mem = mem }))
      × IsPaged mem
      × FirstPages s.mem at page left mem
unfolding load_pages load_page IsFirstVacant
load_pages_lem zero at page s g p b =
    (s.mem, refl, g, no_pages s.mem at page 0 (λ q low high inside some_frame. omega arith))
load_pages_lem (suc left) at page s g p b =
    elim (Bool-cases (slt (mul32 page frame_size) (s.mem.process at).file_length)) [
      | inr past ↦
          let over : (s.mem.process at).file_length ≤ page * frame_size =
            ground (arith, past, p.short) in
          (
            s.mem,
            rw past refl,
            g,
            no_pages s.mem at page (suc left)
                (λ q low high inside some_frame. omega (arith, over, low, inside)),
          )
      | inl inside ↦ elim (Option-cases (mem_find_available_frame s.mem)) [
        | inl e ↦
            let full =
              subst (IsFirstVacant s.mem.fstore 0 num_frames) e
                (fstore_find_available_frame-IsFirstVacant s.mem.fstore) in
            let none_left =
              vacancies_none s.mem.fstore num_frames (λ f c. full f (omega arith) c) in
            (
              s.mem,
              rw (inside, e) refl,
              g,
              no_pages s.mem at page (suc left)
                  (λ q low high within some_frame. omega (arith, none_left, low, some_frame)),
            )
        | inr (frame, e) ↦
            let found =
              subst (IsFirstVacant s.mem.fstore 0 num_frames) e
                (fstore_find_available_frame-IsFirstVacant s.mem.fstore) in
            let (m, run, g', into) =
              load_one s at page frame g p (ground (arith, inside, p.short)) found.1 found.2 in
            let (mem, runs, g'', f) =
              load_pages_lem left at (page + 1) (record s { mem = m }) g'
                (IsProgram-same s.mem m at into.programs p) (omega arith) in
            (
              mem,
              rw (inside, e) (run (load_pages left at (page + 1)) ∙ runs),
              g'',
              one_page s.mem m mem at page left frame found.1 into f,
            )
      ]
    ]
