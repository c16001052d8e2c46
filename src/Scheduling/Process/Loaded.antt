-- ===== src/Scheduling/Process/Loaded.antt =====
-- What pcb_init leaves.
use pico_shell.Base.{
  List, [], add32, ap, arith, get_or, get_or-replicate_default, length, minus_one, none, refl,
  replicate, some, subst, suc, sym, take, zero, ℕ, ◌*◌, ◌+◌, ◌<◌, ◌∙◌, ◌∷◌, ◌≡◌, ◌≢◌, ◌≤◌,
}
use pico_shell.Memory.Frames.{frame_size}
use pico_shell.Memory.Frames.Vacancies.{vacancies}
use pico_shell.Memory.Lru.{num_frames}
use pico_shell.Memory.Manager.{MemState, Pcb, max_file_lines, max_page_table_size, set_process}
use pico_shell.Memory.Manager.Invariant.{IsPaged, IsProgram-same, table_at, without_table}
use pico_shell.Memory.Manager.Paging.{IsProgram}
use pico_shell.Memory.Variables.{is_free}
use pico_shell.Scheduling.Process.{new_process, pcb_init}
use pico_shell.Scheduling.Process.FirstPages.{load_pages_lem}
use pico_shell.Scheduling.Process.Init.{
  Unallocated, new-IsPaged, set_process_other, set_process_self,
}
use pico_shell.System.{System, finished, world_of}

-- the fields of a new process, but for its page table
abbrev pub fresh_pcb : List ℕ → List (List ℕ) → ℕ → ℕ → Pcb
fresh_pcb filename file_contents file_length pid = record {
  pid = pid;
  filename = some filename;
  file_contents = take file_length file_contents;
  file_length = file_length;
  page_table = replicate max_page_table_size minus_one;
  program_counter = 0;
  job_score = file_length;
  next = none;
}

-- The state after pcb_init: the new process has the next address.
pub record Created (filename : List ℕ) (contents : List (List ℕ)) (file_length : ℕ) (s s' : System)
    : Type 0 where
  pub paged : IsPaged s'.mem
  pub unallocated : Unallocated s'
  pub program : IsProgram (s'.mem.process s.next_pcb)
  pub process :
      without_table (s'.mem.process s.next_pcb)
      ≡ without_table (fresh_pcb filename contents file_length s.next_pid)
  pub others : (a : ℕ) → a ≢ s.next_pcb → s'.mem.process a ≡ s.mem.process a
  -- the first two pages are present, as far as the program has them and frames were vacant
  pub loaded :
      (p : ℕ)
      → p < 2
      → p * frame_size < file_length
      → p < vacancies s.mem.fstore num_frames
      → table_at s'.mem s.next_pcb p ≢ minus_one
  pub room : vacancies s.mem.fstore num_frames ≤ vacancies s'.mem.fstore num_frames + 2
  pub head : s'.head ≡ s.head
  pub process_count : s'.process_count ≡ s.process_count
  pub world : world_of s' ≡ world_of s

pub empty_list : {A : Type 0} (l : List A) → length l ≡ 0 → l ≡ []
empty_list [] e = refl
empty_list (a ∷ l) e = absurd (omega arith)

pub length-take : {A : Type 0} (n : ℕ) (l : List A) → n ≤ length l → length (take n l) ≡ n
unfolding take
length-take zero l h = refl
length-take (suc n) [] h = absurd (omega arith)
length-take (suc n) (a ∷ l) h = ap suc (length-take n l (omega arith))

-- pcb_init of a program of at most a hundred lines returns a new process for it, which starts at the
-- first line, with its first two pages loaded as far as it has them and frames were vacant. It keeps
-- the invariant of the memory, and changes no other process and no page table of one.
pub pcb_init-Created :
    (s : System) (filename : List ℕ) (contents : List (List ℕ)) (file_length : ℕ)
    → IsPaged s.mem
    → Unallocated s
    → file_length ≤ length contents
    → file_length ≤ max_file_lines
    → (s' : System) × (pcb_init filename contents file_length s ≡ finished s.next_pcb s')
      × Created filename contents file_length s s'
unfolding pcb_init new_process is_free
pcb_init-Created s filename contents file_length g u h b =
    let at = s.next_pcb in
    let pcb = fresh_pcb filename contents file_length s.next_pid in
    let process = set_process s.mem.process at pcb in
    let m₁ : MemState = record s.mem { process = process } in
    let s₁ : System = record s {
      mem = m₁;
      next_pid = add32 s.next_pid 1;
      next_pcb = s.next_pcb + 1;
    } in
    let absent : (p : ℕ)
        → get_or (replicate max_page_table_size minus_one) p minus_one ≡ minus_one =
      λ p. get_or-replicate_default max_page_table_size p minus_one in
    let g₁ = new-IsPaged s.mem at pcb g (u.blank at (omega arith)) absent in
    let self = set_process_self s.mem.process at pcb in
    let p₁ : IsProgram (process at) = subst IsProgram (sym self) (record {
      lines = omega (arith, length-take file_length contents h);
      short = b;
      pages = refl;
      alive = refl;
    }) in
    let (mem, run, g', first) = load_pages_lem 2 at 0 s₁ g₁ p₁ (omega arith) in
    let same = first.programs in
    let other = λ (a : ℕ) (ne : a ≢ at). set_process_other s.mem.process at a pcb ne in
    (
      record s₁ { mem = mem },
      rw run refl,
      record {
        paged = g';
        unallocated = record {
          blank = λ a c. empty_list (mem.process a).page_table (
              same.sizes a
              ∙ ap (λ x. length x.page_table) (other a (omega (arith, c)))
              ∙ ap length (u.blank a (omega (arith, c))));
          loose = λ a c.
              ap (λ x. x.next) (same.rest a)
              ∙ ap (λ x. x.next) (other a (omega (arith, c)))
              ∙ u.loose a (omega (arith, c));
        };
        program = IsProgram-same m₁ mem at same p₁;
        process = same.rest at ∙ ap without_table self;
        others = λ a ne. first.others a ne ∙ other a ne;
        loaded = λ p low inside some_frame.
            first.loaded p (omega arith) (omega (arith, low))
              (omega (arith, inside, ap (λ x. x.file_length) self)) (omega (arith, some_frame));
        room = first.room;
        head = refl;
        process_count = refl;
        world = ap (λ v. record (world_of s) { vstore = v }) same.variables;
      },
    )
