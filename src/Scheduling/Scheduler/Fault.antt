-- ===== src/Scheduling/Scheduler/Fault.antt =====
-- A page fault leaves the page present.
use pico_shell.Base.{
  List, Option-cases, [], ap, arith, codes, false, get_or, if◌then◌else◌, inl, inr, length, ltb,
  minus_one, none, not, refl, some, subst, suc, true, zero, ℕ, ◌&&◌, ◌*◌, ◌++◌, ◌+◌, ◌<◌, ◌==◌, ◌∙◌,
  ◌∷◌, ◌≡◌, ◌≢◌, ◌≤◌, ◌⊎◌,
}
use pico_shell.Memory.Frames.{frame_size, fstore_get}
use pico_shell.Memory.Frames.Store.{
  IsFirstVacant, fstore_find_available_frame-IsFirstVacant, vacant,
}
use pico_shell.Memory.Frames.Vacancies.{vacancies, vacancies_none}
use pico_shell.Memory.Lru.{num_frames}
use pico_shell.Memory.Lru.Members.{Complete-last}
use pico_shell.Memory.Lru.Order.{IsOrder, get_lru_frame_lem}
use pico_shell.Memory.Manager.{MemState, mem_find_available_frame}
use pico_shell.Memory.Manager.Evict.{OwnerAllocated, mem_free_memory_frame-IsPaged, names_page}
use pico_shell.Memory.Manager.Invariant.{
  IsPaged, IsProgram-same, SamePrograms, SamePrograms-trans, table_at,
}
use pico_shell.Memory.Manager.Load.{PageIn, mem_load_page_into_frame-IsPaged}
use pico_shell.Memory.Manager.Paging.{IsProgram}
use pico_shell.Scheduling.Scheduler.{content_line, evict, handle_page_fault, load_into, print_page}
use pico_shell.System.{System, finished, go_on}

print_page_lem :
    (left address : ℕ) (s : System)
    → address + left ≤ length s.mem.fstore.memory
    → (out : List (List ℕ)) × (print_page left address s ≡ finished tt (record s { out = out }))
unfolding print_page fstore_get
print_page_lem zero address s h = (s.out, refl)
print_page_lem (suc left) address s h =
    let here : ltb address (length s.mem.fstore.memory) ≡ true = ground arith in
    let line = content_line (get_or s.mem.fstore.memory address none) in
    let (out, run) =
      print_page_lem left (address + 1) (record s { out = line ∷ s.out }) (omega arith) in
    (out, rw here run)

-- A page fault put a page of a process into a frame: the page that was in the frame is absent, and no
-- other entry of a page table, no other field of a process, no variable and no other frame has
-- changed.
pub record Faulted (s : MemState) (at page frame : ℕ) (mem : MemState) : Type 0 where
  pub slots :
      (a p : ℕ)
      → table_at mem a p ≡ (
          if a == at && p == page
          then frame
          else if not (vacant s.fstore frame) && names_page s frame a p
          then minus_one
          else table_at s a p)
  pub frames : (f : ℕ) → f ≢ frame → vacant mem.fstore f ≡ vacant s.fstore f
  pub programs : SamePrograms s mem

-- the first vacant frame, or the least recently used one where none is vacant
abbrev pub Chosen : MemState → ℕ → Type 0
Chosen s frame =
    IsFirstVacant s.fstore 0 num_frames (some frame)
    ⊎ (IsFirstVacant s.fstore 0 num_frames none
        × ((front : List ℕ) × IsOrder s.lru (front ++ frame ∷ [])))

-- a frame is vacant, or the owner of the least recently used one is not freed
abbrev pub CanFault : MemState → Type 0
CanFault s =
    (0 < vacancies s.fstore num_frames)
    ⊎ ((front : List ℕ) (f : ℕ) → IsOrder s.lru (front ++ f ∷ []) → OwnerAllocated s f)

-- the eviction of a frame that is not vacant, for an absent page of a program
evict_lem :
    (s : System) (at page victim : ℕ)
    → IsPaged s.mem
    → IsProgram (s.mem.process at)
    → page * frame_size < (s.mem.process at).file_length
    → victim < num_frames
    → vacant s.mem.fstore victim ≡ false
    → OwnerAllocated s.mem victim
    → (mem : MemState) × (out : List (List ℕ)) × (evict at page victim s
        ≡ finished tt (record s { mem = mem; out = out }))
      × IsPaged mem
      × Faulted s.mem at page victim mem
unfolding evict
evict_lem s at page victim g p h b full here =
    let s₁ : System = record s { out = [] ∷ codes "Page fault! Victim page contents:" ∷ s.out } in
    let (out, prints_it) =
      print_page_lem frame_size (victim * frame_size) s₁ (omega (arith, g.store.lines)) in
    let (m₁, frees, g₁, free, slots₁, frames₁, same₁) =
      mem_free_memory_frame-IsPaged s.mem victim g b full here in
    let q : IsProgram (m₁.process at) = IsProgram-same s.mem m₁ at same₁ p in
    let (m₂, loads, g₂, into) =
      mem_load_page_into_frame-IsPaged m₁ at page victim g₁ q
        (omega (arith, h, ap (λ x. x.file_length) (same₁.rest at))) b free in
    (
      m₂,
      codes "End of victim page contents." ∷ [] ∷ out,
      rw (prints_it, go_on, frees, loads) refl,
      g₂,
      record {
        slots = λ a c. into.slots a c ∙ rw (full, slots₁ a c) refl;
        frames = λ f ne. into.frames f ne ∙ frames₁ f ne;
        programs = SamePrograms-trans s.mem m₁ m₂ same₁ into.programs;
      },
    )

PageIn-Faulted :
    (s s' : MemState) (at page frame : ℕ)
    → vacant s.fstore frame ≡ true
    → PageIn s at page frame s'
    → Faulted s at page frame s'
PageIn-Faulted s s' at page frame free into = record {
  slots = λ a p. into.slots a p ∙ rw free refl;
  frames = into.frames;
  programs = into.programs;
}

pub handle_page_fault-IsPaged :
    (s : System) (at page : ℕ)
    → IsPaged s.mem
    → IsProgram (s.mem.process at)
    → page * frame_size < (s.mem.process at).file_length
    → CanFault s.mem
    → (frame : ℕ) × (mem : MemState) × (out : List (List ℕ)) × (handle_page_fault at page s
        ≡ finished frame (record s { mem = mem; out = out }))
      × (frame < num_frames)
      × Chosen s.mem frame
      × IsPaged mem
      × Faulted s.mem at page frame mem
unfolding handle_page_fault load_into IsFirstVacant
handle_page_fault-IsPaged s at page g p h can =
    let first = fstore_find_available_frame-IsFirstVacant s.mem.fstore in
    elim (Option-cases (mem_find_available_frame s.mem)) [
      | inl e ↦
          let full = subst (IsFirstVacant s.mem.fstore 0 num_frames) e first in
          let (front, victim, parts, b) = Complete-last g.frames g.complete in
          let order = subst (IsOrder s.mem.lru) parts g.order in
          let none_left = vacancies_none s.mem.fstore num_frames (λ f c. full f (omega arith) c) in
          let owner : OwnerAllocated s.mem victim = elim can [
            | inl some_left ↦ absurd (omega (arith, some_left, none_left))
            | inr live ↦ live front victim order
          ] in
          let (mem, out, run, g', faulted) =
            evict_lem s at page victim g p h b (full victim (omega arith) b) owner in
          (
            victim,
            mem,
            out,
            rw (e, get_lru_frame_lem s.mem.lru front victim order, go_on, run) refl,
            b,
            inr (full, (front, order)),
            g',
            faulted,
          )
      | inr (frame, e) ↦
          let found = subst (IsFirstVacant s.mem.fstore 0 num_frames) e first in
          let (mem, loads, g', into) =
            mem_load_page_into_frame-IsPaged s.mem at page frame g p h found.1 found.2 in
          (
            frame,
            mem,
            codes "Page fault!" ∷ s.out,
            rw (e, loads) refl,
            found.1,
            inl found,
            g',
            PageIn-Faulted s.mem mem at page frame found.2 into,
          )
    ]
