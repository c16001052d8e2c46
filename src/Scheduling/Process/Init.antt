-- ===== src/Scheduling/Process/Init.antt =====
-- pcb_init makes a process whose first pages may be present.
use pico_shell.Base.{
  Bool-cases, List, [], ap, arith, get_or, inl, inr, length, minus_one, none, refl, set, some, suc,
  sym, true, zero, ℕ, ◌*◌, ◌<◌, ◌==◌, ◌∙◌, ◌∷◌, ◌≡◌, ◌≢◌, ◌≤◌,
}
use pico_shell.Memory.Frames.{frame_size}
use pico_shell.Memory.Frames.Store.{vacant}
use pico_shell.Memory.Lru.{num_frames}
use pico_shell.Memory.Manager.{MemState, Pcb, set_process}
use pico_shell.Memory.Manager.Invariant.{
  IsPaged, IsPaged-program_of, IsProgram-same, Owned-program_of, mapped-program_of, program_of,
  without_table,
}
use pico_shell.Memory.Manager.Load.{PageIn, PageIn-there, mem_load_page_into_frame-IsPaged}
use pico_shell.Memory.Manager.Paging.{IsProgram}
use pico_shell.Scheduling.Process.{load_page, process_at, put_process}
use pico_shell.System.{M, System}

set_same : (l : List ℕ) (i d : ℕ) → i < length l → set l i (get_or l i d) ≡ l
set_same [] i d h = refl
set_same (a ∷ l) zero d h = refl
set_same (a ∷ l) (suc i) d h = ap (a ∷◌) (set_same l i d (omega arith))

-- The addresses that malloc has not given out yet have no page tables and no links.
pub record Unallocated (s : System) : Type 0 where
  pub blank : (a : ℕ) → s.next_pcb ≤ a → (s.mem.process a).page_table ≡ []
  pub loose : (a : ℕ) → s.next_pcb ≤ a → (s.mem.process a).next ≡ none

pub set_process_other :
    (process : ℕ → Pcb) (at a : ℕ) (pcb : Pcb) → a ≢ at → set_process process at pcb a ≡ process a
unfolding set_process
set_process_other process at a pcb ne = ground arith

pub set_process_self :
    (process : ℕ → Pcb) (at : ℕ) (pcb : Pcb) → set_process process at pcb at ≡ pcb
unfolding set_process
set_process_self process at pcb = ground arith

set_process_same :
    (process : ℕ → Pcb) (at a : ℕ) (pcb : Pcb)
    → pcb ≡ process at
    → set_process process at pcb a ≡ process a
unfolding set_process
set_process_same process at a pcb e = elim (Bool-cases (a == at)) [
  | inl u ↦ let here : a ≡ at = ground (arith, u) in rw u (e ∙ ap process (sym here))
  | inr u ↦ rw u refl
]

-- a process that was not there, without pages
pub new-IsPaged :
    (s : MemState) (at : ℕ) (pcb : Pcb)
    → IsPaged s
    → (s.process at).page_table ≡ []
    → ((p : ℕ) → get_or pcb.page_table p minus_one ≡ minus_one)
    → IsPaged (record s { process = set_process s.process at pcb })
new-IsPaged s at pcb g blank absent =
    let process = set_process s.process at pcb in
    record {
      store = g.store;
      frames = g.frames;
      order = g.order;
      complete = g.complete;
      mapped = λ a p h present. elim (Bool-cases (a == at)) [
        | inl e ↦
            let here : a ≡ at = ground (arith, e) in
            absurd (
              present (
                ap (λ q. get_or (process q).page_table p minus_one) here
                ∙ ap (λ x. get_or x.page_table p minus_one) (set_process_self s.process at pcb)
                ∙ absent p))
        | inr e ↦
            mapped-program_of s process a p
              (ap program_of (set_process_other s.process at a pcb (ground (arith, e)))) g h present
      ];
      owned = λ f b full.
          let o = g.owned f b full in
          let ne : o.at ≢ at = λ e. absurd (
            omega
              (arith, o.inside, ap (λ a. length (s.process a).page_table) e, ap length blank)) in
          Owned-program_of s process f o
            (ap program_of (set_process_other s.process at o.at pcb ne));
    }

-- a page in a vacant frame, as the loop of pcb_init loads it
pub load_one :
    (s : System) (at page frame : ℕ)
    → IsPaged s.mem
    → IsProgram (s.mem.process at)
    → page * frame_size < (s.mem.process at).file_length
    → frame < num_frames
    → vacant s.mem.fstore frame ≡ true
    → (mem : MemState) × ((more : M (Unit {0}))
        → load_page at page more (some frame) s ≡ more (record s { mem = mem }))
      × IsPaged mem
      × PageIn s.mem at page frame mem
unfolding load_page put_process process_at
load_one s at page frame g p h b free =
    let (m, loads, g', into) = mem_load_page_into_frame-IsPaged s.mem at page frame g p h b free in
    let same = into.programs in
    let pcb = m.process at in
    let p' = IsProgram-same s.mem m at same p in
    let table : set pcb.page_table page frame ≡ pcb.page_table =
      ap (set pcb.page_table page) (sym (PageIn-there s.mem m at page frame into))
      ∙ set_same pcb.page_table page minus_one
          (omega (arith, p'.pages, p'.short, h, ap (λ x. x.file_length) (same.rest at))) in
    let pcb' = record pcb { page_table = set pcb.page_table page frame } in
    let whole : pcb' ≡ pcb = ap (λ t. record pcb { page_table = t }) table in
    let process = set_process m.process at pcb' in
    let kept : (a : ℕ) → process a ≡ m.process a =
      λ a. set_process_same m.process at a pcb' whole in
    (
      record m { process = process },
      λ more. rw loads refl,
      IsPaged-program_of m process (λ a. ap program_of (kept a)) g',
      record {
        slots = λ a q. ap (λ x. get_or x.page_table q minus_one) (kept a) ∙ into.slots a q;
        others = λ a ne. kept a ∙ into.others a ne;
        frames = into.frames;
        programs = record {
          variables = same.variables;
          rest = λ a. ap without_table (kept a) ∙ same.rest a;
          sizes = λ a. ap (λ x. length x.page_table) (kept a) ∙ same.sizes a;
        };
      },
    )
