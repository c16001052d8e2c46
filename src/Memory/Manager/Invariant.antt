-- ===== src/Memory/Manager/Invariant.antt =====
-- What holds of the memory manager between two calls: the page tables and the frame table agree.
use pico_shell.Base.{
  Bool-cases, List, [], ap, arith, false, get_or, get_or-set_ne, get_or-set_self, if◌then◌else◌,
  inl, inr, length, length-set, minus_one, none, not, refl, set, some, subst, sym, ℕ, ◌&&◌, ◌*◌,
  ◌+◌, ◌<◌, ◌==◌, ◌∙◌, ◌≡◌, ◌≢◌,
}
use pico_shell.Memory.Frames.{frame_size}
use pico_shell.Memory.Frames.Store.{vacant}
use pico_shell.Memory.Lru.{num_frames}
use pico_shell.Memory.Lru.Members.{Complete}
use pico_shell.Memory.Lru.Order.{IsOrder}
use pico_shell.Memory.Manager.{MemState, Pcb, is_allocated, set_process, vacant_entry}
use pico_shell.Memory.Manager.Paging.{IsProgram, IsStore}
use pico_shell.Memory.Variables.{VarEntry, is_free}

-- The frame holds the page of the process: its entry says so, and the lines of the page that the
-- program has are in it.
pub record Holds (s : MemState) (at page frame : ℕ) : Type 0 where
  pub inside : frame < num_frames
  pub entry : get_or s.fstore.frame_table frame vacant_entry ≡ record { page = page; pcb = some at }
  pub lines :
      (i : ℕ)
      → i < frame_size
      → page * frame_size + i < (s.process at).file_length
      → get_or s.fstore.memory (frame * frame_size + i) none
        ≡ some (get_or (s.process at).file_contents (page * frame_size + i) [])

-- the frame that a page table has for a page, or -1
abbrev pub table_at : MemState → ℕ → ℕ → ℕ
table_at s at page = get_or (s.process at).page_table page minus_one

-- the frame is of a page that is in the page table's range
pub record Owned (s : MemState) (frame : ℕ) : Type 0 where
  pub page : ℕ
  pub at : ℕ
  pub entry : get_or s.fstore.frame_table frame vacant_entry ≡ record { page = page; pcb = some at }
  pub inside : page < length (s.process at).page_table

-- The invariant. `frames` is the order of use.
pub record IsPaged (s : MemState) : Type 0 where
  pub store : IsStore s.fstore
  pub frames : List ℕ
  pub order : IsOrder s.lru frames
  pub complete : Complete frames
  -- a page that is present is in the frame that the page table names
  pub mapped :
      (at page : ℕ)
      → page * frame_size < (s.process at).file_length
      → table_at s at page ≢ minus_one
      → Holds s at page (table_at s at page)
  -- a frame that is not vacant has an owner
  pub owned : (frame : ℕ) → frame < num_frames → vacant s.fstore frame ≡ false → Owned s frame

-- a frame that holds a page is not vacant
pub Holds-vacant :
    (s : MemState) (at page frame : ℕ)
    → page * frame_size < (s.process at).file_length
    → Holds s at page frame
    → vacant s.fstore frame ≡ false
unfolding is_free
Holds-vacant s at page frame h holds =
    ap (λ q. is_free (get_or s.fstore.memory q none)) (omega arith)
    ∙ ap is_free (holds.lines 0 (omega arith) (omega arith))

-- `process'` has the page at the frame in one page table, and is `process` elsewhere
pub entry_after :
    (process : ℕ → Pcb) (at page frame a p : ℕ)
    → page < length (process at).page_table
    → get_or
        (set_process process at
          (record (process at) { page_table = set (process at).page_table page frame })
          a).page_table
        p
        minus_one
      ≡ (if a == at && p == page then frame else get_or (process a).page_table p minus_one)
unfolding set_process
entry_after process at page frame a p h = elim (Bool-cases (a == at)) [
  | inl e ↦
      let here : a ≡ at = ground (arith, e) in
      elim (Bool-cases (p == page)) [
        | inl u ↦
            let same : p ≡ page = ground (arith, u) in
            rw (e, u)
              (ap (λ q. get_or (set (process at).page_table page frame) q minus_one) same
                ∙ get_or-set_self (process at).page_table page frame minus_one h)
        | inr u ↦
            rw (e, u)
              (get_or-set_ne (process at).page_table page p frame minus_one (ground (arith, u))
                ∙ ap (λ q. get_or (process q).page_table p minus_one) (sym here))
      ]
  | inr e ↦ rw e refl
]

-- a process without its page table
abbrev pub without_table : Pcb → Pcb
without_table pcb = record pcb { page_table = [] }

-- the same variables, and the same processes up to the entries of their page tables
pub record SamePrograms (s s' : MemState) : Type 0 where
  pub variables : s'.vstore ≡ s.vstore
  pub rest : (a : ℕ) → without_table (s'.process a) ≡ without_table (s.process a)
  pub sizes : (a : ℕ) → length (s'.process a).page_table ≡ length (s.process a).page_table

pub SamePrograms-refl : (s : MemState) → SamePrograms s s
SamePrograms-refl s = record { variables = refl; rest = λ a. refl; sizes = λ a. refl }

pub SamePrograms-trans :
    (s s' s'' : MemState) → SamePrograms s s' → SamePrograms s' s'' → SamePrograms s s''
SamePrograms-trans s s' s'' g h = record {
  variables = h.variables ∙ g.variables;
  rest = λ a. h.rest a ∙ g.rest a;
  sizes = λ a. h.sizes a ∙ g.sizes a;
}

pub rest_after :
    (process : ℕ → Pcb) (at page frame a : ℕ)
    → without_table (
        set_process process at
          (record (process at) { page_table = set (process at).page_table page frame })
          a)
      ≡ without_table (process a)
unfolding set_process
rest_after process at page frame a = elim (Bool-cases (a == at)) [
  | inl e ↦
      let here : a ≡ at = ground (arith, e) in rw e (ap (λ q. without_table (process q)) (sym here))
  | inr e ↦ rw e refl
]

pub sizes_after :
    (process : ℕ → Pcb) (at page frame a : ℕ)
    → length
        (set_process process at
          (record (process at) { page_table = set (process at).page_table page frame })
          a).page_table
      ≡ length (process a).page_table
unfolding set_process
sizes_after process at page frame a = elim (Bool-cases (a == at)) [
  | inl e ↦
      let here : a ≡ at = ground (arith, e) in
      rw e (
        length-set (process at).page_table page frame
        ∙ ap (λ q. length (process q).page_table) (sym here))
  | inr e ↦ rw e refl
]

-- a program is one after a change of page tables
pub IsProgram-same :
    (s s' : MemState) (at : ℕ)
    → SamePrograms s s'
    → IsProgram (s.process at)
    → IsProgram (s'.process at)
IsProgram-same s s' at same p =
    let rest = same.rest at in
    record {
      lines =
          omega
            (arith, p.lines, ap (λ x. x.file_length) rest, ap (λ x. length x.file_contents) rest);
      short = omega (arith, p.short, ap (λ x. x.file_length) rest);
      pages = same.sizes at ∙ p.pages;
      alive = ap is_allocated rest ∙ p.alive;
    }

-- what the memory manager knows of a process: its program and its page table
abbrev pub program_of : Pcb → Pcb
program_of pcb = record pcb {
  pid = 0;
  filename = none;
  program_counter = 0;
  job_score = 0;
  next = none;
}

-- a process that keeps its program and its page table is where it was
pub mapped-program_of :
    (s : MemState) (process : ℕ → Pcb) (a p : ℕ)
    → program_of (process a) ≡ program_of (s.process a)
    → IsPaged s
    → p * frame_size < (process a).file_length
    → get_or (process a).page_table p minus_one ≢ minus_one
    → Holds (record s { process = process }) a p (get_or (process a).page_table p minus_one)
mapped-program_of s process a p same g h present =
    let table : get_or (process a).page_table p minus_one ≡ table_at s a p =
      ap (λ x. get_or x.page_table p minus_one) same in
    let held =
      g.mapped a p (omega (arith, h, ap (λ x. x.file_length) same)) (λ u. present (table ∙ u)) in
    subst (λ f. Holds (record s { process = process }) a p f) (sym table)
      (record {
        inside = held.inside;
        entry = held.entry;
        lines = λ i b c.
            held.lines i b (omega (arith, c, ap (λ x. x.file_length) same))
            ∙ ap (λ x. some (get_or x.file_contents (p * frame_size + i) [])) (sym same);
      })

pub Owned-program_of :
    (s : MemState) (process : ℕ → Pcb) (f : ℕ) (o : Owned s f)
    → program_of (process o.at) ≡ program_of (s.process o.at)
    → Owned (record s { process = process }) f
Owned-program_of s process f o same = record {
  page = o.page;
  at = o.at;
  entry = o.entry;
  inside = omega (arith, o.inside, ap (λ x. length x.page_table) same);
}

-- changes of processes that keep their programs and page tables
pub IsPaged-program_of :
    (s : MemState) (process : ℕ → Pcb)
    → ((a : ℕ) → program_of (process a) ≡ program_of (s.process a))
    → IsPaged s
    → IsPaged (record s { process = process })
IsPaged-program_of s process same g = record {
  store = g.store;
  frames = g.frames;
  order = g.order;
  complete = g.complete;
  mapped = λ a p h present. mapped-program_of s process a p (same a) g h present;
  owned = λ f b full. let o = g.owned f b full in Owned-program_of s process f o (same o.at);
}

pub IsProgram-program_of :
    (pcb pcb' : Pcb)
    → program_of pcb' ≡ program_of pcb
    → pcb'.filename ≡ pcb.filename
    → IsProgram pcb
    → IsProgram pcb'
IsProgram-program_of pcb pcb' same name p = record {
  lines =
      omega (arith, p.lines, ap (λ x. x.file_length) same, ap (λ x. length x.file_contents) same);
  short = omega (arith, p.short, ap (λ x. x.file_length) same);
  pages = ap (λ x. length x.page_table) same ∙ p.pages;
  alive = ap (λ n. not (is_free n)) name ∙ p.alive;
}

pub program_of-set_process :
    (process : ℕ → Pcb) (at a : ℕ) (pcb : Pcb)
    → program_of pcb ≡ program_of (process at)
    → program_of (set_process process at pcb a) ≡ program_of (process a)
unfolding set_process
program_of-set_process process at a pcb same = elim (Bool-cases (a == at)) [
  | inl e ↦
      let here : a ≡ at = ground (arith, e) in
      rw e (same ∙ ap (λ q. program_of (process q)) (sym here))
  | inr e ↦ rw e refl
]

-- the variables are no part of the invariant
pub IsPaged-variables :
    (s : MemState) (vstore : List VarEntry) → IsPaged s → IsPaged (record s { vstore = vstore })
IsPaged-variables s vstore g = record {
  store = g.store;
  frames = g.frames;
  order = g.order;
  complete = g.complete;
  mapped = λ a p h present.
      let held = g.mapped a p h present in
      record { inside = held.inside; entry = held.entry; lines = held.lines };
  owned = λ f b full.
      let o = g.owned f b full in
      record { page = o.page; at = o.at; entry = o.entry; inside = o.inside };
}
