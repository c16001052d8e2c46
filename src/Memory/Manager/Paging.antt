-- ===== src/Memory/Manager/Paging.antt =====
-- A page that was loaded is found through the page table.
use pico_shell.Base.{
  Bool-cases, List, Ptr, [], and_then, ap, arith, false, get_or, get_or-set_ne, get_or-set_self,
  if◌then◌else◌, inl, inr, leb, length, length-set, ltb, minus_one, mul32, none, not, refl, set,
  slt, some, suc, sym, true, zero, ℕ, ◌%◌, ◌&&◌, ◌*◌, ◌++◌, ◌+◌, ◌/◌, ◌<◌, ◌==◌, ◌||◌, ◌∙◌, ◌∷◌,
  ◌≡◌, ◌≢◌, ◌≤◌, ◌⊎◌,
}
use pico_shell.Memory.Frames.{FrameStore, frame_size, frame_store_size, fstore_get}
use pico_shell.Memory.Frames.Store.{fstore_evict_frame_lem, fstore_set_in}
use pico_shell.Memory.Lru.{Lru, num_frames}
use pico_shell.Memory.Lru.Chain.{Fresh}
use pico_shell.Memory.Lru.Order.{IsOrder, access_frame-IsOrder}
use pico_shell.Memory.Manager.{
  MemState, Pcb, copy_lines, enter_page, entered, is_allocated, leave_page, max_file_lines,
  max_page_table_size, mem_free_memory_frame, mem_load_page_into_frame, set_process, vacant_entry,
}

-- A process that is not freed, whose program's lines are in memory up to its length, with a page table
-- for all of them.
pub record IsProgram (pcb : Pcb) : Type 0 where
  pub lines : pcb.file_length ≤ length pcb.file_contents
  pub short : pcb.file_length ≤ max_file_lines
  pub pages : length pcb.page_table ≡ max_page_table_size
  pub alive : is_allocated pcb ≡ true

copy_lines_lem :
    (contents : List (List ℕ)) (file_length page frame left offset : ℕ) (s : FrameStore)
    → file_length ≤ length contents
    → length s.memory ≡ frame_store_size
    → frame * frame_size + offset + left ≤ frame_store_size
    → (s' : FrameStore) × (copy_lines contents file_length page frame left offset s ≡ some s')
      × (length s'.memory ≡ frame_store_size)
      × (s'.frame_table ≡ s.frame_table)
      × ((i : ℕ)
          → offset ≤ i
          → i < offset + left
          → page * frame_size + i < file_length
          → get_or s'.memory (frame * frame_size + i) none
            ≡ some (get_or contents (page * frame_size + i) []))
      × ((a : ℕ)
          → (a < frame * frame_size + offset) ⊎ (frame * frame_size + offset + left ≤ a)
          → get_or s'.memory a none ≡ get_or s.memory a none)
unfolding copy_lines
copy_lines_lem contents file_length page frame zero offset s h size fits =
    (s, refl, size, refl, λ i a b c. absurd (omega arith), λ a far. refl)
copy_lines_lem contents file_length page frame (suc left) offset s h size fits =
    elim (Bool-cases (ltb (page * frame_size + offset) file_length)) [
      | inl inside ↦
          let line = get_or contents (page * frame_size + offset) [] in
          let s₁ : FrameStore = record s {
            memory = set s.memory (frame * frame_size + offset) (some line);
          } in
          let has : ltb (page * frame_size + offset) (length contents) ≡ true =
            ground (arith, inside) in
          let (s', run, size', table, copied, kept) =
            copy_lines_lem contents file_length page frame left (offset + 1) s₁ h
              (length-set s.memory (frame * frame_size + offset) (some line) ∙ size)
              (omega arith) in
          (
            s',
            rw (inside, has, fstore_set_in s line (frame * frame_size + offset) size (omega arith))
                run,
            size',
            table,
            λ i a b c. elim (Bool-cases (i == offset)) [
              | inl e ↦
                  let same : i ≡ offset = ground (arith, e) in
                  ap (λ q. get_or s'.memory (frame * frame_size + q) none) same
                  ∙ kept (frame * frame_size + offset) (inl (omega arith))
                  ∙ get_or-set_self s.memory (frame * frame_size + offset) (some line) none
                      (omega arith)
                  ∙ ap (λ q. some (get_or contents (page * frame_size + q) [])) (sym same)
              | inr e ↦ copied i (ground (arith, e)) (omega arith) c
            ],
            λ a far.
                kept a (omega arith)
                ∙ get_or-set_ne s.memory (frame * frame_size + offset) a (some line) none
                    (omega arith),
          )
      | inr past ↦
          let (s', run, size', table, copied, kept) =
            copy_lines_lem contents file_length page frame left (offset + 1) s h size
              (omega arith) in
          (
            s',
            rw past run,
            size',
            table,
            λ i a b c. copied i (ground (arith, past)) (omega arith) c,
            λ a far. kept a (omega arith),
          )
    ]

-- a frame table of all frames over a memory of all lines
pub record IsStore (s : FrameStore) : Type 0 where
  pub lines : length s.memory ≡ frame_store_size
  pub entries : length s.frame_table ≡ num_frames

-- the line that the scheduler fetches for a program counter, through the page table
unfoldable pub fetched : MemState → ℕ → ℕ → Ptr (List ℕ)
fetched s at counter =
    get_or s.fstore.memory
      (get_or (s.process at).page_table (counter / frame_size) minus_one * frame_size
        + counter % frame_size)
      none

table_entry :
    (s : MemState) (at page frame : ℕ) (fstore : FrameStore) (lru : Lru) (counter : ℕ)
    → counter / frame_size ≡ page
    → page < length (s.process at).page_table
    → get_or
        ((entered s at page frame fstore lru).process at).page_table
        (counter / frame_size)
        minus_one
      ≡ frame
unfolding entered set_process
table_entry s at page frame fstore lru counter e h =
    ground (arith, get_or-set_self (s.process at).page_table page frame minus_one h)

-- the state after mem_load_page_into_frame of a page of a program, into a frame that the list has
pub mem_load_page_into_frame-entered :
    (s : MemState) (at page frame : ℕ) (before after : List ℕ)
    → IsProgram (s.process at)
    → IsStore s.fstore
    → page * frame_size < (s.process at).file_length
    → frame < num_frames
    → IsOrder s.lru (before ++ frame ∷ after)
    → Fresh frame before
    → (fs : FrameStore) × (lru : Lru) × (mem_load_page_into_frame s at page frame
        ≡ some (entered s at page frame fs lru))
      × IsStore fs
      × (fs.frame_table ≡ s.fstore.frame_table)
      × ((i : ℕ)
          → i < frame_size
          → page * frame_size + i < (s.process at).file_length
          → get_or fs.memory (frame * frame_size + i) none
            ≡ some (get_or (s.process at).file_contents (page * frame_size + i) []))
      × ((a : ℕ)
          → (a < frame * frame_size) ⊎ (frame * frame_size + frame_size ≤ a)
          → get_or fs.memory a none ≡ get_or s.fstore.memory a none)
      × IsOrder lru (frame ∷ before ++ after)
unfolding mem_load_page_into_frame enter_page
mem_load_page_into_frame-entered s at page frame before after p st inside h order new =
    let pcb = s.process at in
    let (fs, run, size, table, copied, kept) =
      copy_lines_lem pcb.file_contents pcb.file_length page frame frame_size 0 s.fstore p.lines
        st.lines (omega arith) in
    let (lru, moved_to, order') =
      access_frame-IsOrder s.lru before frame after order new (omega arith) in
    let guard : slt page 0 || not (slt (mul32 page frame_size) pcb.file_length) ≡ false =
      ground (arith, p.short) in
    let bounds : not (ltb frame (length fs.frame_table) && ltb page (length pcb.page_table))
        ≡ false =
      ground (arith, p.short, p.pages, st.entries, table) in
    (
      fs,
      lru,
      rw (guard, run, bounds, moved_to) refl,
      record { lines = size; entries = ap length table ∙ st.entries },
      table,
      λ i a c. copied i (omega arith) (omega arith) c,
      λ a far. kept a (omega arith),
      order',
    )

-- mem_load_page_into_frame of a page of a program, into a frame that the list of frames has,
-- succeeds. Then a fetch of any line of the page, through the page table, gives the program's line;
-- the frame's entry names the page and the process, the frame is the most recently used one, and the
-- lines of every other frame are kept.
pub mem_load_page_into_frame_lem :
    (s : MemState) (at page frame : ℕ) (before after : List ℕ)
    → IsProgram (s.process at)
    → IsStore s.fstore
    → page * frame_size < (s.process at).file_length
    → frame < num_frames
    → IsOrder s.lru (before ++ frame ∷ after)
    → Fresh frame before
    → (s' : MemState) × (mem_load_page_into_frame s at page frame ≡ some s')
      × ((counter : ℕ)
          → counter / frame_size ≡ page
          → counter < (s.process at).file_length
          → fetched s' at counter ≡ some (get_or (s.process at).file_contents counter []))
      × (get_or s'.fstore.frame_table frame vacant_entry ≡ record { page = page; pcb = some at })
      × IsOrder s'.lru (frame ∷ before ++ after)
      × ((a : ℕ)
          → (a < frame * frame_size) ⊎ (frame * frame_size + frame_size ≤ a)
          → get_or s'.fstore.memory a none ≡ get_or s.fstore.memory a none)
unfolding fetched entered
mem_load_page_into_frame_lem s at page frame before after p st inside h order new =
    let pcb = s.process at in
    let (fs, lru, run, st', table, copied, kept, order') =
      mem_load_page_into_frame-entered s at page frame before after p st inside h order new in
    (
      entered s at page frame fs lru,
      run,
      λ counter e c.
          ap (λ q. get_or fs.memory (q * frame_size + counter % frame_size) none)
            (table_entry s at page frame fs lru counter e (omega (arith, p.pages, p.short)))
          ∙ copied (counter % frame_size) (omega arith) (omega arith)
          ∙ ap (λ q. some (get_or pcb.file_contents q [])) (omega arith),
      get_or-set_self fs.frame_table frame (record { page = page; pcb = some at }) vacant_entry
          (omega (arith, st'.entries)),
      order',
      kept,
    )

-- mem_free_memory_frame of a frame that holds a page of a process that is not freed succeeds: it leaves the frame's
-- lines NULL and its entry empty, the page marked as absent in the page table of the process, the
-- lines of every other frame kept, and every other process too.
pub mem_free_memory_frame_lem :
    (s : MemState) (frame page at : ℕ)
    → IsStore s.fstore
    → frame < num_frames
    → get_or s.fstore.frame_table frame vacant_entry ≡ record { page = page; pcb = some at }
    → page < length (s.process at).page_table
    → is_allocated (s.process at) ≡ true
    → (s' : MemState) × (mem_free_memory_frame s frame ≡ some s')
      × ((a : ℕ)
          → fstore_get s'.fstore a ≡ (
              if leb (frame * frame_size) a && ltb a (frame * frame_size + frame_size)
              then some none
              else fstore_get s.fstore a))
      × (get_or s'.fstore.frame_table frame vacant_entry ≡ vacant_entry)
      × (get_or (s'.process at).page_table page 0 ≡ minus_one)
      × ((other : ℕ) → other ≢ at → s'.process other ≡ s.process other)
unfolding mem_free_memory_frame leave_page set_process fstore_get
mem_free_memory_frame_lem s frame page at st h held inside here =
    let (fs, run, vacated, lines, table) = fstore_evict_frame_lem s.fstore frame st.lines h in
    let entry : get_or fs.frame_table frame vacant_entry ≡ record { page = page; pcb = some at } =
      ap (λ t. get_or t frame vacant_entry) table ∙ held in
    let bound : ltb page (length (s.process at).page_table) ≡ true = ground arith in
    (
      record s {
        fstore = record fs { frame_table = set fs.frame_table frame vacant_entry };
        process =
            set_process s.process at
              (record (s.process at) { page_table = set (s.process at).page_table page minus_one });
      },
      rw (run, and_then, entry, bound, here) refl,
      lines,
      get_or-set_self fs.frame_table frame vacant_entry vacant_entry
          (omega (arith, st.entries, ap length table)),
      ground (arith, get_or-set_self (s.process at).page_table page minus_one 0 inside),
      λ other ne. ground arith,
    )
