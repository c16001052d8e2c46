-- ===== src/Memory/Manager/Evict.antt =====
-- mem_free_memory_frame keeps the invariant.
use pico_shell.Base.{
  Bool, Bool-cases, Ptr, [], and_then, ap, arith, false, get_or, get_or-set_ne, if◌then◌else◌, inl,
  inr, leb, length, length-set, ltb, minus_one, none, refl, set, some, some_equal, subst, sym, true,
  ℕ, ◌&&◌, ◌*◌, ◌+◌, ◌<◌, ◌==◌, ◌∙◌, ◌≡◌, ◌≢◌, ◌≤◌, ◌⊎◌,
}
use pico_shell.Memory.Frames.{FrameStore, frame_size, fstore_evict_frame}
use pico_shell.Memory.Frames.Store.{clear_lines_lem, vacant}
use pico_shell.Memory.Lru.{num_frames}
use pico_shell.Memory.Manager.{
  MemState, is_allocated, leave_page, mem_free_memory_frame, set_process, vacant_entry,
}
use pico_shell.Memory.Manager.Invariant.{
  Holds, IsPaged, Owned, SamePrograms, entry_after, rest_after, sizes_after, table_at,
}
use pico_shell.Memory.Manager.Load.{other_frame, vacant-kept}
use pico_shell.Memory.Manager.Paging.{IsStore}
use pico_shell.Memory.Variables.{is_free}

-- the state after mem_free_memory_frame of a frame that has an owner
left_by : MemState → ℕ → ℕ → ℕ → FrameStore → MemState
unfolding set_process
left_by s at page frame fs = record s {
  fstore = record fs { frame_table = set fs.frame_table frame vacant_entry };
  process =
      set_process s.process at
        (record (s.process at) { page_table = set (s.process at).page_table page minus_one });
}

free_run :
    (s : MemState) (frame : ℕ)
    → IsStore s.fstore
    → frame < num_frames
    → (o : Owned s frame) → is_allocated (s.process o.at) ≡ true
    → (fs : FrameStore) × (mem_free_memory_frame s frame ≡ some (left_by s o.at o.page frame fs))
      × IsStore fs
      × (fs.frame_table ≡ s.fstore.frame_table)
      × ((a : ℕ)
          → get_or fs.memory a none ≡ (
              if leb (frame * frame_size) a && ltb a (frame * frame_size + frame_size)
              then none
              else get_or s.fstore.memory a none))
unfolding mem_free_memory_frame fstore_evict_frame leave_page left_by
free_run s frame st h o here =
    let (memory, run, size, lines) =
      clear_lines_lem frame_size (frame * frame_size) s.fstore.memory (omega (arith, st.lines)) in
    let bound : ltb o.page (length (s.process o.at).page_table) ≡ true = ground (arith, o.inside) in
    (
      record s.fstore { memory = memory },
      rw (run, and_then, o.entry, bound, here) refl,
      record { lines = size ∙ st.lines; entries = st.entries },
      refl,
      lines,
    )

-- a page of another frame is where it was
Holds-left :
    (s : MemState) (at page frame : ℕ) (fs : FrameStore)
    → fs.frame_table ≡ s.fstore.frame_table
    → ((a : ℕ)
        → (a < frame * frame_size) ⊎ (frame * frame_size + frame_size ≤ a)
        → get_or fs.memory a none ≡ get_or s.fstore.memory a none)
    → (b p f : ℕ) → f ≢ frame
    → Holds s b p f
    → Holds (left_by s at page frame fs) b p f
unfolding left_by
Holds-left s at page frame fs table kept b p f ne holds =
    let rest = rest_after s.process at page minus_one b in
    record {
      inside = holds.inside;
      entry =
          get_or-set_ne fs.frame_table frame f vacant_entry vacant_entry (λ e. ne (sym e))
          ∙ ap (λ t. get_or t f vacant_entry) table
          ∙ holds.entry;
      lines = λ i h c.
          kept (f * frame_size + i) (other_frame f frame i ne h)
          ∙ holds.lines i h (omega (arith, c, ap (λ q. q.file_length) rest))
          ∙ ap (λ q. some (get_or q.file_contents (p * frame_size + i) [])) (sym rest);
    }

-- the page tables
mapped-left :
    (s : MemState) (frame : ℕ) (fs : FrameStore) (o : Owned s frame)
    → IsPaged s
    → fs.frame_table ≡ s.fstore.frame_table
    → ((a : ℕ)
        → (a < frame * frame_size) ⊎ (frame * frame_size + frame_size ≤ a)
        → get_or fs.memory a none ≡ get_or s.fstore.memory a none)
    → (b p : ℕ) → p * frame_size < ((left_by s o.at o.page frame fs).process b).file_length
    → table_at (left_by s o.at o.page frame fs) b p ≢ minus_one
    → Holds (left_by s o.at o.page frame fs) b p (table_at (left_by s o.at o.page frame fs) b p)
unfolding left_by
mapped-left s frame fs o g table kept b p h present =
    let slot = entry_after s.process o.at o.page minus_one b p o.inside in
    let rest = rest_after s.process o.at o.page minus_one b in
    elim (Bool-cases (b == o.at && p == o.page)) [
      | inl e ↦ absurd (present (ground (arith, slot, e)))
      | inr e ↦
          let kept_slot : table_at (left_by s o.at o.page frame fs) b p ≡ table_at s b p =
            ground (arith, slot, e) in
          let held =
            g.mapped b p (omega (arith, h, ap (λ q. q.file_length) rest))
              (λ u. present (kept_slot ∙ u)) in
          subst (λ f. Holds (left_by s o.at o.page frame fs) b p f) (sym kept_slot)
            (Holds-left s o.at o.page frame fs table kept b p (table_at s b p)
              (λ u.
                let one : record { page = p; pcb = some b }
                    ≡ record { page = o.page; pcb = some o.at } =
                  sym held.entry
                  ∙ ap (λ f. get_or s.fstore.frame_table f vacant_entry) u
                  ∙ o.entry in
                absurd (ground (arith, e, ap (λ x. x.page) one, some_equal (ap (λ x. x.pcb) one))))
              held)
    ]

Owned-left :
    (s : MemState) (at page frame : ℕ) (fs : FrameStore)
    → fs.frame_table ≡ s.fstore.frame_table
    → (f : ℕ) → f ≢ frame
    → Owned s f
    → Owned (left_by s at page frame fs) f
unfolding left_by
Owned-left s at page frame fs table f ne o = record {
  page = o.page;
  at = o.at;
  entry =
      get_or-set_ne fs.frame_table frame f vacant_entry vacant_entry (λ e. ne (sym e))
      ∙ ap (λ t. get_or t f vacant_entry) table
      ∙ o.entry;
  inside = omega (arith, o.inside, sizes_after s.process at page minus_one o.at);
}

-- the lines after an eviction
cleared :
    (s : MemState) (fs : FrameStore) (frame : ℕ)
    → ((a : ℕ)
        → get_or fs.memory a none ≡ (
            if leb (frame * frame_size) a && ltb a (frame * frame_size + frame_size)
            then none
            else get_or s.fstore.memory a none))
    → (vacant fs frame ≡ true)
      × ((a : ℕ)
          → (a < frame * frame_size) ⊎ (frame * frame_size + frame_size ≤ a)
          → get_or fs.memory a none ≡ get_or s.fstore.memory a none)
unfolding is_free
cleared s fs frame lines = (
  ground (arith, lines (frame * frame_size)),
  λ a far. elim far [
    | inl low ↦ ground (arith, lines a, low)
    | inr high ↦ ground (arith, lines a, high)
  ],
)

-- the process that the frame's entry names, and that it names the page of a process
unfoldable pub points_to : Ptr ℕ → ℕ → Bool
points_to none a = false
points_to (some at) a = at == a

abbrev pub names_page : MemState → ℕ → ℕ → ℕ → Bool
names_page s frame a p =
    let entry = get_or s.fstore.frame_table frame vacant_entry in
    points_to entry.pcb a && entry.page == p

-- the owner of the frame, if there is one, is not freed
abbrev pub OwnerAllocated : MemState → ℕ → Type 0
OwnerAllocated s frame =
    (a : ℕ)
    → (get_or s.fstore.frame_table frame vacant_entry).pcb ≡ some a
    → is_allocated (s.process a) ≡ true

-- mem_free_memory_frame of a frame that is not vacant, whose owner is not freed, succeeds and keeps
-- the invariant. Then the frame is vacant, the page that was in it is absent, and no other entry of
-- a page table and no other frame has changed.
pub mem_free_memory_frame-IsPaged :
    (s : MemState) (frame : ℕ)
    → IsPaged s
    → frame < num_frames
    → vacant s.fstore frame ≡ false
    → OwnerAllocated s frame
    → (s' : MemState) × (mem_free_memory_frame s frame ≡ some s')
      × IsPaged s'
      × (vacant s'.fstore frame ≡ true)
      × ((a p : ℕ)
          → table_at s' a p ≡ (if names_page s frame a p then minus_one else table_at s a p))
      × ((f : ℕ) → f ≢ frame → vacant s'.fstore f ≡ vacant s.fstore f)
      × SamePrograms s s'
unfolding left_by points_to
mem_free_memory_frame-IsPaged s frame g h full here =
    let o = g.owned frame h full in
    let (fs, run, st, table, lines) =
      free_run s frame g.store h o (here o.at (ap (λ e. e.pcb) o.entry)) in
    let (free, kept) = cleared s fs frame lines in
    (
      left_by s o.at o.page frame fs,
      run,
      record {
        store = record {
          lines = st.lines;
          entries = length-set fs.frame_table frame vacant_entry ∙ st.entries;
        };
        frames = g.frames;
        order = g.order;
        complete = g.complete;
        mapped = mapped-left s frame fs o g table kept;
        owned = λ f b taken. elim (Bool-cases (f == frame)) [
          | inl e ↦
              let here : f ≡ frame = ground (arith, e) in
              absurd (ground (arith, taken, ap (vacant fs) here, free))
          | inr e ↦
              let ne : f ≢ frame = ground (arith, e) in
              Owned-left s o.at o.page frame fs table f ne
                (g.owned f b (sym (vacant-kept s fs f frame kept ne) ∙ taken))
        ];
      },
      free,
      λ a p.
          entry_after s.process o.at o.page minus_one a p o.inside
          ∙ ground (arith, ap (λ e. points_to e.pcb a) o.entry, ap (λ e. e.page) o.entry),
      λ f ne. vacant-kept s fs f frame kept ne,
      record {
        variables = refl;
        rest = rest_after s.process o.at o.page minus_one;
        sizes = sizes_after s.process o.at o.page minus_one;
      },
    )
