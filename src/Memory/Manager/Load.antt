-- ===== src/Memory/Manager/Load.antt =====
-- mem_load_page_into_frame keeps the invariant.
use pico_shell.Base.{
  Bool-cases, [], ap, arith, get_or, get_or-set_ne, get_or-set_self, if◌then◌else◌, inl, inr,
  length, length-set, ltb, minus_one, none, refl, set, some, subst, sym, true, ℕ, ◌&&◌, ◌*◌, ◌++◌,
  ◌+◌, ◌<◌, ◌==◌, ◌∙◌, ◌∷◌, ◌≡◌, ◌≢◌, ◌≤◌, ◌⊎◌,
}
use pico_shell.Memory.Frames.{FrameStore, frame_size}
use pico_shell.Memory.Frames.Store.{vacant}
use pico_shell.Memory.Lru.{Lru, num_frames}
use pico_shell.Memory.Lru.Members.{Complete, Complete-front, listed-split}
use pico_shell.Memory.Lru.Order.{IsOrder}
use pico_shell.Memory.Manager.{
  MemState, entered, mem_load_page_into_frame, set_process, vacant_entry,
}
use pico_shell.Memory.Manager.Invariant.{
  Holds, Holds-vacant, IsPaged, Owned, SamePrograms, entry_after, rest_after, sizes_after, table_at,
}
use pico_shell.Memory.Manager.Paging.{IsProgram, IsStore, mem_load_page_into_frame-entered}
use pico_shell.Memory.Variables.{is_free}

-- the lines of two frames are apart
pub other_frame :
    (f frame i : ℕ)
    → f ≢ frame
    → i < frame_size
    → (f * frame_size + i < frame * frame_size)
      ⊎ (frame * frame_size + frame_size ≤ f * frame_size + i)
other_frame f frame i ne h = elim (Bool-cases (ltb f frame)) [
  | inl e ↦ let low : f < frame = ground (arith, e) in inl (omega arith)
  | inr e ↦ let high : frame ≤ f = ground (arith, e) in inr (omega arith)
]

-- what happens outside a frame leaves another frame vacant or not
pub vacant-kept :
    (s : MemState) (fs : FrameStore) (f frame : ℕ)
    → ((a : ℕ)
        → (a < frame * frame_size) ⊎ (frame * frame_size + frame_size ≤ a)
        → get_or fs.memory a none ≡ get_or s.fstore.memory a none)
    → f ≢ frame
    → vacant fs f ≡ vacant s.fstore f
vacant-kept s fs f frame kept ne =
    let far = other_frame f frame 0 ne (omega arith) in
    ap (λ a. is_free (get_or fs.memory a none)) (omega arith)
    ∙ ap is_free (kept (f * frame_size + 0) far)
    ∙ ap (λ a. is_free (get_or s.fstore.memory a none)) (omega arith)

-- a page of another frame is where it was
Holds-entered :
    (s : MemState) (at page frame : ℕ) (fs : FrameStore) (lru : Lru)
    → fs.frame_table ≡ s.fstore.frame_table
    → ((a : ℕ)
        → (a < frame * frame_size) ⊎ (frame * frame_size + frame_size ≤ a)
        → get_or fs.memory a none ≡ get_or s.fstore.memory a none)
    → (b p f : ℕ) → f ≢ frame
    → Holds s b p f
    → Holds (entered s at page frame fs lru) b p f
unfolding entered
Holds-entered s at page frame fs lru table kept b p f ne holds =
    let rest = rest_after s.process at page frame b in
    record {
      inside = holds.inside;
      entry =
          get_or-set_ne fs.frame_table frame f (record { page = page; pcb = some at }) vacant_entry
            (λ e. ne (sym e))
          ∙ ap (λ t. get_or t f vacant_entry) table
          ∙ holds.entry;
      lines = λ i h c.
          kept (f * frame_size + i) (other_frame f frame i ne h)
          ∙ holds.lines i h (omega (arith, c, ap (λ q. q.file_length) rest))
          ∙ ap (λ q. some (get_or q.file_contents (p * frame_size + i) [])) (sym rest);
    }

-- the page that was loaded
Holds-loaded :
    (s : MemState) (at page frame : ℕ) (fs : FrameStore) (lru : Lru)
    → IsStore fs
    → frame < num_frames
    → ((i : ℕ)
        → i < frame_size
        → page * frame_size + i < (s.process at).file_length
        → get_or fs.memory (frame * frame_size + i) none
          ≡ some (get_or (s.process at).file_contents (page * frame_size + i) []))
    → Holds (entered s at page frame fs lru) at page frame
unfolding entered
Holds-loaded s at page frame fs lru st h copied =
    let rest = rest_after s.process at page frame at in
    record {
      inside = h;
      entry =
          get_or-set_self fs.frame_table frame (record { page = page; pcb = some at }) vacant_entry
            (omega (arith, st.entries));
      lines = λ i b c.
          copied i b (omega (arith, c, ap (λ q. q.file_length) rest))
          ∙ ap (λ q. some (get_or q.file_contents (page * frame_size + i) [])) (sym rest);
    }

-- the owners of the frames
Owned-entered :
    (s : MemState) (at page frame : ℕ) (fs : FrameStore) (lru : Lru)
    → IsStore fs
    → fs.frame_table ≡ s.fstore.frame_table
    → page < length (s.process at).page_table
    → (f : ℕ) → f < num_frames
    → (f ≢ frame → Owned s f)
    → Owned (entered s at page frame fs lru) f
unfolding entered
Owned-entered s at page frame fs lru st table inside f h owned = elim (Bool-cases (f == frame)) [
  | inl e ↦
      let here : f ≡ frame = ground (arith, e) in
      record {
        page = page;
        at = at;
        entry =
            ap
              (λ q.
                get_or (set fs.frame_table frame (record { page = page; pcb = some at })) q
                  vacant_entry)
              here
            ∙ get_or-set_self fs.frame_table frame (record { page = page; pcb = some at })
                vacant_entry (omega (arith, st.entries));
        inside = omega (arith, inside, sizes_after s.process at page frame at);
      }
  | inr e ↦
      let ne : f ≢ frame = ground (arith, e) in
      let o = owned ne in
      record {
        page = o.page;
        at = o.at;
        entry =
            get_or-set_ne fs.frame_table frame f (record { page = page; pcb = some at })
              vacant_entry (λ u. ne (sym u))
            ∙ ap (λ t. get_or t f vacant_entry) table
            ∙ o.entry;
        inside = omega (arith, o.inside, sizes_after s.process at page frame o.at);
      }
]

SamePrograms-entered :
    (s : MemState) (at page frame : ℕ) (fs : FrameStore) (lru : Lru)
    → SamePrograms s (entered s at page frame fs lru)
unfolding entered
SamePrograms-entered s at page frame fs lru = record {
  variables = refl;
  rest = rest_after s.process at page frame;
  sizes = sizes_after s.process at page frame;
}

-- the page tables, where the frame was vacant
mapped-entered :
    (s : MemState) (at page frame : ℕ) (fs : FrameStore) (lru : Lru)
    → IsPaged s
    → page < length (s.process at).page_table
    → vacant s.fstore frame ≡ true
    → fs.frame_table ≡ s.fstore.frame_table
    → ((a : ℕ)
        → (a < frame * frame_size) ⊎ (frame * frame_size + frame_size ≤ a)
        → get_or fs.memory a none ≡ get_or s.fstore.memory a none)
    → Holds (entered s at page frame fs lru) at page frame
    → (b p : ℕ) → p * frame_size < ((entered s at page frame fs lru).process b).file_length
    → table_at (entered s at page frame fs lru) b p ≢ minus_one
    → Holds (entered s at page frame fs lru) b p (table_at (entered s at page frame fs lru) b p)
unfolding entered
mapped-entered s at page frame fs lru g inside free table kept loaded b p h present =
    let slot = entry_after s.process at page frame b p inside in
    let rest = rest_after s.process at page frame b in
    elim (Bool-cases (b == at && p == page)) [
      | inl e ↦
          let here : b ≡ at = ground (arith, e) in
          let same : p ≡ page = ground (arith, e) in
          subst (λ f. Holds (entered s at page frame fs lru) b p f) (ground (arith, slot, e))
            (subst (λ x. Holds (entered s at page frame fs lru) x p frame) (sym here)
              (subst (λ y. Holds (entered s at page frame fs lru) at y frame) (sym same) loaded))
      | inr e ↦
          let kept_slot : table_at (entered s at page frame fs lru) b p ≡ table_at s b p =
            ground (arith, slot, e) in
          let longer : p * frame_size < (s.process b).file_length =
            omega (arith, h, ap (λ q. q.file_length) rest) in
          let held = g.mapped b p longer (λ u. present (kept_slot ∙ u)) in
          let taken = Holds-vacant s b p (table_at s b p) longer held in
          subst (λ f. Holds (entered s at page frame fs lru) b p f) (sym kept_slot)
            (Holds-entered s at page frame fs lru table kept b p (table_at s b p)
              (λ u. absurd (ground (arith, taken, ap (vacant s.fstore) u, free))) held)
    ]

-- From one state to another, a page of a process is put into a frame: of all entries of page tables
-- and of all frames, no other has changed, and no other process.
pub record PageIn (s : MemState) (at page frame : ℕ) (s' : MemState) : Type 0 where
  pub slots : (a p : ℕ) → table_at s' a p ≡ (if a == at && p == page then frame else table_at s a p)
  pub others : (a : ℕ) → a ≢ at → s'.process a ≡ s.process a
  pub frames : (f : ℕ) → f ≢ frame → vacant s'.fstore f ≡ vacant s.fstore f
  pub programs : SamePrograms s s'

pub PageIn-there :
    (s s' : MemState) (at page frame : ℕ) → PageIn s at page frame s' → table_at s' at page ≡ frame
PageIn-there s s' at page frame i = i.slots at page ∙ ground arith

-- mem_load_page_into_frame of a page of a program, into a vacant frame, succeeds and keeps
-- the invariant. Then the page table names the frame for the page. No other entry of a page table,
-- no other field of a process, and no variable has changed, and every other frame is vacant if it
-- was.
pub mem_load_page_into_frame-IsPaged :
    (s : MemState) (at page frame : ℕ)
    → IsPaged s
    → IsProgram (s.process at)
    → page * frame_size < (s.process at).file_length
    → frame < num_frames
    → vacant s.fstore frame ≡ true
    → (s' : MemState) × (mem_load_page_into_frame s at page frame ≡ some s')
      × IsPaged s'
      × PageIn s at page frame s'
unfolding entered set_process
mem_load_page_into_frame-IsPaged s at page frame g p inside h free =
    let (before, after, parts, new) = listed-split frame g.frames (g.complete.every frame h) in
    let (fs, lru, run, st, table, copied, kept, order) =
      mem_load_page_into_frame-entered s at page frame before after p g.store inside h
        (subst (IsOrder s.lru) parts g.order) new in
    let room : page < length (s.process at).page_table = omega (arith, p.pages, p.short) in
    let loaded = Holds-loaded s at page frame fs lru st h copied in
    (
      entered s at page frame fs lru,
      run,
      record {
        store = record {
          lines = st.lines;
          entries =
              length-set fs.frame_table frame (record { page = page; pcb = some at }) ∙ st.entries;
        };
        frames = frame ∷ before ++ after;
        order = order;
        complete = Complete-front frame before after (subst Complete parts g.complete);
        mapped = mapped-entered s at page frame fs lru g room free table kept loaded;
        owned = λ f b full.
            Owned-entered s at page frame fs lru st table room f b
              (λ ne. g.owned f b (sym (vacant-kept s fs f frame kept ne) ∙ full));
      },
      record {
        slots = λ a q. entry_after s.process at page frame a q room;
        others = λ a ne. ground (arith, ne);
        frames = λ f ne. vacant-kept s fs f frame kept ne;
        programs = SamePrograms-entered s at page frame fs lru;
      },
    )
