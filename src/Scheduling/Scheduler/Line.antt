-- ===== src/Scheduling/Scheduler/Line.antt =====
-- A process runs a line of its program.
use pico_shell.Base.{
  List, [], add32, ap, arith, get_or, length, ltb, minus_one, refl, some, subst, true, ℕ, ◌%◌, ◌*◌,
  ◌++◌, ◌+◌, ◌/◌, ◌<◌, ◌∷◌, ◌≡◌, ◌≢◌,
}
use pico_shell.Memory.Frames.{frame_size, fstore_get}
use pico_shell.Memory.Lru.{Lru, access_frame, num_frames}
use pico_shell.Memory.Lru.Members.{Complete, Complete-front, listed-split}
use pico_shell.Memory.Lru.Order.{IsOrder, access_frame-IsOrder}
use pico_shell.Memory.Manager.{MemState, Pcb, set_process}
use pico_shell.Memory.Manager.Invariant.{
  IsPaged, IsPaged-program_of, IsPaged-variables, program_of-set_process, table_at,
}
use pico_shell.Memory.Manager.Paging.{IsProgram}
use pico_shell.Scheduling.Process.{process_at, put_process}
use pico_shell.Scheduling.Scheduler.{parse_line, run_line}
use pico_shell.System.{M, System, World, finished, in_world, world_of}

-- `parse` of such a line does to the world what `act` says, prints what `says` says, and changes
-- nothing else; it returns a code.
pub record OnlyWorld (Allowed : List ℕ → Type 0) (parse : List ℕ → M ℕ)
    (act : List ℕ → World → ℕ × World) (says : List ℕ → World → List (List ℕ)) : Type 0 where
  pub runs :
      (line : List ℕ) (s : System)
      → Allowed line
      → parse line s
        ≡ finished
            (act line (world_of s)).0
            (in_world s (act line (world_of s)).1 (says line (world_of s)))

-- lines that are all such
unfoldable pub AllLines : (List ℕ → Type 0) → List (List ℕ) → Type 0
AllLines Allowed [] = Unit {0}
AllLines Allowed (line ∷ lines) = Allowed line × AllLines Allowed lines

pub AllLines-append :
    (Allowed : List ℕ → Type 0) (l m : List (List ℕ))
    → AllLines Allowed l
    → AllLines Allowed m
    → AllLines Allowed (l ++ m)
unfolding AllLines
AllLines-append Allowed [] m p q = q
AllLines-append Allowed (line ∷ l) m (p, r) q = (p, AllLines-append Allowed l m r q)

pub AllLines-parts :
    (Allowed : List ℕ → Type 0) (l m : List (List ℕ))
    → AllLines Allowed (l ++ m)
    → AllLines Allowed l × AllLines Allowed m
unfolding AllLines
AllLines-parts Allowed [] m p = (tt, p)
AllLines-parts Allowed (line ∷ l) m (p, r) =
    let (q, t) = AllLines-parts Allowed l m r in ((p, q), t)

-- the line that comes next
abbrev pub line_of : Pcb → List ℕ
line_of pcb = get_or pcb.file_contents pcb.program_counter []

-- the state after the line of a process
unfoldable pub moved_on : System → ℕ → Lru → World → List (List ℕ) → System
unfolding set_process
moved_on s at lru w said =
    let pcb = s.mem.process at in
    record s {
      mem = record s.mem {
        vstore = w.vstore;
        lru = lru;
        process =
            set_process s.mem.process at
              (record pcb { program_counter = add32 pcb.program_counter 1 });
      };
      disk = w.disk;
      cwd = w.cwd;
      calls = w.calls;
      out = said ++ s.out;
    }

-- what the next line of a process does, and the state after it
abbrev pub did : (List ℕ → World → ℕ × World) → System → ℕ → ℕ × World
did act s at = act (line_of (s.mem.process at)) (world_of s)

abbrev pub went :
    (List ℕ → World → ℕ × World) → (List ℕ → World → List (List ℕ)) → System → ℕ → Lru → System
went act says s at lru =
    moved_on s at lru (did act s at).1 (says (line_of (s.mem.process at)) (world_of s))

-- the pages after access_frame of a frame of the order
access_frame-IsPaged :
    (s : MemState) (frame : ℕ)
    → IsPaged s
    → frame < num_frames
    → (lru : Lru) × (access_frame frame s.lru ≡ some lru) × IsPaged (record s { lru = lru })
access_frame-IsPaged s frame g h =
    let (before, after, parts, new) = listed-split frame g.frames (g.complete.every frame h) in
    let (lru, run, order) =
      access_frame-IsOrder s.lru before frame after (subst (IsOrder s.lru) parts g.order) new
        (omega arith) in
    (
      lru,
      run,
      record {
        store = g.store;
        frames = frame ∷ before ++ after;
        order = order;
        complete = Complete-front frame before after (subst Complete parts g.complete);
        mapped = λ at page h present.
            let held = g.mapped at page h present in
            record { inside = held.inside; entry = held.entry; lines = held.lines };
        owned = λ f b full.
            let o = g.owned f b full in
            record { page = o.page; at = o.at; entry = o.entry; inside = o.inside };
      },
    )

-- A process that has a line to run, whose page is present, runs the line of its program that the
-- program counter names, and goes on to the next.
pub run_line_lem :
    {Allowed : List ℕ → Type 0} (parse : List ℕ → M ℕ) (act : List ℕ → World → ℕ × World)
    (says : List ℕ → World → List (List ℕ)) (s : System) (at : ℕ)
    → OnlyWorld Allowed parse act says
    → Allowed (line_of (s.mem.process at))
    → IsPaged s.mem
    → IsProgram (s.mem.process at)
    → (s.mem.process at).program_counter < (s.mem.process at).file_length
    → table_at s.mem at ((s.mem.process at).program_counter / frame_size) ≢ minus_one
    → (lru : Lru) × IsPaged (went act says s at lru).mem
      × (run_line parse at (table_at s.mem at ((s.mem.process at).program_counter / frame_size)) s
          ≡ finished (did act s at).0 (went act says s at lru))
unfolding run_line put_process process_at fstore_get parse_line moved_on set_process
run_line_lem parse act says s at only ok g p h present =
    let pcb = s.mem.process at in
    let page = pcb.program_counter / frame_size in
    let offset = pcb.program_counter % frame_size in
    let frame = table_at s.mem at page in
    let held = g.mapped at page (omega arith) present in
    let (lru, run, g') = access_frame-IsPaged s.mem frame g held.inside in
    let line = held.lines offset (omega arith) (omega arith) in
    let bound : ltb (frame * frame_size + offset) (length s.mem.fstore.memory) ≡ true =
      ground (arith, g.store.lines, held.inside) in
    let text : get_or pcb.file_contents (page * frame_size + offset) [] ≡ line_of pcb =
      ap (λ q. get_or pcb.file_contents q []) (omega arith) in
    (
      lru,
      IsPaged-variables
          (record s.mem {
            lru = lru;
            process =
                set_process s.mem.process at
                  (record pcb { program_counter = add32 pcb.program_counter 1 });
          })
          (did act s at).1.vstore
          (IsPaged-program_of (record s.mem { lru = lru })
            (set_process s.mem.process at
              (record pcb { program_counter = add32 pcb.program_counter 1 }))
            (λ a.
              program_of-set_process s.mem.process at a
                (record pcb { program_counter = add32 pcb.program_counter 1 }) refl)
            g'),
      rw
          (
            run,
            bound,
            line,
            text,
            only.runs (line_of pcb) (record s { mem = record s.mem { lru = lru } }) ok,
          )
          refl,
    )
