-- ===== src/Memory/MemTests.antt =====
-- src/memory at concrete inputs.
use pico_shell.Base.{
  List, [], arith, false, get_or, if◌then◌else◌, leb, length, ltb, minus_one, none, refl, replicate,
  some, str_eq, ℕ, ◌&&◌, ◌++◌, ◌==◌, ◌∷◌, ◌≡◌, ◌≢◌,
}
use pico_shell.Memory.Frames.{FrameStore, frame_store_size, fstore_get, fstore_init, fstore_set}
use pico_shell.Memory.Frames.Store.{fstore_get-fstore_set, fstore_set_outside}
use pico_shell.Memory.Lru.{Lru, access_frame, lru_init}
use pico_shell.Memory.Lru.Chain.{Fresh}
use pico_shell.Memory.Lru.Init.{count_from, lru_init-IsOrder}
use pico_shell.Memory.Lru.Order.{IsOrder, access_frame-IsOrder}
use pico_shell.Memory.Manager.{
  MemState, Pcb, max_page_table_size, mem_free_memory_frame, vacant_entry,
}
use pico_shell.Memory.Manager.Paging.{IsProgram, IsStore, mem_free_memory_frame_lem}
use pico_shell.Memory.Variables.{is_free, names_var, vstore_get, vstore_init, vstore_set}
use pico_shell.Memory.Variables.Map.{has_room, knows, vstore_get-vstore_set}

vstore_get-vstore_set_example :
    (vstore_get (vstore_set vstore_init (120 ∷ []) (49 ∷ [])) (120 ∷ []) ≡ some (49 ∷ []))
    × ((other : List ℕ)
        → str_eq (120 ∷ []) other ≡ false
        → vstore_get (vstore_set vstore_init (120 ∷ []) (49 ∷ [])) other
          ≡ vstore_get vstore_init other)
unfolding knows has_room is_free names_var
vstore_get-vstore_set_example = vstore_get-vstore_set vstore_init (120 ∷ []) (49 ∷ []) refl

first-IsOrder : IsOrder lru_init ((0 ∷ []) ++ 1 ∷ count_from 2 98)
unfolding count_from
first-IsOrder = lru_init-IsOrder

access_frame-IsOrder_example :
    (s' : Lru) × (access_frame 1 lru_init ≡ some s') × IsOrder s' (1 ∷ (0 ∷ []) ++ count_from 2 98)
unfolding Fresh
access_frame-IsOrder_example =
    access_frame-IsOrder lru_init (0 ∷ []) 1 (count_from 2 98) first-IsOrder (omega arith, tt)
      (omega arith)

last-IsOrder : IsOrder lru_init (count_from 0 99 ++ 99 ∷ [])
unfolding count_from
last-IsOrder = lru_init-IsOrder

init_size : length fstore_init.memory ≡ 300
init_size = refl

fstore_get-fstore_set_example :
    (s' : FrameStore) × (fstore_set fstore_init (120 ∷ []) 7 ≡ some s')
    × (fstore_get s' 7 ≡ some (some (120 ∷ [])))
    × ((other : ℕ) → other ≢ 7 → fstore_get s' other ≡ fstore_get fstore_init other)
    × (s'.frame_table ≡ fstore_init.frame_table)
fstore_get-fstore_set_example =
    fstore_get-fstore_set fstore_init (120 ∷ []) 7 init_size (omega arith)

fstore_set_outside_example :
    fstore_set fstore_init (120 ∷ []) 300
    ≡ (if 300 == frame_store_size then none else some fstore_init)
fstore_set_outside_example =
    fstore_set_outside fstore_init (120 ∷ []) 300 init_size (omega arith) (omega arith)

-- a program of two lines
abbrev two_lines : Pcb
two_lines = record {
  pid = 1;
  filename = some (112 ∷ []);
  file_contents = (97 ∷ []) ∷ (98 ∷ []) ∷ [];
  file_length = 2;
  page_table = replicate max_page_table_size minus_one;
  program_counter = 0;
  job_score = 2;
  next = none;
}

abbrev idle : MemState
idle = record {
  vstore = vstore_init;
  fstore = fstore_init;
  lru = lru_init;
  process = λ a. two_lines;
}

two_lines-IsProgram : IsProgram two_lines
unfolding is_free
two_lines-IsProgram = record {
  lines = omega arith;
  short = omega arith;
  pages = refl;
  alive = refl;
}

init-IsStore : IsStore fstore_init
init-IsStore = record { lines = init_size; entries = refl }

-- the first frame holds the first page of a process
abbrev paged : MemState
paged = record idle {
  fstore = record fstore_init {
    frame_table = record { page = 0; pcb = some 5 } ∷ replicate 99 vacant_entry;
  };
}

mem_free_memory_frame_lem_example :
    (s' : MemState) × (mem_free_memory_frame paged 0 ≡ some s')
    × ((a : ℕ)
        → fstore_get s'.fstore a
          ≡ (if leb 0 a && ltb a 3 then some none else fstore_get paged.fstore a))
    × (get_or s'.fstore.frame_table 0 vacant_entry ≡ vacant_entry)
    × (get_or (s'.process 5).page_table 0 0 ≡ minus_one)
    × ((other : ℕ) → other ≢ 5 → s'.process other ≡ two_lines)
unfolding is_free
mem_free_memory_frame_lem_example =
    mem_free_memory_frame_lem paged 0 0 5 (record { lines = init_size; entries = refl })
      (omega arith) refl (omega arith) refl
