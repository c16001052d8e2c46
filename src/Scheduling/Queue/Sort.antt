-- ===== src/Scheduling/Queue/Sort.antt =====
-- sort_ready_queue of scheduling/ready_queue.c.
use pico_shell.Base.{
  Bool, List, Option, Ptr, [], and_then, false, get_or, if◌then◌else◌, none, set, slt, some, suc,
  zero, ℕ, ◌+◌, ◌∷◌,
}
use pico_shell.Memory.Manager.{Pcb}
use pico_shell.Scheduling.Queue.{ReadyQueue, append_process, pop_process}

abbrev pub max_num_programs : ℕ
max_num_programs = 3

-- the first loop, with what it puts into the array
unfoldable pub pop_slots : ℕ → ReadyQueue → List (Ptr ℕ) × ReadyQueue
pop_slots zero q = ([], q)
pop_slots (suc left) q =
    let (popped, q') = pop_process q in
    let (slots, q'') = pop_slots left q' in (popped ∷ slots, q'')

-- `queue[i] != NULL && queue[j] != NULL && queue[i]->job_score > queue[j]->job_score`
unfoldable pub out_of_order : (ℕ → Pcb) → Ptr ℕ → Ptr ℕ → Bool
out_of_order process none y = false
out_of_order process (some a) none = false
out_of_order process (some a) (some b) = slt (process b).job_score (process a).job_score

unfoldable pub exchange : (ℕ → Pcb) → ℕ → ℕ → List (Ptr ℕ) → List (Ptr ℕ)
unfolding out_of_order
exchange process i j slots =
    if out_of_order process (get_or slots i none) (get_or slots j none)
    then set (set slots i (get_or slots j none)) j (get_or slots i none)
    else slots

-- the rounds left of the loop over `j`
unfoldable pub exchange_row : (ℕ → Pcb) → ℕ → ℕ → ℕ → List (Ptr ℕ) → List (Ptr ℕ)
unfolding exchange
exchange_row process i zero j slots = slots
exchange_row process i (suc left) j slots =
    exchange_row process i left (j + 1) (exchange process i j slots)

-- the rounds left of the loop over `i`, whose inner loop has as many
unfoldable pub exchange_rows : (ℕ → Pcb) → ℕ → ℕ → List (Ptr ℕ) → List (Ptr ℕ)
unfolding exchange_row
exchange_rows process zero i slots = slots
exchange_rows process (suc left) i slots =
    exchange_rows process left (i + 1) (exchange_row process i (suc left) i slots)

-- the last loop
unfoldable pub append_slots : List (Ptr ℕ) → ReadyQueue → Option ReadyQueue
append_slots [] q = some q
append_slots (none ∷ slots) q = append_slots slots q
append_slots (some at ∷ slots) q = and_then (append_process q at) (append_slots slots)

-- the two loops after the first
unfoldable pub put_back : List (Ptr ℕ) × ReadyQueue → Option ReadyQueue
unfolding exchange_rows append_slots
put_back (slots, q) = append_slots (exchange_rows q.process max_num_programs 0 slots) q

unfoldable pub sort_ready_queue : ReadyQueue → Option ReadyQueue
unfolding pop_slots put_back
sort_ready_queue q = put_back (pop_slots max_num_programs q)

-- an array of pointers to the processes of a list, and NULL behind them
unfoldable pub padded : ℕ → List ℕ → List (Ptr ℕ)
padded zero l = []
padded (suc left) [] = none ∷ padded left []
padded (suc left) (a ∷ l) = some a ∷ padded left l
