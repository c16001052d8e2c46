-- ===== src/Scheduling/Queue/Sorting.antt =====
-- What sort_ready_queue does to the queue.
use pico_shell.Base.{
  List, [], ap, arith, length, length-append, some, ℕ, ◌++◌, ◌<◌, ◌^◌, ◌∙◌, ◌∷◌, ◌≡◌, ◌≤◌, ◌⊎◌,
}
use pico_shell.Memory.Lru.Chain.{AllFresh-append}
use pico_shell.Memory.Manager.{Pcb}
use pico_shell.Scheduling.Queue.{ReadyQueue}
use pico_shell.Scheduling.Queue.Arranged.{
  AllFresh-Arranged, AllUnlinked-Arranged, Apart-Arranged, Arranged, Perm-Arranged, length-Arranged,
}
use pico_shell.Scheduling.Queue.Order.{IsQueue}
use pico_shell.Scheduling.Queue.Slots.{append_slots_lem, pop_slots_lem, without_link}
use pico_shell.Scheduling.Queue.Sort.{append_slots, max_num_programs, put_back, sort_ready_queue}
use pico_shell.Scheduling.Queue.Sorted.{IsSorted, exchange_rows_lem}
use mathlib.Core.List.{Perm}

pub IsSorted-same :
    (process process' : ℕ → Pcb) (l : List ℕ)
    → ((c : ℕ) → (process' c).job_score ≡ (process c).job_score)
    → IsSorted process l
    → IsSorted process' l
unfolding IsSorted
IsSorted-same process process' [] e s = tt
IsSorted-same process process' (a ∷ []) e s = tt
IsSorted-same process process' (a ∷ b ∷ l) e s =
    (omega (arith, e a, e b, s.0), IsSorted-same process process' (b ∷ l) e s.1)

-- the sort, with the exchanges that it makes
pub sort_ready_queue-Arranged :
    (q : ReadyQueue) (front rest : List ℕ)
    → IsQueue q (front ++ rest)
    → length front ≤ max_num_programs
    → (rest ≡ []) ⊎ (max_num_programs ≡ length front)
    → ((a : ℕ) → (q.process a).job_score < 2 ^ 31)
    → (q' : ReadyQueue) × (l : List ℕ) × (sort_ready_queue q ≡ some q')
      × IsQueue q' (rest ++ l)
      × Arranged front l
      × IsSorted q'.process l
      × ((a : ℕ) → without_link (q'.process a) ≡ without_link (q.process a))
unfolding sort_ready_queue put_back
sort_ready_queue-Arranged q front rest o h e small =
    let (q₁, pops, o₁, u, same₁, none_kept) = pop_slots_lem 3 q front rest o h e in
    let (l, rows, moved_so, sorted) =
      exchange_rows_lem q₁.process front h
        (λ a. omega (arith, small a, ap (λ p. p.job_score) (same₁ a))) in
    let (f, g, away) = AllFresh-append front rest o.fresh in
    let (q', appends, o', same₂) =
      append_slots_lem 3 q₁ rest l o₁ (omega (arith, length-Arranged moved_so))
        (AllFresh-Arranged moved_so f) (Apart-Arranged rest moved_so away)
        (AllUnlinked-Arranged q₁.process moved_so u)
        (omega (arith, o.few, length-Arranged moved_so, length-append front rest)) in
    (
      q',
      l,
      ap put_back pops ∙ ap (λ slots. append_slots slots q₁) rows ∙ appends,
      o',
      moved_so,
      IsSorted-same q₁.process q'.process l (λ c. ap (λ p. p.job_score) (same₂ c)) sorted,
      λ a. same₂ a ∙ same₁ a,
    )

-- sort_ready_queue sorts the first three processes of the queue by their scores, or all if there are
-- fewer, and puts them behind the rest. It changes nothing of a process but its link. The scores are
-- ints that are not negative.
pub sort_ready_queue-IsSorted :
    (q : ReadyQueue) (front rest : List ℕ)
    → IsQueue q (front ++ rest)
    → length front ≤ max_num_programs
    → (rest ≡ []) ⊎ (max_num_programs ≡ length front)
    → ((a : ℕ) → (q.process a).job_score < 2 ^ 31)
    → (q' : ReadyQueue) × (l : List ℕ) × (sort_ready_queue q ≡ some q')
      × IsQueue q' (rest ++ l)
      × Perm front l
      × IsSorted q'.process l
      × ((a : ℕ) → without_link (q'.process a) ≡ without_link (q.process a))
sort_ready_queue-IsSorted q front rest o h e small =
    let (q', l, run, o', moved_so, sorted, same) =
      sort_ready_queue-Arranged q front rest o h e small in
    (q', l, run, o', Perm-Arranged moved_so, sorted, same)
