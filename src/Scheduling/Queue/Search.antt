-- ===== src/Scheduling/Queue/Search.antt =====
-- The loops over the ready queue: find_duplicate_script and age_ready_queue.
use pico_shell.Base.{
  Bool-cases, List, Ptr, [], ap, arith, false, if◌then◌else◌, inl, inr, length, none, refl, slt,
  some, sub32, subst, suc, sym, zero, ℕ, ◌==◌, ◌∙◌, ◌∷◌, ◌≡◌, ◌≢◌, ◌≤◌,
}
use pico_shell.Memory.Lru.Chain.{AllFresh, Fresh, listed}
use pico_shell.Memory.Manager.{Pcb}
use pico_shell.Scheduling.Queue.{
  ReadyQueue, age_from, age_ready_queue, aged, find_duplicate_script, find_script, runs_script,
}
use pico_shell.Scheduling.Queue.Order.{Follows, Follows-same, IsQueue}

-- the first process of a list that runs a script
unfoldable pub first_running : (ℕ → Pcb) → List ℕ → List ℕ → Ptr ℕ
first_running process script [] = none
first_running process script (a ∷ l) =
    if runs_script script (process a).filename then some a else first_running process script l

find_script_lem :
    (process : ℕ → Pcb) (fuel : ℕ) (script : List ℕ) (p : Ptr ℕ) (l : List ℕ)
    → length l ≤ fuel
    → Follows process p l
    → find_script process fuel script p ≡ first_running process script l
unfolding find_script first_running Follows
find_script_lem process fuel script p [] h u = ap (find_script process fuel script) u
find_script_lem process zero script p (a ∷ l) h u = absurd (omega arith)
find_script_lem process (suc fuel) script p (a ∷ l) h u =
    ap (find_script process (suc fuel) script) u.0
    ∙ ap (λ r. if runs_script script (process a).filename then some a else r)
        (find_script_lem process fuel script (process a).next l (omega arith) u.1)

-- find_duplicate_script returns the first process of the queue that runs the script, and NULL if
-- none does.
pub find_duplicate_script_lem :
    (q : ReadyQueue) (l script : List ℕ)
    → IsQueue q l
    → find_duplicate_script q script ≡ first_running q.process script l
unfolding find_duplicate_script
find_duplicate_script_lem q l script o =
    find_script_lem q.process q.process_count script q.head l (omega (arith, o.count)) o.follows

-- the score of a process after the aging
abbrev pub lowered : ℕ → ℕ
lowered score = if slt 0 score then sub32 score 1 else score

aged_links : (process : ℕ → Pcb) (at a : ℕ) → (aged process at a).next ≡ (process a).next
unfolding aged
aged_links process at a = ground arith

Follows-aged :
    (process : ℕ → Pcb) (at : ℕ) (p : Ptr ℕ) (l : List ℕ)
    → Follows process p l
    → Follows (aged process at) p l
unfolding Follows
Follows-aged process at p [] u = u
Follows-aged process at p (a ∷ l) u = (
  u.0,
  subst (λ x. Follows (aged process at) x l) (sym (aged_links process at a))
      (Follows-aged process at (process a).next l u.1),
)

not_listed : (a : ℕ) (l : List ℕ) → Fresh a l → listed a l ≡ false
unfolding listed Fresh
not_listed a [] f = refl
not_listed a (b ∷ l) f = ground (arith, f.0, not_listed a l f.1)

aged_self :
    (process : ℕ → Pcb) (a : ℕ)
    → aged process a a ≡ record (process a) { job_score = lowered (process a).job_score }
unfolding aged
aged_self process a = ground arith

aged_other : (process : ℕ → Pcb) (at a : ℕ) → a ≢ at → aged process at a ≡ process a
unfolding aged
aged_other process at a ne = ground arith

-- the loop ages each process of the list once
age_from_lem :
    (fuel : ℕ) (process : ℕ → Pcb) (p : Ptr ℕ) (l : List ℕ)
    → length l ≤ fuel
    → Follows process p l
    → AllFresh l
    → (process' : ℕ → Pcb) × (age_from fuel process p ≡ some process')
      × ((a : ℕ)
          → process' a ≡ (
              if listed a l
              then record (process a) { job_score = lowered (process a).job_score }
              else process a))
unfolding age_from Follows AllFresh listed
age_from_lem fuel process p [] h u f = (process, ap (age_from fuel process) u, λ a. refl)
age_from_lem zero process p (b ∷ l) h u f = absurd (omega arith)
age_from_lem (suc fuel) process p (b ∷ l) h u f =
    let (process', run, ages) =
      age_from_lem fuel (aged process b) (aged process b b).next l (omega arith)
        (subst (λ x. Follows (aged process b) x l) (sym (aged_links process b b))
          (Follows-aged process b (process b).next l u.1))
        f.1 in
    (
      process',
      ap (age_from (suc fuel) process) u.0 ∙ run,
      λ a. elim (Bool-cases (a == b)) [
        | inl e ↦
            let same : b ≡ a = ground (arith, e) in
            ground (
              arith,
              e,
              ages a,
              not_listed a l (subst (λ c. Fresh c l) same f.0),
              ap (λ c. aged process c a) same,
              aged_self process a,
            )
        | inr e ↦
            let other : a ≢ b = ground (arith, e) in
            ground (arith, e, ages a, aged_other process b a other)
      ],
    )

-- age_ready_queue lowers the score of every process of the queue by one, where it is positive, and
-- changes nothing else: neither the order of the queue nor any other process.
pub age_ready_queue_lem :
    (q : ReadyQueue) (l : List ℕ)
    → IsQueue q l
    → (q' : ReadyQueue) × (age_ready_queue q ≡ some q')
      × IsQueue q' l
      × ((a : ℕ)
          → q'.process a ≡ (
              if listed a l
              then record (q.process a) { job_score = lowered (q.process a).job_score }
              else q.process a))
unfolding age_ready_queue
age_ready_queue_lem q l o =
    let (process, run, ages) =
      age_from_lem q.process_count q.process q.head l (omega (arith, o.count)) o.follows o.fresh in
    (
      record q { process = process },
      rw run refl,
      record {
        follows = Follows-same q.process process q.head l (λ a. ground (arith, ages a)) o.follows;
        fresh = o.fresh;
        count = o.count;
        few = o.few;
      },
      ages,
    )
