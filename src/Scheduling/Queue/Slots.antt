-- ===== src/Scheduling/Queue/Slots.antt =====
-- The processes that sort_ready_queue takes out of the queue and puts back.
use pico_shell.Base.{
  List, Ptr, [], add32, ap, arith, inl, inr, length, length-append, none, refl, some, some_equal,
  subst, suc, sym, zero, ℕ, ◌++◌, ◌+◌, ◌<◌, ◌^◌, ◌∙◌, ◌∷◌, ◌≡◌, ◌≢◌, ◌≤◌, ◌⊎◌,
}
use pico_shell.Memory.Lru.Chain.{AllFresh, Apart, Fresh, Fresh-join, Fresh-last_of, last_of}
use pico_shell.Memory.Manager.{Pcb}
use pico_shell.Scheduling.Queue.{
  ReadyQueue, append_process, link_last, pop_from, pop_process, set_link,
}
use pico_shell.Scheduling.Queue.Arranged.{AllUnlinked}
use pico_shell.Scheduling.Queue.Order.{
  Follows, IsQueue, append_process-IsQueue, append_process-set_link, pop_process_lem,
}
use pico_shell.Scheduling.Queue.Sort.{append_slots, padded, pop_slots}
use mathlib.Core.List.{append-nil, append_assoc}

-- a process without its link
abbrev pub without_link : Pcb → Pcb
without_link pcb = record pcb { next = none }

set_link-without_link :
    (process : ℕ → Pcb) (at : ℕ) (to : Ptr ℕ) (c : ℕ)
    → without_link (set_link process at to c) ≡ without_link (process c)
unfolding set_link
set_link-without_link process at to c = ground arith

set_link-none :
    (process : ℕ → Pcb) (at c : ℕ)
    → (process c).next ≡ none
    → (set_link process at none c).next ≡ none
unfolding set_link
set_link-none process at c n = ground arith

pop_process-set_link :
    (q q' : ReadyQueue) (at c : ℕ)
    → q.head ≡ some at
    → pop_process q ≡ (some at, q')
    → q'.process c ≡ set_link q.process at none c
unfolding pop_process pop_from
pop_process-set_link q q' at c h e = ap (λ r. r.1.process c) (sym e ∙ ap (pop_from q) h)

-- pop_process changes only links
pub pop_process-without_link :
    (q q' : ReadyQueue) (at c : ℕ)
    → q.head ≡ some at
    → pop_process q ≡ (some at, q')
    → without_link (q'.process c) ≡ without_link (q.process c)
pop_process-without_link q q' at c h e =
    ap without_link (pop_process-set_link q q' at c h e) ∙ set_link-without_link q.process at none c

AllUnlinked-kept :
    (process process' : ℕ → Pcb) (l : List ℕ)
    → ((c : ℕ) → (process c).next ≡ none → (process' c).next ≡ none)
    → AllUnlinked process l
    → AllUnlinked process' l
unfolding AllUnlinked
AllUnlinked-kept process process' [] keep u = tt
AllUnlinked-kept process process' (a ∷ l) keep u =
    (keep a u.0, AllUnlinked-kept process process' l keep u.1)

pub pop_slots_lem :
    (left : ℕ) (q : ReadyQueue) (front rest : List ℕ)
    → IsQueue q (front ++ rest)
    → length front ≤ left
    → (rest ≡ []) ⊎ (left ≡ length front)
    → (q' : ReadyQueue) × (pop_slots left q ≡ (padded left front, q'))
      × IsQueue q' rest
      × AllUnlinked q'.process front
      × ((c : ℕ) → without_link (q'.process c) ≡ without_link (q.process c))
      × ((c : ℕ) → (q.process c).next ≡ none → (q'.process c).next ≡ none)
unfolding pop_slots padded AllUnlinked Follows
pop_slots_lem zero q [] rest o h e = (q, refl, o, tt, λ c. refl, λ c u. u)
pop_slots_lem zero q (a ∷ front) rest o h e = absurd (omega arith)
pop_slots_lem (suc left) q [] rest o h (inr e) = absurd (omega arith)
pop_slots_lem (suc left) q [] rest o h (inl e) =
    let (q', pops, o', u, same, none_kept) = pop_slots_lem left q [] rest o (omega arith) (inl e) in
    (q', rw ((pop_process_lem q).1 (subst (IsQueue q) e o), pops) refl, o', tt, same, none_kept)
pop_slots_lem (suc left) q (a ∷ front) rest o h e =
    let (q₁, popped, o₁, first) = (pop_process_lem q).0 a (front ++ rest) o in
    let (q', pops, o', u, same, none_kept) =
      pop_slots_lem left q₁ front rest o₁ (omega arith)
        (elim e [ inl n ↦ inl n | inr m ↦ inr (omega (arith, m)) ]) in
    let link = λ (c : ℕ). pop_process-set_link q q₁ a c o.follows.0 popped in
    (
      q',
      rw (popped, pops) refl,
      o',
      (none_kept a (ap (λ p. p.next) first), u),
      λ c. same c ∙ pop_process-without_link q q₁ a c o.follows.0 popped,
      λ c n. none_kept c (ap (λ p. p.next) (link c) ∙ set_link-none q.process a c n),
    )

set_link_fresh :
    (process : ℕ → Pcb) (at c : ℕ) (to : Ptr ℕ) → c ≢ at → set_link process at to c ≡ process c
unfolding set_link
set_link_fresh process at c to ne = ground arith

Apart-snoc : (l r : List ℕ) (a : ℕ) → Apart l r → Fresh a l → Apart l (r ++ a ∷ [])
unfolding Apart Fresh
Apart-snoc [] r a h f = tt
Apart-snoc (b ∷ l) r a h f =
    (Fresh-join b r (a ∷ []) h.0 (λ e. f.0 (sym e), tt), Apart-snoc l r a h.1 f.1)

AllUnlinked-away :
    (process process' : ℕ → Pcb) (l r : List ℕ)
    → ((c : ℕ) → Fresh c r → process' c ≡ process c)
    → Apart l r
    → AllUnlinked process l
    → AllUnlinked process' l
unfolding AllUnlinked Apart
AllUnlinked-away process process' [] r kept h u = tt
AllUnlinked-away process process' (a ∷ l) r kept h u =
    (ap (λ p. p.next) (kept a h.0) ∙ u.0, AllUnlinked-away process process' l r kept h.1 u.1)

-- append_process changes no link but that of the last process
pub append_process-kept :
    (q q' : ReadyQueue) (at : ℕ) (l : List ℕ)
    → IsQueue q l
    → append_process q at ≡ some q'
    → ((c : ℕ) → Fresh c l → q'.process c ≡ q.process c)
      × ((c : ℕ) → without_link (q'.process c) ≡ without_link (q.process c))
unfolding append_process link_last Follows set_link
append_process-kept q q' at [] o e =
    let run = ap (link_last (record q { process_count = add32 q.process_count 1 }) at) o.follows in
    let whole = some_equal (sym e ∙ run) in
    (λ c f. ap (λ r. r.process c) whole, λ c. ap (λ r. without_link (r.process c)) whole)
append_process-kept q q' at (a ∷ l) o e =
    let whole = some_equal (sym e ∙ append_process-set_link q at a l o) in
    (
      λ c f.
          ap (λ r. r.process c) whole
          ∙ set_link_fresh q.process (last_of a l) c (some at) (Fresh-last_of c a l f),
      λ c.
          ap (λ r. without_link (r.process c)) whole
          ∙ set_link-without_link q.process (last_of a l) (some at) c,
    )

pub append_slots_lem :
    (left : ℕ) (q : ReadyQueue) (rest l : List ℕ)
    → IsQueue q rest
    → length l ≤ left
    → AllFresh l
    → Apart l rest
    → AllUnlinked q.process l
    → length rest + length l < 2 ^ 31
    → (q' : ReadyQueue) × (append_slots (padded left l) q ≡ some q')
      × IsQueue q' (rest ++ l)
      × ((c : ℕ) → without_link (q'.process c) ≡ without_link (q.process c))
unfolding append_slots padded AllUnlinked AllFresh Apart
append_slots_lem zero q rest [] o h f away u room =
    (q, refl, subst (IsQueue q) (sym (append-nil rest)) o, λ c. refl)
append_slots_lem zero q rest (a ∷ l) o h f away u room = absurd (omega arith)
append_slots_lem (suc left) q rest [] o h f away u room =
    append_slots_lem left q rest [] o (omega arith) tt tt tt room
append_slots_lem (suc left) q rest (a ∷ l) o h f away u room =
    let (q₁, run, o₁) = append_process-IsQueue q a rest o away.0 u.0 (omega arith) in
    let (kept, links) = append_process-kept q q₁ a rest o run in
    let (q', runs, o', same) =
      append_slots_lem left q₁ (rest ++ a ∷ []) l o₁ (omega arith) f.1
        (Apart-snoc l rest a away.1 f.0)
        (AllUnlinked-away q.process q₁.process l rest kept away.1 u.1)
        (omega (arith, length-append rest (a ∷ []))) in
    (q', rw run runs, subst (IsQueue q') (append_assoc rest (a ∷ []) l) o', λ c. same c ∙ links c)
