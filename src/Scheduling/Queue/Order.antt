-- ===== src/Scheduling/Queue/Order.antt =====
-- The ready queue as a list of processes.
use pico_shell.Base.{
  List, Ptr, [], add32, ap, arith, length, length-append, none, refl, some, subst, suc, sym, zero,
  ℕ, ◌++◌, ◌+◌, ◌<◌, ◌^◌, ◌∙◌, ◌∷◌, ◌≡◌, ◌≢◌,
}
use pico_shell.Memory.Lru.Chain.{AllFresh, Fresh, Fresh-join, Fresh-last_of, last_of}
use pico_shell.Memory.Manager.{Pcb}
use pico_shell.Scheduling.Queue.{
  ReadyQueue, append_process, appendleft_process, last_process, link_first, link_last, pop_from,
  pop_process, set_link, step_last,
}

-- A pointer leads through the processes of a list, and ends there.
unfoldable pub Follows : (ℕ → Pcb) → Ptr ℕ → List ℕ → Type 0
Follows process p [] = p ≡ none
Follows process p (a ∷ l) = (p ≡ some a) × Follows process (process a).next l

pub record IsQueue (q : ReadyQueue) (l : List ℕ) : Type 0 where
  pub follows : Follows q.process q.head l
  pub fresh : AllFresh l
  pub count : q.process_count ≡ length l
  pub few : length l < 2 ^ 31

Follows-set_link :
    (process : ℕ → Pcb) (at : ℕ) (to p : Ptr ℕ) (l : List ℕ)
    → Fresh at l
    → Follows process p l
    → Follows (set_link process at to) p l
unfolding Follows Fresh set_link
Follows-set_link process at to p [] f u = u
Follows-set_link process at to p (a ∷ l) f u = (
  u.0,
  subst (λ x. Follows (set_link process at to) x l) (ground (arith, f.0))
      (Follows-set_link process at to (process a).next l f.1 u.1),
)

pub Follows-same :
    (process process' : ℕ → Pcb) (p : Ptr ℕ) (l : List ℕ)
    → ((a : ℕ) → (process' a).next ≡ (process a).next)
    → Follows process p l
    → Follows process' p l
unfolding Follows
Follows-same process process' p [] e u = u
Follows-same process process' p (a ∷ l) e u = (
  u.0,
  subst (λ x. Follows process' x l) (sym (e a))
      (Follows-same process process' (process a).next l e u.1),
)

-- a queue is one after a change that keeps the links
pub IsQueue-same :
    (q q' : ReadyQueue) (l : List ℕ)
    → q'.head ≡ q.head
    → q'.process_count ≡ q.process_count
    → ((a : ℕ) → (q'.process a).next ≡ (q.process a).next)
    → IsQueue q l
    → IsQueue q' l
IsQueue-same q q' l h c e o = record {
  follows =
      subst (λ p. Follows q'.process p l) (sym h)
        (Follows-same q.process q'.process q.head l e o.follows);
  fresh = o.fresh;
  count = c ∙ o.count;
  few = o.few;
}

set_link_same :
    (process : ℕ → Pcb) (at : ℕ) (to : Ptr ℕ)
    → set_link process at to at ≡ record (process at) { next = to }
unfolding set_link
set_link_same process at to = ground arith

set_link_other :
    (process : ℕ → Pcb) (at a : ℕ) (to : Ptr ℕ)
    → a ≢ at
    → (set_link process at to a).next ≡ (process a).next
unfolding set_link
set_link_other process at a to ne = ground arith

-- pop_process of a queue that is not empty returns its first process, without its link, and leaves
-- the rest; of an empty queue it returns NULL and changes nothing.
pub pop_process_lem :
    (q : ReadyQueue)
    → ((at : ℕ) (l : List ℕ)
        → IsQueue q (at ∷ l)
        → (q' : ReadyQueue) × (pop_process q ≡ (some at, q'))
          × IsQueue q' l
          × (q'.process at ≡ record (q.process at) { next = none }))
      × (IsQueue q [] → pop_process q ≡ (none, q))
unfolding pop_process Follows AllFresh
pop_process_lem q = (
  λ at l o. (
    (pop_from q (some at)).1,
    ap (pop_from q) o.follows.0,
    record {
      follows = Follows-set_link q.process at none (q.process at).next l o.fresh.0 o.follows.1;
      fresh = o.fresh.1;
      count = ground (arith, o.count, o.few);
      few = omega (arith, o.few);
    },
    set_link_same q.process at none,
  ),
  λ o. ap (pop_from q) o.follows,
)

-- appendleft_process of a process that is not in the queue and has no link puts it in front.
pub appendleft_process-IsQueue :
    (q : ReadyQueue) (at : ℕ) (l : List ℕ)
    → IsQueue q l
    → Fresh at l
    → (q.process at).next ≡ none
    → length l + 1 < 2 ^ 31
    → IsQueue (appendleft_process q at) (at ∷ l)
unfolding appendleft_process Follows AllFresh
appendleft_process-IsQueue q at [] o new unlinked room =
    subst
      (λ h.
        IsQueue (link_first (record q { process_count = add32 q.process_count 1 }) at h) (at ∷ []))
      (sym o.follows)
      (record {
        follows = (refl, unlinked);
        fresh = (new, tt);
        count = ground (arith, o.count);
        few = omega arith;
      })
appendleft_process-IsQueue q at (b ∷ l) o new unlinked room =
    subst
      (λ h.
        IsQueue (link_first (record q { process_count = add32 q.process_count 1 }) at h)
          (at ∷ b ∷ l))
      (sym o.follows.0)
      (record {
        follows = (
          refl,
          subst (λ x. Follows (set_link q.process at (some b)) x (b ∷ l))
              (sym (ap (λ r. r.next) (set_link_same q.process at (some b))))
              (Follows-set_link q.process at (some b) (some b) (b ∷ l) new (refl, o.follows.1)),
        );
        fresh = (new, o.fresh);
        count = ground (arith, o.count);
        few = omega (arith, room);
      })

last_process_lem :
    (process : ℕ → Pcb) (fuel a : ℕ) (l : List ℕ)
    → length l < fuel
    → Follows process (process a).next l
    → last_process process fuel a ≡ some (last_of a l)
unfolding last_process Follows last_of
last_process_lem process zero a l h u = absurd (omega arith)
last_process_lem process (suc fuel) a [] h u = ap (step_last (last_process process fuel) a) u
last_process_lem process (suc fuel) a (b ∷ l) h u =
    ap (step_last (last_process process fuel) a) u.0
    ∙ last_process_lem process fuel b l (omega arith) u.1

Follows-append :
    (process : ℕ → Pcb) (at : ℕ) (p : Ptr ℕ) (a : ℕ) (l : List ℕ)
    → Follows process p (a ∷ l)
    → AllFresh (a ∷ l)
    → Fresh at (a ∷ l)
    → (process at).next ≡ none
    → Follows (set_link process (last_of a l) (some at)) p (a ∷ l ++ at ∷ [])
unfolding Follows AllFresh Fresh last_of
Follows-append process at p a [] u f new unlinked = (
  u.0,
  (
    ap (λ r. r.next) (set_link_same process a (some at)),
    set_link_other process a at (some at) new.0 ∙ unlinked,
  ),
)
Follows-append process at p a (b ∷ l) u f new unlinked = (
  u.0,
  subst (λ x. Follows (set_link process (last_of b l) (some at)) x (b ∷ l ++ at ∷ []))
      (sym (set_link_other process (last_of b l) a (some at) (Fresh-last_of a b l f.0)))
      (Follows-append process at (process a).next b l u.1 f.1 new.1 unlinked),
)

Fresh-snoc : (at : ℕ) (l : List ℕ) → AllFresh l → Fresh at l → AllFresh (l ++ at ∷ [])
unfolding AllFresh Fresh
Fresh-snoc at [] f new = (tt, tt)
Fresh-snoc at (a ∷ l) f new =
    (Fresh-join a l (at ∷ []) f.0 (λ e. new.0 (sym e), tt), Fresh-snoc at l f.1 new.1)

-- what append_process does to a queue that is not empty
pub append_process-set_link :
    (q : ReadyQueue) (at a : ℕ) (l : List ℕ)
    → IsQueue q (a ∷ l)
    → append_process q at
      ≡ some (record q {
        process = set_link q.process (last_of a l) (some at);
        process_count = add32 q.process_count 1;
      })
unfolding append_process Follows AllFresh link_last
append_process-set_link q at a l o =
    ap (link_last (record q { process_count = add32 q.process_count 1 }) at) o.follows.0
    ∙ rw
        (last_process_lem q.process (add32 q.process_count 1) a l (ground (arith, o.count))
          o.follows.1)
        refl

-- append_process of a process that is not in the queue and has no link puts it at the end.
pub append_process-IsQueue :
    (q : ReadyQueue) (at : ℕ) (l : List ℕ)
    → IsQueue q l
    → Fresh at l
    → (q.process at).next ≡ none
    → length l + 1 < 2 ^ 31
    → (q' : ReadyQueue) × (append_process q at ≡ some q') × IsQueue q' (l ++ at ∷ [])
unfolding append_process Follows AllFresh link_last
append_process-IsQueue q at [] o new unlinked room = (
  record q { head = some at; process_count = add32 q.process_count 1 },
  ap (link_last (record q { process_count = add32 q.process_count 1 }) at) o.follows,
  record {
    follows = (refl, unlinked);
    fresh = (tt, tt);
    count = ground (arith, o.count);
    few = omega arith;
  },
)
append_process-IsQueue q at (a ∷ l) o new unlinked room = (
  record q {
    process = set_link q.process (last_of a l) (some at);
    process_count = add32 q.process_count 1;
  },
  append_process-set_link q at a l o,
  record {
    follows = Follows-append q.process at q.head a l o.follows o.fresh new unlinked;
    fresh = Fresh-snoc at (a ∷ l) o.fresh new;
    count = ground (arith, o.count, length-append (a ∷ l) (at ∷ []));
    few = omega (arith, room, length-append (a ∷ l) (at ∷ []));
  },
)
