-- ===== src/Scheduling/Queue/Sorted.antt =====
-- sort_ready_queue sorts the first processes of the queue.
use pico_shell.Base.{
  Bool-cases, List, [], arith, inl, inr, length, refl, slt, some, ℕ, ◌<◌, ◌^◌, ◌∷◌, ◌≡◌, ◌≤◌,
}
use pico_shell.Memory.Manager.{Pcb}
use pico_shell.Scheduling.Queue.Arranged.{
  Arranged, backwards, first_last, in_place, last_first, last_two, neighbours,
}
use pico_shell.Scheduling.Queue.Sort.{exchange, exchange_row, exchange_rows, out_of_order, padded}

-- no process before one with a lower score
unfoldable pub IsSorted : (ℕ → Pcb) → List ℕ → Type 0
IsSorted process [] = Unit {0}
IsSorted process (a ∷ []) = Unit {0}
IsSorted process (a ∷ b ∷ l) =
    ((process a).job_score ≤ (process b).job_score) × IsSorted process (b ∷ l)

-- the loops of the sort, on three processes
exchange_rows_three :
    (process : ℕ → Pcb) (x y z : ℕ)
    → ((a : ℕ) → (process a).job_score < 2 ^ 31)
    → (l : List ℕ) × (exchange_rows process 3 0 (some x ∷ some y ∷ some z ∷ []) ≡ padded 3 l)
      × Arranged (x ∷ y ∷ z ∷ []) l
      × IsSorted process l
unfolding exchange_rows exchange_row exchange out_of_order IsSorted padded
exchange_rows_three process x y z small =
    let sx = small x in
    let sy = small y in
    let sz = small z in
    elim (Bool-cases (slt (process y).job_score (process x).job_score)) [
      | inl xy ↦ elim (Bool-cases (slt (process z).job_score (process y).job_score)) [
        | inl yz ↦ (
          z ∷ y ∷ x ∷ [],
          ground (arith, xy, yz),
          backwards x y z,
          (ground (arith, yz), (ground (arith, xy), tt)),
        )
        | inr yz ↦ elim (Bool-cases (slt (process z).job_score (process x).job_score)) [
          | inl xz ↦ (
            y ∷ z ∷ x ∷ [],
            ground (arith, xy, yz, xz),
            first_last x y z,
            (ground (arith, yz), (ground (arith, xz), tt)),
          )
          | inr xz ↦ (
            y ∷ x ∷ z ∷ [],
            ground (arith, xy, yz, xz),
            neighbours x y (z ∷ []),
            (ground (arith, xy), (ground (arith, xz), tt)),
          )
        ]
      ]
      | inr xy ↦ elim (Bool-cases (slt (process z).job_score (process x).job_score)) [
        | inl xz ↦ elim (Bool-cases (slt (process x).job_score (process y).job_score)) [
          | inl yx ↦ (
            z ∷ x ∷ y ∷ [],
            ground (arith, xy, xz, yx),
            last_first x y z,
            (ground (arith, xz), (ground (arith, yx), tt)),
          )
          | inr yx ↦ (
            z ∷ y ∷ x ∷ [],
            ground (arith, xy, xz, yx),
            backwards x y z,
            (ground (arith, xz, xy, yx), (ground (arith, yx), tt)),
          )
        ]
        | inr xz ↦ elim (Bool-cases (slt (process z).job_score (process y).job_score)) [
          | inl yz ↦ (
            x ∷ z ∷ y ∷ [],
            ground (arith, xy, xz, yz),
            last_two x y z,
            (ground (arith, xz), (ground (arith, yz), tt)),
          )
          | inr yz ↦ (
            x ∷ y ∷ z ∷ [],
            ground (arith, xy, xz, yz),
            in_place (x ∷ y ∷ z ∷ []),
            (ground (arith, xy), (ground (arith, yz), tt)),
          )
        ]
      ]
    ]

-- the loops of the sort, on an array that the processes may not fill
pub exchange_rows_lem :
    (process : ℕ → Pcb) (front : List ℕ)
    → length front ≤ 3
    → ((a : ℕ) → (process a).job_score < 2 ^ 31)
    → (l : List ℕ) × (exchange_rows process 3 0 (padded 3 front) ≡ padded 3 l)
      × Arranged front l
      × IsSorted process l
unfolding exchange_rows exchange_row exchange out_of_order IsSorted padded
exchange_rows_lem process [] h small = ([], refl, in_place [], tt)
exchange_rows_lem process (x ∷ []) h small =
    let sx = small x in (x ∷ [], ground arith, in_place (x ∷ []), tt)
exchange_rows_lem process (x ∷ y ∷ []) h small =
    let sx = small x in
    let sy = small y in
    elim (Bool-cases (slt (process y).job_score (process x).job_score)) [
      | inl xy ↦ (y ∷ x ∷ [], ground (arith, xy), neighbours x y [], (ground (arith, xy), tt))
      | inr xy ↦ (x ∷ y ∷ [], ground (arith, xy), in_place (x ∷ y ∷ []), (ground (arith, xy), tt))
    ]
exchange_rows_lem process (x ∷ y ∷ z ∷ []) h small = exchange_rows_three process x y z small
exchange_rows_lem process (x ∷ y ∷ z ∷ a ∷ l) h small = absurd (omega arith)
