-- ===== src/Scheduling/Scheduler/Pages.antt =====
-- How many page faults a process can still have.
use pico_shell.Base.{
  Bool-cases, ap, arith, false, get_or, if◌then◌else◌, inl, inr, minus_one, suc, sym, true, zero, ℕ,
  ◌+◌, ◌-◌, ◌/◌, ◌==◌, ◌∙◌, ◌≡◌, ◌≢◌, ◌≤◌,
}
use pico_shell.Memory.Frames.{frame_size}
use pico_shell.Memory.Manager.{MemState}
use pico_shell.Memory.Manager.Invariant.{table_at}

-- The pages of as many lines from the program counter on, less the one of the program counter if it
-- is present.
unfoldable pub needed : MemState → ℕ → ℕ → ℕ
needed s at zero = 0
needed s at (suc left) =
    let counter = (s.process at).program_counter in
    (counter + left + 3) / frame_size
    - counter / frame_size
    - (if table_at s at (counter / frame_size) == minus_one then 0 else 1)

-- the most pages that as many lines are in
abbrev pub most_pages : ℕ → ℕ
most_pages lines = (lines + 4) / frame_size

pub needed_most : (s : MemState) (at left : ℕ) → needed s at left ≤ most_pages left
unfolding needed
needed_most s at zero = omega arith
needed_most s at (suc left) =
    let counter = (s.process at).program_counter in
    elim (Bool-cases (table_at s at (counter / frame_size) == minus_one)) [
      | inl e ↦ rw e (omega arith)
      | inr e ↦ rw e (omega arith)
    ]

-- an absent page is needed
pub needed_absent :
    (s : MemState) (at left : ℕ)
    → table_at s at ((s.process at).program_counter / frame_size) ≡ minus_one
    → 1 ≤ needed s at (suc left)
unfolding needed
needed_absent s at left absent =
    let gone : table_at s at ((s.process at).program_counter / frame_size) == minus_one ≡ true =
      ground (arith, absent) in
    rw gone (omega arith)

-- after a line of a page that is present
pub needed-line :
    (s s' : MemState) (at left : ℕ)
    → (s'.process at).program_counter ≡ (s.process at).program_counter + 1
    → (s'.process at).page_table ≡ (s.process at).page_table
    → table_at s at ((s.process at).program_counter / frame_size) ≢ minus_one
    → needed s' at left ≤ needed s at (suc left)
unfolding needed
needed-line s s' at zero next table present = omega arith
needed-line s s' at (suc left) next table present =
    let c = (s.process at).program_counter in
    let here : table_at s at (c / frame_size) == minus_one ≡ false = ground (arith, present) in
    elim (Bool-cases (table_at s' at ((s'.process at).program_counter / frame_size) == minus_one)) [
      | inr e ↦ rw (here, e) (omega (arith, next))
      | inl e ↦
          let moved : (s'.process at).program_counter / frame_size ≢ c / frame_size = λ u. present (
            sym (ap (λ t. get_or t (c / frame_size) minus_one) table)
            ∙ ap (λ p. table_at s' at p) (sym u)
            ∙ ground (arith, e)) in
          rw (here, e) (omega (arith, next, moved))
    ]

-- after a page fault
pub needed-fault :
    (s s' : MemState) (at left : ℕ)
    → (s'.process at).program_counter ≡ (s.process at).program_counter
    → table_at s at ((s.process at).program_counter / frame_size) ≡ minus_one
    → table_at s' at ((s.process at).program_counter / frame_size) ≢ minus_one
    → needed s' at (suc left) + 1 ≤ needed s at (suc left)
unfolding needed
needed-fault s s' at left same absent present =
    let c = (s.process at).program_counter in
    let gone : table_at s at (c / frame_size) == minus_one ≡ true = ground (arith, absent) in
    let there : table_at s' at ((s'.process at).program_counter / frame_size) == minus_one ≡ false =
      ap (λ k. table_at s' at (k / frame_size) == minus_one) same ∙ ground (arith, present) in
    rw (gone, there) (omega (arith, same))
