-- ===== src/Core/Interpreter/Quiet.antt =====
-- What a command that runs no script leaves as it is.
use pico_shell.Base.{Bool, List, false, if◌then◌else◌, refl, subst, sym, true, ℕ, ◌≡◌}
use pico_shell.Core.Interpreter.Effects.{Effect}
use pico_shell.Memory.Variables.{VarEntry}
use pico_shell.System.{M, Outcome, System, exits, faults, finished, spent, world_of}

-- Nothing that the scheduling reads has changed: the frames, the processes and the queue.
pub record Kept (s s' : System) : Type 0 where
  pub vstore : List VarEntry
  pub mem : s'.mem ≡ record s.mem { vstore = vstore }
  pub head : s'.head ≡ s.head
  pub process_count : s'.process_count ≡ s.process_count
  pub next_pcb : s'.next_pcb ≡ s.next_pcb

-- a return with such a state, or the end of the program, and nothing undefined
unfoldable pub QuietFrom : System → Outcome ℕ → Type 0
QuietFrom s (finished code s') = Kept s s'
QuietFrom s (exits code) = Unit {0}
QuietFrom s faults = ⊥
QuietFrom s spent = ⊥

unfoldable pub IsQuiet : M ℕ → Type 0
unfolding QuietFrom
IsQuiet m = (s : System) → QuietFrom s (m s)

pub if-IsQuiet : (b : Bool) (x y : M ℕ) → IsQuiet x → IsQuiet y → IsQuiet (if b then x else y)
if-IsQuiet true x y p q = p
if-IsQuiet false x y p q = q

-- a branch that is taken
pub IsQuiet-when : (b : Bool) (x y : M ℕ) → b ≡ true → IsQuiet x → IsQuiet (if b then x else y)
IsQuiet-when b x y e p = subst (λ c. IsQuiet (if c then x else y)) (sym e) p

pub Effect-IsQuiet : (m : M ℕ) → Effect m → IsQuiet m
unfolding IsQuiet QuietFrom
Effect-IsQuiet m e s =
    let w = (e.act (world_of s)).1 in
    subst (QuietFrom s) (sym (e.runs s))
      (record { vstore = w.vstore; mem = refl; head = refl; process_count = refl; next_pcb = refl })
