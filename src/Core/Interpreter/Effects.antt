-- ===== src/Core/Interpreter/Effects.antt =====
-- What a command does to the variables, the disk and the operating system, and what it prints.
use pico_shell.Base.{
  Bool, List, [], ap, codes, false, if◌then◌else◌, refl, subst, sym, true, ℕ, ◌++◌, ◌+◌, ◌∙◌, ◌∷◌,
  ◌≡◌,
}
use pico_shell.Commands.Messages.{
  bad_command_error_occurred, badcommand, badcommand_dir_does_not_exist,
  badcommand_missing_arguments, badcommand_not_alphanum, badcommand_too_many_tokens,
  badcommand_variable_does_not_exist,
}
use pico_shell.System.{
  M, System, World, ask, finished, gets, go_on, in_world, prints, ret, world_of, ◌>>=◌, ◌>>◌,
}
use mathlib.Core.List.{append_assoc}

-- A command that does to the world what `act` says, prints what `says` says, and changes nothing
-- else; it returns a code.
pub record Effect (m : M ℕ) : Type 0 where
  pub act : World → ℕ × World
  pub says : World → List (List ℕ)
  pub runs :
      (s : System)
      → m s ≡ finished (act (world_of s)).0 (in_world s (act (world_of s)).1 (says (world_of s)))

pub if-Effect : (b : Bool) (x y : M ℕ) → Effect x → Effect y → Effect (if b then x else y)
if-Effect true x y p q = p
if-Effect false x y p q = q

-- a branch that is not taken
pub Effect-unless : (b : Bool) (x y : M ℕ) → b ≡ false → Effect y → Effect (if b then x else y)
Effect-unless b x y e q = subst (λ c. Effect (if c then x else y)) (sym e) q

pub ret-Effect : (code : ℕ) → Effect (ret code)
ret-Effect code = record { act = λ w. (code, w); says = λ w. []; runs = λ s. refl }

-- a step that reads the world and changes it, before a command that depends on what it read
pub step-Effect :
    {A : Type 0} (look : World → A) (move : World → World) (next : A → M ℕ)
    → ((a : A) → Effect (next a))
    → Effect (λ s. next (look (world_of s)) (in_world s (move (world_of s)) []))
step-Effect look move next p = record {
  act = λ w. (p (look w)).act (move w);
  says = λ w. (p (look w)).says (move w);
  runs = λ s. (p (look (world_of s))).runs (in_world s (move (world_of s)) []);
}

-- what a command printed, before what was printed
said_append :
    (code : ℕ) (s : System) (w : World) (said told : List (List ℕ))
    → finished code (in_world (record s { out = told ++ s.out }) w said)
      ≡ finished code (in_world s w (said ++ told))
said_append code s w said told =
    ap (λ o. finished code (record (in_world s w []) { out = o }))
      (sym (append_assoc said told s.out))

-- a line printed before
pub prints-Effect : (line : List ℕ) (m : M ℕ) → Effect m → Effect (prints line >> m)
prints-Effect line m p = record {
  act = p.act;
  says = λ w. p.says w ++ line ∷ [];
  runs = λ s.
      p.runs (record s { out = line ∷ s.out })
      ∙ said_append (p.act (world_of s)).0 s (p.act (world_of s)).1 (p.says (world_of s))
          (line ∷ []);
}

-- a message and a code
prints-ret-Effect : (message : List ℕ) (code : ℕ) → Effect (prints message >> ret code)
prints-ret-Effect message code = prints-Effect message (ret code) (ret-Effect code)

pub badcommand-Effect : Effect badcommand
unfolding badcommand
badcommand-Effect = prints-ret-Effect (codes "Unknown Command") 1

pub badcommand_missing_arguments-Effect : Effect badcommand_missing_arguments
unfolding badcommand_missing_arguments
badcommand_missing_arguments-Effect = prints-ret-Effect (codes "Bad command: Missing arguments") 2

pub badcommand_too_many_tokens-Effect : Effect badcommand_too_many_tokens
unfolding badcommand_too_many_tokens
badcommand_too_many_tokens-Effect = prints-ret-Effect (codes "Bad command: Too many tokens") 3

pub bad_command_error_occurred-Effect : Effect bad_command_error_occurred
unfolding bad_command_error_occurred
bad_command_error_occurred-Effect = prints-ret-Effect (codes "Bad command: An error occurred") 4

pub badcommand_variable_does_not_exist-Effect : Effect badcommand_variable_does_not_exist
unfolding badcommand_variable_does_not_exist
badcommand_variable_does_not_exist-Effect =
    prints-ret-Effect (codes "Bad command: Variable does not exist in shell memory") 6

pub badcommand_not_alphanum-Effect : Effect badcommand_not_alphanum
unfolding badcommand_not_alphanum
badcommand_not_alphanum-Effect =
    prints-ret-Effect (codes "Bad command: Directory/file name not alphanumeric") 7

pub badcommand_dir_does_not_exist-Effect : Effect badcommand_dir_does_not_exist
unfolding badcommand_dir_does_not_exist
badcommand_dir_does_not_exist-Effect =
    prints-ret-Effect (codes "Bad command: Directory name does not exist") 8

-- what a value of the world leads to
pub gets-Effect :
    {A : Type 0} (look : World → A) (next : A → M ℕ)
    → ((a : A) → Effect (next a))
    → Effect (gets (λ s. look (world_of s)) >>= next)
gets-Effect look next p = step-Effect look (λ w. w) next p

pub ask-Effect :
    {A : Type 0} (answer : ℕ → A) (next : A → M ℕ)
    → ((a : A) → Effect (next a))
    → Effect (ask answer >>= next)
ask-Effect answer next p =
    step-Effect (λ w. answer w.calls) (λ w. record w { calls = w.calls + 1 }) next p

-- a command, and one that depends on its code
pub seq-Effect :
    (m : M ℕ) (next : ℕ → M ℕ) → Effect m → ((code : ℕ) → Effect (next code)) → Effect (m >>= next)
seq-Effect m next p q = record {
  act = λ w. (q (p.act w).0).act (p.act w).1;
  says = λ w. (q (p.act w).0).says (p.act w).1 ++ p.says w;
  runs = λ s.
      let w = world_of s in
      let (code, w') = p.act w in
      ap (λ r. go_on r next) (p.runs s)
      ∙ (q code).runs (in_world s w' (p.says w))
      ∙ said_append ((q code).act w').0 s ((q code).act w').1 ((q code).says w') (p.says w);
}
