-- ===== src/Core/Shell/Line.antt =====
-- parseInput of a line runs its commands, and the variables of the shell.
use pico_shell.Base.{
  List, [], ap, ap₂, arith, codes, drop, false, get_or, length, length-append, ltb, map, refl,
  str_eq, suc, true, ℕ, ◌++◌, ◌<◌, ◌||◌, ◌∙◌, ◌∷◌, ◌≡◌, ◌≤◌,
}
use pico_shell.Commands.Variables.{print, print_value, set_command}
use pico_shell.Core.Interpreter.{
  arity, cut_newline, dispatch, exactly, interpreter, join_words, max_args_size,
}
use pico_shell.Core.Shell.{parse_input, run_commands}
use pico_shell.Core.Tokens.{max_user_input, newline}
use pico_shell.Core.Tokens.Commands.{AllWhole, IsWhole, join_commands, split_commands-join_commands}
use pico_shell.Core.Tokens.Words.{AllWords, at_newline, words_of-join_words}
use pico_shell.Memory.Variables.{VarEntry, vstore_set}
use pico_shell.Memory.Variables.Map.{has_room, knows, vstore_get-vstore_set}
use pico_shell.System.{Host, M, Outcome, System, exits, faults, finished, go_on, ret, spent}

go_on-ret : {A : Type 0} (r : Outcome A) → go_on r ret ≡ r
go_on-ret (finished a s) = refl
go_on-ret (exits code) = refl
go_on-ret faults = refl
go_on-ret spent = refl

-- parseInput of a line that is one command runs the interpreter on its words, with parseInput for
-- the lines of scripts, and returns what it returns: the command is made of at most a hundred words
-- that have no semicolon, space or end of a line in them and fit its arrays.
pub parse_input-join_words :
    (host : Host) (fuel : ℕ) (word : List ℕ) (words : List (List ℕ)) (s : System)
    → AllWords (word ∷ words)
    → IsWhole (join_words (word ∷ words) ++ newline ∷ [])
    → length words < 100
    → length (join_words (word ∷ words)) ≤ max_user_input
    → parse_input host (suc fuel) (join_words (word ∷ words) ++ newline ∷ []) s
      ≡ interpreter host (parse_input host fuel) fuel (word ∷ words) s
unfolding parse_input run_commands AllWhole join_commands
parse_input-join_words host fuel word words s w whole few h =
    let line = join_words (word ∷ words) ++ newline ∷ [] in
    let one =
      split_commands-join_commands line []
        (whole, omega (arith, length-append (join_words (word ∷ words)) (newline ∷ [])), tt)
        (omega arith) in
    let parts = words_of-join_words word words (newline ∷ []) w at_newline few h in
    rw (one, parts) (go_on-ret (interpreter host (parse_input host fuel) fuel (word ∷ words) s))

-- words that are not too many, and have no end of a line in them
pub interpreter_run :
    (host : Host) (parse : List ℕ → M ℕ) (fuel : ℕ) (args : List (List ℕ))
    → map cut_newline args ≡ args
    → 1 ≤ length args
    → length args ≤ max_args_size
    → interpreter host parse fuel args ≡ dispatch host parse fuel args
unfolding interpreter
interpreter_run host parse fuel args clean some_word few =
    let least : ltb (length args) 1 ≡ false = ground arith in
    let most : ltb max_args_size (length args) ≡ false = ground arith in
    rw (least, most) (ap (dispatch host parse fuel) clean)

pub arity_met :
    (least greatest : ℕ) (args : List (List ℕ)) (call : M ℕ)
    → least ≤ length args
    → length args ≤ greatest
    → arity least greatest args call ≡ call
unfolding arity
arity_met least greatest args call h b =
    let low : ltb (length args) least ≡ false = ground arith in
    let high : ltb greatest (length args) ≡ false = ground arith in rw (low, high) refl

names_clean :
    (cut_newline (codes "set") ≡ codes "set") × (cut_newline (codes "print") ≡ codes "print")
unfolding cut_newline
names_clean = (refl, refl)

head_equal : {a b : List ℕ} {l m : List (List ℕ)} → a ∷ l ≡ b ∷ m → a ≡ b
head_equal {a} e = ap (λ q. get_or q 0 a) e

dispatch-set_command :
    (host : Host) (parse : List ℕ → M ℕ) (fuel : ℕ) (name value : List ℕ) (values : List (List ℕ))
    → length values ≤ 4
    → dispatch host parse fuel (codes "set" ∷ name ∷ value ∷ values)
      ≡ set_command name (join_words (value ∷ values))
unfolding dispatch str_eq drop
dispatch-set_command host parse fuel name value values few =
    arity_met 3 max_args_size (codes "set" ∷ name ∷ value ∷ values)
      (set_command name (join_words (value ∷ values))) (omega arith) (omega arith)

dispatch-print :
    (host : Host) (parse : List ℕ → M ℕ) (fuel : ℕ) (name : List ℕ)
    → dispatch host parse fuel (codes "print" ∷ name ∷ []) ≡ print name
unfolding dispatch str_eq exactly
dispatch-print host parse fuel name = refl

-- The command set with the words of a value and then the command print of the name: the value, with a
-- space between two words, is printed, and nothing else has changed but the variables. The name is
-- in the table or an entry is free, and no word has an end of a line in it.
pub interpreter-set-print :
    (host : Host) (parse parse' : List ℕ → M ℕ) (fuel fuel' : ℕ) (name value : List ℕ)
    (values : List (List ℕ)) (s : System)
    → map cut_newline (name ∷ value ∷ values) ≡ name ∷ value ∷ values
    → length values ≤ 4
    → knows s.mem.vstore name || has_room s.mem.vstore ≡ true
    → (vstore : List VarEntry) × (interpreter host parse fuel
          (codes "set" ∷ name ∷ value ∷ values)
          s
        ≡ finished 0 (record s { mem = record s.mem { vstore = vstore } }))
      × (interpreter host parse' fuel'
            (codes "print" ∷ name ∷ [])
            (record s { mem = record s.mem { vstore = vstore } })
          ≡ finished 0 (record s {
            mem = record s.mem { vstore = vstore };
            out = join_words (value ∷ values) ∷ s.out;
          }))
unfolding set_command print print_value
interpreter-set-print host parse parse' fuel fuel' name value values s clean few room =
    let gets_back = vstore_get-vstore_set s.mem.vstore name (join_words (value ∷ values)) room in
    (
      vstore_set s.mem.vstore name (join_words (value ∷ values)),
      ap (λ run. run s)
          (interpreter_run host parse fuel (codes "set" ∷ name ∷ value ∷ values)
              (ap₂ ◌∷◌ names_clean.0 clean) (omega arith) (omega arith)
            ∙ dispatch-set_command host parse fuel name value values few),
      ap
            (λ run. run (record s {
              mem = record s.mem {
                vstore = vstore_set s.mem.vstore name (join_words (value ∷ values));
              };
            }))
            (interpreter_run host parse' fuel' (codes "print" ∷ name ∷ [])
                (ap₂ (λ c n. c ∷ n ∷ []) names_clean.1 (head_equal clean)) (omega arith)
                (omega arith)
              ∙ dispatch-print host parse' fuel' name)
          ∙ rw gets_back.0 refl,
    )
