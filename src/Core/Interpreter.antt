-- ===== src/Core/Interpreter.antt =====
-- core/interpreter.c: a command's words, and the function that they call.
pub mod Effects
pub mod Quiet
pub mod Commands
pub mod Safety
use pico_shell.Base.{
  List, Ptr, [], codes, drop, get_or, if◌then◌else◌, length, ltb, map, none, not, some, str_eq, suc,
  zero, ℕ, ◌++◌, ◌-◌, ◌==◌, ◌||◌, ◌∷◌,
}
use pico_shell.Commands.Files.{cd, ls, mmkdir, rmdir, touch}
use pico_shell.Commands.Messages.{
  badcommand, badcommand_missing_arguments, badcommand_too_many_tokens,
}
use pico_shell.Commands.Names.{help, quit}
use pico_shell.Commands.Programs.{exec, ffork, run_script}
use pico_shell.Commands.Variables.{echo, print, set_command}
use pico_shell.Core.Tokens.{newline, space}
use pico_shell.Scheduling.Queue.Sort.{max_num_programs}
use pico_shell.System.{Host, M}

abbrev pub max_args_size : ℕ
max_args_size = 7

-- `command_args[i][strcspn(command_args[i], "\r\n")] = 0`
unfoldable pub cut_newline : List ℕ → List ℕ
cut_newline [] = []
cut_newline (c ∷ arg) =
    let rest = cut_newline arg in if c == 13 || c == newline then [] else c ∷ rest

-- the words of a value, with a space between two
unfoldable pub join_words : List (List ℕ) → List ℕ
join_words [] = []
join_words (word ∷ []) = word
join_words (word ∷ next_word ∷ words) = word ++ space ∷ join_words (next_word ∷ words)

-- `args_size` less than the least number of words, or more than the greatest
unfoldable pub arity : ℕ → ℕ → List (List ℕ) → M ℕ → M ℕ
unfolding badcommand_missing_arguments badcommand_too_many_tokens
arity least greatest args call =
    if ltb (length args) least
    then badcommand_missing_arguments
    else if ltb greatest (length args)
    then badcommand_too_many_tokens
    else call

-- `args_size` other than the number of words
unfoldable pub exactly : ℕ → List (List ℕ) → M ℕ → M ℕ
unfolding badcommand
exactly size args call = if not (length args == size) then badcommand else call

-- the programs of exec: the words between exec and the last, in an array of three that are NULL
unfoldable pub programs_of : List (List ℕ) → ℕ → List (Ptr (List ℕ))
programs_of args zero = []
programs_of args (suc left) =
    let i = max_num_programs - left in
    let programs = programs_of args left in
    (if ltb i (length args - 1) then some (get_or args i []) else none) ∷ programs

-- Set joins the words in an array of MAX_USER_INPUT characters, which a line's words fit.
unfoldable pub dispatch : Host → (List ℕ → M ℕ) → ℕ → List (List ℕ) → M ℕ
unfolding badcommand arity exactly programs_of join_words help quit set_command print run_script
    echo ls mmkdir rmdir touch cd ffork exec drop
dispatch host parse fuel args =
    let name = get_or args 0 [] in
    let arg = get_or args 1 [] in
    if str_eq name (codes "help")
    then exactly 1 args help
    else if str_eq name (codes "quit")
    then exactly 1 args quit
    else if str_eq name (codes "set")
    then arity 3 max_args_size args (set_command arg (join_words (drop 2 args)))
    else if str_eq name (codes "print")
    then exactly 2 args (print arg)
    else if str_eq name (codes "run")
    then exactly 2 args (run_script host parse fuel arg)
    else if str_eq name (codes "echo")
    then arity 2 2 args (echo arg)
    else if str_eq name (codes "ls")
    then arity 0 1 args ls
    else if str_eq name (codes "mkdir")
    then arity 2 2 args (mmkdir host arg)
    else if str_eq name (codes "rmdir")
    then arity 2 2 args (rmdir host arg)
    else if str_eq name (codes "touch")
    then arity 2 2 args (touch host arg)
    else if str_eq name (codes "cd")
    then arity 2 2 args (cd host arg)
    else if str_eq name (codes "fork")
    then arity 2 max_args_size args (ffork host (drop 1 args))
    else if str_eq name (codes "exec")
    then arity 3 5 args (
        exec host parse fuel (programs_of args max_num_programs) (get_or args (length args - 1) []))
    else badcommand

unfoldable pub interpreter : Host → (List ℕ → M ℕ) → ℕ → List (List ℕ) → M ℕ
unfolding cut_newline badcommand badcommand_too_many_tokens
interpreter host parse fuel args =
    if ltb (length args) 1
    then badcommand
    else if ltb max_args_size (length args)
    then badcommand_too_many_tokens
    else dispatch host parse fuel (map cut_newline args)
