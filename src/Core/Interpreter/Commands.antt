-- ===== src/Core/Interpreter/Commands.antt =====
-- Each command that runs no script and resolves no path works on the world alone.
use pico_shell.Base.{
  Bool, Bool-cases, List, Option, Ptr, [], codes, drop, false, get_or, if◌then◌else◌, inl, inr,
  none, not, refl, some, str_eq, true, ℕ, ◌==◌, ◌∷◌, ◌≡◌,
}
use pico_shell.Commands.Files.{close_new, ls, touch}
use pico_shell.Commands.Messages.{bad_command_error_occurred, badcommand, badcommand_not_alphanum}
use pico_shell.Commands.Names.{help, is_valid_path, quit}
use pico_shell.Commands.Programs.{ffork, wait_child}
use pico_shell.Commands.Variables.{echo, print, print_value, set_command}
use pico_shell.Core.Interpreter.{arity, dispatch, exactly, join_words, max_args_size}
use pico_shell.Core.Interpreter.Effects.{
  Effect, Effect-unless, ask-Effect, bad_command_error_occurred-Effect, badcommand-Effect,
  badcommand_missing_arguments-Effect, badcommand_not_alphanum-Effect,
  badcommand_too_many_tokens-Effect, badcommand_variable_does_not_exist-Effect, gets-Effect,
  if-Effect, prints-Effect, ret-Effect,
}
use pico_shell.Core.Interpreter.Quiet.{Effect-IsQuiet, IsQuiet, IsQuiet-when, QuietFrom, if-IsQuiet}
use pico_shell.Memory.Variables.{vstore_get, vstore_set}
use pico_shell.System.{Host, M, ask, prints, ret, ◌>>=◌, ◌>>◌}

help-Effect : Effect help
unfolding help
help-Effect = prints-Effect _ _ (
    prints-Effect _ _ (
      prints-Effect _ _ (
        prints-Effect _ _ (
          prints-Effect _ _ (
            prints-Effect _ _ (
              prints-Effect _ _ (
                prints-Effect _ _ (
                  prints-Effect _ _ (
                    prints-Effect _ _ (
                      prints-Effect _ _
                        (prints-Effect _ _ (prints-Effect _ _ (ret-Effect 0)))))))))))))

quit-IsQuiet : IsQuiet quit
unfolding quit IsQuiet QuietFrom
quit-IsQuiet s = tt

set_command-Effect : (var value : List ℕ) → Effect (set_command var value)
unfolding set_command
set_command-Effect var value = record {
  act = λ w. (0, record w { vstore = vstore_set w.vstore var value });
  says = λ w. [];
  runs = λ s. refl;
}

print_value-Effect : (value : Ptr (List ℕ)) → Effect (print_value value)
unfolding print_value
print_value-Effect none = badcommand_variable_does_not_exist-Effect
print_value-Effect (some value) = prints-Effect value (ret 0) (ret-Effect 0)

print-Effect : (var : List ℕ) → Effect (print var)
unfolding print
print-Effect var = gets-Effect (λ w. vstore_get w.vstore var) print_value print_value-Effect

echo-Effect : (var : List ℕ) → Effect (echo var)
unfolding echo
echo-Effect [] = prints-Effect [] (ret 0) (ret-Effect 0)
echo-Effect (c ∷ var) =
    if-Effect (c == b'$') (print var) (prints (c ∷ var) >> ret 0) (print-Effect var)
      (prints-Effect (c ∷ var) (ret 0) (ret-Effect 0))

ls-Effect : Effect ls
unfolding ls
ls-Effect = ask-Effect (λ call. tt) (λ done. ret 0) (λ done. ret-Effect 0)

close_new-Effect :
    (host : Host) (filename : List ℕ) (opened : Bool) → Effect (close_new host filename opened)
unfolding close_new
close_new-Effect host filename false = bad_command_error_occurred-Effect
close_new-Effect host filename true =
    ask-Effect (λ call. host.closes call filename)
      (λ closed. if not closed then bad_command_error_occurred else ret 0)
      (λ closed.
        if-Effect (not closed) bad_command_error_occurred (ret 0) bad_command_error_occurred-Effect
          (ret-Effect 0))

touch-Effect : (host : Host) (filename : List ℕ) → Effect (touch host filename)
unfolding touch
touch-Effect host filename =
    if-Effect (not (is_valid_path filename)) badcommand_not_alphanum
      (ask (λ call. host.opens call filename) >>= close_new host filename)
      badcommand_not_alphanum-Effect
      (ask-Effect (λ call. host.opens call filename) (close_new host filename)
        (close_new-Effect host filename))

wait_child-Effect : (status : Option ℕ) → Effect (wait_child status)
unfolding wait_child
wait_child-Effect none = bad_command_error_occurred-Effect
wait_child-Effect (some status) = ret-Effect status

ffork-Effect : (host : Host) (args : List (List ℕ)) → Effect (ffork host args)
unfolding ffork
ffork-Effect host args =
    ask-Effect (λ call. host.child_status call args) wait_child wait_child-Effect

arity-Effect :
    (least greatest : ℕ) (args : List (List ℕ)) (call : M ℕ)
    → Effect call
    → Effect (arity least greatest args call)
unfolding arity
arity-Effect least greatest args call p =
    if-Effect _ _ _ badcommand_missing_arguments-Effect
      (if-Effect _ _ _ badcommand_too_many_tokens-Effect p)

exactly-Effect :
    (size : ℕ) (args : List (List ℕ)) (call : M ℕ) → Effect call → Effect (exactly size args call)
unfolding exactly
exactly-Effect size args call p = if-Effect _ _ _ badcommand-Effect p

-- A command that runs no script and resolves no path.
pub record IsOrdinary (name : List ℕ) : Type 0 where
  pub run : str_eq name (codes "run") ≡ false
  pub exec : str_eq name (codes "exec") ≡ false
  pub mkdir : str_eq name (codes "mkdir") ≡ false
  pub rmdir : str_eq name (codes "rmdir") ≡ false
  pub cd : str_eq name (codes "cd") ≡ false

-- The command of a line whose first word is none of run, exec, mkdir, rmdir, cd and quit works on the
-- world alone.
pub dispatch-Effect :
    (host : Host) (parse : List ℕ → M ℕ) (fuel : ℕ) (args : List (List ℕ))
    → str_eq (get_or args 0 []) (codes "quit") ≡ false
    → IsOrdinary (get_or args 0 [])
    → Effect (dispatch host parse fuel args)
unfolding dispatch
dispatch-Effect host parse fuel args q o =
    let arg = get_or args 1 [] in
    if-Effect _ _ _ (exactly-Effect 1 args help help-Effect) (
      Effect-unless _ _ _ q (
        if-Effect _ _ _
          (arity-Effect 3 max_args_size args _ (set_command-Effect arg (join_words (drop 2 args))))
          (if-Effect _ _ _ (exactly-Effect 2 args _ (print-Effect arg)) (
            Effect-unless _ _ _ o.run (
              if-Effect _ _ _ (arity-Effect 2 2 args _ (echo-Effect arg)) (
                if-Effect _ _ _ (arity-Effect 0 1 args _ ls-Effect) (
                  Effect-unless _ _ _ o.mkdir (
                    Effect-unless _ _ _ o.rmdir (
                      if-Effect _ _ _ (arity-Effect 2 2 args _ (touch-Effect host arg)) (
                        Effect-unless _ _ _ o.cd (
                          if-Effect _ _ _
                            (arity-Effect 2 max_args_size args _ (ffork-Effect host (drop 1 args)))
                            (Effect-unless _ _ _ o.exec badcommand-Effect))))))))))))

exactly-IsQuiet :
    (size : ℕ) (args : List (List ℕ)) (call : M ℕ) → IsQuiet call → IsQuiet (exactly size args call)
unfolding exactly
exactly-IsQuiet size args call p = if-IsQuiet _ _ _ (Effect-IsQuiet badcommand badcommand-Effect) p

-- The command of a line whose first word is none of run, exec, mkdir, rmdir and cd never does what C
-- leaves undefined: it returns or ends the program. It leaves the frames, the processes and
-- the ready queue as they are.
pub dispatch-IsQuiet :
    (host : Host) (parse : List ℕ → M ℕ) (fuel : ℕ) (args : List (List ℕ))
    → IsOrdinary (get_or args 0 [])
    → IsQuiet (dispatch host parse fuel args)
unfolding dispatch
dispatch-IsQuiet host parse fuel args o =
    elim (Bool-cases (str_eq (get_or args 0 []) (codes "quit"))) [
      | inl q ↦
          if-IsQuiet _ _ _ (Effect-IsQuiet _ (exactly-Effect 1 args help help-Effect))
            (IsQuiet-when _ _ _ q (exactly-IsQuiet 1 args quit quit-IsQuiet))
      | inr q ↦ Effect-IsQuiet _ (dispatch-Effect host parse fuel args q o)
    ]
