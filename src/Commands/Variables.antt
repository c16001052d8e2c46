-- ===== src/Commands/Variables.antt =====
-- The commands set, print and echo.
use pico_shell.Base.{List, Ptr, [], if◌then◌else◌, none, some, ℕ, ◌==◌, ◌∷◌}
use pico_shell.Commands.Messages.{badcommand_variable_does_not_exist}
use pico_shell.Memory.Variables.{vstore_get, vstore_set}
use pico_shell.System.{M, gets, on_memory, prints, ret, ◌>>=◌, ◌>>◌}

unfoldable pub set_command : List ℕ → List ℕ → M ℕ
unfolding vstore_set
set_command var value = do
  on_memory λ mem. some (record mem { vstore = vstore_set mem.vstore var value })
  ret 0

-- what print does with the value, or NULL
unfoldable pub print_value : Ptr (List ℕ) → M ℕ
unfolding badcommand_variable_does_not_exist
print_value none = badcommand_variable_does_not_exist
print_value (some value) = do prints value; ret 0

unfoldable pub print : List ℕ → M ℕ
unfolding print_value vstore_get
print var = do value ← gets λ s. vstore_get s.mem.vstore var; print_value value

unfoldable pub echo : List ℕ → M ℕ
unfolding print
echo [] = do prints []; ret 0
echo (c ∷ var) = if c == b'$' then print var else (do prints (c ∷ var); ret 0)
